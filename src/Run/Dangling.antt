-- ===== src/Run/Dangling.antt =====
-- The context array moves when it is full; a frame pushed before then keeps a pointer into the
-- block that was released.
use folksong.Prelude.{
  ℕ, suc, ◌*◌, ◌%◌, ◌^◌, ◌≡◌, ◌≤◌, refl, Bool, true, false, Option, none, some, arith,
  if◌then◌else◌, Bool-cases, inl, inr,
}
use folksong.Arr
use folksong.Arr.{Arr, Malloc}
use folksong.Cmd.{Cmd}
use folksong.Run.{Run, Slot, sizeof_st_mod, load_ctx, ctx_push, st_push}

-- a pointer into the array's present block or an earlier one
abbrev pub IsPast : Run → Slot → Type 0
IsPast r s = s.block ≤ r.block

-- what the push makes of the context array and its block
record Pushed (malloc : Malloc) (r : Run) : Type 0 where
  block : (ctx_push malloc r).1.block ≡ (if Arr.is_full r.ctx then suc r.block else r.block)
  elems : (Arr.is_full r.ctx ≡ false) → (ctx_push malloc r).1.ctx.elems ≡ r.ctx.elems

ctx_push-Pushed : (malloc : Malloc) (r : Run) → ((k : ℕ) → malloc k ≡ true) → Pushed malloc r
unfolding ctx_push Arr.push Arr.grow
ctx_push-Pushed malloc r got = elim (Bool-cases (Arr.is_full r.ctx)) [
  | inl full ↦ record {
    block = ground (arith, full, got ((Arr.capa_size r.ctx * 2) % 2 ^ 64));
    elems = λ e. ground (arith, full, e);
  }
  | inr space ↦ record { block = ground (arith, space); elems = λ e. ground (arith, space) }
]

load_ctx-moved :
    (b : Bool) (r r' : Run) (s : Slot)
    → r'.block ≡ (if b then suc r.block else r.block)
    → (b ≡ false → r'.ctx.elems ≡ r.ctx.elems)
    → IsPast r s
    → load_ctx r' (some s) ≡ (if b then none else load_ctx r (some s))
unfolding load_ctx
load_ctx-moved true r r' s block elems past = ground arith
load_ctx-moved false r r' s block elems past = rw (block, elems refl)

-- how a push that gets its memory leaves a pointer of an open frame
abbrev pub Leaves : Run → Slot → Option Run → Type 0
Leaves r s none = ⊥
Leaves r s (some r') =
    load_ctx r' (some s) ≡ (if Arr.is_full r.ctx then none else load_ctx r (some s))

-- A block pushed while the context array has a free slot leaves the contexts of the open blocks;
-- pushed while it is full, it leaves every one of them a pointer into released memory.
pub st_push-Leaves :
    (malloc : Malloc) (r : Run) (nth : ℕ) (cmd : Cmd) (s : Slot)
    → ((k : ℕ) → malloc k ≡ true)
    → IsPast r s
    → Leaves r s (st_push malloc r nth cmd)
unfolding st_push
st_push-Leaves malloc r nth cmd s got past =
    let p = ctx_push-Pushed malloc r got in
    rw (got sizeof_st_mod) (load_ctx-moved (Arr.is_full r.ctx) r _ s p.block p.elems past)
