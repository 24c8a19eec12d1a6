-- ===== src/Run.antt =====
-- core/fs_run.h and core/fs_run.c: the stack of open blocks, and the array of their contexts.
pub mod Stack
pub mod Dangling
use folksong.Prelude.{
  ℕ, suc, ◌+◌, ◌-◌, ◌%◌, ◌^◌, Bool, true, false, Option, none, some, ◌==◌, if◌then◌else◌, join,
  get_elem?,
}
use folksong.Arr
use folksong.Arr.{Arr, Malloc}
use folksong.Cmd.{Cmd}
use folksong.Queue
use folksong.Queue.{Links}

-- A `void **` into the context array: the generation of the block that it points into, and a slot.
pub record Slot : Type 0 where
  pub block : ℕ
  pub index : ℕ

-- `fs_st_mod_s`, less its link: the module's number, the command, and `ctx` (`none` is NULL)
pub record Frame : Type 0 where
  pub module_nth : ℕ
  pub cmd : Cmd
  pub ctx : Option Slot

-- `fs_run_s`. The frames stand at the addresses of their links; `st_mod`, the header, has address
-- 0, and `malloc` hands out `fresh`, which no frame has. A context is a `void *`, `none` while
-- nothing is written to its slot. `block` counts the blocks that `ctx->elems` has had.
pub record Run : Type 0 where
  pub ctx : Arr ℕ
  pub block : ℕ
  pub links : Links
  pub frames : ℕ → Frame
  pub fresh : ℕ
  pub st_depth : ℕ

abbrev pub header : ℕ
header = 0

-- sizeof(fs_st_mod_t)
abbrev pub sizeof_st_mod : ℕ
sizeof_st_mod = 40

unfoldable pub init : Malloc → Links → (ℕ → Frame) → ℕ → Option Run
unfolding Arr.alloc Queue.init
init malloc links frames fresh = elim (Arr.alloc malloc 8 8) [
  | none ↦ none
  | some ctx ↦ some (record {
    ctx = ctx;
    block = 0;
    links = Queue.init header links;
    frames = frames;
    fresh = fresh;
    st_depth = 0;
  })
]

unfoldable pub st_empty : Run → Bool
unfolding Queue.empty
st_empty r = Queue.empty header r.links

-- the frame at the top, meaningless on an empty stack; and the one below it
abbrev pub st_top : Run → Frame
st_top r = r.frames (r.links.next header)

abbrev pub st_subtop : Run → Frame
st_subtop r = r.frames (r.links.next (r.links.next header))

-- `*ctx`: `none` for a read through NULL or into a released block; the `void *` read is itself
-- `none` while its slot is not written
unfoldable pub load_ctx : Run → Option Slot → Option (Option ℕ)
load_ctx r none = none
load_ctx r (some s) = if s.block == r.block then some (Arr.nth r.ctx s.index) else none

-- `*ctx = v`: `none` through NULL or into a released block
unfoldable pub store_ctx : Run → Option Slot → Option ℕ → Option Run
store_ctx r none v = none
store_ctx r (some s) none = some r
store_ctx r (some s) (some v) =
    if s.block == r.block then some (record r { ctx = Arr.put r.ctx s.index v }) else none

-- `fs_run_ctx_push`: a growing array moves to the next block
unfoldable pub ctx_push : Malloc → Run → Option Slot × Run
unfolding Arr.push Arr.is_full
ctx_push malloc r = elim (Arr.push malloc r.ctx) [
  | none ↦ (none, r)
  | some (n, ctx) ↦
      let block = if Arr.is_full r.ctx then suc r.block else r.block in
      (some (record { block = block; index = n }), record r { ctx = ctx; block = block })
]

-- `fs_run_st_push`: `none` is the NULL frame of a failed allocation, written through
unfoldable pub st_push : Malloc → Run → ℕ → Cmd → Option Run
unfolding ctx_push Queue.insert_after Queue.init
st_push malloc r nth cmd =
    let q = r.fresh in
    if malloc sizeof_st_mod
    then (let (slot, r') = ctx_push malloc r in
        some (record r' {
          links = Queue.insert_after header q (Queue.init q r'.links);
          frames = λ p.
              if p == q then record { module_nth = nth; cmd = cmd; ctx = slot } else r'.frames p;
          fresh = q + 1;
          st_depth = (r.st_depth + 1) % 2 ^ 32;
        }))
    else none

-- `fs_run_st_pop`
unfoldable pub st_pop : Run → Run
unfolding Queue.remove
st_pop r = record r {
  links = Queue.remove (r.links.next header) r.links;
  st_depth = (r.st_depth + 2 ^ 32 - 1) % 2 ^ 32;
}

-- `conf->run->ctx->ele_count--`
abbrev pub ctx_drop : Run → Run
ctx_drop r = record r { ctx = record r.ctx { ele_count = (r.ctx.ele_count + 2 ^ 32 - 1) % 2 ^ 32 } }
