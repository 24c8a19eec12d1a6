-- ===== src/Conf/Stack.antt =====
-- What `fs_conf_handle` of core/fs_conf.c does to the stack of open blocks: the steps it shares.
pub mod Blocks
pub mod Statement
use folksong.Prelude.{
  ℕ, suc, ◌+◌, ◌^◌, ◌<◌, ◌≡◌, refl, ◌∙◌, ap, sym, Bool, true, false, Option, none, some, List, [],
  ◌∷◌, length, arith, if◌then◌else◌, Bool-cases, Option-cases, inl, inr, get_elem?, not, ◌&&◌, ◌||◌,
}
use folksong.Arr
use folksong.Queue.Ring.{empty-IsRing}
use folksong.Cmd.{Cmd, is_end}
use folksong.Conf.{Conf, Mod}
use folksong.Conf.Contexts.{set_mod, share_ctx, use_block, with_run, stored_ctx, uncount}
use folksong.Conf.Handle
use folksong.Conf.Handle.{
  Handled, handled, Tried, again, over, matches, handle_end, try_param, pass_block, call_block,
  open_block, open_subblock, try_block, try_cmd, try_cmds, try_mods, or_else, handle, completed_of,
  looked_up, conclude, complete, finish, unwind, call_used, with_world,
}
use folksong.Os.{Os}
use folksong.Run
use folksong.Run.{Run, Slot, load_ctx, store_ctx, st_push, st_pop, st_top, ctx_drop}
use folksong.Run.Stack.{IsStack, PushSpec, st_push-PushSpec, st_pop-IsStack}
use folksong.Str.{Str}
use folksong.Token.{Ret, ok, error, file_done_ret, pass, block_start, block_end, is_ok, is_pass}

-- the stack behind a statement that is no end of a block
abbrev pub After : Ret → List ℕ → List ℕ → Type 0
After ok at at' = at' ≡ at
After _ at at' = (q : ℕ) × (at' ≡ q ∷ at)

-- A statement that is taken leaves a stack as `P` says; nothing is said of one that is refused.
abbrev pub Leaves : {W : Type 0} → (List ℕ → Type 0) → Handled W → Type 0
Leaves P (handled ok c) = (at' : List ℕ) × IsStack c.run at' × P at'
Leaves P (handled error c) = Unit
Leaves P (handled _ c) = ⊥
Leaves P Handle.fault = Unit

-- and a command that passes leaves the stack as it was
abbrev pub Tries : {W : Type 0} → Ret → List ℕ → Tried W → Type 0
Tries status at (again first c) = IsStack c.run at
Tries status at (over h) = Leaves (After status at) h

pub ctx_drop-IsStack : {r : Run} {at : List ℕ} → IsStack r at → IsStack (ctx_drop r) at
ctx_drop-IsStack s = record {
  ring = s.ring;
  below = s.below;
  fresh_pos = s.fresh_pos;
  depth = s.depth;
}

-- the parts of a run that the stack stands on
pub record SameStack (r r' : Run) : Type 0 where
  pub links : r'.links ≡ r.links
  pub fresh : r'.fresh ≡ r.fresh
  pub depth : r'.st_depth ≡ r.st_depth

pub same-IsStack : {r r' : Run} {at : List ℕ} → SameStack r r' → IsStack r at → IsStack r' at
same-IsStack same s = record {
  ring = rw same.links s.ring;
  below = rw same.fresh s.below;
  fresh_pos = rw same.fresh s.fresh_pos;
  depth = same.depth ∙ s.depth;
}

-- contexts are written beside the stack
pub store_ctx-SameStack :
    (r : Run) (slot : Option Slot) (v : Option ℕ) (r' : Run)
    → store_ctx r slot v ≡ some r'
    → SameStack r r'
unfolding store_ctx
store_ctx-SameStack r none v r' e = absurd (ground (arith, e))
store_ctx-SameStack r (some slot) none r' e = ground (arith, e)
store_ctx-SameStack r (some slot) (some v) r' e = ground (arith, e)

module _ {W : Type 0} where
  pub complete-Leaves :
      (f : Option (Conf W → Option ℕ → Ret × W)) (c : Conf W) (q : ℕ) (at : List ℕ)
      → IsStack c.run (q ∷ at)
      → suc (length at) < 2 ^ 32
      → Leaves (λ at'. at' ≡ at) (complete f c)
  complete-Leaves none c q at s room = (at, (st_pop-IsStack c.run q at s room).0, refl)
  complete-Leaves (some f) c q at s room = elim (Option-cases (load_ctx c.run (st_top c.run).ctx)) [
    | inl missing ↦ rw (Leaves, complete, missing) tt
    | inr (v, e) ↦
        rw (Leaves, complete, e)
          (elim (Bool-cases (is_ok (f c v).0)) [
            | inl done ↦ rw (Leaves, done) (at, (st_pop-IsStack c.run q at s room).0, refl)
            | inr failed ↦ rw (Leaves, failed) tt
          ])
  ]

  pub finish-Leaves :
      (m : Mod W) (status : Ret) (c : Conf W) (q : ℕ) (at : List ℕ)
      → IsStack c.run (q ∷ at)
      → suc (length at) < 2 ^ 32
      → Leaves (After status at) (finish m status c)
  finish-Leaves m ok c q at s room = complete-Leaves m.completed c q at s room
  finish-Leaves m error c q at s room = (q ∷ at, s, (q, refl))
  finish-Leaves m file_done_ret c q at s room = (q ∷ at, s, (q, refl))
  finish-Leaves m pass c q at s room = (q ∷ at, s, (q, refl))
  finish-Leaves m block_start c q at s room = (q ∷ at, s, (q, refl))
  finish-Leaves m block_end c q at s room = (q ∷ at, s, (q, refl))

  pub unwind-IsStack :
      (c : Conf W) (q : ℕ) (at : List ℕ)
      → IsStack c.run (q ∷ at)
      → suc (length at) < 2 ^ 32
      → IsStack (unwind c).run at
  unwind-IsStack c q at s room = (st_pop-IsStack (ctx_drop c.run) q at (ctx_drop-IsStack s) room).0

  pub pass_block-Tries :
      (i : ℕ) (status : Ret) (first : Bool) (c : Conf W) (q : ℕ) (at : List ℕ)
      → IsStack c.run (q ∷ at)
      → suc (length at) < 2 ^ 32
      → Tries status at (pass_block i first c)
  unfolding pass_block
  pass_block-Tries i status first c q at s room = elim (Option-cases (get_elem? c.mods i)) [
    | inl missing ↦ rw (Tries, pass_block, missing) tt
    | inr (m, e) ↦
        rw (Tries, pass_block, e)
          (elim (Option-cases (uncount m.ctxs)) [
            | inl bad ↦ rw (Tries, pass_block, bad) tt
            | inr (ctxs, e') ↦ rw (Tries, pass_block, e') (unwind-IsStack c q at s room)
          ])
  ]

  pub call_block-Tries :
      (i : ℕ) (m : Mod W) (cmd : Cmd) (status : Ret) (first : Bool) (c : Conf W) (q : ℕ)
      (at : List ℕ)
      → IsStack c.run (q ∷ at)
      → suc (length at) < 2 ^ 32
      → Tries status at (call_block i m cmd status first c)
  unfolding call_block
  call_block-Tries i m cmd status first c q at s room =
      elim (Option-cases (load_ctx c.run (st_top c.run).ctx)) [
        | inl missing ↦ rw (Tries, call_block, missing) tt
        | inr (v, e) ↦
            rw (Tries, call_block, e)
              (elim (Bool-cases (is_ok (m.call cmd.call c v).0)) [
                | inl done ↦
                    rw (Tries, call_block, done)
                      (finish-Leaves m status (with_world c (m.call cmd.call c v).1) q at s room)
                | inr other ↦
                    rw (Tries, call_block, other)
                      (elim (Bool-cases (is_pass (m.call cmd.call c v).0)) [
                        | inl passed ↦
                            rw (Tries, call_block, passed)
                              (pass_block-Tries i status first
                                (with_world c (m.call cmd.call c v).1) q at s room)
                        | inr failed ↦ rw (Tries, call_block, failed) tt
                      ])
              ])
      ]

  pub share_ctx-SameStack : (c c' : Conf W) → share_ctx c ≡ some c' → SameStack c.run c'.run
  unfolding share_ctx
  share_ctx-SameStack c c' e = ground (arith, e, store_ctx-SameStack c.run (st_top c.run).ctx)

  pub use_block-run :
      (os : Os) (i : ℕ) (c c' : Conf W) (first : Bool)
      → use_block os i c ≡ some (first, c')
      → c'.run ≡ c.run
  unfolding use_block
  use_block-run os i c c' first e = ground (arith, e)
