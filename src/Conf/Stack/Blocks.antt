-- ===== src/Conf/Stack/Blocks.antt =====
-- The stack of open blocks behind the commands of blocks in `fs_conf_handle` of core/fs_conf.c.
use folksong.Prelude.{
  ℕ, suc, ◌^◌, ◌<◌, ◌≡◌, refl, Bool, true, false, List, ◌∷◌, length, if◌then◌else◌, Option-cases,
  inl, inr,
}
use folksong.Cmd.{Cmd}
use folksong.Conf.{Conf, Mod}
use folksong.Conf.Contexts.{share_ctx, use_block, with_run}
use folksong.Conf.Handle.{
  handled, Tried, again, over, open_block, open_subblock, try_block, unwind, call_used, with_world,
}
use folksong.Os.{Os}
use folksong.Run.{store_ctx, st_push, st_top}
use folksong.Run.Stack.{IsStack, st_push-PushSpec}
use folksong.Token.{Ret, ok, error, file_done_ret, pass, block_start, block_end, is_ok, is_pass}
use folksong.Conf.Stack.{
  use_block-run, Tries, same-IsStack, store_ctx-SameStack, unwind-IsStack, call_block-Tries,
  share_ctx-SameStack,
}

module _ {W : Type 0} where
  pub if-Tries :
      (status : Ret) (at : List ℕ) (x y : Tried W) (b : Bool)
      → (b ≡ true → Tries status at x)
      → (b ≡ false → Tries status at y)
      → Tries status at (if b then x else y)
  if-Tries status at x y true f g = f refl
  if-Tries status at x y false f g = g refl

  pub call_used-Tries :
      (os : Os) (i : ℕ) (m : Mod W) (cmd : Cmd) (status : Ret) (c : Conf W) (q : ℕ) (at : List ℕ)
      → IsStack c.run (q ∷ at)
      → suc (length at) < 2 ^ 32
      → Tries status at (call_used i m cmd status (use_block os i c))
  call_used-Tries os i m cmd status c q at s room = elim (Option-cases (use_block os i c)) [
    | inl bad ↦ rw bad tt
    | inr ((first, c'), e) ↦ rw e (
        call_block-Tries i m cmd status first c' q at (rw (use_block-run os i c c' first e) s) room)
  ]

  -- what `init_mod` answers
  pub init_block-Tries :
      (os : Os) (i : ℕ) (m : Mod W) (cmd : Cmd) (status : Ret) (first : Bool) (c : Conf W)
      (ret : Ret) (q : ℕ) (at : List ℕ)
      → IsStack c.run (q ∷ at)
      → suc (length at) < 2 ^ 32
      → Tries status at (
          if is_pass ret
          then again first (unwind c)
          else if is_ok ret
          then call_used i m cmd status (use_block os i c)
          else over (handled error c))
  init_block-Tries os i m cmd status first c ok q at s room =
      call_used-Tries os i m cmd status c q at s room
  init_block-Tries os i m cmd status first c pass q at s room = unwind-IsStack c q at s room
  init_block-Tries os i m cmd status first c error q at s room = tt
  init_block-Tries os i m cmd status first c file_done_ret q at s room = tt
  init_block-Tries os i m cmd status first c block_start q at s room = tt
  init_block-Tries os i m cmd status first c block_end q at s room = tt

  pub open_block-Tries :
      (os : Os) (i : ℕ) (m : Mod W) (cmd : Cmd) (status : Ret) (first : Bool) (c : Conf W) (q : ℕ)
      (at : List ℕ)
      → IsStack c.run (q ∷ at)
      → suc (length at) < 2 ^ 32
      → Tries status at (open_block os i m cmd status first c)
  unfolding open_block
  open_block-Tries os i m cmd status first c q at s room = elim (Option-cases m.init_mod) [
    | inl absent ↦ rw (Tries, open_block, absent) (call_used-Tries os i m cmd status c q at s room)
    | inr (init, e) ↦ elim (Option-cases (store_ctx c.run (st_top c.run).ctx (init c cmd).1)) [
      | inl bad ↦ rw (Tries, open_block, e, bad) tt
      | inr (r, e') ↦
          rw (Tries, open_block, e, e')
            (init_block-Tries os i m cmd status first (with_world (with_run c r) (init c cmd).2)
              (init c cmd).0 q at (same-IsStack (store_ctx-SameStack c.run _ _ r e') s) room)
    ]
  ]

  pub open_subblock-Tries :
      (i : ℕ) (m : Mod W) (cmd : Cmd) (status : Ret) (first : Bool) (c : Conf W) (q : ℕ)
      (at : List ℕ)
      → IsStack c.run (q ∷ at)
      → suc (length at) < 2 ^ 32
      → Tries status at (open_subblock i m cmd status first c)
  unfolding open_subblock
  open_subblock-Tries i m cmd status first c q at s room = elim (Option-cases (share_ctx c)) [
    | inl bad ↦ rw (Tries, open_subblock, bad) tt
    | inr (c', e) ↦
        rw (Tries, open_subblock, e)
          (call_block-Tries i m cmd status first c' q at
            (same-IsStack (share_ctx-SameStack c c' e) s) room)
  ]

  pub try_block-Tries :
      (os : Os) (i : ℕ) (m : Mod W) (cmd : Cmd) (status : Ret) (first : Bool) (c : Conf W)
      (at : List ℕ)
      → IsStack c.run at
      → suc (length at) < 2 ^ 32
      → Tries status at (try_block os i m cmd status first c)
  unfolding try_block
  try_block-Tries os i m cmd status first c at s room =
      let pushed = st_push-PushSpec os.malloc c.run i cmd at s room in
      elim (Option-cases (st_push os.malloc c.run i cmd)) [
        | inl bad ↦ rw (Tries, try_block, bad) tt
        | inr (r, e) ↦
            let stack = rw e at pushed in
            rw (Tries, try_block, e)
              (if-Tries status at _ _ cmd.child
                (λ _.
                  open_subblock-Tries i m cmd status first (with_run c r) c.run.fresh at stack.0
                    room)
                (λ _.
                  open_block-Tries os i m cmd status first (with_run c r) c.run.fresh at stack.0
                    room))
      ]
