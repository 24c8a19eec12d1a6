-- ===== src/Conf/Stack/Statement.antt =====
-- The stack of open blocks behind a statement, `fs_conf_handle` of core/fs_conf.c.
use folksong.Prelude.{
  ℕ, suc, ◌^◌, ◌<◌, ◌≡◌, refl, ap, sym, Bool, true, false, Option, none, some, List, [], ◌∷◌,
  length, arith, if◌then◌else◌, Option-cases, inl, inr, not, ◌&&◌,
}
use folksong.Arr
use folksong.Queue.Ring.{empty-IsRing}
use folksong.Cmd.{Cmd, is_end}
use folksong.Conf.{Conf, Mod}
use folksong.Conf.Handle
use folksong.Conf.Handle.{
  Handled, handled, Tried, again, over, matches, handle_end, try_param, pass_block, call_block,
  open_block, open_subblock, try_block, try_cmd, try_cmds, try_mods, or_else, handle, completed_of,
  looked_up, conclude, complete, finish, unwind, call_used, with_world,
}
use folksong.Os.{Os}
use folksong.Run
use folksong.Run.{Run, Slot, load_ctx, store_ctx, st_push, st_pop, st_top, ctx_drop}
use folksong.Run.Stack.{IsStack, st_pop-IsStack}
use folksong.Str.{Str}
use folksong.Token.{Ret, ok, error, file_done_ret, pass, block_start, block_end, is_ok, is_pass}
use folksong.Conf.Stack.{After, Leaves, Tries, complete-Leaves}
use folksong.Conf.Stack.Blocks.{if-Tries, try_block-Tries}

pub is_ok-ok : (status : Ret) → is_ok status ≡ true → status ≡ ok
is_ok-ok ok e = refl
is_ok-ok error e = absurd (ground (arith, e))
is_ok-ok file_done_ret e = absurd (ground (arith, e))
is_ok-ok pass e = absurd (ground (arith, e))
is_ok-ok block_start e = absurd (ground (arith, e))
is_ok-ok block_end e = absurd (ground (arith, e))

param-is_ok :
    (cmd : Cmd) (name : Str) (status : Ret)
    → matches cmd name status ≡ true
    → (cmd.child && not cmd.block) ≡ true
    → is_ok status ≡ true
unfolding matches
param-is_ok cmd name status taken param = ground (arith, taken, param)

-- the stack behind any statement
abbrev pub Statement : Ret → List ℕ → List ℕ → Type 0
Statement block_end at at' = (q : ℕ) × (at ≡ q ∷ at')
Statement ret at at' = After ret at at'

module _ {W : Type 0} where
  try_param-Tries :
      (m : Mod W) (cmd : Cmd) (first : Bool) (c : Conf W) (at : List ℕ)
      → IsStack c.run at
      → Tries ok at (try_param m cmd first c)
  unfolding try_param
  try_param-Tries m cmd first c at s =
      if-Tries ok at _ _ (Run.st_empty c.run) (λ _. tt)
        λ _. elim (Option-cases (load_ctx c.run (st_top c.run).ctx)) [
          | inl missing ↦ rw (Tries, missing) tt
          | inr (v, e) ↦
              let (ret, w) = m.call cmd.call c v in
              rw (Tries, e)
                (if-Tries ok at _ _ (is_ok ret) (λ _. (at, s, refl))
                  λ _. if-Tries ok at _ _ (is_pass ret) (λ _. s) (λ _. tt))
        ]

  try_cmd-Tries :
      (os : Os) (i : ℕ) (m : Mod W) (cmd : Cmd) (name : Str) (status : Ret) (first : Bool)
      (c : Conf W) (at : List ℕ)
      → IsStack c.run at
      → suc (length at) < 2 ^ 32
      → Tries status at (try_cmd os i m cmd name status first c)
  unfolding try_cmd
  try_cmd-Tries os i m cmd name status first c at s room =
      if-Tries status at _ _ (matches cmd name status)
        (λ taken.
          if-Tries status at _ _ (cmd.child && not cmd.block)
            (λ param.
              rw (is_ok-ok status (param-is_ok cmd name status taken param))
                (try_param-Tries m cmd first c at s))
            (λ _. try_block-Tries os i m cmd status first c at s room))
        (λ _. s)

  or_else-Tries :
      (status : Ret) (at : List ℕ) (t : Tried W) (next : Bool → Conf W → Tried W)
      → Tries status at t
      → ((first : Bool) (c : Conf W) → IsStack c.run at → Tries status at (next first c))
      → Tries status at (or_else t next)
  or_else-Tries status at (again first c) next h k = k first c h
  or_else-Tries status at (over h') next h k = h

  try_cmds-Tries :
      (os : Os) (i : ℕ) (m : Mod W) (cmds : List Cmd) (name : Str) (status : Ret) (first : Bool)
      (c : Conf W) (at : List ℕ)
      → IsStack c.run at
      → suc (length at) < 2 ^ 32
      → Tries status at (try_cmds os i m cmds name status first c)
  unfolding try_cmds
  try_cmds-Tries os i m [] name status first c at s room = s
  try_cmds-Tries os i m (cmd ∷ cmds) name status first c at s room =
      if-Tries status at _ _ (is_end cmd) (λ _. s)
        λ _.
          or_else-Tries status at (try_cmd os i m cmd name status first c)
            (try_cmds os i m cmds name status)
            (try_cmd-Tries os i m cmd name status first c at s room)
            (λ first' c' s'. try_cmds-Tries os i m cmds name status first' c' at s' room)

  try_mods-Tries :
      (os : Os) (i : ℕ) (mods : List (Mod W)) (name : Str) (status : Ret) (first : Bool)
      (c : Conf W) (at : List ℕ)
      → IsStack c.run at
      → suc (length at) < 2 ^ 32
      → Tries status at (try_mods os i mods name status first c)
  unfolding try_mods
  try_mods-Tries os i [] name status first c at s room = s
  try_mods-Tries os i (m ∷ mods) name status first c at s room =
      or_else-Tries status at (try_cmds os i m m.commands name status first c)
        (try_mods os (suc i) mods name status)
        (try_cmds-Tries os i m m.commands name status first c at s room)
        (λ first' c' s'. try_mods-Tries os (suc i) mods name status first' c' at s' room)

  conclude-Leaves :
      (status : Ret) (at : List ℕ) (t : Tried W)
      → Tries status at t
      → Leaves (After status at) (conclude t)
  conclude-Leaves status at (again first c) h = tt
  conclude-Leaves status at (over h') h = h

  named-Leaves :
      (os : Os) (mods : List (Mod W)) (status : Ret) (c : Conf W) (at : List ℕ) (name : Option Str)
      → IsStack c.run at
      → suc (length at) < 2 ^ 32
      → Leaves (After status at) (looked_up os mods status c name)
  named-Leaves os mods status c at none s room = tt
  named-Leaves os mods status c at (some name) s room =
      conclude-Leaves status at _ (try_mods-Tries os 0 mods name status os.stray c at s room)

  Leaves-map :
      (P Q : List ℕ → Type 0) (h : Handled W)
      → ((at : List ℕ) → P at → Q at)
      → Leaves P h
      → Leaves Q h
  Leaves-map P Q (handled ok c) f (at, s, x) = (at, s, f at x)
  Leaves-map P Q (handled error c) f h = tt
  Leaves-map P Q (handled file_done_ret c) f h = h
  Leaves-map P Q (handled pass c) f h = h
  Leaves-map P Q (handled block_start c) f h = h
  Leaves-map P Q (handled block_end c) f h = h
  Leaves-map P Q Handle.fault f h = tt

  if-Leaves :
      (P : List ℕ → Type 0) (x y : Handled W) (b : Bool)
      → Leaves P x
      → Leaves P y
      → Leaves P (if b then x else y)
  if-Leaves P x y true f g = f
  if-Leaves P x y false f g = g

  end-Leaves :
      (mods : List (Mod W)) (c : Conf W) (at : List ℕ)
      → IsStack c.run at
      → suc (length at) < 2 ^ 32
      → Leaves (Statement block_end at) (handle_end mods c)
  unfolding handle_end Run.st_empty
  end-Leaves mods c [] s room = rw ((empty-IsRing [] s.ring).1 refl) tt
  end-Leaves mods c (q ∷ at) s room =
      let fits : suc (length at) < 2 ^ 32 = omega arith in
      let P : List ℕ → Type 0 = Statement block_end (q ∷ at) in
      if-Leaves P _ _ (Run.st_empty c.run) tt (
        if-Leaves P _ _ (st_top c.run).cmd.child
          (at, (st_pop-IsStack c.run q at s fits).0, (q, refl))
          (Leaves-map (λ at'. at' ≡ at) P (complete (completed_of mods (st_top c.run).module_nth) c)
            (λ at' e. (q, ap (◌∷◌ q) (sym e)))
            (complete-Leaves (completed_of mods (st_top c.run).module_nth) c q at s fits)))

  -- Every statement that is taken keeps the stack of open blocks, whatever the modules' handlers do and
  -- so long as its depth fits 32 bits: one that ends in `;` leaves the stack as it is, one that opens a
  -- block puts a frame on top, and the end of a block takes the top off. Nothing is said of a statement
  -- that is refused, and of one that reads a context which is gone.
  pub handle-Statement :
      (os : Os) (mods : List (Mod W)) (status : Ret) (c : Conf W) (at : List ℕ)
      → IsStack c.run at
      → suc (length at) < 2 ^ 32
      → Leaves (Statement status at) (handle os mods status c)
  unfolding handle
  handle-Statement os mods block_end c at s room = end-Leaves mods c at s room
  handle-Statement os mods ok c at s room =
      named-Leaves os mods ok c at (Arr.nth c.source.tokens 0) s room
  handle-Statement os mods block_start c at s room =
      named-Leaves os mods block_start c at (Arr.nth c.source.tokens 0) s room
  handle-Statement os mods error c at s room =
      named-Leaves os mods error c at (Arr.nth c.source.tokens 0) s room
  handle-Statement os mods file_done_ret c at s room =
      named-Leaves os mods file_done_ret c at (Arr.nth c.source.tokens 0) s room
  handle-Statement os mods pass c at s room =
      named-Leaves os mods pass c at (Arr.nth c.source.tokens 0) s room
