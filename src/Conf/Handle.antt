-- ===== src/Conf/Handle.antt =====
-- `fs_conf_handle` of core/fs_conf.c: one statement is looked up among the modules' commands.
pub mod Source
use folksong.Prelude.{
  ℕ, suc, Bool, false, not, ◌&&◌, ◌||◌, Option, none, some, List, [], ◌∷◌, if◌then◌else◌, get_elem?,
}
use folksong.Arr
use folksong.Arr.{Arr}
use folksong.Conf.Contexts.{uncount, drop_ctxs, with_run, set_mod, share_ctx, use_block}
use folksong.Cmd.{Cmd, is_end}
use folksong.Conf.{Conf, Mod}
use folksong.Os.{Os}
use folksong.Run
use folksong.Run.{Run, Frame, load_ctx, store_ctx, st_top, st_subtop}
use folksong.Str.{Str, str_cmp}
use folksong.Token.{Ret, ok, error, block_end, is_ok, is_pass, is_block_start}

pub data Handled (W : Type 0) : Type 0 where
  handled : Ret → Conf W → Handled W
  fault : Handled W

-- What one command makes of a statement: the search goes on, with the local `first`, or is over.
pub data Tried (W : Type 0) : Type 0 where
  again : Bool → Conf W → Tried W
  over : Handled W → Tried W

-- the three tests that pass a command over
unfoldable pub matches : Cmd → Str → Ret → Bool
matches cmd name status =
    str_cmp cmd.token name
    && (cmd.block || is_ok status)
    && (not cmd.block || is_block_start status)

module _ {W : Type 0} where
  abbrev pub with_world : Conf W → W → Conf W
  with_world c w = record c { world = w }

  abbrev pub pop : Conf W → Conf W
  pop c = with_run c (Run.st_pop c.run)

  -- what follows a handler: its module's state is kept, whatever it answers
  abbrev pub after_call : Conf W → Ret × W → (Conf W → Handled W) → Handled W
  after_call c (ret, w) next =
      if is_ok ret then next (with_world c w) else handled error (with_world c w)

  -- `init_mod_completed` of the top frame's module, then the pop
  abbrev pub complete : Option (Conf W → Option ℕ → Ret × W) → Conf W → Handled W
  complete none c = handled ok (pop c)
  complete (some f) c = elim (load_ctx c.run (st_top c.run).ctx) [
    | none ↦ fault
    | some v ↦ after_call c (f c v) (λ c'. handled ok (pop c'))
  ]

  abbrev pub completed_of : List (Mod W) → ℕ → Option (Conf W → Option ℕ → Ret × W)
  completed_of mods i = elim (get_elem? mods i) [ none ↦ none | some m ↦ m.completed ]

  -- `taken_status == FS_CONF_BLOCK_END`
  unfoldable pub handle_end : List (Mod W) → Conf W → Handled W
  unfolding Run.st_empty
  handle_end mods c =
      if Run.st_empty c.run
      then handled error c
      else (let top = st_top c.run in
          if top.cmd.child
          then handled ok (pop c)
          else complete (completed_of mods top.module_nth) c)

  -- a parameter: the handler works on the context of the open block
  unfoldable pub try_param : Mod W → Cmd → Bool → Conf W → Tried W
  unfolding Run.st_empty load_ctx
  try_param m cmd first c =
      if Run.st_empty c.run
      then over (handled error c)
      else elim (load_ctx c.run (st_top c.run).ctx) [
        | none ↦ over fault
        | some v ↦
            let (ret, w) = m.call cmd.call c v in
            if is_ok ret
            then over (handled ok (with_world c w))
            else if is_pass ret
            then again first (with_world c w)
            else over (handled error (with_world c w))
      ]

  -- what takes a pushed block back when its module passes
  abbrev pub unwind : Conf W → Conf W
  unwind c = with_run c (Run.st_pop (Run.ctx_drop c.run))

  -- the handler of a block passed: its context is taken out of the module's array, and an array
  -- made for it is released
  unfoldable pub pass_block : ℕ → Bool → Conf W → Tried W
  pass_block i first c = elim (get_elem? c.mods i) [
    | none ↦ over fault
    | some m ↦ elim (uncount m.ctxs) [
      | none ↦ over fault
      | some ctxs ↦ again first (
          set_mod (unwind c) i (
            if first
            then record { used = false; ctxs = drop_ctxs ctxs }
            else record m { ctxs = ctxs }))
    ]
  ]

  -- A command that is no block is over at once: its module is completed.
  abbrev pub finish : Mod W → Ret → Conf W → Handled W
  finish m status c = if is_ok status then complete m.completed c else handled ok c

  unfoldable pub call_block : ℕ → Mod W → Cmd → Ret → Bool → Conf W → Tried W
  unfolding pass_block load_ctx
  call_block i m cmd status first c = elim (load_ctx c.run (st_top c.run).ctx) [
    | none ↦ over fault
    | some v ↦
        let (ret, w) = m.call cmd.call c v in
        if is_ok ret
        then over (finish m status (with_world c w))
        else if is_pass ret
        then pass_block i first (with_world c w)
        else over (handled error (with_world c w))
  ]

  abbrev pub call_used : ℕ → Mod W → Cmd → Ret → Option (Bool × Conf W) → Tried W
  call_used i m cmd status none = over fault
  call_used i m cmd status (some (first, c)) = call_block i m cmd status first c

  -- `block cmd`
  unfoldable pub open_block : Os → ℕ → Mod W → Cmd → Ret → Bool → Conf W → Tried W
  unfolding use_block call_block store_ctx
  open_block os i m cmd status first c = elim m.init_mod [
    | none ↦ call_used i m cmd status (use_block os i c)
    | some init ↦
        let (ret, v, w) = init c cmd in
        elim (store_ctx c.run (st_top c.run).ctx v) [
          | none ↦ over fault
          | some r ↦
              let c' = with_world (with_run c r) w in
              if is_pass ret
              then again first (unwind c')
              else if is_ok ret
              then call_used i m cmd status (use_block os i c')
              else over (handled error c')
        ]
  ]

  -- `subblock cmd`
  unfoldable pub open_subblock : ℕ → Mod W → Cmd → Ret → Bool → Conf W → Tried W
  unfolding share_ctx call_block
  open_subblock i m cmd status first c = elim (share_ctx c) [
    | none ↦ over fault
    | some c' ↦ call_block i m cmd status first c'
  ]

  unfoldable pub try_block : Os → ℕ → Mod W → Cmd → Ret → Bool → Conf W → Tried W
  unfolding open_block open_subblock Run.st_push
  try_block os i m cmd status first c = elim (Run.st_push os.malloc c.run i cmd) [
    | none ↦ over fault
    | some r ↦
        if cmd.child
        then open_subblock i m cmd status first (with_run c r)
        else open_block os i m cmd status first (with_run c r)
  ]

  unfoldable pub try_cmd : Os → ℕ → Mod W → Cmd → Str → Ret → Bool → Conf W → Tried W
  unfolding matches try_param try_block
  try_cmd os i m cmd name status first c =
      if matches cmd name status
      then (if cmd.child && not cmd.block
          then try_param m cmd first c
          else try_block os i m cmd status first c)
      else again first c

  abbrev pub or_else : Tried W → (Bool → Conf W → Tried W) → Tried W
  or_else (again first c) next = next first c
  or_else (over h) next = over h

  -- the loop over the commands of module `i`, up to the end mark
  unfoldable pub try_cmds : Os → ℕ → Mod W → List Cmd → Str → Ret → Bool → Conf W → Tried W
  unfolding try_cmd
  try_cmds os i m [] name status first c = again first c
  try_cmds os i m (cmd ∷ cmds) name status first c =
      if is_end cmd
      then again first c
      else or_else (try_cmd os i m cmd name status first c) (try_cmds os i m cmds name status)

  -- the loop over the modules, the first of which has number `i`
  unfoldable pub try_mods : Os → ℕ → List (Mod W) → Str → Ret → Bool → Conf W → Tried W
  unfolding try_cmds
  try_mods os i [] name status first c = again first c
  try_mods os i (m ∷ mods) name status first c =
      or_else (try_cmds os i m m.commands name status first c)
        (try_mods os (suc i) mods name status)

  -- no command took the statement
  abbrev pub conclude : Tried W → Handled W
  conclude (again first c) = handled error c
  conclude (over h) = h

  -- the name's statement: `first` is not set at its declaration
  abbrev pub looked_up : Os → List (Mod W) → Ret → Conf W → Option Str → Handled W
  looked_up os mods status c none = fault
  looked_up os mods status c (some name) = conclude (try_mods os 0 mods name status os.stray c)

  -- `fs_conf_handle`
  unfoldable pub handle : Os → List (Mod W) → Ret → Conf W → Handled W
  unfolding handle_end try_mods
  handle os mods block_end c = handle_end mods c
  handle os mods status c = looked_up os mods status c (Arr.nth c.source.tokens 0)
