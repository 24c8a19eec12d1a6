-- ===== src/Conf/Handle/Source.antt =====
-- A statement's handling reads nothing: the lexer's source stays as it is.
use folksong.Prelude.{
  subst, ℕ, suc, ◌≡◌, refl, Bool, Option, none, some, List, [], ◌∷◌, Bool-cases, Option-cases, inl,
  inr, arith,
}
use folksong.Arr
use folksong.Cmd.{Cmd, is_end}
use folksong.Conf.{Conf, Mod}
use folksong.Conf.Contexts.{share_ctx, use_block}
use folksong.Conf.Handle.{
  Handled, handled, fault, Tried, again, over, complete, handle_end, completed_of, try_param,
  pass_block, finish, call_block, call_used, open_block, open_subblock, try_block, try_cmd, or_else,
  try_cmds, try_mods, conclude, looked_up, handle,
}
use folksong.Lexer.{Source}
use folksong.Os.{Os}
use folksong.Run
use folksong.Run.{load_ctx, store_ctx, st_top}
use folksong.Str.{Str}
use folksong.Token.{Ret, ok, error, block_end, block_start, pass, file_done_ret}

module _ {W : Type 0} where
  abbrev pub Keeps : Source → Handled W → Type 0
  Keeps s fault = Unit
  Keeps s (handled ret c) = c.source ≡ s

  abbrev Tries : Source → Tried W → Type 0
  Tries s (again first c) = c.source ≡ s
  Tries s (over h) = Keeps s h

  complete-Keeps :
      (o : Option (Conf W → Option ℕ → Ret × W)) (c : Conf W) → Keeps c.source (complete o c)
  complete-Keeps o c = ground arith

  handle_end-Keeps : (mods : List (Mod W)) (c : Conf W) → Keeps c.source (handle_end mods c)
  unfolding handle_end
  handle_end-Keeps mods c =
      ground (arith, complete-Keeps (completed_of mods (st_top c.run).module_nth) c)

  try_param-Tries :
      (m : Mod W) (cmd : Cmd) (first : Bool) (c : Conf W) → Tries c.source (try_param m cmd first c)
  unfolding try_param
  try_param-Tries m cmd first c = ground arith

  pass_block-Tries : (i : ℕ) (first : Bool) (c : Conf W) → Tries c.source (pass_block i first c)
  unfolding pass_block
  pass_block-Tries i first c = ground arith

  finish-Keeps : (m : Mod W) (status : Ret) (c : Conf W) → Keeps c.source (finish m status c)
  finish-Keeps m status c = ground (arith, complete-Keeps m.completed c)

  call_block-Tries :
      (i : ℕ) (m : Mod W) (cmd : Cmd) (status : Ret) (first : Bool) (c : Conf W)
      → Tries c.source (call_block i m cmd status first c)
  unfolding call_block
  call_block-Tries i m cmd status first c =
      elim (Option-cases (load_ctx c.run (st_top c.run).ctx)) [
        | inl dangling ↦ rw (call_block, dangling) tt
        | inr (v, e) ↦
            let (ret, w) = m.call cmd.call c v in
            let c' : Conf W = record c { world = w } in
            let done = finish-Keeps m status c' in
            let passed = pass_block-Tries i first c' in
            rw (call_block, e) (ground (arith, done, passed))
      ]

  abbrev Used : Source → Option (Bool × Conf W) → Type 0
  Used s none = Unit
  Used s (some (first, c)) = c.source ≡ s

  use_block-Used : (os : Os) (i : ℕ) (c : Conf W) → Used c.source (use_block os i c)
  unfolding use_block
  use_block-Used os i c = ground arith

  share_ctx-Used :
      (c : Conf W) (first : Bool)
      → Used c.source (elim (share_ctx c) [ none ↦ none | some c' ↦ some (first, c') ])
  unfolding share_ctx
  share_ctx-Used c first = ground arith

  call_used-Tries :
      (i : ℕ) (m : Mod W) (cmd : Cmd) (status : Ret) (s : Source) (o : Option (Bool × Conf W))
      → Used s o
      → Tries s (call_used i m cmd status o)
  call_used-Tries i m cmd status s none u = tt
  call_used-Tries i m cmd status s (some (first, c)) u =
      subst (λ s'. Tries s' (call_block i m cmd status first c)) u
        (call_block-Tries i m cmd status first c)

  open_block-Tries :
      (os : Os) (i : ℕ) (m : Mod W) (cmd : Cmd) (status : Ret) (first : Bool) (c : Conf W)
      → Tries c.source (open_block os i m cmd status first c)
  unfolding open_block
  open_block-Tries os i m cmd status first c = elim (Option-cases m.init_mod) [
    | inl missing ↦
        rw (open_block, missing) (call_used-Tries i m cmd status c.source _ (use_block-Used os i c))
    | inr (init, e) ↦
        let (ret, v, w) = init c cmd in
        elim (Option-cases (store_ctx c.run (st_top c.run).ctx v)) [
          | inl dangling ↦ rw (open_block, e, dangling) tt
          | inr (r, e') ↦
              let c' : Conf W = record c { run = r; world = w } in
              let used = call_used-Tries i m cmd status c.source _ (use_block-Used os i c') in
              rw (open_block, e, e') (ground (arith, used))
        ]
  ]

  open_subblock-Tries :
      (i : ℕ) (m : Mod W) (cmd : Cmd) (status : Ret) (first : Bool) (c : Conf W)
      → Tries c.source (open_subblock i m cmd status first c)
  unfolding open_subblock
  open_subblock-Tries i m cmd status first c = elim (Option-cases (share_ctx c)) [
    | inl dangling ↦ rw (open_subblock, dangling) tt
    | inr (c', e) ↦
        let same_source : c'.source ≡ c.source = rw e at (share_ctx-Used c first) in
        rw (open_subblock, e)
          (call_used-Tries i m cmd status c.source (some (first, c')) same_source)
  ]

  try_block-Tries :
      (os : Os) (i : ℕ) (m : Mod W) (cmd : Cmd) (status : Ret) (first : Bool) (c : Conf W)
      → Tries c.source (try_block os i m cmd status first c)
  unfolding try_block
  try_block-Tries os i m cmd status first c =
      elim (Option-cases (Run.st_push os.malloc c.run i cmd)) [
        | inl refused ↦ rw (try_block, refused) tt
        | inr (r, e) ↦
            let c' : Conf W = record c { run = r } in
            let sub = open_subblock-Tries i m cmd status first c' in
            let block = open_block-Tries os i m cmd status first c' in
            rw (try_block, e) (ground (arith, sub, block))
      ]

  try_cmd-Tries :
      (os : Os) (i : ℕ) (m : Mod W) (cmd : Cmd) (name : Str) (status : Ret) (first : Bool)
      (c : Conf W)
      → Tries c.source (try_cmd os i m cmd name status first c)
  unfolding try_cmd
  try_cmd-Tries os i m cmd name status first c =
      let param = try_param-Tries m cmd first c in
      let block = try_block-Tries os i m cmd status first c in ground (arith, param, block)

  or_else-Tries :
      (s : Source) (t : Tried W) (next : Bool → Conf W → Tried W)
      → Tries s t
      → ((first : Bool) (c : Conf W) → c.source ≡ s → Tries s (next first c))
      → Tries s (or_else t next)
  or_else-Tries s (again first c) next h n = n first c h
  or_else-Tries s (over o) next h n = h

  try_cmds-Tries :
      (os : Os) (i : ℕ) (m : Mod W) (cmds : List Cmd) (name : Str) (status : Ret) (s : Source)
      (first : Bool) (c : Conf W)
      → c.source ≡ s
      → Tries s (try_cmds os i m cmds name status first c)
  unfolding try_cmds
  try_cmds-Tries os i m [] name status s first c e = e
  try_cmds-Tries os i m (cmd ∷ cmds) name status s first c e = elim (Bool-cases (is_end cmd)) [
    | inl end ↦ rw (try_cmds, end) e
    | inr more ↦
        rw (try_cmds, more)
          (or_else-Tries s _ (try_cmds os i m cmds name status)
            (subst (λ s'. Tries s' (try_cmd os i m cmd name status first c)) e
              (try_cmd-Tries os i m cmd name status first c))
            (try_cmds-Tries os i m cmds name status s))
  ]

  try_mods-Tries :
      (os : Os) (i : ℕ) (mods : List (Mod W)) (name : Str) (status : Ret) (s : Source)
      (first : Bool) (c : Conf W)
      → c.source ≡ s
      → Tries s (try_mods os i mods name status first c)
  unfolding try_mods
  try_mods-Tries os i [] name status s first c e = e
  try_mods-Tries os i (m ∷ mods) name status s first c e =
      or_else-Tries s _ (try_mods os (suc i) mods name status)
        (try_cmds-Tries os i m m.commands name status s first c e)
        (try_mods-Tries os (suc i) mods name status s)

  conclude-Keeps : (s : Source) (t : Tried W) → Tries s t → Keeps s (conclude t)
  conclude-Keeps s (again first c) h = h
  conclude-Keeps s (over o) h = h

  looked_up-Keeps :
      (os : Os) (mods : List (Mod W)) (status : Ret) (c : Conf W) (o : Option Str)
      → Keeps c.source (looked_up os mods status c o)
  looked_up-Keeps os mods status c none = tt
  looked_up-Keeps os mods status c (some name) =
      conclude-Keeps c.source _ (try_mods-Tries os 0 mods name status c.source os.stray c refl)

  -- Whatever a statement does, the lexer's source stays.
  pub handle-Keeps :
      (os : Os) (mods : List (Mod W)) (status : Ret) (c : Conf W)
      → Keeps c.source (handle os mods status c)
  unfolding handle
  handle-Keeps os mods block_end c = handle_end-Keeps mods c
  handle-Keeps os mods ok c = looked_up-Keeps os mods ok c (Arr.nth c.source.tokens 0)
  handle-Keeps os mods block_start c =
      looked_up-Keeps os mods block_start c (Arr.nth c.source.tokens 0)
  handle-Keeps os mods error c = looked_up-Keeps os mods error c (Arr.nth c.source.tokens 0)
  handle-Keeps os mods pass c = looked_up-Keeps os mods pass c (Arr.nth c.source.tokens 0)
  handle-Keeps os mods file_done_ret c =
      looked_up-Keeps os mods file_done_ret c (Arr.nth c.source.tokens 0)
