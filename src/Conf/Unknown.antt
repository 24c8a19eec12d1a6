-- ===== src/Conf/Unknown.antt =====
-- Statements that `fs_conf_handle` of core/fs_conf.c finds no command for.
use folksong.Prelude.{
  ℕ, suc, ◌≡◌, ◌≢◌, ◌⊎◌, refl, true, false, some, List, [], ◌∷◌, inl, inr, Bool, Bytes, Bool-cases,
  arith,
}
use folksong.Arr
use folksong.Cmd.{Cmd, is_end}
use folksong.Conf.{Conf, Mod}
use folksong.Conf.Handle.{again, handled, matches, try_cmd, try_cmds, try_mods, handle}
use folksong.Os.{Os}
use folksong.Str.{Str, literal, str_cmp}
use folksong.Str.Prefix.{NoNul, Starts, token_of, str_cmp-literal}
use folksong.Token.{Ret, ok, error, file_done_ret, pass, block_start, block_end}

-- no command up to the end mark takes the statement
abbrev pub NoMatch : List Cmd → Str → Ret → Type 0
NoMatch [] name status = Unit
NoMatch (cmd ∷ cmds) name status =
    (is_end cmd ≡ true)
    ⊎ ((is_end cmd ≡ false) × (matches cmd name status ≡ false) × NoMatch cmds name status)

abbrev pub Unmatched : {W : Type 0} → List (Mod W) → Str → Ret → Type 0
Unmatched [] name status = Unit
Unmatched (m ∷ mods) name status = NoMatch m.commands name status × Unmatched mods name status

module _ {W : Type 0} where
  try_cmds-again :
      (os : Os) (i : ℕ) (m : Mod W) (cmds : List Cmd) (name : Str) (status : Ret) (first : Bool)
      (c : Conf W)
      → NoMatch cmds name status
      → try_cmds os i m cmds name status first c ≡ again first c
  unfolding try_cmds try_cmd
  try_cmds-again os i m [] name status first c n = refl
  try_cmds-again os i m (cmd ∷ cmds) name status first c (inl end) = rw (try_cmds, end) refl
  try_cmds-again os i m (cmd ∷ cmds) name status first c (inr (more, other, n)) =
      rw (try_cmds, try_cmd, more, other) (try_cmds-again os i m cmds name status first c n)

  try_mods-again :
      (os : Os) (i : ℕ) (mods : List (Mod W)) (name : Str) (status : Ret) (first : Bool)
      (c : Conf W)
      → Unmatched mods name status
      → try_mods os i mods name status first c ≡ again first c
  unfolding try_mods
  try_mods-again os i [] name status first c n = refl
  try_mods-again os i (m ∷ mods) name status first c n =
      rw (try_mods, try_cmds-again os i m m.commands name status first c n.0)
        (try_mods-again os (suc i) mods name status first c n.1)

  handle-Unmatched :
      (os : Os) (mods : List (Mod W)) (status : Ret) (c : Conf W) (name : Str)
      → status ≢ block_end
      → Arr.nth c.source.tokens 0 ≡ some name
      → Unmatched mods name status
      → handle os mods status c ≡ handled error c
  unfolding handle
  handle-Unmatched os mods block_end c name other here n = absurd (other refl)
  handle-Unmatched os mods ok c name other here n =
      rw (handle, here, try_mods-again os 0 mods name ok os.stray c n) refl
  handle-Unmatched os mods block_start c name other here n =
      rw (handle, here, try_mods-again os 0 mods name block_start os.stray c n) refl
  handle-Unmatched os mods error c name other here n =
      rw (handle, here, try_mods-again os 0 mods name error os.stray c n) refl
  handle-Unmatched os mods pass c name other here n =
      rw (handle, here, try_mods-again os 0 mods name pass os.stray c n) refl
  handle-Unmatched os mods file_done_ret c name other here n =
      rw (handle, here, try_mods-again os 0 mods name file_done_ret os.stray c n) refl

-- what ends a statement: a semicolon, or the brace of a block
pub data Kind : Type 0 where
  plain block : Kind

abbrev pub status_of : Kind → Ret
status_of plain = ok
status_of block = block_start

abbrev pub is_block : Kind → Bool
is_block plain = false
is_block block = true

-- None of the commands, the first of which without a name ends them, is for a statement of this kind with
-- a name that starts this text.
abbrev pub NoCommand : List Cmd → Bytes → Kind → Type 0
NoCommand [] text k = Unit
NoCommand (cmd ∷ cmds) text k =
    (s : Bytes) × (cmd.token ≡ literal s)
    × NoNul s
    × ((s ≡ [])
        ⊎ ((s ≢ []) × ((¬ Starts s text) ⊎ (cmd.block ≢ is_block k)) × NoCommand cmds text k))

abbrev pub Unknown : {W : Type 0} → List (Mod W) → Bytes → Kind → Type 0
Unknown [] text k = Unit
Unknown (m ∷ mods) text k = NoCommand m.commands text k × Unknown mods text k

literal-is_end : (cmd : Cmd) (s : Bytes) → cmd.token ≡ literal s → s ≡ [] → is_end cmd ≡ true
literal-is_end cmd s e empty = rw (e, empty) refl

literal-more : (cmd : Cmd) (s : Bytes) → cmd.token ≡ literal s → s ≢ [] → is_end cmd ≡ false
literal-more cmd [] e some_name = absurd (some_name refl)
literal-more cmd (c ∷ s) e some_name = rw e (ground arith)

-- a command is for the statements of one kind alone
other_kind :
    (cmd : Cmd) (name : Str) (k : Kind)
    → cmd.block ≢ is_block k
    → matches cmd name (status_of k) ≡ false
unfolding matches
other_kind cmd name plain ne = ground arith
other_kind cmd name block ne = ground arith

other_name :
    (cmd : Cmd) (s text slack : Bytes) (status : Ret)
    → cmd.token ≡ literal s
    → NoNul s
    → ¬ Starts s text
    → matches cmd (token_of text slack) status ≡ false
unfolding matches
other_name cmd s text slack status e z other =
    elim (Bool-cases (str_cmp (literal s) (token_of text slack))) [
      | inl same ↦ absurd (other ((str_cmp-literal s text slack z).0 same))
      | inr differs ↦ rw (matches, e, differs) refl
    ]

NoCommand-NoMatch :
    (cmds : List Cmd) (text slack : Bytes) (k : Kind)
    → NoCommand cmds text k
    → NoMatch cmds (token_of text slack) (status_of k)
NoCommand-NoMatch [] text slack k n = tt
NoCommand-NoMatch (cmd ∷ cmds) text slack k (s, e, z, inl empty) =
    inl (literal-is_end cmd s e empty)
NoCommand-NoMatch (cmd ∷ cmds) text slack k (s, e, z, inr (named, inl other, n)) = inr (
  literal-more cmd s e named,
  other_name cmd s text slack (status_of k) e z other,
  NoCommand-NoMatch cmds text slack k n,
)
NoCommand-NoMatch (cmd ∷ cmds) text slack k (s, e, z, inr (named, inr other, n)) = inr (
  literal-more cmd s e named,
  other_kind cmd (token_of text slack) k other,
  NoCommand-NoMatch cmds text slack k n,
)

Unknown-Unmatched :
    {W : Type 0} (mods : List (Mod W)) (text slack : Bytes) (k : Kind)
    → Unknown mods text k
    → Unmatched mods (token_of text slack) (status_of k)
Unknown-Unmatched [] text slack k u = tt
Unknown-Unmatched (m ∷ mods) text slack k (n, u) =
    (NoCommand-NoMatch m.commands text slack k n, Unknown-Unmatched mods text slack k u)

-- A statement that ends with a semicolon, or opens a block, is refused and nothing is changed, where no
-- module has a command of its kind, for parameters or for blocks, whose name starts the statement's first
-- word.
pub handle-Unknown :
    {W : Type 0} (os : Os) (mods : List (Mod W)) (k : Kind) (c : Conf W) (text slack : Bytes)
    → Arr.nth c.source.tokens 0 ≡ some (token_of text slack)
    → Unknown mods text k
    → handle os mods (status_of k) c ≡ handled error c
handle-Unknown os mods plain c text slack here u =
    handle-Unmatched os mods ok c (token_of text slack) (λ e. cc) here
      (Unknown-Unmatched mods text slack plain u)
handle-Unknown os mods block c text slack here u =
    handle-Unmatched os mods block_start c (token_of text slack) (λ e. cc) here
      (Unknown-Unmatched mods text slack block u)
