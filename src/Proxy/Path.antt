-- ===== src/Proxy/Path.antt =====
-- The path that a proxy passes a request on with.
use folksong.Prelude.{
  ℕ, suc, ◌+◌, ◌<◌, ◌≡◌, refl, sym, ap, ◌∙◌, Bool, false, not, Option, none, some, List, [], ◌∷◌,
  ◌++◌, ◌==◌, if◌then◌else◌, length, Bytes, arith, Option-cases, Bool-cases, inl, inr,
}
use folksong.Arr
use folksong.Arr.{Arr}
use folksong.Http.{Block, Req, null_block}
use folksong.Os.{Os}
use folksong.Proxy.{
  Pcre, Proxy, str_of, add_plain, variable_compile, add_piece, add_pieces, set_next_path,
}
use folksong.Proxy.Base.{
  HasBase, KeepsBase, makes-KeepsBase, add_plain-Overruns, add_plain-MakesBase,
  variable_compile-KeepsBase,
}
use folksong.Str.{Str}
use folksong.Var.{Piece}

-- the pieces of the slots from `n` on, in order
abbrev pub Lists : ℕ → Arr Piece → List Piece → Type 0
Lists n arr [] = Unit
Lists n arr (p ∷ ps) = (Arr.nth arr n ≡ some p) × Lists (n + 1) arr ps

abbrev pub count : List Piece → ℕ
count [] = 0
count (p ∷ ps) = suc (count ps)

pub count-pos : (ps : List Piece) (p : Piece) (qs : List Piece) → 0 < count (ps ++ (p ∷ qs))
count-pos [] p qs = omega arith
count-pos (q ∷ ps) p qs = omega arith

abbrev pub dollar : Bytes → Bool
dollar [] = false
dollar (c ∷ cs) = c == b'$'

-- a piece that does not start with a dollar
abbrev pub Plain : Piece → Type 0
Plain p = dollar p.bytes ≡ false

module _ {Re : Type 0} (pcre : Pcre Re) (os : Os) where
  -- what a piece does, by its first byte
  pub add_piece-dollar :
      (p : Proxy Re) (r : Req) (cs : Bytes) (b : Block)
      → (let token : Str = record { mem = cs ++ (0 ∷ []); size = length cs } in
          add_piece pcre os p r token b ≡ (
            if not (dollar cs)
            then add_plain pcre os b token
            else variable_compile pcre os p r token b))
  unfolding add_piece
  add_piece-dollar p r [] b = refl
  add_piece-dollar p r (c ∷ cs) b = refl

  add_piece-KeepsBase :
      (p : Proxy Re) (r : Req) (piece : Piece) (b : Block)
      → KeepsBase b (add_piece pcre os p r (str_of piece) b)
  add_piece-KeepsBase p r piece b = elim (Bool-cases (dollar piece.bytes)) [
    | inl here ↦
        rw (add_piece-dollar p r piece.bytes b, here)
          (variable_compile-KeepsBase pcre os p r (str_of piece) b)
    | inr plain ↦
        rw (add_piece-dollar p r piece.bytes b, plain)
          (makes-KeepsBase b _ (add_plain-MakesBase pcre os b (str_of piece)))
  ]

  -- the loop over the pieces
  abbrev pub add_list : Proxy Re → Req → List Piece → Block → Option Block
  add_list p r [] b = some b
  add_list p r (piece ∷ ps) b = elim (add_piece pcre os p r (str_of piece) b) [
    | none ↦ none
    | some b' ↦ add_list p r ps b'
  ]

  pub add_pieces-add_list :
      (p : Proxy Re) (r : Req) (ps : List Piece) (i : ℕ) (arr : Arr Piece) (b : Block)
      → Lists i arr ps
      → add_pieces pcre os p r (count ps) i arr b ≡ add_list p r ps b
  unfolding add_pieces
  add_pieces-add_list p r [] i arr b h = refl
  add_pieces-add_list p r (piece ∷ ps) i arr b h =
      elim (Option-cases (add_piece pcre os p r (str_of piece) b)) [
        | inl fault ↦ rw (add_pieces, h.0, fault) (rw (add_list, fault) refl)
        | inr (b', e) ↦
            rw (add_pieces, h.0, e)
              (rw (add_list, e) (add_pieces-add_list p r ps (i + 1) arr b' h.1))
      ]

  pub add_piece-Plain :
      (p : Proxy Re) (r : Req) (piece : Piece) (b : Block)
      → Plain piece
      → add_piece pcre os p r (str_of piece) b ≡ add_plain pcre os b (str_of piece)
  add_piece-Plain p r piece b plain = add_piece-dollar p r piece.bytes b ∙ rw plain refl

  -- after a block was made a plain piece is out of the question
  add_list-Overruns :
      (p : Proxy Re) (r : Req) (ps qs : List Piece) (piece : Piece) (b : Block)
      → Plain piece
      → HasBase b
      → add_list p r (ps ++ (piece ∷ qs)) b ≡ none
  add_list-Overruns p r [] qs piece b plain h =
      rw (add_list, add_piece-Plain p r piece b plain, add_plain-Overruns pcre os b piece h) refl
  add_list-Overruns p r (q ∷ ps) qs piece b plain h =
      elim (Option-cases (add_piece pcre os p r (str_of q) b)) [
        | inl fault ↦ rw (add_list, fault) refl
        | inr (b', e) ↦
            let kept = rw e at (add_piece-KeepsBase p r q b) in
            rw (add_list, e) (add_list-Overruns p r ps qs piece b' plain (kept h))
      ]

  add_list-Plain :
      (p : Proxy Re) (r : Req) (ps qs rs : List Piece) (one two : Piece) (b : Block)
      → Plain one
      → Plain two
      → add_list p r (ps ++ (one ∷ (qs ++ (two ∷ rs)))) b ≡ none
  add_list-Plain p r [] qs rs one two b first second =
      elim (Option-cases (add_piece pcre os p r (str_of one) b)) [
        | inl fault ↦ rw (add_list, fault) refl
        | inr (b', e) ↦
            let made =
              rw (sym (add_piece-Plain p r one b first) ∙ e) at
                (add_plain-MakesBase pcre os b (str_of one)) in
            rw (add_list, e) (add_list-Overruns p r qs rs two b' second made)
      ]
  add_list-Plain p r (q ∷ ps) qs rs one two b first second =
      elim (Option-cases (add_piece pcre os p r (str_of q) b)) [
        | inl fault ↦ rw (add_list, fault) refl
        | inr (b', e) ↦ rw (add_list, e) (add_list-Plain p r ps qs rs one two b' first second)
      ]

  -- A path with two pieces that are no variables is never worked out: the NUL of the second is written one
  -- byte behind the block, whatever else the path holds and whatever memory there is.
  pub set_next_path-Plain :
      (p : Proxy Re) (r : Req) (arr : Arr Piece) (ps qs rs : List Piece) (one two : Piece)
      → p.pass_path ≡ some arr
      → arr.ele_count ≡ count (ps ++ (one ∷ (qs ++ (two ∷ rs))))
      → Lists 0 arr (ps ++ (one ∷ (qs ++ (two ∷ rs))))
      → Plain one
      → Plain two
      → set_next_path pcre os p r ≡ none
  unfolding set_next_path
  set_next_path-Plain p r arr ps qs rs one two here counted h first second =
      let all = ps ++ (one ∷ (qs ++ (two ∷ rs))) in
      let loop : add_pieces pcre os p r arr.ele_count 0 arr null_block ≡ none =
        ap (λ k. add_pieces pcre os p r k 0 arr null_block) counted
        ∙ add_pieces-add_list p r all 0 arr null_block h
        ∙ add_list-Plain p r ps qs rs one two null_block first second in
      let some_piece : (arr.ele_count == 0) ≡ false =
        let more : 0 < arr.ele_count =
          omega (arith, counted, count-pos ps one (qs ++ (two ∷ rs))) in
        ground (arith, more) in
      rw (set_next_path, here, some_piece, loop) refl
