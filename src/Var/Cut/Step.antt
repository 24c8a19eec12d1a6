-- ===== src/Var/Cut/Step.antt =====
-- One byte of `fs_var_parse`: the piece that is being written, and what the byte makes of it.
use folksong.Prelude.{
  ℕ, suc, ◌<◌, ◌≡◌, refl, Bool, true, false, not, ◌&&◌, ◌||◌, Option, none, some, List, [], ◌∷◌,
  ◌++◌, ◌==◌, length, Bytes, arith, Bool-cases, inl, inr,
}
use folksong.Arr.{Malloc}
use folksong.Var.{Piece, Cursor, ensure, plain_chr, open_variable, close_variable, step}
use folksong.Var.Cut.Pieces.{
  after_chr, tail_of, pieces_from, ended_by, grown, opened, closed, longer,
}
use folksong.Var.Cut.{Busy, Holds, Busy-Holds, Busy-less, new_piece-Busy, append_chr-Busy}

module _ (malloc : Malloc) (old : List (Option Piece)) (b size : ℕ)
    (got : (k : ℕ) → malloc k ≡ true) where
  -- where the loop stands: in a piece with these bytes, or in front of one
  abbrev pub Live : ℕ → Cursor → Bytes → List Bytes → Option Bytes → Type 0
  Live n s text done (some current) = Busy old b n size s text done current
  Live n s text done none = Holds old b n s.arr text done × (s.token ≡ none) × (s.variable ≡ false)

  pub Live-Holds :
      (n : ℕ) (s : Cursor) (text : Bytes) (done : List Bytes) (view : Option Bytes)
      → Live n s text done view
      → Holds old b n s.arr text (ended_by done view)
  Live-Holds n s text done (some current) busy = Busy-Holds old b n size s text done current busy
  Live-Holds n s text done none idle = idle.0

  plain_chr-Busy :
      (n chr : ℕ) (s : Cursor) (text : Bytes) (done : List Bytes) (current : Bytes)
      → Busy old b n size s text done current
      → length text < size
      → (s' : Cursor) × (plain_chr malloc size chr s ≡ some s')
        × (s'.variable ≡ s.variable)
        × Busy old b n size s' (text ++ (chr ∷ [])) done (current ++ (chr ∷ []))
  unfolding plain_chr ensure
  plain_chr-Busy n chr s text done current h room =
      let (arr, e, next') = append_chr-Busy old b n size chr s text done current h room in
      let found : ensure malloc size s ≡ some (h.slot, s) = simp (ensure, h.pointed) in
      (
        record s { arr = arr },
        rw (plain_chr, found, e) refl,
        refl,
        next' s.variable s.token h.pointed,
      )

  -- a plain byte
  plain_chr-Live :
      (n chr : ℕ) (s : Cursor) (text : Bytes) (done : List Bytes) (view : Option Bytes)
      → Live (suc n) s text done view
      → length text < size
      → (s' : Cursor) × (plain_chr malloc size chr s ≡ some s')
        × (s'.variable ≡ s.variable)
        × Live n s' (text ++ (chr ∷ [])) done (some (grown view chr))
  unfolding plain_chr ensure
  plain_chr-Live n chr s text done (some current) busy room =
      plain_chr-Busy n chr s text done current (Busy-less old b n size s text done current busy)
        room
  plain_chr-Live n chr s text done none (h, no_token, closed) room =
      let (k, arr, e, start) = new_piece-Busy malloc old b n size s.arr text done got h in
      let s1 : Cursor = record s { arr = arr; token = some k } in
      let (s', e', v, h') = plain_chr-Busy n chr s1 text done [] (start s.variable) room in
      let made : ensure malloc size s ≡ some (k, s1) = simp (ensure, no_token, e) in
      (s', rw (plain_chr, made) e', v, h')

  -- the dollar that opens a variable
  open-Live :
      (n chr : ℕ) (s : Cursor) (text : Bytes) (done : List Bytes) (view : Option Bytes)
      → Live (suc n) s text done view
      → length text < size
      → (s' : Cursor) × ((s1 : Cursor) × (open_variable malloc size s ≡ some s1)
          × (plain_chr malloc size chr s1 ≡ some s'))
        × (s'.variable ≡ true)
        × Live n s' (text ++ (chr ∷ [])) (ended_by done view) (some (chr ∷ []))
  unfolding open_variable
  open-Live n chr s text done view live room =
      let done' = ended_by done view in
      let (k, arr, e, start) =
        new_piece-Busy malloc old b n size s.arr text done' got
          (Live-Holds (suc n) s text done view live) in
      let s1 : Cursor = record { arr = arr; variable = true; token = some k } in
      let (s', e', v, h') = plain_chr-Busy n chr s1 text done' [] (start true) room in
      (s', (s1, rw (open_variable, e) refl, e'), v, h')

  -- the brace that closes one
  close-Live :
      (n chr : ℕ) (s : Cursor) (text : Bytes) (done : List Bytes) (current : Bytes)
      → Live (suc n) s text done (some current)
      → length text < size
      → (s' : Cursor) × (close_variable malloc size chr s ≡ some s')
        × (s'.variable ≡ false)
        × Live n s' (text ++ (chr ∷ [])) (done ++ ((current ++ (chr ∷ [])) ∷ [])) none
  unfolding close_variable
  close-Live n chr s text done current busy room =
      let (arr, e, next') = append_chr-Busy old b (suc n) size chr s text done current busy room in
      let held =
        Busy-Holds old b n size _ _ done _
          (Busy-less old b n size _ _ done _ (next' false (some busy.slot) refl)) in
      let s' : Cursor = record { arr = arr; variable = false; token = none } in
      (s', rw (close_variable, busy.pointed, e) refl, refl, (held, refl, refl))

  -- where the loop stands behind a byte, with the same pieces in prospect
  abbrev pub Follows : ℕ → ℕ → Bytes → List Bytes → Option Bytes → Cursor → Type 0
  Follows n chr text done view s' =
      (done' : List Bytes) × (view' : Option Bytes) × Live n s' (text ++ (chr ∷ [])) done' view'
      × ((cs : Bytes)
          → done' ++ pieces_from view' (tail_of cs) ≡ done ++ pieces_from view (tail_of (chr ∷ cs)))

  -- What one byte does: an error just where a brace stands outside a variable, or the next state.
  abbrev pub StepSpec :
      ℕ → ℕ → Bytes → List Bytes → Option Bytes → Option Bool → Option (Option Cursor) → Type 0
  StepSpec n chr text done view none o = o ≡ none
  StepSpec n chr text done view (some v) o =
      (s' : Cursor) × (o ≡ some (some s')) × (s'.variable ≡ v) × Follows n chr text done view s'

  close-Follows :
      (n chr : ℕ) (s : Cursor) (text : Bytes) (done : List Bytes) (view : Option Bytes)
      → Live (suc n) s text done view
      → s.variable ≡ true
      → length text < size
      → (chr == b'$') ≡ false
      → (chr == b'}') ≡ true
      → (s' : Cursor) × (close_variable malloc size chr s ≡ some s')
        × (s'.variable ≡ false)
        × Follows n chr text done view s'
  close-Follows n chr s text done none (h, no_token, shut) v room other brace =
      absurd (cc (v, shut))
  close-Follows n chr s text done (some current) busy v room other brace =
      let (s', e, v', h) = close-Live n chr s text done current busy room in
      (s', e, v', (_, none, h, λ cs. closed done current chr cs other brace))

  pub step-StepSpec :
      (n chr : ℕ) (s : Cursor) (text : Bytes) (done : List Bytes) (view : Option Bytes)
      → Live (suc n) s text done view
      → length text < size
      → StepSpec n chr text done view (after_chr s.variable chr) (step malloc size chr s)
  unfolding step
  step-StepSpec n chr s text done view live room = elim (Bool-cases (chr == b'$')) [
    | inl dollar ↦
        let (s', (s1, e1, e2), v, h) = open-Live n chr s text done view live room in
        let follows : Follows n chr text done view s' =
          (ended_by done view, some (chr ∷ []), h, λ cs. opened done view chr cs dollar) in
        rw (step, after_chr, dollar) (s', rw (e1, e2) refl, v, follows)
    | inr other ↦ elim (Bool-cases ((chr == b'{' || chr == b'}') && not s.variable)) [
      | inl outside ↦ rw (step, after_chr, other, outside) refl
      | inr fine ↦ elim (Bool-cases (chr == b'}')) [
        | inl brace ↦
            let within : s.variable ≡ true = ground (arith, fine, brace) in
            let (s', e, v, follows) =
              close-Follows n chr s text done view live within room other brace in
            rw (step, after_chr, other, fine, brace) (s', rw e refl, v, follows)
        | inr plain ↦
            let (s', e, v, h) = plain_chr-Live n chr s text done view live room in
            let follows : Follows n chr text done view s' =
              (done, some (grown view chr), h, λ cs. longer done view chr cs other plain) in
            rw (step, after_chr, other, fine, plain) (s', rw e refl, v, follows)
      ]
    ]
  ]
