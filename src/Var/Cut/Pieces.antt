-- ===== src/Var/Cut/Pieces.antt =====
-- The pieces of a text, described from its end: what `fs_var_parse` ought to find.
use folksong.Prelude.{
  arith, Bool-cases, inl, inr, not, ◌&&◌, ◌||◌, ℕ, ◌≡◌, refl, sym, ap, ◌∙◌, Bool, true, false,
  Option, none, some, List, [], ◌∷◌, ◌++◌, ◌==◌, if◌then◌else◌, Bytes, append-nil, append_assoc,
}

-- what a byte makes of `variable`, and an error for a brace outside one
abbrev pub after_chr : Bool → ℕ → Option Bool
after_chr v c =
    if c == b'$'
    then some true
    else if (c == b'{' || c == b'}') && not v
    then none
    else if c == b'}'
    then some false
    else some v

-- whether no brace stands outside a variable
abbrev pub balanced : Bool → Bytes → Bool
balanced v [] = true
balanced v (c ∷ cs) = elim (after_chr v c) [ none ↦ false | some v' ↦ balanced v' cs ]

-- the rest of the piece a text begins in, and the pieces behind that
abbrev pub Tail : Type 0
Tail = Bytes × List Bytes

-- the pieces, where one is being written and where none is
abbrev pub pieces_from : Option Bytes → Tail → List Bytes
pieces_from (some current) (first, rest) = (current ++ first) ∷ rest
pieces_from none ([], rest) = rest
pieces_from none (c ∷ first, rest) = (c ∷ first) ∷ rest

-- a byte in front: a dollar begins a piece, a closing brace ends one
abbrev pub in_front : ℕ → Tail → Tail
in_front c tail =
    if c == b'$'
    then ([], (c ∷ tail.0) ∷ tail.1)
    else if c == b'}'
    then (c ∷ [], pieces_from none tail)
    else (c ∷ tail.0, tail.1)

abbrev pub tail_of : Bytes → Tail
tail_of [] = ([], [])
tail_of (c ∷ cs) = in_front c (tail_of cs)

abbrev pub pieces_of : Bytes → List Bytes
pieces_of text = pieces_from none (tail_of text)

-- the pieces before the one that a dollar begins
abbrev pub ended_by : List Bytes → Option Bytes → List Bytes
ended_by done none = done
ended_by done (some current) = done ++ (current ∷ [])

-- the bytes of a piece, where one is being written, and a further one
abbrev pub grown : Option Bytes → ℕ → Bytes
grown none c = c ∷ []
grown (some current) c = current ++ (c ∷ [])

pub opened :
    (done : List Bytes) (view : Option Bytes) (c : ℕ) (cs : Bytes)
    → (c == b'$') ≡ true
    → ended_by done view ++ pieces_from (some (c ∷ [])) (tail_of cs)
      ≡ done ++ pieces_from view (tail_of (c ∷ cs))
opened done none c cs e = rw e refl
opened done (some current) c cs e = rw e (
    append_assoc done (current ∷ []) ((c ∷ (tail_of cs).0) ∷ (tail_of cs).1)
    ∙ ap (λ w. done ++ (w ∷ (c ∷ (tail_of cs).0) ∷ (tail_of cs).1)) (sym (append-nil current)))

pub closed :
    (done : List Bytes) (current : Bytes) (c : ℕ) (cs : Bytes)
    → (c == b'$') ≡ false
    → (c == b'}') ≡ true
    → (done ++ ((current ++ (c ∷ [])) ∷ [])) ++ pieces_from none (tail_of cs)
      ≡ done ++ pieces_from (some current) (tail_of (c ∷ cs))
closed done current c cs other e =
    rw (other, e) (append_assoc done ((current ++ (c ∷ [])) ∷ []) (pieces_from none (tail_of cs)))

pub longer :
    (done : List Bytes) (view : Option Bytes) (c : ℕ) (cs : Bytes)
    → (c == b'$') ≡ false
    → (c == b'}') ≡ false
    → done ++ pieces_from (some (grown view c)) (tail_of cs)
      ≡ done ++ pieces_from view (tail_of (c ∷ cs))
longer done none c cs other plain = rw (other, plain) refl
longer done (some current) c cs other plain =
    rw (other, plain)
      (ap (λ w. done ++ (w ∷ (tail_of cs).1)) (append_assoc current (c ∷ []) (tail_of cs).0))

pub at_end :
    (done : List Bytes) (view : Option Bytes)
    → ended_by done view ≡ done ++ pieces_from view (tail_of [])
at_end done none = sym (append-nil done)
at_end done (some current) = ap (λ w. done ++ (w ∷ [])) (sym (append-nil current))

none-alone :
    (tail : Tail) (m : List Bytes) (d : ℕ)
    → tail.1 ≡ m ++ ((d ∷ []) ∷ [])
    → (m' : List Bytes) × (pieces_from none tail ≡ m' ++ ((d ∷ []) ∷ []))
none-alone ([], rest) m d e = (m, e)
none-alone (c ∷ first, rest) m d e = ((c ∷ first) ∷ m, ap (◌∷◌ (c ∷ first)) e)

-- A last byte behind a closing brace is a piece of its own.
tail_of-alone :
    (cs : Bytes) (d : ℕ)
    → (d == b'$') ≡ false
    → (d == b'}') ≡ false
    → (m : List Bytes) × ((tail_of (cs ++ (b'}' ∷ d ∷ []))).1 ≡ m ++ ((d ∷ []) ∷ []))
tail_of-alone [] d other plain = ([], rw (other, plain) refl)
tail_of-alone (c ∷ cs) d other plain =
    let (m, e) = tail_of-alone cs d other plain in
    let tail = tail_of (cs ++ (b'}' ∷ d ∷ [])) in
    elim (Bool-cases (c == b'$')) [
      | inl dollar ↦ ((c ∷ tail.0) ∷ m, rw dollar (ap (◌∷◌ (c ∷ tail.0)) e))
      | inr not_dollar ↦ elim (Bool-cases (c == b'}')) [
        | inl brace ↦ rw (not_dollar, brace) (none-alone tail m d e)
        | inr chr ↦ (m, rw (not_dollar, chr) e)
      ]
    ]

pub pieces_of-alone :
    (c : ℕ) (cs : Bytes) (d : ℕ)
    → (c == b'$') ≡ false
    → (d == b'$') ≡ false
    → (d == b'}') ≡ false
    → (first : Bytes) × (m : List Bytes) × (pieces_of (c ∷ cs ++ (b'}' ∷ d ∷ []))
        ≡ (c ∷ first) ∷ (m ++ ((d ∷ []) ∷ [])))
pieces_of-alone c cs d plain other chr =
    let (m, e) = tail_of-alone cs d other chr in
    let tail = tail_of (cs ++ (b'}' ∷ d ∷ [])) in
    elim (Bool-cases (c == b'}')) [
      | inl brace ↦
          let (m', e') = none-alone tail m d e in ([], m', rw (plain, brace) (ap (◌∷◌ (c ∷ [])) e'))
      | inr neither ↦ (tail.0, m, rw (plain, neither) (ap (◌∷◌ (c ∷ tail.0)) e))
    ]

-- no dollar and no brace
abbrev pub fixed : Bytes → Bool
fixed [] = true
fixed (c ∷ cs) = let rest = fixed cs in not (c == b'$' || c == b'{' || c == b'}') && rest

tail_of-fixed : (cs : Bytes) → fixed cs ≡ true → tail_of cs ≡ (cs, [])
tail_of-fixed [] e = refl
tail_of-fixed (c ∷ cs) e =
    let rest : fixed cs ≡ true = ground (arith, e) in
    let other : (c == b'$') ≡ false = ground (arith, e) in
    let chr : (c == b'}') ≡ false = ground (arith, e) in rw (other, chr, tail_of-fixed cs rest) refl

-- Such a text is one piece.
pub pieces_of-fixed :
    (c : ℕ) (cs : Bytes) → fixed (c ∷ cs) ≡ true → pieces_of (c ∷ cs) ≡ (c ∷ cs) ∷ []
pieces_of-fixed c cs e = rw (tail_of-fixed (c ∷ cs) e) refl

pub balanced-fixed : (cs : Bytes) → fixed cs ≡ true → balanced false cs ≡ true
balanced-fixed [] e = refl
balanced-fixed (c ∷ cs) e =
    let rest : fixed cs ≡ true = ground (arith, e) in
    let other : (c == b'$') ≡ false = ground (arith, e) in
    let start : (c == b'{') ≡ false = ground (arith, e) in
    let chr : (c == b'}') ≡ false = ground (arith, e) in
    rw (balanced, after_chr, other, start, chr) (balanced-fixed cs rest)
