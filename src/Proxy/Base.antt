-- ===== src/Proxy/Base.antt =====
-- The block of a proxy's path: once made it stays, and a further plain piece does not fit it.
use folksong.Prelude.{
  ℕ, zero, suc, ◌+◌, ◌-◌, ◌%◌, ◌^◌, ◌≤◌, ◌≡◌, refl, sym, ap, ◌∙◌, Option, none, some, [], ◌∷◌, ◌++◌,
  leb, ltb, length, take, replicate, Bytes, arith, length-replicate, take-length_append,
  Option-cases, Bool-cases, inl, inr,
}
use folksong.Http.{Block, Req, overlay, write_text, realloc_block}
use folksong.Os.{Os}
use folksong.Proxy.{
  Pcre, Proxy, str_of, piece_room, add_plain, add_value, add_found, variable_compile, path_prefix,
}
use folksong.Str.{Str, str_cmp}
use folksong.Var.{Piece}

length-resized :
    (n : ℕ) (xs : Bytes) (y : ℕ) → length (take n xs ++ replicate (n - length xs) y) ≡ n
length-resized zero xs y = omega (arith, length-replicate (0 - length xs) y)
length-resized (suc n) [] y =
    let all : suc n - 0 ≡ suc n = omega arith in rw all (length-replicate (suc n) y)
length-resized (suc n) (x ∷ xs) y =
    let less : suc n - suc (length xs) ≡ n - length xs = omega arith in
    rw less (ap suc (length-resized n xs y))

length-realloc :
    (os : Os) (mem mem' : Bytes) (n : ℕ) → realloc_block os mem n ≡ some mem' → length mem' ≡ n
length-realloc os mem mem' n e = elim (Bool-cases (os.malloc n)) [
  | inl got ↦
      let same_block : take n mem ++ replicate (n - length mem) os.fill ≡ mem' = cc in
      ap length (sym same_block) ∙ length-resized n mem os.fill
  | inr refused ↦ absurd (cc)
]

write_text-behind :
    (mem : Bytes) (at : ℕ) (text : Bytes)
    → length mem ≤ at + length text
    → write_text mem at text ≡ none
unfolding write_text
write_text-behind mem at text h = ground arith

-- there is a block
abbrev pub HasBase : Block → Type 0
HasBase b = (mem : Bytes) × (b.base ≡ some mem)

abbrev pub KeepsBase : Block → Option Block → Type 0
KeepsBase b none = Unit
KeepsBase b (some b') = HasBase b → HasBase b'

abbrev pub MakesBase : Option Block → Type 0
MakesBase none = Unit
MakesBase (some b) = HasBase b

pub makes-KeepsBase : (b : Block) (o : Option Block) → MakesBase o → KeepsBase b o
makes-KeepsBase b none m = tt
makes-KeepsBase b (some b') m = λ _. m

module _ {Re : Type 0} (pcre : Pcre Re) (os : Os) where
  -- A plain piece behind others is written with its NUL one byte behind the block, which was made to fit the
  -- bytes alone.
  pub add_plain-Overruns :
      (b : Block) (piece : Piece) → HasBase b → add_plain pcre os b (str_of piece) ≡ none
  unfolding add_plain
  add_plain-Overruns b piece (mem, h) =
      elim (Option-cases (realloc_block os mem ((b.len + length piece.bytes) % 2 ^ 64))) [
        | inl refused ↦ rw (add_plain, h, refused) refl
        | inr (mem', got) ↦
            let window : length (take (length piece.bytes) (piece.bytes ++ (0 ∷ [])))
                ≡ length piece.bytes =
              ap length (take-length_append piece.bytes (0 ∷ [])) in
            let behind =
              write_text-behind mem' b.len (take (length piece.bytes) (piece.bytes ++ (0 ∷ [])))
                (omega (arith, window, length-realloc os mem mem' _ got)) in
            rw (add_plain, h, got, behind) refl
      ]

  pub add_plain-MakesBase : (b : Block) (token : Str) → MakesBase (add_plain pcre os b token)
  unfolding add_plain
  add_plain-MakesBase b token = elim (Option-cases (piece_room pcre os b token.size)) [
    | inl refused ↦ rw (add_plain, refused) tt
    | inr (mem, got) ↦ elim (Option-cases (write_text mem b.len (take token.size token.mem))) [
      | inl behind ↦ rw (add_plain, got, behind) tt
      | inr (mem', e) ↦ rw (add_plain, got, e) (mem', refl)
    ]
  ]

  add_value-MakesBase : (b : Block) (value : Bytes) → MakesBase (add_value pcre os b value)
  unfolding add_value
  add_value-MakesBase b value = elim (Option-cases (piece_room pcre os b (length value))) [
    | inl refused ↦ rw (add_value, refused) tt
    | inr (mem, got) ↦ elim (Bool-cases (leb (b.len + length value) (length mem))) [
      | inl fits ↦ rw (add_value, got, fits) (overlay mem b.len value, refl)
      | inr behind ↦ rw (add_value, got, behind) tt
    ]
  ]

  add_found-KeepsBase :
      (b : Block) (o : Option (Option Bytes)) → KeepsBase b (add_found pcre os b o)
  add_found-KeepsBase b none = tt
  add_found-KeepsBase b (some none) = λ h. h
  add_found-KeepsBase b (some (some [])) = λ h. h
  add_found-KeepsBase b (some (some (c ∷ cs))) =
      makes-KeepsBase b _ (add_value-MakesBase b (c ∷ cs))

  pub variable_compile-KeepsBase :
      (p : Proxy Re) (r : Req) (var : Str) (b : Block)
      → KeepsBase b (variable_compile pcre os p r var b)
  unfolding variable_compile
  variable_compile-KeepsBase p r var b = elim (Bool-cases (str_cmp var (path_prefix pcre os))) [
    | inr other ↦ rw (variable_compile, other) (λ h. h)
    | inl same ↦ elim (Bool-cases (ltb var.size ((path_prefix pcre os).size + 1))) [
      | inl short ↦ rw (variable_compile, same, short) tt
      | inr long ↦ elim (Bool-cases (ltb (var.size - (path_prefix pcre os).size - 1) 128)) [
        | inl fits ↦ rw (variable_compile, same, long, fits) (add_found-KeepsBase b _)
        | inr behind ↦ rw (variable_compile, same, long, behind) tt
      ]
    ]
  ]
