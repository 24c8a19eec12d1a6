-- ===== src/Main/Options.antt =====
-- Which of the arguments decides.
use folksong.Prelude.{
  ◌==◌, Bool-cases, inl, inr, arith, ℕ, ◌≡◌, ◌≢◌, refl, sym, ap, append-nil, ◌∙◌, Bool, true, some,
  List, [], ◌∷◌, ◌++◌, Bytes,
}
use folksong.Conf.{Conf, Mod}
use folksong.Conf.Parse.{conf, conf_file}
use folksong.Str.{str_set}
use folksong.Main.{
  configured, fault, Exit, returned, ran, Choice, help, cmdline, file, other, choice, given, Unset,
  start, arguments, main,
}
use folksong.Os.{Os}

-- none of these is an option
abbrev pub AllOther : List Bytes → Type 0
AllOther [] = Unit
AllOther (arg ∷ args) = (choice arg ≡ other) × AllOther args

-- the three options, and the letters behind their dashes
pub data Flag : Type 0 where
  asks_help takes_text names_file : Flag

abbrev pub letter : Flag → ℕ
letter asks_help = b'h'
letter takes_text = b'c'
letter names_file = b'f'

-- an argument that is an option, whatever follows its letter
abbrev pub spelled : Flag → Bytes → Bytes
spelled o more = b'-' ∷ letter o ∷ more

-- None of the arguments is an option.
abbrev pub NoFlag : List Bytes → Type 0
NoFlag [] = Unit
NoFlag (arg ∷ args) = ((o : Flag) (more : Bytes) → arg ≢ spelled o more) × NoFlag args

choice_of : Flag → Choice
choice_of asks_help = help
choice_of takes_text = cmdline
choice_of names_file = file

choice_of-ne-other : (o : Flag) → choice_of o ≢ other
unfolding choice_of
choice_of-ne-other asks_help e = absurd (cc (e))
choice_of-ne-other takes_text e = absurd (cc (e))
choice_of-ne-other names_file e = absurd (cc (e))

choice-spelled : (o : Flag) (more : Bytes) → choice (spelled o more) ≡ choice_of o
unfolding choice_of
choice-spelled asks_help more = refl
choice-spelled takes_text more = refl
choice-spelled names_file more = refl

two_bytes : (c d m n : ℕ) (cs : Bytes) → (c == m) ≡ true → (d == n) ≡ true → c ∷ d ∷ cs ≡ m ∷ n ∷ cs
two_bytes c d m n cs e f =
    let same : c ≡ m = ground (arith, e) in
    let same' : d ≡ n = ground (arith, f) in rw (same, same') refl

choice-other :
    (arg : Bytes) → ((o : Flag) (more : Bytes) → arg ≢ spelled o more) → choice arg ≡ other
choice-other [] unlike = refl
choice-other (c ∷ []) unlike = refl
choice-other (c ∷ d ∷ cs) unlike = elim (Bool-cases (c == b'-')) [
  | inr plain ↦ rw plain refl
  | inl dash ↦ elim (Bool-cases (d == b'h')) [
    | inl h ↦ absurd (unlike asks_help cs (two_bytes c d b'-' b'h' cs dash h))
    | inr not_h ↦ elim (Bool-cases (d == b'c')) [
      | inl h ↦ absurd (unlike takes_text cs (two_bytes c d b'-' b'c' cs dash h))
      | inr not_c ↦ elim (Bool-cases (d == b'f')) [
        | inl h ↦ absurd (unlike names_file cs (two_bytes c d b'-' b'f' cs dash h))
        | inr not_f ↦ rw (dash, not_h, not_c, not_f) refl
      ]
    ]
  ]
]

NoFlag-AllOther : (args : List Bytes) → NoFlag args → AllOther args
NoFlag-AllOther [] h = tt
NoFlag-AllOther (arg ∷ args) (unlike, h) = (choice-other arg unlike, NoFlag-AllOther args h)

module _ {W : Type 0} (os : Os) (mods : List (Mod W)) (fuel : ℕ) where
  arguments-skip :
      (valid : Bool) (c : Conf W) (skipped rest : List Bytes)
      → AllOther skipped
      → arguments os mods fuel valid c (skipped ++ rest) ≡ arguments os mods fuel valid c rest
  unfolding arguments
  arguments-skip valid c [] rest h = refl
  arguments-skip valid c (arg ∷ skipped) rest h =
      rw (arguments, h.0) (arguments-skip valid c skipped rest h.1)

  -- what the program does for an option and the arguments behind it
  abbrev pub decided : Unset W → Conf W → Choice → List Bytes → Exit W
  decided u c help rest = returned true
  decided u c cmdline rest = given os mods fuel (conf os mods fuel u.valid c) rest
  decided u c file rest = given os mods fuel (conf_file os mods fuel u.valid c) rest
  decided u c other rest = ran c

  decided-arguments :
      (u : Unset W) (c : Conf W) (arg : Bytes) (rest : List Bytes) (k : Choice)
      → choice arg ≡ k
      → k ≢ other
      → arguments os mods fuel u.valid c (arg ∷ rest) ≡ decided u c k rest
  unfolding arguments
  decided-arguments u c arg rest help e option = rw (arguments, e)
  decided-arguments u c arg rest cmdline e option = rw (arguments, e)
  decided-arguments u c arg rest file e option = rw (arguments, e)
  decided-arguments u c arg rest other e option = absurd (option refl)

  -- What the program does for an option with the arguments behind it: -h ends it at once; -c reads the
  -- next argument, and -f the file that it names, which must be there.
  abbrev pub does : Unset W → Conf W → Flag → List Bytes → Exit W
  does u c asks_help rest = returned true
  does u c takes_text [] = fault
  does u c takes_text (text ∷ rest) =
      configured os mods fuel (conf os mods fuel u.valid c (str_set (text ++ (0 ∷ []))))
  does u c names_file [] = fault
  does u c names_file (path ∷ rest) =
      configured os mods fuel (conf_file os mods fuel u.valid c (str_set (path ++ (0 ∷ []))))

  does-decided :
      (u : Unset W) (c : Conf W) (o : Flag) (rest : List Bytes)
      → decided u c (choice_of o) rest ≡ does u c o rest
  unfolding choice_of
  does-decided u c asks_help rest = refl
  does-decided u c takes_text [] = refl
  does-decided u c takes_text (text ∷ rest) = refl
  does-decided u c names_file [] = refl
  does-decided u c names_file (path ∷ rest) = refl

  main-arguments :
      (u : Unset W) (c : Conf W) (name arg : Bytes) (args : List Bytes)
      → start os mods fuel u ≡ some c
      → main os mods fuel u (name ∷ (arg ∷ args)) ≡ arguments os mods fuel u.valid c (arg ∷ args)
  unfolding main
  main-arguments u c name arg args e = rw (main, e)

  pub main-choice :
      (u : Unset W) (c : Conf W) (name arg : Bytes) (skipped rest : List Bytes)
      → start os mods fuel u ≡ some c
      → AllOther skipped
      → choice arg ≢ other
      → main os mods fuel u (name ∷ (skipped ++ (arg ∷ rest))) ≡ decided u c (choice arg) rest
  main-choice u c name arg [] rest e h option =
      main-arguments u c name arg rest e ∙ decided-arguments u c arg rest (choice arg) refl option
  main-choice u c name arg (first ∷ skipped) rest e h option =
      main-arguments u c name first (skipped ++ (arg ∷ rest)) e
      ∙ arguments-skip u.valid c (first ∷ skipped) (arg ∷ rest) h
      ∙ decided-arguments u c arg rest (choice arg) refl option

  -- The first argument that starts with -h, -c or -f decides what the program does: it returns 0, or reads
  -- the next argument, or the file that the next argument names, and without a next one it reads a NULL;
  -- what stands in front of it does not matter.
  pub main-decided :
      (u : Unset W) (c : Conf W) (name more : Bytes) (o : Flag) (skipped rest : List Bytes)
      → start os mods fuel u ≡ some c
      → NoFlag skipped
      → main os mods fuel u (name ∷ (skipped ++ (spelled o more ∷ rest))) ≡ does u c o rest
  main-decided u c name more o skipped rest e h =
      let same = choice-spelled o more in
      main-choice u c name (spelled o more) skipped rest e (NoFlag-AllOther skipped h)
        (λ e'. choice_of-ne-other o (sym same ∙ e'))
      ∙ ap (λ k. decided u c k rest) same
      ∙ does-decided u c o rest

  -- Arguments without an option among them start libuv's loop with unlike configuration at all.
  pub main-undecided :
      (u : Unset W) (c : Conf W) (name arg : Bytes) (args : List Bytes)
      → start os mods fuel u ≡ some c
      → NoFlag (arg ∷ args)
      → main os mods fuel u (name ∷ (arg ∷ args)) ≡ ran c
  unfolding arguments
  main-undecided u c name arg args e h =
      main-arguments u c name arg args e
      ∙ ap (arguments os mods fuel u.valid c) (sym (append-nil (arg ∷ args)))
      ∙ arguments-skip u.valid c (arg ∷ args) [] (NoFlag-AllOther (arg ∷ args) h)
