-- ===== src/Main/Typed.antt =====
-- A configuration that is given to the program on its command line: `main` of core/folksong.c down to
-- `fs_conf_handle`.
use folksong.Prelude.{
  ℕ, ◌+◌, ◌-◌, ◌%◌, ◌^◌, ◌<◌, ◌≡◌, ◌≢◌, refl, ap, ◌∙◌, true, some, List, [], ◌∷◌, ◌++◌, length,
  Bytes, arith, append_assoc, length-append,
}
use folksong.Arr
use folksong.Arr.{Arr}
use folksong.Arr.Push.{IsValid}
use folksong.Conf.{Conf, Mod, gmod_init}
use folksong.Conf.Parse.{Result, parse_param, with_file, parse_cmdline, conclude, conf}
use folksong.Conf.Parse.Printed.{Statement, text_of, words_in, Carries}
use folksong.Conf.Parse.Whole.{typed_in, window, parse_cmdline-Carries}
use folksong.Main.{cmdline, choice, configured, given, Unset, start, main}
use folksong.Main.Options.{AllOther, decided, main-choice}
use folksong.Os.{Os}
use folksong.Queue
use folksong.Run
use folksong.Str.{c_string, str_set}
use folksong.Str.Prefix.{NoNul, NoNul-append, c_string-token}

-- the state of a run before its configuration
abbrev pub started : {W : Type 0} → Unset W → Conf W
started u = record {
  source = record {
    tokens = record { elems = Arr.fresh 120 40; ele_capa = 3; ele_count = 0; ele_size = 40 };
    file = u.file;
  };
  run = record {
    ctx = record { elems = Arr.fresh 64 8; ele_capa = 8; ele_count = 0; ele_size = 8 };
    block = 0;
    links = Queue.init 0 u.links;
    frames = u.frames;
    fresh = u.fresh;
    st_depth = 0;
  };
  mods = u.mods;
  world = u.world;
}

-- `fs_str_set` over an argument: its last byte is left out of the window
str_set-window :
    (text : Bytes) (x : ℕ)
    → NoNul text
    → x ≢ 0
    → length text < 2 ^ 63
    → str_set ((text ++ (x ∷ [])) ++ (0 ∷ [])) ≡ window text (x ∷ 0 ∷ [])
unfolding str_set
str_set-window text x plain some_byte small =
    let seen : c_string ((text ++ (x ∷ [])) ++ (0 ∷ [])) ≡ text ++ (x ∷ []) =
      c_string-token (text ++ (x ∷ [])) [] (NoNul-append text (x ∷ []) plain (some_byte, tt)) in
    let size : (length (c_string ((text ++ (x ∷ [])) ++ (0 ∷ []))) + 2 ^ 64 - 1) % 2 ^ 64
        ≡ length text =
      omega (arith, ap length seen, length-append text (x ∷ [])) in
    λ i. record { mem = append_assoc text (x ∷ []) (0 ∷ []) i; size = size i }

-- what `fs_conf_parse` finds of a text and one byte more on the command line
abbrev pub reading : {W : Type 0} → Unset W → Bytes → ℕ → Conf W
reading u text x =
    with_file (record (started u) { mods = gmod_init u.mods }) (typed_in text (x ∷ 0 ∷ []))

module _ {W : Type 0} (os : Os) (mods : List (Mod W)) (fuel : ℕ)
    (got : (n : ℕ) → os.malloc n ≡ true) where
  start-started : (u : Unset W) → start os mods fuel u ≡ some (started u)
  unfolding start Arr.alloc Arr.init Run.init
  start-started u = rw (start, got 40, Arr.alloc, Arr.init, got 120, Run.init, got 64) refl

  started-IsValid : (u : Unset W) → IsValid (started u).source.tokens
  started-IsValid u = record {
    slots = refl;
    some_slot = omega arith;
    in_block = omega arith;
    sized = omega arith;
    countable = omega arith;
    addressable = omega arith;
  }

  given-conf :
      (u : Unset W) (text : Bytes) (x : ℕ) (rest : List Bytes)
      → str_set ((text ++ (x ∷ [])) ++ (0 ∷ [])) ≡ window text (x ∷ 0 ∷ [])
      → given os mods fuel (conf os mods fuel u.valid (started u)) ((text ++ (x ∷ [])) ∷ rest)
        ≡ configured os mods fuel (
            conclude os mods u.valid (
              parse_cmdline os mods fuel
                (record (started u) { mods = gmod_init u.mods })
                (window text (x ∷ 0 ∷ []))))
  unfolding conf
  given-conf u text x rest e =
      ap (λ s. configured os mods fuel (conf os mods fuel u.valid (started u) s)) e

  -- Run with `-c` and a text of double-quoted statements with one more byte behind, the program leaves
  -- that byte out, handles the statements in their order until one is refused, and then runs its loop
  -- or returns as the parse says. Words and texts hold no NUL, memory and fuel suffice, and nothing
  -- in front of the option is one.
  pub main-Carries :
      (u : Unset W) (name opt : Bytes) (skipped rest : List Bytes) (stmt : Statement)
      (stmts : List Statement) (x : ℕ)
      → AllOther skipped
      → choice opt ≡ cmdline
      → length (stmt ∷ stmts) < fuel
      → words_in (stmt ∷ stmts) < 2 ^ 28
      → length (text_of (stmt ∷ stmts)) < 2 ^ 63
      → NoNul (text_of (stmt ∷ stmts))
      → x ≢ 0
      → (r : Result W) × (main os mods fuel u
            (name ∷ (skipped ++ (opt ∷ (text_of (stmt ∷ stmts) ++ (x ∷ [])) ∷ rest)))
          ≡ configured os mods fuel (conclude os mods u.valid r))
        × Carries os mods parse_param (reading u (text_of (stmt ∷ stmts)) x) (stmt ∷ stmts) r
  main-Carries u name opt skipped rest stmt stmts x others option enough few small plain some_byte =
      let text = text_of (stmt ∷ stmts) in
      let c = record (started u) { mods = gmod_init u.mods } in
      let args = (text ++ (x ∷ [])) ∷ rest in
      (
        parse_cmdline os mods fuel c (window text (x ∷ 0 ∷ [])),
        main-choice os mods fuel u (started u) name opt skipped args (start-started u) others
              (λ e. cc)
            ∙ ap (λ k. decided os mods fuel u (started u) k args) option
            ∙ given-conf u text x rest (str_set-window text x plain some_byte small),
        parse_cmdline-Carries os mods got c stmt stmts (started-IsValid u) (omega arith)
            (omega arith) fuel (x ∷ 0 ∷ []) enough small,
      )
