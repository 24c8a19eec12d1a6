-- ===== src/Tests/Start.antt =====
-- The program's start.
use folksong.Prelude.{
  ℕ, ◌<◌, ◌^◌, length, arith, ◌≡◌, refl, false, none, some, [], ◌∷◌, ◌++◌, List, codes, replicate,
}
use folksong.Conf.{Conf, Mod, null}
use folksong.Main.{Unset, start, main}
use folksong.Main.Options.{does, takes_text, main-decided}
use folksong.Conf.Parse.{Result, parse_param, conclude}
use folksong.Conf.Parse.Printed.{Carries}
use folksong.Lexer.Quote.{escape}
use folksong.Lexer.RoundTrip.{printed}
use folksong.Main.{configured}
use folksong.Main.Typed.{reading, main-Carries}
use folksong.Queue
use folksong.Str.Prefix.{NoNul}
use folksong.Tests.Whole.{whole, opening, closing}
use folksong.Tests.Fixtures.{plenty, in_memory, timer_cmd}
use folksong.Tests.Statements.{timers}

abbrev unset : Unset ℕ
unset = record {
  file = (in_memory []).file;
  links = record { prev = λ _. 0; next = λ _. 0 };
  frames = λ _. record { module_nth = 0; cmd = timer_cmd; ctx = none };
  fresh = 1;
  mods = record { used = false; ctxs = null } ∷ [];
  world = 0;
  valid = false;
}

abbrev started : Conf ℕ
started = record {
  source = record {
    tokens = record { elems = replicate 3 none; ele_capa = 3; ele_count = 0; ele_size = 40 };
    file = unset.file;
  };
  run = record {
    ctx = record { elems = replicate 8 none; ele_capa = 8; ele_count = 0; ele_size = 8 };
    block = 0;
    links = Queue.init 0 unset.links;
    frames = unset.frames;
    fresh = 1;
    st_depth = 0;
  };
  mods = unset.mods;
  world = 0;
}

start-started : start plenty (timers ∷ []) 9 unset ≡ some started
unfolding start folksong.Arr.alloc folksong.Arr.init folksong.Run.init
start-started = refl

abbrev mods : List (Mod ℕ)
mods = timers ∷ []

main-decided_example :
    main plenty mods 9 unset
      (codes "folksong" ∷ ((codes "x" ∷ []) ++ (codes "-c" ∷ codes "timer {}" ∷ [])))
    ≡ does plenty mods 9 unset started takes_text (codes "timer {}" ∷ [])
main-decided_example =
    main-decided plenty mods 9 unset started (codes "folksong") [] takes_text (codes "x" ∷ [])
      (codes "timer {}" ∷ []) start-started ((λ o more e. cc (e)), tt)

short : length whole < 2 ^ 63
unfolding printed escape
short = omega arith

no_nul : NoNul whole
unfolding printed escape
no_nul = omega arith

main-Carries_example :
    (r : Result ℕ) × (main plenty mods 9 unset
        (codes "folksong" ∷ ([] ++ (codes "-c" ∷ (whole ++ (b';' ∷ [])) ∷ [])))
      ≡ configured plenty mods 9 (conclude plenty mods unset.valid r))
    × Carries plenty mods parse_param (reading unset whole b';') (opening ∷ closing) r
main-Carries_example =
    main-Carries plenty mods 9 (λ n. refl) unset (codes "folksong") (codes "-c") [] [] opening
      closing b';' tt refl (omega arith) (omega arith) short no_nul (omega arith)
