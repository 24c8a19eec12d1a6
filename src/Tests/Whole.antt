-- ===== src/Tests/Whole.antt =====
-- A whole configuration, from a file and from the command line.
use folksong.Prelude.{
  ℕ, ◌≡◌, refl, some, none, false, [], ◌∷◌, length, Bytes, List, Option, codes, arith,
}
use folksong.Arr.Push.{IsValid}
use folksong.Conf.Parse.{parse_file, with_file, Result, returned, parse}
use folksong.Conf.Parse.Balance.{Balanced, parse-Balanced}
use folksong.Conf.Parse.Printed.{Statement, text_of, Carries}
use folksong.Conf.Parse.Whole.{Reads, read_in, parse-Carries}
use folksong.Lexer.Quote.{escape}
use folksong.Lexer.RoundTrip.{open_brace, close_brace, printed}
use folksong.Os.{Os}
use folksong.Queue.Ring.{init-IsRing}
use folksong.Str.{Str}
use folksong.Tests.Fixtures.{plenty, word}
use folksong.Tests.Statements.{timers, conf}
use folksong.Token.{ok}

abbrev pub opening : Statement
opening = (codes "timer" ∷ [], open_brace)

abbrev pub closing : List Statement
closing = ([], close_brace) ∷ []

abbrev pub whole : Bytes
whole = text_of (opening ∷ closing)

-- a file of these statements
abbrev disk : Os
disk = record plenty { st_size = length whole; read = λ off n. some whole; stray = false }

disk-Reads : Reads disk whole
unfolding printed escape
disk-Reads = record { size = refl; fits = omega arith; seeks = refl; reads = refl; stray = refl }

conf-IsValid : IsValid conf.source.tokens
conf-IsValid = record {
  slots = refl;
  some_slot = omega arith;
  in_block = omega arith;
  sized = omega arith;
  countable = omega arith;
  addressable = omega arith;
}

parse-Carries_example :
    Carries disk
      (timers ∷ [])
      parse_file
      (with_file conf (read_in disk whole))
      (opening ∷ closing)
      (parse disk (timers ∷ []) 3 conf (some (word "folksong.conf")))
parse-Carries_example =
    parse-Carries disk (timers ∷ []) (λ n. refl) conf opening closing conf-IsValid (omega arith)
      (omega arith) 3 (word "folksong.conf") (omega arith) refl disk-Reads

parse-Balanced_example :
    Balanced 0 (opening ∷ closing) (parse disk (timers ∷ []) 3 conf (some (word "folksong.conf")))
parse-Balanced_example =
    parse-Balanced disk (timers ∷ []) conf opening closing 3 (word "folksong.conf") [] (λ n. refl)
      conf-IsValid (omega arith) (omega arith) (omega arith) refl disk-Reads
      (record {
        ring = init-IsRing 0 (record { prev = λ _. 0; next = λ _. 0 });
        below = tt;
        fresh_pos = omega arith;
        depth = refl;
      })
      (omega arith)

-- the handler that the configuration called
calls : Result ℕ → Option ℕ
calls (returned ok c) = some c.world
calls _ = none

parse-calls : calls (parse disk (timers ∷ []) 3 conf (some (word "folksong.conf"))) ≡ some 1
unfolding calls parse printed escape folksong.Str.str_cmp folksong.Arr.alloc
parse-calls = refl
