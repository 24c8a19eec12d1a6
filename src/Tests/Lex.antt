-- ===== src/Tests/Lex.antt =====
-- The lexer on concrete text.
use folksong.Prelude.{
  sym, append-nil, ◌+◌, ◌^◌, ◌<◌, ◌≡◌, ◌≢◌, refl, some, none, inl, List, [], ◌∷◌, length, Bytes,
  codes, map, Option, arith,
}
use folksong.Arr.{Arr}
use folksong.Arr.Push.{contents}
use folksong.Lexer.{Source, Outcome, done, out_of_fuel, next_token}
use folksong.Lexer.Fuel.{next_token-ne-out_of_fuel}
use folksong.Lexer.Quote.{escape, advance}
use folksong.Lexer.RoundTrip.{semicolon, printed, end_ret, next_token-printed}
use folksong.Lexer.Store.{stored}
use folksong.Str.{Str, c_string}
use folksong.Tests.Fixtures.{plenty, in_memory}

words : Outcome → List (Option Bytes)
words (done r c) = map text (Arr.elems c.tokens)
  where
    text : Option Str → Option Bytes
    text none = none
    text (some s) = some (c_string s.mem)
words _ = []

next_token-words :
    words (next_token plenty 100 (in_memory (codes "# hi\nexec 'a b' c\\nd;")))
    ≡ some (codes "exec") ∷ some (codes "a b") ∷ some (codes "c\nd") ∷ []
unfolding words next_token
next_token-words = refl

abbrev two_words : List Bytes
two_words = codes "exec" ∷ codes "a\"b" ∷ []

abbrev source : Source
source = in_memory (printed two_words semicolon (codes "x"))

small : source.file.buf.last < 2 ^ 63
unfolding printed escape
small = omega arith

next_token-printed_example :
    (final : Source) × (next_token plenty (length (printed two_words semicolon []) + 0) source
      ≡ done (end_ret semicolon) final)
    × (final.file ≡ advance (printed two_words semicolon []) source.file)
    × (contents final.tokens ≡ map (λ w. some (stored plenty w)) two_words)
next_token-printed_example =
    next_token-printed plenty two_words semicolon 0 source (codes "x") (λ n. refl)
      (record {
        slots = refl;
        some_slot = omega arith;
        in_block = omega arith;
        sized = omega arith;
        countable = omega arith;
        addressable = omega arith;
      })
      (omega arith) (omega arith)
      (record { slack = []; here = sym (append-nil _); whole = omega arith }) small

next_token-ne-out_of_fuel_example : next_token plenty 100 (in_memory (codes "a b;")) ≢ out_of_fuel
next_token-ne-out_of_fuel_example =
    next_token-ne-out_of_fuel plenty 100 (in_memory (codes "a b;")) (inl (omega arith))
      (omega arith)
