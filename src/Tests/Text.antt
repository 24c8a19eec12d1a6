-- ===== src/Tests/Text.antt =====
-- Strings, escapes and times.
use folksong.Prelude.{refl, ◌*◌, ◌≡◌, ◌↔◌, ◌≢◌, true, some, none, [], ◌∷◌, ◌++◌, codes, arith}
use folksong.Str.{literal, str_set, str_cmp}
use folksong.Str.Prefix.{Starts, token_of, str_cmp-literal, str_cmp-str_set}
use folksong.Timer.{parse_time}
use folksong.Timer.Time.{
  Time, bare, ms, second, minute, hour, day, suffix, parse_time-suffix, parse_time-none,
}

str_cmp-literal_example :
    (str_cmp (literal (codes "exec")) (token_of (codes "execfoo") []) ≡ true)
    ↔ Starts (codes "exec") (codes "execfoo")
str_cmp-literal_example =
    str_cmp-literal (codes "exec") (codes "execfoo") []
      ((λ e. omega arith), ((λ e. omega arith), ((λ e. omega arith), ((λ e. omega arith), tt))))

str_cmp-str_set_example :
    (str_cmp (token_of (codes "logA") []) (str_set ((codes "log" ++ (b'B' ∷ [])) ++ (0 ∷ [])))
      ≡ true)
    ↔ Starts (codes "log") (codes "logA")
str_cmp-str_set_example =
    str_cmp-str_set (codes "logA") [] (codes "log") b'B'
      ((λ e. omega arith), ((λ e. omega arith), ((λ e. omega arith), tt))) (λ e. omega arith)
      (omega arith)

parse_time-suffix_example :
    parse_time ((codes "15" ++ suffix minute) ++ (0 ∷ [])) ≡ some (some (15 * 60000))
parse_time-suffix_example =
    parse_time-suffix (codes "15") [] minute
      ((omega arith), (omega arith), ((omega arith), (omega arith), tt)) (omega arith) (omega arith)

no_unit : (u : Time) → codes "week" ≢ suffix u
no_unit bare = λ e. ground arith
no_unit ms = λ e. ground arith
no_unit second = λ e. ground arith
no_unit minute = λ e. ground arith
no_unit hour = λ e. ground arith
no_unit day = λ e. ground arith

parse_time-none_example : parse_time ((codes "15" ++ codes "week") ++ (0 ∷ [])) ≡ some none
parse_time-none_example =
    parse_time-none (codes "15") (codes "week") []
      ((omega arith), (omega arith), ((omega arith), (omega arith), tt)) refl
      ((λ e. omega arith), ((λ e. omega arith), ((λ e. omega arith), ((λ e. omega arith), tt))))
      no_unit
