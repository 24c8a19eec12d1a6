-- ===== src/Listener/Poll/Unset.antt =====
-- What a message does to a topic's program.
use folksong.Prelude.{
  ℕ, zero, suc, ◌+◌, ◌-◌, ◌^◌, ◌≤◌, ◌<◌, ◌≡◌, ◌≢◌, refl, ◌∙◌, true, Option, none, some, List, [],
  ◌∷◌, ◌++◌, arith, ap, ◌==◌, Bool-cases, Option-cases, inl, inr, Bytes,
}
use folksong.Args.{Args, build}
use folksong.Args.Overrun.{Present, Overruns, build-Overruns}
use folksong.Arr
use folksong.Arr.{Arr, Malloc}
use folksong.Listener.{Topic, Listener}
use folksong.Listener.Config.{inited}
use folksong.Listener.Poll.{
  Message, Uv, argument, with_word, args_len, arguments, hand_over, sizeof_proc,
}
use folksong.Str.{Str, c_string}

with_word-none : (w : Option Bytes) → with_word w none ≡ none
with_word-none none = refl
with_word-none (some w) = refl

-- from cell `i` on, `d` cells in front of the one that nothing wrote
arguments-unset :
    (k d i : ℕ) (a : Args) (m : Message) (n : ℕ)
    → i + d ≡ n
    → ((j : ℕ) → j < n → (s : Str) × (a.cell j ≡ some (some s)))
    → a.cell n ≡ none
    → arguments k i a m ≡ none
unfolding arguments
arguments-unset zero d i a m n e words unset = refl
arguments-unset (suc k) zero i a m n e words unset =
    let here : i ≡ n = omega arith in rw (arguments, here, unset) refl
arguments-unset (suc k) (suc d) i a m n e words unset =
    let (s, w) = words i (omega arith) in
    rw (arguments, w, arguments-unset k d (i + 1) a m n (omega arith) words unset)
      (with_word-none (argument m (c_string s.mem)))

Present-some :
    (k i : ℕ) (tokens : Arr Str) (j : ℕ)
    → Present k i tokens
    → i ≤ j
    → j < i + k
    → Arr.nth tokens j ≢ none
Present-some zero i tokens j p l m = absurd (omega arith)
Present-some (suc k) i tokens j p l m = elim (Bool-cases (j == i)) [
  | inl at ↦ let same : j ≡ i = ground arith in rw same p.0
  | inr later ↦ Present-some k (i + 1) tokens j p.1 (ground (arith, later)) (omega arith)
]

-- the words of the vector of an `exec` statement
word :
    (tokens : Arr Str) (a : Args)
    → Overruns tokens a
    → Present (tokens.ele_count - 1) 1 tokens
    → (j : ℕ) → j < tokens.ele_count - 1
    → (s : Str) × (a.cell j ≡ some (some s))
word tokens a o there j l = elim (Option-cases (Arr.nth tokens (suc j))) [
  | inl missing ↦ absurd (
      Present-some (tokens.ele_count - 1) 1 tokens (suc j) there (omega arith) (omega arith)
        missing)
  | inr (s, e) ↦ (s, o.words j (omega arith) ∙ ap some e)
]

-- A message for a topic whose program `exec` configured reads a cell of the argument vector that
-- nothing wrote.
pub hand_over-exec :
    (malloc : Malloc) (uv : Uv) (l : Listener) (m : Message) (tokens : Arr Str) (t : Topic)
    → ((k : ℕ) → malloc k ≡ true)
    → 1 < tokens.ele_count
    → tokens.ele_count < 2 ^ 31
    → Present (tokens.ele_count - 1) 1 tokens
    → t.args ≡ build malloc tokens
    → l.looped ≡ true
    → hand_over malloc uv l m t ≡ none
unfolding hand_over
hand_over-exec malloc uv l m tokens t got pos small there e looped =
    let (a, b, o) = build-Overruns malloc tokens got pos small there in
    let unset : arguments args_len 0 a m ≡ none =
      arguments-unset args_len (tokens.ele_count - 1) 0 a m (tokens.ele_count - 1) (omega arith)
        (λ j l. word tokens a o there j l) o.last_unset in
    rw (hand_over, got sizeof_proc, looped, e, b, unset) refl

-- When the configuration is done the last listener has its loop, and the others are as they were.
pub inited-append :
    (ls : List Listener) (l : Listener)
    → inited (ls ++ (l ∷ [])) ≡ ls ++ (record l { looped = true } ∷ [])
unfolding inited
inited-append [] l = refl
inited-append (m ∷ []) l = refl
inited-append (m ∷ n ∷ ls) l = ap (◌∷◌ m) (inited-append (n ∷ ls) l)
