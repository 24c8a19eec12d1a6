-- ===== src/Listener/Poll/Dispatch.antt =====
-- Which topic a message goes to.
use folksong.Prelude.{
  ℕ, zero, suc, ◌+◌, ◌^◌, ◌<◌, ◌≡◌, ◌≢◌, ◌↔◌, true, some, [], ◌∷◌, ◌++◌, length, Bytes,
}
use folksong.Arr
use folksong.Arr.{Arr}
use folksong.Arr.Search.{First, Decides, search-First}
use folksong.Listener.{Topic}
use folksong.Listener.Poll.{takes, find_topic}
use folksong.Str.{c_string}
use folksong.Str.Prefix.{NoNul, Starts, token_of, c_string-token, str_cmp-str_set}

-- the slots from `n` on, `k` of them, hold topics that a configuration named
abbrev pub Named : ℕ → ℕ → Arr Topic → Type 0
Named zero n arr = Unit
Named (suc k) n arr =
    ((t : Topic) × (text : Bytes) × (slack : Bytes) × (Arr.nth arr n ≡ some t)
      × (t.topic ≡ token_of text slack)
      × NoNul text)
    × Named k (n + 1) arr

-- a topic whose configured name starts with `m`
abbrev pub StartsWith : Bytes → Topic → Type 0
StartsWith m t = Starts m (c_string t.topic.mem)

takes-StartsWith :
    (m : Bytes) (c : ℕ) (t : Topic) (text slack : Bytes)
    → t.topic ≡ token_of text slack
    → NoNul text
    → NoNul m
    → c ≢ 0
    → length m < 2 ^ 63
    → (takes (m ++ (c ∷ [])) t ≡ true) ↔ StartsWith m t
unfolding takes
takes-StartsWith m c t text slack e z zm w small =
    rw (takes, e, c_string-token text slack z) (str_cmp-str_set text slack m c zm w small)

Named-Decides :
    (k n : ℕ) (arr : Arr Topic) (m : Bytes) (c : ℕ)
    → Named k n arr
    → NoNul m
    → c ≢ 0
    → length m < 2 ^ 63
    → Decides (takes (m ++ (c ∷ []))) (StartsWith m) k n arr
Named-Decides zero n arr m c h zm w small = tt
Named-Decides (suc k) n arr m c ((t, text, slack, e, name, z), h) zm w small = (
  (t, e, takes-StartsWith m c t text slack name z zm w small),
  Named-Decides k (n + 1) arr m c h zm w small,
)

-- A message goes to the first topic whose configured name starts with the message's topic, its last
-- byte left out; and to none only where there is none.
pub find_topic-First :
    (arr : Arr Topic) (m : Bytes) (c : ℕ)
    → Named arr.ele_count 0 arr
    → NoNul m
    → c ≢ 0
    → length m < 2 ^ 63
    → First (StartsWith m) 0 (0 + arr.ele_count) arr (find_topic (m ++ (c ∷ [])) arr)
unfolding find_topic
find_topic-First arr m c h zm w small =
    search-First (takes (m ++ (c ∷ []))) (StartsWith m) arr.ele_count 0 arr
      (Named-Decides arr.ele_count 0 arr m c h zm w small)
