-- ===== src/Publisher/Request/Topic.antt =====
-- Where the topic and the key of a message come from: `fs_mod_http_kafka_get_topic` and
-- `fs_mod_http_kafka_get_key` over the headers of a request.
use folksong.Prelude.{
  subst, ℕ, ◌^◌, ◌<◌, ◌≡◌, refl, sym, ap, ◌∙◌, Option, none, some, List, [], ◌∷◌, length, Bytes,
  arith, inl, inr, Option-cases, codes,
}
use folksong.Arr.{Arr}
use folksong.Http.{Block, Req}
use folksong.Http.Message.Answer.{Collected}
use folksong.Publisher.{Pcre, Kafka, Publisher}
use folksong.Publisher.Request.{
  Place, in_pcre, in_param, in_default, find_param, param_value, try_param, get_value, get_topic,
  url_of, key_of, get_key, Done, failed, publish, done_cb,
}
use folksong.Publisher.Request.Headers.{Valued, from_header, find_param-Valued, Collected-Slots}
use folksong.Str.{Str, c_string}
use folksong.Str.Prefix.{token_of}

-- the pattern left a value that is not empty
abbrev pub Unnamed : Option Bytes → Type 0
Unnamed none = Unit
Unnamed (some []) = Unit
Unnamed (some (c ∷ cs)) = ⊥

-- A value comes from the pattern, or else from the first header with the parameter's name, or else from
-- the default.
pub data Precedence (named : Option Bytes) (p : Bytes) (hs : List (Bytes × Bytes))
    (def : Option Str) : Option (Place × Bytes) → Type 0 where
  by_pattern :
      (c : ℕ) (cs : Bytes)
      → named ≡ some (c ∷ cs)
      → Precedence named p hs def (some (in_pcre, c ∷ cs))
  by_header :
      (v : Bytes)
      → Unnamed named
      → Valued p hs (some v)
      → Precedence named p hs def (some (in_param, c_string v))
  by_default :
      (s : Str)
      → Unnamed named
      → Valued p hs none
      → def ≡ some s
      → Precedence named p hs def (some (in_default, c_string s.mem))
  missing : Unnamed named → Valued p hs none → def ≡ none → Precedence named p hs def none

from_header-Precedence :
    (named : Option Bytes) (p : Bytes) (hs : List (Bytes × Bytes)) (def : Option Str)
    (o : Option Bytes)
    → Unnamed named
    → Valued p hs o
    → Precedence named p hs def (from_header def o)
from_header-Precedence named p hs none none u v = missing u v refl
from_header-Precedence named p hs (some s) none u v = by_default s u v refl
from_header-Precedence named p hs def (some t) u v = by_header t u v

abbrev Chooses :
    Option Bytes
    → Bytes
    → List (Bytes × Bytes)
    → Option Str
    → Option (Option (Place × Bytes))
    → Type 0
Chooses named p hs def none = ⊥
Chooses named p hs def (some got) = Precedence named p hs def got

try_param-Chooses :
    (named : Option Bytes) (path : Bytes) (hs : List (Bytes × Bytes)) (r : Req) (p : Bytes)
    (def : Option Str)
    → Unnamed named
    → Collected path hs r
    → length p < 2 ^ 63
    → Chooses named p hs def (try_param r (some (token_of p [])) def)
unfolding try_param
try_param-Chooses named path hs r p def u c small =
    let (o, valued, e) =
      find_param-Valued r.p_val def p small 0 r.p_key hs (Collected-Slots path hs r c) in
    let counted =
      ap (λ n. param_value r.p_val def (find_param n 0 r.p_key (token_of p []))) c.key_count in
    subst (Chooses named p hs def) (sym (counted ∙ e))
      (from_header-Precedence named p hs def o u valued)

get_value-Chooses :
    (named : Option Bytes) (path : Bytes) (hs : List (Bytes × Bytes)) (r : Req) (p : Bytes)
    (def : Option Str)
    → Collected path hs r
    → length p < 2 ^ 63
    → Chooses named p hs def (get_value named r (some (token_of p [])) def)
unfolding get_value
get_value-Chooses none path hs r p def c small = try_param-Chooses none path hs r p def tt c small
get_value-Chooses (some []) path hs r p def c small =
    try_param-Chooses (some []) path hs r p def tt c small
get_value-Chooses (some (x ∷ xs)) path hs r p def c small = by_pattern x xs refl

-- What becomes of a request: it is refused for want of a topic, or what is sent goes to the topic that was
-- chosen.
pub data Routed (named : Option Bytes) (p : Bytes) (hs : List (Bytes × Bytes)) (def : Option Str)
    (d : Done) : Type 0 where
  no_topic : Precedence named p hs def none → d ≡ failed 400 → Routed named p hs def d
  to_topic :
      (place : Place) (topic : Bytes)
      → Precedence named p hs def (some (place, topic))
      → ((m : Bytes × Bytes × Option Bytes) → d.sent ≡ some m → m.0 ≡ topic)
      → Routed named p hs def d

-- what was sent by a route whose topic was chosen
published_topic :
    (kafka : Kafka) (conf : Option (Arr (Str × Str))) (value : Block) (topic : Bytes)
    (key : Option Bytes) (d : Done)
    → publish kafka conf value topic key ≡ some d
    → (m : Bytes × Bytes × Option Bytes) → d.sent ≡ some m
    → m.0 ≡ topic
unfolding publish
published_topic kafka conf value topic key d e m sent = ground arith

abbrev keyed :
    Kafka
    → Option (Arr (Str × Str))
    → Block
    → Bytes
    → Option Bytes
    → Option (Option (Place × Bytes))
    → Option Done
keyed kafka conf value topic left key = elim key [
  | none ↦ none
  | some key' ↦ publish kafka conf value topic (key_of left key')
]

keyed_topic :
    (kafka : Kafka) (conf : Option (Arr (Str × Str))) (value : Block) (topic : Bytes)
    (left : Option Bytes) (key : Option (Option (Place × Bytes))) (d : Done)
    → keyed kafka conf value topic left key ≡ some d
    → (m : Bytes × Bytes × Option Bytes) → d.sent ≡ some m
    → m.0 ≡ topic
keyed_topic kafka conf value topic left none d e m sent = absurd (ground (arith, e))
keyed_topic kafka conf value topic left (some key) d e m sent =
    published_topic kafka conf value topic (key_of left key) d e m sent

module _ {Re : Type 0} (pcre : Pcre Re) where
  -- Over the headers as they came, a message goes to the topic that the path's pattern names, or else to
  -- the one in the first header that has exactly the configured name, or else to the default topic;
  -- and a request that has none of these is refused with 400.
  pub done_cb-Routed :
      (kafka : Kafka) (route : Publisher Re) (path : Bytes) (hs : List (Bytes × Bytes)) (r : Req)
      (value : Block) (p : Bytes) (d : Done)
      → Collected path hs r
      → route.topic_param ≡ some (token_of p [])
      → length p < 2 ^ 63
      → done_cb pcre kafka route r value ≡ some d
      → Routed (pcre.named route.path_re (url_of r) (codes "topic")) p hs route.default_topic d
  unfolding done_cb get_topic
  done_cb-Routed kafka route path hs r value p d c param small e =
      let named = pcre.named route.path_re (url_of r) (codes "topic") in
      let def = route.default_topic in
      let chosen : Chooses named p hs def (get_topic pcre route r) =
        subst (λ o. Chooses named p hs def (get_value named r o def)) (sym param)
          (get_value-Chooses named path hs r p def c small) in
      elim (Option-cases (get_topic pcre route r)) [
        | inl fault ↦ absurd (subst (Chooses named p hs def) fault chosen)
        | inr (none, t) ↦
            no_topic (subst (Chooses named p hs def) t chosen)
              (ground (arith, rw (done_cb, t) at e))
        | inr (some (place, topic), t) ↦
            to_topic place topic (subst (Chooses named p hs def) t chosen) (
              keyed_topic kafka route.conf value topic _ (get_key pcre route r) d
                (rw (done_cb, t) at e))
      ]
