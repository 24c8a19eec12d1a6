-- ===== src/Publisher/Request/Response.antt =====
-- How a request to a Kafka route is answered.
use folksong.Prelude.{
  ℕ, zero, suc, ◌+◌, ◌≡◌, ◌≢◌, refl, Bool, true, false, not, Option, none, some, is_some, [], ◌∷◌,
  Bytes, arith, ◌==◌, Bool-cases, Option-cases, inl, inr, if◌then◌else◌,
}
use folksong.Arr
use folksong.Arr.{Arr}
use folksong.Arr.Search.{Filled, Within, search-Within}
use folksong.Http.{Block, Text, Req}
use folksong.Publisher.{Pcre, Kafka, Publisher}
use folksong.Publisher.Request.{
  names, find_param, param_value, try_param, get_value, Done, failed, conf_set_all, produced,
  publish, get_topic, get_key, done_cb,
}
use folksong.Str.{Str, c_string}

-- A header has a value for each of its names.
pub record Paired (r : Req) : Type 0 where
  pub keys : Filled 0 r.p_key.ele_count r.p_key
  pub vals : Filled 0 r.p_key.ele_count r.p_val

param_value-some :
    (b : ℕ) (vals : Arr Text) (def : Option Str) (o : Option (Option ℕ))
    → Filled 0 b vals
    → Within b o
    → param_value vals def o ≢ none
param_value-some b vals none none f w = absurd w
param_value-some b vals (some s) none f w = absurd w
param_value-some b vals none (some none) f w = λ e. cc
param_value-some b vals (some s) (some none) f w = λ e. cc
param_value-some b vals def (some (some i)) f w = elim (Option-cases (Arr.nth vals i)) [
  | inl missing ↦ absurd (f i (omega arith) w missing)
  | inr (t, e) ↦ rw (param_value, e) (λ e'. cc)
]

try_param-some : (r : Req) (param def : Option Str) → Paired r → try_param r param def ≢ none
unfolding try_param find_param
try_param-some r none none h = λ e. cc
try_param-some r none (some s) h = λ e. cc
try_param-some r (some param) def h =
    let n = r.p_key.ele_count in
    let count : 0 + n ≡ n = omega arith in
    let found =
      search-Within (λ t. names t param) n 0 r.p_key (λ i l m. h.keys i l (omega arith)) in
    param_value-some n r.p_val def _ h.vals (rw count at found)

get_value-some :
    (left : Option Bytes) (r : Req) (param def : Option Str)
    → Paired r
    → get_value left r param def ≢ none
unfolding get_value
get_value-some none r param def h = try_param-some r param def h
get_value-some (some []) r param def h = try_param-some r param def h
get_value-some (some (c ∷ cs)) r param def h = λ e. cc

-- One response is written: 200 with a message sent and FS_MOD_HTTP_OK, or another code with neither.
pub record Answers (d : Done) : Type 0 where
  pub code : ℕ
  pub one : d.responses ≡ code ∷ []
  pub status : d.is_ok ≡ (code == 200)
  pub message : is_some d.sent ≡ d.is_ok

abbrev pub AnswersOnce : Option Done → Type 0
AnswersOnce none = ⊥
AnswersOnce (some d) = Answers d

failed-400 : Answers (failed 400)
failed-400 = record { code = 400; one = refl; status = refl; message = refl }

failed-500 : Answers (failed 500)
failed-500 = record { code = 500; one = refl; status = refl; message = refl }

conf_set_all-some :
    (kafka : Kafka) (k i : ℕ) (items : Arr (Str × Str))
    → Filled i (i + k) items
    → conf_set_all kafka k i items ≢ none
unfolding conf_set_all
conf_set_all-some kafka zero i items f = λ e. cc
conf_set_all-some kafka (suc k) i items f = elim (Option-cases (Arr.nth items i)) [
  | inl missing ↦ absurd (f i (omega arith) (omega arith) missing)
  | inr ((key, value), e) ↦
      elim (Bool-cases (kafka.conf_set (c_string key.mem) (c_string value.mem))) [
        | inl set ↦
            rw (conf_set_all, e, set)
              (conf_set_all-some kafka k (i + 1) items (λ j l m. f j (omega arith) (omega arith)))
        | inr refused ↦ rw (conf_set_all, e, refused) (λ e'. cc)
      ]
]

or_failed : (b : Bool) (d : Done) → Answers d → Answers (if not b then failed 500 else d)
or_failed true d h = h
or_failed false d h = failed-500

produced-AnswersOnce :
    (kafka : Kafka) (topic value : Bytes) (key : Option Bytes) (o : Option Bool)
    → o ≢ none
    → AnswersOnce (produced kafka topic value key o)
produced-AnswersOnce kafka topic value key none h = absurd (h refl)
produced-AnswersOnce kafka topic value key (some false) h = failed-500
produced-AnswersOnce kafka topic value key (some true) h = or_failed kafka.new _ (
    or_failed kafka.topic_conf_new _ (
      or_failed (kafka.topic_new topic) _ (
        or_failed (kafka.produce topic value key) _
          (record { code = 200; one = refl; status = refl; message = refl }))))

publish-AnswersOnce :
    (kafka : Kafka) (items : Arr (Str × Str)) (value : Block) (topic : Bytes) (key : Option Bytes)
    → Filled 0 items.ele_count items
    → AnswersOnce (publish kafka (some items) value topic key)
unfolding publish
publish-AnswersOnce kafka items value topic key f = elim (Option-cases value.base) [
  | inl empty ↦ rw empty failed-400
  | inr (mem, e) ↦ rw e (
      produced-AnswersOnce kafka topic _ key _
        (conf_set_all-some kafka items.ele_count 0 items (λ i l m. f i l (omega arith))))
]

module _ {Re : Type 0} (pcre : Pcre Re) where
  -- A request whose headers have values, to a route whose configuration is written, is answered
  -- exactly once: with 200 and FS_MOD_HTTP_OK when its message was sent, and with another code
  -- and no message when it was not.
  pub done_cb-AnswersOnce :
      (kafka : Kafka) (p : Publisher Re) (items : Arr (Str × Str)) (r : Req) (value : Block)
      → Paired r
      → p.conf ≡ some items
      → Filled 0 items.ele_count items
      → AnswersOnce (done_cb pcre kafka p r value)
  unfolding done_cb get_topic get_key
  done_cb-AnswersOnce kafka p items r value h conf f = elim (Option-cases (get_topic pcre p r)) [
    | inl fault ↦ absurd (get_value-some _ r p.topic_param p.default_topic h fault)
    | inr (none, e) ↦ rw (done_cb, e) failed-400
    | inr (some (place, topic), e) ↦ elim (Option-cases (get_key pcre p r)) [
      | inl fault ↦ absurd (get_value-some _ r p.key_param p.default_key h fault)
      | inr (key, e') ↦ rw (done_cb, e, e', conf) (publish-AnswersOnce kafka items value topic _ f)
    ]
  ]
