-- ===== src/Publisher/Serve.antt =====
-- mod/http/kafka.c as a route of the HTTP server: what `fs_mod_http_route_add` gets in
-- `fs_mod_http_kafka_block`.
use folksong.Prelude.{
  ◌+◌, ◌++◌, append-nil, append_assoc, length-append, is_some, subst, ℕ, zero, suc, ◌^◌, ◌<◌, ◌≡◌,
  ◌≢◌, refl, sym, ap, ◌∙◌, true, Option, none, some, List, [], ◌∷◌, length, joined, Bytes, arith,
  get_elem?, join, if◌then◌else◌,
}
use folksong.Arr.{Arr}
use folksong.Arr.Push.{nth-contents}
use folksong.Arr.Search.{Filled}
use folksong.Http.{Block, Req, null_block}
use folksong.Http.Message.{Owned, self_text, self_block, Route, Conn, serve}
use folksong.Http.Message.Collect.{names, values}
use folksong.Http.Message.Answer.{Lawful, Answered, Source, fed, message, serve-Answered}
use folksong.Http.Message.Answer
use folksong.Os.{Os}
use folksong.Publisher.{Pcre, Kafka, Publisher}
use folksong.Publisher.Request.{Done, body_cb, match_cb, done_cb}
use folksong.Publisher.Request.Body.{Collected, body_cb-Collected}
use folksong.Publisher.Request.Response.{Paired, AnswersOnce, done_cb-AnswersOnce}
use folksong.Str.{Str}

abbrev pub responses_of : Option Done → Option (List ℕ)
responses_of none = none
responses_of (some d) = some d.responses

-- sizeof(fs_mod_http_kafka_value_t)
abbrev sizeof_value : ℕ
sizeof_value = 16

-- `fs_mod_http_kafka_init_cb`
unfoldable pub init_cb : Os → Option Block
init_cb os = if os.malloc sizeof_value then some null_block else none

-- `fs_mod_http_kafka_release_cb`
unfoldable pub release_cb : Block → List Owned
release_cb b = if is_some b.base then self_text ∷ self_block ∷ [] else self_block ∷ []

unfoldable pub route : {Re : Type 0} → Os → Pcre Re → Kafka → Publisher Re → Route Block
unfolding init_cb body_cb match_cb done_cb release_cb
route os pcre kafka p = record {
  match_cb = match_cb pcre p;
  init_cb = λ r. init_cb os;
  body_cb = some (λ r at b. body_cb os at b);
  done_cb = λ r b. responses_of (done_cb pcre kafka p r b);
  release_cb = some release_cb;
}

names-some :
    (hs : List (Bytes × Bytes)) (i : ℕ) → i < length hs → join (get_elem? (names hs) i) ≢ none
names-some [] i l = absurd (omega arith)
names-some ((name, v) ∷ hs) zero l = λ e. cc
names-some ((name, v) ∷ hs) (suc i) l = names-some hs i (omega arith)

values-some :
    (hs : List (Bytes × Bytes)) (i : ℕ) → i < length hs → join (get_elem? (values hs) i) ≢ none
values-some [] i l = absurd (omega arith)
values-some ((name, v) ∷ hs) zero l = λ e. cc
values-some ((name, v) ∷ hs) (suc i) l = values-some hs i (omega arith)

Collected-Paired :
    (path : Bytes) (hs : List (Bytes × Bytes)) (r : Req) → Answer.Collected path hs r → Paired r
Collected-Paired path hs r c = record {
  keys = λ i l m e.
      let there : join (get_elem? (names hs) i) ≡ none =
        sym (ap (λ xs. join (get_elem? xs i)) c.keys) ∙ sym (nth-contents r.p_key i m) ∙ e in
      names-some hs i (omega (arith, c.key_count)) there;
  vals = λ i l m e.
      let there : join (get_elem? (values hs) i) ≡ none =
        sym (ap (λ xs. join (get_elem? xs i)) c.vals)
        ∙ sym (nth-contents r.p_val i (omega (arith, c.key_count, c.val_count)))
        ∙ e in
      values-some hs i (omega (arith, c.key_count)) there;
}

one_response : (o : Option Done) → AnswersOnce o → (code : ℕ) × (responses_of o ≡ some (code ∷ []))
one_response none a = absurd a
one_response (some d) a = (a.code, ap {B = Option (List ℕ)} some a.one)

-- a publisher whose configuration is written
pub record Ready {Re : Type 0} (p : Publisher Re) : Type 0 where
  pub items : Arr (Str × Str)
  pub conf : p.conf ≡ some items
  pub filled : Filled 0 items.ele_count items

route-Lawful :
    {Re : Type 0} (os : Os) (pcre : Pcre Re) (kafka : Kafka) (p : Publisher Re)
    → ((k : ℕ) → os.malloc k ≡ true)
    → Ready p
    → Lawful (route os pcre kafka p)
unfolding route init_cb
route-Lawful os pcre kafka p got ready = record {
  Holds = λ text b. Collected b text;
  init = λ r. (null_block, rw (got 16), record { bytes = refl; len = refl });
  takes = λ r text at b c small. body_cb-Collected os b text at got c small;
  done = λ path hs r text b c h. one_response _ (
      done_cb-AnswersOnce pcre kafka p ready.items r b (Collected-Paired path hs r c) ready.conf
        ready.filled);
}

-- the routes of the `kafka` blocks of a server
abbrev pub publishers :
    {Re : Type 0} → Os → Pcre Re → Kafka → List (Publisher Re) → List (Route Block)
publishers os pcre kafka [] = []
publishers os pcre kafka (p ∷ ps) = route os pcre kafka p ∷ publishers os pcre kafka ps

abbrev pub AllReady : {Re : Type 0} → List (Publisher Re) → Type 0
AllReady [] = Unit
AllReady (p ∷ ps) = Ready p × AllReady ps

pub publishers-Lawful :
    {Re : Type 0} (os : Os) (pcre : Pcre Re) (kafka : Kafka) (ps : List (Publisher Re))
    → ((k : ℕ) → os.malloc k ≡ true)
    → AllReady ps
    → (i : ℕ) (route' : Route Block) → get_elem? (publishers os pcre kafka ps) i ≡ some route'
    → Lawful route'
publishers-Lawful os pcre kafka [] got ready i route' e = absurd (cc)
publishers-Lawful os pcre kafka (p ∷ ps) got (ready, rest) zero route' e =
    let same_route : route os pcre kafka p ≡ route' = cc in
    subst Lawful same_route (route-Lawful os pcre kafka p got ready)
publishers-Lawful os pcre kafka (p ∷ ps) got (ready, rest) (suc i) route' e =
    publishers-Lawful os pcre kafka ps got rest i route' e

publisher-there :
    {Re : Type 0} (os : Os) (pcre : Pcre Re) (kafka : Kafka) (ps : List (Publisher Re)) (i : ℕ)
    (route' : Route Block)
    → get_elem? (publishers os pcre kafka ps) i ≡ some route'
    → (p : Publisher Re) × (get_elem? ps i ≡ some p) × (route' ≡ route os pcre kafka p)
publisher-there os pcre kafka [] i route' e = absurd (cc)
publisher-there os pcre kafka (p ∷ ps) zero route' e = (p, refl, cc)
publisher-there os pcre kafka (p ∷ ps) (suc i) route' e =
    publisher-there os pcre kafka ps i route' e

module _ {Re : Type 0} (os : Os) (pcre : Pcre Re) (kafka : Kafka)
    (got : (k : ℕ) → os.malloc k ≡ true) where
  fed-Collected :
      (p : Publisher Re) (r : Req) (ats : List Bytes) (b b' : Block) (text : Bytes)
      → Collected b text
      → length text + length (joined ats) < 2 ^ 64
      → fed (route os pcre kafka p) r ats b ≡ some b'
      → Collected b' (text ++ joined ats)
  unfolding route
  fed-Collected p r [] b b' text c small e =
      let same : b ≡ b' = cc in rw (append-nil text) (subst (λ x. Collected x text) same c)
  fed-Collected p r (at ∷ ats) b b' text c small e =
      let sizes = length-append at (joined ats) in
      let (b1, e1, c1) = body_cb-Collected os b text at got c (omega arith) in
      rw (sym (append_assoc text at (joined ats))) (
        fed-Collected p r ats b1 b' (text ++ at) c1 (omega (arith, length-append text at))
          (rw (fed, e1) at e))

-- Where the response comes from: it is what `done_cb` of the publisher of this number answers for the
-- request and the whole body, or a 404.
abbrev pub Publishes :
    {Re : Type 0}
    → Os
    → Pcre Re
    → Kafka
    → List (Publisher Re)
    → List Bytes
    → Conn Block
    → ℕ
    → Option ℕ
    → Type 0
Publishes os pcre kafka ps ats c code none = code ≡ 404
Publishes {Re} os pcre kafka ps ats c code (some i) =
    (p : Publisher Re) × (get_elem? ps i ≡ some p)
    × (b : Block) × Collected b (joined ats)
    × (responses_of (done_cb pcre kafka p c.req b) ≡ some (code ∷ []))

Source-Publishes :
    {Re : Type 0} (os : Os) (pcre : Pcre Re) (kafka : Kafka) (ps : List (Publisher Re))
    (ats : List Bytes) (c : Conn Block) (code : ℕ) (o : Option ℕ)
    → ((k : ℕ) → os.malloc k ≡ true)
    → length (joined ats) < 2 ^ 64
    → Source (publishers os pcre kafka ps) ats c code o
    → Publishes os pcre kafka ps ats c code o
unfolding route init_cb
Source-Publishes os pcre kafka ps ats c code none got small s = s
Source-Publishes os pcre kafka ps ats c code (some i) got small (route', there, b0, b, init, f, d) =
    let (p, here, same) = publisher-there os pcre kafka ps i route' there in
    let fresh : null_block ≡ b0 = cc (rw (same, got 16) at init) in
    let begun : Collected b0 [] =
      subst (λ x. Collected x []) fresh (record { bytes = refl; len = refl }) in
    (
      p,
      here,
      b,
      fed-Collected os pcre kafka got p c.req ats b0 b [] begun (omega arith) (rw same at f),
      rw same at d,
    )

-- one response, as `Answered` says, and from which publisher
pub record Published {Re : Type 0} (os : Os) (pcre : Pcre Re) (kafka : Kafka)
    (ps : List (Publisher Re)) (path : Bytes) (hs : List (Bytes × Bytes)) (ats : List Bytes)
    (o : Option (Conn Block)) : Type 0 where
  pub answered : Answered (publishers os pcre kafka ps) path hs ats o
  pub published :
      Publishes os pcre kafka ps ats answered.after answered.code answered.after.req.route

-- A server whose routes are Kafka publishers with written configurations answers a message, whose URL and
-- headers come in one piece each and whose body comes in any pieces, exactly once while memory lasts: with
-- what `done_cb` of the first publisher that takes the request answers for the body as a whole, or with a 404
-- where no publisher takes it. The headers are fewer than 2 ^ 28 and the body's bytes fewer than 2 ^ 64.
pub publishers-Answered :
    {Re : Type 0} (os : Os) (pcre : Pcre Re) (kafka : Kafka) (ps : List (Publisher Re))
    (path : Bytes) (hs : List (Bytes × Bytes)) (ats : List Bytes)
    → ((k : ℕ) → os.malloc k ≡ true)
    → AllReady ps
    → length hs < 2 ^ 28
    → length (joined ats) < 2 ^ 64
    → Published os pcre kafka ps path hs ats
        (serve os (publishers os pcre kafka ps) (message path hs ats))
publishers-Answered os pcre kafka ps path hs ats got ready few small =
    let a =
      serve-Answered os (publishers os pcre kafka ps) path hs ats got
        (publishers-Lawful os pcre kafka ps got ready) few small in
    record {
      answered = a;
      published =
          Source-Publishes os pcre kafka ps ats a.after a.code a.after.req.route got small a.source;
    }
