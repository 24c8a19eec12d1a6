-- ===== src/Http/Message/Answer.antt =====
-- How a message that comes in on a new connection is answered, over what its routes promise.
use folksong.Prelude.{
  is_some, ℕ, ◌+◌, ◌^◌, ◌<◌, ◌≡◌, refl, ap, true, Option, none, some, List, [], ◌∷◌, ◌++◌, length,
  joined, Bytes, arith, length-append, get_elem?,
}
use folksong.Arr
use folksong.Arr.{Arr, alloc}
use folksong.Arr.Push.{contents}
use folksong.Arr.Grow.{Roomy}
use folksong.Http.{Text, Req, null_text, want_key, on_url, first_match, new_req}
use folksong.Http.Message.{
  Event, url, body, headers_complete, message_complete, Route, Conn, answers, on_headers_complete,
  give_body, on_body, on_message_complete, on_event, run, serve,
}
use folksong.Http.Message.Choose.{Chosen, first_match-Chosen}
use folksong.Http.Message.Collect.{whole, buf_append-whole, header_events, names, values, run-Heads}
use folksong.Os.{Os}

-- the request of a message with this URL and these headers
pub record Collected (path : Bytes) (hs : List (Bytes × Bytes)) (r : Req) : Type 0 where
  pub url : r.url ≡ whole path
  pub keys : contents r.p_key ≡ names hs
  pub vals : contents r.p_val ≡ values hs
  pub key_count : r.p_key.ele_count ≡ length hs
  pub val_count : r.p_val.ele_count ≡ length hs

abbrev pub given : {S : Type 0} → Option (Req → Bytes → S → Option S) → Req → Bytes → S → Option S
given none r at s = some s
given (some f) r at s = f r at s

-- What the server relies on in a route: it takes a body of fewer than 2 ^ 64 bytes in any pieces, and
-- writes one response at the end. `Holds text s` says that `self` is `s` behind a body `text`.
pub record Lawful {S : Type 0} (route : Route S) : Type 1 where
  pub Holds : Bytes → S → Type 0
  pub init : (r : Req) → (s : S) × (route.init_cb r ≡ some s) × Holds [] s
  pub takes :
      (r : Req) (text at : Bytes) (s : S)
      → Holds text s
      → length text + length at < 2 ^ 64
      → (s' : S) × (given route.body_cb r at s ≡ some s') × Holds (text ++ at) s'
  pub done :
      (path : Bytes) (hs : List (Bytes × Bytes)) (r : Req) (text : Bytes) (s : S)
      → Collected path hs r
      → Holds text s
      → (code : ℕ) × (route.done_cb r s ≡ some (code ∷ []))

abbrev pub body_events : List Bytes → List Event
body_events [] = []
body_events (at ∷ ats) = body at ∷ body_events ats

-- what the pieces of a body make of `self`
abbrev pub fed : {S : Type 0} → Route S → Req → List Bytes → S → Option S
fed route r [] s = some s
fed route r (at ∷ ats) s = elim (given route.body_cb r at s) [
  | none ↦ none
  | some s' ↦ fed route r ats s'
]

-- Where the response comes from: with a route it is what its `done_cb` writes for the `self` that its
-- `init_cb` made, once this has taken the body; without one it is a 404.
abbrev pub Source : {S : Type 0} → List (Route S) → List Bytes → Conn S → ℕ → Option ℕ → Type 0
Source routes ats c code none = code ≡ 404
Source {S} routes ats c code (some i) =
    (route : Route S) × (get_elem? routes i ≡ some route)
    × (fresh : S) × (s : S) × (route.init_cb c.req ≡ some fresh)
    × (fed route c.req ats fresh ≡ some s)
    × (route.done_cb c.req s ≡ some (code ∷ []))

-- One response to a message with this URL, these headers and this body, over the routes: from the first
-- route that takes the request, or 404 where none does.
pub record Answered {S : Type 0} (routes : List (Route S)) (path : Bytes)
    (hs : List (Bytes × Bytes)) (ats : List Bytes) (o : Option (Conn S)) : Type 0 where
  pub after : Conn S
  pub ends : o ≡ some after
  pub code : ℕ
  pub one : after.responses ≡ code ∷ []
  pub collected : Collected path hs after.req
  pub chosen : Chosen (record after.req { route = none }) routes after.req.route
  pub source : Source routes ats after code after.req.route
  pub kept : is_some after.self ≡ is_some after.req.route

abbrev pub message : Bytes → List (Bytes × Bytes) → List Bytes → List Event
message path hs ats =
    url path
    ∷ (header_events hs ++ (headers_complete ∷ (body_events ats ++ (message_complete ∷ []))))

abbrev pub conn : {S : Type 0} → Req → Option S → List ℕ → Conn S
conn r self codes = record { req = r; self = self; responses = codes }

given-give_body :
    {S : Type 0} (os : Os) (routes : List (Route S)) (f : Option (Req → Bytes → S → Option S))
    (r : Req) (at : Bytes) (s s' : S) (codes : List ℕ)
    → given f r at s ≡ some s'
    → give_body os routes (conn r (some s) codes) at f (some s) ≡ some (conn r (some s') codes)
given-give_body os routes none r at s s' codes e =
    ap {B = Option (Conn _)} (λ o. some (conn r o codes)) e
given-give_body os routes (some f) r at s s' codes e = rw e

module _ {S : Type 0} (os : Os) (routes : List (Route S)) where
  run-unmatched :
      (ats : List Bytes) (r : Req) (self : Option S) (codes : List ℕ)
      → r.route ≡ none
      → run os routes (body_events ats ++ (message_complete ∷ [])) (conn r self codes)
        ≡ some (conn r self (codes ++ (404 ∷ [])))
  unfolding run on_event on_body on_message_complete
  run-unmatched [] r self codes e = simp (e)
  run-unmatched (at ∷ ats) r self codes e = simp (e) (run-unmatched ats r self codes e)

  -- the body and the end of a message to a route that was taken
  run-matched :
      (path : Bytes) (hs : List (Bytes × Bytes)) (i : ℕ) (route : Route S) (law : Lawful route)
      (ats : List Bytes) (r : Req) (text : Bytes) (s : S)
      → r.route ≡ some i
      → get_elem? routes i ≡ some route
      → Collected path hs r
      → law.Holds text s
      → length text + length (joined ats) < 2 ^ 64
      → (code : ℕ) × (s' : S) × (fed route r ats s ≡ some s')
        × (route.done_cb r s' ≡ some (code ∷ []))
        × (run os routes (body_events ats ++ (message_complete ∷ [])) (conn r (some s) [])
            ≡ some (conn r (some s') (code ∷ [])))
  unfolding run on_event on_body on_message_complete
  run-matched path hs i route law [] r text s e there c h small =
      let (code, d) = law.done path hs r text s c h in (code, s, refl, d, simp (e, there, d))
  run-matched path hs i route law (at ∷ ats) r text s e there c h small =
      let sizes = length-append at (joined ats) in
      let (s', t, h') = law.takes r text at s h (omega arith) in
      let g = given-give_body os routes route.body_cb r at s s' [] t in
      let (code, s'', f, d, ih) =
        run-matched path hs i route law ats r (text ++ at) s' e there c h'
          (omega (arith, length-append text at)) in
      (code, s'', rw (fed, t) f, d, simp (e, there, g) ih)

-- the request of a new connection
abbrev pub fresh_texts : Arr Text
fresh_texts = record { elems = Arr.fresh 160 40; ele_capa = 4; ele_count = 0; ele_size = 40 }

abbrev pub fresh_req : Req
fresh_req = record {
  url = null_text;
  p_key = fresh_texts;
  p_val = fresh_texts;
  p_state = want_key;
  route = none;
}

pub new_req-fresh : (os : Os) → ((k : ℕ) → os.malloc k ≡ true) → new_req os ≡ some fresh_req
unfolding new_req alloc Arr.init
new_req-fresh os got =
    let texts : alloc {A = Text} os.malloc 4 40 ≡ some fresh_texts =
      rw (alloc, got 40, Arr.init, got 160) in
    rw (new_req, texts) (rw (texts))

pub fresh-Roomy : (n : ℕ) → n < 2 ^ 28 → Roomy 4 n fresh_texts
fresh-Roomy n small = record {
  valid = record {
    slots = refl;
    some_slot = omega arith;
    in_block = omega arith;
    sized = omega arith;
    countable = omega arith;
    addressable = omega arith;
  };
  small = omega arith;
  capa = omega arith;
  bound = omega arith;
}

abbrev waiting : Req → Req
waiting r = record r { route = none }

module _ {S : Type 0} (os : Os) (routes : List (Route S)) where
  -- the callbacks behind the headers
  tail-Answered :
      (path : Bytes) (hs : List (Bytes × Bytes)) (ats : List Bytes) (r : Req) (o : Option ℕ)
      → ((i : ℕ) (route : Route S) → get_elem? routes i ≡ some route → Lawful route)
      → length (joined ats) < 2 ^ 64
      → Collected path hs r
      → first_match 0 (answers (waiting r) routes) ≡ o
      → Chosen (waiting r) routes o
      → Answered routes path hs ats (
          run os routes
            (headers_complete ∷ (body_events ats ++ (message_complete ∷ [])))
            (conn (waiting r) none []))
  unfolding run on_event on_headers_complete
  tail-Answered path hs ats r none laws small c m h = record {
    after = conn (waiting r) none (404 ∷ []);
    ends =
        rw (run, on_event, on_headers_complete, m)
          (run-unmatched os routes ats (waiting r) none [] refl);
    code = 404;
    one = refl;
    collected = record {
      url = c.url;
      keys = c.keys;
      vals = c.vals;
      key_count = c.key_count;
      val_count = c.val_count;
    };
    chosen = h;
    source = refl;
    kept = refl;
  }
  tail-Answered path hs ats r (some i) laws small c m ((route, there, taken), h) =
      let law = laws i route there in
      let r' : Req = record r { route = some i } in
      let c' : Collected path hs r' = record {
        url = c.url;
        keys = c.keys;
        vals = c.vals;
        key_count = c.key_count;
        val_count = c.val_count;
      } in
      let (s, init, holds) = law.init r' in
      let (code, s', f, d, ends) =
        run-matched os routes path hs i route law ats r' [] s refl there c' holds (omega arith) in
      record {
        after = conn r' (some s') (code ∷ []);
        ends = rw (run, on_event, on_headers_complete, m, there, init) ends;
        code = code;
        one = refl;
        collected = c';
        chosen = ((route, there, taken), h);
        source = (route, there, s, s', init, f, d);
        kept = refl;
      }

  -- A message whose URL, header names and header values come in one piece each, with fewer than 2 ^ 28
  -- headers and a body of fewer than 2 ^ 64 bytes in any pieces, gets exactly one response on a new
  -- connection while memory lasts: the one that the `done_cb` of the first route that takes the request
  -- writes, for the URL and the headers as they came and its own state with the body taken in, or a 404 where
  -- no route takes it. The routes must be ones that the server can rely on.
  pub serve-Answered :
      (path : Bytes) (hs : List (Bytes × Bytes)) (ats : List Bytes)
      → ((k : ℕ) → os.malloc k ≡ true)
      → ((i : ℕ) (route : Route S) → get_elem? routes i ≡ some route → Lawful route)
      → length hs < 2 ^ 28
      → length (joined ats) < 2 ^ 64
      → Answered routes path hs ats (serve os routes (message path hs ats))
  unfolding serve run on_event on_url
  serve-Answered path hs ats got laws few small =
      let r0 : Req = record fresh_req { url = whole path } in
      let room = fresh-Roomy (length hs + 0) (omega arith) in
      let h =
        run-Heads os routes 4 0 hs (headers_complete ∷ (body_events ats ++ (message_complete ∷ [])))
          (conn r0 none []) got refl room room in
      let c : Collected path hs h.after = record {
        url = h.url;
        keys = h.keys;
        vals = h.vals;
        key_count = omega (arith, h.key_count);
        val_count = omega (arith, h.val_count);
      } in
      let same_req : h.after ≡ waiting h.after = ap (λ o. record h.after { route = o }) h.route in
      let tail =
        tail-Answered path hs ats h.after _ laws small c refl
          (first_match-Chosen (waiting h.after) routes) in
      rw (serve, new_req-fresh os got)
        (rw (run, on_event, on_url, buf_append-whole os path got, h.runs) (rw same_req tail))
