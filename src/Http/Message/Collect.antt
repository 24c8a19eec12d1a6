-- ===== src/Http/Message/Collect.antt =====
-- A request whose URL, header names and header values come in one piece each is collected as it is.
use folksong.Prelude.{
  subst, drop_all, ℕ, suc, ◌+◌, ◌≡◌, refl, sym, ap, ◌∙◌, true, false, Option, some, List, [], ◌∷◌,
  ◌++◌, length, drop, replicate, Bytes, arith, append-nil, append_assoc, length-append,
  length-replicate,
}
use folksong.Arr
use folksong.Arr.{Arr}
use folksong.Arr.Push.{contents}
use folksong.Arr.Grow.{Roomy, push-Pushes, put-Roomy}
use folksong.Http.{
  Block, Text, Req, in_value, null_block, overlay, write_text, make_room, buf_append, extend,
  is_in_key, on_header_field, on_header_value,
}
use folksong.Http.Message.{Event, field, value, Route, Conn, with_req, on_event, run}
use folksong.Http.Append.{write_text-overlay}
use folksong.Os.{Os}

-- a text that came in one piece
abbrev pub whole : Bytes → Text
whole at = record {
  block = record { base = some (at ++ (0 ∷ [])); len = length at + 1 };
  size = length at;
}

pub overlay_all : (mem bytes : Bytes) → length mem ≡ length bytes → overlay mem 0 bytes ≡ bytes
overlay_all mem bytes e =
    let d : drop (0 + length bytes) mem ≡ [] = drop_all (0 + length bytes) mem (omega arith) in
    rw d (append-nil bytes)

pub buf_append-whole :
    (os : Os) (at : Bytes)
    → ((k : ℕ) → os.malloc k ≡ true)
    → buf_append os null_block 0 at ≡ some ((whole at).block, length at)
unfolding buf_append make_room write_text
buf_append-whole os at got =
    let fresh = replicate (length at + 1) os.fill in
    let size : length fresh ≡ length at + 1 = length-replicate (length at + 1) os.fill in
    let text : length (at ++ (0 ∷ [])) ≡ length at + 1 = length-append at (0 ∷ []) in
    let w = write_text-overlay fresh 0 at (omega arith) in
    let all = overlay_all fresh (at ++ (0 ∷ [])) (size ∙ sym text) in
    let none_yet : 0 + length at ≡ length at = omega arith in
    rw (got (length at + 1), buf_append)
      (rw (w, all, buf_append)
        (ap {B = Option (Block × ℕ)} (λ n. some ((whole at).block, n)) none_yet))

Roomy-eq : {b n m : ℕ} {a : Arr Text} → n ≡ m → Roomy b n a → Roomy b m a
Roomy-eq {b} {a} e r = subst (λ k. Roomy b k a) e r

pub extend-whole :
    {b n : ℕ} (os : Os) (at : Bytes) (a : Arr Text)
    → ((k : ℕ) → os.malloc k ≡ true)
    → Roomy b (suc n) a
    → (a' : Arr Text) × (extend os true at a ≡ some a')
      × (contents a' ≡ contents a ++ (some (whole at) ∷ []))
      × (a'.ele_count ≡ suc a.ele_count)
      × Roomy b n a'
unfolding extend
extend-whole os at a got r =
    let p = push-Pushes os.malloc r got in
    (
      Arr.put p.after p.slot (whole at),
      rw (extend, p.pushed, buf_append-whole os at got) refl,
      p.appends.appended (whole at),
      p.appends.counted,
      put-Roomy p.slot (whole at) p.roomy,
    )

-- the callbacks of one header after another
abbrev pub header_events : List (Bytes × Bytes) → List Event
header_events [] = []
header_events ((name, v) ∷ hs) = field name ∷ value v ∷ header_events hs

abbrev pub names : List (Bytes × Bytes) → List (Option Text)
names [] = []
names ((name, v) ∷ hs) = some (whole name) ∷ names hs

abbrev pub values : List (Bytes × Bytes) → List (Option Text)
values [] = []
values ((name, v) ∷ hs) = some (whole v) ∷ values hs

module _ {S : Type 0} (os : Os) (routes : List (Route S)) where
  -- what the headers `hs` make of a connection
  pub record Heads (b n : ℕ) (c : Conn S) (hs : List (Bytes × Bytes)) (rest : List Event)
      : Type 0 where
    pub after : Req
    pub runs : run os routes (header_events hs ++ rest) c ≡ run os routes rest (with_req c after)
    pub url : after.url ≡ c.req.url
    pub route : after.route ≡ c.req.route
    pub keys : contents after.p_key ≡ contents c.req.p_key ++ names hs
    pub vals : contents after.p_val ≡ contents c.req.p_val ++ values hs
    pub key_count : after.p_key.ele_count ≡ c.req.p_key.ele_count + length hs
    pub val_count : after.p_val.ele_count ≡ c.req.p_val.ele_count + length hs
    pub key_room : Roomy b n after.p_key
    pub val_room : Roomy b n after.p_val
    pub state : is_in_key after.p_state ≡ false

  pub run-Heads :
      (b n : ℕ) (hs : List (Bytes × Bytes)) (rest : List Event) (c : Conn S)
      → ((k : ℕ) → os.malloc k ≡ true)
      → is_in_key c.req.p_state ≡ false
      → Roomy b (length hs + n) c.req.p_key
      → Roomy b (length hs + n) c.req.p_val
      → Heads b n c hs rest
  unfolding run on_event on_header_field on_header_value
  run-Heads b n [] rest c got s rk rv = record {
    after = c.req;
    runs = refl;
    url = refl;
    route = refl;
    keys = sym (append-nil _);
    vals = sym (append-nil _);
    key_count = omega arith;
    val_count = omega arith;
    key_room = Roomy-eq (omega arith) rk;
    val_room = Roomy-eq (omega arith) rv;
    state = s;
  }
  run-Heads b n ((name, v) ∷ hs) rest c got s rk rv =
      let (keys, ek, ck, nk, rk') =
        extend-whole os name c.req.p_key got
          (Roomy-eq {m = suc (length hs + n)} (omega arith) rk) in
      let (vals, ev, cv, nv, rv') =
        extend-whole os v c.req.p_val got (Roomy-eq {m = suc (length hs + n)} (omega arith) rv) in
      let r : Req = record c.req { p_key = keys; p_val = vals; p_state = in_value } in
      let ih = run-Heads b n hs rest (with_req c r) got refl rk' rv' in
      record {
        after = ih.after;
        runs = rw (run, on_event, on_header_field, s, ek, ev) ih.runs;
        url = ih.url;
        route = ih.route;
        keys =
            ih.keys
            ∙ ap (λ l. l ++ names hs) ck
            ∙ append_assoc (contents c.req.p_key) (some (whole name) ∷ []) (names hs);
        vals =
            ih.vals
            ∙ ap (λ l. l ++ values hs) cv
            ∙ append_assoc (contents c.req.p_val) (some (whole v) ∷ []) (values hs);
        key_count = omega (arith, ih.key_count, nk);
        val_count = omega (arith, ih.val_count, nv);
        key_room = ih.key_room;
        val_room = ih.val_room;
        state = ih.state;
      }
