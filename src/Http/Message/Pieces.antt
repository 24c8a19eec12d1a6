-- ===== src/Http/Message/Pieces.antt =====
-- Messages of which a text comes in two pieces, as it does where a read of libuv ends inside it.
use folksong.Prelude.{
  get_elem?-length, get_elem?, join, ℕ, suc, ◌+◌, ◌^◌, ◌<◌, ◌≡◌, refl, ap, ◌∙◌, true, false, none,
  some, List, [], ◌∷◌, ◌++◌, length, Bytes, arith, length-append, take-length_append,
}
use folksong.Arr
use folksong.Arr.{Arr}
use folksong.Arr.Grow.{Roomy}
use folksong.Arr.Push.{IsValid, contents, length-contents, nth-contents}
use folksong.Http.{
  last_index, Text, buf_append, extend, is_in_key, on_url, on_header_field, on_header_value,
}
use folksong.Http.Append.{Holds, buf_append_overrun}
use folksong.Http.Message.{Event, url, field, value, Route, Conn, with_req, on_event, run, serve}
use folksong.Http.Message.Answer.{fresh_req, new_req-fresh, fresh-Roomy, conn}
use folksong.Http.Message.Collect.{whole, buf_append-whole, header_events, extend-whole, run-Heads}
use folksong.Os.{Os}

whole-Holds : (at : Bytes) → Holds (whole at).block (at ++ (0 ∷ [])) at
whole-Holds at = record {
  base = refl;
  noted = omega (arith, length-append at (0 ∷ []));
  inside = omega (arith, length-append at (0 ∷ []));
  written = take-length_append at (0 ∷ []);
}

-- A first piece fills its block, so that a second one lies behind it.
buf_append-whole_more :
    (os : Os) (at more : Bytes)
    → 0 < length more
    → buf_append os (whole at).block (length at) more ≡ none
buf_append-whole_more os at more some_more =
    buf_append_overrun os (whole at).block (at ++ (0 ∷ [])) at more (whole-Holds at)
      (omega (arith, length-append at (0 ∷ [])))

-- the callbacks of a message up to the second piece of its URL, of a header's name or of a header's value,
-- with any callbacks behind
pub data Pieces : List Event → Type 0 where
  url_pieces :
      (at more : Bytes) (rest : List Event) → 0 < length more → Pieces (url at ∷ url more ∷ rest)
  name_pieces :
      (path : Bytes) (hs : List (Bytes × Bytes)) (at more : Bytes) (rest : List Event)
      → length hs + 1 < 2 ^ 28
      → 0 < length more
      → Pieces (url path ∷ (header_events hs ++ (field at ∷ field more ∷ rest)))
  value_pieces :
      (path : Bytes) (hs : List (Bytes × Bytes)) (name at more : Bytes) (rest : List Event)
      → length hs + 1 < 2 ^ 28
      → 0 < length more
      → Pieces (url path ∷ (header_events hs ++ (field name ∷ value at ∷ value more ∷ rest)))

nth-last :
    (a a' : Arr Text) (t : Text)
    → IsValid a
    → contents a' ≡ contents a ++ (some t ∷ [])
    → a'.ele_count ≡ suc a.ele_count
    → Arr.nth a' (last_index a') ≡ some t
nth-last a a' t v held counted =
    let last : last_index a' ≡ length (contents a) = omega (arith, counted, length-contents a v) in
    nth-contents a' (last_index a') (omega (arith, counted))
    ∙ ap (λ i. join (get_elem? (contents a') i)) last
    ∙ ap (λ xs. join (get_elem? xs (length (contents a)))) held
    ∙ ap join (get_elem?-length (contents a) (some t) [])

-- A second piece of the text that was begun last.
extend_more :
    (os : Os) (a : Arr Text) (at more : Bytes)
    → Arr.nth a (last_index a) ≡ some (whole at)
    → 0 < length more
    → extend os false more a ≡ none
unfolding extend
extend_more os a at more e some_more =
    rw (extend, e) (rw (buf_append-whole_more os at more some_more) refl)

module _ {S : Type 0} (os : Os) (routes : List (Route S)) (got : (k : ℕ) → os.malloc k ≡ true) where
  run-name_pieces :
      {b : ℕ} (c : Conn S) (at more : Bytes) (rest : List Event)
      → is_in_key c.req.p_state ≡ false
      → Roomy b 1 c.req.p_key
      → 0 < length more
      → run os routes (field at ∷ field more ∷ rest) c ≡ none
  unfolding run on_event on_header_field
  run-name_pieces c at more rest s room some_more =
      let (keys, e, held, counted, _) = extend-whole os at c.req.p_key got room in
      let last = nth-last c.req.p_key keys (whole at) room.valid held counted in
      rw (run, on_event, on_header_field, s, e, extend_more os keys at more last some_more) refl

  run-value_pieces :
      {b : ℕ} (c : Conn S) (name at more : Bytes) (rest : List Event)
      → is_in_key c.req.p_state ≡ false
      → Roomy b 1 c.req.p_key
      → Roomy b 1 c.req.p_val
      → 0 < length more
      → run os routes (field name ∷ value at ∷ value more ∷ rest) c ≡ none
  unfolding run on_event on_header_field on_header_value
  run-value_pieces c name at more rest s key_room val_room some_more =
      let (keys, ek, _, _, _) = extend-whole os name c.req.p_key got key_room in
      let (vals, e, held, counted, _) = extend-whole os at c.req.p_val got val_room in
      let last = nth-last c.req.p_val vals (whole at) val_room.valid held counted in
      rw
        (
          run,
          on_event,
          on_header_field,
          s,
          ek,
          on_header_value,
          e,
          extend_more os vals at more last some_more,
        )
        refl

  -- A message of which the URL, a header's name or a header's value comes in two pieces is never served:
  -- while memory lasts, the second piece is written over the end of the first one's block. The headers
  -- in front, fewer than 2 ^ 28, and what comes behind do not matter.
  pub serve-Pieces : (es : List Event) → Pieces es → serve os routes es ≡ none
  unfolding serve run on_event on_url
  serve-Pieces _ (url_pieces at more rest some_more) =
      rw (serve, new_req-fresh os got)
        (rw
          (
            run,
            on_event,
            on_url,
            buf_append-whole os at got,
            buf_append-whole_more os at more some_more,
          )
          refl)
  serve-Pieces _ (name_pieces path hs at more rest few some_more) =
      let room = fresh-Roomy (length hs + 1) few in
      let c = conn (record fresh_req { url = whole path }) none [] in
      let h = run-Heads os routes 4 1 hs (field at ∷ field more ∷ rest) c got refl room room in
      rw (serve, new_req-fresh os got)
        (rw (run, on_event, on_url, buf_append-whole os path got, h.runs)
          (run-name_pieces (with_req c h.after) at more rest h.state h.key_room some_more))
  serve-Pieces _ (value_pieces path hs name at more rest few some_more) =
      let room = fresh-Roomy (length hs + 1) few in
      let c = conn (record fresh_req { url = whole path }) none [] in
      let h =
        run-Heads os routes 4 1 hs (field name ∷ value at ∷ value more ∷ rest) c got refl room
          room in
      rw (serve, new_req-fresh os got)
        (rw (run, on_event, on_url, buf_append-whole os path got, h.runs)
          (run-value_pieces (with_req c h.after) name at more rest h.state h.key_room h.val_room
            some_more))
