-- ===== src/Http/Message.antt =====
-- The callbacks of mod/fs_mod_http.c for one message, and the routes of mod/fs_mod_http.h that they
-- call. The HTTP parser is a parameter: the list of the callbacks that it makes.
pub mod Choose
pub mod Collect
pub mod Answer
pub mod Pieces
use folksong.Prelude.{
  ℕ, suc, ◌+◌, Bool, Option, none, some, List, [], ◌∷◌, ◌++◌, ◌>>=◌, get_elem?, if◌then◌else◌,
  Bytes,
}
use folksong.Http.{Req, first_match, new_req, on_url, on_header_field, on_header_value}
use folksong.Os.{Os}

-- what the parser calls back with
pub data Event : Type 0 where
  url field value body : Bytes → Event
  headers_complete message_complete : Event

-- the blocks of a connection that are released with it, by where they hang; the two of `self` are the
-- route's
pub data Owned : Type 0 where
  read_buffer url_text self_text self_block : Owned
  key_text value_text : ℕ → Owned
  key_elems key_array value_elems value_array request : Owned

-- `fs_mod_http_route_s`: `S` is what `self` points to. `done_cb` gives the codes of the responses that
-- it writes, and `none` is undefined behaviour; `release_cb` gives the blocks that it frees.
pub record Route (S : Type 0) : Type 0 where
  pub match_cb : Req → Bool
  pub init_cb : Req → Option S
  pub body_cb : Option (Req → Bytes → S → Option S)
  pub done_cb : Req → S → Option (List ℕ)
  pub release_cb : Option (S → List Owned)

-- a request with its route's `self`, and the responses written so far
pub record Conn (S : Type 0) : Type 0 where
  pub req : Req
  pub self : Option S
  pub responses : List ℕ

module _ {S : Type 0} where
  abbrev pub answers : Req → List (Route S) → List Bool
  answers r [] = []
  answers r (route ∷ routes) = route.match_cb r ∷ answers r routes

  abbrev pub with_req : Conn S → Req → Conn S
  with_req c r = record c { req = r }

module _ {S : Type 0} (os : Os) (routes : List (Route S)) where
  -- the first route that matches, with its `init_cb`
  abbrev pub take_route : Conn S → Option ℕ → Option (Conn S)
  take_route c none = some c
  take_route c (some i) = elim (get_elem? routes i) [
    | none ↦ none
    | some route ↦
        let r = record c.req { route = some i } in
        elim (route.init_cb r) [ none ↦ none | some s ↦ some (record c { req = r; self = some s }) ]
  ]

  -- `fs_mod_http_on_headers_complete`
  unfoldable pub on_headers_complete : Conn S → Option (Conn S)
  unfolding first_match
  on_headers_complete c = take_route c (first_match 0 (answers c.req routes))

  abbrev pub give_body :
      Conn S → Bytes → Option (Req → Bytes → S → Option S) → Option S → Option (Conn S)
  give_body c at none self = some c
  give_body c at (some f) none = none
  give_body c at (some f) (some s) = elim (f c.req at s) [
    | none ↦ none
    | some s' ↦ some (record c { self = some s' })
  ]

  -- `fs_mod_http_on_body`
  unfoldable pub on_body : Bytes → Conn S → Option (Conn S)
  on_body at c = elim c.req.route [
    | none ↦ some c
    | some i ↦ elim (get_elem? routes i) [
      | none ↦ none
      | some route ↦ give_body c at route.body_cb c.self
    ]
  ]

  abbrev pub finish : Conn S → (Req → S → Option (List ℕ)) → Option S → Option (Conn S)
  finish c f none = none
  finish c f (some s) = elim (f c.req s) [
    | none ↦ none
    | some codes ↦ some (record c { responses = c.responses ++ codes })
  ]

  -- `fs_mod_http_on_message_complete`
  unfoldable pub on_message_complete : Conn S → Option (Conn S)
  on_message_complete c = elim c.req.route [
    | none ↦ some (record c { responses = c.responses ++ (404 ∷ []) })
    | some i ↦ elim (get_elem? routes i) [
      | none ↦ none
      | some route ↦ finish c route.done_cb c.self
    ]
  ]

  abbrev pub on_req : Conn S → Option Req → Option (Conn S)
  on_req c none = none
  on_req c (some r) = some (with_req c r)

  unfoldable pub on_event : Event → Conn S → Option (Conn S)
  unfolding on_url on_header_field on_header_value on_headers_complete on_body on_message_complete
  on_event (url at) c = on_req c (on_url os at c.req)
  on_event (field at) c = on_req c (on_header_field os at c.req)
  on_event (value at) c = on_req c (on_header_value os at c.req)
  on_event (body at) c = on_body at c
  on_event headers_complete c = on_headers_complete c
  on_event message_complete c = on_message_complete c

  -- `http_parser_execute`, over the callbacks that it makes
  unfoldable pub run : List Event → Conn S → Option (Conn S)
  unfolding on_event
  run [] c = some c
  run (e ∷ es) c = elim (on_event e c) [ none ↦ none | some c' ↦ run es c' ]

  -- the callbacks that a new connection, `fs_mod_http_connection_cb`, sees
  unfoldable pub serve : List Event → Option (Conn S)
  unfolding new_req run
  serve es = elim (new_req os) [
    | none ↦ none
    | some r ↦ run es (record { req = r; self = none; responses = [] })
  ]
