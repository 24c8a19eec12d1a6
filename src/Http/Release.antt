-- ===== src/Http/Release.antt =====
-- `fs_mod_http_req_release` of mod/fs_mod_http.c: what is freed when a connection is closed.
pub mod Once
pub mod Served
use folksong.Prelude.{
  ℕ, zero, suc, ◌+◌, ◌≤◌, ◌<◌, ◌≡◌, refl, sym, ap, ◌∙◌, Bool, true, false, Option, none, some,
  is_some, List, [], ◌∷◌, ◌++◌, ◌>>=◌, if◌then◌else◌, ◌==◌, ltb, get_elem?, arith, length, Bytes,
}
use folksong.Arr
use folksong.Arr.{Arr}
use folksong.Http.{Text, Req}
use folksong.Http.Message.{
  Owned, read_buffer, url_text, self_text, self_block, key_text, value_text, key_elems, key_array,
  value_elems, value_array, request, Route, Conn,
}
use folksong.Http.Wire.{Wire}

-- `free`, which takes NULL too
abbrev pub free : Bool → Owned → List Owned
free true o = o ∷ []
free false o = []

-- `for (i = 0; i < count; i++)`, from `n` on with the rounds left: `none` is a slot that nothing wrote
unfoldable pub free_texts : (ℕ → Owned) → ℕ → ℕ → Arr Text → Option (List Owned)
free_texts at zero n arr = some []
free_texts at (suc k) n arr = elim (Arr.nth arr n) [
  | none ↦ none
  | some t ↦ elim (free_texts at k (n + 1) arr) [
    | none ↦ none
    | some rest ↦ some (free (is_some t.block.base) (at n) ++ rest)
  ]
]

module _ {S : Type 0} where
  -- `if (req->route && req->route->release_cb)`
  abbrev pub release_self : Option (S → List Owned) → Option S → Option (List Owned)
  release_self none self = some []
  release_self (some f) none = none
  release_self (some f) (some s) = some (f s)

  unfoldable pub free_self : List (Route S) → Conn S → Option (List Owned)
  free_self routes c = elim c.req.route [
    | none ↦ some []
    | some i ↦ elim (get_elem? routes i) [
      | none ↦ none
      | some route ↦ release_self route.release_cb c.self
    ]
  ]

  -- `fs_mod_http_req_release`: the blocks that are freed, in their order; `none` is undefined behaviour
  unfoldable pub req_release : {P : Type 0} → List (Route S) → Wire P S → Option (List Owned)
  unfolding free_texts free_self
  req_release routes w = do
    selfs ← free_self routes w.conn
    keys ← free_texts key_text w.conn.req.p_key.ele_count 0 w.conn.req.p_key
    vals ← free_texts value_text w.conn.req.p_val.ele_count 0 w.conn.req.p_val
    some (
        free w.has_buf read_buffer
        ++ (free (is_some w.conn.req.url.block.base) url_text
            ++ (selfs
                ++ (keys
                    ++ (key_elems
                        ∷ key_array
                        ∷ (vals ++ (value_elems ∷ value_array ∷ request ∷ [])))))))
