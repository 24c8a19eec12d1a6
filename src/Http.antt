-- ===== src/Http.antt =====
-- The request of mod/fs_mod_http.h and the parser's callbacks of mod/fs_mod_http.c.
pub mod Append
pub mod Message
pub mod Release
pub mod Server
pub mod Wire
use folksong.Prelude.{
  ℕ, suc, ◌+◌, ◌-◌, ◌*◌, ◌%◌, ◌^◌, Bool, true, false, not, ◌&&◌, ◌||◌, Option, none, some, List, [],
  ◌∷◌, ◌++◌, ◌==◌, ltb, leb, if◌then◌else◌, length, take, drop, replicate, Bytes,
}
use folksong.Arr
use folksong.Arr.{Arr}
use folksong.Os.{Os}

-- a `uv_buf_t` that grows, or the `buf` of a header's `fs_str_t`: the block behind `base`, and
-- the length that is noted for it
pub record Block : Type 0 where
  pub base : Option Bytes
  pub len : ℕ

abbrev pub null_block : Block
null_block = record { base = none; len = 0 }

-- `memcpy(base + at, bytes, ...)` and more, inside a block
abbrev pub overlay : Bytes → ℕ → Bytes → Bytes
overlay mem at bytes = take at mem ++ (bytes ++ drop (at + length bytes) mem)

-- the copy and its NUL: `none` is a write behind the block
unfoldable pub write_text : Bytes → ℕ → Bytes → Option Bytes
write_text mem at text =
    if leb (suc (at + length text)) (length mem)
    then some (overlay mem at (text ++ (0 ∷ [])))
    else none

-- `malloc` and `realloc`, which keeps the bytes that were there
abbrev pub malloc_block : Os → ℕ → Option Bytes
malloc_block os size = if os.malloc size then some (replicate size os.fill) else none

abbrev pub realloc_block : Os → Bytes → ℕ → Option Bytes
realloc_block os mem size =
    if os.malloc size then some (take size mem ++ replicate (size - length mem) os.fill) else none

-- `buf->base` and `buf->len` behind the `if` of `fs_mod_http_buf_append`; `none` is the NULL of
-- a failed allocation, which is written through next
unfoldable pub make_room : Os → Block → ℕ → ℕ → Option (Bytes × ℕ)
make_room os buf nlen n = elim buf.base [
  | none ↦ elim (malloc_block os (n + 1)) [ none ↦ none | some mem ↦ some (mem, n + 1) ]
  | some mem ↦
      if ltb (nlen + n) buf.len
      then (let len = (buf.len * 2 + 1) % 2 ^ 64 in
          elim (realloc_block os mem len) [ none ↦ none | some mem' ↦ some (mem', len) ])
      else some (mem, buf.len)
]

-- `fs_mod_http_buf_append`: the buffer and `*nlen`
unfoldable pub buf_append : Os → Block → ℕ → Bytes → Option (Block × ℕ)
unfolding make_room write_text
buf_append os buf nlen text = elim (make_room os buf nlen (length text)) [
  | none ↦ none
  | some (mem, len) ↦ elim (write_text mem nlen text) [
    | none ↦ none
    | some mem' ↦ some (record { base = some mem'; len = len }, nlen + length text)
  ]
]

-- a header's name or value: its block, and the size of its window
pub record Text : Type 0 where
  pub block : Block
  pub size : ℕ

abbrev pub null_text : Text
null_text = record { block = null_block; size = 0 }

-- FS_MOD_HTTP_P_STATE_...
pub data PState : Type 0 where
  want_key in_key in_value : PState

-- the fields of `fs_mod_http_req_s` that the callbacks fill; `route` is a route's place
pub record Req : Type 0 where
  pub url : Text
  pub p_key : Arr Text
  pub p_val : Arr Text
  pub p_state : PState
  pub route : Option ℕ

-- `none` is undefined behaviour: a NULL or a place outside a block written through.
unfoldable pub on_url : Os → Bytes → Req → Option Req
unfolding buf_append
on_url os at r = elim (buf_append os r.url.block r.url.size at) [
  | none ↦ none
  | some (b, n) ↦ some (record r { url = record { block = b; size = n } })
]

abbrev pub last_index : Arr Text → ℕ
last_index a = a.ele_count - 1

-- the new slot, or the last one
abbrev pub slot_of : Os → Bool → Arr Text → Option (ℕ × Text × Arr Text)
slot_of os true a = elim (Arr.push os.malloc a) [
  | none ↦ none
  | some (n, a') ↦ some (n, null_text, a')
]
slot_of os false a = elim (Arr.nth a (last_index a)) [
  | none ↦ none
  | some t ↦ some (last_index a, t, a)
]

-- the part that the two header callbacks share
unfoldable pub extend : Os → Bool → Bytes → Arr Text → Option (Arr Text)
unfolding buf_append Arr.push
extend os new at a = elim (slot_of os new a) [
  | none ↦ none
  | some (n, t, a') ↦ elim (buf_append os t.block t.size at) [
    | none ↦ none
    | some (b, size) ↦ some (Arr.put a' n (record { block = b; size = size }))
  ]
]

abbrev pub is_in_key : PState → Bool
is_in_key in_key = true
is_in_key _ = false

unfoldable pub on_header_field : Os → Bytes → Req → Option Req
unfolding extend
on_header_field os at r = elim (extend os (not (is_in_key r.p_state)) at r.p_key) [
  | none ↦ none
  | some keys ↦ some (record r { p_key = keys; p_state = in_key })
]

unfoldable pub on_header_value : Os → Bytes → Req → Option Req
unfolding extend
on_header_value os at r = elim (extend os (is_in_key r.p_state) at r.p_val) [
  | none ↦ none
  | some vals ↦ some (record r { p_val = vals; p_state = in_value })
]

-- the loop of `fs_mod_http_on_headers_complete`, over the answers of the routes' `match_cb`
unfoldable pub first_match : ℕ → List Bool → Option ℕ
first_match i [] = none
first_match i (m ∷ ms) = let rest = first_match (i + 1) ms in if m then some i else rest

-- `fs_mod_http_connection_cb`: the request of a new connection
unfoldable pub new_req : Os → Option Req
unfolding Arr.alloc
new_req os = elim (Arr.alloc os.malloc 4 40) [
  | none ↦ none
  | some keys ↦ elim (Arr.alloc os.malloc 4 40) [
    | none ↦ none
    | some vals ↦
        some
          (record { url = null_text; p_key = keys; p_val = vals; p_state = want_key; route = none })
  ]
]
