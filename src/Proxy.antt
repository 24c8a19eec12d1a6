-- ===== src/Proxy.antt =====
-- mod/http/proxy.c: an HTTP route that is to pass a request on. libpcre and `atoi` are parameters. What
-- the code does with a request is to work out the path, and to answer it with 200.
pub mod Base
pub mod Config
pub mod Configured
pub mod Path
pub mod Serve
pub mod Url
use folksong.Prelude.{
  is_some, ℕ, zero, suc, ◌+◌, ◌-◌, ◌%◌, ◌^◌, Bool, true, false, not, ◌&&◌, ◌||◌, Option, none, some,
  List, [], ◌∷◌, ◌++◌, ◌==◌, ltb, leb, if◌then◌else◌, length, take, drop, get_elem?, Bytes, codes,
}
use folksong.Arr
use folksong.Arr.{Arr, Malloc}
use folksong.Http.{
  Block, Text, Req, null_block, null_text, overlay, write_text, malloc_block, realloc_block,
}
use folksong.Http.Message.{Owned, self_text, self_block, Route}
use folksong.Os.{Os}
use folksong.Publisher.Request.{url_of}
use folksong.Str.{Str, c_string, strlen, literal, str_cmp}
use folksong.Token.{Ret, ok, error, pass}
use folksong.Var
use folksong.Var.{Piece, Parsed, parsed, var_error, fault}

-- libpcre over compiled patterns, a pattern that may be NULL among them: `pcre_compile`; whether `pcre_exec`
-- answers PCRE_ERROR_NOMATCH; the PCRE_INFO_CAPTURECOUNT of `pcre_fullinfo`, `none` for an error; what
-- `pcre_get_substring_list` makes of the match, `none` for an error; and `pcre_get_named_substring`, `none`
-- where it leaves NULL. Substrings are C strings. `atoi` is libc's.
pub record Pcre (Re : Type 0) : Type 0 where
  pub compile : Bytes → Option Re
  pub no_match : Re → Bytes → Bool
  pub capture_count : Option Re → Option ℕ
  pub substring_list : Option Re → Bytes → Option (List Bytes)
  pub named : Option Re → Bytes → Bytes → Option Bytes
  pub atoi : Bytes → ℕ

-- `fs_mod_http_proxy_s`
pub record Proxy (Re : Type 0) : Type 0 where
  pub path : Str
  pub path_re : Option Re
  pub path_captures : ℕ
  pub pass_path : Option (Arr Piece)

-- sizeof(fs_mod_http_proxy_t), sizeof(fs_str_t) and sizeof(fs_mod_http_proxy_next_t)
abbrev pub sizeof_proxy : ℕ
sizeof_proxy = 112

abbrev pub sizeof_str : ℕ
sizeof_str = 40

abbrev pub sizeof_next : ℕ
sizeof_next = 288

-- a piece as the `fs_str_t` that it is, its NUL included
abbrev pub str_of : Piece → Str
str_of p = record { mem = p.bytes ++ (0 ∷ []); size = length p.bytes }

module _ {Re : Type 0} (pcre : Pcre Re) (os : Os) where
  -- `fs_mod_http_proxy_match_cb`
  unfoldable pub match_cb : Proxy Re → Req → Bool
  match_cb p r = elim p.path_re [ none ↦ true | some re ↦ not (pcre.no_match re (url_of r)) ]

  -- the block with room for `n` bytes more, and for a NUL only where it is the first
  abbrev pub piece_room : Block → ℕ → Option Bytes
  piece_room b n = elim b.base [
    | none ↦ malloc_block os (n + 1)
    | some mem ↦ realloc_block os mem ((b.len + n) % 2 ^ 64)
  ]

  -- a plain piece and its NUL
  unfoldable pub add_plain : Block → Str → Option Block
  unfolding write_text
  add_plain b token = elim (piece_room b token.size) [
    | none ↦ none
    | some mem ↦ elim (write_text mem b.len (take token.size token.mem)) [
      | none ↦ none
      | some mem' ↦ some (record { base = some mem'; len = b.len + token.size })
    ]
  ]

  -- the value of a variable, without a NUL
  unfoldable pub add_value : Block → Bytes → Option Block
  add_value b value = elim (piece_room b (length value)) [
    | none ↦ none
    | some mem ↦
        if leb (b.len + length value) (length mem)
        then some (record { base = some (overlay mem b.len value); len = b.len + length value })
        else none
  ]

  -- `strspn(token, "0123456789") == strlen(token)`
  abbrev pub is_number : Bytes → Bool
  is_number [] = true
  is_number (c ∷ cs) = let rest = is_number cs in leb b'0' c && leb c b'9' && rest

  -- the string list ends with a NULL; behind that there is nothing
  abbrev pub nth_value : List Bytes → ℕ → Option (Option Bytes)
  nth_value values n = elim (get_elem? values n) [
    | some value ↦ some (some value)
    | none ↦ if n == length values then some none else none
  ]

  -- `var_val`: the inner `none` is a NULL, or a `break` in front of it
  unfoldable pub value_of : Proxy Re → Req → Bytes → Option (Option Bytes)
  value_of p r token =
      if is_number token
      then elim (pcre.substring_list p.path_re (url_of r)) [
        | none ↦ some none
        | some values ↦
            let n = pcre.atoi token in
            if ltb p.path_captures n then some none else nth_value values n
      ]
      else some (pcre.named p.path_re (url_of r) token)

  -- an empty value adds nothing
  abbrev pub add_found : Block → Option (Option Bytes) → Option Block
  add_found b none = none
  add_found b (some none) = some b
  add_found b (some (some [])) = some b
  add_found b (some (some (c ∷ cs))) = add_value b (c ∷ cs)

  abbrev pub path_prefix : Str
  path_prefix = literal (codes "${path_")

  -- `fs_mod_http_variable_compile`: a name of fewer than 0 bytes is a copy of nearly 2 ^ 64, and one of 128
  -- or more has no room for its NUL
  unfoldable pub variable_compile : Proxy Re → Req → Str → Block → Option Block
  unfolding str_cmp value_of add_value
  variable_compile p r var b =
      if not (str_cmp var path_prefix)
      then some b
      else if ltb var.size (path_prefix.size + 1)
      then none
      else (let n = var.size - path_prefix.size - 1 in
          if ltb n 128
          then add_found b (value_of p r (c_string (take n (drop path_prefix.size var.mem))))
          else none)

  -- one piece: `token` is read at its first byte
  unfoldable pub add_piece : Proxy Re → Req → Str → Block → Option Block
  unfolding add_plain variable_compile
  add_piece p r token b = elim token.mem [
    | [] ↦ none
    | c ∷ cs ↦ if not (c == b'$') then add_plain b token else variable_compile p r token b
  ]

  -- the loop, from `i` on with the rounds left
  unfoldable pub add_pieces : Proxy Re → Req → ℕ → ℕ → Arr Piece → Block → Option Block
  unfolding add_piece
  add_pieces p r zero i arr b = some b
  add_pieces p r (suc k) i arr b = elim (Arr.nth arr i) [
    | none ↦ none
    | some piece ↦ elim (add_piece p r (str_of piece) b) [
      | none ↦ none
      | some b' ↦ add_pieces p r k (i + 1) arr b'
    ]
  ]

  -- `fs_mod_http_proxy_set_next_path`: the `url` of what `self` points to
  unfoldable pub set_next_path : Proxy Re → Req → Option Text
  unfolding add_pieces
  set_next_path p r = elim p.pass_path [
    | none ↦ none
    | some arr ↦
        if arr.ele_count == 0
        then some null_text
        else elim (add_pieces p r arr.ele_count 0 arr null_block) [
          | none ↦ none
          | some b ↦ some (record { block = b; size = b.len })
        ]
  ]

  -- `fs_mod_http_proxy_init_cb`
  unfoldable pub init_cb : Proxy Re → Req → Option Text
  unfolding set_next_path
  init_cb p r = if os.malloc sizeof_next then set_next_path p r else none

  -- `fs_mod_http_proxy_release_cb`
  unfoldable pub release_cb : Text → List Owned
  release_cb next = if is_some next.block.base then self_text ∷ self_block ∷ [] else self_block ∷ []

  -- the five callbacks of the route
  unfoldable pub route : Proxy Re → Route Text
  unfolding match_cb init_cb release_cb
  route p = record {
    match_cb = match_cb p;
    init_cb = init_cb p;
    body_cb = some (λ r at next. some next);
    done_cb = λ r next. some (200 ∷ []);
    release_cb = some release_cb;
  }
