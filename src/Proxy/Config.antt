-- ===== src/Proxy/Config.antt =====
-- The handlers of mod/http/proxy.c that a configuration calls.
use folksong.Prelude.{ℕ, ◌-◌, Bool, not, Option, none, some, ◌==◌, if◌then◌else◌, take}
use folksong.Arr
use folksong.Arr.{Arr, Malloc}
use folksong.Os.{Os}
use folksong.Str.{Str, c_string}
use folksong.Token.{Ret, ok, error, pass}
use folksong.Var
use folksong.Var.{Piece, Parsed, parsed, var_error, fault}
use folksong.Proxy.{Pcre, Proxy, sizeof_proxy, sizeof_str}

-- A handler's answer and the routes of its HTTP server; `none` is undefined behaviour.
abbrev pub Answer : Type 0 → Type 0
Answer Re = Option (Ret × Arr (Proxy Re))

module _ {Re : Type 0} (pcre : Pcre Re) (os : Os) where
  abbrev pub new_proxy : Str → Proxy Re
  new_proxy path = record {
    path = path;
    path_re = pcre.compile (c_string path.mem);
    path_captures = 0;
    pass_path = Arr.alloc os.malloc 2 sizeof_str;
  }

  -- the number of captures of the pattern, which may be NULL
  abbrev pub counted : Arr (Proxy Re) → ℕ → Proxy Re → Option ℕ → Answer Re
  counted routes n p none = some (error, Arr.put routes n p)
  counted routes n p (some captures) =
      some (ok, Arr.put routes n (record p { path_captures = captures }))

  -- `fs_mod_http_proxy_block`: `in_http` says whether the block below is the HTTP module's
  unfoldable pub proxy_block : Bool → Arr Str → Arr (Proxy Re) → Answer Re
  unfolding Arr.push Arr.alloc
  proxy_block in_http tokens routes =
      if not in_http
      then some (pass, routes)
      else if not (tokens.ele_count == 2)
      then some (error, routes)
      else elim (Arr.push os.malloc routes) [
        | none ↦ none
        | some (n, routes') ↦ elim (Arr.nth tokens 1) [
          | none ↦ none
          | some path ↦
              if os.malloc sizeof_proxy
              then counted routes' n (new_proxy path) (pcre.capture_count (new_proxy path).path_re)
              else none
        ]
      ]

  -- the answer of `fs_var_parse`
  abbrev pub with_path : Arr (Proxy Re) → Proxy Re → Parsed → Answer Re
  with_path routes p (parsed arr) =
      some (ok, Arr.put routes (routes.ele_count - 1) (record p { pass_path = some arr }))
  with_path routes p var_error = some (error, routes)
  with_path routes p fault = none

  -- the path of the last route, unless it has one
  abbrev pub set_path : Arr Str → Arr (Proxy Re) → Option (Proxy Re) → Answer Re
  set_path tokens routes none = none
  set_path tokens routes (some p) = elim p.pass_path [
    | none ↦ none
    | some arr ↦
        if not (arr.ele_count == 0) then some (error, routes) else elim (Arr.nth tokens 1) [
          | none ↦ none
          | some s ↦ with_path routes p (Var.parse os.malloc arr (take s.size s.mem))
        ]
  ]

  -- `fs_mod_http_proxy_cmd_pass_path`
  unfoldable pub cmd_pass_path : Bool → Arr Str → Arr (Proxy Re) → Answer Re
  unfolding Var.parse
  cmd_pass_path in_http tokens routes =
      if not in_http
      then some (pass, routes)
      else if not (tokens.ele_count == 2)
      then some (error, routes)
      else set_path tokens routes (Arr.nth routes (routes.ele_count - 1))
