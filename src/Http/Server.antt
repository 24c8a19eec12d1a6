-- ===== src/Http/Server.antt =====
-- The HTTP servers of mod/fs_mod_http.c: their configuration and their start. libuv and `atoi` are
-- parameters.
pub mod Bind
use folksong.Prelude.{
  ℕ, ◌%◌, ◌^◌, Bool, true, false, not, Option, none, some, List, [], ◌∷◌, ◌==◌, if◌then◌else◌,
  Bytes, codes,
}
use folksong.Arr
use folksong.Arr.{Arr, Malloc}
use folksong.Cmd.{Cmd, equal, block_cmd, param_cmd}
use folksong.Str.{Str, c_string}
use folksong.Token.{Ret, ok, error, pass}

-- libc's `atoi`, as a 32-bit pattern, and whether the calls of libuv succeed: `uv_ip4_addr` for an address
-- and a port, `uv_tcp_init`, and `uv_tcp_bind`
pub record Net : Type 0 where
  pub atoi : Bytes → ℕ
  pub ip4_addr : Bytes → ℕ → Bool
  pub tcp_init : Bool
  pub tcp_bind : Bytes → ℕ → Bool

-- `fs_mod_http_s`: `host` and `port` are `none` while nothing was written to them, `routes` is `none` where
-- it is NULL, and `looped` says whether `loop` was written. `A` is what a route is.
pub record Server (A : Type 0) : Type 0 where
  pub host : Option Str
  pub port : Option ℕ
  pub routes : Option (Arr A)
  pub looped : Bool

-- the handlers' numbers
abbrev pub http_block : ℕ
http_block = 300

abbrev pub http_host : ℕ
http_host = 301

abbrev pub http_port : ℕ
http_port = 302

abbrev pub commands : List Cmd
commands =
    block_cmd (codes "http") http_block
    ∷ param_cmd (codes "host") http_host
    ∷ param_cmd (codes "port") http_port
    ∷ []

-- sizeof(fs_mod_http_t) and sizeof(fs_mod_http_route_t) on a 64-bit target
abbrev pub sizeof_http : ℕ
sizeof_http = 312

abbrev pub sizeof_route : ℕ
sizeof_route = 48

-- A handler's answer; `none` is undefined behaviour.
abbrev pub Answer : Type 0 → Type 0
Answer A = Option (Ret × Server A)

module _ {A : Type 0} where
  -- `fs_mod_http_init_mod`; `none` is a NULL written through
  unfoldable pub init_mod : Malloc → Cmd → Option (Ret × Option (Server A))
  unfolding Arr.alloc
  init_mod malloc cmd =
      if not (equal cmd http_block)
      then some (error, none)
      else if malloc sizeof_http
      then some (
        ok,
        some (record {
          host = none;
          port = none;
          routes = Arr.alloc malloc 1 sizeof_route;
          looped = false;
        }),
      )
      else none

  abbrev pub bind : Net → Server A → Option Str → Option ℕ → Answer A
  bind net s (some host) (some port) = some (
    if not (net.ip4_addr (c_string host.mem) port)
        then error
        else if not net.tcp_init
        then error
        else if not (net.tcp_bind (c_string host.mem) port)
        then error
        else ok,
    s,
  )
  bind net s _ _ = none

  -- `fs_mod_http_init_mod_completed`: an address that nothing was written to is read nevertheless
  unfoldable pub init_mod_completed : Net → Server A → Answer A
  init_mod_completed net s = bind net s s.host s.port

  -- `fs_mod_http_inited`: the loop is written behind the `for`, to the last server
  unfoldable pub inited : List (Server A) → List (Server A)
  inited [] = []
  inited (s ∷ []) = record s { looped = true } ∷ []
  inited (s ∷ t ∷ ss) = s ∷ inited (t ∷ ss)

  -- `fs_mod_http_block`
  unfoldable pub block_call : Server A → Answer A
  block_call s = some (ok, s)

  -- the tests that start the two parameters, and the token behind the name: `top` says whether the open
  -- block is the server's
  abbrev pub parameter : Bool → Arr Str → Server A → (Str → Server A) → Answer A
  parameter top tokens s set =
      if not top
      then some (pass, s)
      else if not (tokens.ele_count == 2)
      then some (error, s)
      else elim (Arr.nth tokens 1) [ none ↦ none | some t ↦ some (ok, set t) ]

  -- `fs_mod_http_cmd_host`
  unfoldable pub cmd_host : Bool → Arr Str → Server A → Answer A
  cmd_host top tokens s = parameter top tokens s (λ t. record s { host = some t })

  -- `fs_mod_http_cmd_port`: an `int` in a `uint16_t`
  unfoldable pub cmd_port : Net → Bool → Arr Str → Server A → Answer A
  cmd_port net top tokens s =
      parameter top tokens s (λ t. record s { port = some (net.atoi (c_string t.mem) % 2 ^ 16) })
