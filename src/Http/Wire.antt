-- ===== src/Http/Wire.antt =====
-- The callbacks of mod/fs_mod_http.c that libuv makes for a connection: its reads, its writes and its
-- closing. The HTTP parser is a parameter.
pub mod Reads
use folksong.Prelude.{
  ℕ, zero, suc, ◌+◌, Bool, true, false, not, Option, none, some, List, [], ◌∷◌, if◌then◌else◌, ltb,
  length, Bytes,
}
use folksong.Arr.{Malloc}
use folksong.Http.{Req}
use folksong.Http.Message.{Event, Route, Conn, run}
use folksong.Os.{Os}

-- `http_parser_execute`: the parser's next state, the callbacks that it makes, and how many bytes it
-- parsed
pub record Parser (P : Type 0) : Type 0 where
  pub execute : P → Bytes → P × List Event × ℕ

-- what a read of libuv brings: UV_EOF, another error, or bytes
pub data Read : Type 0 where
  eof failed : Read
  chunk : Bytes → Read

-- A connection with its parser, its read buffer, and how often `uv_close` was called on it. Each response
-- is written by one `uv_write`, whose callback comes later.
pub record Wire (P S : Type 0) : Type 0 where
  pub parser : P
  pub conn : Conn S
  pub has_buf : Bool
  pub buf_len : ℕ
  pub closes : ℕ

module _ {P S : Type 0} where
  -- `fs_mod_http_req_read_alloc_cb`: the buffer is made once
  unfoldable pub read_alloc_cb : Malloc → ℕ → Wire P S → Wire P S
  read_alloc_cb malloc suggested_size w =
      if not w.has_buf
      then record w { has_buf = malloc suggested_size; buf_len = suggested_size }
      else w

  -- `uv_close`
  abbrev pub close : Wire P S → Wire P S
  close w = record w { closes = w.closes + 1 }

  -- `fs_mod_http_res_writed_cb`
  unfoldable pub res_writed_cb : Wire P S → Wire P S
  res_writed_cb w = close w

  -- the callbacks of `n` writes
  unfoldable pub written : ℕ → Wire P S → Wire P S
  unfolding res_writed_cb
  written zero w = w
  written (suc n) w = written n (res_writed_cb w)

  -- the callback of every response
  abbrev pub all_written : Wire P S → Wire P S
  all_written w = written (length w.conn.responses) w

  -- what `fs_mod_http_req_readed_cb` makes of the bytes
  abbrev pub parsed :
      Os → List (Route S) → Bytes → P × List Event × ℕ → Wire P S → Option (Wire P S)
  parsed os routes at (p, es, nparsed) w = elim (run os routes es w.conn) [
    | none ↦ none
    | some c ↦
        let w' = record w { parser = p; conn = c } in
        some (if ltb nparsed (length at) then close w' else w')
  ]

  -- `fs_mod_http_req_readed_cb`
  unfoldable pub readed_cb : Os → List (Route S) → Parser P → Read → Wire P S → Option (Wire P S)
  unfolding run
  readed_cb os routes parser eof w = some (close w)
  readed_cb os routes parser failed w = some w
  readed_cb os routes parser (chunk at) w = parsed os routes at (parser.execute w.parser at) w

  -- one read after another, each behind a call for its buffer, of the size that libuv suggests
  unfoldable pub reads :
      Os → ℕ → List (Route S) → Parser P → List Bytes → Wire P S → Option (Wire P S)
  unfolding read_alloc_cb readed_cb
  reads os size routes parser [] w = some w
  reads os size routes parser (at ∷ ats) w =
      elim (readed_cb os routes parser (chunk at) (read_alloc_cb os.malloc size w)) [
        | none ↦ none
        | some w' ↦ reads os size routes parser ats w'
      ]

  -- a new connection
  abbrev pub accepted : P → Req → Wire P S
  accepted p r = record {
    parser = p;
    conn = record { req = r; self = none; responses = [] };
    has_buf = false;
    buf_len = 0;
    closes = 0;
  }
