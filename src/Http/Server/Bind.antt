-- ===== src/Http/Server/Bind.antt =====
-- Where an HTTP server listens.
use folksong.Prelude.{◌%◌, ◌^◌, ℕ, ◌≡◌, ◌↔◌, refl, true, Option, none, some, List, [], ◌∷◌, arith}
use folksong.Arr
use folksong.Arr.{Arr}
use folksong.Http.Server.{Net, Server, Answer, bind, init_mod_completed, cmd_host, cmd_port}
use folksong.Str.{Str, c_string}
use folksong.Token.{ok}

-- `host` and `port` statements of two words
pub data Setting : Type 0 where
  host port :
      (tokens : Arr Str) (word : Str)
      → tokens.ele_count ≡ 2
      → Arr.nth tokens 1 ≡ some word
      → Setting

-- the last word that each of them gave
abbrev pub last_host : Option Str → List Setting → Option Str
last_host o [] = o
last_host o (host tokens word two e ∷ ss) = last_host (some word) ss
last_host o (port tokens word two e ∷ ss) = last_host o ss

abbrev pub last_port : Net → Option ℕ → List Setting → Option ℕ
last_port net o [] = o
last_port net o (host tokens word two e ∷ ss) = last_port net o ss
last_port net o (port tokens word two e ∷ ss) =
    last_port net (some (net.atoi (c_string word.mem) % 2 ^ 16)) ss

module _ {A : Type 0} where
  abbrev pub goes_on : Answer A → (Server A → Answer A) → Answer A
  goes_on none f = none
  goes_on (some (ok, s)) f = f s
  goes_on (some (ret, s)) f = some (ret, s)

  -- the statements of the block, as long as they are taken, and its end
  abbrev pub configure : Net → List Setting → Server A → Answer A
  configure net [] s = init_mod_completed net s
  configure net (host tokens word two e ∷ ss) s =
      goes_on (cmd_host true tokens s) (configure net ss)
  configure net (port tokens word two e ∷ ss) s =
      goes_on (cmd_port net true tokens s) (configure net ss)

  -- With a host and a port the answer is FS_CONF_OK exactly when libuv takes the address and binds it;
  -- with one of them missing the behaviour is undefined.
  abbrev pub Binds : Net → Option Str → Option ℕ → Answer A → Type 0
  Binds net (some h) (some p) none = ⊥
  Binds net (some h) (some p) (some (ret, s)) = (ret ≡ ok) ↔ (
      (net.ip4_addr (c_string h.mem) p ≡ true)
      × (net.tcp_init ≡ true)
      × (net.tcp_bind (c_string h.mem) p ≡ true))
  Binds net none p o = o ≡ none
  Binds net (some h) none o = o ≡ none

  bind-Binds :
      (net : Net) (s : Server A) (h : Option Str) (p : Option ℕ) → Binds net h p (bind net s h p)
  bind-Binds net s none none = refl
  bind-Binds net s none (some p) = refl
  bind-Binds net s (some h) none = refl
  bind-Binds net s (some h) (some p) = ground arith

  -- A block of `host` and `port` statements, in any order, binds the last host to the last port modulo
  -- 2 ^ 16.
  pub configure-Binds :
      (net : Net) (ss : List Setting) (s : Server A)
      → Binds net (last_host s.host ss) (last_port net s.port ss) (configure net ss s)
  unfolding init_mod_completed cmd_host cmd_port
  configure-Binds net [] s = bind-Binds net s s.host s.port
  configure-Binds net (host tokens word two e ∷ ss) s =
      rw (two, e) (configure-Binds net ss (record s { host = some word }))
  configure-Binds net (port tokens word two e ∷ ss) s =
      rw (two, e)
        (configure-Binds net ss (record s { port = some (net.atoi (c_string word.mem) % 2 ^ 16) }))
