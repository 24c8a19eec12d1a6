-- ===== src/Tests/Message.antt =====
-- A message to an HTTP server with one Kafka route.
use folksong.Prelude.{
  ℕ, zero, suc, ◌+◌, ◌≡◌, refl, true, false, some, none, [], ◌∷◌, length, drop, replicate, String,
  codes, arith, List, Bytes,
}
use folksong.Arr
use folksong.Arr.{Arr}
use folksong.Http.{Block, Text, Req, null_text, want_key, new_req}
use folksong.Http.Message.{Event, url, Route, Conn, run, serve}
use folksong.Http.Message.Collect.{whole}
use folksong.Http.Message.Answer.{Answered, message, serve-Answered}
use folksong.Http.Server.{Net, Server}
use folksong.Http.Server.Bind.{
  Setting, host, port, last_host, last_port, configure, Binds, configure-Binds,
}
use folksong.Http.Wire.{Parser, Wire, accepted, chunk, readed_cb, reads, all_written}
use folksong.Http.Wire.Reads.{Parses, ended, more, Served, readed_cb-stopped}
use folksong.Http.Release.Served.{Released}
use folksong.Publisher.Release.{has_body, publishers-Released}
use folksong.Http.Message.Pieces.{url_pieces, serve-Pieces}
use folksong.Publisher.Serve.{Ready, publishers, Published, publishers-Lawful, publishers-Answered}
use folksong.Str.{Str}
use folksong.Tests.Fixtures.{plenty, word}
use folksong.Tests.Publish.{pcre, broker, no_items, publisher}

publisher-Ready : Ready publisher
publisher-Ready = record { items = no_items; conf = refl; filled = λ i l m. absurd (omega arith) }

abbrev headers : List (Bytes × Bytes)
headers = (codes "Topic", codes "logs") ∷ []

abbrev bodies : List Bytes
bodies = codes "he" ∷ codes "llo" ∷ []

abbrev routes : List (Route Block)
routes = publishers plenty pcre broker (publisher ∷ [])

serve-Answered_example :
    Answered routes
      (codes "/publish")
      headers
      bodies
      (serve plenty routes (message (codes "/publish") headers bodies))
serve-Answered_example =
    serve-Answered plenty routes (codes "/publish") headers bodies (λ k. refl)
      (publishers-Lawful plenty pcre broker (publisher ∷ []) (λ k. refl) (publisher-Ready, tt))
      (omega arith) (omega arith)

publishers-Answered_example :
    Published plenty pcre broker (publisher ∷ []) (codes "/publish") headers bodies (
      serve plenty
        (publishers plenty pcre broker (publisher ∷ []))
        (message (codes "/publish") headers bodies))
publishers-Answered_example =
    publishers-Answered plenty pcre broker (publisher ∷ []) (codes "/publish") headers bodies
      (λ k. refl) (publisher-Ready, tt) (omega arith) (omega arith)

-- a parser that makes the first callback for the first read, and the others for the second
abbrev parser : Parser ℕ
parser = record { execute = execute }
  where
    execute : ℕ → Bytes → ℕ × List Event × ℕ
    execute zero at = (1, url (codes "/publish") ∷ [], length at)
    execute (suc n) at = (2, drop 1 (message (codes "/publish") headers bodies), length at)

abbrev received : List Bytes
received = codes "POST /publish " ∷ codes "HTTP/1.1" ∷ []

received-Parses : Parses parser 0 received (message (codes "/publish") headers bodies)
received-Parses = more refl (more refl ended)

-- the request of a new connection
abbrev fresh : Req
fresh = record { url = null_text; p_key = slots; p_val = slots; p_state = want_key; route = none }
  where
    slots : Arr Text
    slots = record { elems = replicate 4 none; ele_capa = 4; ele_count = 0; ele_size = 40 }

fresh-made : new_req plenty ≡ some fresh
unfolding new_req Arr.alloc Arr.init
fresh-made = refl

publishers-Released_example :
    Released has_body routes (reads plenty 65_536 routes parser received (accepted 0 fresh))
publishers-Released_example =
    publishers-Released plenty pcre broker (publisher ∷ []) parser 65_536 (codes "/publish") headers
      bodies received 0 fresh (λ k. refl) (publisher-Ready, tt) (omega arith) (omega arith)
      received-Parses fresh-made

-- a URL that a read ends inside
serve-Pieces_example :
    serve plenty routes (url (codes "/pub") ∷ url (codes "lish") ∷ message (codes "/") [] []) ≡ none
serve-Pieces_example =
    serve-Pieces plenty routes (λ k. refl) _
      (url_pieces (codes "/pub") (codes "lish") (message (codes "/") [] []) (omega arith))

-- a whole message, and a byte that is none
abbrev stopping : Parser ℕ
stopping = record { execute = λ n at. (n, message (codes "/none") [] [], 4) }

-- a connection of a server without routes
abbrev lonely : Wire ℕ Block
lonely = accepted 0 fresh

abbrev refused : Conn Block
refused = record {
  req = record fresh { url = whole (codes "/none") };
  self = none;
  responses = 404 ∷ [];
}

lonely-run : run plenty [] (message (codes "/none") [] []) lonely.conn ≡ some refused
unfolding run
lonely-run = refl

readed_cb-stopped_example :
    (w' : Wire ℕ Block) × (readed_cb plenty [] stopping (chunk (codes "GET /")) lonely ≡ some w')
    × ((all_written w').closes ≡ 0 + 1 + 1)
readed_cb-stopped_example =
    readed_cb-stopped plenty [] stopping (codes "GET /") 0 (message (codes "/none") [] []) 4 lonely
      refused refl (omega arith) lonely-run

abbrev setting : String → Arr Str
setting s = record {
  elems = some (word s) ∷ some (word s) ∷ [];
  ele_capa = 2;
  ele_count = 2;
  ele_size = 16;
}

abbrev net : Net
net = record { atoi = λ _. 8080; ip4_addr = λ _ _. true; tcp_init = true; tcp_bind = λ _ _. true }

abbrev server : Server ℕ
server = record { host = none; port = none; routes = none; looped = false }

abbrev settings : List Setting
settings =
    port (setting "8080") (word "8080") refl refl
    ∷ host (setting "0.0.0.0") (word "0.0.0.0") refl refl
    ∷ []

configure-Binds_example :
    Binds net
      (last_host server.host settings)
      (last_port net server.port settings)
      (configure net settings server)
configure-Binds_example = configure-Binds net settings server
