-- ===== src/Publisher/Release.antt =====
-- The release of a connection to a server of Kafka routes: `fs_mod_http_kafka_release_cb` of
-- mod/http/kafka.c under `fs_mod_http_req_release` of mod/fs_mod_http.c.
use folksong.Prelude.{
  subst, ℕ, zero, suc, ◌^◌, ◌<◌, ◌≡◌, refl, Bool, true, some, List, [], ◌∷◌, length, joined, Bytes,
  get_elem?, is_some, arith,
}
use folksong.Http.{Block, Req, new_req}
use folksong.Http.Message.{Route}
use folksong.Http.Message.Answer.{message}
use folksong.Http.Release.Served.{Frees, Released, Served-Released}
use folksong.Http.Wire.{Parser, reads, accepted}
use folksong.Http.Wire.Reads.{Parses, reads-Served}
use folksong.Os.{Os}
use folksong.Publisher.{Pcre, Kafka, Publisher}
use folksong.Publisher.Serve.{release_cb, route, publishers, AllReady, publishers-Lawful}

abbrev pub has_body : Block → Bool
has_body b = is_some b.base

route-Frees :
    {Re : Type 0} (os : Os) (pcre : Pcre Re) (kafka : Kafka) (p : Publisher Re)
    → Frees has_body (route os pcre kafka p)
unfolding route release_cb
route-Frees os pcre kafka p = record {
  releases = release_cb;
  there = refl;
  each = λ b. ground arith;
}

publishers-Frees :
    {Re : Type 0} (os : Os) (pcre : Pcre Re) (kafka : Kafka) (ps : List (Publisher Re)) (i : ℕ)
    (route' : Route Block)
    → get_elem? (publishers os pcre kafka ps) i ≡ some route'
    → Frees has_body route'
publishers-Frees os pcre kafka [] i route' e = absurd (cc)
publishers-Frees os pcre kafka (p ∷ ps) zero route' e =
    let same_route : route os pcre kafka p ≡ route' = cc in
    subst (Frees has_body) same_route (route-Frees os pcre kafka p)
publishers-Frees os pcre kafka (p ∷ ps) (suc i) route' e =
    publishers-Frees os pcre kafka ps i route' e

-- A server of Kafka routes that gets a message over any number of reads closes its connection once, and
-- the release frees each block that the connection owns exactly once and no other: the read buffer, the
-- URL, the body and what holds it, every header's name and value, the two arrays, and the request.
pub publishers-Released :
    {Re P : Type 0} (os : Os) (pcre : Pcre Re) (kafka : Kafka) (ps : List (Publisher Re))
    (parser : Parser P) (size : ℕ) (path : Bytes) (hs : List (Bytes × Bytes))
    (bodies reads' : List Bytes) (p : P) (r : Req)
    → ((k : ℕ) → os.malloc k ≡ true)
    → AllReady ps
    → length hs < 2 ^ 28
    → length (joined bodies) < 2 ^ 64
    → Parses parser p reads' (message path hs bodies)
    → new_req os ≡ some r
    → Released has_body
        (publishers os pcre kafka ps)
        (reads os size (publishers os pcre kafka ps) parser reads' (accepted p r))
publishers-Released os pcre kafka ps parser size path hs bodies reads' p r got ready few small ps'
      made =
    let routes = publishers os pcre kafka ps in
    Served-Released has_body os routes parser path hs bodies _ (publishers-Frees os pcre kafka ps) (
      reads-Served os routes parser size path hs bodies reads' p r got
        (publishers-Lawful os pcre kafka ps got ready) few small ps' made)
