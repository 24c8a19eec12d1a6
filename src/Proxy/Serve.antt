-- ===== src/Proxy/Serve.antt =====
-- A proxy as a route of the HTTP server.
use folksong.Prelude.{ℕ, ◌^◌, ◌<◌, ◌≡◌, refl, true, some, [], ◌++◌, length, arith}
use folksong.Arr
use folksong.Arr.{Arr}
use folksong.Http.Message.Answer.{Lawful}
use folksong.Os.{Os}
use folksong.Proxy.{Pcre, Proxy, sizeof_next, init_cb, route}
use folksong.Proxy.Path.{Plain}
use folksong.Proxy.Url.{set_next_path-joined}
use folksong.Var.{Piece}

-- A proxy whose path is one plain piece keeps what the server relies on: it answers every request once.
pub route-Lawful :
    {Re : Type 0} (pcre : Pcre Re) (os : Os) (p : Proxy Re) (arr : Arr Piece) (one : Piece)
    → ((k : ℕ) → os.malloc k ≡ true)
    → p.pass_path ≡ some arr
    → arr.ele_count ≡ 1
    → Arr.nth arr 0 ≡ some one
    → Plain one
    → length one.bytes < 2 ^ 64
    → Lawful (route pcre os p)
unfolding route init_cb
route-Lawful pcre os p arr one got here single first plain small = record {
  Holds = λ text next. Unit;
  init = λ r.
      let (b, e, bytes) =
        set_next_path-joined pcre os p r arr one [] [] got here single (first, tt) plain tt
          (omega arith) in
      (
        record { block = b; size = length (one.bytes ++ []) },
        rw (init_cb, got sizeof_next, e) refl,
        tt,
      );
  takes = λ r text at next h l. (next, refl, tt);
  done = λ path hs r text next c h. (200, refl);
}
