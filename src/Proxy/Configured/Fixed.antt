-- ===== src/Proxy/Configured/Fixed.antt =====
-- A `pass_path` without variables, and the route that it makes.
use folksong.Prelude.{
  ℕ, ◌-◌, ◌^◌, ◌<◌, ◌≡◌, refl, sym, ap, ◌∙◌, true, false, some, List, [], ◌∷◌, ◌++◌, ◌==◌, length,
  take, Bytes, arith, append-nil,
}
use folksong.Arr
use folksong.Arr.{Arr}
use folksong.Arr.Grow.{Roomy}
use folksong.Arr.Push.{length-contents}
use folksong.Http.{Block, Req}
use folksong.Http.Message.Answer.{Lawful}
use folksong.Os.{Os}
use folksong.Proxy.{Pcre, Proxy, set_next_path, route}
use folksong.Proxy.Config.{with_path, cmd_pass_path}
use folksong.Proxy.Configured.{contents-Lists, length-written, cmd_pass_path-parse}
use folksong.Proxy.Path.{Lists, count, Plain}
use folksong.Proxy.Serve.{route-Lawful}
use folksong.Proxy.Url.{set_next_path-joined}
use folksong.Publisher.Request.{memory}
use folksong.Str.{Str}
use folksong.Token.{ok}
use folksong.Var
use folksong.Var.{Piece, Parsed, parsed, var_error, fault}
use folksong.Var.Cut.{bytes_of}
use folksong.Var.Cut.Pieces.{fixed, pieces_of-fixed, balanced-fixed}
use folksong.Var.Cut.Text.{CutSpec, parse-CutSpec}

only_piece :
    (ps : List Piece) (text : Bytes)
    → bytes_of ps ≡ text ∷ []
    → (one : Piece) × (ps ≡ one ∷ []) × (one.bytes ≡ text)
only_piece [] text e = absurd (cc)
only_piece (p ∷ []) text e = (p, refl, cc)
only_piece (p ∷ q ∷ ps) text e = absurd (cc)

-- an array with one piece, of this text
pub record Single (text : Bytes) (arr : Arr Piece) : Type 0 where
  pub one : Piece
  pub counted : arr.ele_count ≡ 1
  pub first : Arr.nth arr 0 ≡ some one
  pub same_text : one.bytes ≡ text

parsed-Single :
    (text : Bytes) (o : Parsed)
    → CutSpec [] true (text ∷ []) text o
    → (arr : Arr Piece) × (o ≡ parsed arr) × Single text arr
parsed-Single text (parsed arr) (g, v, (ps, held, cut, whole)) =
    let (one, e, same) = only_piece ps text cut in
    let listed : Lists 0 arr (one ∷ []) = rw e at (contents-Lists arr [] ps v held) in
    (
      arr,
      refl,
      record {
        one = one;
        counted = sym (length-contents arr v) ∙ ap length held ∙ length-written ps ∙ ap count e;
        first = listed.0;
        same_text = same;
      },
    )
parsed-Single text var_error bad = absurd (cc)
parsed-Single text fault h = absurd h

module _ {Re : Type 0} (pcre : Pcre Re) (os : Os) where
  -- What the route does then: the text is every request's path, and the server may rely on it.
  pub record Passes (p : Proxy Re) (text : Bytes) : Type 1 where
    pub lawful : Lawful (route pcre os p)
    pub path :
        (r : Req)
        → (b : Block) × (set_next_path pcre os p r
            ≡ some (record { block = b; size = length text }))
          × (take (length text) (memory b.base) ≡ text)

  Single-Passes :
      (p : Proxy Re) (arr : Arr Piece) (c : ℕ) (cs : Bytes)
      → ((k : ℕ) → os.malloc k ≡ true)
      → p.pass_path ≡ some arr
      → Single (c ∷ cs) arr
      → (c == b'$') ≡ false
      → length (c ∷ cs) < 2 ^ 64
      → Passes p (c ∷ cs)
  Single-Passes p arr c cs got here s plain small =
      let starts : Plain s.one = rw s.same_text plain in
      let short : length s.one.bytes < 2 ^ 64 = rw s.same_text small in
      let whole : s.one.bytes ++ [] ≡ c ∷ cs = append-nil s.one.bytes ∙ s.same_text in
      record {
        lawful = route-Lawful pcre os p arr s.one got here s.counted s.first starts short;
        path = λ r.
            let (b, e, held) =
              set_next_path-joined pcre os p r arr s.one [] [] got here s.counted (s.first, tt)
                starts tt (omega (arith, short)) in
            (b, rw whole at e, rw whole at held);
      }

  -- While memory lasts, a first `pass_path` whose token holds no dollar and no brace is accepted; then the
  -- last route keeps what the server relies on, and the path worked out for any request is the token's text.
  pub cmd_pass_path-Passes :
      {b : ℕ} (tokens : Arr Str) (routes : Arr (Proxy Re)) (p : Proxy Re) (arr : Arr Piece)
      (s : Str) (c : ℕ) (cs : Bytes)
      → ((k : ℕ) → os.malloc k ≡ true)
      → tokens.ele_count ≡ 2
      → Arr.nth tokens 1 ≡ some s
      → take s.size s.mem ≡ c ∷ cs
      → fixed (c ∷ cs) ≡ true
      → Arr.nth routes (routes.ele_count - 1) ≡ some p
      → p.pass_path ≡ some arr
      → arr.ele_count ≡ 0
      → Roomy b (length (c ∷ cs)) arr
      → (p' : Proxy Re) × (cmd_pass_path pcre os true tokens routes
          ≡ some (ok, Arr.put routes (routes.ele_count - 1) p'))
        × Passes p' (c ∷ cs)
  cmd_pass_path-Passes tokens routes p arr s c cs got two here window plain last path empty room =
      let text = c ∷ cs in
      let cut : CutSpec [] true (text ∷ []) text (Var.parse os.malloc arr text) =
        rw (ap (λ n. take n arr.elems) empty, pieces_of-fixed c cs plain, balanced-fixed text plain)
          at (parse-CutSpec os.malloc arr text got room) in
      let (arr', e, single) = parsed-Single text (Var.parse os.malloc arr text) cut in
      let p' : Proxy Re = record p { pass_path = some arr' } in
      let starts : (c == b'$') ≡ false = ground (arith, plain) in
      (
        p',
        cmd_pass_path-parse pcre os tokens routes p arr s text two here window last path empty
            ∙ ap (with_path pcre os routes p) e,
        Single-Passes p' arr' c cs got refl single starts (omega (arith, room.bound)),
      )
