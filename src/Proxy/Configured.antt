-- ===== src/Proxy/Configured.antt =====
-- From the text of a `pass_path` to the paths of the requests.
pub mod Fixed
use folksong.Prelude.{
  ℕ, suc, ◌+◌, ◌-◌, ◌<◌, ◌≡◌, refl, sym, ap, ◌∙◌, Bool, true, false, Option, none, some, List, [],
  ◌∷◌, ◌++◌, ◌==◌, get_elem?, get_elem?-length, join, length, length-append, take, Bytes, arith,
  append_assoc,
}
use folksong.Arr
use folksong.Arr.{Arr}
use folksong.Arr.Grow.{Roomy}
use folksong.Arr.Push.{contents, IsValid, length-contents, nth-contents}
use folksong.Http.{Req}
use folksong.Os.{Os}
use folksong.Proxy.{Pcre, Proxy, set_next_path}
use folksong.Proxy.Config.{Answer, with_path, cmd_pass_path}
use folksong.Proxy.Path.{Lists, count, Plain, set_next_path-Plain}
use folksong.Str.{Str}
use folksong.Token.{ok, error}
use folksong.Var
use folksong.Var.{Piece, Parsed, parsed, var_error, fault}
use folksong.Var.Cut.{written, bytes_of}
use folksong.Var.Cut.Pieces.{balanced, pieces_of-alone}
use folksong.Var.Cut.Text.{CutSpec, parse-CutSpec}

-- a piece with these bytes, behind the others
last_piece :
    (ps : List Piece) (m : List Bytes) (x : Bytes)
    → bytes_of ps ≡ m ++ (x ∷ [])
    → (qs : List Piece) × (two : Piece) × (ps ≡ qs ++ (two ∷ [])) × (two.bytes ≡ x)
last_piece [] [] x e = absurd (cc)
last_piece [] (y ∷ m) x e = absurd (cc)
last_piece (p ∷ []) [] x e = ([], p, refl, cc)
last_piece (p ∷ q ∷ ps) [] x e = absurd (cc)
last_piece (p ∷ ps) (y ∷ m) x e =
    let (qs, two, e', same) = last_piece ps m x cc in (p ∷ qs, two, ap (◌∷◌ p) e', same)

-- the pieces of a text that starts plain and has a last one
both_ends :
    (ps : List Piece) (first : Bytes) (m : List Bytes) (x : Bytes)
    → bytes_of ps ≡ first ∷ (m ++ (x ∷ []))
    → (one : Piece) × (qs : List Piece) × (two : Piece) × (ps ≡ one ∷ (qs ++ (two ∷ [])))
      × (one.bytes ≡ first)
      × (two.bytes ≡ x)
both_ends [] first m x e = absurd (cc)
both_ends (p ∷ ps) first m x e =
    let (qs, two, e', same) = last_piece ps m x cc in (p, qs, two, ap (◌∷◌ p) e', cc, same)

pub length-written : (ps : List Piece) → length (written ps) ≡ count ps
length-written [] = refl
length-written (p ∷ ps) = ap suc (length-written ps)

-- The slots of a valid array list its contents.
pub contents-Lists :
    (arr : Arr Piece) (pre : List (Option Piece)) (ps : List Piece)
    → IsValid arr
    → contents arr ≡ pre ++ written ps
    → Lists (length pre) arr ps
contents-Lists arr pre [] v e = tt
contents-Lists arr pre (p ∷ ps) v e =
    let within : length pre < arr.ele_count =
      omega
        (arith, sym (length-contents arr v), ap length e, length-append pre (written (p ∷ ps))) in
    let here : Arr.nth arr (length pre) ≡ some p =
      nth-contents arr (length pre) within
      ∙ ap (λ l. join (get_elem? l (length pre))) e
      ∙ ap join (get_elem?-length pre (some p) (written ps)) in
    let next : length (pre ++ (some p ∷ [])) ≡ length pre + 1 =
      omega (arith, length-append pre (some p ∷ [])) in
    (
      here,
      rw next at (
          contents-Lists arr (pre ++ (some p ∷ [])) ps v
            (e ∙ sym (append_assoc pre (some p ∷ []) (written ps)))),
    )

module _ {Re : Type 0} (pcre : Pcre Re) (os : Os) where
  -- An error that leaves the routes alone, just where the braces are not balanced; otherwise the route's path
  -- is set, and for no request is it worked out.
  abbrev pub DoomedSpec : Arr (Proxy Re) → Bool → Answer Re → Type 0
  DoomedSpec routes good none = ⊥
  DoomedSpec routes good (some (ok, routes')) =
      (good ≡ true)
      × (p : Proxy Re) × (routes' ≡ Arr.put routes (routes.ele_count - 1) p)
      × ((os' : Os) (r : Req) → set_next_path pcre os' p r ≡ none)
  DoomedSpec routes good (some (error, routes')) = (good ≡ false) × (routes' ≡ routes)
  DoomedSpec routes good (some (_, _)) = ⊥

  parsed-DoomedSpec :
      (routes : Arr (Proxy Re)) (p : Proxy Re) (good : Bool) (c : ℕ) (first text : Bytes)
      (m : List Bytes) (o : Parsed)
      → (c == b'$') ≡ false
      → CutSpec [] good ((c ∷ first) ∷ (m ++ ((0 ∷ []) ∷ []))) text o
      → DoomedSpec routes good (with_path pcre os routes p o)
  parsed-DoomedSpec routes p good c first text m (parsed arr) plain (g, v, (ps, held, cut, whole)) =
      let (one, qs, two, e, same, same') = both_ends ps (c ∷ first) m (0 ∷ []) cut in
      let counted : arr.ele_count ≡ count (one ∷ (qs ++ (two ∷ []))) =
        sym (length-contents arr v) ∙ ap length held ∙ length-written ps ∙ ap count e in
      let listed : Lists 0 arr (one ∷ (qs ++ (two ∷ []))) =
        rw e at (contents-Lists arr [] ps v held) in
      let starts : Plain one = rw same plain in
      let ends : Plain two = rw same' refl in
      (
        g,
        record p { pass_path = some arr },
        refl,
        λ os' r.
            set_next_path-Plain pcre os' (record p { pass_path = some arr }) r arr [] qs [] one two
              refl counted listed starts ends,
      )
  parsed-DoomedSpec routes p good c first text m var_error plain bad = (bad, refl)
  parsed-DoomedSpec routes p good c first text m fault plain h = absurd h

  -- a first `pass_path` leaves everything to `fs_var_parse`
  pub cmd_pass_path-parse :
      (tokens : Arr Str) (routes : Arr (Proxy Re)) (p : Proxy Re) (arr : Arr Piece) (s : Str)
      (text : Bytes)
      → tokens.ele_count ≡ 2
      → Arr.nth tokens 1 ≡ some s
      → take s.size s.mem ≡ text
      → Arr.nth routes (routes.ele_count - 1) ≡ some p
      → p.pass_path ≡ some arr
      → arr.ele_count ≡ 0
      → cmd_pass_path pcre os true tokens routes
        ≡ with_path pcre os routes p (Var.parse os.malloc arr text)
  unfolding cmd_pass_path
  cmd_pass_path-parse tokens routes p arr s text two here window last path empty =
      let no_path : (arr.ele_count == 0) ≡ true = rw empty refl in
      rw (cmd_pass_path, two, last, path, no_path, here, window) refl

  -- While memory lasts, a first `pass_path` that starts with no dollar and ends with a variable, whose token
  -- has its NUL behind that, is refused where a brace stands outside a variable; otherwise it is accepted, and
  -- then whatever request arrives and whatever memory there is, its path is written behind a block.
  pub cmd_pass_path-DoomedSpec :
      {b : ℕ} (tokens : Arr Str) (routes : Arr (Proxy Re)) (p : Proxy Re) (arr : Arr Piece)
      (s : Str) (c : ℕ) (cs : Bytes)
      → ((k : ℕ) → os.malloc k ≡ true)
      → tokens.ele_count ≡ 2
      → Arr.nth tokens 1 ≡ some s
      → take s.size s.mem ≡ c ∷ cs ++ (b'}' ∷ 0 ∷ [])
      → (c == b'$') ≡ false
      → Arr.nth routes (routes.ele_count - 1) ≡ some p
      → p.pass_path ≡ some arr
      → arr.ele_count ≡ 0
      → Roomy b (length (c ∷ cs ++ (b'}' ∷ 0 ∷ []))) arr
      → DoomedSpec routes
          (balanced false (c ∷ cs ++ (b'}' ∷ 0 ∷ [])))
          (cmd_pass_path pcre os true tokens routes)
  cmd_pass_path-DoomedSpec tokens routes p arr s c cs got two here window plain last path empty
        room =
      let text = c ∷ cs ++ (b'}' ∷ 0 ∷ []) in
      let (first, m, e) = pieces_of-alone c cs 0 plain refl refl in
      let cut : CutSpec [] (balanced false text) ((c ∷ first) ∷ (m ++ ((0 ∷ []) ∷ []))) text
          (Var.parse os.malloc arr text) =
        rw (ap (λ n. take n arr.elems) empty, e) at (parse-CutSpec os.malloc arr text got room) in
      let answer = cmd_pass_path-parse tokens routes p arr s text two here window last path empty in
      rw answer (
        parsed-DoomedSpec routes p (balanced false text) c first text m
          (Var.parse os.malloc arr text) plain cut)
