-- ===== src/Tests/Proxy.antt =====
-- The paths of a proxy.
use folksong.Prelude.{
  ◌<◌, ◌++◌, List, ℕ, ℕ, ◌≡◌, refl, true, false, some, none, [], ◌∷◌, take, codes, arith, String,
}
use folksong.Arr.{Arr, put}
use folksong.Arr.Grow.{Roomy}
use folksong.Arr.Push.{contents}
use folksong.Http.{Block}
use folksong.Proxy.{Pcre, Proxy, set_next_path}
use folksong.Proxy.Config.{cmd_pass_path}
use folksong.Proxy.Configured.Fixed.{Passes, cmd_pass_path-Passes}
use folksong.Proxy.Configured.{DoomedSpec, cmd_pass_path-DoomedSpec}
use folksong.Proxy.Url.{Variable, set_next_path-joined}
use folksong.Publisher.Request.{memory}
use folksong.Str.{Str}
use folksong.Tests.Fixtures.{plenty, word}
use folksong.Tests.Publish.{request}
use folksong.Token.{ok}
use folksong.Var.{Piece, parse}
use folksong.Var.Cut.Pieces.{balanced, pieces_of}
use folksong.Var.Cut.Text.{CutSpec, parse-CutSpec}

-- a pattern whose first group is `id`
abbrev pcre : Pcre ℕ
pcre = record {
  compile = λ _. some 0;
  no_match = λ _ _. false;
  capture_count = λ _. some 1;
  substring_list = λ _ _. some (codes "/a/id" ∷ codes "id" ∷ []);
  named = λ _ _ _. none;
  atoi = λ _. 1;
}

abbrev piece : String → Piece
piece s = record { bytes = codes s; buf_len = 32 }

abbrev path : Arr Piece
path = record {
  elems = some (piece "/b/") ∷ some (piece "${path_1}") ∷ [];
  ele_capa = 2;
  ele_count = 2;
  ele_size = 40;
}

abbrev proxy : Arr Piece → Proxy ℕ
proxy p = record { path = word "/a/"; path_re = some 0; path_captures = 1; pass_path = some p }

variable : Variable pcre plenty (proxy path) request (piece "${path_1}") (codes "id")
unfolding folksong.Proxy.value_of folksong.Str.str_cmp
variable = record {
  starts = refl;
  prefixed = refl;
  named = omega arith;
  short = omega arith;
  found = some (codes "id");
  looked_up = refl;
  same_text = refl;
}

set_next_path-joined_example :
    (b : Block) × (set_next_path pcre plenty (proxy path) request
      ≡ some (record { block = b; size = 5 }))
    × (take 5 (memory b.base) ≡ codes "/b/id")
set_next_path-joined_example =
    set_next_path-joined pcre plenty (proxy path) request path (piece "/b/")
      (piece "${path_1}" ∷ []) (codes "id" ∷ []) (λ k. refl) refl refl (refl, (refl, tt)) refl
      (variable, tt) (omega arith)

-- The NUL of the statement's token is a piece of its own.
abbrev configured : Arr Piece
configured = record {
  elems =
      some (record { bytes = codes "/b/"; buf_len = 14 })
      ∷ some (record { bytes = codes "${path_1}"; buf_len = 14 })
      ∷ some (record { bytes = 0 ∷ []; buf_len = 14 })
      ∷ none
      ∷ [];
  ele_capa = 4;
  ele_count = 3;
  ele_size = 40;
}

abbrev pass_path : Arr Str
pass_path = record {
  elems = some (word "pass_path") ∷ some (word "/b/${path_1}") ∷ [];
  ele_capa = 2;
  ele_count = 2;
  ele_size = 40;
}

abbrev empty_path : Arr Piece
empty_path = record { elems = none ∷ none ∷ []; ele_capa = 2; ele_count = 0; ele_size = 40 }

abbrev routes : Arr Piece → Arr (Proxy ℕ)
routes p = record { elems = some (proxy p) ∷ []; ele_capa = 1; ele_count = 1; ele_size = 48 }

cmd_pass_path-configured :
    cmd_pass_path pcre plenty true pass_path (routes empty_path) ≡ some (ok, routes configured)
unfolding cmd_pass_path folksong.Arr.push
cmd_pass_path-configured = refl

abbrev text : List ℕ
text = codes "/b/${path_1}" ++ (0 ∷ [])

empty_path-Roomy : (n : ℕ) → n < 1000 → Roomy 2 n empty_path
empty_path-Roomy n few = record {
  valid = record {
    slots = refl;
    some_slot = omega arith;
    in_block = omega arith;
    sized = omega arith;
    countable = omega arith;
    addressable = omega arith;
  };
  small = omega arith;
  capa = omega arith;
  bound = omega arith;
}

parse-CutSpec_example :
    CutSpec
      (contents empty_path)
      (balanced false text)
      (pieces_of text)
      text
      (parse plenty.malloc empty_path text)
parse-CutSpec_example =
    parse-CutSpec plenty.malloc empty_path text (λ k. refl) (empty_path-Roomy 13 (omega arith))

cmd_pass_path-DoomedSpec_example :
    DoomedSpec pcre plenty
      (routes empty_path)
      (balanced false text)
      (cmd_pass_path pcre plenty true pass_path (routes empty_path))
cmd_pass_path-DoomedSpec_example =
    cmd_pass_path-DoomedSpec pcre plenty pass_path (routes empty_path) (proxy empty_path) empty_path
      (word "/b/${path_1}") b'/' (codes "b/${path_1") (λ k. refl) refl refl refl refl refl refl refl
      (empty_path-Roomy 13 (omega arith))

abbrev fixed_path : Arr Str
fixed_path = record pass_path { elems = some (word "pass_path") ∷ some (word "/b/") ∷ [] }

cmd_pass_path-Passes_example :
    (p : Proxy ℕ) × (cmd_pass_path pcre plenty true fixed_path (routes empty_path)
      ≡ some (ok, put (routes empty_path) 0 p))
    × Passes pcre plenty p (codes "/b/" ++ (0 ∷ []))
cmd_pass_path-Passes_example =
    cmd_pass_path-Passes pcre plenty fixed_path (routes empty_path) (proxy empty_path) empty_path
      (word "/b/") b'/' (codes "b/" ++ (0 ∷ [])) (λ k. refl) refl refl refl refl refl refl refl
      (empty_path-Roomy 4 (omega arith))
