-- ===== src/Http/Message/Choose.antt =====
-- Which route `fs_mod_http_on_headers_complete` takes.
use folksong.Prelude.{
  ℕ, zero, suc, ◌+◌, ◌<◌, ◌≡◌, refl, ap, Bool, true, false, Option, none, some, List, [], ◌∷◌,
  arith, get_elem?, Bool-cases, inl, inr,
}
use folksong.Http.{Req, first_match}
use folksong.Http.Message.{Route, answers}

-- the first route that takes the request, or none that does
abbrev pub Chosen : {S : Type 0} → Req → List (Route S) → Option ℕ → Type 0
Chosen {S} r routes none =
    (i : ℕ) (route : Route S) → get_elem? routes i ≡ some route → route.match_cb r ≡ false
Chosen {S} r routes (some i) =
    ((route : Route S) × (get_elem? routes i ≡ some route) × (route.match_cb r ≡ true))
    × ((j : ℕ) (route : Route S)
        → j < i
        → get_elem? routes j ≡ some route
        → route.match_cb r ≡ false)

abbrev pub later : Option ℕ → Option ℕ
later none = none
later (some i) = some (suc i)

first_match-later : (bs : List Bool) (n : ℕ) → first_match (n + 1) bs ≡ later (first_match n bs)
unfolding first_match
first_match-later [] n = refl
first_match-later (true ∷ bs) n = ap {B = Option ℕ} some (omega arith)
first_match-later (false ∷ bs) n = first_match-later bs (n + 1)

module _ {S : Type 0} where
  later-Chosen :
      (r : Req) (route : Route S) (routes : List (Route S)) (o : Option ℕ)
      → route.match_cb r ≡ false
      → Chosen r routes o
      → Chosen r (route ∷ routes) (later o)
  later-Chosen r route routes none refused h = other
    where
      other :
          (j : ℕ) (route' : Route S)
          → get_elem? (route ∷ routes) j ≡ some route'
          → route'.match_cb r ≡ false
      other zero route' e = cc
      other (suc j) route' e = h j route' e
  later-Chosen r route routes (some i) refused (found, h) = (found, first)
    where
      first :
          (j : ℕ) (route' : Route S)
          → j < suc i
          → get_elem? (route ∷ routes) j ≡ some route'
          → route'.match_cb r ≡ false
      first zero route' l e = cc
      first (suc j) route' l e = h j route' (omega arith) e

  -- The route that is taken is the first one that matches.
  pub first_match-Chosen :
      (r : Req) (routes : List (Route S)) → Chosen r routes (first_match 0 (answers r routes))
  unfolding first_match
  first_match-Chosen r [] = λ i route e. absurd (cc e)
  first_match-Chosen r (route ∷ routes) = elim (Bool-cases (route.match_cb r)) [
    | inl taken ↦ rw taken ((route, refl, taken), λ j route' l e. absurd (omega arith))
    | inr refused ↦
        rw (refused, first_match-later (answers r routes) 0)
          (later-Chosen r route routes _ refused (first_match-Chosen r routes))
  ]
