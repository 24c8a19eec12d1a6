-- ===== src/Queue/Ring.antt =====
-- A header and its nodes form a ring; the macros of core/fs_queue.h edit the list that it stands for.
use folksong.Prelude.{ℕ, ◌≡◌, ◌≢◌, refl, sym, true, List, [], ◌∷◌, arith}
use folksong.Queue.{Links, init, empty, insert_after, remove}

abbrev pub NotIn : ℕ → List ℕ → Type 0
NotIn p [] = Unit
NotIn p (x ∷ xs) = (p ≢ x) × NotIn p xs

abbrev pub Distinct : List ℕ → Type 0
Distinct [] = Unit
Distinct (x ∷ xs) = NotIn x xs × Distinct xs

-- From `a` the pointers lead through `xs` to `b`, and back.
abbrev pub Chain : Links → ℕ → List ℕ → ℕ → Type 0
Chain s a [] b = (s.next a ≡ b) × (s.prev b ≡ a)
Chain s a (x ∷ xs) b = (s.next a ≡ x) × (s.prev x ≡ a) × Chain s x xs b

pub record IsRing (s : Links) (h : ℕ) (xs : List ℕ) : Type 0 where
  pub chain : Chain s h xs h
  pub distinct : Distinct (h ∷ xs)

-- A chain survives a change of `next` at two places outside it, and of `prev` at two outside its
-- nodes.
Chain-frame :
    (s s' : Links) (u v y z a : ℕ) (xs : List ℕ) (b : ℕ)
    → ((p : ℕ) → p ≢ u → p ≢ v → s'.next p ≡ s.next p)
    → ((p : ℕ) → p ≢ y → p ≢ z → s'.prev p ≡ s.prev p)
    → NotIn u (a ∷ xs)
    → NotIn v (a ∷ xs)
    → NotIn y (b ∷ xs)
    → NotIn z (b ∷ xs)
    → Chain s a xs b
    → Chain s' a xs b
Chain-frame s s' u v y z a [] b fn fp ua va yb zb c = ground (arith, fn a, fp b)
Chain-frame s s' u v y z a (x ∷ xs) b fn fp ua va yb zb c = (
  ground (arith, fn a),
  ground (arith, fp x),
  Chain-frame s s' u v y z x xs b fn fp ua.1 va.1 (yb.0, yb.1.1) (zb.0, zb.1.1) c.2,
)

-- An initialised header is an empty ring.
pub init-IsRing : (h : ℕ) (s : Links) → IsRing (init h s) h []
unfolding init
init-IsRing h s = ground arith

-- `fs_queue_empty` decides whether a ring has no node.
pub empty-IsRing :
    {s : Links} {h : ℕ} (xs : List ℕ)
    → IsRing s h xs
    → ((empty h s ≡ true) → xs ≡ []) × ((xs ≡ []) → empty h s ≡ true)
unfolding empty
empty-IsRing [] r = (λ _. refl, λ _. ground arith)
empty-IsRing (x ∷ xs) r = (λ e. absurd (ground arith), λ e. cc)

-- A node that is not in the ring becomes its first.
pub insert_after-IsRing :
    {s : Links} {h : ℕ} (q : ℕ) (xs : List ℕ)
    → IsRing s h xs
    → NotIn q (h ∷ xs)
    → IsRing (insert_after h q s) h (q ∷ xs)
unfolding insert_after
insert_after-IsRing q [] r out = ground arith
insert_after-IsRing {s} {h} q (x ∷ xs) r out =
    let s' = insert_after h q s in
    let tail : Chain s' x xs h =
      Chain-frame s s' q h q x x xs h (λ p. ground arith) (λ p. ground arith) out.1 r.distinct.0
        (out.0, out.1.1) ((λ e. r.distinct.0.0 (sym e)), r.distinct.1.0) r.chain.2 in
    ground arith

-- Removing the first node leaves the others.
pub remove-IsRing :
    {s : Links} {h : ℕ} (q : ℕ) (xs : List ℕ) → IsRing s h (q ∷ xs) → IsRing (remove q s) h xs
unfolding remove
remove-IsRing q [] r = ground arith
remove-IsRing {s} {h} q (x ∷ xs) r =
    let s' = remove q s in
    let tail : Chain s' x xs h =
      Chain-frame s s' h h x x x xs h (λ p. ground arith) (λ p. ground arith) r.distinct.0.1
        r.distinct.0.1 ((λ e. r.distinct.0.1.0 (sym e)), r.distinct.1.1.0)
        ((λ e. r.distinct.0.1.0 (sym e)), r.distinct.1.1.0) r.chain.2.2 in
    ground arith
