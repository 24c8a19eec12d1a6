-- ===== src/Run/Stack.antt =====
-- The linked frames are a stack.
use folksong.Prelude.{
  ℕ, suc, ◌+◌, ◌^◌, ◌≤◌, ◌<◌, ◌≡◌, refl, ◌∙◌, ap, true, false, Option, none, some, List, [], ◌∷◌,
  map, arith, ◌==◌, if◌then◌else◌, length, Bool-cases, inl, inr, ==_refl,
}
use folksong.Arr.{Malloc}
use folksong.Cmd.{Cmd}
use folksong.Queue
use folksong.Queue.{Links}
use folksong.Queue.Ring.{IsRing, NotIn, Chain, insert_after-IsRing, remove-IsRing, empty-IsRing}
use folksong.Run.{Run, Frame, header, sizeof_st_mod, st_empty, st_top, ctx_push, st_push, st_pop}

abbrev Below : ℕ → List ℕ → Type 0
Below n [] = Unit
Below n (x ∷ xs) = (0 < x) × (x < n) × Below n xs

-- `at` are the links of the frames, top first.
pub record IsStack (r : Run) (at : List ℕ) : Type 0 where
  pub ring : IsRing r.links header at
  pub below : Below r.fresh at
  pub fresh_pos : 0 < r.fresh
  pub depth : r.st_depth ≡ length at

-- the frames, top first
abbrev pub frames_at : Run → List ℕ → List Frame
frames_at r at = map r.frames at

NotIn-fresh : (n : ℕ) (xs : List ℕ) → Below n xs → NotIn n xs
NotIn-fresh n [] b = tt
NotIn-fresh n (x ∷ xs) b = (λ e. omega arith, NotIn-fresh n xs b.2)

Below-le : (n m : ℕ) (xs : List ℕ) → n ≤ m → Below n xs → Below m xs
Below-le n m [] le b = tt
Below-le n m (x ∷ xs) le b = (b.0, omega arith, Below-le n m xs le b.2)

-- Initialising a node that is not in a ring leaves the ring.
init-Chain :
    (s : Links) (q a : ℕ) (xs : List ℕ) (b : ℕ)
    → NotIn q (a ∷ xs)
    → NotIn q (b ∷ xs)
    → Chain s a xs b
    → Chain (Queue.init q s) a xs b
unfolding Queue.init
init-Chain s q a [] b na nb c = ground arith
init-Chain s q a (x ∷ xs) b na nb c =
    (ground arith, ground arith, init-Chain s q x xs b na.1 (nb.0, nb.1.1) c.2)

map-update :
    (q : ℕ) (f : Frame) (g : ℕ → Frame) (xs : List ℕ)
    → NotIn q xs
    → map (λ p. if p == q then f else g p) xs ≡ map g xs
map-update q f g [] out = refl
map-update q f g (x ∷ xs) out = elim (Bool-cases (x == q)) [
  | inl same ↦ absurd (ground arith)
  | inr other ↦ rw other (ap (◌∷◌ (g x)) (map-update q f g xs out.1))
]

-- pushing a context touches no frame
record SameFrames (r r' : Run) : Type 0 where
  links : r'.links ≡ r.links
  frames : r'.frames ≡ r.frames
  fresh : r'.fresh ≡ r.fresh
  depth : r'.st_depth ≡ r.st_depth

ctx_push-SameFrames : (malloc : Malloc) (r : Run) → SameFrames r (ctx_push malloc r).1
unfolding ctx_push
ctx_push-SameFrames malloc r = ground arith

-- the frame that a push makes
abbrev pub pushed_frame : Malloc → Run → ℕ → Cmd → Frame
pushed_frame malloc r nth cmd = record { module_nth = nth; cmd = cmd; ctx = (ctx_push malloc r).0 }

abbrev pub PushSpec : Malloc → Run → ℕ → Cmd → List ℕ → Option Run → Type 0
PushSpec malloc r nth cmd at none = malloc sizeof_st_mod ≡ false
PushSpec malloc r nth cmd at (some r') =
    IsStack r' (r.fresh ∷ at)
    × (frames_at r' (r.fresh ∷ at) ≡ pushed_frame malloc r nth cmd ∷ frames_at r at)

-- `fs_run_st_push` puts its frame on top, or there is no memory for one.
pub st_push-PushSpec :
    (malloc : Malloc) (r : Run) (nth : ℕ) (cmd : Cmd) (at : List ℕ)
    → IsStack r at
    → suc (length at) < 2 ^ 32
    → PushSpec malloc r nth cmd at (st_push malloc r nth cmd)
unfolding st_push
st_push-PushSpec malloc r nth cmd at s room = elim (Bool-cases (malloc sizeof_st_mod)) [
  | inr refused ↦ rw refused refused
  | inl got ↦
      let k = ctx_push-SameFrames malloc r in
      let out = NotIn-fresh r.fresh at s.below in
      let outside : NotIn r.fresh (header ∷ at) = ((λ e. omega (arith, s.fresh_pos)), out) in
      let ring : IsRing (Queue.init r.fresh r.links) header at = record {
        chain = init-Chain r.links r.fresh header at header outside outside s.ring.chain;
        distinct = s.ring.distinct;
      } in
      let made = pushed_frame malloc r nth cmd in
      let others = (ctx_push malloc r).1.frames in
      let first : (if r.fresh == r.fresh then made else others r.fresh) ≡ made =
        rw (==_refl r.fresh) in
      let below_it : map (λ p. if p == r.fresh then made else others p) at ≡ map r.frames at =
        map-update r.fresh made others at out ∙ ap (λ g. map g at) (SameFrames.frames k) in
      rw got (
        record {
          ring = rw (SameFrames.links k) (insert_after-IsRing r.fresh at ring outside);
          below =
              (s.fresh_pos, omega arith, Below-le r.fresh (r.fresh + 1) at (omega arith) s.below);
          fresh_pos = omega arith;
          depth = omega (arith, s.depth);
        },
        λ i. first i ∷ below_it i,
      )
]

-- `fs_run_st_pop` takes the top frame off and leaves the others as they are.
pub st_pop-IsStack :
    (r : Run) (q : ℕ) (at : List ℕ)
    → IsStack r (q ∷ at)
    → suc (length at) < 2 ^ 32
    → IsStack (st_pop r) at × (frames_at (st_pop r) at ≡ frames_at r at) × (st_top r ≡ r.frames q)
unfolding st_pop
st_pop-IsStack r q at s room = (
  record {
    ring = rw (s.ring.chain.0) (remove-IsRing q at s.ring);
    below = s.below.2;
    fresh_pos = s.fresh_pos;
    depth = omega (arith, s.depth);
  },
  refl,
  ap r.frames s.ring.chain.0,
)

-- A stack is empty exactly when it has no frame.
pub st_empty-IsStack :
    (r : Run) (at : List ℕ)
    → IsStack r at
    → (st_empty r ≡ true → at ≡ []) × (at ≡ [] → st_empty r ≡ true)
unfolding st_empty
st_empty-IsStack r at s = empty-IsRing at s.ring
