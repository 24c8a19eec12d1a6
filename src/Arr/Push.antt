-- ===== src/Arr/Push.antt =====
-- The invariant of `fs_arr_push`, and the list that an array stands for.
use folksong.Prelude.{
  sym, join, get_elem?, get_elem?-take, ◌⊎◌, ℕ, suc, ◌+◌, ◌*◌, ◌/◌, ◌%◌, ◌^◌, ◌≤◌, ◌<◌, ◌≡◌, refl,
  ap, ◌∙◌, false, Bool-cases, inl, inr, Option, none, some, List, [], ◌∷◌, ◌++◌, arith, ◌==◌,
  if◌then◌else◌, length, take, drop, length-append, length-replicate, length-take, length-drop,
  take-append, take-set-suc, take_all,
}
use folksong.Arr.{Arr, Malloc, is_full, capa_size, fresh, put, nth, grow, moved, bump, push}

-- The block holds `ele_capa` slots of a positive size, and its bytes can be counted.
pub record IsValid {A : Type 0} (arr : Arr A) : Type 0 where
  pub slots : length arr.elems ≡ arr.ele_capa
  pub some_slot : 0 < arr.ele_capa
  pub in_block : arr.ele_count ≤ arr.ele_capa
  pub sized : 0 < arr.ele_size
  pub countable : arr.ele_capa < 2 ^ 31
  pub addressable : arr.ele_capa * arr.ele_size < 2 ^ 64

-- One more doubling stays within `int` and `size_t`.
pub record CanGrow {A : Type 0} (arr : Arr A) : Type 0 where
  pub fits_int : arr.ele_capa < 2 ^ 30
  pub fits_size : arr.ele_capa * arr.ele_size < 2 ^ 63

-- the elements written so far, oldest first
abbrev pub contents : {A : Type 0} → Arr A → List (Option A)
contents arr = take arr.ele_count arr.elems

mul-div : (n s : ℕ) → 0 < s → (n * s) / s ≡ n
mul-div n s h = grind arith

module _ {A : Type 0} where
  grow_size :
      (arr : Arr A) → CanGrow arr → (capa_size arr * 2) % 2 ^ 64 ≡ (arr.ele_capa * 2) * arr.ele_size
  unfolding capa_size
  grow_size arr g = omega (arith, g.fits_size)

  length-grown :
      (xs : List (Option A)) (n s : ℕ)
      → length xs ≡ n
      → 0 < s
      → length (take n xs ++ drop n (fresh ((n * 2) * s) s)) ≡ n * 2
  length-grown xs n s h p =
      let filled : List (Option A) = fresh ((n * 2) * s) s in
      omega (
        arith,
        length-append (take n xs) (drop n filled),
        length-take n xs (omega arith),
        length-drop n filled,
        length-replicate {A = Option A} (((n * 2) * s) / s) none,
        mul-div (n * 2) s p,
      )

  moved-IsValid :
      {arr : Arr A}
      → IsValid arr
      → CanGrow arr
      → IsValid (moved ((arr.ele_capa * 2) * arr.ele_size) arr)
  moved-IsValid {arr} v g = record {
    slots =
        length-grown arr.elems arr.ele_capa arr.ele_size v.slots v.sized
        ∙ omega (arith, g.fits_int);
    some_slot = omega (arith, g.fits_int);
    in_block = omega (arith, g.fits_int);
    sized = v.sized;
    countable = omega (arith, g.fits_int);
    addressable =
        let doubled : arr.ele_capa * 2 % 2 ^ 32 ≡ arr.ele_capa * 2 = omega (arith, g.fits_int) in
        rw doubled (omega (arith, g.fits_size));
  }

  contents-moved : {arr : Arr A} (size : ℕ) → IsValid arr → contents (moved size arr) ≡ contents arr
  contents-moved {arr} size v =
      take-append arr.ele_count (take arr.ele_capa arr.elems) _
        (omega (arith, length-take arr.ele_capa arr.elems (omega arith)))
      ∙ ap (take arr.ele_count) (take_all arr.ele_capa arr.elems (omega arith))

  grow-moved :
      (malloc : Malloc) (arr : Arr A)
      → CanGrow arr
      → grow malloc arr ≡ (
          if malloc ((arr.ele_capa * 2) * arr.ele_size)
          then some (moved ((arr.ele_capa * 2) * arr.ele_size) arr)
          else none)
  unfolding grow
  grow-moved malloc arr g = rw (grow_size arr g)

  -- The slot is the next one, and a value written to it stands behind the old ones.
  pub record Appends (arr : Arr A) (n : ℕ) (arr' : Arr A) : Type 0 where
    pub at_end : n ≡ arr.ele_count
    pub valid : IsValid arr'
    pub counted : arr'.ele_count ≡ suc arr.ele_count
    pub same_size : arr'.ele_size ≡ arr.ele_size
    pub doubled :
        (arr'.ele_capa ≡ arr.ele_capa)
        ⊎ ((arr'.ele_capa ≡ arr.ele_capa * 2) × (arr.ele_count ≡ arr.ele_capa))
    pub appended : (x : A) → contents (put arr' n x) ≡ contents arr ++ (some x ∷ [])

  bump-Appends :
      {old arr : Arr A}
      → IsValid arr
      → arr.ele_count < arr.ele_capa
      → arr.ele_count ≡ old.ele_count
      → contents arr ≡ contents old
      → arr.ele_size ≡ old.ele_size
      → (arr.ele_capa ≡ old.ele_capa)
        ⊎ ((arr.ele_capa ≡ old.ele_capa * 2) × (old.ele_count ≡ old.ele_capa))
      → Appends old arr.ele_count (bump arr).1
  bump-Appends {arr} v room c k z d =
      let next : (arr.ele_count + 1) % 2 ^ 32 ≡ suc arr.ele_count = omega (arith, v.countable) in
      record {
        at_end = c;
        valid = omega (arith, v.countable);
        counted = next ∙ ap suc c;
        same_size = z;
        doubled = d;
        appended = λ x. rw next (
            take-set-suc arr.ele_count arr.elems (some x) (omega (arith, v.slots))
            ∙ ap (λ l. l ++ some x ∷ []) k);
      }

-- What `fs_arr_push` may answer: NULL only to a full array whose doubled block is refused.
abbrev pub PushSpec : {A : Type 0} → Malloc → Arr A → Option (ℕ × Arr A) → Type 0
PushSpec malloc arr none =
    (arr.ele_count ≡ arr.ele_capa) × (malloc ((arr.ele_capa * 2) * arr.ele_size) ≡ false)
PushSpec malloc arr (some (n, arr')) = Appends arr n arr'

-- A push on a valid array that may double once more answers as `PushSpec` says.
pub push-PushSpec :
    {A : Type 0} (malloc : Malloc) {arr : Arr A}
    → IsValid arr
    → CanGrow arr
    → PushSpec malloc arr (push malloc arr)
unfolding push is_full
push-PushSpec malloc {arr} v g = elim (Bool-cases (arr.ele_count == arr.ele_capa)) [
  | inl full ↦ elim (Bool-cases (malloc ((arr.ele_capa * 2) * arr.ele_size))) [
    | inl got ↦
        rw (full, grow-moved malloc arr g, got)
          (bump-Appends (moved-IsValid v g) (omega (arith, g.fits_int)) refl (contents-moved _ v)
            refl (inr (omega (arith, g.fits_int), ground arith)))
    | inr refused ↦ rw (full, grow-moved malloc arr g, refused) (ground arith, refused)
  ]
  | inr space ↦ rw space (bump-Appends v (ground arith) refl refl refl (inl refl))
]

module _ {A : Type 0} where
  pub length-contents : (arr : Arr A) → IsValid arr → length (contents arr) ≡ arr.ele_count
  length-contents arr v = length-take arr.ele_count arr.elems (omega (arith, v.slots, v.in_block))

  -- A slot in use is read among the contents.
  pub nth-contents :
      (arr : Arr A) (i : ℕ) → i < arr.ele_count → nth arr i ≡ join (get_elem? (contents arr) i)
  nth-contents arr i l = ap join (sym (get_elem?-take arr.ele_count i arr.elems l))
