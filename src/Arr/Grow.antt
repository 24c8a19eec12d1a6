-- ===== src/Arr/Grow.antt =====
-- How long `fs_arr_push` keeps working: the capacity is at most a constant and twice the count.
use folksong.Prelude.{
  ℕ, suc, ◌+◌, ◌*◌, ◌^◌, ◌≤◌, ◌<◌, ◌≡◌, refl, true, Option, none, some, arith, length-set, ◌∙◌,
}
use folksong.Arr.{Arr, Malloc, push, put}
use folksong.Arr.Push.{IsValid, CanGrow, Appends, PushSpec, push-PushSpec}

-- `n` more pushes stay within `int` and `size_t`.
pub record Roomy {A : Type 0} (b n : ℕ) (arr : Arr A) : Type 0 where
  pub valid : IsValid arr
  pub small : arr.ele_size ≤ 2 ^ 32
  pub capa : arr.ele_capa ≤ b + 2 * arr.ele_count
  pub bound : b + 2 * (arr.ele_count + n) < 2 ^ 30

module _ {A : Type 0} where
  Roomy-CanGrow : {b n : ℕ} {arr : Arr A} → Roomy b n arr → CanGrow arr
  Roomy-CanGrow {arr} r = record {
    fits_int = omega (arith, r.capa, r.bound);
    fits_size =
        let capa : arr.ele_capa ≤ 2 ^ 30 = omega (arith, r.capa, r.bound) in
        let size : arr.ele_size ≤ 2 ^ 32 = r.small in
        let product : arr.ele_capa * arr.ele_size ≤ 2 ^ 30 * 2 ^ 32 = grind arith in omega arith;
  }

  Appends-Roomy :
      {b m n : ℕ} {arr arr' : Arr A} → Roomy b (suc n) arr → Appends arr m arr' → Roomy b n arr'
  Appends-Roomy r a = record {
    valid = a.valid;
    small = omega (arith, r.small, a.same_size);
    capa = ground (arith, r.capa, a.counted, a.doubled);
    bound = omega (arith, r.bound, a.counted);
  }

  -- a push that returns a slot, with room for `n` more
  pub record Pushes (b n : ℕ) (malloc : Malloc) (arr : Arr A) : Type 0 where
    pub slot : ℕ
    pub after : Arr A
    pub pushed : push malloc arr ≡ some (slot, after)
    pub appends : Appends arr slot after
    pub roomy : Roomy b n after

  returned :
      {b n : ℕ} {malloc : Malloc} {arr : Arr A} (o : Option (ℕ × Arr A))
      → Roomy b (suc n) arr
      → ((k : ℕ) → malloc k ≡ true)
      → push malloc arr ≡ o
      → PushSpec malloc arr o
      → Pushes b n malloc arr
  returned {arr} none r got e s = absurd (ground (arith, got ((arr.ele_capa * 2) * arr.ele_size)))
  returned (some (k, arr')) r got e s = record {
    slot = k;
    after = arr';
    pushed = e;
    appends = s;
    roomy = Appends-Roomy r s;
  }

  -- While memory lasts, a push returns a slot.
  pub push-Pushes :
      {b n : ℕ} (malloc : Malloc) {arr : Arr A}
      → Roomy b (suc n) arr
      → ((k : ℕ) → malloc k ≡ true)
      → Pushes b n malloc arr
  push-Pushes malloc {arr} r got =
      returned (push malloc arr) r got refl (push-PushSpec malloc r.valid (Roomy-CanGrow r))

  -- Writing the slot that a push returned changes no size.
  pub put-Roomy : {b n : ℕ} {arr : Arr A} (k : ℕ) (x : A) → Roomy b n arr → Roomy b n (put arr k x)
  put-Roomy {arr} k x r = record {
    valid = record {
      slots = length-set arr.elems k (some x) ∙ r.valid.slots;
      some_slot = r.valid.some_slot;
      in_block = r.valid.in_block;
      sized = r.valid.sized;
      countable = r.valid.countable;
      addressable = r.valid.addressable;
    };
    small = r.small;
    capa = r.capa;
    bound = r.bound;
  }
