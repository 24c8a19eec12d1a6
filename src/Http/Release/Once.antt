-- ===== src/Http/Release/Once.antt =====
-- What `fs_mod_http_req_release` frees, counted.
use folksong.Prelude.{
  ℕ, zero, suc, ◌+◌, ◌≡◌, refl, ◌∙◌, Bool, true, false, ◌&&◌, Option, none, some, is_some, List, [],
  ◌∷◌, ◌++◌, if◌then◌else◌, ◌==◌, ltb, leb, arith,
}
use folksong.Arr
use folksong.Arr.{Arr}
use folksong.Http.{Text}
use folksong.Http.Message.{
  Owned, read_buffer, url_text, self_text, self_block, key_text, value_text, key_elems, key_array,
  value_elems, value_array, request,
}
use folksong.Http.Release.{free, free_texts}
use folksong.Http.Wire.{Wire}

abbrev pub same : Owned → Owned → Bool
same read_buffer read_buffer = true
same url_text url_text = true
same self_text self_text = true
same self_block self_block = true
same (key_text i) (key_text j) = i == j
same (value_text i) (value_text j) = i == j
same key_elems key_elems = true
same key_array key_array = true
same value_elems value_elems = true
same value_array value_array = true
same request request = true
same _ _ = false

-- how often a block is freed
abbrev pub count : Owned → List Owned → ℕ
count x [] = 0
count x (y ∷ ys) = (if same x y then 1 else 0) + count x ys

abbrev pub once : Bool → ℕ
once b = if b then 1 else 0

count-append : (x : Owned) (ys zs : List Owned) → count x (ys ++ zs) ≡ count x ys + count x zs
count-append x [] zs = omega arith
count-append x (y ∷ ys) zs = omega (arith, count-append x ys zs)

count-free : (x : Owned) (b : Bool) (o : Owned) → count x (free b o) ≡ once (same x o && b)
count-free x true o = ground arith
count-free x false o = ground arith

-- the texts with the numbers from `n` on, `k` of them
abbrev pub numbered : (ℕ → Owned) → ℕ → ℕ → List Owned
numbered at zero n = []
numbered at (suc k) n = at n ∷ numbered at k (n + 1)

count-numbered_miss :
    (x : Owned) (at : ℕ → Owned) (k n : ℕ)
    → ((j : ℕ) → same x (at j) ≡ false)
    → count x (numbered at k n) ≡ 0
count-numbered_miss x at zero n other = refl
count-numbered_miss x at (suc k) n other =
    rw (other n) (omega (arith, count-numbered_miss x at k (n + 1) other))

count-numbered_hit :
    (x : Owned) (at : ℕ → Owned) (i k n : ℕ)
    → ((j : ℕ) → same x (at j) ≡ (i == j))
    → count x (numbered at k n) ≡ once (leb n i && ltb i (n + k))
count-numbered_hit x at i zero n this = ground arith
count-numbered_hit x at i (suc k) n this =
    rw (this n) (ground (arith, count-numbered_hit x at i k (n + 1) this))

-- the slots from `n` on, `k` of them, hold texts with blocks
abbrev pub Texts : ℕ → ℕ → Arr Text → Type 0
Texts zero n arr = Unit
Texts (suc k) n arr =
    ((t : Text) × (Arr.nth arr n ≡ some t) × (is_some t.block.base ≡ true)) × Texts k (n + 1) arr

pub free_texts-numbered :
    (at : ℕ → Owned) (k n : ℕ) (arr : Arr Text)
    → Texts k n arr
    → free_texts at k n arr ≡ some (numbered at k n)
unfolding free_texts
free_texts-numbered at zero n arr w = refl
free_texts-numbered at (suc k) n arr ((t, e, there), w) =
    rw (free_texts, e, free_texts-numbered at k (n + 1) arr w, there) refl

module _ {S : Type 0} (has_text : S → Bool) where
  -- `has_text` says whether `self` has a text of its own
  abbrev pub kept_text : Option S → Bool
  kept_text none = false
  kept_text (some s) = has_text s

  abbrev pub parts : Option S → List Owned
  parts none = []
  parts (some s) = free (has_text s) self_text ++ (self_block ∷ [])

  count-parts :
      (x : Owned) (o : Option S)
      → count x (parts o)
        ≡ once (same x self_text && kept_text o) + once (same x self_block && is_some o)
  count-parts x none = ground arith
  count-parts x (some s) =
      ground (arith, count-append x (free (has_text s) self_text) (self_block ∷ []))

  -- everything that a connection with these parts owns
  abbrev pub all_of : Bool → Bool → Option S → ℕ → ℕ → List Owned
  all_of buf url o nk nv =
      free buf read_buffer
      ++ (free url url_text
          ++ (parts o
              ++ (numbered key_text nk 0
                  ++ (key_elems
                      ∷ key_array
                      ∷ (numbered value_text nv 0 ++ (value_elems ∷ value_array ∷ request ∷ []))))))

  count-all_of :
      (x : Owned) (buf url : Bool) (o : Option S) (nk nv : ℕ)
      → count x (all_of buf url o nk nv)
        ≡ once (same x read_buffer && buf)
          + (once (same x url_text && url)
              + (count x (parts o)
                  + (count x (numbered key_text nk 0)
                      + (once (same x key_elems)
                          + (once (same x key_array)
                              + (count x (numbered value_text nv 0)
                                  + count x (value_elems ∷ value_array ∷ request ∷ [])))))))
  count-all_of x buf url o nk nv =
      let last = value_elems ∷ value_array ∷ request ∷ [] in
      let vals = numbered value_text nv 0 in
      let tail = key_elems ∷ key_array ∷ (vals ++ last) in
      let keys = numbered key_text nk 0 in
      omega (
        arith,
        count-append x (free buf read_buffer) (free url url_text ++ (parts o ++ (keys ++ tail))),
        count-append x (free url url_text) (parts o ++ (keys ++ tail)),
        count-append x (parts o) (keys ++ tail),
        count-append x keys tail,
        count-append x vals last,
        count-free x buf read_buffer,
        count-free x url url_text,
      )

  -- where the block is no header's
  all_of-plain :
      (x : Owned) (buf url : Bool) (o : Option S) (nk nv : ℕ)
      → ((j : ℕ) → same x (key_text j) ≡ false)
      → ((j : ℕ) → same x (value_text j) ≡ false)
      → count x (all_of buf url o nk nv)
        ≡ once (same x read_buffer && buf)
          + (once (same x url_text && url)
              + (once (same x self_text && kept_text o)
                  + (once (same x self_block && is_some o)
                      + (once (same x key_elems)
                          + (once (same x key_array)
                              + count x (value_elems ∷ value_array ∷ request ∷ []))))))
  all_of-plain x buf url o nk nv key value = omega (
    arith,
    count-all_of x buf url o nk nv,
    count-parts x o,
    count-numbered_miss x key_text nk 0 key,
    count-numbered_miss x value_text nv 0 value,
  )

  abbrev pub has : Bool → Bool → Option S → ℕ → ℕ → Owned → Bool
  has buf url o nk nv read_buffer = buf
  has buf url o nk nv url_text = url
  has buf url o nk nv self_text = kept_text o
  has buf url o nk nv self_block = is_some o
  has buf url o nk nv (key_text i) = ltb i nk
  has buf url o nk nv (value_text i) = ltb i nv
  has buf url o nk nv _ = true

  pub all_of-has :
      (x : Owned) (buf url : Bool) (o : Option S) (nk nv : ℕ)
      → count x (all_of buf url o nk nv) ≡ once (has buf url o nk nv x)
  all_of-has (key_text i) buf url o nk nv =
      let x = key_text i in
      let keys = count-numbered_hit x key_text i nk 0 (λ j. refl) in
      let vals = count-numbered_miss x value_text nv 0 (λ j. refl) in
      ground (arith, count-all_of x buf url o nk nv, count-parts x o, keys, vals)
  all_of-has (value_text i) buf url o nk nv =
      let x = value_text i in
      let keys = count-numbered_miss x key_text nk 0 (λ j. refl) in
      let vals = count-numbered_hit x value_text i nv 0 (λ j. refl) in
      ground (arith, count-all_of x buf url o nk nv, count-parts x o, keys, vals)
  all_of-has read_buffer buf url o nk nv =
      all_of-plain read_buffer buf url o nk nv (λ j. refl) (λ j. refl) ∙ ground arith
  all_of-has url_text buf url o nk nv =
      all_of-plain url_text buf url o nk nv (λ j. refl) (λ j. refl) ∙ ground arith
  all_of-has self_text buf url o nk nv =
      all_of-plain self_text buf url o nk nv (λ j. refl) (λ j. refl) ∙ ground arith
  all_of-has self_block buf url o nk nv =
      all_of-plain self_block buf url o nk nv (λ j. refl) (λ j. refl) ∙ ground arith
  all_of-has key_elems buf url o nk nv =
      all_of-plain key_elems buf url o nk nv (λ j. refl) (λ j. refl) ∙ ground arith
  all_of-has key_array buf url o nk nv =
      all_of-plain key_array buf url o nk nv (λ j. refl) (λ j. refl) ∙ ground arith
  all_of-has value_elems buf url o nk nv =
      all_of-plain value_elems buf url o nk nv (λ j. refl) (λ j. refl) ∙ ground arith
  all_of-has value_array buf url o nk nv =
      all_of-plain value_array buf url o nk nv (λ j. refl) (λ j. refl) ∙ ground arith
  all_of-has request buf url o nk nv =
      all_of-plain request buf url o nk nv (λ j. refl) (λ j. refl) ∙ ground arith

  -- what a connection owns
  abbrev pub owned : {P : Type 0} → Wire P S → Owned → Bool
  owned w =
      has w.has_buf (is_some w.conn.req.url.block.base) w.conn.self w.conn.req.p_key.ele_count
        w.conn.req.p_val.ele_count
