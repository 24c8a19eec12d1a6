-- ===== src/Http/Release/Served.antt =====
-- A message that was served, up to the release of its connection.
use folksong.Prelude.{
  subst, join, length, Bytes, ℕ, suc, ◌+◌, ◌<◌, ◌≡◌, refl, sym, ap, ◌∙◌, Bool, true, false, Option,
  none, some, is_some, List, [], ◌∷◌, ◌++◌, get_elem?, arith, Option-cases, inl, inr,
}
use folksong.Arr
use folksong.Arr.{Arr}
use folksong.Http.{Text}
use folksong.Http.Message.{Owned, self_text, self_block, key_text, value_text, Route, Conn}
use folksong.Http.Release.{free, free_self, req_release}
use folksong.Arr.Push.{contents, nth-contents}
use folksong.Http.Message.Answer.{Answered}
use folksong.Http.Message.Choose.{Chosen}
use folksong.Http.Message.Collect.{names, values}
use folksong.Http.Release.Once.{
  Texts, count, once, free_texts-numbered, parts, all_of, owned, all_of-has,
}
use folksong.Http.Wire.{Wire, Parser, all_written}
use folksong.Http.Wire.Reads.{Served}
use folksong.Os.{Os}

-- texts with blocks
abbrev Based : List (Option Text) → Type 0
Based [] = Unit
Based (none ∷ ts) = ⊥
Based (some t ∷ ts) = (is_some t.block.base ≡ true) × Based ts

names-Based : (hs : List (Bytes × Bytes)) → Based (names hs)
names-Based [] = tt
names-Based ((name, v) ∷ hs) = (refl, names-Based hs)

values-Based : (hs : List (Bytes × Bytes)) → Based (values hs)
values-Based [] = tt
values-Based ((name, v) ∷ hs) = (refl, values-Based hs)

Based-Texts :
    (ts : List (Option Text)) (n : ℕ) (arr : Arr Text)
    → Based ts
    → ((i : ℕ) → i < length ts → Arr.nth arr (n + i) ≡ join (get_elem? ts i))
    → Texts (length ts) n arr
Based-Texts [] n arr b slots = tt
Based-Texts (none ∷ ts) n arr b slots = absurd b
Based-Texts (some t ∷ ts) n arr (there, b) slots =
    let first : n + 0 ≡ n = omega arith in
    (
      (t, rw first at (slots 0 (omega arith)), there),
      Based-Texts ts (n + 1) arr b λ i l.
          let next : (n + 1) + i ≡ n + suc i = omega arith in rw next (slots (suc i) (omega arith)),
    )

contents-Texts :
    (arr : Arr Text) (ts : List (Option Text))
    → contents arr ≡ ts
    → arr.ele_count ≡ length ts
    → Based ts
    → Texts arr.ele_count 0 arr
contents-Texts arr ts held count b =
    subst (λ k. Texts k 0 arr) (sym count)
      (Based-Texts ts 0 arr b λ i l.
        let same : 0 + i ≡ i = omega arith in
        rw same (nth-contents arr i (omega (arith, count)) ∙ ap (λ xs. join (get_elem? xs i)) held))

length-names : (hs : List (Bytes × Bytes)) → length (names hs) ≡ length hs
length-names [] = refl
length-names ((name, v) ∷ hs) = ap suc (length-names hs)

length-values : (hs : List (Bytes × Bytes)) → length (values hs) ≡ length hs
length-values [] = refl
length-values ((name, v) ∷ hs) = ap suc (length-values hs)

module _ {S : Type 0} (has_text : S → Bool) where
  -- the release of a route frees what `self` is made of
  pub record Frees (route : Route S) : Type 0 where
    pub releases : S → List Owned
    pub there : route.release_cb ≡ some releases
    pub each : (s : S) → releases s ≡ free (has_text s) self_text ++ (self_block ∷ [])

  -- a connection's route is there, and has made `self`
  pub record Settled (routes : List (Route S)) (c : Conn S) : Type 0 where
    pub kept : is_some c.self ≡ is_some c.req.route
    pub frees :
        (i : ℕ)
        → c.req.route ≡ some i
        → (route : Route S) × (get_elem? routes i ≡ some route) × Frees route
    pub keys : Texts c.req.p_key.ele_count 0 c.req.p_key
    pub vals : Texts c.req.p_val.ele_count 0 c.req.p_val

  is_some-none : (o : Option S) → is_some o ≡ false → o ≡ none
  is_some-none none e = refl
  is_some-none (some s) e = absurd (cc)

  is_some-some : (o : Option S) → is_some o ≡ true → (s : S) × (o ≡ some s)
  is_some-some none e = absurd (cc)
  is_some-some (some s) e = (s, refl)

  free_self-parts :
      (routes : List (Route S)) (c : Conn S)
      → Settled routes c
      → free_self routes c ≡ some (parts has_text c.self)
  unfolding free_self
  free_self-parts routes c h = elim (Option-cases c.req.route) [
    | inl none_taken ↦
        let no_self = is_some-none c.self (h.kept ∙ ap is_some none_taken) in
        rw (free_self, none_taken, no_self) refl
    | inr (i, e) ↦
        let (route, there, f) = h.frees i e in
        let (s, made) = is_some-some c.self (h.kept ∙ ap is_some e) in
        rw (free_self, e, there, f.there, made) (ap {B = Option (List Owned)} some (f.each s))
  ]

  -- The release frees each block that the connection owns once, and no other.
  pub req_release-owned :
      {P : Type 0} (routes : List (Route S)) (w : Wire P S)
      → Settled routes w.conn
      → (freed : List Owned) × (req_release routes w ≡ some freed)
        × ((x : Owned) → count x freed ≡ once (owned has_text w x))
  unfolding req_release
  req_release-owned routes w h =
      let r = w.conn.req in
      let url = is_some r.url.block.base in
      (
        all_of has_text w.has_buf url w.conn.self r.p_key.ele_count r.p_val.ele_count,
        rw
            (
              req_release,
              free_self-parts routes w.conn h,
              free_texts-numbered key_text r.p_key.ele_count 0 r.p_key h.keys,
              free_texts-numbered value_text r.p_val.ele_count 0 r.p_val h.vals,
            )
            refl,
        λ x. all_of-has has_text x w.has_buf url w.conn.self r.p_key.ele_count r.p_val.ele_count,
      )

  Answered-Settled :
      (routes : List (Route S)) (path : Bytes) (hs : List (Bytes × Bytes)) (ats : List Bytes)
      (c : Conn S)
      → ((i : ℕ) (route : Route S) → get_elem? routes i ≡ some route → Frees route)
      → Answered routes path hs ats (some c)
      → Settled routes c
  Answered-Settled routes path hs ats c all a =
      let same : a.after ≡ c = ground (arith, a.ends) in
      subst (Settled routes) same (record {
        kept = a.kept;
        frees = λ i e.
            let (route, there, taken) = (subst (Chosen _ routes) e a.chosen).0 in
            (route, there, all i route there);
        keys =
            contents-Texts a.after.req.p_key (names hs) a.collected.keys
              (omega (arith, a.collected.key_count, length-names hs)) (names-Based hs);
        vals =
            contents-Texts a.after.req.p_val (values hs) a.collected.vals
              (omega (arith, a.collected.val_count, length-values hs)) (values-Based hs);
      })

  -- what becomes of a connection whose message came in reads, up to its release
  pub record Released {P : Type 0} (routes : List (Route S)) (o : Option (Wire P S)) : Type 0 where
    pub after : Wire P S
    pub ends : o ≡ some after
    pub closed_once : (all_written after).closes ≡ 1
    pub freed : List Owned
    pub releases : req_release routes after ≡ some freed
    pub each : (x : Owned) → count x freed ≡ once (owned has_text after x)

  -- Over routes that free what they made, the connection of a message that was served is closed once, and
  -- its release frees each block that it owns once, and no other.
  pub Served-Released :
      {P : Type 0} (os : Os) (routes : List (Route S)) (parser : Parser P) (path : Bytes)
      (hs : List (Bytes × Bytes)) (ats : List Bytes) (o : Option (Wire P S))
      → ((i : ℕ) (route : Route S) → get_elem? routes i ≡ some route → Frees route)
      → Served os routes parser path hs ats o
      → Released routes o
  Served-Released os routes parser path hs ats o all s =
      let (freed, released, each) =
        req_release-owned routes s.after
          (Answered-Settled routes path hs ats s.after.conn all s.answered) in
      record {
        after = s.after;
        ends = s.ends;
        closed_once = s.closed_once;
        freed = freed;
        releases = released;
        each = each;
      }
