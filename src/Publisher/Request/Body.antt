-- ===== src/Publisher/Request/Body.antt =====
-- The body that a request to a Kafka route collects.
use folksong.Prelude.{
  drop_all, joined, ℕ, ◌+◌, ◌-◌, ◌%◌, ◌^◌, ◌<◌, ◌≡◌, refl, sym, ap, ◌∙◌, true, Option, none, some,
  List, [], ◌∷◌, ◌++◌, length, take, replicate, Bytes, arith, length-append, length-replicate,
  take-append, take_all, append-nil, append_assoc,
}
use folksong.Http.{Block, null_block, overlay}
use folksong.Os.{Os}
use folksong.Publisher.Request.{memory, body_cb}

-- The block holds `text` and nothing else.
pub record Collected (b : Block) (text : Bytes) : Type 0 where
  pub bytes : memory b.base ≡ text
  pub len : b.len ≡ length text

-- every piece in turn
abbrev pub collect : Os → List Bytes → Block → Option Block
collect os [] b = some b
collect os (at ∷ ats) b = elim (body_cb os at b) [ none ↦ none | some b' ↦ collect os ats b' ]

pub overlay_end :
    (mem text at : Bytes) (n : ℕ)
    → n ≡ length text
    → length mem ≡ length text + length at
    → take n mem ≡ text
    → overlay mem n at ≡ text ++ at
overlay_end mem text at n e size kept =
    rw (kept, drop_all (n + length at) mem (omega arith), append-nil at) refl

-- A piece is put behind what is there.
body_cb-fields :
    (os : Os) (base : Option Bytes) (n : ℕ) (text at : Bytes)
    → ((k : ℕ) → os.malloc k ≡ true)
    → Collected (record { base = base; len = n }) text
    → length text + length at < 2 ^ 64
    → (b' : Block) × (body_cb os at (record { base = base; len = n }) ≡ some b')
      × Collected b' (text ++ at)
unfolding body_cb
body_cb-fields os none n text at got c small =
    let mem = replicate (length at) os.fill in
    let size : length mem ≡ length at = length-replicate (length at) os.fill in
    let len = (n + length at) % 2 ^ 64 in
    let none_yet : n ≡ 0 = c.len ∙ ap length (sym c.bytes) in
    (
      record { base = some (overlay mem n at); len = len },
      rw (body_cb, got (length at)) refl,
      record {
        bytes =
            overlay_end mem text at n c.len (omega (arith, c.len, none_yet))
              (ap (λ k. take k mem) none_yet ∙ c.bytes);
        len = omega (arith, length-append text at, c.len);
      },
    )
body_cb-fields os (some old) n text at got c small =
    let len = (n + length at) % 2 ^ 64 in
    let mem = take len old ++ replicate (len - length old) os.fill in
    let old_size : length old ≡ length text = ap length c.bytes in
    let whole : take len old ≡ old = take_all len old (omega (arith, c.len)) in
    let size : length mem ≡ length text + length at = omega (
      arith,
      c.len,
      ap length whole,
      length-append (take len old) (replicate (len - length old) os.fill),
      length-replicate (len - length old) os.fill,
    ) in
    let kept : take n mem ≡ text =
      ap (λ l. take n (l ++ replicate (len - length old) os.fill)) whole
      ∙ take-append n old (replicate (len - length old) os.fill) (omega (arith, c.len))
      ∙ take_all n old (omega (arith, c.len))
      ∙ c.bytes in
    (
      record { base = some (overlay mem n at); len = len },
      rw (body_cb, got len) refl,
      record {
        bytes = overlay_end mem text at n c.len size kept;
        len = omega (arith, length-append text at, c.len);
      },
    )

pub body_cb-Collected :
    (os : Os) (b : Block) (text at : Bytes)
    → ((k : ℕ) → os.malloc k ≡ true)
    → Collected b text
    → length text + length at < 2 ^ 64
    → (b' : Block) × (body_cb os at b ≡ some b') × Collected b' (text ++ at)
body_cb-Collected os b text at got c small = body_cb-fields os b.base b.len text at got c small

collect-Collected :
    (os : Os) (b : Block) (text : Bytes) (ats : List Bytes)
    → ((k : ℕ) → os.malloc k ≡ true)
    → Collected b text
    → length text + length (joined ats) < 2 ^ 64
    → (b' : Block) × (collect os ats b ≡ some b') × Collected b' (text ++ joined ats)
collect-Collected os b text [] got c small = (b, refl, rw (append-nil text) c)
collect-Collected os b text (at ∷ ats) got c small =
    let (b1, e, c1) =
      body_cb-Collected os b text at got c (omega (arith, length-append at (joined ats))) in
    let (b2, e2, c2) =
      collect-Collected os b1 (text ++ at) ats got c1
        (omega (arith, length-append at (joined ats), length-append text at)) in
    (b2, rw (collect, e) e2, rw (sym (append_assoc text at (joined ats))) c2)

-- Whatever the pieces in which a body of fewer than 2 ^ 64 bytes comes, while memory lasts, the
-- block that is collected from an empty one is their concatenation.
pub collect-joined :
    (os : Os) (ats : List Bytes)
    → ((k : ℕ) → os.malloc k ≡ true)
    → length (joined ats) < 2 ^ 64
    → (b : Block) × (collect os ats null_block ≡ some b) × Collected b (joined ats)
collect-joined os ats got small =
    collect-Collected os null_block [] ats got (record { bytes = refl; len = refl }) (omega arith)
