-- ===== src/Http/Append.antt =====
-- What `fs_mod_http_buf_append` does to a text that comes in pieces.
use folksong.Prelude.{
  sym, append_assoc, take_all, ℕ, ◌+◌, ◌-◌, ◌*◌, ◌%◌, ◌^◌, ◌≤◌, ◌<◌, ◌≡◌, refl, ap, ◌∙◌, true,
  Option, none, some, [], ◌∷◌, ◌++◌, length, take, drop, replicate, Bytes, arith, length-append,
  length-take, length-drop, length-replicate, take-length_append, take-append, lt→ltb,
}
use folksong.Os.{Os}
use folksong.Http.{Block, null_block, overlay, write_text, make_room, buf_append}

-- `text` and its NUL stand in front of the block, whose length is the one that is noted.
pub record Holds (b : Block) (mem text : Bytes) : Type 0 where
  pub base : b.base ≡ some mem
  pub noted : b.len ≡ length mem
  pub inside : length text < length mem
  pub written : take (length text) mem ≡ text

length-overlay :
    (mem : Bytes) (at : ℕ) (bytes : Bytes)
    → at + length bytes ≤ length mem
    → length (overlay mem at bytes) ≡ length mem
length-overlay mem at bytes h = omega (
  arith,
  length-append (take at mem) (bytes ++ drop (at + length bytes) mem),
  length-append bytes (drop (at + length bytes) mem),
  length-take at mem (omega arith),
  length-drop (at + length bytes) mem,
)

take-overlay :
    (mem : Bytes) (at : ℕ) (text : Bytes)
    → at ≤ length mem
    → take (at + length text) (overlay mem at (text ++ (0 ∷ []))) ≡ take at mem ++ text
take-overlay mem at text h =
    let rest = drop (at + length (text ++ (0 ∷ []))) mem in
    let count : at + length text ≡ length (take at mem ++ text) =
      omega (arith, length-append (take at mem) text, length-take at mem h) in
    let cut : overlay mem at (text ++ (0 ∷ [])) ≡ (take at mem ++ text) ++ (0 ∷ rest) =
      ap (λ l. take at mem ++ l) (append_assoc text (0 ∷ []) rest)
      ∙ sym (append_assoc (take at mem) text (0 ∷ rest)) in
    rw (cut, count) (take-length_append (take at mem ++ text) (0 ∷ rest))

pub write_text-overlay :
    (mem : Bytes) (at : ℕ) (text : Bytes)
    → at + length text < length mem
    → write_text mem at text ≡ some (overlay mem at (text ++ (0 ∷ [])))
unfolding write_text
write_text-overlay mem at text h = ground arith

-- Writing a text inside a block: what stood in front of it stays, and the block keeps its size.
write_text-Holds :
    (mem : Bytes) (at len : ℕ) (text : Bytes)
    → at + length text < length mem
    → len ≡ length mem
    → (mem' : Bytes) × (write_text mem at text ≡ some mem')
      × Holds (record { base = some mem'; len = len }) mem' (take at mem ++ text)
      × (length mem' ≡ length mem)
write_text-Holds mem at len text h n =
    let mem' = overlay mem at (text ++ (0 ∷ [])) in
    let size : length mem' ≡ length mem =
      length-overlay mem at (text ++ (0 ∷ [])) (omega (arith, length-append text (0 ∷ []))) in
    let count : length (take at mem ++ text) ≡ at + length text =
      omega (arith, length-append (take at mem) text, length-take at mem (omega arith)) in
    (
      mem',
      write_text-overlay mem at text h,
      record {
        base = refl;
        noted = n ∙ sym size;
        inside = omega arith;
        written = rw count (take-overlay mem at text (omega arith));
      },
      size,
    )

-- The first piece gets a block that it fills to the last byte.
pub buf_append_first :
    (os : Os) (text : Bytes)
    → ((k : ℕ) → os.malloc k ≡ true)
    → (b : Block) × (mem : Bytes) × (buf_append os null_block 0 text ≡ some (b, length text))
      × Holds b mem text
      × (length mem ≡ length text + 1)
unfolding buf_append make_room write_text
buf_append_first os text got =
    let fresh = replicate (length text + 1) os.fill in
    let size : length fresh ≡ length text + 1 = length-replicate (length text + 1) os.fill in
    let (mem, w, h, n) = write_text-Holds fresh 0 (length text + 1) text (omega arith) (sym size) in
    let b : Block = record { base = some mem; len = length text + 1 } in
    let none_yet : 0 + length text ≡ length text = omega arith in
    (
      b,
      mem,
      rw (got (length text + 1), buf_append)
          (rw (w, buf_append) (ap {B = Option (Block × ℕ)} (λ n. some (b, n)) none_yet)),
      h,
      n ∙ size,
    )

-- A further piece that reaches the block's end is written over it: the block grows only while
-- the piece fits anyway.
pub buf_append_overrun :
    (os : Os) (b : Block) (mem text more : Bytes)
    → Holds b mem text
    → length mem ≤ length text + length more
    → buf_append os b (length text) more ≡ none
unfolding buf_append make_room write_text
buf_append_overrun os b mem text more h far = ground (arith, h.base)

make_room_grown :
    (os : Os) (b : Block) (mem : Bytes) (nlen n : ℕ)
    → ((k : ℕ) → os.malloc k ≡ true)
    → b.base ≡ some mem
    → nlen + n < b.len
    → make_room os b nlen n
      ≡ some (
        take ((b.len * 2 + 1) % 2 ^ 64) mem
            ++ replicate ((b.len * 2 + 1) % 2 ^ 64 - length mem) os.fill,
        (b.len * 2 + 1) % 2 ^ 64,
      )
unfolding make_room
make_room_grown os b mem nlen n got h fits =
    rw (h, lt→ltb (nlen + n) b.len fits, got ((b.len * 2 + 1) % 2 ^ 64)) refl

buf_append_written :
    (os : Os) (b : Block) (nlen len : ℕ) (text mem mem' : Bytes)
    → make_room os b nlen (length text) ≡ some (mem, len)
    → write_text mem nlen text ≡ some mem'
    → buf_append os b nlen text ≡ some (record { base = some mem'; len = len }, nlen + length text)
unfolding buf_append
buf_append_written os b nlen len text mem mem' room w = rw (buf_append, room, w) refl

-- A further piece that leaves a byte of the block free is taken in, in a block that has grown.
buf_append_fits :
    (os : Os) (b : Block) (mem text more : Bytes)
    → ((k : ℕ) → os.malloc k ≡ true)
    → Holds b mem text
    → length text + length more < length mem
    → length mem < 2 ^ 62
    → (b' : Block) × (mem' : Bytes) × (buf_append os b (length text) more
        ≡ some (b', length text + length more))
      × Holds b' mem' (text ++ more)
      × (length mem' ≡ length mem * 2 + 1)
buf_append_fits os b mem text more got h fits small =
    let len = (b.len * 2 + 1) % 2 ^ 64 in
    let doubled : len ≡ length mem * 2 + 1 = omega (arith, h.noted) in
    let tail = replicate (len - length mem) os.fill in
    let grown = take len mem ++ tail in
    let size : length grown ≡ len = omega (
      arith,
      doubled,
      ap length whole,
      length-append mem tail,
      length-replicate (len - length mem) os.fill,
    ) in
    let kept : take (length text) grown ≡ text =
      ap (take (length text)) whole
      ∙ take-append (length text) mem tail (omega (arith, h.inside))
      ∙ h.written in
    let (mem', w, holds, n) =
      write_text-Holds grown (length text) len more (omega (arith, doubled, size, h.inside))
        (sym size) in
    (
      record { base = some mem'; len = len },
      mem',
      buf_append_written os b (length text) len more grown mem'
          (make_room_grown os b mem (length text) (length more) got h.base (rw h.noted fits)) w,
      rw kept at holds,
      n ∙ size ∙ doubled,
    )
  where
    whole :
        take ((b.len * 2 + 1) % 2 ^ 64) mem
          ++ replicate ((b.len * 2 + 1) % 2 ^ 64 - length mem) os.fill
        ≡ mem ++ replicate ((b.len * 2 + 1) % 2 ^ 64 - length mem) os.fill
    whole = rw (take_all ((b.len * 2 + 1) % 2 ^ 64) mem (omega (arith, h.noted)))
