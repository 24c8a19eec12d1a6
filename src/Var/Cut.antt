-- ===== src/Var/Cut.antt =====
-- The pieces that `fs_var_parse` cuts a text into.
pub mod Pieces
pub mod Step
pub mod Text
use folksong.Prelude.{
  ℕ, zero, suc, ◌+◌, ◌*◌, ◌^◌, ◌≤◌, ◌<◌, ◌≡◌, refl, sym, ap, ◌∙◌, Bool, true, false, not, ◌&&◌,
  ◌||◌, Option, none, some, List, [], ◌∷◌, ◌++◌, ◌==◌, ltb, if◌then◌else◌, length, map, set,
  get_elem?, join, Bytes, arith, append-nil, append_assoc, length-append, Bool-cases, inl, inr,
  get_elem?-set_self, lt→ltb,
}
use folksong.Arr
use folksong.Arr.{Arr, Malloc, put}
use folksong.Arr.Push.{contents, Appends}
use folksong.Arr.Grow.{Roomy, Pushes, push-Pushes, put-Roomy}
use folksong.Var.{
  Piece, Cursor, Parsed, parsed, var_error, fault, new_piece, append_chr, ensure, plain_chr,
  open_variable, close_variable, step, next, loop, parse,
}

-- the texts of pieces behind each other
abbrev pub text_of : List Piece → Bytes
text_of [] = []
text_of (p ∷ ps) = p.bytes ++ text_of ps

text_of-append : (ps qs : List Piece) → text_of (ps ++ qs) ≡ text_of ps ++ text_of qs
text_of-append [] qs = refl
text_of-append (p ∷ ps) qs =
    ap (λ l. p.bytes ++ l) (text_of-append ps qs)
    ∙ sym (append_assoc p.bytes (text_of ps) (text_of qs))

-- and their texts one by one
abbrev pub bytes_of : List Piece → List Bytes
bytes_of [] = []
bytes_of (p ∷ ps) = p.bytes ∷ bytes_of ps

bytes_of-append : (ps qs : List Piece) → bytes_of (ps ++ qs) ≡ bytes_of ps ++ bytes_of qs
bytes_of-append [] qs = refl
bytes_of-append (p ∷ ps) qs = ap (◌∷◌ p.bytes) (bytes_of-append ps qs)

abbrev pub written : List Piece → List (Option Piece)
written [] = []
written (p ∷ ps) = some p ∷ written ps

written-append :
    (ps : List Piece) (p : Piece) → written (ps ++ (p ∷ [])) ≡ written ps ++ (some p ∷ [])
written-append [] p = refl
written-append (q ∷ ps) p = ap (◌∷◌ (some q)) (written-append ps p)

set-set : {A : Type 0} (xs : List A) (i : ℕ) (x y : A) → set (set xs i x) i y ≡ set xs i y
set-set [] i x y = refl
set-set (z ∷ xs) zero x y = refl
set-set (z ∷ xs) (suc i) x y = ap (◌∷◌ z) (set-set xs i x y)

put-put : (arr : Arr Piece) (i : ℕ) (x y : Piece) → put (put arr i x) i y ≡ put arr i y
put-put arr i x y = ap (λ l. record arr { elems = l }) (set-set arr.elems i (some x) (some y))

-- A piece is being written: it is the last of the array.
pub record Busy (old : List (Option Piece)) (b n size : ℕ) (s : Cursor) (text : Bytes)
    (done : List Bytes) (current : Bytes) : Type 0 where
  pub slot : ℕ
  pub before : Arr Piece
  pub after : Arr Piece
  pub piece : Piece
  pub ps : List Piece
  pub appends : Appends before slot after
  pub roomy : Roomy b n after
  pub array : s.arr ≡ put after slot piece
  pub pointed : s.token ≡ some slot
  pub sized : piece.buf_len ≡ size + 1
  pub earlier : contents before ≡ old ++ written ps
  pub so_far : text_of ps ++ piece.bytes ≡ text
  pub ended : bytes_of ps ≡ done
  pub begun : piece.bytes ≡ current

-- No piece is being written.
pub record Holds (old : List (Option Piece)) (b n : ℕ) (arr : Arr Piece) (text : Bytes)
    (done : List Bytes) : Type 0 where
  pub ps : List Piece
  pub roomy : Roomy b n arr
  pub earlier : contents arr ≡ old ++ written ps
  pub so_far : text_of ps ≡ text
  pub ended : bytes_of ps ≡ done

Roomy-less : {b n : ℕ} {arr : Arr Piece} → Roomy b (suc n) arr → Roomy b n arr
Roomy-less r = record {
  valid = r.valid;
  small = r.small;
  capa = r.capa;
  bound = omega (arith, r.bound);
}

pub Busy-Holds :
    (old : List (Option Piece)) (b n size : ℕ) (s : Cursor) (text : Bytes) (done : List Bytes)
    (current : Bytes)
    → Busy old b n size s text done current
    → Holds old b n s.arr text (done ++ (current ∷ []))
Busy-Holds old b n size s text done current h = record {
  ended =
      bytes_of-append h.ps (h.piece ∷ [])
      ∙ ap (λ l. l ++ (h.piece.bytes ∷ [])) h.ended
      ∙ ap (λ w. done ++ (w ∷ [])) h.begun;
  ps = h.ps ++ (h.piece ∷ []);
  roomy = rw h.array (put-Roomy h.slot h.piece h.roomy);
  earlier =
      ap contents h.array
      ∙ h.appends.appended h.piece
      ∙ ap (λ l. l ++ (some h.piece ∷ [])) h.earlier
      ∙ append_assoc old (written h.ps) (some h.piece ∷ [])
      ∙ ap (λ l. old ++ l) (sym (written-append h.ps h.piece));
  so_far =
      text_of-append h.ps (h.piece ∷ [])
      ∙ ap (λ l. text_of h.ps ++ l) (append-nil h.piece.bytes)
      ∙ h.so_far;
}

pub Busy-less :
    (old : List (Option Piece)) (b n size : ℕ) (s : Cursor) (text : Bytes) (done : List Bytes)
    (current : Bytes)
    → Busy old b (suc n) size s text done current
    → Busy old b n size s text done current
Busy-less old b n size s text done current h = record {
  ended = h.ended;
  begun = h.begun;
  slot = h.slot;
  before = h.before;
  after = h.after;
  piece = h.piece;
  ps = h.ps;
  appends = h.appends;
  roomy = Roomy-less h.roomy;
  array = h.array;
  pointed = h.pointed;
  sized = h.sized;
  earlier = h.earlier;
  so_far = h.so_far;
}

-- a new piece behind what is there
pub new_piece-Busy :
    (malloc : Malloc) (old : List (Option Piece)) (b n size : ℕ) (arr : Arr Piece) (text : Bytes)
    (done : List Bytes)
    → ((k : ℕ) → malloc k ≡ true)
    → Holds old b (suc n) arr text done
    → (k : ℕ) × (arr' : Arr Piece) × (new_piece malloc arr (size + 1) ≡ some (k, arr'))
      × ((v : Bool)
          → Busy old b n size (record { arr = arr'; variable = v; token = some k }) text done [])
unfolding new_piece
new_piece-Busy malloc old b n size arr text done got h =
    let p = push-Pushes malloc h.roomy got in
    let fresh : Piece = record { bytes = []; buf_len = size + 1 } in
    (
      p.slot,
      put p.after p.slot fresh,
      rw (new_piece, p.pushed, got (size + 1)) refl,
      λ v. record {
        slot = p.slot;
        before = arr;
        after = p.after;
        piece = fresh;
        ps = h.ps;
        appends = p.appends;
        roomy = p.roomy;
        array = refl;
        pointed = refl;
        sized = refl;
        earlier = h.earlier;
        so_far = append-nil (text_of h.ps) ∙ h.so_far;
        ended = h.ended;
        begun = refl;
      },
    )

nth-put :
    (arr : Arr Piece) (i : ℕ) (x : Piece) → i < length arr.elems → Arr.nth (put arr i x) i ≡ some x
nth-put arr i x l = ap join (get_elem?-set_self arr.elems i (some x) l)

-- a byte more in the piece that is being written
pub append_chr-Busy :
    (old : List (Option Piece)) (b n size chr : ℕ) (s : Cursor) (text : Bytes) (done : List Bytes)
    (current : Bytes)
    → (h : Busy old b n size s text done current) → length text < size
    → (arr' : Arr Piece) × (append_chr chr h.slot s.arr ≡ some arr')
      × ((v : Bool) (t : Option ℕ)
          → t ≡ some h.slot
          → Busy old b n size
              (record { arr = arr'; variable = v; token = t })
              (text ++ (chr ∷ []))
              done
              (current ++ (chr ∷ [])))
unfolding append_chr
append_chr-Busy old b n size chr s text done current h room =
    let p' : Piece = record h.piece { bytes = h.piece.bytes ++ (chr ∷ []) } in
    let here : Arr.nth s.arr h.slot ≡ some h.piece =
      ap (λ a. Arr.nth a h.slot) h.array
      ∙ nth-put h.after h.slot h.piece (
          omega (
            arith, h.appends.valid.slots, h.appends.valid.in_block, h.appends.counted,
            h.appends.at_end,
          )) in
    let fits : ltb (suc (length h.piece.bytes)) h.piece.buf_len ≡ true =
      lt→ltb (suc (length h.piece.bytes)) h.piece.buf_len
        (omega (arith, h.sized, ap length h.so_far, length-append (text_of h.ps) h.piece.bytes)) in
    let array : put s.arr h.slot p' ≡ put h.after h.slot p' =
      ap (λ a. put a h.slot p') h.array ∙ put-put h.after h.slot h.piece p' in
    (
      put s.arr h.slot p',
      rw (append_chr, here, fits) refl,
      λ v t e. record {
        slot = h.slot;
        before = h.before;
        after = h.after;
        piece = p';
        ps = h.ps;
        appends = h.appends;
        roomy = h.roomy;
        array = array;
        pointed = e;
        sized = h.sized;
        earlier = h.earlier;
        so_far =
            sym (append_assoc (text_of h.ps) h.piece.bytes (chr ∷ []))
            ∙ ap (λ l. l ++ (chr ∷ [])) h.so_far;
        ended = h.ended;
        begun = ap (λ l. l ++ (chr ∷ [])) h.begun;
      },
    )
