-- ===== src/Proxy/Url.antt =====
-- The path of a plain piece with variables behind it.
use folksong.Prelude.{
  ℕ, ◌+◌, ◌-◌, ◌%◌, ◌^◌, ◌≤◌, ◌<◌, ◌≡◌, refl, sym, ap, ◌∙◌, true, false, Option, none, some, List,
  [], ◌∷◌, ◌++◌, ◌==◌, leb, ltb, length, take, drop, replicate, Bytes, arith, length-append,
  length-replicate, take-length_append, take_all, append-nil, append_assoc, joined,
}
use folksong.Arr.{Arr}
use folksong.Http.{Block, Req, null_block, overlay, write_text}
use folksong.Http.Append.{write_text-overlay}
use folksong.Http.Message.Collect.{overlay_all}
use folksong.Os.{Os}
use folksong.Proxy.{
  Pcre, Proxy, str_of, add_plain, add_value, value_of, add_found, variable_compile, add_piece,
  add_pieces, path_prefix, set_next_path,
}
use folksong.Proxy.Path.{
  Lists, count, dollar, Plain, add_list, add_pieces-add_list, add_piece-dollar, add_piece-Plain,
}
use folksong.Publisher.Request.{memory}
use folksong.Publisher.Request.Body.{overlay_end}
use folksong.Str.{c_string, str_cmp}
use folksong.Var.{Piece}

-- The block starts with `text`, and has at most one byte more.
pub record Holds (b : Block) (text : Bytes) : Type 0 where
  pub slack : Bytes
  pub base : b.base ≡ some (text ++ slack)
  pub at_most : length slack ≤ 1
  pub len : b.len ≡ length text

leb-true : (m n : ℕ) → m ≤ n → leb m n ≡ true
leb-true m n h = ground arith

abbrev pub text_of : Option Bytes → Bytes
text_of none = []
text_of (some v) = v

module _ {Re : Type 0} (pcre : Pcre Re) (os : Os) where
  -- a `${path_...}` whose name is short enough, and its value for a request
  pub record Variable (p : Proxy Re) (r : Req) (piece : Piece) (value : Bytes) : Type 0 where
    pub starts : dollar piece.bytes ≡ true
    pub prefixed : str_cmp (str_of piece) (path_prefix pcre os) ≡ true
    pub named : 7 < length piece.bytes
    pub short : length piece.bytes < 136
    pub found : Option Bytes
    pub looked_up :
        value_of pcre os p r
          (c_string (take (length piece.bytes - 7 - 1) (drop 7 (piece.bytes ++ (0 ∷ [])))))
        ≡ some found
    pub same_text : value ≡ text_of found

  add_plain-Holds :
      (piece : Piece)
      → ((k : ℕ) → os.malloc k ≡ true)
      → (b : Block) × (add_plain pcre os null_block (str_of piece) ≡ some b) × Holds b piece.bytes
  unfolding add_plain
  add_plain-Holds piece got =
      let text = piece.bytes in
      let fresh = replicate (length text + 1) os.fill in
      let size : length fresh ≡ length text + 1 = length-replicate (length text + 1) os.fill in
      let window : take (length text) (text ++ (0 ∷ [])) ≡ text =
        take-length_append text (0 ∷ []) in
      let w : write_text fresh 0 text ≡ some (text ++ (0 ∷ [])) =
        write_text-overlay fresh 0 text (omega arith)
        ∙ ap {B = Option Bytes} some
            (overlay_all fresh (text ++ (0 ∷ [])) (size ∙ sym (length-append text (0 ∷ [])))) in
      let b : Block = record { base = some (text ++ (0 ∷ [])); len = 0 + length text } in
      (
        b,
        rw (add_plain, got (length text + 1), window, w) refl,
        record { slack = 0 ∷ []; base = refl; at_most = omega arith; len = omega arith },
      )

  add_value-Holds :
      (b : Block) (text : Bytes) (c : ℕ) (cs : Bytes)
      → ((k : ℕ) → os.malloc k ≡ true)
      → Holds b text
      → length text + length (c ∷ cs) < 2 ^ 64
      → (b' : Block) × (add_value pcre os b (c ∷ cs) ≡ some b') × Holds b' (text ++ (c ∷ cs))
  unfolding add_value
  add_value-Holds b text c cs got h small =
      let n = length (c ∷ cs) in
      let old = text ++ h.slack in
      let len = (b.len + n) % 2 ^ 64 in
      let mem = take len old ++ replicate (len - length old) os.fill in
      let rest = replicate (len - length old) os.fill in
      let sizes = length-append text h.slack in
      let whole : take len old ≡ old = take_all len old (omega (arith, h.at_most, h.len)) in
      let size : length mem ≡ length text + n = omega (
        arith,
        h.len,
        h.at_most,
        ap length whole,
        length-append (take len old) rest,
        length-replicate (len - length old) os.fill,
      ) in
      let kept : take b.len mem ≡ text =
        ap (λ l. take b.len (l ++ rest)) whole
        ∙ ap (λ l. take b.len l) (append_assoc text h.slack rest)
        ∙ ap (λ k. take k (text ++ (h.slack ++ rest))) h.len
        ∙ take-length_append text (h.slack ++ rest) in
      let room : leb (b.len + n) (length mem) ≡ true =
        leb-true (b.len + n) (length mem) (omega (arith, size, h.len)) in
      let put : overlay mem b.len (c ∷ cs) ≡ text ++ (c ∷ cs) =
        overlay_end mem text (c ∷ cs) b.len h.len size kept in
      let b' : Block = record { base = some (overlay mem b.len (c ∷ cs)); len = b.len + n } in
      (
        b',
        rw (add_value, h.base, got len, room) refl,
        record {
          slack = [];
          base = ap {B = Option Bytes} some (put ∙ sym (append-nil (text ++ (c ∷ cs))));
          at_most = omega arith;
          len = omega (arith, h.len, length-append text (c ∷ cs));
        },
      )

  add_found-Holds :
      (b : Block) (text : Bytes) (o : Option Bytes)
      → ((k : ℕ) → os.malloc k ≡ true)
      → Holds b text
      → length text + length (text_of o) < 2 ^ 64
      → (b' : Block) × (add_found pcre os b (some o) ≡ some b') × Holds b' (text ++ text_of o)
  add_found-Holds b text none got h small = (b, refl, rw (append-nil text) h)
  add_found-Holds b text (some []) got h small = (b, refl, rw (append-nil text) h)
  add_found-Holds b text (some (c ∷ cs)) got h small = add_value-Holds b text c cs got h small

  add_piece-Variable :
      (p : Proxy Re) (r : Req) (piece : Piece) (value : Bytes) (b : Block)
      → (v : Variable p r piece value)
      → add_piece pcre os p r (str_of piece) b ≡ add_found pcre os b (some v.found)
  unfolding variable_compile
  add_piece-Variable p r piece value b v =
      let compile : variable_compile pcre os p r (str_of piece) b
          ≡ add_found pcre os b (some v.found) =
        let long : ltb (length piece.bytes) 8 ≡ false = ground (arith, v.named) in
        let fits : ltb (length piece.bytes - 7 - 1) 128 ≡ true = ground (arith, v.short) in
        rw (variable_compile, v.prefixed, long, fits, v.looked_up) refl in
      add_piece-dollar pcre os p r piece.bytes b ∙ rw v.starts compile

  abbrev pub AllVariables : Proxy Re → Req → List Piece → List Bytes → Type 0
  AllVariables p r [] [] = Unit
  AllVariables p r (piece ∷ ps) (v ∷ vs) = Variable p r piece v × AllVariables p r ps vs
  AllVariables p r _ _ = ⊥

  add_list-Holds :
      (p : Proxy Re) (r : Req) (ps : List Piece) (vs : List Bytes) (b : Block) (text : Bytes)
      → ((k : ℕ) → os.malloc k ≡ true)
      → AllVariables p r ps vs
      → Holds b text
      → length text + length (joined vs) < 2 ^ 64
      → (b' : Block) × (add_list pcre os p r ps b ≡ some b') × Holds b' (text ++ joined vs)
  add_list-Holds p r [] [] b text got a h small = (b, refl, rw (append-nil text) h)
  add_list-Holds p r [] (v ∷ vs) b text got a h small = absurd a
  add_list-Holds p r (piece ∷ ps) [] b text got a h small = absurd a
  add_list-Holds p r (piece ∷ ps) (v ∷ vs) b text got (var, a) h small =
      let sizes = length-append v (joined vs) in
      let (b1, e1, h1) =
        add_found-Holds b text var.found got h (omega (arith, ap length var.same_text)) in
      let h1' : Holds b1 (text ++ v) = rw var.same_text h1 in
      let (b2, e2, h2) =
        add_list-Holds p r ps vs b1 (text ++ v) got a h1' (omega (arith, length-append text v)) in
      (
        b2,
        rw (add_list, add_piece-Variable p r piece v b var, e1) e2,
        rw (sym (append_assoc text v (joined vs))) h2,
      )

  -- While memory lasts, the path of a plain piece with variables behind it, whose names fit and whose values
  -- libpcre has, is the piece with the values behind each other.
  pub set_next_path-joined :
      (p : Proxy Re) (r : Req) (arr : Arr Piece) (one : Piece) (ps : List Piece) (vs : List Bytes)
      → ((k : ℕ) → os.malloc k ≡ true)
      → p.pass_path ≡ some arr
      → arr.ele_count ≡ count (one ∷ ps)
      → Lists 0 arr (one ∷ ps)
      → Plain one
      → AllVariables p r ps vs
      → length one.bytes + length (joined vs) < 2 ^ 64
      → (b : Block) × (set_next_path pcre os p r
          ≡ some (record { block = b; size = length (one.bytes ++ joined vs) }))
        × (take (length (one.bytes ++ joined vs)) (memory b.base) ≡ one.bytes ++ joined vs)
  unfolding set_next_path
  set_next_path-joined p r arr one ps vs got here counted h plain a small =
      let (b1, e1, h1) = add_plain-Holds one got in
      let (b2, e2, h2) = add_list-Holds p r ps vs b1 one.bytes got a h1 small in
      let first : add_piece pcre os p r (str_of one) null_block ≡ some b1 =
        add_piece-Plain pcre os p r one null_block plain ∙ e1 in
      let list : add_list pcre os p r (one ∷ ps) null_block ≡ some b2 = rw (add_list, first) e2 in
      let loop : add_pieces pcre os p r arr.ele_count 0 arr null_block ≡ some b2 =
        ap (λ k. add_pieces pcre os p r k 0 arr null_block) counted
        ∙ add_pieces-add_list pcre os p r (one ∷ ps) 0 arr null_block h
        ∙ list in
      let some_piece : (arr.ele_count == 0) ≡ false = ground (arith, counted) in
      (
        b2,
        rw (set_next_path, here, some_piece, loop, h2.len) refl,
        ap (λ o. take (length (one.bytes ++ joined vs)) (memory o)) h2.base
            ∙ take-length_append (one.bytes ++ joined vs) h2.slack,
      )
