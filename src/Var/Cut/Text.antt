-- ===== src/Var/Cut/Text.antt =====
-- What `fs_var_parse` makes of a text.
use folksong.Prelude.{
  subst, ℕ, ◌+◌, ◌≤◌, ◌≡◌, refl, sym, ◌∙◌, Bool, true, false, Option, none, some, List, [], ◌∷◌,
  ◌++◌, length, Bytes, arith, append-nil, append_assoc, length-append,
}
use folksong.Arr.{Arr, Malloc}
use folksong.Arr.Push.{contents, IsValid}
use folksong.Arr.Grow.{Roomy}
use folksong.Var.{Piece, Cursor, Parsed, parsed, var_error, fault, step, next, loop, parse}
use folksong.Var.Cut.Pieces.{at_end, after_chr, balanced, tail_of, pieces_from, pieces_of}
use folksong.Var.Cut.Step.{Live, Live-Holds, StepSpec, step-StepSpec}
use folksong.Var.Cut.{bytes_of, text_of, written}

-- An array with the pieces of the text behind what it held, which make it up; an error just where the braces are not
-- balanced; and no undefined behaviour.
abbrev pub CutSpec : List (Option Piece) → Bool → List Bytes → Bytes → Parsed → Type 0
CutSpec old good pieces whole (parsed arr) =
    (good ≡ true)
    × IsValid arr
    × ((ps : List Piece) × (contents arr ≡ old ++ written ps)
        × (bytes_of ps ≡ pieces)
        × (text_of ps ≡ whole))
CutSpec old good pieces whole var_error = good ≡ false
CutSpec old good pieces whole fault = ⊥

module _ (malloc : Malloc) (old : List (Option Piece)) (b size : ℕ)
    (got : (k : ℕ) → malloc k ≡ true) where
  next-CutSpec :
      (n chr : ℕ) (text cs : Bytes) (done : List Bytes) (view : Option Bytes) (o : Option Bool)
      (p : Option (Option Cursor))
      → StepSpec malloc old b size got n chr text done view o p
      → ((s' : Cursor) (done' : List Bytes) (view' : Option Bytes)
          → Live malloc old b size got n s' (text ++ (chr ∷ [])) done' view'
          → CutSpec old
              (balanced s'.variable cs)
              (done' ++ pieces_from view' (tail_of cs))
              (text ++ (chr ∷ cs))
              (loop malloc size cs s'))
      → CutSpec old
          (elim o [ none ↦ false | some v ↦ balanced v cs ])
          (done ++ pieces_from view (tail_of (chr ∷ cs)))
          (text ++ (chr ∷ cs))
          (next malloc size (loop malloc size cs) p)
  next-CutSpec n chr text cs done view none p e ih = rw e refl
  next-CutSpec n chr text cs done view (some v) p (s', e, same, (done', view', h, prospect)) ih =
      rw (e, sym (prospect cs))
        (subst
          (λ v'.
            CutSpec old (balanced v' cs) (done' ++ pieces_from view' (tail_of cs))
              (text ++ (chr ∷ cs)) (loop malloc size cs s'))
          same (ih s' done' view' h))

  loop-CutSpec :
      (cs : Bytes) (s : Cursor) (text : Bytes) (done : List Bytes) (view : Option Bytes)
      → Live malloc old b size got (length cs) s text done view
      → length text + length cs ≤ size
      → CutSpec old
          (balanced s.variable cs)
          (done ++ pieces_from view (tail_of cs))
          (text ++ cs)
          (loop malloc size cs s)
  unfolding loop
  loop-CutSpec [] s text done view live room =
      let h = Live-Holds malloc old b size got 0 s text done view live in
      (
        refl,
        h.roomy.valid,
        (h.ps, h.earlier, h.ended ∙ at_end done view, h.so_far ∙ sym (append-nil text)),
      )
  loop-CutSpec (c ∷ cs) s text done view live room =
      next-CutSpec (length cs) c text cs done view (after_chr s.variable c) (step malloc size c s)
        (step-StepSpec malloc old b size got (length cs) c s text done view live (omega arith))
        λ s' done' view' h. rw (sym (append_assoc text (c ∷ []) cs)) (
          loop-CutSpec cs s' (text ++ (c ∷ [])) done' view' h
            (omega (arith, length-append text (c ∷ []))))

-- While memory lasts, and for an array with room for as many pieces as the text has bytes, a text is cut,
-- behind what the array held, into the pieces that its dollars begin and its closing braces end, read off
-- the text from its end, and these make it up; it is refused exactly where a brace stands outside a variable,
-- and nothing is written outside a piece's block.
pub parse-CutSpec :
    {b : ℕ} (malloc : Malloc) (arr : Arr Piece) (text : Bytes)
    → ((k : ℕ) → malloc k ≡ true)
    → Roomy b (length text) arr
    → CutSpec (contents arr) (balanced false text) (pieces_of text) text (parse malloc arr text)
unfolding parse
parse-CutSpec {b} malloc arr text got r =
    loop-CutSpec malloc (contents arr) b (length text) got text
      (record { arr = arr; variable = false; token = none }) [] [] none
      (
        record {
          ps = [];
          roomy = r;
          earlier = sym (append-nil (contents arr));
          so_far = refl;
          ended = refl;
        },
        refl,
        refl,
      )
      (omega arith)
