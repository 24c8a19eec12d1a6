-- ===== src/Lexer/Rounds.antt =====
-- Rounds of the lexer over bytes that are in the buffer already.
use folksong.Prelude.{
  ℕ, suc, ◌+◌, ◌%◌, ◌^◌, ◌≡◌, ◌∙◌, ap, none, some, ◌∷◌, ◌++◌, arith, ◌==◌, if◌then◌else◌, length,
  drop, Bytes, get_elem?-drop,
}
use folksong.Os.{Os}
use folksong.File.{File, buf_lshift}
use folksong.Token.{Scan, go, step}
use folksong.Lexer.{
  Source, refill, next_byte, act, with_byte, read_round, resume, round, carry, scan,
}

-- the file behind one byte, and behind several
abbrev pub shifted : ℕ → File → File
shifted c f = record f {
  buf = record f.buf { pos = f.buf.pos + 1 };
  line = if c == b'\n' then (f.line + 1) % 2 ^ 32 else f.line;
}

-- `text` stands in the buffer from `pos` up to `last`; what stands behind is never read.
pub record Holds (f : File) (text : Bytes) : Type 0 where
  pub slack : Bytes
  pub here : drop f.buf.pos f.buf.mem ≡ text ++ slack
  pub whole : f.buf.last ≡ f.buf.pos + length text

module _ {f : File} {c : ℕ} {rest : Bytes} (h : Holds f (c ∷ rest)) where
  pub shifted-Holds : Holds (shifted c f) rest
  shifted-Holds = record {
    here =
        let next : f.buf.pos + 1 ≡ suc f.buf.pos = omega arith in
        ap (λ n. drop n f.buf.mem) next
        ∙ (get_elem?-drop f.buf.pos f.buf.mem c (rest ++ h.slack) h.here).1;
    whole = omega (arith, h.whole);
    slack = h.slack;
  }

  next_byte-shifted : next_byte f ≡ some (c, shifted c f)
  unfolding next_byte buf_lshift
  next_byte-shifted =
      rw ((get_elem?-drop f.buf.pos f.buf.mem c (rest ++ h.slack) h.here).0, next_byte, buf_lshift)

  refill-none : (os : Os) → refill os f ≡ (none, f)
  unfolding refill
  refill-none os = ground (arith, h.whole)

-- A round on a byte in the buffer is a step of the machine.
pub round-act :
    (os : Os) (s : Scan) (c : Source) (b : ℕ) (rest : Bytes)
    → Holds c.file (b ∷ rest)
    → round os s c ≡ act os (step s (c.file.buf.pos + 1) b) b (record c { file = shifted b c.file })
unfolding round read_round
round-act os s c b rest h =
    ap (resume os s c) (refill-none h os) ∙ ap (with_byte os s c) (next_byte-shifted h)

pub scan-suc :
    (os : Os) (k : ℕ) (s : Scan) (c : Source) (b : ℕ) (rest : Bytes)
    → Holds c.file (b ∷ rest)
    → scan os (suc k) s c
      ≡ carry
          (scan os k)
          (act os (step s (c.file.buf.pos + 1) b) b (record c { file = shifted b c.file }))
unfolding scan
scan-suc os k s c b rest h = ap (carry (scan os k)) (round-act os s c b rest h)

-- A byte that the machine goes on from.
pub scan-go :
    (os : Os) (k : ℕ) (s s' : Scan) (c : Source) (b : ℕ) (rest : Bytes)
    → Holds c.file (b ∷ rest)
    → step s (c.file.buf.pos + 1) b ≡ go s'
    → scan os (suc k) s c ≡ scan os k s' (record c { file = shifted b c.file })
unfolding act
scan-go os k s s' c b rest h e = scan-suc os k s c b rest h ∙ rw e
