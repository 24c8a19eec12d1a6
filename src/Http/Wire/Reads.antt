-- ===== src/Http/Wire/Reads.antt =====
-- Messages that come in several reads.
use folksong.Prelude.{
  Bool, Bool-cases, ℕ, zero, suc, ◌+◌, ◌^◌, ◌<◌, ◌≡◌, refl, sym, ap, ◌∙◌, true, false, Option, none,
  some, List, [], ◌∷◌, ◌++◌, if◌then◌else◌, ltb, length, lt→ltb, joined, get_elem?, Bytes, arith,
  Option-cases, inl, inr,
}
use folksong.Arr.{Malloc}
use folksong.Http.{Req, new_req}
use folksong.Http.Message.{Event, Route, Conn, on_event, run, serve}
use folksong.Http.Message.Answer.{Lawful, Answered, message, serve-Answered}
use folksong.Http.Wire.{
  Parser, Wire, res_writed_cb, written, all_written, parsed, close, readed_cb, reads, accepted,
  chunk, read_alloc_cb,
}
use folksong.Os.{Os}

-- The parser takes every byte of the reads, and these are the callbacks that it makes.
pub data Parses {P : Type 0} (parser : Parser P) : P → List Bytes → List Event → Type 0 where
  ended : {p : P} → Parses parser p [] []
  more :
      {p p' : P} {at : Bytes} {ats : List Bytes} {es fs : List Event}
      → parser.execute p at ≡ (p', es, length at)
      → Parses parser p' ats fs
      → Parses parser p (at ∷ ats) (es ++ fs)

module _ {S : Type 0} (os : Os) (routes : List (Route S)) where
  abbrev runs_on : List Event → Option (Conn S) → Option (Conn S)
  runs_on fs none = none
  runs_on fs (some c) = run os routes fs c

  run-append :
      (es fs : List Event) (c : Conn S)
      → run os routes (es ++ fs) c ≡ runs_on fs (run os routes es c)
  unfolding run
  run-append [] fs c = refl
  run-append (ev ∷ es) fs c = elim (Option-cases (on_event os routes ev c)) [
    | inl fault ↦ rw (run, fault)
    | inr (c1, e) ↦ rw (run, e) (run-append es fs c1)
  ]

  run-split :
      (es fs : List Event) (c c' : Conn S)
      → run os routes (es ++ fs) c ≡ some c'
      → (c1 : Conn S) × (run os routes es c ≡ some c1) × (run os routes fs c1 ≡ some c')
  run-split es fs c c' e = elim (Option-cases (run os routes es c)) [
    | inl fault ↦ let a = run-append es fs c in absurd (cc (a, fault, e))
    | inr (c1, e1) ↦ (c1, e1, rw e1 at (sym (run-append es fs c) ∙ e))
  ]

  not_less : (n : ℕ) → ltb n n ≡ false
  not_less n = ground arith

  module _ {P : Type 0} (parser : Parser P) where
    readed_cb-parsed :
        (at : Bytes) (p : P) (es : List Event) (n : ℕ) (w : Wire P S) (c : Conn S)
        → parser.execute w.parser at ≡ (p, es, n)
        → run os routes es w.conn ≡ some c
        → readed_cb os routes parser (chunk at) w ≡ (
            let w' = record w { parser = p; conn = c } in
            some (if ltb n (length at) then close w' else w'))
    unfolding readed_cb
    readed_cb-parsed at p es n w c x e = ap (λ t. parsed os routes at t w) x ∙ rw (parsed, e) refl

    read_alloc_cb-buf :
        (malloc : Malloc) (size : ℕ) (w : Wire P S)
        → (b : Bool) × (n : ℕ) × (read_alloc_cb malloc size w
            ≡ record w { has_buf = b; buf_len = n })
    unfolding read_alloc_cb
    read_alloc_cb-buf malloc size w = elim (Bool-cases w.has_buf) [
      | inl had ↦ (w.has_buf, w.buf_len, rw (read_alloc_cb, had) refl)
      | inr none_yet ↦ (malloc size, size, rw (read_alloc_cb, none_yet) refl)
    ]

    reads-step :
        (size : ℕ) (at : Bytes) (ats : List Bytes) (w w' : Wire P S)
        → readed_cb os routes parser (chunk at) (read_alloc_cb os.malloc size w) ≡ some w'
        → reads os size routes parser (at ∷ ats) w ≡ reads os size routes parser ats w'
    unfolding reads
    reads-step size at ats w w' e =
        ap
          (λ (o : Option (Wire P S)). elim o [
            | none ↦ none
            | some x ↦ reads os size routes parser ats x
          ])
          e

    -- Reads that the parser takes make of the connection what their callbacks make, and do not close it.
    reads-run :
        (size : ℕ) (ats : List Bytes) (es : List Event) (w : Wire P S) (c' : Conn S)
        → Parses parser w.parser ats es
        → run os routes es w.conn ≡ some c'
        → (w' : Wire P S) × (reads os size routes parser ats w ≡ some w')
          × (w'.conn ≡ c')
          × (w'.closes ≡ w.closes)
    unfolding reads run
    reads-run size _ _ w c' ended e = (w, refl, cc, refl)
    reads-run size _ _ w c' (more {p'} {at} {ats} {es} {fs} x ps) e =
        let (b, n, a) = read_alloc_cb-buf os.malloc size w in
        let (c1, e1, e2) = run-split es fs w.conn c' e in
        let (w', r, same_conn, same_count) =
          reads-run size ats fs (record w { parser = p'; conn = c1; has_buf = b; buf_len = n }) c'
            ps e2 in
        let first =
          readed_cb-parsed at p' es (length at) (record w { has_buf = b; buf_len = n }) c1 x e1 in
        let step =
          ap (readed_cb os routes parser (chunk at)) a ∙ first ∙ rw (not_less (length at)) refl in
        (w', reads-step size at ats w _ step ∙ r, same_conn, same_count)

    written-closes : (n : ℕ) (w : Wire P S) → (written n w).closes ≡ w.closes + n
    unfolding written res_writed_cb
    written-closes zero w = omega arith
    written-closes (suc n) w = omega (arith, written-closes n (close w))

    -- Where the parser stops inside a read, which the server closes the connection for, `uv_close` is called
    -- once more for every response that was written, when its write is over: twice, where a message was
    -- complete.
    pub readed_cb-stopped :
        (at : Bytes) (p : P) (es : List Event) (n : ℕ) (w : Wire P S) (c : Conn S)
        → parser.execute w.parser at ≡ (p, es, n)
        → n < length at
        → run os routes es w.conn ≡ some c
        → (w' : Wire P S) × (readed_cb os routes parser (chunk at) w ≡ some w')
          × ((all_written w').closes ≡ w.closes + 1 + length c.responses)
    readed_cb-stopped at p es n w c x short e =
        let w' : Wire P S = record w { parser = p; conn = c } in
        (
          close w',
          rw (readed_cb-parsed at p es n w c x e, lt→ltb n (length at) short) refl,
          written-closes (length c.responses) (close w'),
        )

    -- what becomes of a message that came in reads
    pub record Served (path : Bytes) (hs : List (Bytes × Bytes)) (bodies : List Bytes)
        (o : Option (Wire P S)) : Type 0 where
      pub after : Wire P S
      pub ends : o ≡ some after
      pub answered : Answered routes path hs bodies (some after.conn)
      pub closed_once : (all_written after).closes ≡ 1

    pub reads-Served :
        (size : ℕ) (path : Bytes) (hs : List (Bytes × Bytes)) (bodies reads' : List Bytes) (p : P)
        (r : Req)
        → ((k : ℕ) → os.malloc k ≡ true)
        → ((i : ℕ) (route : Route S) → get_elem? routes i ≡ some route → Lawful route)
        → length hs < 2 ^ 28
        → length (joined bodies) < 2 ^ 64
        → Parses parser p reads' (message path hs bodies)
        → new_req os ≡ some r
        → Served path hs bodies (reads os size routes parser reads' (accepted p r))
    unfolding serve
    reads-Served size path hs bodies reads' p r got laws few small ps made =
        let a = serve-Answered os routes path hs bodies got laws few small in
        let ran : run os routes (message path hs bodies) (accepted {S = S} p r).conn
            ≡ some a.after =
          rw (serve, made) at a.ends in
        let (w, ends, same_conn, count) =
          reads-run size reads' (message path hs bodies) (accepted p r) a.after ps ran in
        let one : length w.conn.responses ≡ 1 =
          ap (λ c. length c.responses) same_conn ∙ ap length a.one in
        record {
          after = w;
          ends = ends;
          answered = record {
            after = a.after;
            ends = ap {B = Option (Conn S)} some same_conn;
            code = a.code;
            one = a.one;
            collected = a.collected;
            chosen = a.chosen;
            source = a.source;
            kept = a.kept;
          };
          closed_once = omega (arith, written-closes (length w.conn.responses) w, count, one);
        }
