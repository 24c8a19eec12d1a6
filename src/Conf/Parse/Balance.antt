-- ===== src/Conf/Parse/Balance.antt =====
-- The stack of open blocks behind a whole configuration.
use folksong.Prelude.{
  ℕ, zero, suc, ◌+◌, ◌*◌, ◌^◌, ◌≤◌, ◌<◌, ◌≡◌, refl, sym, ap, true, Option, none, some, List, [],
  ◌∷◌, length, Bytes, arith, subst,
}
use folksong.Arr.Push.{IsValid}
use folksong.Conf.{Conf, Mod}
use folksong.Conf.Handle.{handled, handle}
use folksong.Conf.Parse.{
  Status, parse_file, parse_block, parse_param, Result, returned, fault, out_of_fuel, at_end,
  with_source, parse,
}
use folksong.Conf.Parse.Printed.{
  Statement, Carries, finished, accepted, refused, undefined, text_of, words_in,
}
use folksong.Conf.Parse.Whole.{Reads, parse-Carries}
use folksong.Conf.Stack.{Leaves}
use folksong.Conf.Stack.Statement.{handle-Statement, is_ok-ok}
use folksong.Conf.Stack.Statement
use folksong.Lexer.RoundTrip.{End, semicolon, open_brace, close_brace, end_ret}
use folksong.Os.{Os}
use folksong.Run.Stack.{IsStack}
use folksong.Str.{Str, c_string}
use folksong.Token.{Ret, ok, error, pass, block_start, block_end, file_done_ret, is_ok}

-- how many blocks are open behind a statement; none where it closes one too many
abbrev pub after : ℕ → End → Option ℕ
after n semicolon = some n
after n open_brace = some (suc n)
after zero close_brace = none
after (suc n) close_brace = some n

abbrev pub open_after : ℕ → List Statement → Option ℕ
open_after n [] = some n
open_after n ((ws, e) ∷ stmts) = elim (after n e) [ none ↦ none | some m ↦ open_after m stmts ]

-- A configuration that is accepted leaves as many frames as its braces leave blocks open.
abbrev pub Balanced : {W : Type 0} → ℕ → List Statement → Result W → Type 0
Balanced n stmts (returned ok c) =
    (at : List ℕ) × IsStack c.run at × (open_after n stmts ≡ some (length at))
Balanced n stmts _ = Unit

after-length :
    (e : End) (at at' : List ℕ)
    → Statement.Statement (end_ret e) at at'
    → after (length at) e ≡ some (length at')
after-length semicolon at at' h = ap (λ l. some (length l)) (sym h)
after-length open_brace at at' (q, h) = ap (λ l. some (length l)) (sym h)
after-length close_brace [] at' (q, h) = absurd (ground (arith, h))
after-length close_brace (x ∷ at) at' (q, h) = ground (arith, h)

after-le : (n m : ℕ) (e : End) → after n e ≡ some m → m ≤ suc n
after-le n m semicolon h = ground arith
after-le n m open_brace h = ground arith
after-le zero m close_brace h = ground arith
after-le (suc n) m close_brace h = ground arith

module _ {W : Type 0} (os : Os) (mods : List (Mod W)) (status : Status) where
  taken :
      (e : End) (c c' : Conf W) (ret : Ret) (at : List ℕ)
      → IsStack c.run at
      → suc (length at) < 2 ^ 32
      → handle os mods (end_ret e) c ≡ handled ret c'
      → is_ok ret ≡ true
      → (at' : List ℕ) × IsStack c'.run at' × (after (length at) e ≡ some (length at'))
  taken e c c' ret at s room h fine =
      let left : Leaves (Statement.Statement (end_ret e) at) (handled ret c') =
        subst (Leaves (Statement.Statement (end_ret e) at)) h
          (handle-Statement os mods (end_ret e) c at s room) in
      let (at', s', kept) =
        subst (λ r. Leaves (Statement.Statement (end_ret e) at) (handled r c')) (is_ok-ok ret fine)
          left in
      (at', s', after-length e at at' kept)

  Balanced-step :
      (n m : ℕ) (ws : List Bytes) (e : End) (stmts : List Statement) (r : Result W)
      → after n e ≡ some m
      → Balanced m stmts r
      → Balanced n ((ws, e) ∷ stmts) r
  Balanced-step n m ws e stmts (returned ok c) a (at, s, h) = (at, s, rw (a, open_after) h)
  Balanced-step n m ws e stmts (returned error c) a b = tt
  Balanced-step n m ws e stmts (returned pass c) a b = tt
  Balanced-step n m ws e stmts (returned block_start c) a b = tt
  Balanced-step n m ws e stmts (returned block_end c) a b = tt
  Balanced-step n m ws e stmts (returned file_done_ret c) a b = tt
  Balanced-step n m ws e stmts fault a b = tt
  Balanced-step n m ws e stmts out_of_fuel a b = tt

  ended-Balanced :
      (st : Status) (c : Conf W) (at : List ℕ)
      → IsStack c.run at
      → Balanced (length at) [] (returned (at_end st) c)
  ended-Balanced parse_file c at s = (at, s, refl)
  ended-Balanced parse_block c at s = tt
  ended-Balanced parse_param c at s = (at, s, refl)

  Carries-Balanced :
      {c : Conf W} {stmts : List Statement} {r : Result W}
      → Carries os mods status c stmts r
      → (at : List ℕ) → IsStack c.run at
      → length at + length stmts + 1 < 2 ^ 32
      → Balanced (length at) stmts r
  Carries-Balanced {c} (finished s e) at k l =
      ended-Balanced status (with_source os mods status c s) at k
  Carries-Balanced {c} (accepted {c'} {ws} {e} {stmts} {r} s ret held h fine rest) at k l =
      let (at', k', a) =
        taken e (with_source os mods status c s) c' ret at k (omega arith) h fine in
      Balanced-step (length at) (length at') ws e stmts r a
        (Carries-Balanced rest at' k' (omega (arith, after-le (length at) (length at') e a)))
  Carries-Balanced (refused s ret held h failed) at k l = tt
  Carries-Balanced (undefined s held h) at k l = tt

module _ {W : Type 0} (os : Os) (mods : List (Mod W)) where
  -- A configuration file of double-quoted statements that is accepted, and fits the buffer, closes no
  -- block that is not open, and leaves as many frames on the stack as its braces leave blocks open,
  -- whatever the modules' handlers do.
  pub parse-Balanced :
      (c : Conf W) (stmt : Statement) (stmts : List Statement) (fuel : ℕ) (filename : Str)
      (at : List ℕ)
      → ((n : ℕ) → os.malloc n ≡ true)
      → IsValid c.source.tokens
      → c.source.tokens.ele_size ≤ 2 ^ 32
      → c.source.tokens.ele_capa + 2 * words_in (stmt ∷ stmts) < 2 ^ 30
      → length (stmt ∷ stmts) < fuel
      → os.opens (c_string filename.mem) ≡ true
      → Reads os (text_of (stmt ∷ stmts))
      → IsStack c.run at
      → length at + length (stmt ∷ stmts) + 1 < 2 ^ 32
      → Balanced (length at) (stmt ∷ stmts) (parse os mods fuel c (some filename))
  parse-Balanced c stmt stmts fuel filename at got valid small room l there r s deep =
      Carries-Balanced os mods parse_file
        (parse-Carries os mods got c stmt stmts valid small room fuel filename l there r) at s deep
