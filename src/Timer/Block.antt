-- ===== src/Timer/Block.antt =====
-- A whole `timer` block of mod/fs_mod_timer.c: its statements and its end.
use folksong.Prelude.{
  ◌≢◌, ◌≡◌, refl, true, false, none, some, List, [], ◌∷◌, arith, ltb, Option-cases, inl, inr,
}
use folksong.Args
use folksong.Args.Overrun.{build-slots}
use folksong.Arr.{Arr, Malloc}
use folksong.Str.{Str}
use folksong.Timer.{Timer, Answer, fresh, timeout_call, repeat_call, exec_call, init_mod_completed}
use folksong.Token.{ok, error, pass, block_start, block_end, file_done_ret}

-- the statements that the module has, of any words
pub data Statement : Type 0 where
  timeout repeat exec : Arr Str → Statement

-- behind a handler: `fs_conf_parse` ends at the first that is not FS_CONF_OK
abbrev pub goes_on : Answer → (Timer → Answer) → Answer
goes_on none f = none
goes_on (some (ok, t)) f = f t
goes_on (some (ret, t)) f = some (ret, t)

module _ (malloc : Malloc) where
  abbrev pub call : Statement → Timer → Answer
  call (timeout tokens) t = timeout_call true tokens t
  call (repeat tokens) t = repeat_call true tokens t
  call (exec tokens) t = exec_call malloc true tokens t

  -- the statements of a block, as long as they are taken, and its end
  abbrev pub configure : List Statement → Timer → Answer
  configure [] t = some (init_mod_completed t, t)
  configure (s ∷ ss) t = goes_on (call s t) (configure ss)

  -- The NULL behind the words is always written behind the block.
  exec_call-fault : (tokens : Arr Str) (t : Timer) → exec_call malloc true tokens t ≡ none
  unfolding exec_call
  exec_call-fault tokens t = elim (Option-cases (Args.build malloc tokens)) [
    | inl fault ↦ rw (exec_call, fault) refl
    | inr (a, e) ↦
        let outside : ltb tokens.ele_count a.slots ≡ false =
          ground (arith, build-slots malloc tokens a e) in
        rw (exec_call, e, outside) refl
  ]

  -- a handler that leaves the timer without a program, or no defined behaviour
  abbrev pub Unarmed : Answer → Type 0
  Unarmed none = Unit
  Unarmed (some (ret, t)) = t.cb_flag ≡ false

  call-Unarmed : (s : Statement) (t : Timer) → t.cb_flag ≡ false → Unarmed (call s t)
  unfolding timeout_call repeat_call
  call-Unarmed (timeout tokens) t e = ground arith
  call-Unarmed (repeat tokens) t e = ground arith
  call-Unarmed (exec tokens) t e = rw (exec_call-fault tokens t) tt

  abbrev pub NotAccepted : Answer → Type 0
  NotAccepted none = Unit
  NotAccepted (some (ret, t)) = ret ≢ ok

  goes_on-NotAccepted :
      (o : Answer) (f : Timer → Answer)
      → Unarmed o
      → ((t : Timer) → t.cb_flag ≡ false → NotAccepted (f t))
      → NotAccepted (goes_on o f)
  goes_on-NotAccepted none f u ih = tt
  goes_on-NotAccepted (some (ok, t)) f u ih = ih t u
  goes_on-NotAccepted (some (error, t)) f u ih = λ e. cc
  goes_on-NotAccepted (some (pass, t)) f u ih = λ e. cc
  goes_on-NotAccepted (some (block_start, t)) f u ih = λ e. cc
  goes_on-NotAccepted (some (block_end, t)) f u ih = λ e. cc
  goes_on-NotAccepted (some (file_done_ret, t)) f u ih = λ e. cc

  configure-NotAccepted :
      (ss : List Statement) (t : Timer) → t.cb_flag ≡ false → NotAccepted (configure ss t)
  unfolding init_mod_completed
  configure-NotAccepted [] t e = ground arith
  configure-NotAccepted (s ∷ ss) t e =
      goes_on-NotAccepted (call s t) (configure ss) (call-Unarmed s t e) (configure-NotAccepted ss)

  -- No `timer` block is accepted with defined behaviour, whatever its `timeout`, `repeat` and `exec`
  -- statements and whatever memory there is: its end asks for a program, and `exec`, which alone gives one,
  -- writes the NULL of its vector behind the vector's block.
  pub configure-ne-ok : (ss : List Statement) (t : Timer) → configure ss fresh ≢ some (ok, t)
  configure-ne-ok ss t e = (rw e at (configure-NotAccepted ss fresh refl)) refl
