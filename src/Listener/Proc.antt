-- ===== src/Listener/Proc.antt =====
-- A program that mod/fs_mod_kafka_listener.c started: the callbacks of its pipe and of its end.
use folksong.Prelude.{
  ℕ, suc, ◌+◌, ◌≡◌, refl, ◌∙◌, Bool, true, false, Option, none, some, List, [], ◌∷◌, if◌then◌else◌,
  arith,
}

-- `proc`, a block that the pipe and the process lie in: whether it was freed, how often its pipe was closed,
-- and how often its message was given back
pub record Proc : Type 0 where
  pub freed : Bool
  pub closes : ℕ
  pub destroyed : ℕ

abbrev pub launched : Proc
launched = record { freed = false; closes = 0; destroyed = 0 }

-- the callbacks of libuv
pub data Callback : Type 0 where
  writed closed exited : Callback

-- `fs_mod_kafka_listener_proc_writed_cb`; `none` is a use of what was freed
unfoldable pub writed_cb : Proc → Option Proc
writed_cb p =
    if p.freed then none else some (record p { closes = p.closes + 1; destroyed = p.destroyed + 1 })

-- `fs_mod_kafka_listener_proc_exited_cb`; the read buffer is NULL, since nothing reads
unfoldable pub exited_cb : Proc → Option Proc
exited_cb p = if p.freed then none else some (record p { freed = true })

-- `fs_mod_kafka_listener_proc_pipe_closed_cb`
unfoldable pub pipe_closed_cb : Proc → Option Proc
pipe_closed_cb p = some p

unfoldable pub callback : Callback → Proc → Option Proc
unfolding writed_cb exited_cb pipe_closed_cb
callback writed p = writed_cb p
callback closed p = pipe_closed_cb p
callback exited p = exited_cb p

-- one callback after another
unfoldable pub callbacks : List Callback → Proc → Option Proc
unfolding callback
callbacks [] p = some p
callbacks (c ∷ cs) p = elim (callback c p) [ none ↦ none | some p' ↦ callbacks cs p' ]

-- only the pipe's end
abbrev pub OnlyClosed : List Callback → Type 0
OnlyClosed [] = Unit
OnlyClosed (closed ∷ cs) = OnlyClosed cs
OnlyClosed (writed ∷ cs) = ⊥
OnlyClosed (exited ∷ cs) = ⊥

-- the writes come before the end of the program, which comes once
abbrev pub WritesFirst : List Callback → Type 0
WritesFirst [] = Unit
WritesFirst (exited ∷ cs) = OnlyClosed cs
WritesFirst (closed ∷ cs) = WritesFirst cs
WritesFirst (writed ∷ cs) = WritesFirst cs

abbrev pub writes : List Callback → ℕ
writes [] = 0
writes (writed ∷ cs) = suc (writes cs)
writes (closed ∷ cs) = writes cs
writes (exited ∷ cs) = writes cs

-- What came of the callbacks: use of freed memory, or a message given back for every write.
abbrev pub Outcome : ℕ → Type 0 → Option Proc → Type 0
Outcome n P none = ¬ P
Outcome n P (some p) = P × (p.destroyed ≡ n)

freed-Outcome :
    (cs : List Callback) (p : Proc)
    → p.freed ≡ true
    → Outcome p.destroyed (OnlyClosed cs) (callbacks cs p)
unfolding callbacks
freed-Outcome [] p h = (tt, refl)
freed-Outcome (closed ∷ cs) p h = freed-Outcome cs p h
freed-Outcome (writed ∷ cs) p h = rw h (λ x. x)
freed-Outcome (exited ∷ cs) p h = rw h (λ x. x)

OnlyClosed-writes : (cs : List Callback) → OnlyClosed cs → writes cs ≡ 0
OnlyClosed-writes [] h = refl
OnlyClosed-writes (closed ∷ cs) h = OnlyClosed-writes cs h
OnlyClosed-writes (writed ∷ cs) h = absurd h
OnlyClosed-writes (exited ∷ cs) h = absurd h

Outcome-counted :
    {P : Type 0} (m n : ℕ) (o : Option Proc) → (P → m ≡ n) → Outcome m P o → Outcome n P o
Outcome-counted m n none e out = out
Outcome-counted m n (some p) e (h, count) = (h, count ∙ e h)

live-Outcome :
    (cs : List Callback) (p : Proc)
    → p.freed ≡ false
    → Outcome (p.destroyed + writes cs) (WritesFirst cs) (callbacks cs p)
unfolding callbacks
live-Outcome [] p h = (tt, omega arith)
live-Outcome (closed ∷ cs) p h = live-Outcome cs p h
live-Outcome (writed ∷ cs) p h =
    let p' : Proc = record { freed = false; closes = p.closes + 1; destroyed = p.destroyed + 1 } in
    let out = live-Outcome cs p' refl in
    rw (callbacks, callback, writed_cb, h)
      (Outcome-counted _ _ (callbacks cs p') (λ _. omega arith) out)
live-Outcome (exited ∷ cs) p h =
    let p' : Proc = record p { freed = true } in
    let out = freed-Outcome cs p' refl in
    rw (callbacks, callback, exited_cb, h)
      (Outcome-counted _ _ (callbacks cs p') (λ o. omega (arith, OnlyClosed-writes cs o)) out)

-- The callbacks of a started program use no freed memory exactly when the program ends at most once, and behind every
-- write; its message is then given back once for each write.
pub callbacks-Outcome :
    (cs : List Callback) → Outcome (writes cs) (WritesFirst cs) (callbacks cs launched)
callbacks-Outcome cs =
    Outcome-counted _ _ (callbacks cs launched) (λ _. omega arith) (live-Outcome cs launched refl)
