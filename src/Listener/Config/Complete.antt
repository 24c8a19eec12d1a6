-- ===== src/Listener/Config/Complete.antt =====
-- When the block of a Kafka listener is complete.
use folksong.Prelude.{
  is_some, Option, Option-cases, ℕ, suc, ◌+◌, ◌≡◌, ◌↔◌, refl, ap, ◌∙◌, Bool, true, false, none,
  some, List, [], ◌∷◌, Bool-cases, inl, inr, Bytes, if◌then◌else◌,
}
use folksong.Arr
use folksong.Arr.{Arr}
use folksong.Listener.{Consumer, Topic, Listener}
use folksong.Listener.Config.{
  Answer, all_exec, topic_names, subscribed, connected, init_mod_completed,
}
use folksong.Str.{c_string}
use folksong.Token.{ok, error}

-- the topics of the slots from `n` on, in order
abbrev pub Holds : ℕ → Arr Topic → List Topic → Type 0
Holds n arr [] = Unit
Holds n arr (t ∷ ts) = (Arr.nth arr n ≡ some t) × Holds (n + 1) arr ts

abbrev pub size : List Topic → ℕ
size [] = 0
size (t ∷ ts) = suc (size ts)

-- every one of them has a program
abbrev pub AllExec : List Topic → Type 0
AllExec [] = Unit
AllExec (t ∷ ts) = (t.proc_flag ≡ true) × AllExec ts

abbrev pub names_of : List Topic → List Bytes
names_of [] = []
names_of (t ∷ ts) = c_string t.topic.mem ∷ names_of ts

-- what the first loop answers
all_exec-AllExec :
    (n : ℕ) (arr : Arr Topic) (ts : List Topic)
    → Holds n arr ts
    → (b : Bool) × (all_exec (size ts) n arr ≡ some b) × ((b ≡ true) ↔ AllExec ts)
unfolding all_exec
all_exec-AllExec n arr [] h = (true, refl, (λ _. tt, λ _. refl))
all_exec-AllExec n arr (t ∷ ts) h =
    let (b, e, iff) = all_exec-AllExec (n + 1) arr ts h.1 in
    elim (Bool-cases t.proc_flag) [
      | inl set ↦ (b, rw (all_exec, h.0) (rw set e), (λ x. (set, iff.0 x), λ x. iff.1 x.1))
      | inr unset ↦
          (false, rw (all_exec, h.0) (rw unset refl), (λ x. absurd (cc), λ x. absurd (cc)))
    ]

topic_names-names_of :
    (n : ℕ) (arr : Arr Topic) (ts : List Topic)
    → Holds n arr ts
    → topic_names (size ts) n arr ≡ some (names_of ts)
unfolding topic_names
topic_names-names_of n arr [] h = refl
topic_names-names_of n arr (t ∷ ts) h =
    rw (topic_names, h.0, topic_names-names_of (n + 1) arr ts h.1) refl

-- A status is answered, and FS_CONF_OK exactly when `P` holds.
abbrev pub AnswersOkWhen : Type 0 → Answer → Type 0
AnswersOkWhen P none = ⊥
AnswersOkWhen P (some (ret, l)) = (ret ≡ ok) ↔ P

-- the three conditions
abbrev pub IsComplete : Consumer → List Topic → Type 0
IsComplete consumer ts =
    AllExec ts × (consumer.new ≡ true) × (consumer.subscribe (names_of ts) ≡ true)

subscribed-AnswersOkWhen :
    (consumer : Consumer) (l : Listener) (ts : List Topic) (b : Bool)
    → consumer.subscribe (names_of ts) ≡ b
    → AllExec ts
    → consumer.new ≡ true
    → AnswersOkWhen (IsComplete consumer ts) (some (if b then ok else error, l))
subscribed-AnswersOkWhen consumer l ts true e all made = (λ _. (all, made, e), λ _. refl)
subscribed-AnswersOkWhen consumer l ts false e all made = (λ x. absurd (cc), λ c. absurd (cc c.2))

made-AnswersOkWhen :
    (consumer : Consumer) (l : Listener) (arr : Arr Topic) (ts : List Topic) (b : Bool)
    → topic_names arr.ele_count 0 arr ≡ some (names_of ts)
    → AllExec ts
    → consumer.new ≡ b
    → AnswersOkWhen (IsComplete consumer ts) (
        if b
        then subscribed consumer (record l { rk = true }) (topic_names arr.ele_count 0 arr)
        else some (error, record l { rk = false }))
made-AnswersOkWhen consumer l arr ts false names all made = (λ x. absurd (cc), λ c. absurd (cc c.1))
made-AnswersOkWhen consumer l arr ts true names all made =
    rw (AnswersOkWhen, names)
      (subscribed-AnswersOkWhen consumer (record l { rk = true }) ts _ refl all made)

connected-AnswersOkWhen :
    (consumer : Consumer) (l : Listener) (arr : Arr Topic) (ts : List Topic) (b : Bool)
    → topic_names arr.ele_count 0 arr ≡ some (names_of ts)
    → (b ≡ true) ↔ AllExec ts
    → AnswersOkWhen (IsComplete consumer ts) (connected consumer l arr (some b))
connected-AnswersOkWhen consumer l arr ts false names iff =
    (λ e. absurd (cc), λ c. absurd (cc (iff.1 c.0)))
connected-AnswersOkWhen consumer l arr ts true names iff =
    made-AnswersOkWhen consumer l arr ts _ names (iff.0 refl) refl

listed-IsComplete :
    (consumer : Consumer) (l : Listener) (arr : Arr Topic) (ts : List Topic)
    → l.topics ≡ some arr
    → arr.ele_count ≡ size ts
    → Holds 0 arr ts
    → AnswersOkWhen (IsComplete consumer ts) (init_mod_completed consumer l)
unfolding init_mod_completed
listed-IsComplete consumer l arr ts here count h =
    let (b, e, iff) = all_exec-AllExec 0 arr ts h in
    let flags : all_exec arr.ele_count 0 arr ≡ some b = ap (λ k. all_exec k 0 arr) count ∙ e in
    let names : topic_names arr.ele_count 0 arr ≡ some (names_of ts) =
      ap (λ k. topic_names k 0 arr) count ∙ topic_names-names_of 0 arr ts h in
    rw (AnswersOkWhen, init_mod_completed, here, flags)
      (connected-AnswersOkWhen consumer l arr ts b names iff)

and_also : (P Q : Type 0) (o : Answer) → P → AnswersOkWhen Q o → AnswersOkWhen (P × Q) o
and_also P Q none p a = a
and_also P Q (some (ret, l)) p (to, from) = (λ e. (p, to e), λ c. from c.1)

-- the topics of a block, none where it has no array of them
abbrev pub Lists : Option (Arr Topic) → List Topic → Type 0
Lists none ts = ts ≡ []
Lists (some arr) ts = (arr.ele_count ≡ size ts) × Holds 0 arr ts

-- The end of a listener's block is accepted exactly when it has an array of topics, each of its topics has
-- a program, a consumer is made, and it subscribes to the topics' names in their order.
pub init_mod_completed-IsComplete :
    (consumer : Consumer) (l : Listener) (ts : List Topic)
    → Lists l.topics ts
    → AnswersOkWhen
        ((is_some l.topics ≡ true) × IsComplete consumer ts)
        (init_mod_completed consumer l)
unfolding init_mod_completed
init_mod_completed-IsComplete consumer l ts h = elim (Option-cases l.topics) [
  | inl none_yet ↦
      rw (AnswersOkWhen, init_mod_completed, none_yet) (λ x. absurd (cc), λ c. absurd (cc c.0))
  | inr (arr, here) ↦
      let (count, held) = rw here at h in
      and_also (is_some l.topics ≡ true) (IsComplete consumer ts) (init_mod_completed consumer l)
        (rw here refl) (listed-IsComplete consumer l arr ts here count held)
]
