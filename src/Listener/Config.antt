-- ===== src/Listener/Config.antt =====
-- The handlers of mod/fs_mod_kafka_listener.c that a configuration calls.
pub mod Complete
use folksong.Prelude.{
  ℕ, zero, suc, ◌+◌, ◌-◌, Bool, true, false, not, Option, none, some, List, [], ◌∷◌, ◌==◌,
  if◌then◌else◌, Bytes,
}
use folksong.Args
use folksong.Arr
use folksong.Arr.{Arr, Malloc}
use folksong.Cmd.{Cmd, equal}
use folksong.Listener.{Consumer, Topic, Listener, kafka_block, cmd_topic}
use folksong.Str.{Str, c_string}
use folksong.Token.{Ret, ok, error, pass}

-- sizeof(fs_mod_kafka_listener_t) and sizeof(fs_mod_kafka_listener_topic_t) on a 64-bit target
abbrev pub sizeof_listener : ℕ
sizeof_listener = 736

abbrev pub sizeof_topic : ℕ
sizeof_topic = 128

-- `fs_mod_kafka_listener_init_mod`, with `st_depth`; `none` is a NULL written through
unfoldable pub init_mod : Malloc → Cmd → ℕ → Option (Ret × Option Listener)
init_mod malloc cmd depth =
    if not (equal cmd kafka_block)
    then some (pass, none)
    else if not (depth == 1)
    then some (pass, none)
    else if malloc sizeof_listener
    then some (ok, some (record { topics = none; rk = false; looped = false }))
    else none

-- A handler's answer; `none` is undefined behaviour.
abbrev pub Answer : Type 0
Answer = Option (Ret × Listener)

-- `fs_mod_kafka_listener_block`: `top` says whether the open block is the listener's
unfoldable pub block_call : Bool → Listener → Answer
block_call top l = if not top then some (pass, l) else some (ok, l)

-- the array of topics, made for the first of them
abbrev pub topics_of : Malloc → Listener → Option (Arr Topic)
topics_of malloc l = elim l.topics [ none ↦ Arr.alloc malloc 1 sizeof_topic | some arr ↦ some arr ]

-- a topic behind those that are there
abbrev pub push_topic : Malloc → Arr Str → Option (Arr Topic) → Option (Arr Topic)
push_topic malloc tokens none = none
push_topic malloc tokens (some arr) = elim (Arr.push malloc arr) [
  | none ↦ none
  | some (n, arr') ↦ elim (Arr.nth tokens 1) [
    | none ↦ none
    | some s ↦ some (Arr.put arr' n (record { topic = s; args = none; proc_flag = false }))
  ]
]

-- `fs_mod_kafka_listener_cmd_topic`: `subtop` is the command of the block below
unfoldable pub topic_call : Malloc → Bool → Cmd → Arr Str → Listener → Answer
unfolding Arr.alloc Arr.push
topic_call malloc top subtop tokens l =
    if not top
    then some (pass, l)
    else if not (equal subtop kafka_block)
    then some (error, l)
    else if not (tokens.ele_count == 2)
    then some (error, l)
    else elim (push_topic malloc tokens (topics_of malloc l)) [
      | none ↦ none
      | some arr ↦ some (ok, record l { topics = some arr })
    ]

abbrev pub set_option : Consumer → Option Str → Option Str → Listener → Answer
set_option consumer (some key) (some value) l =
    some (if not (consumer.conf_set (c_string key.mem) (c_string value.mem)) then error else ok, l)
set_option consumer _ _ l = none

-- `fs_mod_kafka_listener_cmd_config`: `at` is the command of the open block
unfoldable pub config_call : Consumer → Bool → Cmd → Arr Str → Listener → Answer
config_call consumer top at tokens l =
    if not top
    then some (pass, l)
    else if not (equal at kafka_block)
    then some (pass, l)
    else if not (tokens.ele_count == 3)
    then some (error, l)
    else set_option consumer (Arr.nth tokens 1) (Arr.nth tokens 2) l

-- `fs_arr_last` of the topics, with its vector written
abbrev pub with_args : Args.Args → Listener → Option (Arr Topic) → Answer
with_args a l none = none
with_args a l (some arr) = elim (Arr.nth arr (arr.ele_count - 1)) [
  | none ↦ none
  | some t ↦ some (
    ok,
    record l {
      topics =
          some (Arr.put arr (arr.ele_count - 1) (record t { args = some a; proc_flag = true }));
    },
  )
]

-- `fs_mod_kafka_listener_cmd_exec`, followed past the NULL that it writes behind the vector's block, so that
-- what a message then meets can be said
unfoldable pub exec_call : Malloc → Bool → Cmd → Arr Str → Listener → Answer
unfolding Args.build
exec_call malloc top at tokens l =
    if not top
    then some (pass, l)
    else if not (equal at cmd_topic)
    then some (error, l)
    else elim (Args.build malloc tokens) [ none ↦ none | some a ↦ with_args a l l.topics ]

-- the first loop of `fs_mod_kafka_listener_init_mod_completed`, from `i` on with the rounds left:
-- whether every topic has a program
unfoldable pub all_exec : ℕ → ℕ → Arr Topic → Option Bool
all_exec zero i arr = some true
all_exec (suc k) i arr = elim (Arr.nth arr i) [
  | none ↦ none
  | some t ↦ let rest = all_exec k (i + 1) arr in if not t.proc_flag then some false else rest
]

-- the second loop: the names that are subscribed to
unfoldable pub topic_names : ℕ → ℕ → Arr Topic → Option (List Bytes)
topic_names zero i arr = some []
topic_names (suc k) i arr = elim (Arr.nth arr i) [
  | none ↦ none
  | some t ↦ elim (topic_names k (i + 1) arr) [
    | none ↦ none
    | some names ↦ some (c_string t.topic.mem ∷ names)
  ]
]

abbrev pub subscribed : Consumer → Listener → Option (List Bytes) → Answer
subscribed consumer l none = none
subscribed consumer l (some names) = some (if consumer.subscribe names then ok else error, l)

abbrev pub connected : Consumer → Listener → Arr Topic → Option Bool → Answer
connected consumer l arr none = none
connected consumer l arr (some false) = some (error, l)
connected consumer l arr (some true) =
    if consumer.new
    then subscribed consumer (record l { rk = true }) (topic_names arr.ele_count 0 arr)
    else some (error, record l { rk = false })

-- `fs_mod_kafka_listener_init_mod_completed`: where the subscription fails `rk` is destroyed and
-- still points there
unfoldable pub init_mod_completed : Consumer → Listener → Answer
unfolding all_exec topic_names
init_mod_completed consumer l = elim l.topics [
  | none ↦ some (error, l)
  | some arr ↦ connected consumer l arr (all_exec arr.ele_count 0 arr)
]

-- `fs_mod_kafka_listener_inited`: the loop is written behind the `for`, to the last listener
unfoldable pub inited : List Listener → List Listener
inited [] = []
inited (l ∷ []) = record l { looped = true } ∷ []
inited (l ∷ m ∷ ls) = l ∷ inited (m ∷ ls)
