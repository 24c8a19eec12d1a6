-- ===== src/Listener/Poll.antt =====
-- `fs_mod_kafka_listener_poll_cb` of mod/fs_mod_kafka_listener.c: messages that start programs.
pub mod Dispatch
pub mod Unset
use folksong.Prelude.{
  ℕ, zero, suc, ◌+◌, Bool, true, false, not, Option, none, some, List, [], ◌∷◌, ◌++◌, ltb,
  if◌then◌else◌, length, Bytes, codes,
}
use folksong.Args.{Args}
use folksong.Arr
use folksong.Arr.{Arr, Malloc}
use folksong.Arr.Search.{search}
use folksong.Listener.{Topic, Listener}
use folksong.Str.{Str, c_string, str_set, str_cmp}
use folksong.Timer.{strcmp}

-- `rd_kafka_message_t`: whether `err` is 0, the topic's name, the key and the payload
pub record Message : Type 0 where
  pub is_ok : Bool
  pub topic : Bytes
  pub key : Bytes
  pub payload : Bytes

-- libuv: whether `uv_spawn` and `uv_write` succeed
pub record Uv : Type 0 where
  pub spawn : List Bytes → Bool
  pub write : Bytes → Bool

-- what becomes of a message: it is given back to librdkafka, or a program is started with these
-- arguments and gets the payload; a program that does not start, or does not get it, keeps the
-- message for ever
pub data Fate : Type 0 where
  destroyed : Fate
  started stuck : List Bytes → Fate

-- `fs_str_cmp(&tmp_topic->topic, &rkm_topic) == 0`
unfoldable pub takes : Bytes → Topic → Bool
unfolding str_cmp str_set
takes name t = str_cmp t.topic (str_set (name ++ (0 ∷ [])))

-- the loop over the topics
unfoldable pub find_topic : Bytes → Arr Topic → Option (Option ℕ)
unfolding search takes
find_topic name arr = search (takes name) arr.ele_count 0 arr

-- the lengths of `args` and `key_param`
abbrev pub args_len : ℕ
args_len = 64

abbrev pub key_param_len : ℕ
key_param_len = 128

-- an argument with the two variables of a message; `none` is a write behind `key_param`
unfoldable pub argument : Message → Bytes → Option Bytes
unfolding strcmp
argument m word =
    if strcmp (codes "$kafka_topic") word
    then some m.topic
    else if strcmp (codes "$kafka_key") word
    then (if ltb (length (c_string m.key)) key_param_len then some (c_string m.key) else none)
    else some word

abbrev pub with_word : Option Bytes → Option (List Bytes) → Option (List Bytes)
with_word none ws = none
with_word (some w) none = none
with_word (some w) (some ws) = some (w ∷ ws)

-- `for (i = 0; topic->proc_options.args[i]; i++)` from `i` on, with the cells of `args` left, and the
-- NULL behind it. `none` is a cell that nothing wrote, or a write behind `args`.
unfoldable pub arguments : ℕ → ℕ → Args → Message → Option (List Bytes)
unfolding argument
arguments zero i a m = none
arguments (suc k) i a m = elim (a.cell i) [
  | none ↦ none
  | some none ↦ some []
  | some (some s) ↦ with_word (argument m (c_string s.mem)) (arguments k (i + 1) a m)
]

-- Behind a message: the callback goes on, or returns.
pub data After : Type 0 where
  go_on halt : Fate → After

abbrev pub launch : Uv → List Bytes → Bytes → After
launch uv args payload =
    if not (uv.spawn args)
    then halt (stuck args)
    else if not (uv.write payload)
    then halt (stuck args)
    else go_on (started args)

-- sizeof(fs_mod_kafka_listener_proc_handler_t) on a 64-bit target
abbrev pub sizeof_proc : ℕ
sizeof_proc = 1408

-- a message for a topic; `none` is undefined behaviour, a loop that was never written included
unfoldable pub hand_over : Malloc → Uv → Listener → Message → Topic → Option After
unfolding arguments
hand_over malloc uv l m t =
    if not (malloc sizeof_proc)
    then some (halt destroyed)
    else if not l.looped
    then none
    else elim t.args [
      | none ↦ none
      | some a ↦ elim (arguments args_len 0 a m) [
        | none ↦ none
        | some args ↦ some (launch uv args m.payload)
      ]
    ]

abbrev pub found_topic :
    Malloc → Uv → Listener → Message → Arr Topic → Option (Option ℕ) → Option After
found_topic malloc uv l m arr none = none
found_topic malloc uv l m arr (some none) = some (go_on destroyed)
found_topic malloc uv l m arr (some (some i)) = elim (Arr.nth arr i) [
  | none ↦ none
  | some t ↦ hand_over malloc uv l m t
]

-- one round of the `while`
unfoldable pub poll_one : Malloc → Uv → Listener → Message → Option After
unfolding find_topic hand_over
poll_one malloc uv l m = if not m.is_ok then some (halt destroyed) else elim l.topics [
  | none ↦ none
  | some arr ↦ found_topic malloc uv l m arr (find_topic m.topic arr)
]

-- `fs_mod_kafka_listener_poll_cb`, over the messages that `rd_kafka_consumer_poll` has: the fate of
-- each that it takes
unfoldable pub poll_cb : Malloc → Uv → Listener → List Message → Option (List Fate)
unfolding poll_one
poll_cb malloc uv l [] = some []
poll_cb malloc uv l (m ∷ ms) = elim (poll_one malloc uv l m) [
  | none ↦ none
  | some (halt f) ↦ some (f ∷ [])
  | some (go_on f) ↦ elim (poll_cb malloc uv l ms) [ none ↦ none | some fs ↦ some (f ∷ fs) ]
]
