-- ===== src/Timer.antt =====
-- mod/fs_mod_timer.h and mod/fs_mod_timer.c: a command that runs after a timeout, and repeats.
pub mod Time
pub mod Block
use folksong.Prelude.{
  ℕ, ◌+◌, ◌-◌, ◌*◌, ◌%◌, ◌^◌, Bool, true, false, not, ◌&&◌, ◌||◌, Option, none, some, List, [], ◌∷◌,
  ◌==◌, ltb, leb, if◌then◌else◌, Bytes, codes,
}
use folksong.Arr
use folksong.Arr.{Arr, Malloc}
use folksong.Args
use folksong.Args.{Args}
use folksong.Cmd.{Cmd, block_cmd, param_cmd}
use folksong.Str.{Str, c_string}
use folksong.Token.{Ret, ok, error, pass}

-- `fs_mod_timer_s`; `args` is `proc_options.args`, which `file` goes with
pub record Timer : Type 0 where
  pub timeout : ℕ
  pub repeat : ℕ
  pub args : Option Args
  pub timeout_flag : Bool
  pub repeat_flag : Bool
  pub cb_flag : Bool

-- `fs_mod_timer_init`
abbrev pub fresh : Timer
fresh = record {
  timeout = 0;
  repeat = 0;
  args = none;
  timeout_flag = false;
  repeat_flag = false;
  cb_flag = false;
}

-- the handlers' numbers
abbrev pub timer_block : ℕ
timer_block = 100

abbrev pub cmd_timeout : ℕ
cmd_timeout = 101

abbrev pub cmd_repeat : ℕ
cmd_repeat = 102

abbrev pub cmd_exec : ℕ
cmd_exec = 103

abbrev pub commands : List Cmd
commands =
    block_cmd (codes "timer") timer_block
    ∷ param_cmd (codes "timeout") cmd_timeout
    ∷ param_cmd (codes "repeat") cmd_repeat
    ∷ param_cmd (codes "exec") cmd_exec
    ∷ []

-- `atoll` of a run of digits: the C library stops at LLONG_MAX
abbrev pub value_from : ℕ → Bytes → ℕ
value_from acc [] = acc
value_from acc (c ∷ cs) = value_from (10 * acc + (c - b'0')) cs

unfoldable pub atoll : Bytes → ℕ
atoll ds = let v = value_from 0 ds in if ltb v (2 ^ 63) then v else 2 ^ 63 - 1

-- `for (sp = ...; *sp; sp++)`: the digits in front, and what `sp` then points to
abbrev pub is_digit : ℕ → Bool
is_digit c = not (ltb c b'0' || ltb b'9' c)

unfoldable pub span_digits : Bytes → Bytes × Bytes
span_digits [] = ([], [])
span_digits (c ∷ cs) =
    let (ds, rest) = span_digits cs in if is_digit c then (c ∷ ds, rest) else ([], c ∷ cs)

-- `strcmp(a, b) == 0`
unfoldable pub strcmp : Bytes → Bytes → Bool
strcmp [] [] = true
strcmp (x ∷ a) (y ∷ b) = (x == y) && strcmp a b
strcmp _ _ = false

-- the factors of the ladder of suffixes, in its order
unfoldable pub unit_of : Bytes → Option ℕ
unfolding strcmp
unit_of [] = some 1
unit_of (c ∷ cs) =
    let sp = c ∷ cs in
    if strcmp sp (codes "ms")
    then some 1
    else if strcmp sp (codes "s")
    then some 1000
    else if strcmp sp (codes "min")
    then some (1000 * 60)
    else if strcmp sp (codes "hour")
    then some (1000 * 60 * 60)
    else if strcmp sp (codes "day")
    then some (1000 * 60 * 60 * 24)
    else none

-- `fs_mod_timer_parse_time`: `some none` is FS_CONF_ERROR, and `none` a product that `long long` does not
-- hold. The byte that is cleared for `atoll` is put back, so the text is as it was.
abbrev pub scale_by : Bytes → Option ℕ → Option (Option ℕ)
scale_by ds none = some none
scale_by ds (some unit) = let v = atoll ds * unit in if ltb v (2 ^ 63) then some (some v) else none

abbrev pub scaled : Bytes × Bytes → Option (Option ℕ)
scaled (ds, sp) = scale_by ds (unit_of sp)

unfoldable pub parse_time : Bytes → Option (Option ℕ)
unfolding span_digits unit_of atoll
parse_time time = scaled (span_digits (c_string time))

-- A handler's answer; `none` is undefined behaviour.
abbrev pub Answer : Type 0
Answer = Option (Ret × Timer)

-- `timer` and the two times: `top` says whether the open block is the timer's.
unfoldable pub timer_block_call : Arr Str → Timer → Answer
timer_block_call tokens t = some (ok, t)

abbrev pub read_time : Arr Str → (ℕ → Timer) → Timer → Answer
read_time tokens done t = elim (Arr.nth tokens 1) [
  | none ↦ none
  | some s ↦ elim (parse_time s.mem) [
    | none ↦ none
    | some none ↦ some (error, t)
    | some (some v) ↦ some (ok, done v)
  ]
]

unfoldable pub timeout_call : Bool → Arr Str → Timer → Answer
unfolding parse_time
timeout_call top tokens t =
    if not top
    then some (pass, t)
    else if t.timeout_flag
    then some (error, t)
    else if not (tokens.ele_count == 2)
    then some (error, t)
    else read_time tokens (λ v. record t { timeout = v; timeout_flag = true }) t

unfoldable pub repeat_call : Bool → Arr Str → Timer → Answer
unfolding parse_time
repeat_call top tokens t =
    if not top
    then some (pass, t)
    else if t.repeat_flag
    then some (error, t)
    else if not (tokens.ele_count == 2)
    then some (error, t)
    else read_time tokens (λ v. record t { repeat = v; repeat_flag = true }) t

-- `args[i] = NULL` comes behind the words, in cell `ele_count`, and must lie in the block
unfoldable pub exec_call : Malloc → Bool → Arr Str → Timer → Answer
unfolding Args.build
exec_call malloc top tokens t =
    if not top then some (pass, t) else elim (Args.build malloc tokens) [
      | none ↦ none
      | some a ↦
          if ltb tokens.ele_count a.slots
          then some (ok, record t { args = some a; cb_flag = true })
          else none
    ]

-- `fs_mod_timer_init_mod`: a context for the block alone
unfoldable pub init_mod : Cmd → Ret × Option Timer
init_mod cmd = if cmd.call == timer_block then (ok, some fresh) else (error, none)

-- `fs_mod_timer_init_mod_completed`
unfoldable pub init_mod_completed : Timer → Ret
init_mod_completed t =
    if (not t.repeat_flag && not t.timeout_flag) || not t.cb_flag then error else ok

-- `fs_mod_timer_inited`: the arguments of each `uv_timer_start`, in order
unfoldable pub inited : List Timer → List (ℕ × ℕ)
inited [] = []
inited (t ∷ ts) = (t.timeout, t.repeat) ∷ inited ts

-- one of a program's three standard streams: UV_IGNORE, or UV_INHERIT_FD with its descriptor
pub data Stdio : Type 0 where
  ignored : Stdio
  inherited : ℕ → Stdio

-- the options of `uv_spawn`: the vector of arguments, the streams, and whether there is an `exit_cb`;
-- UV_PROCESS_DETACHED is among the flags, and `env` is NULL
pub record Spawn : Type 0 where
  pub args : Option Args
  pub stdio : List Stdio
  pub has_exit_cb : Bool

-- `fs_mod_timer_cb`, for the vector that the timer holds
unfoldable pub timer_cb : Timer → Spawn
timer_cb t = record {
  args = t.args;
  stdio = ignored ∷ inherited 1 ∷ ignored ∷ [];
  has_exit_cb = false;
}
