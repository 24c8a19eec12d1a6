-- ===== src/Main.antt =====
-- `main` of core/folksong.c: the command line, a configuration, and libuv's loop.
pub mod Options
pub mod Typed
use folksong.Prelude.{
  ℕ, Bool, true, false, not, ◌&&◌, Option, none, some, List, [], ◌∷◌, ◌++◌, ◌==◌, if◌then◌else◌,
  Bytes,
}
use folksong.Arr
use folksong.Arr.{Arr}
use folksong.Conf.{Conf, Mod, ModState}
use folksong.Conf.Parse.{conf, conf_file}
use folksong.File.{File}
use folksong.Os.{Os}
use folksong.Queue.{Links}
use folksong.Run
use folksong.Run.{Frame}
use folksong.Str.{Str, str_set}

-- How the program goes on: it returns 0 or -1, or libuv's loop runs; `starved` is a NULL that an allocation
-- at the start left, which is not noticed there, and `fault` is undefined behaviour, or no fuel.
pub data Exit (W : Type 0) : Type 0 where
  returned : Bool → Exit W
  ran : Conf W → Exit W
  starved fault : Exit W

-- sizeof(fs_str_t)
abbrev pub sizeof_str : ℕ
sizeof_str = 40

-- What stands in the locals of `main` before they are set: the file that `conf.file` points to, the
-- links and frames of `run`, and `conf.valid`; `W` is the modules' state.
pub record Unset (W : Type 0) : Type 0 where
  pub file : File
  pub links : Links
  pub frames : ℕ → Frame
  pub fresh : ℕ
  pub mods : List ModState
  pub world : W
  pub valid : Bool

-- what an argument is, by `arg[0]` and `arg[1]`, its NUL included
pub data Choice : Type 0 where
  help cmdline file other : Choice

abbrev pub choice : Bytes → Choice
choice [] = other
choice (c ∷ []) = other
choice (c ∷ d ∷ cs) =
    if not (c == b'-')
    then other
    else if d == b'h'
    then help
    else if d == b'c'
    then cmdline
    else if d == b'f'
    then file
    else other

module _ {W : Type 0} (os : Os) (mods : List (Mod W)) (fuel : ℕ) where
  abbrev with_tokens : Unset W → Option (Arr Str) → Option Run.Run → Option (Conf W)
  with_tokens u (some tokens) (some run) = some (record {
    source = record { tokens = tokens; file = u.file };
    run = run;
    mods = u.mods;
    world = u.world;
  })
  with_tokens u _ _ = none

  -- `conf.tokens` and `fs_run_init`
  unfoldable pub start : Unset W → Option (Conf W)
  unfolding Arr.alloc Run.init
  start u =
      with_tokens u (Arr.alloc os.malloc 3 sizeof_str) (Run.init os.malloc u.links u.frames u.fresh)

  -- what a configuration ends with
  abbrev pub configured : Option (Bool × Conf W) → Exit W
  configured none = fault
  configured (some (false, c)) = returned false
  configured (some (true, c)) = ran c

  -- `argv[i + 1]`: NULL behind the last argument
  abbrev pub given : (Str → Option (Bool × Conf W)) → List Bytes → Exit W
  given f [] = fault
  given f (text ∷ rest) = configured (f (str_set (text ++ (0 ∷ []))))

  -- the loop over the arguments
  unfoldable pub arguments : Bool → Conf W → List Bytes → Exit W
  unfolding conf conf_file str_set
  arguments valid c [] = ran c
  arguments valid c (arg ∷ rest) =
      let skip = arguments valid c rest in
      elim (choice arg) [
        | help ↦ returned true
        | cmdline ↦ given (conf os mods fuel valid c) rest
        | file ↦ given (conf_file os mods fuel valid c) rest
        | other ↦ skip
      ]

  -- `main`, over `argv`
  unfoldable pub main : Unset W → List Bytes → Exit W
  unfolding start arguments
  main u argv = elim (start u) [
    | none ↦ starved
    | some c ↦ elim argv [
      | [] ↦ ran c
      | name ∷ args ↦ elim args [
        | [] ↦ returned false
        | arg ∷ rest ↦ arguments u.valid c (arg ∷ rest)
      ]
    ]
  ]
