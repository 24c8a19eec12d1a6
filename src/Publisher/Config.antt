-- ===== src/Publisher/Config.antt =====
-- The handlers of mod/http/kafka.c that a configuration calls.
use folksong.Prelude.{ℕ, ◌-◌, Bool, not, Option, none, some, is_some, ◌==◌, if◌then◌else◌}
use folksong.Arr
use folksong.Arr.{Arr}
use folksong.Os.{Os}
use folksong.Publisher.{Pcre, Publisher}
use folksong.Str.{Str, c_string}
use folksong.Token.{Ret, ok, error, pass}

-- sizeof(fs_mod_http_kafka_publisher_t)
abbrev pub sizeof_publisher : ℕ
sizeof_publisher = 480

-- A handler's answer and the routes of its HTTP server; `none` is undefined behaviour.
abbrev pub Answer : Type 0 → Type 0
Answer Re = Option (Ret × Arr (Publisher Re))

module _ {Re : Type 0} where
  -- the publisher of a new route: `unset` is what stands where the code writes nothing
  abbrev pub new_publisher : Pcre Re → Os → Option Str → Str → Publisher Re
  new_publisher pcre os unset path = record {
    path = path;
    path_re = pcre.compile (c_string path.mem);
    topic_param = none;
    default_topic = none;
    key_param = unset;
    default_key = unset;
    conf = Arr.alloc os.malloc 2 16;
  }

  -- `fs_mod_http_kafka_block`: `in_http` says whether the block below is the HTTP module's
  unfoldable pub kafka_block :
      Pcre Re → Os → Option Str → Bool → Arr Str → Arr (Publisher Re) → Answer Re
  unfolding Arr.push Arr.alloc
  kafka_block pcre os unset in_http tokens routes =
      if not in_http
      then some (pass, routes)
      else if not (tokens.ele_count == 2)
      then some (error, routes)
      else elim (Arr.push os.malloc routes) [
        | none ↦ none
        | some (n, routes') ↦ elim (Arr.nth tokens 1) [
          | none ↦ none
          | some path ↦
              if os.malloc sizeof_publisher
              then some (ok, Arr.put routes' n (new_publisher pcre os unset path))
              else none
        ]
      ]

  -- the handlers of parameters work on the last route
  abbrev pub on_last : Arr (Publisher Re) → (Publisher Re → Option (Ret × Publisher Re)) → Answer Re
  on_last routes f = elim (Arr.nth routes (routes.ele_count - 1)) [
    | none ↦ none
    | some p ↦ elim (f p) [
      | none ↦ none
      | some (ret, p') ↦ some (ret, Arr.put routes (routes.ele_count - 1) p')
    ]
  ]

  -- the tests that start each of them: the open block is this module's, and the statement's length
  abbrev pub guarded : Bool → ℕ → Arr Str → Arr (Publisher Re) → Answer Re → Answer Re
  guarded top count tokens routes body =
      if not top
      then some (pass, routes)
      else if not (tokens.ele_count == count)
      then some (error, routes)
      else body

  unfoldable pub cmd_config : Os → Bool → Arr Str → Arr (Publisher Re) → Answer Re
  unfolding Arr.push
  cmd_config os top tokens routes = guarded top 3 tokens routes (on_last routes add)
    where
      added :
          Publisher Re
          → Option (ℕ × Arr (Str × Str))
          → Option Str
          → Option Str
          → Option (Ret × Publisher Re)
      added p (some (n, items)) (some key) (some value) =
          some (ok, record p { conf = some (Arr.put items n (key, value)) })
      added p _ _ _ = none

      add : Publisher Re → Option (Ret × Publisher Re)
      add p = elim p.conf [
        | none ↦ none
        | some items ↦ added p (Arr.push os.malloc items) (Arr.nth tokens 1) (Arr.nth tokens 2)
      ]

  -- a string that may be set once
  abbrev pub set_once :
      Arr Str → Option Str → (Str → Publisher Re) → Publisher Re → Option (Ret × Publisher Re)
  set_once tokens old done p =
      if is_some old
      then some (error, p)
      else elim (Arr.nth tokens 1) [ none ↦ none | some s ↦ some (ok, done s) ]

  unfoldable pub cmd_topic_param : Bool → Arr Str → Arr (Publisher Re) → Answer Re
  cmd_topic_param top tokens routes =
      guarded top 2 tokens routes (
        on_last routes
          λ p. set_once tokens p.topic_param (λ s. record p { topic_param = some s }) p)

  unfoldable pub cmd_default_topic : Bool → Arr Str → Arr (Publisher Re) → Answer Re
  cmd_default_topic top tokens routes = guarded top 2 tokens routes (
      on_last routes
        λ p. set_once tokens p.default_topic (λ s. record p { default_topic = some s }) p)

  unfoldable pub cmd_key_param : Bool → Arr Str → Arr (Publisher Re) → Answer Re
  cmd_key_param top tokens routes =
      guarded top 2 tokens routes
        (on_last routes λ p. set_once tokens p.key_param (λ s. record p { key_param = some s }) p)

  unfoldable pub cmd_default_key : Bool → Arr Str → Arr (Publisher Re) → Answer Re
  cmd_default_key top tokens routes =
      guarded top 2 tokens routes (
        on_last routes
          λ p. set_once tokens p.default_key (λ s. record p { default_key = some s }) p)
