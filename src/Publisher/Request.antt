-- ===== src/Publisher/Request.antt =====
-- The callbacks of mod/http/kafka.c that a request calls.
pub mod Param
pub mod Response
pub mod Body
pub mod Headers
pub mod Topic
use folksong.Prelude.{
  ℕ, zero, suc, ◌+◌, ◌-◌, ◌%◌, ◌^◌, Bool, true, false, not, ◌&&◌, Option, none, some, List, [], ◌∷◌,
  ◌++◌, ◌==◌, if◌then◌else◌, length, take, Bytes, codes,
}
use folksong.Arr
use folksong.Arr.{Arr}
use folksong.Arr.Search.{search}
use folksong.Http.{Block, Text, Req, overlay, malloc_block, realloc_block}
use folksong.Os.{Os}
use folksong.Publisher.{Pcre, Kafka, Publisher}
use folksong.Str.{Str, c_string, str_cmp}

-- a header's text as an `fs_str_t`
abbrev pub memory : Option Bytes → Bytes
memory none = []
memory (some mem) = mem

abbrev pub str_of : Text → Str
str_of t = record { mem = memory t.block.base; size = t.size }

abbrev pub url_of : Req → Bytes
url_of r = take r.url.size (memory r.url.block.base)

-- the block of the body with room for a piece of `n` bytes
abbrev pub body_room : Os → Block → ℕ → Option Bytes
body_room os b n = elim b.base [
  | none ↦ malloc_block os n
  | some mem ↦ realloc_block os mem ((b.len + n) % 2 ^ 64)
]

-- `fs_mod_http_kafka_body_cb`: the body so far, one piece longer
unfoldable pub body_cb : Os → Bytes → Block → Option Block
body_cb os at b = elim (body_room os b (length at)) [
  | none ↦ none
  | some mem ↦
      some (record { base = some (overlay mem b.len at); len = (b.len + length at) % 2 ^ 64 })
]

-- the two tests on a header's name
unfoldable pub names : Text → Str → Bool
unfolding str_cmp
names t param = (t.size == (param.size + 2 ^ 64 - 1) % 2 ^ 64) && str_cmp (str_of t) param

-- `for (n = 0; n < count; n++)`, from `n` on with the rounds left: the header of that name
unfoldable pub find_param : ℕ → ℕ → Arr Text → Str → Option (Option ℕ)
unfolding names search
find_param k n keys param = search (λ t. names t param) k n keys

-- FS_MOD_HTTP_KAFKA_VALUE_IN_...
pub data Place : Type 0 where
  in_pcre in_param in_default : Place

-- `try_default`
abbrev pub try_default : Option Str → Option (Option (Place × Bytes))
try_default none = some none
try_default (some s) = some (some (in_default, c_string s.mem))

abbrev pub param_value : Arr Text → Option Str → Option (Option ℕ) → Option (Option (Place × Bytes))
param_value vals def none = none
param_value vals def (some none) = try_default def
param_value vals def (some (some n)) = elim (Arr.nth vals n) [
  | none ↦ none
  | some t ↦ some (some (in_param, c_string (memory t.block.base)))
]

-- `try_param`
unfoldable pub try_param : Req → Option Str → Option Str → Option (Option (Place × Bytes))
unfolding find_param
try_param r none def = try_default def
try_param r (some param) def =
    param_value r.p_val def (find_param r.p_key.ele_count 0 r.p_key param)

-- what `fs_mod_http_kafka_get_topic` and `fs_mod_http_kafka_get_key` do alike: the inner `none`
-- is `failed`
unfoldable pub get_value :
    Option Bytes → Req → Option Str → Option Str → Option (Option (Place × Bytes))
unfolding try_param
get_value none r param def = try_param r param def
get_value (some []) r param def = try_param r param def
get_value (some (c ∷ cs)) r param def = some (some (in_pcre, c ∷ cs))

-- What `fs_mod_http_kafka_done_cb` does: whether it answers FS_MOD_HTTP_OK, the codes of the
-- responses it writes, and the message it sends, with topic, value and key.
pub record Done : Type 0 where
  pub is_ok : Bool
  pub responses : List ℕ
  pub sent : Option (Bytes × Bytes × Option Bytes)

abbrev pub failed : ℕ → Done
failed code = record { is_ok = false; responses = code ∷ []; sent = none }

-- the loop over the configuration, from `i` on: whether every `rd_kafka_conf_set` succeeds
unfoldable pub conf_set_all : Kafka → ℕ → ℕ → Arr (Str × Str) → Option Bool
conf_set_all kafka zero i items = some true
conf_set_all kafka (suc k) i items = elim (Arr.nth items i) [
  | none ↦ none
  | some (key, value) ↦
      let rest = conf_set_all kafka k (i + 1) items in
      if kafka.conf_set (c_string key.mem) (c_string value.mem) then rest else some false
]

abbrev pub produced : Kafka → Bytes → Bytes → Option Bytes → Option Bool → Option Done
produced kafka topic value key none = none
produced kafka topic value key (some false) = some (failed 500)
produced kafka topic value key (some true) = some (
    if not kafka.new
    then failed 500
    else if not kafka.topic_conf_new
    then failed 500
    else if not (kafka.topic_new topic)
    then failed 500
    else if not (kafka.produce topic value key)
    then failed 500
    else record { is_ok = true; responses = 200 ∷ []; sent = some (topic, value, key) })

-- `fs_mod_http_kafka_publish`
unfoldable pub publish :
    Kafka → Option (Arr (Str × Str)) → Block → Bytes → Option Bytes → Option Done
unfolding conf_set_all
publish kafka conf value topic key = elim value.base [
  | none ↦ some (failed 400)
  | some mem ↦ elim conf [
    | none ↦ none
    | some items ↦
        produced kafka topic (take value.len mem) key (conf_set_all kafka items.ele_count 0 items)
  ]
]

-- `*key` behind `fs_mod_http_kafka_get_key`: where it fails, what libpcre left is still there
abbrev pub key_of : Option Bytes → Option (Place × Bytes) → Option Bytes
key_of left none = left
key_of left (some (place, key)) = some key

module _ {Re : Type 0} (pcre : Pcre Re) where
  -- `fs_mod_http_kafka_match_cb`
  unfoldable pub match_cb : Publisher Re → Req → Bool
  match_cb p r = elim p.path_re [ none ↦ true | some re ↦ not (pcre.no_match re (url_of r)) ]

  unfoldable pub get_topic : Publisher Re → Req → Option (Option (Place × Bytes))
  unfolding get_value
  get_topic p r =
      get_value (pcre.named p.path_re (url_of r) (codes "topic")) r p.topic_param p.default_topic

  unfoldable pub get_key : Publisher Re → Req → Option (Option (Place × Bytes))
  unfolding get_value
  get_key p r =
      get_value (pcre.named p.path_re (url_of r) (codes "key")) r p.key_param p.default_key

  -- `fs_mod_http_kafka_done_cb`, over the body that was collected
  unfoldable pub done_cb : Kafka → Publisher Re → Req → Block → Option Done
  unfolding get_topic get_key publish
  done_cb kafka p r value = elim (get_topic p r) [
    | none ↦ none
    | some none ↦ some (failed 400)
    | some (some (place, topic)) ↦ elim (get_key p r) [
      | none ↦ none
      | some key ↦
          publish kafka p.conf value topic
            (key_of (pcre.named p.path_re (url_of r) (codes "key")) key)
    ]
  ]
