-- ===== src/Publisher.antt =====
-- mod/http/kafka.c: an HTTP route that sends the body of a request to a Kafka topic. libpcre and
-- librdkafka are parameters.
pub mod Config
pub mod Request
pub mod Serve
pub mod Release
use folksong.Prelude.{ℕ, Bool, Option, Bytes}
use folksong.Arr.{Arr}
use folksong.Str.{Str}

-- libpcre over compiled patterns: `pcre_compile`; whether `pcre_exec` answers
-- PCRE_ERROR_NOMATCH; and what `pcre_exec` and `pcre_get_named_substring` leave in a NULL string,
-- for the pattern of a route, which may be NULL itself
pub record Pcre (Re : Type 0) : Type 0 where
  pub compile : Bytes → Option Re
  pub no_match : Re → Bytes → Bool
  pub named : Option Re → Bytes → Bytes → Option Bytes

-- librdkafka: whether each call succeeds
pub record Kafka : Type 0 where
  pub conf_set : Bytes → Bytes → Bool
  pub new : Bool
  pub topic_conf_new : Bool
  pub topic_new : Bytes → Bool
  pub produce : Bytes → Bytes → Option Bytes → Bool

-- `fs_mod_http_kafka_publisher_s`; a string whose `buf.buf` is NULL is `none`
pub record Publisher (Re : Type 0) : Type 0 where
  pub path : Str
  pub path_re : Option Re
  pub topic_param : Option Str
  pub default_topic : Option Str
  pub key_param : Option Str
  pub default_key : Option Str
  pub conf : Option (Arr (Str × Str))
