-- ===== src/Publisher/Request/Headers.antt =====
-- A parameter's value among the headers of a request: the search of mod/http/kafka.c over the headers as
-- they came.
use folksong.Prelude.{
  ℕ, suc, ◌+◌, ◌^◌, ◌<◌, ◌≡◌, ◌≢◌, refl, sym, ap, ◌∙◌, true, false, Option, none, some, List, [],
  ◌∷◌, ◌++◌, length, Bytes, arith, get_elem?, join, Bool-cases, inl, inr, length-append,
  take-length_append,
}
use folksong.Arr
use folksong.Arr.{Arr}
use folksong.Arr.Push.{nth-contents}
use folksong.Arr.Search.{search}
use folksong.Http.{Text, Req}
use folksong.Http.Message.Answer.{Collected}
use folksong.Http.Message.Collect.{whole, names, values}
use folksong.Publisher.Request.{
  Place, in_pcre, in_param, in_default, find_param, try_default, param_value, try_param, get_value,
  get_topic, url_of, key_of, get_key, Done, failed, publish, done_cb,
}
use folksong.Publisher.Request
use folksong.Publisher.Request.Param.{InBlock, bytes_of, names-token}
use folksong.Str.{Str, c_string}
use folksong.Str.Prefix.{token_of}

-- the value of the first header with the name `p`
pub data Valued (p : Bytes) : List (Bytes × Bytes) → Option Bytes → Type 0 where
  nowhere : Valued p [] none
  here :
      {name v : Bytes} {hs : List (Bytes × Bytes)} → name ≡ p → Valued p ((name, v) ∷ hs) (some v)
  later :
      {name v : Bytes} {hs : List (Bytes × Bytes)} {o : Option Bytes}
      → name ≢ p
      → Valued p hs o
      → Valued p ((name, v) ∷ hs) o

-- what a header's value, or the lack of one, makes
abbrev pub from_header : Option Str → Option Bytes → Option (Place × Bytes)
from_header none none = none
from_header (some s) none = some (in_default, c_string s.mem)
from_header def (some v) = some (in_param, c_string v)

-- the slots from `n` on hold these headers
abbrev pub Slots : ℕ → Arr Text → Arr Text → List (Bytes × Bytes) → Type 0
Slots n keys vals hs =
    (i : ℕ)
    → i < length hs
    → (Arr.nth keys (n + i) ≡ join (get_elem? (names hs) i))
      × (Arr.nth vals (n + i) ≡ join (get_elem? (values hs) i))

bytes_of-whole : (name : Bytes) → bytes_of (whole name) ≡ name
bytes_of-whole name = take-length_append name (0 ∷ [])

whole-InBlock : (name : Bytes) → InBlock (whole name)
whole-InBlock name = omega (arith, length-append name (0 ∷ []))

c_string_end : (v : Bytes) → c_string (v ++ (0 ∷ [])) ≡ c_string v
c_string_end [] = refl
c_string_end (x ∷ v) = ground (arith, c_string_end v)

find_param_hit :
    (k n : ℕ) (keys : Arr Text) (param : Str) (t : Text)
    → Arr.nth keys n ≡ some t
    → Request.names t param ≡ true
    → find_param (suc k) n keys param ≡ some (some n)
unfolding find_param
find_param_hit k n keys param t e same = rw (find_param, search, e, same) refl

find_param_miss :
    (k n : ℕ) (keys : Arr Text) (param : Str) (t : Text)
    → Arr.nth keys n ≡ some t
    → Request.names t param ≡ false
    → find_param (suc k) n keys param ≡ find_param k (n + 1) keys param
unfolding find_param
find_param_miss k n keys param t e other = rw (find_param, search, e, other) refl

Slots-later :
    (n : ℕ) (keys vals : Arr Text) (h : Bytes × Bytes) (hs : List (Bytes × Bytes))
    → Slots n keys vals (h ∷ hs)
    → Slots (n + 1) keys vals hs
Slots-later n keys vals (name, v) hs slots i l =
    let next : (n + 1) + i ≡ n + suc i = omega arith in rw next (slots (suc i) (omega arith))

module _ (vals : Arr Text) (def : Option Str) (p : Bytes) (small : length p < 2 ^ 63) where
  param_value_found :
      (n : ℕ) (v : Bytes)
      → Arr.nth vals n ≡ some (whole v)
      → param_value vals def (some (some n)) ≡ some (from_header def (some v))
  param_value_found n v e =
      rw (param_value, e)
        (ap {B = Option (Option (Place × Bytes))} (λ s. some (some (in_param, s))) (c_string_end v))

  param_value_default : param_value vals def (some none) ≡ some (from_header def none)
  param_value_default = ground arith

  pub find_param-Valued :
      (n : ℕ) (keys : Arr Text) (hs : List (Bytes × Bytes))
      → Slots n keys vals hs
      → (o : Option Bytes) × Valued p hs o
        × (param_value vals def (find_param (length hs) n keys (token_of p []))
            ≡ some (from_header def o))
  unfolding find_param
  find_param-Valued n keys [] slots = (none, nowhere, param_value_default)
  find_param-Valued n keys ((name, v) ∷ hs) slots =
      let first : n + 0 ≡ n = omega arith in
      let (key, val) = rw first at (slots 0 (omega arith)) in
      let iff = names-token (whole name) p (whole-InBlock name) small in
      elim (Bool-cases (Request.names (whole name) (token_of p []))) [
        | inl same ↦ (
          some v,
          here (sym (bytes_of-whole name) ∙ iff.0 same),
          ap (param_value vals def) (find_param_hit (length hs) n keys (token_of p []) _ key same)
              ∙ param_value_found n v val,
        )
        | inr other ↦
            let (o, valued, ih) =
              find_param-Valued (n + 1) keys hs (Slots-later n keys vals (name, v) hs slots) in
            (
              o,
              later (λ e. cc (iff.1 (bytes_of-whole name ∙ e), other)) valued,
              ap (param_value vals def)
                    (find_param_miss (length hs) n keys (token_of p []) _ key other)
                  ∙ ih,
            )
      ]

pub Collected-Slots :
    (path : Bytes) (hs : List (Bytes × Bytes)) (r : Req)
    → Collected path hs r
    → Slots 0 r.p_key r.p_val hs
Collected-Slots path hs r c i l =
    let same : 0 + i ≡ i = omega arith in
    rw same (
      nth-contents r.p_key i (omega (arith, c.key_count)) ∙ ap (λ xs. join (get_elem? xs i)) c.keys,
      nth-contents r.p_val i (omega (arith, c.val_count)) ∙ ap (λ xs. join (get_elem? xs i)) c.vals,
    )
