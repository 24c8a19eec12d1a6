-- ===== src/Arr.antt =====
-- core/fs_arr.h and core/fs_arr.c: the growing array that holds tokens, contexts, routes,
-- topics and headers, over `fs_pool_alloc` of core/fs_pool.c.
pub mod Push
pub mod Grow
pub mod Search
use folksong.Prelude.{
  ℕ, ◌+◌, ◌-◌, ◌*◌, ◌/◌, ◌%◌, ◌^◌, Bool, Option, none, some, List, ◌++◌, ◌==◌, if◌then◌else◌, join,
  get_elem?, set, take, drop, replicate,
}

-- `fs_arr_s`. A slot is `none` until something is written through its address; the pool has no
-- state. `int` fields are kept as their 32-bit patterns.
pub record Arr (A : Type 0) : Type 0 where
  pub elems : List (Option A)
  pub ele_capa : ℕ
  pub ele_count : ℕ
  pub ele_size : ℕ

-- `malloc`: whether a request of this many bytes succeeds.
abbrev pub Malloc : Type 0
Malloc = ℕ → Bool

-- sizeof(fs_arr_t) on a 64-bit target
abbrev pub sizeof_arr : ℕ
sizeof_arr = 40

module _ {A : Type 0} where
  unfoldable pub is_full : Arr A → Bool
  is_full arr = arr.ele_count == arr.ele_capa

  unfoldable pub capa_size : Arr A → ℕ
  capa_size arr = (arr.ele_capa * arr.ele_size) % 2 ^ 64

  -- `*fs_arr_nth(arr, n)` read: `none` outside the block and in a slot not yet written
  abbrev pub nth : Arr A → ℕ → Option A
  nth arr n = join (get_elem? arr.elems n)

  -- a write through the address of slot `n`
  abbrev pub put : Arr A → ℕ → A → Arr A
  put arr n x = record arr { elems = set arr.elems n (some x) }

  -- a fresh block of `size` bytes, as slots
  abbrev pub fresh : ℕ → ℕ → List (Option A)
  fresh size ele_size = replicate (size / ele_size) none

  unfoldable pub init : Malloc → ℕ → ℕ → Option (Arr A)
  init malloc capa ele_size =
      let size = (capa * ele_size) % 2 ^ 64 in
      if malloc size
      then some (record {
        elems = fresh size ele_size;
        ele_capa = capa;
        ele_count = 0;
        ele_size = ele_size;
      })
      else none

  unfoldable pub alloc : Malloc → ℕ → ℕ → Option (Arr A)
  unfolding init
  alloc malloc capa ele_size = if malloc sizeof_arr then init malloc capa ele_size else none

  -- The array in a fresh block of `size` bytes: `fs_memcpy` moves the old block over, and the
  -- capacity doubles.
  abbrev pub moved : ℕ → Arr A → Arr A
  moved size arr = record arr {
    elems = take arr.ele_capa arr.elems ++ drop arr.ele_capa (fresh size arr.ele_size);
    ele_capa = (arr.ele_capa * 2) % 2 ^ 32;
  }

  unfoldable pub grow : Malloc → Arr A → Option (Arr A)
  unfolding capa_size
  grow malloc arr =
      let size = (capa_size arr * 2) % 2 ^ 64 in if malloc size then some (moved size arr) else none

  -- `fs_arr_nth(void, arr, fs_arr_count(arr)++)`: the slot and the array behind it
  abbrev pub bump : Arr A → ℕ × Arr A
  bump arr = (arr.ele_count, record arr { ele_count = (arr.ele_count + 1) % 2 ^ 32 })

  -- `none` is the NULL of a failed allocation, which leaves the array as it is.
  unfoldable pub push : Malloc → Arr A → Option (ℕ × Arr A)
  unfolding is_full grow
  push malloc arr =
      if is_full arr
      then elim (grow malloc arr) [ none ↦ none | some arr' ↦ some (bump arr') ]
      else some (bump arr)
