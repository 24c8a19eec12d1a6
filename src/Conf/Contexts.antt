-- ===== src/Conf/Contexts.antt =====
-- What `fs_conf_handle` of core/fs_conf.c does to contexts: those of the open blocks, and those that
-- a module keeps in `ctxs`.
use folksong.Prelude.{
  ℕ, ◌+◌, ◌-◌, ◌%◌, ◌^◌, Bool, true, not, Option, none, some, set, get_elem?, if◌then◌else◌,
}
use folksong.Arr
use folksong.Arr.{Arr}
use folksong.Conf.{Conf, ModState, Ctxs, null, released, live}
use folksong.Os.{Os}
use folksong.Run
use folksong.Run.{Run, load_ctx, store_ctx, st_top, st_subtop}

-- `fs_gmod_stored_ctx`
unfoldable pub stored_ctx : Os → Ctxs → Option ℕ → Option Ctxs
stored_ctx os null v = none
stored_ctx os released v = none
stored_ctx os (live arr) v = elim (Arr.push os.malloc arr) [
  | none ↦ none
  | some (n, arr') ↦ some (live (Arr.put arr' n v))
]

-- the array of a module that is used for the first time
abbrev pub first_ctxs : Os → ModState → Ctxs
first_ctxs os m =
    if m.used then m.ctxs else elim (Arr.alloc os.malloc 1 8) [ none ↦ null | some a ↦ live a ]

-- `ctxs->ele_count--`, if there is an array
abbrev pub uncount : Ctxs → Option Ctxs
uncount null = some null
uncount released = none
uncount (live arr) = some (live (record arr { ele_count = (arr.ele_count + 2 ^ 32 - 1) % 2 ^ 32 }))

-- `fs_pool_release` of it; free(NULL) does nothing
abbrev pub drop_ctxs : Ctxs → Ctxs
drop_ctxs null = null
drop_ctxs _ = released

module _ {W : Type 0} where
  abbrev pub with_run : Conf W → Run → Conf W
  with_run c r = record c { run = r }

  -- `*top_ctx = *subtop_ctx`; below the only frame stands the header, which is no frame
  unfoldable pub share_ctx : Conf W → Option (Conf W)
  unfolding Run.st_empty load_ctx store_ctx
  share_ctx c =
      if Run.st_empty (Run.st_pop c.run)
      then none
      else elim (load_ctx c.run (st_subtop c.run).ctx) [
        | none ↦ none
        | some v ↦ elim (store_ctx c.run (st_top c.run).ctx v) [
          | none ↦ none
          | some r ↦ some (with_run c r)
        ]
      ]

  abbrev pub set_mod : Conf W → ℕ → ModState → Conf W
  set_mod c i m = record c { mods = set c.mods i m }

  -- `// used block`
  unfoldable pub use_block : Os → ℕ → Conf W → Option (Bool × Conf W)
  unfolding stored_ctx load_ctx
  use_block os i c = elim (get_elem? c.mods i) [
    | none ↦ none
    | some m ↦ elim (load_ctx c.run (st_top c.run).ctx) [
      | none ↦ none
      | some v ↦ elim (stored_ctx os (first_ctxs os m) v) [
        | none ↦ none
        | some ctxs ↦ some (not m.used, set_mod c i (record { used = true; ctxs = ctxs }))
      ]
    ]
  ]
