-- ===== src/Conf.antt =====
-- `fs_conf_s` and `fs_mod_s` of core/fs_conf.h and core/fs_mod.h: the state of a configuration run,
-- and what a module hands to it. `global_mods` is made by the build, so the modules are a parameter.
pub mod Contexts
pub mod Handle
pub mod Parse
pub mod Stack
pub mod Unknown
use folksong.Prelude.{ℕ, Bool, true, false, Option, none, some, List, [], ◌∷◌, if◌then◌else◌}
use folksong.Arr
use folksong.Arr.{Arr}
use folksong.Cmd.{Cmd}
use folksong.Lexer.{Source}
use folksong.Run.{Run}
use folksong.Token.{Ret}

-- the array that `ctxs` points to, if it was made and is not released
pub data Ctxs : Type 0 where
  null released : Ctxs
  live : Arr (Option ℕ) → Ctxs

-- the fields of `fs_mod_s` that change
pub record ModState : Type 0 where
  pub used : Bool
  pub ctxs : Ctxs

-- `W` is the state that belongs to the modules: what their contexts point to, and libuv's.
pub record Conf (W : Type 0) : Type 0 where
  pub source : Source
  pub run : Run
  pub mods : List ModState
  pub world : W

-- A handler answers a status. Handlers work on their modules' state alone.
pub record Mod (W : Type 0) : Type 0 where
  pub commands : List Cmd
  pub init_mod : Option (Conf W → Cmd → Ret × Option ℕ × W)
  pub completed : Option (Conf W → Option ℕ → Ret × W)
  pub call : ℕ → Conf W → Option ℕ → Ret × W
  pub inited : Conf W → Ctxs → W

-- `fs_gmod_init`
unfoldable pub gmod_init : List ModState → List ModState
gmod_init [] = []
gmod_init (m ∷ ms) = record m { used = false } ∷ gmod_init ms

module _ {W : Type 0} where
  -- `fs_gmod_inited`, over the modules and their states side by side
  unfoldable pub gmod_inited : List (Mod W) → List ModState → Conf W → Conf W
  gmod_inited [] ms c = c
  gmod_inited (g ∷ gs) [] c = c
  gmod_inited (g ∷ gs) (m ∷ ms) c =
      gmod_inited gs ms (if m.used then record c { world = g.inited c m.ctxs } else c)
