-- ===== src/Version.antt =====
-- mod/fs_mod_version.c: the text that is printed when the configuration has been read.
use folksong.Prelude.{
  ℕ, zero, suc, ◌≡◌, refl, Bool, Option, none, some, List, [], ◌∷◌, if◌then◌else◌, codes,
}
use folksong.Arr.{Malloc}
use folksong.Cmd.{Cmd, block_cmd, param_cmd}
use folksong.Token.{Ret, ok, pass}

-- the two texts: "folk song", and the same as a picture
pub data Welcome : Type 0 where
  folk_song art : Welcome

-- `fs_mod_version_s`: `welcome` is `none` while nothing was written to it
pub record Version : Type 0 where
  pub welcome : Option Welcome

-- the handlers' numbers
abbrev pub fs_version : ℕ
fs_version = 400

abbrev pub fs_version_art : ℕ
fs_version_art = 401

abbrev pub commands : List Cmd
commands =
    block_cmd (codes "fs_version") fs_version
    ∷ param_cmd (codes "fs_version_art") fs_version_art
    ∷ []

-- sizeof(fs_mod_version_t) on a 64-bit target
abbrev pub sizeof_version : ℕ
sizeof_version = 8

-- `fs_mod_version_init_mod`: one context at most; a NULL is handed on
unfoldable pub init_mod : Malloc → Bool → Ret × Option Version
init_mod malloc used =
    if used
    then (pass, none)
    else (ok, if malloc sizeof_version then some (record { welcome = none }) else none)

-- `fs_mod_version_init_mod_completed`
unfoldable pub init_mod_completed : Version → Ret × Version
init_mod_completed v = (ok, v)

-- `fs_mod_verison_init`
unfoldable pub version_init : Version → Ret × Version
version_init v = (ok, record { welcome = some folk_song })

-- `fs_mod_version_art`
unfoldable pub version_art : Version → Ret × Version
version_art v = (ok, record { welcome = some art })

-- `fs_mod_version_inited`, over the contexts: what is printed, and `none` for a read of what is not there
unfoldable pub inited : List Version → Option Welcome
inited [] = none
inited (v ∷ vs) = v.welcome

-- so many `fs_version_art` statements
abbrev arts : ℕ → Version → Version
arts zero v = v
arts (suc n) v = arts n (version_art v).1

arts-art : (n : ℕ) (v : Version) → v.welcome ≡ some art → inited (arts n v ∷ []) ≡ some art
unfolding inited version_art
arts-art zero v e = e
arts-art (suc n) v e = arts-art n (record { welcome = some art }) refl

-- A block without a statement prints the text, and one with statements the picture.
inited-welcome :
    (n : ℕ) (v : Version)
    → inited (arts n (version_init v).1 ∷ []) ≡ some (elim n [ zero ↦ folk_song | suc k ↦ art ])
unfolding inited version_init version_art
inited-welcome zero v = refl
inited-welcome (suc n) v = arts-art n (record { welcome = some art }) refl
