-- ===== src/Os.antt =====
-- What the program asks of the operating system and of uninitialised storage, as parameters.
use folksong.Prelude.{ℕ, Bool, Option, Bytes}
use folksong.Arr.{Malloc}

pub record Os : Type 0 where
  -- whether a request of so many bytes gets memory
  pub malloc : Malloc
  -- what a byte of fresh memory holds before it is written
  pub fill : ℕ
  -- whether `open` of a path succeeds, and the `st_size` that is there after `fstat`
  pub opens : Bytes → Bool
  pub st_size : ℕ
  -- whether `lseek` to an offset succeeds
  pub seeks : ℕ → Bool
  -- `read` of so many bytes at an offset: `none` is -1
  pub read : ℕ → ℕ → Option Bytes
  -- whether the `int err` that `fs_file_read` returns unset happens to equal FS_FILE_ERROR
  pub stray : Bool
