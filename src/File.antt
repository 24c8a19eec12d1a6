-- ===== src/File.antt =====
-- core/fs_buf.h, core/fs_file.h and core/fs_file.c: a buffer over a file, filled on demand.
use folksong.Prelude.{
  ℕ, ◌+◌, ◌-◌, Bool, true, Option, none, some, ◌++◌, ◌==◌, ltb, leb, if◌then◌else◌, get_elem?,
  length, drop, replicate, Bytes,
}
use folksong.Os.{Os}

-- `fs_buf_s`: a block, with the two offsets that stand for its pointers.
pub record Buf : Type 0 where
  pub buf_len : ℕ
  pub mem : Bytes
  pub pos : ℕ
  pub last : ℕ

-- `fs_file_s`: `st_size` is the field of `info` that is read, and `fd_invalid` says whether `fd`
-- is FS_INVALID_FILE.
pub record File : Type 0 where
  pub fd_invalid : Bool
  pub st_size : ℕ
  pub buf : Buf
  pub off : ℕ
  pub line : ℕ

abbrev pub buf_overflow : Buf → Bool
buf_overflow b = leb b.last b.pos

abbrev pub buf_capacity : Buf → ℕ
buf_capacity b = b.buf_len

-- `fs_buf_alloc`: the block's bytes are not set, and NULL is not noticed
unfoldable pub buf_alloc : Os → ℕ → Buf
buf_alloc os size = record { buf_len = size; mem = replicate size os.fill; pos = 0; last = size }

-- `fs_buf_lshift(char, b)`: `none` is a read outside the block
unfoldable pub buf_lshift : Buf → Option (ℕ × Buf)
buf_lshift b = elim (get_elem? b.mem b.pos) [
  | none ↦ none
  | some c ↦ some (c, record b { pos = b.pos + 1 })
]

abbrev pub file_done : File → Bool
file_done f = leb f.st_size f.off

abbrev pub remain_size : File → ℕ
remain_size f = f.st_size - f.off

-- the bytes read lie over the front of the block
abbrev pub filled : Buf → Bytes → Buf
filled b bytes = record b { mem = bytes ++ drop (length bytes) b.mem; pos = 0; last = length bytes }

-- `fs_file_read_in_buf`: `none` is FS_FILE_ERROR
unfoldable pub file_read_in_buf : Os → File → ℕ → ℕ → Option ℕ × File
file_read_in_buf os f size off =
    if os.seeks off
    then elim (os.read off size) [
      | none ↦ (none, record f { off = off })
      | some bytes ↦
          (some (length bytes), record f { buf = filled f.buf bytes; off = off + length bytes })
    ]
    else (none, f)

-- The macro `fs_file_read`, compared with FS_FILE_ERROR: `err` is set on the two failures alone.
unfoldable pub file_read : Os → File → ℕ → Bool × File
unfolding file_read_in_buf
file_read os f size =
    let target : ℕ = if ltb (buf_capacity f.buf) size then buf_capacity f.buf else size in
    let (n, f') = file_read_in_buf os f target f.off in
    (elim n [ none ↦ true | some k ↦ if k == target then os.stray else true ], f')
