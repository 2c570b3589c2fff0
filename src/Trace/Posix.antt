-- ===== src/Trace/Posix.antt =====
-- The system calls and stdio functions that the tools use, as an interface: `open`, `read`, `lseek`,
-- `close`, `fwrite` to stdout and `ferror`, with what their documentation promises.
pub mod Memory
use prefetch.Common.{ℕ, ◌+◌, ◌≡◌, Bool, false, Option, some, List, ◌++◌, take, drop, length}

pub record Posix : Type 1 where
  pub FileName : Type 0
  -- an open descriptor with its offset
  pub Fd : Type 0
  -- open(name, O_RDONLY); `none` is -1
  pub open_rdonly : FileName → Option Fd
  -- read(fd, buf, n): the bytes read, or `none` for -1
  pub read : Fd → ℕ → Option (List ℕ) × Fd
  -- lseek(fd, offset, SEEK_SET); `none` is -1
  pub lseek_set : Fd → ℕ → Option Fd
  -- close(fd); `false` is -1
  pub close : Fd → Bool

-- A descriptor of a regular file reads its bytes from the offset on, all that is asked for while
-- there are bytes left.
pub record RegularFiles (px : Posix) : Type 1 where
  pub At : px.Fd → List ℕ → ℕ → Type 0
  pub read_at :
      (fd : px.Fd) (bytes : List ℕ) (offset n : ℕ)
      → At fd bytes offset
      → ((px.read fd n).0 ≡ some (take n (drop offset bytes)))
        × At (px.read fd n).1 bytes (offset + length (take n (drop offset bytes)))
  pub lseek_at :
      (fd : px.Fd) (bytes : List ℕ) (offset target : ℕ)
      → At fd bytes offset
      → (fd' : px.Fd) × (px.lseek_set fd target ≡ some fd') × At fd' bytes target

pub record Stdout : Type 1 where
  pub Out : Type 0
  -- fwrite(p, size, 1, stdout): the number of items written
  pub fwrite : Out → List ℕ → ℕ × Out
  pub ferror : Out → Bool

-- Where the error indicator is not set after an `fwrite`, the whole item was written.
pub record Buffered (io : Stdout) : Type 1 where
  pub written : io.Out → List ℕ
  pub fwrite_written :
      (out : io.Out) (item : List ℕ)
      → io.ferror (io.fwrite out item).1 ≡ false
      → ((io.fwrite out item).0 ≡ 1) × (written (io.fwrite out item).1 ≡ written out ++ item)
