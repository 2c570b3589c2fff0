-- ===== src/Trace/File.antt =====
-- prefetch-initscripts/prefetch_lib.cpp: opening, reading and closing a trace file, and the header
-- of one that is written. An error return (< 0) is `none` or `failed`; messages are left out.
pub mod Opening
pub mod Reading
use prefetch.Common.{
  ℕ, zero, suc, ◌+◌, ◌≡◌, Bool, true, false, not, Option, none, some, List, [], ◌∷◌, ◌++◌, ltb,
  ◌==◌, if◌then◌else◌, length, take, drop,
}
use prefetch.Trace.{TraceRecord}
use prefetch.Trace.Bytes.{put16, get16, record_size, header_size, record_at}
use prefetch.Trace.Posix.{Posix}

-- {'P', 'F', 'C', 'H'}
abbrev pub trace_file_magic : List ℕ
trace_file_magic = b'P' ∷ b'F' ∷ b'C' ∷ b'H' ∷ []

abbrev pub version_major_supported : ℕ
version_major_supported = 1

abbrev pub version_minor_supported : ℕ
version_minor_supported = 0

pub record TraceHeader : Type 0 where
  pub magic : List ℕ
  pub version_major : ℕ
  pub version_minor : ℕ
  pub data_start : ℕ

-- The header as it lies in memory, and back.
unfoldable pub header_bytes : TraceHeader → List ℕ
header_bytes h =
    take 4 h.magic ++ put16 h.version_major ++ put16 h.version_minor ++ put16 h.data_start

unfoldable pub header_at : List ℕ → TraceHeader
header_at bs = record {
  magic = take 4 bs;
  version_major = get16 bs 4;
  version_minor = get16 bs 6;
  data_start = get16 bs 8;
}

unfoldable pub fill_trace_file_header : TraceHeader
fill_trace_file_header = record {
  magic = trace_file_magic;
  version_major = version_major_supported;
  version_minor = version_minor_supported;
  data_start = header_size;
}

-- `strncmp(a, b, n) == 0`
unfoldable pub strncmp_eq : ℕ → List ℕ → List ℕ → Bool
strncmp_eq zero xs ys = true
strncmp_eq (suc n) (x ∷ xs) (y ∷ ys) = elim (x == y) [
  | true ↦ elim (x == 0) [ true ↦ true | false ↦ strncmp_eq n xs ys ]
  | false ↦ false
]
strncmp_eq (suc n) xs ys = false

module _ (px : Posix) where
  open px use {FileName, Fd, open_rdonly, read, lseek_set, close}

  -- The checks on the header that is in the buffer, and the seek to the data.
  pub check_header : Fd → TraceHeader → Option Fd
  check_header fd header =
      if not (strncmp_eq 4 header.magic trace_file_magic)
      then none
      else if not (header.version_major == version_major_supported)
      then none
      else if ltb header.data_start header_size
      then none
      else lseek_set fd header.data_start

  -- `stack` is what the buffer of the header holds before the read; a short read leaves its end.
  unfoldable pub open_trace_file : List ℕ → FileName → Option Fd
  open_trace_file stack filename = elim (open_rdonly filename) [
    | none ↦ none
    | some fd ↦ elim (read fd header_size).0 [
      | none ↦ none
      | some bs ↦ check_header (read fd header_size).1 (header_at (bs ++ drop (length bs) stack))
    ]
  ]

  unfoldable pub close_trace_file : Fd → Bool
  close_trace_file fd = close fd

  pub data RecordRead : Type 0 where
    got : TraceRecord → Fd → RecordRead
    at_end : RecordRead
    failed : RecordRead

  pub read_result : Option (List ℕ) → Fd → RecordRead
  unfolding record_at
  read_result none fd = failed
  read_result (some bs) fd =
      if length bs == 0
      then at_end
      else if not (length bs == record_size)
      then failed
      else got (record_at bs) fd

  -- 0, 1 and < 0 are `got`, `at_end` and `failed`.
  unfoldable pub read_prefetch_record : Fd → RecordRead
  unfolding read_result
  read_prefetch_record fd = let (r, fd') = read fd record_size in read_result r fd'
