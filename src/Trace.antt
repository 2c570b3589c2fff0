-- ===== src/Trace.antt =====
-- prefetch-initscripts/prefetch_types.h: the trace record and the device number, with the words of
-- the i686 build (`kdev_t` and `pgoff_t` are 32 bits wide).
pub mod Bytes
pub mod Posix
pub mod File
use prefetch.Common.{ℕ, ◌/◌, ◌%◌, ◌^◌, ◌<◌, word_mod}

pub record TraceRecord : Type 0 where
  pub device : ℕ
  pub inode_no : ℕ
  pub range_start : ℕ
  pub range_length : ℕ

abbrev pub trace_record : ℕ → ℕ → ℕ → ℕ → TraceRecord
trace_record d i s l = record { device = d; inode_no = i; range_start = s; range_length = l }

-- The fields are words.
pub record IsTraceRecord (r : TraceRecord) : Type 0 where
  pub device_word : r.device < word_mod
  pub inode_word : r.inode_no < word_mod
  pub start_word : r.range_start < word_mod
  pub length_word : r.range_length < word_mod

abbrev pub minor_bits : ℕ
minor_bits = 20

-- MAJOR(dev) and MINOR(dev)
unfoldable pub major : ℕ → ℕ
major dev = dev / 2 ^ minor_bits

unfoldable pub minor : ℕ → ℕ
minor dev = dev % 2 ^ minor_bits
