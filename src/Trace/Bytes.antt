-- ===== src/Trace/Bytes.antt =====
-- The bytes of a trace file: little-endian words, the 10-byte header and the 16-byte record of the
-- i686 build (`u16` has alignment 2, the record is four 32-bit words).
use prefetch.Common.{
  ℕ, ◌+◌, ◌*◌, ◌/◌, ◌%◌, ◌^◌, ◌<◌, ◌≡◌, refl, List, [], ◌∷◌, ◌++◌, arith, length, word_mod, get_or,
}
use prefetch.Trace.{TraceRecord, IsTraceRecord}

abbrev pub put16 : ℕ → List ℕ
put16 w = w % 256 ∷ w / 256 % 256 ∷ []

abbrev pub put32 : ℕ → List ℕ
put32 w = w % 256 ∷ w / 256 % 256 ∷ w / 256 ^ 2 % 256 ∷ w / 256 ^ 3 % 256 ∷ []

-- The word at an offset of a buffer.
abbrev pub get16 : List ℕ → ℕ → ℕ
get16 bs at = get_or bs at 0 + 256 * get_or bs (at + 1) 0

abbrev pub get32 : List ℕ → ℕ → ℕ
get32 bs at =
    get_or bs at 0
    + 256 * get_or bs (at + 1) 0
    + 256 ^ 2 * get_or bs (at + 2) 0
    + 256 ^ 3 * get_or bs (at + 3) 0

-- sizeof(prefetch_trace_record_t) and sizeof(prefetch_trace_header_t)
abbrev pub record_size : ℕ
record_size = 16

abbrev pub header_size : ℕ
header_size = 10

-- A record as it lies in memory, and back.
unfoldable pub record_bytes : TraceRecord → List ℕ
record_bytes r = put32 r.device ++ put32 r.inode_no ++ put32 r.range_start ++ put32 r.range_length

unfoldable pub record_at : List ℕ → TraceRecord
record_at bs = record {
  device = get32 bs 0;
  inode_no = get32 bs 4;
  range_start = get32 bs 8;
  range_length = get32 bs 12;
}

pub length-record_bytes : (r : TraceRecord) → length (record_bytes r) ≡ record_size
unfolding record_bytes
length-record_bytes r = refl

word_bytes :
    (w : ℕ)
    → w < word_mod
    → w % 256
        + 256 * (w / 256 % 256)
        + 256 ^ 2 * (w / 256 ^ 2 % 256)
        + 256 ^ 3 * (w / 256 ^ 3 % 256)
      ≡ w
word_bytes w h = omega arith

pub record_at-record_bytes : (r : TraceRecord) → IsTraceRecord r → record_at (record_bytes r) ≡ r
unfolding record_at record_bytes
record_at-record_bytes r h = ground (
  arith,
  word_bytes r.device h.device_word,
  word_bytes r.inode_no h.inode_word,
  word_bytes r.range_start h.start_word,
  word_bytes r.range_length h.length_word,
)
