-- ===== src/ProcessTrace.antt =====
-- prefetch-initscripts/prefetch-process-trace.cpp: comparing, sorting and merging trace records.
pub mod Compare
pub mod Overlap
pub mod Merge
pub mod Separated
pub mod Canonical
pub mod SortSum
pub mod ReadData
pub mod UnitTests
pub mod Main
mod Tests
use prefetch.Common.{
  ℕ, ◌≡◌, Bool, true, false, not, ◌||◌, Option, none, some, List, [], ◌∷◌, min, max, ltb, ◌==◌,
  if◌then◌else◌, add32, sub32, ℤ, pos, negsuc, is_neg,
}
use prefetch.Trace.{TraceRecord}

pub record RecordData : Type 0 where
  pub trace_record : TraceRecord
  pub open trace_record use *
  pub index : ℕ

-- The order of the tool: device, inode, start, and the longer range first.
pub trace_cmp : TraceRecord → TraceRecord → ℤ
trace_cmp r1 r2 =
    if ltb r1.device r2.device
    then negsuc 0
    else if ltb r2.device r1.device
    then pos 1
    else if ltb r1.inode_no r2.inode_no
    then negsuc 0
    else if ltb r2.inode_no r1.inode_no
    then pos 1
    else if ltb r1.range_start r2.range_start
    then negsuc 0
    else if ltb r2.range_start r1.range_start
    then pos 1
    else if ltb r1.range_length r2.range_length
    then pos 1
    else if ltb r2.range_length r1.range_length
    then negsuc 0
    else pos 0

abbrev is_zero : ℤ → Bool
is_zero (pos n) = n == 0
is_zero (negsuc n) = false

-- `operator==` on `record_data_t`
pub eq_record_data : RecordData → RecordData → Bool
unfolding trace_cmp
eq_record_data r1 r2 =
    if not (r1.index == r2.index)
    then false
    else if not (is_zero (trace_cmp r1.trace_record r2.trace_record))
    then false
    else true

-- the functor handed to `std::sort`; the index is ignored
pub trace_record_cmp : RecordData → RecordData → Bool
trace_record_cmp t1 t2 = if is_neg (trace_cmp t1.trace_record t2.trace_record) then true else false

-- `start + len` is an `unsigned long` sum, which wraps.
pub ranges_overlap : ℕ → ℕ → ℕ → ℕ → Bool
ranges_overlap start1 len1 start2 len2 =
    if ltb (add32 start1 len1) start2
    then false
    else if ltb (add32 start2 len2) start1
    then false
    else true

-- `*it` cannot be merged into `*current`.
pub is_unmergeable : RecordData → RecordData → Bool
is_unmergeable current it =
    not (current.device == it.device)
    || (not (current.inode_no == it.inode_no)
        || not (
            ranges_overlap current.range_start current.range_length it.range_start it.range_length))

-- The record that replaces `*current`.
pub merge_records : RecordData → RecordData → RecordData
merge_records current it =
    let start = min current.range_start it.range_start in
    let max_end =
      max (add32 current.range_start current.range_length) (add32 it.range_start it.range_length) in
    record {
      trace_record = record {
        device = current.device;
        inode_no = current.inode_no;
        range_start = start;
        range_length = sub32 max_end start;
      };
      index = min it.index current.index;
    }

-- The loop of `trace_merge`: `none` is `current == end`, and the result is what is pushed to
-- `output` from here on.
pub merge_loop : Option RecordData → List RecordData → List RecordData
merge_loop none [] = []
merge_loop none (it ∷ rest) = merge_loop (some it) rest
merge_loop (some current) [] = current ∷ []
merge_loop (some current) (it ∷ rest) = elim (is_unmergeable current it) [
  | true ↦ current ∷ merge_loop (some it) rest
  | false ↦ merge_loop (some (merge_records current it)) rest
]

-- over the whole container, which `output` replaces
pub trace_merge : List RecordData → List RecordData
unfolding merge_loop
trace_merge records = merge_loop none records
