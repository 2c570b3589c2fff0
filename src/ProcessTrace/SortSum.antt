-- ===== src/ProcessTrace/SortSum.antt =====
-- The `sort-sum` command on the records in memory: `std::sort` with `trace_record_cmp`, and
-- `trace_merge`. The sort is a parameter with the contract of the C++ standard, since it is not
-- stable and the order of records that tie is its own.
pub mod Insertion
pub mod Laws
use mathlib.Core.List.{Permᴰ}
use prefetch.Common.{List}
use prefetch.ProcessTrace.{RecordData, trace_merge}
use prefetch.ProcessTrace.Separated.{IsSorted}

-- What `sort(begin, end, cmp)` promises.
pub record StdSort : Type 0 where
  pub sort : List RecordData → List RecordData
  pub sorted : (rs : List RecordData) → IsSorted (sort rs)
  pub permuted : (rs : List RecordData) → Permᴰ rs (sort rs)

module _ (std : StdSort) where
  pub trace_file_data_sorted_sum : List RecordData → List RecordData
  trace_file_data_sorted_sum records = trace_merge (std.sort records)
