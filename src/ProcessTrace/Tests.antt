-- ===== src/ProcessTrace/Tests.antt =====
-- Runs of the trace tool, and its theorems at concrete inputs.
use prefetch.Common.{
  ℕ, ◌≡◌, refl, ◌⊎◌, false, Option, none, some, List, [], ◌∷◌, ◌++◌, arith, length, ◌≤◌,
}
use prefetch.Trace.{TraceRecord, trace_record}
use prefetch.Trace.Bytes.{record_bytes}
use prefetch.Trace.Posix.Memory.{
  MemoryFd, memory_files, memory_regular, MemoryOut, memory_stdout, memory_buffered,
}
use prefetch.Trace.File.{header_bytes, header_at, fill_trace_file_header, open_trace_file}
use prefetch.Trace.File.Opening.{IsSupported, buffer, open_trace_file_lem, open_trace_file_stack}
use prefetch.ProcessTrace.{
  RecordData, trace_merge, ranges_overlap, trace_cmp, trace_record_cmp, is_unmergeable,
  merge_records,
}
use prefetch.ProcessTrace.Overlap.{covers_record}
use prefetch.ProcessTrace.Merge.{covers, AllFit, trace_merge-covers}
use prefetch.ProcessTrace.Separated.{
  IsSorted, Separated, trace_merge-Separated, trace_merge-trace_merge,
}
use prefetch.ProcessTrace.Canonical.{SamePages, trace_records}
use prefetch.ProcessTrace.SortSum.{trace_file_data_sorted_sum}
use prefetch.ProcessTrace.SortSum.Laws.{sorted_sum_unique}
use prefetch.ProcessTrace.SortSum.Insertion.{insertion}
use prefetch.ProcessTrace.ReadData.{read_done, trace_file_read_data, output_trace_file_data}
use prefetch.ProcessTrace.ReadData.Laws.{number, finish, trace_file_read_data_lem}
use prefetch.ProcessTrace.ReadData.RoundTrip.{trace_bytes, read-output}
use prefetch.ProcessTrace.Main.{sort_sum}
use prefetch.ProcessTrace.Main.Laws.{all_records, sort_sum_lem}

abbrev data_at : TraceRecord → ℕ → RecordData
data_at r i = record { trace_record = r; index = i }

-- Three records of inode 7 in the order of the tool; the first two touch.
abbrev three : List RecordData
three =
    data_at (trace_record 1 7 0 4) 2
    ∷ data_at (trace_record 1 7 4 2) 0
    ∷ data_at (trace_record 1 7 9 1) 1
    ∷ []

abbrev merged_three : List RecordData
merged_three = data_at (trace_record 1 7 0 6) 0 ∷ data_at (trace_record 1 7 9 1) 1 ∷ []

-- The same pages, cut otherwise and out of order.
abbrev other_cut : List RecordData
other_cut =
    data_at (trace_record 1 7 9 1) 0
    ∷ data_at (trace_record 1 7 2 4) 1
    ∷ data_at (trace_record 1 7 0 3) 2
    ∷ []

three-AllFit : AllFit three
three-AllFit = omega arith

three-IsSorted : IsSorted three
unfolding trace_record_cmp trace_cmp
three-IsSorted = (refl, (refl, tt))

trace_merge-three : trace_merge three ≡ merged_three
unfolding trace_merge is_unmergeable ranges_overlap merge_records
trace_merge-three = refl

other_cut-SamePages : SamePages other_cut three
unfolding covers covers_record
other_cut-SamePages d i p = ground arith

trace_merge-covers_example : covers (trace_merge three) 1 7 5 ≡ covers three 1 7 5
trace_merge-covers_example = trace_merge-covers three three-AllFit 1 7 5

trace_merge-Separated_example : Separated (trace_merge three)
trace_merge-Separated_example = trace_merge-Separated three three-AllFit three-IsSorted

trace_merge-trace_merge_example : trace_merge (trace_merge three) ≡ trace_merge three
trace_merge-trace_merge_example = trace_merge-trace_merge three three-AllFit three-IsSorted

sorted_sum_unique_example :
    trace_records (trace_file_data_sorted_sum insertion other_cut)
    ≡ trace_records (trace_file_data_sorted_sum insertion three)
sorted_sum_unique_example =
    sorted_sum_unique insertion insertion other_cut three (omega arith) three-AllFit (omega arith)
      (omega arith) other_cut-SamePages

-- what the stack holds before the header is read
abbrev zeros : List ℕ
zeros = 0 ∷ 0 ∷ 0 ∷ 0 ∷ 0 ∷ 0 ∷ 0 ∷ 0 ∷ 0 ∷ 0 ∷ []

abbrev first_trace : List TraceRecord
first_trace = trace_record 1 7 4 2 ∷ trace_record 1 7 9 1 ∷ []

abbrev second_trace : List TraceRecord
second_trace = trace_record 1 7 0 4 ∷ []

abbrev opened : List ℕ → MemoryFd
opened bytes = record { content = bytes; offset = 0 }

first-IsSupported :
    IsSupported (header_at (buffer memory_files memory_regular zeros (trace_bytes first_trace)))
unfolding header_at header_bytes fill_trace_file_header
first-IsSupported = record {
  magic_matches = refl;
  version_matches = refl;
  data_behind = omega arith;
}

open_trace_file_lem_example :
    let h = header_at (buffer memory_files memory_regular zeros (trace_bytes first_trace)) in
    (IsSupported h
      → (fd : MemoryFd) × (open_trace_file memory_files zeros (some (trace_bytes first_trace))
          ≡ some fd)
        × memory_regular.At fd (trace_bytes first_trace) h.data_start)
    × (¬ IsSupported h → open_trace_file memory_files zeros (some (trace_bytes first_trace)) ≡ none)
open_trace_file_lem_example =
    open_trace_file_lem memory_files memory_regular zeros (trace_bytes first_trace)
      (some (trace_bytes first_trace)) (opened (trace_bytes first_trace)) refl (refl, refl)

-- An empty file, read where an earlier call has left its header.
abbrev left_header : List ℕ
left_header = b'P' ∷ b'F' ∷ b'C' ∷ b'H' ∷ 1 ∷ 0 ∷ 0 ∷ 0 ∷ 10 ∷ 0 ∷ []

open_trace_file_stack_example :
    (10 ≤ 0
      → (stack' : List ℕ) → length stack' ≡ 10
      → open_trace_file memory_files stack' (some [])
        ≡ open_trace_file memory_files left_header (some []))
    × (◌≡◌ {A = List ℕ} [] []
        → IsSupported (header_at left_header)
        → (fd' : MemoryFd) × (open_trace_file memory_files left_header (some []) ≡ some fd'))
open_trace_file_stack_example =
    open_trace_file_stack memory_files memory_regular left_header [] (some []) (opened []) refl
      (refl, refl) refl

trace_file_read_data_lem_example :
    trace_file_read_data memory_files 3 zeros (some (trace_bytes first_trace)) 5 []
    ≡ finish [] 7 (number 5 first_trace)
unfolding header_at header_bytes fill_trace_file_header record_bytes
trace_file_read_data_lem_example =
    trace_file_read_data_lem memory_files memory_regular 3 zeros (trace_bytes first_trace) []
      (some (trace_bytes first_trace)) (opened (trace_bytes first_trace)) first_trace 5 [] refl
      (refl, refl) first-IsSupported refl (omega arith) (omega arith) (omega arith)

abbrev empty_out : MemoryOut
empty_out = record { bytes = []; room = 1000; error = false }

read-output_example :
    trace_file_read_data memory_files 5 zeros
      (some (output_trace_file_data memory_stdout empty_out three).1.bytes)
      0
      []
    ≡ read_done 3 (number 0 (trace_records three))
unfolding output_trace_file_data header_bytes fill_trace_file_header record_bytes
read-output_example =
    read-output memory_stdout memory_buffered memory_files memory_regular empty_out three 5 zeros
      (some (output_trace_file_data memory_stdout empty_out three).1.bytes)
      (opened (output_trace_file_data memory_stdout empty_out three).1.bytes) 0 refl refl refl
      (refl, refl) (omega arith) (omega arith)

abbrev two_files : List (List ℕ × Option (List ℕ))
two_files = (zeros, some (trace_bytes first_trace)) ∷ (zeros, some (trace_bytes second_trace)) ∷ []

abbrev two_traces : List (List TraceRecord)
two_traces = first_trace ∷ second_trace ∷ []

sort_sum_lem_example :
    let inputs = number 0 (all_records two_traces) in
    let sum = trace_file_data_sorted_sum insertion inputs in
    let run = sort_sum memory_files memory_stdout insertion 3 two_files empty_out in
    ((run.0 ≡ some 0) ⊎ (run.0 ≡ some 1))
    × (run.0 ≡ some 0 → run.1.bytes ≡ [] ++ trace_bytes (trace_records sum))
    × SamePages sum inputs
    × Separated sum
sort_sum_lem_example =
    sort_sum_lem memory_files memory_regular memory_stdout memory_buffered insertion 3 two_files
      two_traces empty_out
      (
        (opened (trace_bytes first_trace), refl, (refl, refl)),
        omega arith,
        omega arith,
        ((opened (trace_bytes second_trace), refl, (refl, refl)), omega arith, omega arith, tt),
      )
      (omega arith)
