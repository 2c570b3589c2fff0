-- ===== src/PrintTrace/Tests.antt =====
-- Runs of the tool that prints traces, and its theorems at concrete inputs.
use prefetch.Common.{ℕ, ◌≡◌, ◌⊎◌, refl, none, some, List, [], ◌∷◌, ◌++◌, arith}
use prefetch.Trace.{TraceRecord, IsTraceRecord, trace_record, major, minor}
use prefetch.Trace.Bytes.{record_bytes}
use prefetch.Trace.Posix.Memory.{MemoryFd, memory_files}
use prefetch.Trace.File.{header_bytes, fill_trace_file_header, open_trace_file}
use prefetch.ProcessTrace.ReadData.{trace_file_read_data}
use prefetch.PrintTrace.{exited, digits, print_unsigned, record_line, main}
use prefetch.PrintTrace.Laws.{report, main-trace_file_read_data}
use prefetch.PrintTrace.ReadBack.{read_line, read_line-record_line}

-- Device 8:1, inode 4711, 16 pages from page 32 on.
abbrev one : TraceRecord
one = trace_record 8388609 4711 32 16

abbrev file : List ℕ
file = header_bytes fill_trace_file_header ++ record_bytes one

-- "8:1\t4711\t32\t16\n"
line_of_one :
    record_line one
    ≡ b'8' ∷ b':' ∷ b'1' ∷ 9 ∷ b'4' ∷ b'7' ∷ b'1' ∷ b'1' ∷ 9 ∷ b'3' ∷ b'2' ∷ 9 ∷ b'1' ∷ b'6' ∷ 10
      ∷ []
unfolding record_line print_unsigned digits major minor
line_of_one = refl

main-trace_file_read_data_example :
    ((open_trace_file memory_files [] (some file) ≡ none)
      × (main memory_files 3 [] (some file ∷ []) ≡ exited 1 []))
    ⊎ ((fd : MemoryFd) × (open_trace_file memory_files [] (some file) ≡ some fd)
        × (main memory_files 3 [] (some file ∷ [])
            ≡ report (trace_file_read_data memory_files 3 [] (some file) 0 [])))
main-trace_file_read_data_example = main-trace_file_read_data memory_files 3 [] (some file)

one_words : IsTraceRecord one
one_words = record {
  device_word = omega arith;
  inode_word = omega arith;
  start_word = omega arith;
  length_word = omega arith;
}

read_line-record_line_example : read_line (record_line one ++ 5 ∷ []) ≡ (one, 5 ∷ [])
read_line-record_line_example = read_line-record_line one (5 ∷ []) one_words
