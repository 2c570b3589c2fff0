-- ===== src/PrintTrace.antt =====
-- prefetch-initscripts/prefetch-print-trace.cpp: a trace as lines of text.
pub mod Laws
pub mod ReadBack
pub mod Tests
use prefetch.Common.{
  ℕ, zero, suc, ◌+◌, ◌/◌, ◌%◌, ◌==◌, if◌then◌else◌, Option, none, some, List, [], ◌∷◌, ◌++◌,
}
use prefetch.Trace.{TraceRecord, major, minor}
use prefetch.Trace.Posix.{Posix}
use prefetch.Trace.File.{open_trace_file, read_prefetch_record, got, at_end, failed}

-- printf of an unsigned number: its digits in front of `rest`, at most `n` of them.
unfoldable pub digits : ℕ → ℕ → List ℕ → List ℕ
digits zero number rest = rest
digits (suc n) number rest =
    let rest' = (b'0' + number % 10) ∷ rest in
    let more = digits n (number / 10) rest' in if number / 10 == 0 then rest' else more

-- A word of 32 bits has ten digits at most.
unfoldable pub print_unsigned : ℕ → List ℕ
print_unsigned number = digits 10 number []

-- "%u:%u\t%lu\t%lu\t%lu\n"
unfoldable pub record_line : TraceRecord → List ℕ
record_line r =
    print_unsigned (major r.device)
    ++ b':'
      ∷ (print_unsigned (minor r.device)
          ++ 9
            ∷ (print_unsigned r.inode_no
                ++ 9
                  ∷ (print_unsigned r.range_start
                      ++ 9 ∷ (print_unsigned r.range_length ++ 10 ∷ []))))

-- The exit status and what is printed to stdout.
pub data Printing : Type 0 where
  exited : ℕ → List ℕ → Printing
  no_exit : Printing

module _ (px : Posix) where
  open px use {FileName, Fd}

  -- the loop over the records, with `out` printed so far
  unfoldable pub print_loop : ℕ → Fd → List ℕ → Printing
  print_loop zero fd out = no_exit
  print_loop (suc fuel) fd out = elim (read_prefetch_record px fd) [
    | at_end ↦ exited 0 out
    | failed ↦ exited 2 out
    | got r fd' ↦ print_loop fuel fd' (out ++ record_line r)
  ]

  -- The usage message is left out.
  unfoldable pub main : ℕ → List ℕ → List FileName → Printing
  main fuel stack (filename ∷ []) = elim (open_trace_file px stack filename) [
    | none ↦ exited 1 []
    | some fd ↦ print_loop fuel fd []
  ]
  main fuel stack [] = exited 1 []
  main fuel stack (x ∷ y ∷ args) = exited 1 []
