-- ===== src/PrintTrace/Laws.antt =====
-- The printed lines are those of the records that `trace_file_read_data` reads.
use prefetch.Common.{
  ℕ, zero, suc, ◌+◌, ◌≡◌, refl, sym, ap, ◌∙◌, inl, inr, ◌⊎◌, none, some, List, [], ◌∷◌, ◌++◌,
  Option-cases,
}
use mathlib.Core.List.{append-nil, append_assoc}
use prefetch.Trace.{TraceRecord}
use prefetch.Trace.Posix.{Posix}
use prefetch.Trace.File.{open_trace_file, read_prefetch_record, RecordRead, got, at_end, failed}
use prefetch.ProcessTrace.{RecordData}
use prefetch.ProcessTrace.ReadData.{
  ReadData, read_done, read_error, out_of_fuel, read_loop, trace_file_read_data,
}
use prefetch.PrintTrace.{record_line, Printing, exited, no_exit, print_loop, main}

-- The lines of the records.
pub lines : List RecordData → List ℕ
lines [] = []
lines (d ∷ ds) = record_line d.trace_record ++ lines ds

-- What the tool does with a trace file that was opened.
pub report : ReadData → Printing
report (read_done n ds) = exited 0 (lines ds)
report (read_error n ds) = exited 2 (lines ds)
report out_of_fuel = no_exit

lines-append : (ds es : List RecordData) → lines (ds ++ es) ≡ lines ds ++ lines es
unfolding lines
lines-append [] es = refl
lines-append (d ∷ ds) es =
    ap (◌++◌ (record_line d.trace_record)) (lines-append ds es)
    ∙ sym (append_assoc (record_line d.trace_record) (lines ds) (lines es))

lines-snoc :
    (ds : List RecordData) (d : RecordData)
    → lines (ds ++ d ∷ []) ≡ lines ds ++ record_line d.trace_record
unfolding lines
lines-snoc ds d =
    lines-append ds (d ∷ []) ∙ ap (◌++◌ (lines ds)) (append-nil (record_line d.trace_record))

module _ (px : Posix) where
  open px use {FileName, Fd}

  record_read-cases :
      (r : RecordRead px)
      → (r ≡ at_end) ⊎ ((r ≡ failed) ⊎ ((t : TraceRecord) × (fd : Fd) × (r ≡ got t fd)))
  record_read-cases at_end = inl refl
  record_read-cases failed = inr (inl refl)
  record_read-cases (got t fd) = inr (inr (t, fd, refl))

  print_loop-read_loop :
      (fuel : ℕ) (fd : Fd) (index : ℕ) (ds : List RecordData)
      → print_loop px fuel fd (lines ds) ≡ report (read_loop px fuel fd index ds)
  unfolding print_loop read_loop report
  print_loop-read_loop zero fd index ds = refl
  print_loop-read_loop (suc fuel) fd index ds =
      elim (record_read-cases (read_prefetch_record px fd)) [
        | inl e ↦ rw (e, print_loop, read_loop) refl
        | inr (inl e) ↦ rw (e, print_loop, read_loop) refl
        | inr (inr (t, fd', e)) ↦
            let d : RecordData = record { trace_record = t; index = index } in
            let printed = ap (print_loop px fuel fd') (sym (lines-snoc ds d)) in
            rw (e, print_loop, read_loop)
              (printed ∙ print_loop-read_loop fuel fd' (index + 1) (ds ++ d ∷ []))
      ]

  -- On one file name, the tool exits with 1 and prints nothing where the file cannot be opened as a
  -- trace file. Else it prints the lines of the records that `trace_file_read_data` reads in as many
  -- rounds of its loop, and exits with 0 where that succeeds and with 2 where that returns an error.
  pub main-trace_file_read_data :
      (fuel : ℕ) (stack : List ℕ) (filename : FileName)
      → ((open_trace_file px stack filename ≡ none)
          × (main px fuel stack (filename ∷ []) ≡ exited 1 []))
        ⊎ ((fd : Fd) × (open_trace_file px stack filename ≡ some fd)
            × (main px fuel stack (filename ∷ [])
                ≡ report (trace_file_read_data px fuel stack filename 0 [])))
  unfolding main trace_file_read_data lines
  main-trace_file_read_data fuel stack filename =
      elim (Option-cases (open_trace_file px stack filename)) [
        | inl e ↦ inl (e, rw (e, main) refl)
        | inr (fd, e) ↦
            inr (fd, e, rw (e, main, trace_file_read_data) (print_loop-read_loop fuel fd 0 []))
      ]
