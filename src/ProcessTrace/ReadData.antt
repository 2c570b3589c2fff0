-- ===== src/ProcessTrace/ReadData.antt =====
-- `trace_file_read_data` and `output_trace_file_data` of
-- prefetch-initscripts/prefetch-process-trace.cpp.
pub mod Laws
pub mod RoundTrip
use prefetch.Common.{
  ℕ, zero, suc, ◌+◌, ◌≡◌, Bool, true, false, Option, none, some, List, [], ◌∷◌, ◌++◌, ◌==◌,
  if◌then◌else◌,
}
use prefetch.Trace.{TraceRecord}
use prefetch.Trace.Bytes.{record_bytes}
use prefetch.Trace.Posix.{Posix, Stdout}
use prefetch.Trace.File.{
  open_trace_file, read_prefetch_record, got, at_end, failed, header_bytes, fill_trace_file_header,
}
use prefetch.ProcessTrace.{RecordData}

-- The static counter and the data after the call; `read_error` is the return of -1.
pub data ReadData : Type 0 where
  read_done : ℕ → List RecordData → ReadData
  read_error : ℕ → List RecordData → ReadData
  out_of_fuel : ReadData

module _ (px : Posix) where
  open px use {FileName, Fd}

  -- the loop over the records of the file
  unfoldable pub read_loop : ℕ → Fd → ℕ → List RecordData → ReadData
  read_loop zero fd index records = out_of_fuel
  read_loop (suc fuel) fd index records = elim (read_prefetch_record px fd) [
    | at_end ↦ read_done index records
    | failed ↦ read_error index records
    | got r fd' ↦
        read_loop fuel fd' (index + 1) (records ++ record { trace_record = r; index = index } ∷ [])
  ]

  unfoldable pub trace_file_read_data : ℕ → List ℕ → FileName → ℕ → List RecordData → ReadData
  unfolding read_loop
  trace_file_read_data fuel stack filename index records =
      elim (open_trace_file px stack filename) [
        | none ↦ read_error index records
        | some fd ↦ read_loop fuel fd index records
      ]

module _ (io : Stdout) where
  open io use {Out, fwrite, ferror}

  -- the loop over the records; `false` is the return of -1
  write_loop : Out → List RecordData → Bool × Out
  write_loop out [] = (true, out)
  write_loop out (d ∷ records) =
      let item = record_bytes d.trace_record in
      let (r, out') = fwrite out item in
      let rest = write_loop out' records in
      if ferror out' then (false, out') else if r == 0 then (true, out') else rest

  unfoldable pub output_trace_file_data : Out → List RecordData → Bool × Out
  unfolding write_loop
  output_trace_file_data out records =
      let out' = (fwrite out (header_bytes fill_trace_file_header)).1 in
      if ferror out' then (false, out') else write_loop out' records
