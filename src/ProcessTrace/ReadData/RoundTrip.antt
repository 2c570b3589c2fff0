-- ===== src/ProcessTrace/ReadData/RoundTrip.antt =====
-- A trace that `output_trace_file_data` writes is one that `trace_file_read_data` reads back.
use mathlib.Core.List.{append-nil, append_assoc}
use prefetch.Common.{
  ℕ, ◌+◌, ◌<◌, ◌≡◌, refl, sym, ap, subst, ◌∙◌, Bool, true, false, some, List, [], ◌∷◌, ◌++◌, arith,
  All, length, length-map, Bool-cases, inl, inr,
}
use prefetch.Trace.{TraceRecord, IsTraceRecord}
use prefetch.Trace.Bytes.{record_bytes}
use prefetch.Trace.Posix.{Posix, RegularFiles, Stdout, Buffered}
use prefetch.Trace.File.{header_bytes, header_at, fill_trace_file_header}
use prefetch.ProcessTrace.{RecordData}
use prefetch.ProcessTrace.Canonical.{trace_records}
use prefetch.ProcessTrace.ReadData.{
  read_done, trace_file_read_data, write_loop, output_trace_file_data,
}
use prefetch.ProcessTrace.ReadData.Laws.{records_bytes, number, trace_file_read_data_lem}

-- The bytes of a whole trace file.
abbrev pub trace_bytes : List TraceRecord → List ℕ
trace_bytes rs = header_bytes fill_trace_file_header ++ records_bytes rs

module _ (io : Stdout) (b : Buffered io) where
  open io use {Out, fwrite, ferror}
  open b use {written, fwrite_written}

  write_fails :
      (out : Out) (d : RecordData) (records : List RecordData)
      → ferror (fwrite out (record_bytes d.trace_record)).1 ≡ true
      → (write_loop io out (d ∷ records)).0 ≡ false
  unfolding write_loop
  write_fails out d records e = rw e

  write_step :
      (out : Out) (d : RecordData) (records : List RecordData)
      → ferror (fwrite out (record_bytes d.trace_record)).1 ≡ false
      → write_loop io out (d ∷ records)
        ≡ write_loop io (fwrite out (record_bytes d.trace_record)).1 records
  unfolding write_loop
  write_step out d records e = rw (e, (fwrite_written out (record_bytes d.trace_record) e).0)

  write_loop-written :
      (out : Out) (records : List RecordData)
      → (write_loop io out records).0 ≡ true
      → written (write_loop io out records).1 ≡ written out ++ records_bytes (trace_records records)
  unfolding write_loop
  write_loop-written out [] h = sym (append-nil _)
  write_loop-written out (d ∷ records) h =
      elim (Bool-cases (ferror (fwrite out (record_bytes d.trace_record)).1)) [
        | inl e ↦ cc (write_fails out d records e)
        | inr e ↦
            ap (λ (w : Bool × Out). written w.1) (write_step out d records e)
            ∙ write_loop-written (fwrite out (record_bytes d.trace_record)).1 records
                (ap (λ (w : Bool × Out). w.0) (sym (write_step out d records e)) ∙ h)
            ∙ ap (λ w. w ++ records_bytes (trace_records records))
                (fwrite_written out (record_bytes d.trace_record) e).1
            ∙ append_assoc (written out) (record_bytes d.trace_record) _
      ]

  abbrev header_out : Out → Out
  header_out out = (fwrite out (header_bytes fill_trace_file_header)).1

  output_fails :
      (out : Out) (records : List RecordData)
      → ferror (header_out out) ≡ true
      → (output_trace_file_data io out records).0 ≡ false
  unfolding output_trace_file_data
  output_fails out records e = rw e

  output_step :
      (out : Out) (records : List RecordData)
      → ferror (header_out out) ≡ false
      → output_trace_file_data io out records ≡ write_loop io (header_out out) records
  unfolding output_trace_file_data
  output_step out records e = rw e

  -- Where it reports success, the header and all the records have been written.
  pub output-written :
      (out : Out) (records : List RecordData)
      → (output_trace_file_data io out records).0 ≡ true
      → written (output_trace_file_data io out records).1
        ≡ written out ++ trace_bytes (trace_records records)
  output-written out records h = elim (Bool-cases (ferror (header_out out))) [
    | inl e ↦ cc (output_fails out records e)
    | inr e ↦
        ap (λ (w : Bool × Out). written w.1) (output_step out records e)
        ∙ write_loop-written _ records
            (ap (λ (w : Bool × Out). w.0) (sym (output_step out records e)) ∙ h)
        ∙ ap (λ w. w ++ records_bytes (trace_records records)) (fwrite_written out _ e).1
        ∙ append_assoc (written out) (header_bytes fill_trace_file_header) _
  ]

module _ (px : Posix) (rf : RegularFiles px) where
  open px use {FileName, Fd, open_rdonly}
  open rf use {At}

  pub read-trace_bytes :
      (fuel : ℕ) (stack : List ℕ) (name : FileName) (fd : Fd) (rs : List TraceRecord) (index : ℕ)
      (records : List RecordData)
      → open_rdonly name ≡ some fd
      → At fd (trace_bytes rs) 0
      → All IsTraceRecord rs
      → length rs < fuel
      → trace_file_read_data px fuel stack name index records
        ≡ read_done (index + length rs) (records ++ number index rs)
  unfolding header_bytes header_at fill_trace_file_header
  read-trace_bytes fuel stack name fd rs index records e at words enough =
      trace_file_read_data_lem px rf fuel stack (trace_bytes rs) [] name fd rs index records e at
        (record { magic_matches = refl; version_matches = refl; data_behind = omega arith })
        (sym (append-nil _)) (omega arith) words enough

-- What `output_trace_file_data` has written to an empty stdout, `trace_file_read_data` reads back:
-- the same records in the same order, with new numbers.
pub read-output :
    (io : Stdout) (b : Buffered io) (px : Posix) (rf : RegularFiles px) (out : io.Out)
    (records : List RecordData) (fuel : ℕ) (stack : List ℕ) (name : px.FileName) (fd : px.Fd)
    (index : ℕ)
    → b.written out ≡ []
    → (output_trace_file_data io out records).0 ≡ true
    → px.open_rdonly name ≡ some fd
    → rf.At fd (b.written (output_trace_file_data io out records).1) 0
    → All IsTraceRecord (trace_records records)
    → length records < fuel
    → trace_file_read_data px fuel stack name index []
      ≡ read_done (index + length records) (number index (trace_records records))
read-output io b px rf out records fuel stack name fd index empty done e at words enough =
    let bytes =
      output-written io b out records done
      ∙ ap (λ w. w ++ trace_bytes (trace_records records)) empty in
    read-trace_bytes px rf fuel stack name fd (trace_records records) index [] e
      (subst (λ bs. rf.At fd bs 0) bytes at) words
      (subst (λ n. n < fuel) (sym (length-map records (λ r. r.trace_record))) enough)
    ∙ ap (λ n. read_done (index + n) (number index (trace_records records)))
        (length-map records (λ r. r.trace_record))
