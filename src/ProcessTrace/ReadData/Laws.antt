-- ===== src/ProcessTrace/ReadData/Laws.antt =====
-- What `trace_file_read_data` reads from a regular file.
use prefetch.Common.{
  ℕ, zero, suc, ◌+◌, ◌<◌, ◌≡◌, ap, ap₂, ◌∙◌, some, List, [], ◌∷◌, ◌++◌, arith, All, length, drop,
  drop-drop,
}
use mathlib.Core.List.{append-nil, append_assoc}
use prefetch.Trace.{TraceRecord, IsTraceRecord}
use prefetch.Trace.Bytes.{record_size, record_bytes}
use prefetch.Trace.Posix.{Posix, RegularFiles}
use prefetch.Trace.File.Opening.{IsSupported, buffer, open_trace_file_lem}
use prefetch.Trace.File.Reading.{drop-record, read_record, read_rest, read_short}
use native.Mathlib.Nat.{add-zero}
use prefetch.Trace.File.{header_at}
use prefetch.ProcessTrace.{RecordData}
use prefetch.ProcessTrace.ReadData.{
  ReadData, read_done, read_error, read_loop, trace_file_read_data,
}

-- The bytes of the records, one after the other.
abbrev pub records_bytes : List TraceRecord → List ℕ
records_bytes [] = []
records_bytes (r ∷ rs) = record_bytes r ++ records_bytes rs

-- The records with their positions, counted from `index`.
abbrev pub number : ℕ → List TraceRecord → List RecordData
number index [] = []
number index (r ∷ rs) = record { trace_record = r; index = index } ∷ number (index + 1) rs

-- The end of the loop at what is left behind the last whole record.
abbrev pub finish : List ℕ → ℕ → List RecordData → ReadData
finish [] index records = read_done index records
finish (b ∷ bs) index records = read_error index records

module _ (px : Posix) (rf : RegularFiles px) where
  open px use {FileName, Fd, read}
  open rf use {At, read_at}

  read_loop-rest :
      (f : ℕ) (tail bytes : List ℕ) (fd : Fd) (offset index : ℕ) (records : List RecordData)
      → At fd bytes offset
      → drop offset bytes ≡ tail
      → length tail < record_size
      → read_loop px (suc f) fd index records ≡ finish tail index records
  unfolding read_loop
  read_loop-rest f [] bytes fd offset index records at e short =
      rw (read_rest px rf fd bytes offset at e, read_loop)
  read_loop-rest f (b ∷ bs) bytes fd offset index records at e short =
      rw (read_short px rf fd bytes offset b bs at e short, read_loop)

  read_loop-records :
      (fuel : ℕ) (rs : List TraceRecord) (tail bytes : List ℕ) (fd : Fd) (offset index : ℕ)
      (records : List RecordData)
      → At fd bytes offset
      → drop offset bytes ≡ records_bytes rs ++ tail
      → length tail < record_size
      → All IsTraceRecord rs
      → length rs < fuel
      → read_loop px fuel fd index records
        ≡ finish tail (index + length rs) (records ++ number index rs)
  unfolding read_loop
  read_loop-records zero rs tail bytes fd offset index records at e short words fuel =
      absurd (omega arith)
  read_loop-records (suc f) [] tail bytes fd offset index records at e short words fuel =
      rw (add-zero, append-nil) (read_loop-rest f tail bytes fd offset index records at e short)
  read_loop-records (suc f) (r ∷ rs) tail bytes fd offset index records at e short words fuel =
      let (fd', read_it, there) =
        read_record px rf fd bytes offset r (records_bytes rs ++ tail) at
          (e ∙ append_assoc (record_bytes r) (records_bytes rs) tail) words.0 in
      let next : drop record_size (records_bytes (r ∷ rs) ++ tail) ≡ records_bytes rs ++ tail =
        ap (drop record_size) (append_assoc (record_bytes r) (records_bytes rs) tail)
        ∙ drop-record r (records_bytes rs ++ tail) in
      rw (read_it, read_loop)
        (read_loop-records f rs tail bytes fd' (offset + record_size) (index + 1)
            (records ++ record { trace_record = r; index = index } ∷ []) there
            (drop-drop offset record_size bytes ∙ ap (drop record_size) e ∙ next) short words.1
            (omega arith)
          ∙ ap₂ (finish tail) (omega arith) (append_assoc records _ _))

  -- A file with a supported header and records behind it: every record is appended, numbered from
  -- the counter on, and the counter moves on by their number. A rest that is no whole record makes
  -- the call fail after that.
  pub trace_file_read_data_lem :
      (fuel : ℕ) (stack bytes tail : List ℕ) (name : FileName) (fd : Fd) (rs : List TraceRecord)
      (index : ℕ) (records : List RecordData)
      → px.open_rdonly name ≡ some fd
      → At fd bytes 0
      → IsSupported (header_at (buffer px rf stack bytes))
      → drop (header_at (buffer px rf stack bytes)).data_start bytes ≡ records_bytes rs ++ tail
      → length tail < record_size
      → All IsTraceRecord rs
      → length rs < fuel
      → trace_file_read_data px fuel stack name index records
        ≡ finish tail (index + length rs) (records ++ number index rs)
  unfolding trace_file_read_data
  trace_file_read_data_lem fuel stack bytes tail name fd rs index records e at s d short words
        enough =
      let (fd', opened, there) = (open_trace_file_lem px rf stack bytes name fd e at).0 s in
      rw (opened, trace_file_read_data)
        (read_loop-records fuel rs tail bytes fd' _ index records there d short words enough)
