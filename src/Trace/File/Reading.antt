-- ===== src/Trace/File/Reading.antt =====
-- What `read_prefetch_record` makes of the bytes of a regular file.
use prefetch.Common.{
  ℕ, ◌+◌, ◌<◌, ◌≡◌, refl, ap, subst, ◌∙◌, some, List, [], ◌∷◌, ◌++◌, arith, length, take, drop,
  take_all,
}
use prefetch.Trace.{TraceRecord, IsTraceRecord}
use prefetch.Trace.Bytes.{
  record_size, record_bytes, record_at, record_at-record_bytes, length-record_bytes,
}
use prefetch.Trace.Posix.{Posix, RegularFiles}
use prefetch.Trace.File.{read_prefetch_record, read_result, got, at_end, failed}

pub take-record :
    (r : TraceRecord) (bs : List ℕ) → take record_size (record_bytes r ++ bs) ≡ record_bytes r
unfolding record_bytes
take-record r bs = refl

pub drop-record : (r : TraceRecord) (bs : List ℕ) → drop record_size (record_bytes r ++ bs) ≡ bs
unfolding record_bytes
drop-record r bs = refl

read_result-record :
    (px : Posix) (r : TraceRecord) (fd : px.Fd)
    → IsTraceRecord r
    → read_result px (some (record_bytes r)) fd ≡ got r fd
unfolding read_result record_bytes
read_result-record px r fd word = whole px r fd ∙ ap (λ q. got q fd) (record_at-record_bytes r word)
  where
    whole :
        (px : Posix) (r : TraceRecord) (fd : px.Fd)
        → read_result px (some (record_bytes r)) fd ≡ got (record_at (record_bytes r)) fd
    whole px r fd = refl

-- A short rest is no record.
read_result_short :
    (px : Posix) (b : ℕ) (bs : List ℕ) (fd : px.Fd)
    → length (b ∷ bs) < record_size
    → read_result px (some (b ∷ bs)) fd ≡ failed
unfolding read_result
read_result_short px b bs fd h = ground arith

module _ (px : Posix) (rf : RegularFiles px) where
  open px use {FileName, Fd, read}
  open rf use {At, read_at}

  -- A whole record is read, and the descriptor moves behind it.
  pub read_record :
      (fd : Fd) (bytes : List ℕ) (offset : ℕ) (r : TraceRecord) (bs : List ℕ)
      → At fd bytes offset
      → drop offset bytes ≡ record_bytes r ++ bs
      → IsTraceRecord r
      → (fd' : Fd) × (read_prefetch_record px fd ≡ got r fd') × At fd' bytes (offset + record_size)
  unfolding read_prefetch_record
  read_record fd bytes offset r bs at e word =
      let taken : take record_size (drop offset bytes) ≡ record_bytes r =
        ap (take record_size) e ∙ take-record r bs in
      let (got_bytes, there) = read_at fd bytes offset record_size at in
      (
        (read fd record_size).1,
        rw (got_bytes ∙ ap some taken) (read_result-record px r _ word),
        subst (λ k. At (read fd record_size).1 bytes (offset + k))
            (ap length taken ∙ length-record_bytes r) there,
      )

  -- At the end of the file there is no record.
  pub read_rest :
      (fd : Fd) (bytes : List ℕ) (offset : ℕ)
      → At fd bytes offset
      → drop offset bytes ≡ []
      → read_prefetch_record px fd ≡ at_end
  unfolding read_prefetch_record read_result
  read_rest fd bytes offset at e =
      rw ((read_at fd bytes offset record_size at).0 ∙ ap (λ bs. some (take record_size bs)) e)

  -- Fewer bytes than a record has are an error.
  pub read_short :
      (fd : Fd) (bytes : List ℕ) (offset b : ℕ) (bs : List ℕ)
      → At fd bytes offset
      → drop offset bytes ≡ b ∷ bs
      → length (b ∷ bs) < record_size
      → read_prefetch_record px fd ≡ failed
  unfolding read_prefetch_record
  read_short fd bytes offset b bs at e short =
      rw
        ((read_at fd bytes offset record_size at).0
          ∙ ap some (ap (take record_size) e ∙ take_all record_size (b ∷ bs) (omega arith)))
        (read_result_short px b bs _ short)
