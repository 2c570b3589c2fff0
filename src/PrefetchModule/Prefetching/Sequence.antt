-- ===== src/PrefetchModule/Prefetching/Sequence.antt =====
-- The records that `prefetch_do_prefetch` reads ahead, in order: the available ones of all but the last
-- fifteen of the trace.
use prefetch.Common.{
  ℕ, suc, ◌-◌, ◌*◌, ◌≡◌, ◌≢◌, refl, sym, ap, ◌∙◌, true, false, not, leb, ◌==◌, if◌then◌else◌,
  Option, none, some, List, [], ◌∷◌, ◌++◌, take, length, arith, Bool-cases, inl, inr, leb→le, ap₂,
  subst,
}
use mathlib.Core.List.{append-nil, append_assoc}
use prefetch.Trace.{TraceRecord}
use prefetch.Trace.Bytes.{record_size}
use prefetch.PrefetchModule.TraceBuffer.{enfile}
use prefetch.PrefetchModule.Prefetching.{
  KernelOps, null, Prefetch, initial_prefetch, drop_super, iput, put_file, get_super, other_device,
  other_file, open_device, Iteration, next, out, oops, read_pages, open_file, on_device,
  prefetch_record, release, Outcome, returned, crashed, prefetch_loop, prefetch_do_prefetch,
}
use prefetch.PrefetchModule.Prefetching.Readaheads.{
  reads, is_found, is_available, available, super_of, inode_of, IsCurrent, HasRead, is_available_at,
  read_pages_read, open_file_read,
}

same_device : (a b : ℕ) → not (a == b) ≡ false → a ≡ b
same_device a b h = ground arith

get_super_sb :
    (k : KernelOps) (s : Prefetch) (device : ℕ) → (get_super k s device).sb ≡ super_of k device
unfolding get_super
get_super_sb k s device = ground arith

open_device_sb :
    (k : KernelOps) (s : Prefetch) (r : TraceRecord) (o : Option TraceRecord)
    → IsCurrent k s o
    → (if other_device o r then get_super k (drop_super s s.sb) r.device else s).sb
      ≡ super_of k r.device
unfolding other_device
open_device_sb k s r none h = get_super_sb k (drop_super s s.sb) r.device
open_device_sb k s r (some p) h = elim (Bool-cases (not (p.device == r.device))) [
  | inl other ↦ rw other (get_super_sb k (drop_super s s.sb) r.device)
  | inr same ↦ rw same (h.0 ∙ ap (super_of k) (same_device p.device r.device same))
]

-- The opening of a device changes the device alone.
open_device_keeps :
    (k : KernelOps) (s : Prefetch) (r : TraceRecord)
    → let v = open_device k s r in
      (v.prev_record ≡ s.prev_record) × (v.inode ≡ s.inode) × (reads v.calls ≡ reads s.calls)
unfolding open_device get_super drop_super
open_device_keeps k s r = (ground arith, ground arith, ground arith)

same_file_inode :
    (k : KernelOps) (s : Prefetch) (r : TraceRecord) (o : Option TraceRecord)
    → IsCurrent k s o
    → other_file o r ≡ false
    → k.user_get_super r.device ≡ true
    → s.inode ≡ inode_of k r
unfolding other_file
same_file_inode k s r none h e g = absurd cc
same_file_inode k s r (some p) h e g =
    let device : p.device ≡ r.device = ground arith in
    let number : p.inode_no ≡ r.inode_no = ground arith in
    h.1 (ap k.user_get_super device ∙ g)
    ∙ ap₂ (λ d n. if is_found (k.iget d n) then some (d, n) else none) device number

super_there :
    (k : KernelOps) (device : ℕ) → k.user_get_super device ≡ true → super_of k device ≡ some device
super_there k device h = rw h

super_missing :
    (k : KernelOps) (device : ℕ) → k.user_get_super device ≡ false → super_of k device ≡ none
super_missing k device h = rw h

module _ (k : KernelOps) (filps_given : (n : ℕ) → k.get_empty_filp n ≡ true)
    (no_null : (device number : ℕ) → k.iget device number ≢ null) where
  -- Neither device nor file of the record is there.
  skipped :
      (s : Prefetch) (r : TraceRecord)
      → k.user_get_super r.device ≡ false
      → s.sb ≡ none
      → HasRead k (reads s.calls) r (next (record s { prev_record = some r }))
  skipped s r h e = (
    refl,
    (rw h e, λ g. absurd cc),
    rw (is_available_at k r false (is_found (k.iget r.device r.inode_no)) h refl) refl,
  )

  opened_read :
      (s : Prefetch) (r : TraceRecord)
      → (other_file s.prev_record r ≡ false → s.inode ≡ inode_of k r)
      → k.user_get_super r.device ≡ true
      → s.sb ≡ some r.device
      → HasRead k (reads s.calls) r (
          if other_file s.prev_record r then open_file k s r.device r else read_pages k s s.inode r)
  opened_read s r now h sb = elim (Bool-cases (other_file s.prev_record r)) [
    | inl other ↦ rw other (open_file_read k filps_given no_null s r h sb)
    | inr same ↦
        rw same (read_pages_read k s r (is_found (k.iget r.device r.inode_no)) h refl sb (now same))
  ]

  prefetch_record_read :
      (s : Prefetch) (r : TraceRecord)
      → IsCurrent k s s.prev_record
      → HasRead k (reads s.calls) r (prefetch_record k s r)
  unfolding prefetch_record on_device open_device
  prefetch_record_read s r now =
      let v = open_device k s r in
      let kept = open_device_keeps k s r in
      let sb : v.sb ≡ super_of k r.device = open_device_sb k s r s.prev_record now in
      let read : HasRead k (reads v.calls) r (on_device k v v.sb r) =
        elim (Bool-cases (k.user_get_super r.device)) [
          | inl there ↦
              let e : v.sb ≡ some r.device = sb ∙ super_there k r.device there in
              subst (λ o. HasRead k (reads v.calls) r (on_device k v o r)) (sym e)
                (opened_read v r
                  (λ same.
                    kept.1
                    ∙ same_file_inode k s r s.prev_record now
                        (ap (λ o. other_file o r) (sym kept.0) ∙ same) there)
                  there e)
          | inr missing ↦
              let e : v.sb ≡ none = sb ∙ super_missing k r.device missing in
              subst (λ o. HasRead k (reads v.calls) r (on_device k v o r)) (sym e)
                (skipped v r missing e)
        ] in
      subst (λ before. HasRead k before r (on_device k v v.sb r)) kept.2 read

  reads-release : (s : Prefetch) → reads (release s).calls ≡ reads s.calls
  unfolding release drop_super iput put_file
  reads-release s = ground arith

  read_then :
      (before xs : List TraceRecord) (r : TraceRecord)
      → (if is_available k r then before ++ r ∷ [] else before) ++ available k xs
        ≡ before ++ available k (r ∷ xs)
  read_then before xs r = elim (Bool-cases (is_available k r)) [
    | inl there ↦ rw there (append_assoc before (r ∷ []) (available k xs))
    | inr missing ↦ rw missing
  ]

  Ends : Outcome → List TraceRecord → Type 0
  Ends o read = (t : Prefetch) × (o ≡ returned none t) × (reads t.calls ≡ read)

  after_record :
      (before records xs : List TraceRecord) (r : TraceRecord) (left : ℕ) (i : Iteration)
      → ((s : Prefetch)
          → IsCurrent k s s.prev_record
          → Ends (prefetch_loop k records left s) (reads s.calls ++ available k xs))
      → HasRead k before r i
      → Ends
          (elim i [
            | next s' ↦ prefetch_loop k records left s'
            | out s' ↦ returned (some enfile) (release s')
            | oops s' ↦ crashed s'
          ])
          (before ++ available k (r ∷ xs))
  unfolding Ends
  after_record before records xs r left (next s') rest (at, now, read) =
      let (t, e, f) = rest s' (subst (IsCurrent k s') (sym at) now) in
      (t, e, f ∙ ap (λ b. b ++ available k xs) read ∙ read_then before xs r)
  after_record before records xs r left (out s') rest h = elim h [ ]
  after_record before records xs r left (oops s') rest h = elim h [ ]

  loop-reads :
      (records : List TraceRecord) (s : Prefetch)
      → IsCurrent k s s.prev_record
      → Ends
          (prefetch_loop k records (record_size * length records) s)
          (reads s.calls ++ available k (take (length records - 15) records))
  unfolding prefetch_loop Ends
  loop-reads [] s now = (release s, refl, reads-release s ∙ sym (append-nil _))
  loop-reads (r ∷ records) s now = elim (Bool-cases (leb 15 (length records))) [
    | inl more ↦
        let bound : leb (record_size * record_size) (record_size * suc (length records)) ≡ true =
          ground arith in
        let left : record_size * suc (length records) - record_size ≡ record_size * length records =
          omega arith in
        let count : suc (length records) - 15 ≡ suc (length records - 15) =
          omega (arith, leb→le _ _ more) in
        rw (bound, count)
          (after_record (reads s.calls) records (take (length records - 15) records) r
            (record_size * suc (length records) - record_size) (prefetch_record k s r)
            (λ s' now'.
              subst
                (λ n.
                  Ends (prefetch_loop k records n s')
                    (reads s'.calls ++ available k (take (length records - 15) records)))
                (sym left) (loop-reads records s' now'))
            (prefetch_record_read s r now))
    | inr few ↦
        let bound : leb (record_size * record_size) (record_size * suc (length records)) ≡ false =
          ground arith in
        let count : suc (length records) - 15 ≡ 0 = ground arith in
        rw (bound, count) (release s, refl, reads-release s ∙ sym (append-nil _))
  ]

  -- Where files and inodes are given, the prefetching of a trace ends, and it has read ahead, in the
  -- order of the trace, the ranges of just those records whose device and file are there, without the
  -- last fifteen records of the trace.
  pub prefetch_do_prefetch-reads :
      (records : List TraceRecord)
      → (t : Prefetch) × (prefetch_do_prefetch k records (record_size * length records)
          ≡ returned none t)
        × (reads t.calls ≡ available k (take (length records - 15) records))
  unfolding prefetch_do_prefetch Ends
  prefetch_do_prefetch-reads records = loop-reads records initial_prefetch refl
