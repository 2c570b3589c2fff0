-- ===== src/ProcessTrace/Separated.antt =====
-- `trace_merge` on a sorted container: the result is in order, its ranges are disjoint, and there is
-- a page between any two of them in one file.
use prefetch.Common.{
  ◌+◌, ◌≡◌, refl, ap, Bool, true, false, ◌||◌, ◌&&◌, some, List, [], ◌∷◌, arith, inl, inr,
  Bool-cases, ltb, leb, ◌==◌,
}
use prefetch.ProcessTrace.{
  RecordData, trace_cmp, trace_record_cmp, ranges_overlap, is_unmergeable, merge_records,
  merge_loop, trace_merge,
}
use prefetch.ProcessTrace.Overlap.{Fits, merge_records-Fits}
use prefetch.ProcessTrace.Merge.{
  AllFit, merge_loop_push, merge_loop_merge, merge_loop_one, trace_merge-AllFit,
}

-- No record compares less than one that stands before it: what `std::sort` leaves.
abbrev pub SortedFrom : RecordData → List RecordData → Type 0
SortedFrom a [] = Unit {0}
SortedFrom a (r ∷ rs) = (trace_record_cmp r a ≡ false) × SortedFrom r rs

abbrev pub IsSorted : List RecordData → Type 0
IsSorted [] = Unit {0}
IsSorted (r ∷ rs) = SortedFrom r rs

-- `a` does not start behind `b`, in the order of devices, inodes and pages.
starts_before : RecordData → RecordData → Bool
starts_before a b =
    ltb a.device b.device
    || (a.device == b.device
        && (ltb a.inode_no b.inode_no
            || (a.inode_no == b.inode_no && leb a.range_start b.range_start)))

-- `a` ends before `b` starts, with a page between them if they are in one file.
unfoldable pub precedes : RecordData → RecordData → Bool
precedes a b =
    ltb a.device b.device
    || (a.device == b.device
        && (ltb a.inode_no b.inode_no
            || (a.inode_no == b.inode_no && ltb (a.range_start + a.range_length) b.range_start)))

abbrev pub AllAfter : RecordData → List RecordData → Type 0
AllAfter a [] = Unit {0}
AllAfter a (r ∷ rs) = (precedes a r ≡ true) × AllAfter a rs

-- Each record precedes all the later ones.
abbrev pub Separated : List RecordData → Type 0
Separated [] = Unit {0}
Separated (r ∷ rs) = AllAfter r rs × Separated rs

abbrev StartsFrom : RecordData → List RecordData → Type 0
StartsFrom a [] = Unit {0}
StartsFrom a (r ∷ rs) = (starts_before a r ≡ true) × StartsFrom r rs

precedes_trans :
    (a b c : RecordData) → precedes a b ≡ true → precedes b c ≡ true → precedes a c ≡ true
unfolding precedes
precedes_trans a b c h k = ground arith

AllAfter-trans :
    (a b : RecordData) (rs : List RecordData) → precedes a b ≡ true → AllAfter b rs → AllAfter a rs
AllAfter-trans a b [] h k = tt
AllAfter-trans a b (r ∷ rs) h k = (precedes_trans a b r h k.0, AllAfter-trans a b rs h k.1)

starts_before_of_sorted :
    (a b : RecordData) → trace_record_cmp b a ≡ false → starts_before a b ≡ true
unfolding trace_record_cmp trace_cmp starts_before
starts_before_of_sorted a b h = ground arith

StartsFrom-of_SortedFrom :
    (a : RecordData) (rs : List RecordData) → SortedFrom a rs → StartsFrom a rs
StartsFrom-of_SortedFrom a [] h = tt
StartsFrom-of_SortedFrom a (r ∷ rs) h =
    (starts_before_of_sorted a r h.0, StartsFrom-of_SortedFrom r rs h.1)

-- A record that cannot be merged with an earlier one starts behind its end.
precedes_of_unmergeable :
    (c r : RecordData)
    → Fits c
    → Fits r
    → starts_before c r ≡ true
    → is_unmergeable c r ≡ true
    → precedes c r ≡ true
unfolding is_unmergeable ranges_overlap starts_before precedes
precedes_of_unmergeable c r hc hr s e = ground arith

module _ (c r : RecordData) (s : starts_before c r ≡ true) (e : is_unmergeable c r ≡ false) where
  -- The merged record starts where the first one did.
  precedes-merge_records :
      (a : RecordData) → precedes a c ≡ true → precedes a (merge_records c r) ≡ true
  unfolding is_unmergeable ranges_overlap starts_before precedes merge_records
  precedes-merge_records a h = ground arith

  starts_before-merge_records :
      (b : RecordData) → starts_before r b ≡ true → starts_before (merge_records c r) b ≡ true
  unfolding is_unmergeable ranges_overlap starts_before merge_records
  starts_before-merge_records b h = ground arith

  StartsFrom-merge_records :
      (rs : List RecordData) → StartsFrom r rs → StartsFrom (merge_records c r) rs
  StartsFrom-merge_records [] h = tt
  StartsFrom-merge_records (b ∷ rs) h = (starts_before-merge_records b h.0, h.1)

merge_loop-Separated :
    (c : RecordData) (rs : List RecordData)
    → Fits c
    → AllFit rs
    → StartsFrom c rs
    → Separated (merge_loop (some c) rs)
      × ((a : RecordData) → precedes a c ≡ true → AllAfter a (merge_loop (some c) rs))
merge_loop-Separated c [] hc h s = rw (merge_loop_one c) ((tt, tt), λ a k. (k, tt))
merge_loop-Separated c (r ∷ rs) hc h s = elim (Bool-cases (is_unmergeable c r)) [
  | inl e ↦
      let later = merge_loop-Separated r rs h.0 h.1 s.1 in
      let apart = precedes_of_unmergeable c r hc h.0 s.0 e in
      rw (merge_loop_push c r rs e)
        ((later.1 c apart, later.0), λ a k. (k, later.1 a (precedes_trans a c r k apart)))
  | inr e ↦
      let merged =
        merge_loop-Separated (merge_records c r) rs (merge_records-Fits c r hc h.0 e) h.1
          (StartsFrom-merge_records c r s.0 e rs s.1) in
      rw (merge_loop_merge c r rs e)
        (merged.0, λ a k. merged.1 a (precedes-merge_records c r s.0 e a k))
]

-- Merging a sorted trace, the ends of whose ranges fit into 32 bits, leaves ranges in order, disjoint,
-- and with a page between any two of one file.
pub trace_merge-Separated :
    (rs : List RecordData) → AllFit rs → IsSorted rs → Separated (trace_merge rs)
unfolding trace_merge merge_loop
trace_merge-Separated [] h s = tt
trace_merge-Separated (r ∷ rs) h s =
    (merge_loop-Separated r rs h.0 h.1 (StartsFrom-of_SortedFrom r rs s)).0

unmergeable_of_precedes :
    (c r : RecordData) → Fits c → precedes c r ≡ true → is_unmergeable c r ≡ true
unfolding is_unmergeable ranges_overlap precedes
unmergeable_of_precedes c r h e = ground arith

merge_loop_fixed :
    (c : RecordData) (rs : List RecordData)
    → Fits c
    → AllFit rs
    → Separated (c ∷ rs)
    → merge_loop (some c) rs ≡ c ∷ rs
merge_loop_fixed c [] hc h s = merge_loop_one c
merge_loop_fixed c (r ∷ rs) hc h s =
    rw (merge_loop_push c r rs (unmergeable_of_precedes c r hc s.0.0))
      (ap (◌∷◌ c) (merge_loop_fixed r rs h.0 h.1 s.1))

pub trace_merge_fixed : (rs : List RecordData) → AllFit rs → Separated rs → trace_merge rs ≡ rs
unfolding trace_merge merge_loop
trace_merge_fixed [] h s = refl
trace_merge_fixed (r ∷ rs) h s = merge_loop_fixed r rs h.0 h.1 s

-- Where the trace was sorted and the ends of its ranges fit into 32 bits, a second pass over the merged
-- trace finds nothing to merge.
pub trace_merge-trace_merge :
    (rs : List RecordData) → AllFit rs → IsSorted rs → trace_merge (trace_merge rs) ≡ trace_merge rs
trace_merge-trace_merge rs h s =
    trace_merge_fixed (trace_merge rs) (trace_merge-AllFit rs h) (trace_merge-Separated rs h s)
