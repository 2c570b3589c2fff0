-- ===== src/ProcessTrace/SortSum/Insertion.antt =====
-- A sort that meets the contract of `std::sort`.
use mathlib.Core.List.{Permᴰ}
use mathlib.Core.List.Permᴰ
use prefetch.Common.{◌≡◌, refl, inl, inr, true, false, Bool-cases, List, [], ◌∷◌}
use prefetch.ProcessTrace.{RecordData, trace_record_cmp}
use prefetch.ProcessTrace.Compare.{trace_record_cmp-StrictWeakOrder}
use prefetch.ProcessTrace.Separated.{SortedFrom, IsSorted}
use prefetch.ProcessTrace.SortSum.{StdSort}

insert : RecordData → List RecordData → List RecordData
insert r [] = r ∷ []
insert r (q ∷ qs) = elim (trace_record_cmp q r) [ true ↦ q ∷ insert r qs | false ↦ r ∷ q ∷ qs ]

pub insertion_sort : List RecordData → List RecordData
unfolding insert trace_record_cmp
insertion_sort [] = []
insertion_sort (r ∷ rs) = insert r (insertion_sort rs)

asymmetric : (a b : RecordData) → trace_record_cmp a b ≡ true → trace_record_cmp b a ≡ false
asymmetric a b h = elim (Bool-cases (trace_record_cmp b a)) [
  | inl back ↦ cc (
    trace_record_cmp-StrictWeakOrder.transitive a b a h back,
    trace_record_cmp-StrictWeakOrder.irreflexive a,
  )
  | inr e ↦ e
]

insert-perm : (r : RecordData) (rs : List RecordData) → Permᴰ (r ∷ rs) (insert r rs)
unfolding insert
insert-perm r [] = Permᴰ.refl _
insert-perm r (q ∷ qs) = elim (Bool-cases (trace_record_cmp q r)) [
  | inl e ↦ rw (e, insert) (Permᴰ.trans (Permᴰ.swap refl refl) (Permᴰ.cons refl (insert-perm r qs)))
  | inr e ↦ rw (e, insert) (Permᴰ.refl _)
]

insert-SortedFrom :
    (a r : RecordData) (rs : List RecordData)
    → trace_record_cmp r a ≡ false
    → SortedFrom a rs
    → SortedFrom a (insert r rs)
unfolding insert
insert-SortedFrom a r [] h s = (h, tt)
insert-SortedFrom a r (q ∷ qs) h s = elim (Bool-cases (trace_record_cmp q r)) [
  | inl e ↦ rw (e, insert) (s.0, insert-SortedFrom q r qs (asymmetric q r e) s.1)
  | inr e ↦ rw (e, insert) (h, (e, s.1))
]

insert-IsSorted : (r : RecordData) (rs : List RecordData) → IsSorted rs → IsSorted (insert r rs)
unfolding insert
insert-IsSorted r [] s = tt
insert-IsSorted r (q ∷ qs) s = elim (Bool-cases (trace_record_cmp q r)) [
  | inl e ↦ rw (e, insert) (insert-SortedFrom q r qs (asymmetric q r e) s)
  | inr e ↦ rw (e, insert) (e, s)
]

pub sorted : (rs : List RecordData) → IsSorted (insertion_sort rs)
unfolding insertion_sort
sorted [] = tt
sorted (r ∷ rs) = insert-IsSorted r (insertion_sort rs) (sorted rs)

pub permuted : (rs : List RecordData) → Permᴰ rs (insertion_sort rs)
unfolding insertion_sort
permuted [] = Permᴰ.nil
permuted (r ∷ rs) = Permᴰ.trans (Permᴰ.cons refl (permuted rs)) (insert-perm r (insertion_sort rs))

unfoldable pub insertion : StdSort
unfolding insertion_sort
insertion = record { sort = insertion_sort; sorted = sorted; permuted = permuted }
