-- ===== src/ProcessTrace/SortSum/Laws.antt =====
-- What `sort-sum` computes from the records that it is given.
use mathlib.Core.List.{Permᴰ}
use prefetch.Common.{ℕ, ◌≡◌, refl, sym, ap₂, ◌∙◌, ◌||◌, List, arith, All, All-perm}
use prefetch.ProcessTrace.{RecordData}
use prefetch.ProcessTrace.Overlap.{covers_record, Fits, IsNonEmpty}
use prefetch.ProcessTrace.Merge.{
  covers, AllFit, trace_merge-covers, trace_merge-AllFit, trace_merge-NonEmpty,
}
use prefetch.ProcessTrace.Separated.{Separated, trace_merge-Separated}
use prefetch.ProcessTrace.Canonical.{SamePages, trace_records, Separated-eq_of_SamePages}
use prefetch.ProcessTrace.SortSum.{StdSort, trace_file_data_sorted_sum}

covers-perm :
    {rs qs : List RecordData} → Permᴰ rs qs → (d i p : ℕ) → covers rs d i p ≡ covers qs d i p
unfolding covers
covers-perm Permᴰ.nil d i p = refl
covers-perm (Permᴰ.cons e h) d i p =
    ap₂ (λ (r : RecordData) b. covers_record r.trace_record d i p || b) e (covers-perm h d i p)
covers-perm (Permᴰ.swap {a} {b} {l} e f) d i p = rw (← e, ← f) (ground arith)
covers-perm (Permᴰ.trans h k) d i p = covers-perm h d i p ∙ covers-perm k d i p

module _ (std : StdSort) (rs : List RecordData) (h : AllFit rs) where
  sort-AllFit : AllFit (std.sort rs)
  sort-AllFit = All-perm Fits (std.permuted rs) h

  -- The result stands for the pages of the input, its ranges are in order, disjoint and apart, and
  -- none of them wraps.
  pub sorted_sum_lem :
      SamePages (trace_file_data_sorted_sum std rs) rs
      × Separated (trace_file_data_sorted_sum std rs)
      × AllFit (trace_file_data_sorted_sum std rs)
  unfolding trace_file_data_sorted_sum
  sorted_sum_lem = (
    λ d i p.
        trace_merge-covers (std.sort rs) sort-AllFit d i p
        ∙ sym (covers-perm (std.permuted rs) d i p),
    trace_merge-Separated (std.sort rs) sort-AllFit (std.sorted rs),
    trace_merge-AllFit (std.sort rs) sort-AllFit,
  )

  sorted_sum-NonEmpty : All IsNonEmpty rs → All IsNonEmpty (trace_file_data_sorted_sum std rs)
  unfolding trace_file_data_sorted_sum
  sorted_sum-NonEmpty n =
      trace_merge-NonEmpty (std.sort rs) sort-AllFit (All-perm IsNonEmpty (std.permuted rs) n)

-- For ranges that are not empty and whose ends fit into 32 bits, the records of the result depend on
-- the pages of the input alone: not on how they are cut into ranges, nor on their order, nor on how the
-- sort breaks ties.
pub sorted_sum_unique :
    (std std' : StdSort) (rs qs : List RecordData)
    → AllFit rs
    → AllFit qs
    → All IsNonEmpty rs
    → All IsNonEmpty qs
    → SamePages rs qs
    → trace_records (trace_file_data_sorted_sum std rs)
      ≡ trace_records (trace_file_data_sorted_sum std' qs)
sorted_sum_unique std std' rs qs hr hq nr nq same =
    let left = sorted_sum_lem std rs hr in
    let right = sorted_sum_lem std' qs hq in
    Separated-eq_of_SamePages _ _ left.1 right.1 (sorted_sum-NonEmpty std rs hr nr)
      (sorted_sum-NonEmpty std' qs hq nq) (λ d i p. left.0 d i p ∙ same d i p ∙ sym (right.0 d i p))
