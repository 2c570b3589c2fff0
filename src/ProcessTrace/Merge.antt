-- ===== src/ProcessTrace/Merge.antt =====
-- `trace_merge` on any container: the pages that the records stand for are kept.
use mathlib.Core.Bool.{or_assoc}
use prefetch.Common.{
  ℕ, ◌+◌, ◌≤◌, ◌≡◌, refl, ap, Bool, true, false, ◌||◌, some, List, [], ◌∷◌, arith, All, inl, inr,
  Bool-cases, length,
}
use prefetch.ProcessTrace.{RecordData, is_unmergeable, merge_records, merge_loop, trace_merge}
use prefetch.ProcessTrace.Overlap.{
  covers_record, Fits, IsNonEmpty, merge_records-Fits, merge_records-NonEmpty, merge_records-covers,
}

-- Whether some record of the trace stands for the page.
unfoldable pub covers : List RecordData → ℕ → ℕ → ℕ → Bool
covers [] d i p = false
covers (r ∷ rs) d i p = covers_record r.trace_record d i p || covers rs d i p

abbrev pub AllFit : List RecordData → Type 0
AllFit = All Fits

-- The two turns of the loop.
pub merge_loop_push :
    (c r : RecordData) (rs : List RecordData)
    → is_unmergeable c r ≡ true
    → merge_loop (some c) (r ∷ rs) ≡ c ∷ merge_loop (some r) rs
unfolding merge_loop
merge_loop_push c r rs e = rw (e, merge_loop)

pub merge_loop_merge :
    (c r : RecordData) (rs : List RecordData)
    → is_unmergeable c r ≡ false
    → merge_loop (some c) (r ∷ rs) ≡ merge_loop (some (merge_records c r)) rs
unfolding merge_loop
merge_loop_merge c r rs e = rw (e, merge_loop)

pub merge_loop_one : (c : RecordData) → merge_loop (some c) [] ≡ c ∷ []
unfolding merge_loop
merge_loop_one c = refl

merge_loop-covers :
    (c : RecordData) (rs : List RecordData)
    → Fits c
    → AllFit rs
    → (d i p : ℕ)
    → covers (merge_loop (some c) rs) d i p
      ≡ (covers_record c.trace_record d i p || covers rs d i p)
unfolding covers
merge_loop-covers c [] hc h d i p = rw (merge_loop_one c)
merge_loop-covers c (r ∷ rs) hc h d i p = elim (Bool-cases (is_unmergeable c r)) [
  | inl e ↦
      rw (merge_loop_push c r rs e)
        (ap (◌||◌ (covers_record c.trace_record d i p)) (merge_loop-covers r rs h.0 h.1 d i p))
  | inr e ↦
      rw
        (
          merge_loop_merge c r rs e,
          merge_loop-covers (merge_records c r) rs (merge_records-Fits c r hc h.0 e) h.1 d i p,
        )
        (rw (merge_records-covers c r hc h.0 e d i p, or_assoc))
]

-- Merging keeps the set of pages, whatever the order of the records, if the ends of the ranges fit into
-- 32 bits.
pub trace_merge-covers :
    (rs : List RecordData)
    → AllFit rs
    → (d i p : ℕ) → covers (trace_merge rs) d i p ≡ covers rs d i p
unfolding trace_merge merge_loop covers
trace_merge-covers [] h d i p = refl
trace_merge-covers (r ∷ rs) h d i p = merge_loop-covers r rs h.0 h.1 d i p

merge_loop-AllFit :
    (c : RecordData) (rs : List RecordData) → Fits c → AllFit rs → AllFit (merge_loop (some c) rs)
merge_loop-AllFit c [] hc h = rw (merge_loop_one c) (hc, tt)
merge_loop-AllFit c (r ∷ rs) hc h = elim (Bool-cases (is_unmergeable c r)) [
  | inl e ↦ rw (merge_loop_push c r rs e) (hc, merge_loop-AllFit r rs h.0 h.1)
  | inr e ↦
      rw (merge_loop_merge c r rs e)
        (merge_loop-AllFit (merge_records c r) rs (merge_records-Fits c r hc h.0 e) h.1)
]

pub trace_merge-AllFit : (rs : List RecordData) → AllFit rs → AllFit (trace_merge rs)
unfolding trace_merge merge_loop
trace_merge-AllFit [] h = tt
trace_merge-AllFit (r ∷ rs) h = merge_loop-AllFit r rs h.0 h.1

-- Merging leaves no empty range, if there was none.
merge_loop-NonEmpty :
    (c : RecordData) (rs : List RecordData)
    → Fits c
    → AllFit rs
    → IsNonEmpty c
    → All IsNonEmpty rs
    → All IsNonEmpty (merge_loop (some c) rs)
merge_loop-NonEmpty c [] hc h nc n = rw (merge_loop_one c) (nc, tt)
merge_loop-NonEmpty c (r ∷ rs) hc h nc n = elim (Bool-cases (is_unmergeable c r)) [
  | inl e ↦ rw (merge_loop_push c r rs e) (nc, merge_loop-NonEmpty r rs h.0 h.1 n.0 n.1)
  | inr e ↦ rw (merge_loop_merge c r rs e) (
      merge_loop-NonEmpty (merge_records c r) rs (merge_records-Fits c r hc h.0 e) h.1
        (merge_records-NonEmpty c r hc h.0 e nc) n.1)
]

pub trace_merge-NonEmpty :
    (rs : List RecordData) → AllFit rs → All IsNonEmpty rs → All IsNonEmpty (trace_merge rs)
unfolding trace_merge merge_loop
trace_merge-NonEmpty [] h n = tt
trace_merge-NonEmpty (r ∷ rs) h n = merge_loop-NonEmpty r rs h.0 h.1 n.0 n.1

merge_loop-length :
    (c : RecordData) (rs : List RecordData) → length (merge_loop (some c) rs) ≤ length rs + 1
unfolding merge_loop
merge_loop-length c [] = omega arith
merge_loop-length c (r ∷ rs) =
    ground (arith, merge_loop-length r rs, merge_loop-length (merge_records c r) rs)

pub trace_merge-length : (rs : List RecordData) → length (trace_merge rs) ≤ length rs
unfolding trace_merge merge_loop
trace_merge-length [] = omega arith
trace_merge-length (r ∷ rs) = omega (arith, merge_loop-length r rs)
