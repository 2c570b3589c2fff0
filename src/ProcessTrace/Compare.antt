-- ===== src/ProcessTrace/Compare.antt =====
-- `trace_cmp` as an order: what `std::sort` asks of its comparison, and when two records tie.
use prefetch.Common.{◌≡◌, ◌↔◌, Bool, true, false, arith, pos, is_neg, neg, subst}
use prefetch.Trace.{TraceRecord}
use prefetch.ProcessTrace.{RecordData, trace_cmp, trace_record_cmp}

trace_cmp-eq_zero : (a b : TraceRecord) → trace_cmp a b ≡ pos 0 → a ≡ b
unfolding trace_cmp
trace_cmp-eq_zero a b h = ground arith

trace_cmp_self : (a : TraceRecord) → trace_cmp a a ≡ pos 0
unfolding trace_cmp
trace_cmp_self a = ground arith

swapped : (a b : TraceRecord) → trace_cmp b a ≡ neg (trace_cmp a b)
unfolding trace_cmp
swapped a b = ground arith

-- Swapping the two records changes the sign of the result, and the result is 0 for equal records
-- only.
trace_cmp_swap :
    (a b : TraceRecord)
    → (trace_cmp b a ≡ neg (trace_cmp a b)) × ((trace_cmp a b ≡ pos 0) ↔ (a ≡ b))
trace_cmp_swap a b = (
  swapped a b,
  (trace_cmp-eq_zero a b, λ e. subst (λ c. trace_cmp a c ≡ pos 0) e (trace_cmp_self a)),
)

trace_cmp_trans :
    (a b c : TraceRecord)
    → is_neg (trace_cmp a b) ≡ true
    → is_neg (trace_cmp b c) ≡ true
    → is_neg (trace_cmp a c) ≡ true
unfolding trace_cmp
trace_cmp_trans a b c h k = ground arith

-- What the C++ standard asks of the comparison that `std::sort` is given.
pub record StrictWeakOrder (less : RecordData → RecordData → Bool) : Type 0 where
  pub irreflexive : (a : RecordData) → less a a ≡ false
  pub transitive : (a b c : RecordData) → less a b ≡ true → less b c ≡ true → less a c ≡ true
  pub ties_transitive :
      (a b c : RecordData)
      → less a b ≡ false
      → less b a ≡ false
      → less b c ≡ false
      → less c b ≡ false
      → (less a c ≡ false) × (less c a ≡ false)

ties :
    (a b : RecordData)
    → trace_record_cmp a b ≡ false
    → trace_record_cmp b a ≡ false
    → a.trace_record ≡ b.trace_record
unfolding trace_record_cmp trace_cmp
ties a b h k = ground arith

-- `trace_record_cmp` is a strict weak order, as `std::sort` requires.
pub trace_record_cmp-StrictWeakOrder : StrictWeakOrder trace_record_cmp
unfolding trace_record_cmp
trace_record_cmp-StrictWeakOrder = record {
  irreflexive = λ a. ground (arith, trace_cmp_self a.trace_record);
  transitive =
      λ a b c h k. ground (arith, trace_cmp_trans a.trace_record b.trace_record c.trace_record);
  ties_transitive = λ a b c h k m n. rw (ties a b h k) (m, n);
}
