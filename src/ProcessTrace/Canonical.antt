-- ===== src/ProcessTrace/Canonical.antt =====
-- A separated trace of nonempty ranges is determined by its pages.
use prefetch.Common.{
  ℕ, ◌+◌, ◌≤◌, ◌<◌, ◌≡◌, refl, ap₂, sym, subst, ◌∙◌, Bool, true, false, ◌||◌, ◌&&◌, List, [], ◌∷◌,
  arith, All, inl, inr, Bool-cases, ltb, ◌==◌, map,
}
use prefetch.Trace.{TraceRecord}
use prefetch.ProcessTrace.{RecordData}
use prefetch.ProcessTrace.Overlap.{covers_record, IsNonEmpty}
use prefetch.ProcessTrace.Merge.{covers}
use prefetch.ProcessTrace.Separated.{precedes, AllAfter, Separated}

abbrev pub NonEmpty : List RecordData → Type 0
NonEmpty = All IsNonEmpty

abbrev pub SamePages : List RecordData → List RecordData → Type 0
SamePages rs qs = (d i p : ℕ) → covers rs d i p ≡ covers qs d i p

abbrev pub trace_records : List RecordData → List TraceRecord
trace_records = map λ r. r.trace_record

-- The page comes before the first page of the record.
page_before : ℕ → ℕ → ℕ → RecordData → Bool
page_before d i p r =
    ltb d r.device
    || (d == r.device && (ltb i r.inode_no || (i == r.inode_no && ltb p r.range_start)))

page_before-covers_record :
    (d i p : ℕ) (r : RecordData)
    → page_before d i p r ≡ true
    → covers_record r.trace_record d i p ≡ false
unfolding page_before covers_record
page_before-covers_record d i p r h = ground arith

page_before_trans :
    (d i p : ℕ) (r q : RecordData)
    → page_before d i p r ≡ true
    → precedes r q ≡ true
    → page_before d i p q ≡ true
unfolding page_before precedes
page_before_trans d i p r q h k = ground arith

page_before-covers :
    (d i p : ℕ) (r : RecordData) (rs : List RecordData)
    → page_before d i p r ≡ true
    → AllAfter r rs
    → covers rs d i p ≡ false
unfolding covers
page_before-covers d i p r [] h k = refl
page_before-covers d i p r (q ∷ rs) h k = rw (
  page_before-covers_record d i p q (page_before_trans d i p r q h k.0),
  page_before-covers d i p r rs h k.1,
)

page_before_of_precedes :
    (r q : RecordData) (p : ℕ)
    → p ≤ r.range_start + r.range_length
    → precedes r q ≡ true
    → page_before r.device r.inode_no p q ≡ true
unfolding page_before precedes
page_before_of_precedes r q p h k = ground arith

-- No later record has a page of the record, or the page right behind it.
upto_end-covers :
    (r : RecordData) (rs : List RecordData) (p : ℕ)
    → p ≤ r.range_start + r.range_length
    → AllAfter r rs
    → covers rs r.device r.inode_no p ≡ false
unfolding covers
upto_end-covers r [] p h k = refl
upto_end-covers r (q ∷ rs) p h k = rw (
  page_before-covers_record r.device r.inode_no p q (page_before_of_precedes r q p h k.0),
  upto_end-covers r rs p h k.1,
)

covered_once :
    (r : RecordData) (rs : List RecordData) (d i p : ℕ)
    → AllAfter r rs
    → covers_record r.trace_record d i p ≡ true
    → covers rs d i p ≡ false
unfolding covers_record
covered_once r rs d i p s h = ground (arith, upto_end-covers r rs p)

covers_first :
    (r : RecordData) (rs : List RecordData)
    → 0 < r.range_length
    → covers (r ∷ rs) r.device r.inode_no r.range_start ≡ true
unfolding covers covers_record
covers_first r rs h = ground arith

module _ (r q : RecordData) (rs qs : List RecordData) (sr : Separated (r ∷ rs))
    (sq : Separated (q ∷ qs)) (nr : 0 < r.range_length) (nq : 0 < q.range_length)
    (same : SamePages (r ∷ rs) (q ∷ qs)) where
  -- The first record of one trace cannot start before that of the other.
  not_page_before : ¬ (page_before r.device r.inode_no r.range_start q ≡ true)
  unfolding covers
  not_page_before h = ground (
    arith,
    same r.device r.inode_no r.range_start,
    covers_first r rs nr,
    page_before-covers_record r.device r.inode_no r.range_start q h,
    page_before-covers r.device r.inode_no r.range_start q qs h sq.0,
  )

  -- Nor can it be shorter, where the two start alike.
  not_shorter :
      r.device ≡ q.device
      → r.inode_no ≡ q.inode_no
      → r.range_start ≡ q.range_start
      → q.range_length ≤ r.range_length
  unfolding covers covers_record
  not_shorter hd hi hs = ground (
    arith,
    same r.device r.inode_no (r.range_start + r.range_length),
    upto_end-covers r rs (r.range_start + r.range_length),
    sr.0,
  )

  -- The other records have the same pages, where the first ones are equal.
  rest_same : r.trace_record ≡ q.trace_record → SamePages rs qs
  unfolding covers
  rest_same e d i p = elim (Bool-cases (covers_record r.trace_record d i p)) [
    | inl hit ↦
        covered_once r rs d i p sr.0 hit
        ∙ sym (covered_once q qs d i p sq.0 (subst (λ t. covers_record t d i p ≡ true) e hit))
    | inr miss ↦ ground (arith, same d i p, subst (λ t. covers_record t d i p ≡ false) e miss)
  ]

same_start :
    (r q : RecordData)
    → page_before r.device r.inode_no r.range_start q ≡ false
    → page_before q.device q.inode_no q.range_start r ≡ false
    → (r.device ≡ q.device) × (r.inode_no ≡ q.inode_no) × (r.range_start ≡ q.range_start)
unfolding page_before
same_start r q h k = ground arith

false_of_not : (b : Bool) → ¬ (b ≡ true) → b ≡ false
false_of_not true h = absurd (h refl)
false_of_not false h = refl

first_eq :
    (r q : RecordData) (rs qs : List RecordData)
    → Separated (r ∷ rs)
    → Separated (q ∷ qs)
    → 0 < r.range_length
    → 0 < q.range_length
    → SamePages (r ∷ rs) (q ∷ qs)
    → r.trace_record ≡ q.trace_record
first_eq r q rs qs sr sq nr nq same =
    let flipped : SamePages (q ∷ qs) (r ∷ rs) = λ d i p. sym (same d i p) in
    let start =
      same_start r q (false_of_not _ (not_page_before r q rs qs sr sq nr nq same))
        (false_of_not _ (not_page_before q r qs rs sq sr nq nr flipped)) in
    let up = not_shorter r q rs qs sr sq nr nq same start.0 start.1 start.2 in
    let down =
      not_shorter q r qs rs sq sr nq nr flipped (sym start.0) (sym start.1) (sym start.2) in
    ground arith

-- Two separated traces of nonempty ranges with the same pages hold the same records, in the same
-- order.
pub Separated-eq_of_SamePages :
    (rs qs : List RecordData)
    → Separated rs
    → Separated qs
    → NonEmpty rs
    → NonEmpty qs
    → SamePages rs qs
    → trace_records rs ≡ trace_records qs
unfolding covers
Separated-eq_of_SamePages [] [] sr sq nr nq same = refl
Separated-eq_of_SamePages [] (q ∷ qs) sr sq nr nq same =
    cc (same q.device q.inode_no q.range_start, covers_first q qs nq.0)
Separated-eq_of_SamePages (r ∷ rs) [] sr sq nr nq same =
    cc (same r.device r.inode_no r.range_start, covers_first r rs nr.0)
Separated-eq_of_SamePages (r ∷ rs) (q ∷ qs) sr sq nr nq same =
    let e = first_eq r q rs qs sr sq nr.0 nq.0 same in
    ap₂ ◌∷◌ e (
      Separated-eq_of_SamePages rs qs sr.1 sq.1 nr.1 nq.1
        (rest_same r q rs qs sr sq nr.0 nq.0 same e))
