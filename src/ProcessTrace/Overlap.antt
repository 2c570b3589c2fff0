-- ===== src/ProcessTrace/Overlap.antt =====
-- `ranges_overlap` and `merge_records` against sets of pages.
use prefetch.Common.{
  ℕ, ◌+◌, ◌≤◌, ◌<◌, ◌≡◌, ◌↔◌, ◌⊎◌, Bool, false, ◌&&◌, ◌||◌, arith, word_mod, ltb, leb, ◌==◌,
  if◌then◌else◌,
}
use prefetch.Trace.{TraceRecord}
use prefetch.ProcessTrace.{RecordData, ranges_overlap, is_unmergeable, merge_records}

-- The pages from `start` on, `len` of them.
abbrev pub in_range : ℕ → ℕ → ℕ → Bool
in_range start len page = leb start page && ltb page (start + len)

-- A page between two ranges that lies in neither of them.
abbrev pub Between : ℕ → ℕ → ℕ → ℕ → ℕ → Type 0
Between start1 len1 start2 len2 page =
    ((start1 + len1 ≤ page) × (page < start2)) ⊎ ((start2 + len2 ≤ page) × (page < start1))

pub ranges_overlap_symm :
    (s1 l1 s2 l2 : ℕ) → ranges_overlap s1 l1 s2 l2 ≡ ranges_overlap s2 l2 s1 l1
unfolding ranges_overlap
ranges_overlap_symm s1 l1 s2 l2 = ground arith

-- A page to show that there is a gap.
gap : ℕ → ℕ → ℕ → ℕ → ℕ
gap s1 l1 s2 l2 = if ltb (s1 + l1) s2 then s1 + l1 else s2 + l2

overlap-gap :
    (s1 l1 s2 l2 : ℕ)
    → s1 + l1 < word_mod
    → s2 + l2 < word_mod
    → ranges_overlap s1 l1 s2 l2 ≡ false
    → Between s1 l1 s2 l2 (gap s1 l1 s2 l2)
unfolding ranges_overlap gap
overlap-gap s1 l1 s2 l2 h k e = ground arith

-- For ranges whose ends do not wrap, `ranges_overlap` is symmetric, and fails exactly when there is
-- a page between the two ranges that lies in neither.
ranges_overlap_iff :
    (s1 l1 s2 l2 : ℕ)
    → s1 + l1 < word_mod
    → s2 + l2 < word_mod
    → (ranges_overlap s1 l1 s2 l2 ≡ ranges_overlap s2 l2 s1 l1)
      × ((ranges_overlap s1 l1 s2 l2 ≡ false) ↔ ((page : ℕ) × Between s1 l1 s2 l2 page))
unfolding ranges_overlap
ranges_overlap_iff s1 l1 s2 l2 h k = (
  ranges_overlap_symm s1 l1 s2 l2,
  (λ e. (gap s1 l1 s2 l2, overlap-gap s1 l1 s2 l2 h k e), λ (p, b). ground arith),
)

-- Whether a record stands for page `page` of inode `inode` on `device`.
unfoldable pub covers_record : TraceRecord → ℕ → ℕ → ℕ → Bool
covers_record r device inode page =
    r.device == device && (r.inode_no == inode && in_range r.range_start r.range_length page)

-- The end of the range does not wrap.
abbrev pub Fits : RecordData → Type 0
Fits r = r.range_start + r.range_length < word_mod

abbrev pub IsNonEmpty : RecordData → Type 0
IsNonEmpty r = 0 < r.range_length

module _ (c r : RecordData) (hc : Fits c) (hr : Fits r) (m : is_unmergeable c r ≡ false) where
  pub merge_records-Fits : Fits (merge_records c r)
  unfolding is_unmergeable ranges_overlap merge_records
  merge_records-Fits = ground arith

  pub merge_records-NonEmpty : IsNonEmpty c → IsNonEmpty (merge_records c r)
  unfolding is_unmergeable ranges_overlap merge_records
  merge_records-NonEmpty n = ground arith

  pub merge_records-covers :
      (d i p : ℕ)
      → covers_record (merge_records c r).trace_record d i p
        ≡ (covers_record c.trace_record d i p || covers_record r.trace_record d i p)
  unfolding is_unmergeable ranges_overlap merge_records covers_record
  merge_records-covers d i p = ground arith
