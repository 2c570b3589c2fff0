-- ===== src/RemapBlocks/FreeExtents/Choice.antt =====
-- The extents that `find_free_blocks` chooses.
use prefetch.Common.{
  arith, ℕ, ◌-◌, ◌/◌, ◌≤◌, ◌<◌, ◌^◌, ◌≡◌, refl, subst, Bool, Option, none, some, List, [], ◌∷◌, All,
  All-perm,
}
use prefetch.RemapBlocks.FreeExtents.{
  FreeExtent, Scan, out_of_rounds, single, several, scan, cmp_extents_len, cmp_extents_start,
  smallest_enough, take_extents, shorten_last, choose_extents, after_scan, find_free_blocks,
}
use prefetch.RemapBlocks.FreeExtents.Runs.{AreSpread, IsFreeRun, IsScanned, scan-IsScanned}
use prefetch.RemapBlocks.FreeExtents.Lookup.{IsConsecutive}
use prefetch.RemapBlocks.FreeExtents.Taking.{
  take_extents-All, take_extents-AreSpread, take_extents-IsConsecutive, shorten_last-IsConsecutive,
  shorten_last-All, shorten_last-AreSpread,
}
use prefetch.RemapBlocks.FreeExtents.Apart.{
  QSort, PairwiseApart-perm, AreSpread-PairwiseApart, qsort-AreSpread, sum_len_le,
}

module _ (sorter : QSort) (occupied : ℕ → Bool) (end_block remap_blocks : ℕ) where
  -- Free blocks in extents that do not overlap, with offsets from 0 up to the number of blocks to move.
  abbrev pub AreTargets : List FreeExtent → Type 0
  AreTargets es =
      All (IsFreeRun occupied end_block) es × AreSpread es × IsConsecutive 0 es remap_blocks

  -- The extents of at least half the length of the last that is needed have enough blocks.
  abbrev pub IsEnough : List FreeExtent → Type 0
  IsEnough found =
      (last : FreeExtent)
      → smallest_enough remap_blocks 0 (record { block = 0; len = 0; offset = 0 })
          (sorter.qsort cmp_extents_len found)
        ≡ some last
      → remap_blocks
        ≤ (take_extents remap_blocks (last.len / 2) 0 (sorter.qsort cmp_extents_start found)).1

  module _ (small : end_block < 2 ^ 32) (some_blocks : 0 < remap_blocks) where
    take_extents-AreTargets :
        (min_ext_size : ℕ) (es : List FreeExtent)
        → All (IsFreeRun occupied end_block) es
        → AreSpread es
        → All (λ e. 0 < e.len) es
        → let (taken, total) = take_extents remap_blocks min_ext_size 0 es in
          remap_blocks ≤ total → AreTargets (shorten_last remap_blocks total taken)
    take_extents-AreTargets min_ext_size es free s l enough =
        let (taken, total) = take_extents remap_blocks min_ext_size 0 es in
        let sum = sum_len_le occupied end_block 0 es free s l (all_from_zero es) in
        let (c, starts, t) =
          take_extents-IsConsecutive remap_blocks min_ext_size 0 es l (omega arith) in
        (
          shorten_last-All remap_blocks (IsFreeRun occupied end_block) 0 total taken
              (λ e len le f x from to. f x from (omega arith)) c starts enough t
              (take_extents-All remap_blocks min_ext_size (IsFreeRun occupied end_block) 0 es
                (λ e o h. h) free),
          shorten_last-AreSpread remap_blocks total taken
              (take_extents-AreSpread remap_blocks min_ext_size 0 es s),
          shorten_last-IsConsecutive remap_blocks 0 total taken c starts (omega arith) enough t,
        )
      where
        all_from_zero : (es : List FreeExtent) → All (λ e. 0 ≤ e.block) es
        all_from_zero [] = tt
        all_from_zero (e ∷ es) = (omega arith, all_from_zero es)

    choose_extents-AreTargets :
        (found : List FreeExtent) (o : Option FreeExtent)
        → All (IsFreeRun occupied end_block) found
        → AreSpread found
        → All (λ e. 0 < e.len) found
        → ((last : FreeExtent)
            → o ≡ some last
            → remap_blocks
              ≤ (take_extents remap_blocks
                  (last.len / 2)
                  0
                  (sorter.qsort cmp_extents_start found)).1)
        → (es : List FreeExtent) → choose_extents sorter.qsort remap_blocks found o ≡ some es
        → AreTargets es
    unfolding choose_extents
    choose_extents-AreTargets found none free s l enough es e = absurd (cc e)
    choose_extents-AreTargets found (some last) free s l enough es e =
        let sorted = sorter.qsort cmp_extents_start found in
        let p = sorter.permuted cmp_extents_start found in
        let l' = All-perm (λ e. 0 < e.len) p l in
        let s' =
          qsort-AreSpread sorted (PairwiseApart-perm p (AreSpread-PairwiseApart found s))
            (sorter.by_start found) l' in
        let same : shorten_last remap_blocks (take_extents remap_blocks (last.len / 2) 0 sorted).1
              (take_extents remap_blocks (last.len / 2) 0 sorted).0
            ≡ es =
          cc e in
        subst AreTargets same (
          take_extents-AreTargets (last.len / 2) sorted
            (All-perm (IsFreeRun occupied end_block) p free) s' l' (enough last refl))

    module _ (min_free_extent_size : ℕ) (some_size : 0 < min_free_extent_size) where
      after_scan-AreTargets :
          (r : Scan)
          → IsScanned occupied end_block remap_blocks min_free_extent_size some_size r
          → ((found : List FreeExtent) → r ≡ several found → IsEnough found)
          → (es : List FreeExtent) → after_scan sorter.qsort remap_blocks r ≡ some es
          → AreTargets es
      unfolding after_scan
      after_scan-AreTargets out_of_rounds h enough es e = absurd h
      after_scan-AreTargets (single run) (free, len, offset) enough es e =
          let same : run ∷ [] ≡ es = cc e in
          subst AreTargets same ((free, tt), (tt, tt), (offset, omega arith, omega arith))
      after_scan-AreTargets (several found) (free, s, l) enough es e =
          choose_extents-AreTargets found
            (smallest_enough remap_blocks 0 (record { block = 0; len = 0; offset = 0 })
              (sorter.qsort cmp_extents_len found))
            free s l (enough found refl) es e

      -- The chosen extents are free and do not overlap, and their offsets run from 0 to the number of
      -- blocks to move, provided that the extents of at least half the length of the last one needed
      -- have enough blocks where no single one has.
      pub find_free_blocks-AreTargets :
          (start : ℕ)
          → ((found : List FreeExtent)
              → scan occupied end_block remap_blocks min_free_extent_size
                  (end_block - start)
                  start
                  []
                ≡ several found
              → IsEnough found)
          → (es : List FreeExtent)
          → find_free_blocks sorter.qsort occupied start end_block remap_blocks min_free_extent_size
            ≡ some es
          → AreTargets es
      unfolding find_free_blocks
      find_free_blocks-AreTargets start enough es e =
          after_scan-AreTargets
            (scan occupied end_block remap_blocks min_free_extent_size (end_block - start) start [])
            (scan-IsScanned occupied end_block remap_blocks min_free_extent_size some_size
              (end_block - start) start [] (tt, tt, tt, tt) (omega arith))
            enough es e
