-- ===== src/RemapBlocks/FreeExtents/Runs.antt =====
-- The scan of the bitmap ends, and comes to extents of free blocks that do not overlap.
use prefetch.Common.{
  arith, ℕ, zero, suc, ◌+◌, ◌-◌, ◌*◌, ◌/◌, ◌≤◌, ◌<◌, ◌≡◌, refl, Bool, false, not, ◌&&◌, ltb, leb,
  Bool-cases, inl, inr, dec_lt, List, [], ◌∷◌, ◌++◌, All, All-append,
}
use prefetch.RemapBlocks.FreeExtents.{
  FreeExtent, Scan, out_of_rounds, single, several, skip_occupied, skip_free, next_aligned,
  free_run, record_run, scan,
}

-- Each extent ends before the later ones start.
abbrev pub AreSpread : List FreeExtent → Type 0
AreSpread [] = Unit {0}
AreSpread (e ∷ es) = All (λ f. e.block + e.len ≤ f.block) es × AreSpread es

pub All-imp :
    {P Q : FreeExtent → Type 0}
    → ((e : FreeExtent) → P e → Q e)
    → (es : List FreeExtent) → All P es
    → All Q es
All-imp f [] h = tt
All-imp f (e ∷ es) (he, h) = (f e he, All-imp f es h)

AreSpread-end :
    (es : List FreeExtent) (e : FreeExtent)
    → AreSpread es
    → All (λ f. f.block + f.len ≤ e.block) es
    → AreSpread (es ++ e ∷ [])
AreSpread-end [] e s h = (tt, tt)
AreSpread-end (f ∷ es) e (before, s) (hf, h) = (
  All-append (λ x. f.block + f.len ≤ x.block) es (e ∷ []) before (hf, tt),
  AreSpread-end es e s h,
)

module _ (occupied : ℕ → Bool) (end_block : ℕ) where
  -- All blocks of the extent are free and before the end of the bitmap.
  abbrev pub IsFreeRun : FreeExtent → Type 0
  IsFreeRun e = (x : ℕ) → e.block ≤ x → x < e.block + e.len → (occupied x ≡ false) × (x < end_block)

  skip_free_lem :
      (rounds a : ℕ)
      → (a ≤ skip_free occupied end_block rounds a)
        × ((x : ℕ)
            → a ≤ x
            → x < skip_free occupied end_block rounds a
            → (occupied x ≡ false) × (x < end_block))
  unfolding skip_free
  skip_free_lem zero a = (omega arith, λ x h k. absurd (omega arith))
  skip_free_lem (suc rounds) a = elim (Bool-cases (not (occupied a) && ltb a end_block)) [
    | inr stop ↦ rw (skip_free, stop) (omega arith, λ x h k. absurd (omega arith))
    | inl more ↦
        let (le, free) = skip_free_lem rounds (a + 1) in
        rw (skip_free, more)
          (
            omega arith,
            λ x h k. elim (dec_lt a x) [
              | yes lt ↦ free x (omega arith) k
              | no ge ↦ let same : x ≡ a = omega arith in rw same (ground arith)
            ],
          )
  ]

  skip_occupied_le : (rounds a : ℕ) → a ≤ skip_occupied occupied end_block rounds a
  unfolding skip_occupied
  skip_occupied_le zero a = omega arith
  skip_occupied_le (suc rounds) a = ground (arith, skip_occupied_le rounds (a + 8))

  free_run-IsFreeRun : (first : ℕ) → IsFreeRun (free_run occupied end_block first)
  unfolding free_run
  free_run-IsFreeRun first x from to =
      let (le, free) = skip_free_lem (end_block - first) first in free x from (omega arith)

  module _ (remap_blocks min_free_extent_size : ℕ) (some_size : 0 < min_free_extent_size) where
    -- Free extents before a block, none of them empty.
    abbrev AreFound : ℕ → List FreeExtent → Type 0
    AreFound actblk es =
        All IsFreeRun es
        × AreSpread es
        × All (λ e. 0 < e.len) es
        × All (λ e. e.block + e.len ≤ actblk) es

    abbrev pub IsScanned : Scan → Type 0
    IsScanned out_of_rounds = ⊥
    IsScanned (single e) = IsFreeRun e × (e.len ≡ remap_blocks) × (e.offset ≡ 0)
    IsScanned (several es) = All IsFreeRun es × AreSpread es × All (λ e. 0 < e.len) es

    record_run-AreFound :
        (run : FreeExtent) (es : List FreeExtent)
        → IsFreeRun run
        → AreFound run.block es
        → AreFound
            (run.block + run.len)
            (record_run occupied end_block remap_blocks min_free_extent_size run es)
    unfolding record_run
    record_run-AreFound run es free (all_free, spread, some_len, before) =
        elim (Bool-cases (leb min_free_extent_size run.len)) [
          | inl long ↦ rw long (
            All-append IsFreeRun es (run ∷ []) all_free (free, tt),
            AreSpread-end es run spread before,
            All-append (λ e. 0 < e.len) es (run ∷ []) some_len (ground arith, tt),
            All-append (λ e. e.block + e.len ≤ run.block + run.len) es (run ∷ [])
                (All-imp (λ e h. omega arith) es before) (omega arith, tt),
          )
          | inr short ↦
              rw short (all_free, spread, some_len, All-imp (λ e h. omega arith) es before)
        ]

    pub scan-IsScanned :
        (rounds actblk : ℕ) (es : List FreeExtent)
        → AreFound actblk es
        → end_block ≤ actblk + rounds
        → IsScanned (scan occupied end_block remap_blocks min_free_extent_size rounds actblk es)
    unfolding scan next_aligned free_run
    scan-IsScanned zero actblk es found enough =
        let done : ltb actblk end_block ≡ false = ground arith in
        rw (scan, done) (found.0, found.1, found.2)
    scan-IsScanned (suc rounds) actblk es found enough = elim (Bool-cases (ltb actblk end_block)) [
      | inr done ↦ rw (scan, done) (found.0, found.1, found.2)
      | inl opened ↦
          let aligned = (actblk + 8) / 8 * 8 in
          let first = skip_occupied occupied end_block (end_block - aligned) aligned in
          let run = free_run occupied end_block first in
          let le : aligned ≤ first = skip_occupied_le (end_block - aligned) aligned in
          elim (Bool-cases (leb end_block first)) [
            | inl past ↦ rw (scan, opened, past) (found.0, found.1, found.2)
            | inr within ↦ elim (Bool-cases (ltb remap_blocks run.len)) [
              | inl large ↦
                  rw (scan, opened, within, large)
                    (λ x from to. free_run-IsFreeRun first x from (ground arith), refl, refl)
              | inr small ↦
                  rw (scan, opened, within, small)
                    (scan-IsScanned rounds (first + run.len)
                      (record_run occupied end_block remap_blocks min_free_extent_size run es)
                      (record_run-AreFound run es (free_run-IsFreeRun first)
                        (found.0, found.1, found.2, All-imp (λ e h. omega arith) es found.3))
                      (omega arith))
            ]
          ]
    ]
