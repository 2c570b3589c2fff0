-- ===== src/RemapBlocks/FreeExtents/Taking.antt =====
-- What is taken of the free extents, with the last one shortened.
use prefetch.Common.{
  arith, ℕ, ◌+◌, ◌≤◌, ◌<◌, ◌^◌, ◌≡◌, refl, ltb, leb, Bool-cases, inl, inr, List, [], ◌∷◌, All,
  add32, sub32,
}
use prefetch.RemapBlocks.FreeExtents.{FreeExtent, take_extents, shorten_last}
use prefetch.RemapBlocks.FreeExtents.Runs.{AreSpread}
use prefetch.RemapBlocks.FreeExtents.Lookup.{IsConsecutive, IsConsecutive-le}

-- The sum of the lengths.
unfoldable pub sum_len : List FreeExtent → ℕ
sum_len [] = 0
sum_len (e ∷ es) = e.len + sum_len es

-- What is taken of a list is at the same blocks.
abbrev IsByBlocks : (FreeExtent → Type 0) → Type 0
IsByBlocks P = (e : FreeExtent) (offset : ℕ) → P e → P (record e { offset = offset })

module _ (remap_blocks min_ext_size : ℕ) where
  pub take_extents-All :
      (P : FreeExtent → Type 0) (actblk : ℕ) (es : List FreeExtent)
      → IsByBlocks P
      → All P es
      → All P (take_extents remap_blocks min_ext_size actblk es).0
  unfolding take_extents
  take_extents-All P actblk [] by h = tt
  take_extents-All P actblk (e ∷ es) by (he, h) = elim (Bool-cases (ltb actblk remap_blocks)) [
    | inr done ↦ rw done tt
    | inl more ↦ elim (Bool-cases (leb min_ext_size e.len)) [
      | inl long ↦ rw (more, long) (by e actblk he, take_extents-All P (add32 actblk e.len) es by h)
      | inr short ↦ rw (more, short) (take_extents-All P actblk es by h)
    ]
  ]

  pub take_extents-AreSpread :
      (actblk : ℕ) (es : List FreeExtent)
      → AreSpread es
      → AreSpread (take_extents remap_blocks min_ext_size actblk es).0
  unfolding take_extents
  take_extents-AreSpread actblk [] s = tt
  take_extents-AreSpread actblk (e ∷ es) (before, s) = elim (Bool-cases (ltb actblk remap_blocks)) [
    | inr done ↦ rw done tt
    | inl more ↦ elim (Bool-cases (leb min_ext_size e.len)) [
      | inl long ↦
          rw (more, long)
            (
              take_extents-All (λ f. e.block + e.len ≤ f.block) (add32 actblk e.len) es (λ f o h. h)
                  before,
              take_extents-AreSpread (add32 actblk e.len) es s,
            )
      | inr short ↦ rw (more, short) (take_extents-AreSpread actblk es s)
    ]
  ]

  -- The offsets of what is taken go on up to the total, and each starts before the blocks suffice.
  pub take_extents-IsConsecutive :
      (actblk : ℕ) (es : List FreeExtent)
      → All (λ e. 0 < e.len) es
      → actblk + sum_len es < 2 ^ 32
      → let (taken, total) = take_extents remap_blocks min_ext_size actblk es in
        IsConsecutive actblk taken total
        × All (λ e. e.offset < remap_blocks) taken
        × (total < 2 ^ 32)
  unfolding take_extents sum_len
  take_extents-IsConsecutive actblk [] h small = (refl, tt, omega arith)
  take_extents-IsConsecutive actblk (e ∷ es) (he, h) small =
      elim (Bool-cases (ltb actblk remap_blocks)) [
        | inr done ↦ rw done (refl, tt, omega arith)
        | inl more ↦ elim (Bool-cases (leb min_ext_size e.len)) [
          | inl long ↦
              let same : add32 actblk e.len ≡ actblk + e.len = omega arith in
              let (c, starts, t) = take_extents-IsConsecutive (actblk + e.len) es h (omega arith) in
              rw (more, long, same) ((refl, he, c), (ground arith, starts), t)
          | inr short ↦ rw (more, short) (take_extents-IsConsecutive actblk es h (omega arith))
        ]
      ]

module _ (remap_blocks : ℕ) where
  pub shorten_last-IsConsecutive :
      (first total : ℕ) (es : List FreeExtent)
      → IsConsecutive first es total
      → All (λ e. e.offset < remap_blocks) es
      → first < total
      → remap_blocks ≤ total
      → total < 2 ^ 32
      → IsConsecutive first (shorten_last remap_blocks total es) remap_blocks
  unfolding shorten_last
  shorten_last-IsConsecutive first total [] c starts lt le small = absurd (omega arith)
  shorten_last-IsConsecutive first total (e ∷ []) (o, some_len, c) (start, starts) lt le small =
      (o, omega arith, omega arith)
  shorten_last-IsConsecutive first total (e ∷ e' ∷ es) (o, some_len, c) (start, starts) lt le
        small =
      let (o', some_len', c') = c in
      let further = IsConsecutive-le (first + e.len + e'.len) total es c' in
      (
        o,
        some_len,
        shorten_last-IsConsecutive (first + e.len) total (e' ∷ es) c starts (omega arith) le small,
      )

  -- The last extent becomes no longer.
  pub shorten_last-All :
      (P : FreeExtent → Type 0) (first total : ℕ) (es : List FreeExtent)
      → ((e : FreeExtent) (len : ℕ) → len ≤ e.len → P e → P (record e { len = len }))
      → IsConsecutive first es total
      → All (λ e. e.offset < remap_blocks) es
      → remap_blocks ≤ total
      → total < 2 ^ 32
      → All P es
      → All P (shorten_last remap_blocks total es)
  unfolding shorten_last
  shorten_last-All P first total [] cut c starts le small h = tt
  shorten_last-All P first total (e ∷ []) cut (o, some_len, c) (start, starts) le small (he, h) =
      (cut e (sub32 (add32 e.len remap_blocks) total) (omega arith) he, tt)
  shorten_last-All P first total (e ∷ e' ∷ es) cut (o, some_len, c) (start, starts) le small
        (he, h) =
      (he, shorten_last-All P (first + e.len) total (e' ∷ es) cut c starts le small h)

  shorten_last_blocks :
      (Q : ℕ → Type 0) (total : ℕ) (es : List FreeExtent)
      → All (λ e. Q e.block) es
      → All (λ e. Q e.block) (shorten_last remap_blocks total es)
  unfolding shorten_last
  shorten_last_blocks Q total [] h = tt
  shorten_last_blocks Q total (e ∷ []) h = h
  shorten_last_blocks Q total (e ∷ e' ∷ es) (he, h) = (he, shorten_last_blocks Q total (e' ∷ es) h)

  pub shorten_last-AreSpread :
      (total : ℕ) (es : List FreeExtent)
      → AreSpread es
      → AreSpread (shorten_last remap_blocks total es)
  unfolding shorten_last
  shorten_last-AreSpread total [] s = tt
  shorten_last-AreSpread total (e ∷ []) s = (tt, tt)
  shorten_last-AreSpread total (e ∷ e' ∷ es) (before, s) = (
    shorten_last_blocks (λ b. e.block + e.len ≤ b) total (e' ∷ es) before,
    shorten_last-AreSpread total (e' ∷ es) s,
  )
