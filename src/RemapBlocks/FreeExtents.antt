-- ===== src/RemapBlocks/FreeExtents.antt =====
-- The extents of free blocks that the data is moved to: `find_free_blocks` and `find_remapped_offset`.
pub mod Runs
pub mod Taking
pub mod Apart
pub mod Choice
pub mod Lookup
pub mod Sorting
use prefetch.Common.{
  ℕ, zero, suc, ◌+◌, ◌-◌, ◌*◌, ◌/◌, Bool, true, false, not, ◌&&◌, ltb, leb, if◌then◌else◌, Option,
  none, some, List, [], ◌∷◌, ◌++◌, get_elem?, length, ℤ, pos, negsuc, add32, sub32,
}

-- `struct free_extent`
pub record FreeExtent : Type 0 where
  pub block : ℕ
  pub len : ℕ
  pub offset : ℕ

unfoldable pub cmp_extents_len : FreeExtent → FreeExtent → ℤ
cmp_extents_len a b = if ltb a.len b.len then negsuc 0 else if ltb b.len a.len then pos 1 else pos 0

unfoldable pub cmp_extents_start : FreeExtent → FreeExtent → ℤ
cmp_extents_start a b =
    if ltb a.block b.block then negsuc 0 else if ltb b.block a.block then pos 1 else pos 0

-- What the scan of the bitmap comes to.
pub data Scan : Type 0 where
  out_of_rounds : Scan
  single : FreeExtent → Scan
  several : List FreeExtent → Scan

-- The bitmap, the end that ext2fs_get_block_bitmap_end gives, the number of blocks to move, and the size of the
-- extents that are recorded.
module _ (occupied : ℕ → Bool) (end_block : ℕ) where
  -- To the next free block in steps of eight.
  unfoldable pub skip_occupied : ℕ → ℕ → ℕ
  skip_occupied zero actblk = actblk
  skip_occupied (suc rounds) actblk = elim (occupied actblk && ltb actblk end_block) [
    | true ↦ skip_occupied rounds (actblk + 8)
    | false ↦ actblk
  ]

  -- To the end of the free blocks.
  unfoldable pub skip_free : ℕ → ℕ → ℕ
  skip_free zero actblk = actblk
  skip_free (suc rounds) actblk = elim (not (occupied actblk) && ltb actblk end_block) [
    | true ↦ skip_free rounds (actblk + 1)
    | false ↦ actblk
  ]

  -- `(actblk + 8) & ~7`
  unfoldable pub next_aligned : ℕ → ℕ
  next_aligned actblk = (actblk + 8) / 8 * 8

  unfoldable pub free_run : ℕ → FreeExtent
  free_run first = record {
    block = first;
    len = skip_free (end_block - first) first - first;
    offset = 0;
  }

  module _ (remap_blocks min_free_extent_size : ℕ) where
    unfoldable pub record_run : FreeExtent → List FreeExtent → List FreeExtent
    record_run run found = if leb min_free_extent_size run.len then found ++ run ∷ [] else found

    unfoldable pub scan : ℕ → ℕ → List FreeExtent → Scan
    scan zero actblk found = if ltb actblk end_block then out_of_rounds else several found
    scan (suc rounds) actblk found = elim (ltb actblk end_block) [
      | false ↦ several found
      | true ↦
          let first = skip_occupied (end_block - next_aligned actblk) (next_aligned actblk) in
          let run = free_run first in
          elim (leb end_block first) [
            | true ↦ several found
            | false ↦ elim (ltb remap_blocks run.len) [
              | true ↦ single (record run { len = remap_blocks })
              | false ↦ scan rounds (first + run.len) (record_run run found)
            ]
          ]
    ]

-- How many of the extents give enough blocks, and the last of them.
unfoldable pub smallest_enough : ℕ → ℕ → FreeExtent → List FreeExtent → Option FreeExtent
smallest_enough remap_blocks actblk last [] = none
smallest_enough remap_blocks actblk last (e ∷ es) =
    let rest = smallest_enough remap_blocks (add32 actblk e.len) e es in
    if ltb actblk remap_blocks then rest else some last

-- The extents that are taken, with their offsets, and the number of blocks in them.
unfoldable pub take_extents : ℕ → ℕ → ℕ → List FreeExtent → List FreeExtent × ℕ
take_extents remap_blocks min_ext_size actblk [] = ([], actblk)
take_extents remap_blocks min_ext_size actblk (e ∷ es) =
    let (taken, total) = take_extents remap_blocks min_ext_size (add32 actblk e.len) es in
    let skipped = take_extents remap_blocks min_ext_size actblk es in
    if ltb actblk remap_blocks
    then if leb min_ext_size e.len then (record e { offset = actblk } ∷ taken, total) else skipped
    else ([], actblk)

-- The last extent is cut by the blocks that are too many.
unfoldable pub shorten_last : ℕ → ℕ → List FreeExtent → List FreeExtent
shorten_last remap_blocks total [] = []
shorten_last remap_blocks total (e ∷ []) =
    record e { len = sub32 (add32 e.len remap_blocks) total } ∷ []
shorten_last remap_blocks total (e ∷ e' ∷ es) = e ∷ shorten_last remap_blocks total (e' ∷ es)

-- `qsort` with one of the two comparisons.
module _ (qsort : (FreeExtent → FreeExtent → ℤ) → List FreeExtent → List FreeExtent) where
  unfoldable pub choose_extents : ℕ → List FreeExtent → Option FreeExtent → Option (List FreeExtent)
  choose_extents remap_blocks found none = none
  choose_extents remap_blocks found (some last) =
      let (taken, total) =
        take_extents remap_blocks (last.len / 2) 0 (qsort cmp_extents_start found) in
      some (shorten_last remap_blocks total taken)

  unfoldable pub after_scan : ℕ → Scan → Option (List FreeExtent)
  after_scan remap_blocks out_of_rounds = none
  after_scan remap_blocks (single e) = some (e ∷ [])
  after_scan remap_blocks (several found) = choose_extents remap_blocks found (
      smallest_enough remap_blocks 0 (record { block = 0; len = 0; offset = 0 })
        (qsort cmp_extents_len found))

  -- none is the exit when there is not enough free space.
  unfoldable pub find_free_blocks : (ℕ → Bool) → ℕ → ℕ → ℕ → ℕ → Option (List FreeExtent)
  find_free_blocks occupied start end_block remap_blocks min_free_extent_size =
      after_scan remap_blocks
        (scan occupied end_block remap_blocks min_free_extent_size (end_block - start) start [])

-- The binary search, between `start` and the position before `stop`.
unfoldable pub search_extents : List FreeExtent → ℕ → ℕ → ℕ → ℕ → Option FreeExtent
search_extents es offset zero start stop = none
search_extents es offset (suc rounds) start stop = elim (ltb start stop) [
  | false ↦ none
  | true ↦
      let mid = (start + (stop - 1)) / 2 in
      elim (get_elem? es mid) [
        | none ↦ none
        | some e ↦ elim (leb e.offset offset && ltb offset (add32 e.offset e.len)) [
          | true ↦ some e
          | false ↦ elim (ltb e.offset offset) [
            | true ↦ search_extents es offset rounds (mid + 1) stop
            | false ↦ search_extents es offset rounds start mid
          ]
        ]
      ]
]

-- none is NULL.
unfoldable pub find_remapped_offset : List FreeExtent → ℕ → Option FreeExtent
find_remapped_offset es offset = search_extents es offset (length es) 0 (length es)
