-- ===== src/RemapBlocks/Bitmap/Groups.antt =====
-- The loop over the groups of a range of blocks.
use prefetch.Common.{
  arith, ℕ, zero, suc, ◌+◌, ◌-◌, ◌*◌, ◌≤◌, ◌<◌, ◌^◌, ◌≡◌, refl, ap, ◌∙◌, true, false, ◌==◌,
  Bool-cases, inl, inr, none, some, List, [], ◌∷◌, All, sub32,
}
use prefetch.RemapBlocks.Splay.{Extent}
use prefetch.RemapBlocks.FreeExtents.{FreeExtent}
use prefetch.RemapBlocks.Load.{InodeExtents}
use prefetch.RemapBlocks.Bitmap.{
  add16, sub16, BitmapSetup, Counts, group_stop, count_in, group_loop, with_counts, mark_extents,
  unmark_extents, unmark_inodes, write_bitmap, update_bitmap,
}

module _ {Bitmap : Type 0} (c : BitmapSetup Bitmap) where
  -- The groups of a filesystem whose first data block is 0: a block lies before the end of its group,
  -- which is within the size of a group behind it.
  abbrev pub StartAtZero : Type 0
  StartAtZero =
      (b : ℕ)
      → (b < c.blocks_per_group * (c.group_of_blk b + 1))
        × (c.blocks_per_group * (c.group_of_blk b + 1) ≤ b + c.blocks_per_group)

  -- A range whose groups end within 32 bits.
  abbrev pub IsWithin : ℕ → ℕ → Type 0
  IsWithin start len = start + len + c.blocks_per_group < 2 ^ 32

  stop_lem :
      (start len : ℕ)
      → 0 < len
      → IsWithin start len
      → start < c.blocks_per_group * (c.group_of_blk start + 1)
      → c.blocks_per_group * (c.group_of_blk start + 1) ≤ start + c.blocks_per_group
      → let stop = group_stop c start len in
        (start < stop)
        × (stop ≤ start + len)
        × (sub32 len (sub32 stop start) + (stop - start) ≡ len)
  unfolding group_stop
  stop_lem start len some_len fits after near = omega arith

  group_loop_ends :
      (change : ℕ → ℕ → ℕ) (rounds start len : ℕ) (counts : ℕ → ℕ)
      → StartAtZero
      → IsWithin start len
      → len ≤ rounds
      → (counts' : ℕ → ℕ) × (group_loop c change rounds start len counts ≡ some counts')
  unfolding group_loop group_stop
  group_loop_ends change zero start len counts z fits enough =
      let done : (len == 0) ≡ true = ground arith in (counts, rw (group_loop, done) refl)
  group_loop_ends change (suc rounds) start len counts z fits enough =
      elim (Bool-cases (len == 0)) [
        | inl done ↦ (counts, rw (group_loop, done) refl)
        | inr more ↦
            let stop = group_stop c start len in
            let left = sub32 len (sub32 stop start) in
            let (after, near) = z start in
            let some_len : 0 < len = ground arith in
            let (ahead, within, less) = stop_lem start len some_len fits after near in
            let (counts', rest) =
              group_loop_ends change rounds stop left
                (count_in c change counts (c.group_of_blk start) (sub32 stop start)) z (omega arith)
                (omega arith) in
            (counts', rw (group_loop, more) rest)
      ]

  -- Where the group of the first block ends at that block, as with a first data block of 1, no number
  -- of rounds is enough.
  group_loop_stuck :
      (change : ℕ → ℕ → ℕ) (rounds start len : ℕ) (counts : ℕ → ℕ)
      → c.blocks_per_group * (c.group_of_blk start + 1) ≡ start
      → 0 < len
      → start + len < 2 ^ 32
      → group_loop c change rounds start len counts ≡ none
  unfolding group_loop group_stop
  group_loop_stuck change zero start len counts e some_len fits =
      let more : (len == 0) ≡ false = ground arith in rw (group_loop, more) refl
  group_loop_stuck change (suc rounds) start len counts e some_len fits =
      let more : (len == 0) ≡ false = ground arith in
      let stop = group_stop c start len in
      let same : stop ≡ start = omega (arith, e) in
      let left : sub32 len (sub32 stop start) ≡ len = omega (arith, same) in
      let counts' = count_in c change counts (c.group_of_blk start) (sub32 stop start) in
      rw (group_loop, more)
        (ap (λ n. group_loop c change rounds n (sub32 len (sub32 stop start)) counts') same
          ∙ ap (λ n. group_loop c change rounds start n counts') left
          ∙ group_loop_stuck change rounds start len counts' e some_len fits)

  -- The bitmap with the ranges of the extents marked, and with those of the inodes' extents unmarked.
  unfoldable pub marked : List FreeExtent → Bitmap → Bitmap
  marked [] m = m
  marked (e ∷ es) m = marked es (c.mark_range m e.block e.len)

  unfoldable pub unmarked : List Extent → Bitmap → Bitmap
  unmarked [] m = m
  unmarked (e ∷ es) m = unmarked es (c.unmark_range m e.block e.len)

  unfoldable pub all_unmarked : List InodeExtents → Bitmap → Bitmap
  all_unmarked [] m = m
  all_unmarked (iext ∷ inodes) m = all_unmarked inodes (unmarked iext.extents m)

  abbrev pub AreWithin : List InodeExtents → Type 0
  AreWithin inodes = All (λ iext. All (λ e. IsWithin e.block e.len) iext.extents) inodes

  module _ (z : StartAtZero) where
    mark_extents_ends :
        (es : List FreeExtent) (s : Counts Bitmap)
        → All (λ e. IsWithin e.block e.len) es
        → (s' : Counts Bitmap) × (mark_extents c es s ≡ some s')
          × (s'.block_map ≡ marked es s.block_map)
    unfolding mark_extents marked with_counts
    mark_extents_ends [] s w = (s, refl, refl)
    mark_extents_ends (e ∷ es) s (we, w) =
        let (counts, done) =
          group_loop_ends sub16 e.len e.block e.len s.bg_free_blocks_count z we (omega arith) in
        let (s', rest, same) =
          mark_extents_ends es
            (record s {
              block_map = c.mark_range s.block_map e.block e.len;
              bg_free_blocks_count = counts;
            })
            w in
        (s', rw (mark_extents, done, with_counts) rest, same)

    unmark_extents_ends :
        (es : List Extent) (s : Counts Bitmap)
        → All (λ e. IsWithin e.block e.len) es
        → (s' : Counts Bitmap) × (unmark_extents c es s ≡ some s')
          × (s'.block_map ≡ unmarked es s.block_map)
    unfolding unmark_extents unmarked with_counts
    unmark_extents_ends [] s w = (s, refl, refl)
    unmark_extents_ends (e ∷ es) s (we, w) =
        let (counts, done) =
          group_loop_ends add16 e.len e.block e.len s.bg_free_blocks_count z we (omega arith) in
        let (s', rest, same) =
          unmark_extents_ends es
            (record s {
              block_map = c.unmark_range s.block_map e.block e.len;
              bg_free_blocks_count = counts;
            })
            w in
        (s', rw (unmark_extents, done, with_counts) rest, same)

    unmark_inodes_ends :
        (inodes : List InodeExtents) (s : Counts Bitmap)
        → AreWithin inodes
        → (s' : Counts Bitmap) × (unmark_inodes c inodes s ≡ some s')
          × (s'.block_map ≡ all_unmarked inodes s.block_map)
    unfolding unmark_inodes all_unmarked
    unmark_inodes_ends [] s w = (s, refl, refl)
    unmark_inodes_ends (iext ∷ inodes) s (we, w) =
        let (s1, done, same) = unmark_extents_ends iext.extents s we in
        let (s2, rest, same') = unmark_inodes_ends inodes s1 w in
        (s2, rw (unmark_inodes, done) rest, same' ∙ ap (all_unmarked inodes) same)

    -- Where the first data block is 0 and the bitmap can be written, the update ends: first the free
    -- extents are marked, then the old places of the data are unmarked, and the superblock is dirty. The
    -- ends of all ranges fit into 32 bits.
    pub update_bitmap_lem :
        (es : List FreeExtent) (inodes : List InodeExtents) (s : Counts Bitmap)
        → All (λ e. IsWithin e.block e.len) es
        → AreWithin inodes
        → c.can_write ≡ true
        → (s' : Counts Bitmap) × (update_bitmap c es inodes s ≡ some s')
          × (s'.block_map ≡ all_unmarked inodes (marked es s.block_map))
          × (s'.is_super_dirty ≡ true)
    unfolding update_bitmap write_bitmap
    update_bitmap_lem es inodes s we wi can =
        let (s1, done, same) = mark_extents_ends es s we in
        let (s2, rest, same') = unmark_inodes_ends inodes s1 wi in
        (
          record s2 { is_super_dirty = true },
          rw (update_bitmap, done, rest, write_bitmap, can) refl,
          same' ∙ ap (all_unmarked inodes) same,
          refl,
        )
