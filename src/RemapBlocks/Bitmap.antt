-- ===== src/RemapBlocks/Bitmap.antt =====
-- The bitmap and the counts of free blocks after the move: `update_bitmap`.
pub mod Groups
use prefetch.Common.{
  ℕ, zero, suc, ◌+◌, ◌-◌, ◌*◌, ◌%◌, ◌^◌, Bool, true, false, ◌==◌, if◌then◌else◌, Option, none, some,
  List, [], ◌∷◌, min, add32, sub32, mul32,
}
use prefetch.RemapBlocks.Splay.{Extent}
use prefetch.RemapBlocks.FreeExtents.{FreeExtent}
use prefetch.RemapBlocks.Load.{InodeExtents}

-- `bg_free_blocks_count` has 16 bits.
abbrev pub add16 : ℕ → ℕ → ℕ
add16 a b = (a + b) % 2 ^ 16

abbrev pub sub16 : ℕ → ℕ → ℕ
sub16 a b = (a + 2 ^ 16 - b % 2 ^ 16) % 2 ^ 16

-- libext2fs: the group of a block, the ranges of the block bitmap, and whether it can be written.
pub record BitmapSetup (Bitmap : Type 0) : Type 0 where
  pub blocks_per_group : ℕ
  pub group_of_blk : ℕ → ℕ
  pub mark_range : Bitmap → ℕ → ℕ → Bitmap
  pub unmark_range : Bitmap → ℕ → ℕ → Bitmap
  pub can_write : Bool

-- The block bitmap, the free blocks of each group, and whether the superblock is to be written.
pub record Counts (Bitmap : Type 0) : Type 0 where
  pub block_map : Bitmap
  pub bg_free_blocks_count : ℕ → ℕ
  pub is_super_dirty : Bool

module _ {Bitmap : Type 0} (c : BitmapSetup Bitmap) where
  -- The first block behind the group of a block, or behind the range.
  unfoldable pub group_stop : ℕ → ℕ → ℕ
  group_stop start len = min (mul32 c.blocks_per_group (c.group_of_blk start + 1)) (add32 start len)

  unfoldable pub count_in : (ℕ → ℕ → ℕ) → (ℕ → ℕ) → ℕ → ℕ → ℕ → ℕ
  count_in change counts grp n g = if g == grp then change (counts g) n else counts g

  -- `while (len)`, for some rounds; none says that they did not suffice.
  unfoldable pub group_loop : (ℕ → ℕ → ℕ) → ℕ → ℕ → ℕ → (ℕ → ℕ) → Option (ℕ → ℕ)
  group_loop change zero start len counts = elim (len == 0) [ true ↦ some counts | false ↦ none ]
  group_loop change (suc rounds) start len counts = elim (len == 0) [
    | true ↦ some counts
    | false ↦
        let stop = group_stop start len in
        group_loop change rounds stop (sub32 len (sub32 stop start))
          (count_in change counts (c.group_of_blk start) (sub32 stop start))
  ]

  unfoldable pub with_counts : Counts Bitmap → Option (ℕ → ℕ) → Option (Counts Bitmap)
  with_counts s none = none
  with_counts s (some counts) = some (record s { bg_free_blocks_count = counts })

  unfoldable pub mark_extents : List FreeExtent → Counts Bitmap → Option (Counts Bitmap)
  mark_extents [] s = some s
  mark_extents (e ∷ es) s =
      elim (with_counts (record s { block_map = c.mark_range s.block_map e.block e.len })
        (group_loop sub16 e.len e.block e.len s.bg_free_blocks_count)) [
          | none ↦ none
          | some s' ↦ mark_extents es s'
        ]

  unfoldable pub unmark_extents : List Extent → Counts Bitmap → Option (Counts Bitmap)
  unmark_extents [] s = some s
  unmark_extents (e ∷ es) s =
      elim (with_counts (record s { block_map = c.unmark_range s.block_map e.block e.len })
        (group_loop add16 e.len e.block e.len s.bg_free_blocks_count)) [
          | none ↦ none
          | some s' ↦ unmark_extents es s'
        ]

  unfoldable pub unmark_inodes : List InodeExtents → Counts Bitmap → Option (Counts Bitmap)
  unmark_inodes [] s = some s
  unmark_inodes (iext ∷ inodes) s = elim (unmark_extents iext.extents s) [
    | none ↦ none
    | some s' ↦ unmark_inodes inodes s'
  ]

  -- The bitmap is written, or the program exits.
  unfoldable pub write_bitmap : Option (Counts Bitmap) → Option (Counts Bitmap)
  write_bitmap none = none
  write_bitmap (some s) = if c.can_write then some (record s { is_super_dirty = true }) else none

  unfoldable pub update_bitmap :
      List FreeExtent → List InodeExtents → Counts Bitmap → Option (Counts Bitmap)
  update_bitmap es inodes s = elim (mark_extents es s) [
    | none ↦ none
    | some s' ↦ write_bitmap (unmark_inodes inodes s')
  ]
