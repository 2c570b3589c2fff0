-- ===== src/RemapBlocks/Traverse.antt =====
-- The pointers to the moved blocks: the order of the offsets in a file, and `remap_block`, which
-- ext2fs_block_iterate2 calls for each block of an inode, data blocks and blocks of pointers.
pub mod Pointers
use prefetch.Common.{
  ℕ, zero, suc, ◌+◌, ◌-◌, ◌*◌, ◌/◌, ◌%◌, Bool, true, false, not, ◌&&◌, ltb, leb, ◌==◌,
  if◌then◌else◌, Option, none, some, List, [], ◌∷◌, ℤ, pos, negsuc, neg, ◌+ℤ◌, ltb_ℤ, is_neg,
  word_mod, add32, sub32,
}
use prefetch.RemapBlocks.Splay.{Extent}
use prefetch.RemapBlocks.FreeExtents.{FreeExtent, find_remapped_offset}

-- `-(((offset) << 2) | (level))`
unfoldable pub indirect_to_off : ℕ → ℕ → ℤ
indirect_to_off offset level = neg (pos (offset * 4 + level))

-- The absolute value, and its parts: `OFF_TO_DEPTH` and `OFF_TO_DATAOFF`.
abbrev pub magnitude : ℤ → ℕ
magnitude (pos n) = n
magnitude (negsuc n) = suc n

unfoldable pub depth_of : ℤ → ℤ
depth_of o = if is_neg o then pos (magnitude o % 4) else negsuc 0

unfoldable pub data_offset : ℤ → ℤ
data_offset o = if is_neg o then pos (magnitude o / 4) else o

unfoldable pub cmp_ext_offset_ptr_core : ℤ → ℤ → ℤ
cmp_ext_offset_ptr_core ao bo =
    if ltb_ℤ (data_offset ao) (data_offset bo)
    then negsuc 0
    else if ltb_ℤ (data_offset bo) (data_offset ao)
    then pos 1
    else depth_of bo +ℤ neg (depth_of ao)

unfoldable pub cmp_ext_offset_ptr : Extent → Extent → ℤ
cmp_ext_offset_ptr a b = cmp_ext_offset_ptr_core a.offset b.offset

-- `index_to_offset`, with the number of pointers in a block.
unfoldable pub index_to_offset : ℕ → ℤ → ℕ → ℕ → ℕ
index_to_offset addr (pos zero) index0 index1 = 12
index_to_offset addr (pos (suc zero)) index0 index1 = 12 + addr + index0 * addr
index_to_offset addr (pos (suc (suc zero))) index0 index1 =
    12 + addr + addr * addr + index0 * addr + index1 * addr * addr
index_to_offset addr (pos (suc (suc (suc n)))) index0 index1 = 0
index_to_offset addr (negsuc n) index0 index1 = 0

-- `struct block_traverse_data`, with the extents of the inode from the current one on.
pub record TraverseData : Type 0 where
  pub index0 : ℕ
  pub index1 : ℕ
  pub depth : ℤ
  pub actext : List Extent

-- What the callback gives: the program exits, or BLOCK_ABORT, 0 or BLOCK_CHANGED with the new number.
pub data Callback : Type 0 where
  exited : Callback
  block_abort : Callback
  unchanged : TraverseData → Callback
  changed : TraverseData → ℕ → Callback

-- The filesystem: pointers in a block, its size in blocks, and the extents that the data has gone to.
pub record TraverseSetup : Type 0 where
  pub addr : ℕ
  pub s_blocks_count : ℕ
  pub free_extents : List FreeExtent

module _ (c : TraverseSetup) where
  -- The place of a block of pointers, by the level that blockcnt gives; none is an unknown one.
  unfoldable pub at_indirect : TraverseData → ℕ → TraverseData
  at_indirect t parent_offset =
      if ltb_ℤ t.depth (pos 0)
      then record t { depth = pos 0 }
      else record t { index0 = parent_offset / 4 }

  unfoldable pub at_double : TraverseData → ℕ → TraverseData
  at_double t parent_offset =
      if ltb_ℤ t.depth (pos 1)
      then record t { depth = pos 1; index0 = 0 }
      else record t { index1 = parent_offset / 4 }

  unfoldable pub at_triple : TraverseData → TraverseData
  at_triple t =
      if ltb_ℤ t.depth (pos 2) then record t { depth = pos 2; index0 = 0; index1 = 0 } else t

  unfoldable pub with_place : TraverseData → ℕ → Option (TraverseData × ℤ)
  with_place t level =
      some (t, indirect_to_off (index_to_offset c.addr t.depth t.index0 t.index1) level)

  unfoldable pub place_of : TraverseData → ℤ → ℕ → Option (TraverseData × ℤ)
  place_of t (pos n) parent_offset = some (t, pos n)
  place_of t (negsuc zero) parent_offset = with_place (at_indirect t parent_offset) 0
  place_of t (negsuc (suc zero)) parent_offset = with_place (at_double t parent_offset) 1
  place_of t (negsuc (suc (suc zero))) parent_offset = with_place (at_triple t) 2
  place_of t (negsuc (suc (suc (suc n)))) parent_offset = none

  -- To the next extent when the offset lies behind the current one.
  unfoldable pub advance : List Extent → ℤ → List Extent
  advance [] offset = []
  advance (e ∷ es) offset =
      if ltb_ℤ (pos 0) (cmp_ext_offset_ptr_core offset (e.offset +ℤ pos e.len +ℤ negsuc 0))
      then es
      else e ∷ es

  unfoldable pub new_block : ℕ → Option FreeExtent → Option ℕ
  new_block chunk none = none
  new_block chunk (some freeext) = some (sub32 (add32 freeext.block chunk) freeext.offset)

  unfoldable pub check_new : TraverseData → Option ℕ → Callback
  check_new t none = exited
  check_new t (some b) = if leb c.s_blocks_count b then exited else changed t b

  unfoldable pub in_extent : TraverseData → Extent → ℕ → ℕ → Callback
  in_extent t e blocknr i =
      if not (blocknr == e.block + i)
      then exited
      else check_new t (
          new_block (e.chunk_offset + i)
            (find_remapped_offset c.free_extents ((e.chunk_offset + i) % word_mod)))

  -- `offset >= actext->offset && offset < actext->offset + actext->len`
  unfoldable pub at_distance : TraverseData → Extent → ℕ → ℤ → Callback
  at_distance t e blocknr (negsuc n) = unchanged t
  at_distance t e blocknr (pos i) = if ltb i e.len then in_extent t e blocknr i else unchanged t

  unfoldable pub at_extent : TraverseData → List Extent → ℕ → ℤ → Callback
  at_extent t [] blocknr offset = block_abort
  at_extent t (e ∷ es) blocknr offset =
      at_distance (record t { actext = e ∷ es }) e blocknr (offset +ℤ neg e.offset)

  unfoldable pub at_place : ℕ → Option (TraverseData × ℤ) → Callback
  at_place blocknr none = exited
  at_place blocknr (some (t, offset)) =
      if leb c.s_blocks_count blocknr
      then exited
      else at_extent t (advance t.actext offset) blocknr offset

  unfoldable pub remap_block : TraverseData → ℕ → ℤ → ℕ → Callback
  remap_block t blocknr blockcnt parent_offset =
      at_place blocknr (place_of t blockcnt parent_offset)
