-- ===== src/MoveBlocks/Relocate/Pointers.antt =====
-- Moving a block that a field of the inode or of an indirect block points to.
use prefetch.Common.{ℕ, not, ltb, ◌==◌, if◌then◌else◌, Option, none, some, List, get_or, set, add32}
use prefetch.MoveBlocks.Blocks.{BlockRange, in_range}
use prefetch.MoveBlocks.Ext2.{Ext2, Inode}
use prefetch.MoveBlocks.Relocate.{FilesystemInfo, Status, failed, done, aborted, relocate_raw_block}

module _ (ext2 : Ext2) where
  open ext2 use {
    Data, test_block_bitmap, mark_block_bitmap, unmark_block_bitmap, group_of_blk, read_blk,
    write_blk, read_ind_block, write_ind_block, InodeRest, read_inode, write_inode,
    inode_has_valid_blocks, malloc,
  }

  -- What the relocation of one block of a file leaves: `inode` and `target_block` are updated
  -- through pointers, and `next` is `*next_indirect_block`.
  pub record Moved : Type 0 where
    pub fs : FilesystemInfo ext2
    pub inode : Inode InodeRest
    pub target_block : ℕ
    pub next : ℕ
    pub status : Status

  unfoldable pub relocate_block_in_inode : Moved → ℕ → BlockRange → Moved
  relocate_block_in_inode m index relocation_area =
      let block = get_or m.inode.i_block index 0 in
      let (fs', moved) = relocate_raw_block ext2 m.fs block m.target_block in
      if block == 0
      then record m { status = done }
      else if in_range block relocation_area
      then record m { status = done }
      else if not moved
      then record m { fs = fs'; status = failed }
      else record m {
        fs = fs';
        inode = record m.inode { i_block = set m.inode.i_block index m.target_block };
        target_block = add32 m.target_block 1;
        status = done;
      }

  -- The write of the indirect block after one of its blocks has moved.
  unfoldable pub write_indirect : Moved → ℕ → List ℕ → Moved
  write_indirect m indirect_block content =
      let (device, ok) = write_ind_block m.fs.device indirect_block content in
      record m { fs = record m.fs { device = device }; status = if ok then done else failed }

  unfoldable pub move_in_indirect_block : Moved → ℕ → ℕ → BlockRange → Option (List ℕ) → Moved
  move_in_indirect_block m indirect_block index relocation_area none = record m { status = failed }
  move_in_indirect_block m indirect_block index relocation_area (some content) =
      let block = get_or content index 0 in
      let (fs', moved) = relocate_raw_block ext2 m.fs block m.target_block in
      if block == 0
      then record m { next = block; status = done }
      else if in_range block relocation_area
      then record m { next = block; status = done }
      else if not moved
      then record m { fs = fs'; next = block; status = failed }
      else write_indirect
          (record m { fs = fs'; next = m.target_block; target_block = add32 m.target_block 1 })
          indirect_block (set content index m.target_block)

  -- `addr_per_block` is `blocksize / sizeof(blk_t)`.
  unfoldable pub relocate_block_in_indirect_block : ℕ → Moved → ℕ → ℕ → BlockRange → Moved
  relocate_block_in_indirect_block addr_per_block m indirect_block index relocation_area =
      if not (ltb index addr_per_block)
      then record m { status = aborted }
      else if indirect_block == 0
      then record m { status = failed }
      else move_in_indirect_block m indirect_block index relocation_area
          (read_ind_block m.fs.device indirect_block)
