-- ===== src/MoveBlocks/Relocate/File.antt =====
-- Moving the blocks of a file with those of its indirection: `relocate_block` and `relocate_blocks`.
use prefetch.Common.{
  ℕ, zero, suc, ◌-◌, ◌/◌, ◌%◌, not, ◌==◌, if◌then◌else◌, Option, none, some, get_or, add32,
}
use prefetch.MoveBlocks.Blocks.{
  ext2_ndir_blocks, ext2_ind_block, ext2_dind_block, is_direct_block, is_1indirect_block,
  is_2indirect_block, BlockRange,
}
use prefetch.MoveBlocks.Ext2.{Ext2, Inode}
use prefetch.MoveBlocks.Relocate.{
  FilesystemInfo, Status, failed, done, aborted, proceed, get_block_buffer, free_block_buffer,
}
use prefetch.MoveBlocks.Relocate.Pointers.{
  Moved, relocate_block_in_inode, relocate_block_in_indirect_block,
}

pub record Relocation : Type 0 where
  pub inode_number : ℕ
  pub block_offset : ℕ
  pub blocks_count : ℕ

module _ (ext2 : Ext2) where
  open ext2 use {
    Data, test_block_bitmap, mark_block_bitmap, unmark_block_bitmap, group_of_blk, read_blk,
    write_blk, read_ind_block, write_ind_block, InodeRest, read_inode, write_inode,
    inode_has_valid_blocks, malloc,
  }

  -- `goto free_buffer_and_fail`, or on to the next statement.
  unfoldable pub and_then : Moved ext2 → (Moved ext2 → Moved ext2) → Moved ext2
  and_then m continue = proceed m.status m (continue m)

  unfoldable pub relocate_direct : Moved ext2 → ℕ → BlockRange → Moved ext2
  relocate_direct m block_in_inode relocation_area =
      relocate_block_in_inode ext2 m block_in_inode relocation_area

  unfoldable pub relocate_1indirect : ℕ → Moved ext2 → ℕ → BlockRange → Moved ext2
  relocate_1indirect addr_per_block m block_in_inode relocation_area =
      and_then (relocate_block_in_inode ext2 m ext2_ind_block relocation_area) (λ m'.
        let indirect_block = get_or m'.inode.i_block ext2_ind_block 0 in
        if indirect_block == 0
        then m'
        else relocate_block_in_indirect_block ext2 addr_per_block m' indirect_block
            (block_in_inode - ext2_ndir_blocks) relocation_area)

  unfoldable pub relocate_2indirect : ℕ → Moved ext2 → ℕ → BlockRange → Moved ext2
  relocate_2indirect addr_per_block m block_in_inode relocation_area =
      let offset = block_in_inode - ext2_ndir_blocks - addr_per_block in
      and_then (relocate_block_in_inode ext2 m ext2_dind_block relocation_area) (λ m'.
        let indirect_block = get_or m'.inode.i_block ext2_dind_block 0 in
        if indirect_block == 0
        then m'
        else and_then
            (relocate_block_in_indirect_block ext2 addr_per_block m' indirect_block
              (offset / addr_per_block) relocation_area)
            (λ m''.
              if m''.next == 0
              then m''
              else relocate_block_in_indirect_block ext2 addr_per_block m'' m''.next
                  (offset % addr_per_block) relocation_area))

  unfoldable pub relocate_by_level : ℕ → Moved ext2 → ℕ → BlockRange → Moved ext2
  relocate_by_level addr_per_block m block_in_inode relocation_area =
      if is_direct_block block_in_inode
      then relocate_direct m block_in_inode relocation_area
      else if is_1indirect_block addr_per_block block_in_inode
      then relocate_1indirect addr_per_block m block_in_inode relocation_area
      else if is_2indirect_block addr_per_block block_in_inode
      then relocate_2indirect addr_per_block m block_in_inode relocation_area
      else m

  -- What `relocate_block` and `relocate_blocks` leave in `fs_info` and `*target_block`.
  pub record Relocated : Type 0 where
    pub fs : FilesystemInfo ext2
    pub target_block : ℕ
    pub status : Status

  -- The end of `relocate_block`. An abort leaves the state as it is: nothing runs after it.
  unfoldable pub leave : ℕ → Moved ext2 → Status → Relocated
  leave inode_number m failed = record {
    fs = free_block_buffer ext2 m.fs;
    target_block = m.target_block;
    status = failed;
  }
  leave inode_number m aborted = record {
    fs = m.fs;
    target_block = m.target_block;
    status = aborted;
  }
  leave inode_number m done =
      let (device, ok) = write_inode m.fs.device inode_number m.inode in
      record {
        fs = free_block_buffer ext2 (record m.fs { device = device });
        target_block = m.target_block;
        status = if ok then done else failed;
      }

  unfoldable pub relocate_inode_block :
      ℕ → FilesystemInfo ext2 → ℕ → ℕ → ℕ → BlockRange → Option (Inode InodeRest) → Relocated
  relocate_inode_block addr_per_block fs inode_number block_in_inode target_block area none =
      record { fs = fs; target_block = target_block; status = failed }
  relocate_inode_block addr_per_block fs inode_number block_in_inode target_block area
        (some inode) =
      let (fs', allocated) = get_block_buffer ext2 fs in
      let m : Moved ext2 = record {
        fs = fs';
        inode = inode;
        target_block = target_block;
        next = 0;
        status = done;
      } in
      if not (inode_has_valid_blocks inode)
      then record { fs = fs; target_block = target_block; status = done }
      else if not allocated
      then record { fs = fs'; target_block = target_block; status = failed }
      else let m' = relocate_by_level addr_per_block m block_in_inode area in
        leave inode_number m' m'.status

  unfoldable pub relocate_block : ℕ → FilesystemInfo ext2 → ℕ → ℕ → ℕ → BlockRange → Relocated
  relocate_block addr_per_block fs inode_number block_in_inode target_block area =
      relocate_inode_block addr_per_block fs inode_number block_in_inode target_block area
        (read_inode fs.device inode_number)

  -- The loop of `relocate_blocks` from block `i` on, with `left` blocks left.
  unfoldable pub relocate_from :
      ℕ → FilesystemInfo ext2 → Relocation → ℕ → BlockRange → ℕ → ℕ → Relocated
  relocate_from addr_per_block fs relocation target_block area i zero = record {
    fs = fs;
    target_block = target_block;
    status = done;
  }
  relocate_from addr_per_block fs relocation target_block area i (suc left) =
      let r =
        relocate_block addr_per_block fs relocation.inode_number (add32 relocation.block_offset i)
          target_block area in
      let rest = relocate_from addr_per_block r.fs relocation r.target_block area (suc i) left in
      proceed r.status r rest

  unfoldable pub relocate_blocks : ℕ → FilesystemInfo ext2 → Relocation → ℕ → BlockRange → Relocated
  relocate_blocks addr_per_block fs relocation target_block area =
      relocate_from addr_per_block fs relocation target_block area 0 relocation.blocks_count
