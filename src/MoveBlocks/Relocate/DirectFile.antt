-- ===== src/MoveBlocks/Relocate/DirectFile.antt =====
-- `relocate_block` of a direct block changes none of the data that the direct blocks of the file hold.
use prefetch.Common.{
  ℕ, suc, ◌≤◌, ◌<◌, ◌≡◌, ◌≢◌, refl, sym, ◌∙◌, Bool, true, false, arith, if◌then◌else◌, some,
  Bool-cases, inl, inr, length, get_or, lt→ltb,
}
use prefetch.MoveBlocks.Blocks.{BlockRange, is_direct_block}
use prefetch.MoveBlocks.Ext2.{Ext2, Inode, Storage}
use prefetch.MoveBlocks.Relocate.{
  FilesystemInfo, Status, failed, aborted, done, get_block_buffer, free_block_buffer,
}
use prefetch.MoveBlocks.Relocate.Pointers.{Moved}
use prefetch.MoveBlocks.Relocate.File.{
  relocate_direct, relocate_by_level, leave, relocate_inode_block, relocate_block,
}
use prefetch.MoveBlocks.Relocate.DirectData.{
  pointed, direct_of, direct_data, DirectMapped, Same, pointed-write_inode,
  relocate_block_in_inode-Same,
}

if-done : (b : Bool) → (if b then done else failed) ≡ done → b ≡ true
if-done true e = refl
if-done false e = absurd (cc e)

module _ (ext2 : Ext2) where
  open ext2 use {
    Device, Data, InodeRest, read_blk, read_inode, write_inode, write_blk, test_block_bitmap,
    inode_has_valid_blocks, malloc,
  }

  module _ (storage : Storage ext2) where
    open storage use {IsData, read_written, read_other, read_inode_written, read_beside_inode}

    -- The inode in memory is what is written.
    leave-Same :
        (fs : FilesystemInfo ext2) (inode : Inode InodeRest) (inode_number : ℕ) (m : Moved ext2)
        (st : Status)
        → (st ≡ done → Same ext2 storage fs inode m)
        → (leave ext2 inode_number m st).status ≡ done
        → (j : ℕ) → j < 12
        → direct_data ext2 (leave ext2 inode_number m st).fs.device inode_number j
          ≡ pointed ext2 fs.device (get_or inode.i_block j 0)
    unfolding leave free_block_buffer direct_data direct_of Same
    leave-Same fs inode n m failed same e j h = absurd (cc e)
    leave-Same fs inode n m aborted same e j h = absurd (cc e)
    leave-Same fs inode n m done same e j h =
        let ok = if-done (write_inode m.fs.device n m.inode).1 e in
        let s = same refl j h in
        rw (read_inode_written m.fs.device n m.inode ok) (
          pointed-write_inode ext2 storage m.fs.device n (get_or m.inode.i_block j 0) m.inode s.1
          ∙ s.0)

    relocate_by_level-Same :
        (apb : ℕ) (m : Moved ext2) (b : ℕ) (area : BlockRange)
        → b < 12
        → 12 ≤ length m.inode.i_block
        → m.target_block ≢ 0
        → IsData m.target_block
        → DirectMapped ext2 storage m.fs m.inode
        → (relocate_by_level ext2 apb m b area).status ≡ done
        → Same ext2 storage m.fs m.inode (relocate_by_level ext2 apb m b area)
    unfolding relocate_by_level relocate_direct is_direct_block
    relocate_by_level-Same apb m b area h l nonzero tdata mapped =
        rw (lt→ltb b 12 h)
          (relocate_block_in_inode-Same ext2 storage m b area (omega arith) nonzero tdata mapped)

    same_map :
        (fs fs' : FilesystemInfo ext2) (inode : Inode InodeRest)
        → fs.block_map ≡ fs'.block_map
        → DirectMapped ext2 storage fs inode
        → DirectMapped ext2 storage fs' inode
    unfolding DirectMapped
    same_map fs fs' inode e mapped = rw (sym e) mapped

    -- Of a file whose direct blocks are holes or marked blocks of data, `relocate_block` of a direct
    -- block to a block of data that is not block 0 changes, where it succeeds, none of the data that
    -- the twelve direct blocks of the inode on the device lead to.
    pub relocate_block-direct_data :
        (addr_per_block : ℕ) (fs : FilesystemInfo ext2)
        (inode_number block_in_inode target_block : ℕ) (area : BlockRange) (inode : Inode InodeRest)
        → read_inode fs.device inode_number ≡ some inode
        → block_in_inode < 12
        → 12 ≤ length inode.i_block
        → target_block ≢ 0
        → IsData target_block
        → DirectMapped ext2 storage fs inode
        → (relocate_block ext2 addr_per_block fs inode_number block_in_inode target_block
            area).status
          ≡ done
        → (j : ℕ) → j < 12
        → direct_data ext2
            (relocate_block ext2 addr_per_block fs inode_number block_in_inode target_block
              area).fs.device
            inode_number
            j
          ≡ direct_data ext2 fs.device inode_number j
    unfolding relocate_block relocate_inode_block direct_data direct_of get_block_buffer
    relocate_block-direct_data apb fs n b t area inode rd h l nonzero tdata mapped =
        elim (Bool-cases (inode_has_valid_blocks inode)) [
          | inr v ↦ rw (rd, v) (λ e j k. rw (rd) refl)
          | inl v ↦ elim (Bool-cases (malloc fs.mallocs)) [
            | inr a ↦ rw (rd, v, a) (λ e. absurd (cc e))
            | inl a ↦
                rw (rd, v, a)
                  (let fs' : FilesystemInfo ext2 = record fs {
                    mallocs = suc fs.mallocs;
                    live_buffers = suc fs.live_buffers;
                  } in
                    let m : Moved ext2 = record {
                      fs = fs';
                      inode = inode;
                      target_block = t;
                      next = 0;
                      status = done;
                    } in
                    let m' = relocate_by_level ext2 apb m b area in
                    let same =
                      relocate_by_level-Same apb m b area h l nonzero tdata
                        (same_map fs fs' inode refl mapped) in
                    leave-Same fs' inode n m' m'.status same)
          ]
        ]
