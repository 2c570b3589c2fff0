-- ===== src/MoveBlocks/Relocate.antt =====
-- Relocation of blocks: the state of the filesystem, the block buffers, and `relocate_raw_block`, which
-- moves the data of one block.
pub mod Pointers
pub mod File
pub mod RawBlock
pub mod Counting
pub mod Accounting
pub mod Steps
pub mod FileSteps
pub mod NoAbort
pub mod DirectData
pub mod DirectFile
use prefetch.Common.{
  ℕ, zero, suc, ◌+◌, ◌-◌, ◌/◌, ◌%◌, ◌^◌, Bool, true, false, not, ltb, ◌==◌, if◌then◌else◌, Option,
  none, some, List, get_or, set, word_mod, add32,
}
use prefetch.MoveBlocks.Blocks.{
  ext2_ndir_blocks, ext2_ind_block, ext2_dind_block, is_direct_block, is_1indirect_block,
  is_2indirect_block, BlockRange, in_range,
}
use prefetch.MoveBlocks.Ext2.{Ext2, Inode}

-- `filesystem_info` with what it points to: the block bitmap and its dirty flag, the
-- `bg_free_blocks_count` of the group descriptors (16 bits), the device, how many times malloc was
-- called, and how many block buffers are allocated.
pub record FilesystemInfo (ext2 : Ext2) : Type 0 where
  pub block_map : ext2.Bitmap
  pub bb_dirty : Bool
  pub free_blocks_count : ℕ → ℕ
  pub device : ext2.Device
  pub mallocs : ℕ
  pub live_buffers : ℕ

-- 0, 1 and a failed assertion, which aborts.
pub data Status : Type 0 where
  failed : Status
  done : Status
  aborted : Status

-- The next statement runs only after one that is done.
unfoldable pub proceed {ℓ} : {A : Type ℓ} → Status → A → A → A
proceed failed stopped next = stopped
proceed aborted stopped next = stopped
proceed done stopped next = next

pub proceed_both {ℓ κ} :
    {A : Type ℓ} (P : A → Type κ) (st : Status) (stopped next : A)
    → P stopped
    → P next
    → P (proceed st stopped next)
unfolding proceed
proceed_both P failed stopped next p q = p
proceed_both P aborted stopped next p q = p
proceed_both P done stopped next p q = q

abbrev pub group_mod : ℕ
group_mod = 2 ^ 16

-- `counts[group] = value`
unfoldable pub update : (ℕ → ℕ) → ℕ → ℕ → ℕ → ℕ
update counts group value g = if group == g then value else counts g

module _ (ext2 : Ext2) where
  open ext2 use {
    Data, test_block_bitmap, mark_block_bitmap, unmark_block_bitmap, group_of_blk, read_blk,
    write_blk, read_ind_block, write_ind_block, InodeRest, read_inode, write_inode,
    inode_has_valid_blocks, malloc,
  }

  -- The buffer's content is read in before it is used, so only its allocation is kept.
  unfoldable pub get_block_buffer : FilesystemInfo ext2 → FilesystemInfo ext2 × Bool
  get_block_buffer fs =
      if malloc fs.mallocs
      then (record fs { mallocs = suc fs.mallocs; live_buffers = suc fs.live_buffers }, true)
      else (record fs { mallocs = suc fs.mallocs }, false)

  unfoldable pub free_block_buffer : FilesystemInfo ext2 → FilesystemInfo ext2
  free_block_buffer fs = record fs { live_buffers = fs.live_buffers - 1 }

  -- The two updates of the counts are made one after the other: the groups may be the same.
  unfoldable pub update_bitmaps : FilesystemInfo ext2 → ℕ → ℕ → FilesystemInfo ext2
  update_bitmaps fs source target =
      let s = group_of_blk source in
      let t = group_of_blk target in
      let counts = update fs.free_blocks_count s ((fs.free_blocks_count s + 1) % group_mod) in
      record fs {
        block_map = unmark_block_bitmap (mark_block_bitmap fs.block_map target) source;
        bb_dirty = true;
        free_blocks_count = update counts t ((counts t + group_mod - 1) % group_mod);
      }

  unfoldable pub write_block :
      FilesystemInfo ext2 → ℕ → ℕ → Option Data → FilesystemInfo ext2 × Bool
  write_block fs source target none = (fs, false)
  write_block fs source target (some buf) =
      let (device, ok) = write_blk fs.device target buf in
      let fs' = record fs { device = device } in
      if ok then (update_bitmaps (free_block_buffer fs') source target, true) else (fs', false)

  unfoldable pub relocate_raw_block : FilesystemInfo ext2 → ℕ → ℕ → FilesystemInfo ext2 × Bool
  relocate_raw_block fs source target =
      let (fs', allocated) = get_block_buffer fs in
      if not (test_block_bitmap fs.block_map source)
      then (fs, false)
      else if test_block_bitmap fs.block_map target
      then (fs, false)
      else if not allocated
      then (fs', false)
      else write_block fs' source target (read_blk fs'.device source)
