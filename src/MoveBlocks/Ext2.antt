-- ===== src/MoveBlocks/Ext2.antt =====
-- The calls of libext2fs and of malloc that the relocation of blocks makes, as an interface, with
-- what their documentation promises of the block bitmap.
pub mod Memory
use prefetch.Common.{ℕ, ◌<◌, ◌≤◌, ◌≡◌, Bool, true, false, some, not, ◌&&◌, ◌||◌, ◌==◌, Option, List}

-- The part of `ext2_inode` that is used, and the rest of it.
pub record Inode (Rest : Type 0) : Type 0 where
  pub i_block : List ℕ
  pub rest : Rest

pub record Ext2 : Type 1 where
  pub Bitmap : Type 0
  -- ext2fs_test_block_bitmap, ext2fs_mark_block_bitmap, ext2fs_unmark_block_bitmap
  pub test_block_bitmap : Bitmap → ℕ → Bool
  pub mark_block_bitmap : Bitmap → ℕ → Bitmap
  pub unmark_block_bitmap : Bitmap → ℕ → Bitmap
  -- ext2fs_group_of_blk
  pub group_of_blk : ℕ → ℕ
  -- the I/O channel with the inode table behind it
  pub Device : Type 0
  pub Data : Type 0
  -- io_channel_read_blk and io_channel_write_blk of one block; `none` and `false` are an error
  pub read_blk : Device → ℕ → Option Data
  pub write_blk : Device → ℕ → Data → Device × Bool
  -- ext2fs_read_ind_block and ext2fs_write_ind_block
  pub read_ind_block : Device → ℕ → Option (List ℕ)
  pub write_ind_block : Device → ℕ → List ℕ → Device × Bool
  -- ext2fs_read_inode, ext2fs_write_inode, ext2fs_inode_has_valid_blocks
  pub InodeRest : Type 0
  pub read_inode : Device → ℕ → Option (Inode InodeRest)
  pub write_inode : Device → ℕ → Inode InodeRest → Device × Bool
  pub inode_has_valid_blocks : Inode InodeRest → Bool
  -- whether the n-th call of malloc of the run gives memory
  pub malloc : ℕ → Bool

-- The bitmap of a filesystem of `size` blocks: a block outside of it tests as free.
pub record Bitmaps (ext2 : Ext2) (size : ℕ) : Type 0 where
  pub test_mark :
      (m : ext2.Bitmap) (b c : ℕ)
      → b < size
      → ext2.test_block_bitmap (ext2.mark_block_bitmap m b) c
        ≡ ((b == c) || ext2.test_block_bitmap m c)
  pub test_unmark :
      (m : ext2.Bitmap) (b c : ℕ)
      → b < size
      → ext2.test_block_bitmap (ext2.unmark_block_bitmap m b) c
        ≡ (not (b == c) && ext2.test_block_bitmap m c)
  pub test_outside : (m : ext2.Bitmap) (b : ℕ) → size ≤ b → ext2.test_block_bitmap m b ≡ false

-- The device: what is written to a block is read back from it, and a write to one block, or of an
-- inode, leaves the other blocks of data (`IsData`: outside of the inode tables) as they are.
pub record Storage (ext2 : Ext2) : Type 1 where
  pub IsData : ℕ → Type 0
  pub read_written :
      (d : ext2.Device) (b : ℕ) (x : ext2.Data)
      → (ext2.write_blk d b x).1 ≡ true
      → ext2.read_blk (ext2.write_blk d b x).0 b ≡ some x
  pub read_other :
      (d : ext2.Device) (b c : ℕ) (x : ext2.Data)
      → (b == c) ≡ false
      → ext2.read_blk (ext2.write_blk d b x).0 c ≡ ext2.read_blk d c
  pub read_inode_written :
      (d : ext2.Device) (i : ℕ) (inode : Inode ext2.InodeRest)
      → (ext2.write_inode d i inode).1 ≡ true
      → ext2.read_inode (ext2.write_inode d i inode).0 i ≡ some inode
  pub read_beside_inode :
      (d : ext2.Device) (i c : ℕ) (inode : Inode ext2.InodeRest)
      → IsData c
      → ext2.read_blk (ext2.write_inode d i inode).0 c ≡ ext2.read_blk d c
