-- ===== src/MoveBlocks/Ext2/Memory.antt =====
-- A filesystem in memory that meets the interface: the concrete inputs of the tests run on it.
use prefetch.Common.{
  ℕ, ◌<◌, ◌≤◌, arith, ◌/◌, ◌≡◌, refl, Bool, true, false, not, ◌&&◌, ◌||◌, ◌==◌, Option, some, List,
  ltb, if◌then◌else◌,
}
use prefetch.MoveBlocks.Ext2.{Ext2, Inode, Bitmaps, Storage}

-- Each block holds a list of numbers; a block from `bad` on cannot be written.
pub record MemoryDisk : Type 0 where
  pub content : ℕ → List ℕ
  pub inodes : ℕ → Option (Inode Bool)
  pub bad : ℕ

abbrev pub memory_write : MemoryDisk → ℕ → List ℕ → MemoryDisk × Bool
memory_write d b bytes =
    if ltb b d.bad
    then (record d { content = λ c. if b == c then bytes else d.content c }, true)
    else (d, false)

-- Eight groups of eight blocks.
abbrev pub memory_ext2 : Ext2
memory_ext2 = record {
  Bitmap = ℕ → Bool;
  test_block_bitmap = λ m b. ltb b 64 && m b;
  mark_block_bitmap = λ m b c. (b == c) || m c;
  unmark_block_bitmap = λ m b c. not (b == c) && m c;
  group_of_blk = λ b. b / 8;
  Device = MemoryDisk;
  Data = List ℕ;
  read_blk = λ d b. some (d.content b);
  write_blk = memory_write;
  read_ind_block = λ d b. some (d.content b);
  write_ind_block = memory_write;
  InodeRest = Bool;
  read_inode = λ d i. d.inodes i;
  write_inode =
      λ d i inode. (record d { inodes = λ j. if i == j then some inode else d.inodes j }, true);
  inode_has_valid_blocks = λ inode. inode.rest;
  malloc = λ n. true;
}

memory_mark :
    (m : ℕ → Bool) (b c : ℕ)
    → b < 64
    → (ltb c 64 && ((b == c) || m c)) ≡ ((b == c) || (ltb c 64 && m c))
memory_mark m b c h = ground arith

memory_unmark :
    (m : ℕ → Bool) (b c : ℕ)
    → b < 64
    → (ltb c 64 && (not (b == c) && m c)) ≡ (not (b == c) && (ltb c 64 && m c))
memory_unmark m b c h = ground arith

memory_outside : (m : ℕ → Bool) (b : ℕ) → 64 ≤ b → (ltb b 64 && m b) ≡ false
memory_outside m b h = ground arith

pub memory_bitmaps : Bitmaps memory_ext2 64
memory_bitmaps = record {
  test_mark = memory_mark;
  test_unmark = memory_unmark;
  test_outside = memory_outside;
}

pub memory_written :
    (d : MemoryDisk) (b : ℕ) (x : List ℕ)
    → (memory_write d b x).1 ≡ true
    → some ((memory_write d b x).0.content b) ≡ some x
memory_written d b x h = ground arith

pub memory_other :
    (d : MemoryDisk) (b c : ℕ) (x : List ℕ)
    → (b == c) ≡ false
    → some ((memory_write d b x).0.content c) ≡ some (d.content c)
memory_other d b c x h = ground arith

pub memory_inode_written :
    (d : MemoryDisk) (i : ℕ) (inode : Inode Bool)
    → (if i == i then some inode else d.inodes i) ≡ some inode
memory_inode_written d i inode = let e : (i == i) ≡ true = ground arith in rw (e) refl

-- The inodes lie outside of the blocks.
abbrev pub memory_storage : Storage memory_ext2
memory_storage = record {
  IsData = λ b. Unit;
  read_written = memory_written;
  read_other = memory_other;
  read_inode_written = λ d i inode h. memory_inode_written d i inode;
  read_beside_inode = λ d i c inode h. refl;
}
