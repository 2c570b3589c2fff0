-- ===== src/MoveBlocks/Tests.antt =====
-- Runs of the tool that moves blocks, and its theorems at concrete inputs.
use prefetch.Common.{
  ℕ, length, ◌-◌, zero, suc, ◌+◌, ◌*◌, ◌≡◌, ◌≢◌, ◌≤◌, ◌<◌, refl, ◌⊎◌, inl, inr, Bool, true, false,
  ◌||◌, ◌&&◌, ◌==◌, ◌/◌, ◌^◌, if◌then◌else◌, none, some, List, [], ◌∷◌, arith, ltb, ◌%◌,
}
use prefetch.MoveBlocks.Blocks.{
  inode_file_size, ceil_div, BlockRange, is_direct_block, is_1indirect_block, is_2indirect_block,
  is_3indirect_block, in_range,
}
use prefetch.MoveBlocks.Estimate.{
  estimate_blocks_for_range, direct_stage, indirect1_stage, indirect2_stage, indirect3_stage,
}
use prefetch.MoveBlocks.Estimate.SelfTest.{is_count, test_estimate_blocks_for_range}
use prefetch.MoveBlocks.Relocate.Pointers.{
  relocate_block_in_inode, relocate_block_in_indirect_block, move_in_indirect_block, write_indirect,
}
use prefetch.MoveBlocks.Estimate.Walk.{walk}
use prefetch.MoveBlocks.Estimate.Plain.{estimate_blocks_for_range_lem}
use prefetch.MoveBlocks.FreeSpace.{find_contiguous_free_space}
use prefetch.MoveBlocks.FreeSpace.Laws.{IsFirstRun, find_contiguous_free_space_lem}
use prefetch.MoveBlocks.Layout.{
  LayoutFs, process_layout_list, process_lines, next_line, process_line, with_name, with_inode,
  with_estimate, with_count, relocation_of, inode_of, size_in_blocks, field_blocks, layout_read,
}
use prefetch.MoveBlocks.Layout.Text.{
  fgets_lines, fgets_from, until_nul, strtok, token, after_token, skip_delimiters, is_delimiter,
  atol, skip_space, decimal, is_digit,
}
use prefetch.MoveBlocks.Layout.Laws.{GoodResult, process_layout_list_lem}
use prefetch.MoveBlocks.Ext2.{Inode}
use prefetch.MoveBlocks.Relocate.DirectData.{DirectMapped, direct_data}
use prefetch.MoveBlocks.Relocate.DirectFile.{relocate_block-direct_data}
use prefetch.MoveBlocks.Ext2.Memory.{MemoryDisk, memory_storage, memory_ext2, memory_bitmaps}
use prefetch.MoveBlocks.Relocate.{
  FilesystemInfo, done, aborted, proceed, update, get_block_buffer, free_block_buffer, write_block,
  update_bitmaps, relocate_raw_block,
}
use prefetch.MoveBlocks.Relocate.RawBlock.{CanMove, Untouched, relocate_raw_block_cases}
use prefetch.MoveBlocks.Relocate.Counting.{count_free}
use prefetch.MoveBlocks.Relocate.Accounting.{Accounted, free_blocks}
use prefetch.MoveBlocks.Relocate.File.{
  Relocation, and_then, leave, relocate_direct, relocate_1indirect, relocate_2indirect,
  relocate_by_level, relocate_inode_block, relocate_block, relocate_from, relocate_blocks,
}
use prefetch.MoveBlocks.Relocate.FileSteps.{relocate_blocks-Accounted, relocate_blocks-free_blocks}
use prefetch.MoveBlocks.Relocate.NoAbort.{relocate_blocks-NoAbort}

-- A sparse bitmap: every third block of the first twenty is occupied, then all are free.
abbrev thirds : ℕ → Bool
thirds b = ltb b 20 && (b % 3 == 0)

find_contiguous_free_space_lem_example :
    ((4 ≤ 50) × IsFirstRun thirds 1 64 4 (find_contiguous_free_space thirds 1 64 50 4))
    ⊎ ((50 < 4) × (find_contiguous_free_space thirds 1 64 50 4 ≡ none))
find_contiguous_free_space_lem_example =
    find_contiguous_free_space_lem thirds 1 64 50 4 (omega arith) (omega arith)

estimate_blocks_for_range_lem_example :
    estimate_blocks_for_range 256 260 20 ≡ some (walk 256 260 20)
estimate_blocks_for_range_lem_example =
    estimate_blocks_for_range_lem 256 260 20 (omega arith) (omega arith) (omega arith)

-- The last block before the triply indirect area and the first block in it: two data blocks and five
-- blocks of the indirection. For 24 blocks before that area and one in it, 31 is
-- estimated, though they are 25 data blocks and five of the indirection.
estimate_across : estimate_blocks_for_range 256 65803 2 ≡ some 7
unfolding estimate_blocks_for_range direct_stage indirect1_stage indirect2_stage indirect3_stage
    is_direct_block is_1indirect_block is_2indirect_block is_3indirect_block
estimate_across = refl

estimate_across_more : estimate_blocks_for_range 256 65780 25 ≡ some 31
unfolding estimate_blocks_for_range direct_stage indirect1_stage indirect2_stage indirect3_stage
    is_direct_block is_1indirect_block is_2indirect_block is_3indirect_block
estimate_across_more = refl

-- The tool's own test passes for blocks of 1, 2 and 4 KB.
self_test :
    (test_estimate_blocks_for_range 256
      && test_estimate_blocks_for_range 512
      && test_estimate_blocks_for_range 1024)
    ≡ true
unfolding test_estimate_blocks_for_range is_count estimate_blocks_for_range direct_stage
    indirect1_stage indirect2_stage indirect3_stage is_direct_block is_1indirect_block
    is_2indirect_block is_3indirect_block
self_test = refl

-- A disk of 64 blocks whose inode 12 has blocks 20 and 25 and an indirect block 30, which points to
-- block 40.
abbrev inode_12 : Inode Bool
inode_12 = record {
  i_block = 20 ∷ 25 ∷ 0 ∷ 0 ∷ 0 ∷ 0 ∷ 0 ∷ 0 ∷ 0 ∷ 0 ∷ 0 ∷ 0 ∷ 30 ∷ 0 ∷ 0 ∷ [];
  rest = true;
}

abbrev disk : MemoryDisk
disk = record {
  content = λ b. if b == 30 then 40 ∷ 0 ∷ [] else b ∷ [];
  inodes = λ i. if i == 12 then some inode_12 else none;
  bad = 64;
}

abbrev used : ℕ → Bool
used b = ltb b 4 || (b == 20) || (b == 25) || (b == 30) || (b == 40)

abbrev pub filesystem : FilesystemInfo memory_ext2
filesystem = record {
  block_map = used;
  bb_dirty = false;
  free_blocks_count = λ g. count_free (λ b. b / 8 == g) (λ b. ltb b 64 && used b) 64 % 2 ^ 16;
  device = disk;
  mallocs = 0;
  live_buffers = 0;
}

abbrev move_two : Relocation
move_two = record { inode_number = 12; block_offset = 11; blocks_count = 2 }

abbrev area : BlockRange
area = record { start_block = 8; blocks_count = 6 }

filesystem-Accounted : Accounted memory_ext2 64 memory_bitmaps filesystem
unfolding Accounted
filesystem-Accounted g = refl

-- The indirect block and the block that it points to move to 8 and 9.
moved_two :
    let r = relocate_blocks memory_ext2 256 filesystem move_two 8 area in
    (r.status ≡ done)
    × (r.target_block ≡ 10)
    × (r.fs.live_buffers ≡ 0)
    × (r.fs.device.content 8 ≡ 9 ∷ 0 ∷ [])
    × (r.fs.device.content 9 ≡ 40 ∷ [])
unfolding relocate_blocks relocate_from relocate_block relocate_inode_block relocate_by_level
    relocate_direct relocate_1indirect relocate_2indirect leave proceed and_then
    relocate_block_in_inode relocate_block_in_indirect_block move_in_indirect_block write_indirect
    relocate_raw_block write_block update_bitmaps update get_block_buffer free_block_buffer
    is_direct_block is_1indirect_block is_2indirect_block in_range
moved_two = (refl, refl, refl, refl, refl)

relocate_raw_block_cases_example :
    let (fs', moved) = relocate_raw_block memory_ext2 filesystem 20 8 in
    ((moved ≡ true) × ((buf : List ℕ) × CanMove memory_ext2 filesystem 20 8 buf))
    ⊎ ((moved ≡ false)
        × Untouched memory_ext2 filesystem fs'
        × (fs'.live_buffers ≤ 0 + 1)
        × (¬ ((buf : List ℕ) × CanMove memory_ext2 filesystem 20 8 buf)))
relocate_raw_block_cases_example = relocate_raw_block_cases memory_ext2 filesystem 20 8

relocate_blocks-Accounted_example :
    Accounted memory_ext2 64 memory_bitmaps
      (relocate_blocks memory_ext2 256 filesystem move_two 8 area).fs
relocate_blocks-Accounted_example =
    relocate_blocks-Accounted memory_ext2 64 memory_bitmaps 256 filesystem move_two 8 area
      (omega arith) filesystem-Accounted

relocate_blocks-free_blocks_example :
    let r = relocate_blocks memory_ext2 256 filesystem move_two 8 area in
    (free_blocks memory_ext2 64 memory_bitmaps r.fs
      ≡ free_blocks memory_ext2 64 memory_bitmaps filesystem)
    × (r.target_block ≤ 8 + 3 * 2)
relocate_blocks-free_blocks_example =
    relocate_blocks-free_blocks memory_ext2 64 memory_bitmaps 256 filesystem move_two 8 area
      (omega arith)

relocate_blocks-NoAbort_example :
    (relocate_blocks memory_ext2 256 filesystem move_two 8 area).status ≢ aborted
relocate_blocks-NoAbort_example =
    relocate_blocks-NoAbort memory_ext2 256 filesystem move_two 8 area (omega arith) (omega arith)

inode_12-DirectMapped : DirectMapped memory_ext2 memory_storage filesystem inode_12
unfolding DirectMapped
inode_12-DirectMapped zero h = inr (refl, tt)
inode_12-DirectMapped (suc zero) h = inr (refl, tt)
inode_12-DirectMapped (suc (suc j)) h = inl (ground arith)

moves_20 : (relocate_block memory_ext2 256 filesystem 12 0 8 area).status ≡ done
unfolding relocate_block relocate_inode_block relocate_by_level relocate_direct leave
    relocate_block_in_inode relocate_raw_block write_block update_bitmaps update get_block_buffer
    free_block_buffer is_direct_block in_range
moves_20 = refl

relocate_block-direct_data_example :
    direct_data memory_ext2 (relocate_block memory_ext2 256 filesystem 12 0 8 area).fs.device 12 0
    ≡ direct_data memory_ext2 filesystem.device 12 0
relocate_block-direct_data_example =
    relocate_block-direct_data memory_ext2 memory_storage 256 filesystem 12 0 8 area inode_12 refl
      (omega arith) (omega arith) (ground arith) tt inode_12-DirectMapped moves_20 0 (omega arith)

-- Blocks of 1 KB; inode 12 has 300 blocks, and /a is inode 12.
abbrev pub layout_fs : LayoutFs
layout_fs = record {
  namei_follow = λ path. if length path == 2 then some 12 else none;
  read_size = λ i.
      if i == 12
      then some (record { is_regular = true; i_size = 307200; i_size_high = 0 })
      else none;
  first_ino = 11;
  blocksize = 1024;
  addr_per_block = 256;
}

-- "/a\n", "#\n", "5\n", "12 3 1\n": a whole file, a comment, a reserved inode, and one page.
abbrev layout_file : List ℕ
layout_file =
    b'/' ∷ b'a' ∷ 10 ∷ b'#' ∷ 10 ∷ b'5' ∷ 10 ∷ b'1' ∷ b'2' ∷ 32 ∷ b'3' ∷ 32 ∷ b'1' ∷ 10 ∷ []

layout_of_file :
    process_layout_list layout_fs 4096 (some layout_file) true
    ≡ layout_read (record {
      relocations =
          record { inode_number = 12; block_offset = 0; blocks_count = 300 }
          ∷ record { inode_number = 12; block_offset = 12; blocks_count = 4 }
          ∷ [];
      estimated_block_size = 303 + 5;
    })
unfolding process_layout_list process_lines next_line process_line with_name with_inode
    with_estimate with_count relocation_of inode_of size_in_blocks field_blocks fgets_lines
    fgets_from until_nul strtok token after_token skip_delimiters is_delimiter atol skip_space
    decimal is_digit inode_file_size ceil_div estimate_blocks_for_range direct_stage indirect1_stage
    indirect2_stage indirect3_stage is_direct_block is_1indirect_block is_2indirect_block
    is_3indirect_block
layout_of_file = refl

-- "12 1 -1": the end wraps to block 0, so the length is not cut.
length_wraps :
    relocation_of layout_fs 4 12
      (record { is_regular = true; i_size = 307200; i_size_high = 0 })
      (some (b'1' ∷ []))
      (some (b'-' ∷ b'1' ∷ []))
    ≡ some (record { inode_number = 12; block_offset = 4; blocks_count = 2 ^ 32 - 4 })
unfolding relocation_of size_in_blocks field_blocks atol skip_space decimal is_digit inode_file_size
    ceil_div
length_wraps = refl

process_layout_list_lem_example :
    GoodResult layout_fs (process_layout_list layout_fs 4096 (some layout_file) true)
process_layout_list_lem_example = process_layout_list_lem layout_fs 4096 (some layout_file) true
