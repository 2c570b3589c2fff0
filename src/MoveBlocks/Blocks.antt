-- ===== src/MoveBlocks/Blocks.antt =====
-- Block numbers within a file, ranges of blocks, and sizes. A block number (`blk_t`) is a 32-bit
-- word; `addr_per_block` is EXT2_ADDR_PER_BLOCK of the filesystem.
use prefetch.Common.{
  ℕ, ◌+◌, ◌-◌, ◌*◌, ◌/◌, ◌%◌, ◌^◌, ◌≤◌, ◌<◌, Bool, true, false, arith, ltb, leb, ◌==◌,
  if◌then◌else◌, add32, mul32,
}

-- constants of <ext2fs/ext2_fs.h>
abbrev pub ext2_ndir_blocks : ℕ
ext2_ndir_blocks = 12

abbrev pub ext2_ind_block : ℕ
ext2_ind_block = 12

abbrev pub ext2_dind_block : ℕ
ext2_dind_block = 13

-- The size of a file from the two halves in its inode; the high one counts for regular files only.
unfoldable pub inode_file_size : Bool → ℕ → ℕ → ℕ
inode_file_size is_regular i_size i_size_high =
    if is_regular then i_size + i_size_high * 2 ^ 32 else i_size

unfoldable pub ceil_div : ℕ → ℕ → ℕ
ceil_div number divisor =
    let result = number / divisor in if number % divisor == 0 then result else result + 1

unfoldable pub is_direct_block : ℕ → Bool
is_direct_block block_in_inode = if ltb block_in_inode ext2_ndir_blocks then true else false

unfoldable pub is_1indirect_block : ℕ → ℕ → Bool
is_1indirect_block addr_per_block block_in_inode =
    if ltb block_in_inode ext2_ndir_blocks
    then false
    else if ltb (block_in_inode - ext2_ndir_blocks) addr_per_block
    then true
    else false

unfoldable pub is_2indirect_block : ℕ → ℕ → Bool
is_2indirect_block addr_per_block block_in_inode =
    if ltb block_in_inode ext2_ndir_blocks
    then false
    else if ltb (block_in_inode - ext2_ndir_blocks) addr_per_block
    then false
    else if ltb (block_in_inode - ext2_ndir_blocks - addr_per_block)
        (mul32 addr_per_block addr_per_block)
    then true
    else false

unfoldable pub is_3indirect_block : ℕ → ℕ → Bool
is_3indirect_block addr_per_block block_in_inode =
    if ltb block_in_inode ext2_ndir_blocks
    then false
    else if ltb (block_in_inode - ext2_ndir_blocks) addr_per_block
    then false
    else if ltb (block_in_inode - ext2_ndir_blocks - addr_per_block)
        (mul32 addr_per_block addr_per_block)
    then false
    else true

pub record BlockRange : Type 0 where
  pub start_block : ℕ
  pub blocks_count : ℕ

unfoldable pub in_range : ℕ → BlockRange → Bool
in_range block_number range =
    if ltb block_number range.start_block
    then false
    else if leb (add32 range.start_block range.blocks_count) block_number
    then false
    else true

-- `ceil_div` is the least number of divisors that covers the number.
ceil_div_lem : (n d : ℕ) → 0 < d → (n ≤ ceil_div n d * d) × (ceil_div n d * d < n + d)
unfolding ceil_div
ceil_div_lem n d h = grind arith
