-- ===== src/MoveBlocks/Estimate.antt =====
-- `estimate_blocks_for_range`: how many blocks, those of the indirection included, a range of a
-- file takes.
pub mod Walk
pub mod Plain
pub mod SelfTest
use prefetch.Common.{
  ℕ, zero, suc, ◌+◌, ◌-◌, ◌*◌, ◌/◌, ◌%◌, ◌^◌, ◌≤◌, ◌<◌, ◌≡◌, refl, Bool, true, false, not, arith,
  ltb, leb, ◌==◌, if◌then◌else◌, Option, none, some, word_mod, add32, sub32, mul32,
}
use prefetch.MoveBlocks.Blocks.{
  ext2_ndir_blocks, is_direct_block, is_1indirect_block, is_2indirect_block, is_3indirect_block,
}

-- The two variables that the stages update: `start_block` and `blocks_count`.
pub record Progress : Type 0 where
  pub start_block : ℕ
  pub blocks_count : ℕ

-- The sums of block numbers are 32-bit; `blocks_count` is 64-bit and cannot overflow.
abbrev pub span : ℕ → ℕ → ℕ
span first last = add32 (sub32 last first) 1

unfoldable pub direct_stage : ℕ → Progress → Progress
direct_stage end_block p =
    if is_direct_block p.start_block
    then (if is_direct_block end_block
        then record p { blocks_count = p.blocks_count + span p.start_block end_block }
        else record p {
          blocks_count = p.blocks_count + span p.start_block (ext2_ndir_blocks - 1);
          start_block = ext2_ndir_blocks;
        })
    else p

unfoldable pub indirect1_stage : ℕ → ℕ → Progress → Progress
indirect1_stage addr_per_block end_block p =
    let last_1indirect_block = sub32 (add32 ext2_ndir_blocks addr_per_block) 1 in
    if is_1indirect_block addr_per_block p.start_block
    then (if is_1indirect_block addr_per_block end_block
        then record p { blocks_count = p.blocks_count + span p.start_block end_block + 1 }
        else record p {
          blocks_count = p.blocks_count + span p.start_block last_1indirect_block + 1;
          start_block = add32 last_1indirect_block 1;
        })
    else p

unfoldable pub indirect2_stage : ℕ → ℕ → Progress → Progress
indirect2_stage addr_per_block end_block p =
    let first_2indirect_block = add32 ext2_ndir_blocks addr_per_block in
    let last_2indirect_block =
      sub32 (add32 first_2indirect_block (mul32 addr_per_block addr_per_block)) 1 in
    if is_2indirect_block addr_per_block p.start_block
    then (if is_2indirect_block addr_per_block end_block
        then record p {
          blocks_count =
              p.blocks_count
              + span p.start_block end_block
              + 1
              + span (sub32 p.start_block first_2indirect_block / addr_per_block)
                  (sub32 end_block first_2indirect_block / addr_per_block);
        }
        else record p {
          blocks_count =
              p.blocks_count
              + span p.start_block last_2indirect_block
              + 1
              + span (p.start_block / addr_per_block) (last_2indirect_block / addr_per_block);
          start_block = add32 last_2indirect_block 1;
        })
    else p

-- `none` is the failed assertion, which aborts.
unfoldable pub indirect3_stage : ℕ → ℕ → Progress → Option ℕ
indirect3_stage addr_per_block end_block p =
    let square = mul32 addr_per_block addr_per_block in
    let first_3indirect_block = add32 (add32 ext2_ndir_blocks addr_per_block) square in
    let from = sub32 p.start_block first_3indirect_block in
    let upto = sub32 end_block first_3indirect_block in
    if is_3indirect_block addr_per_block p.start_block
    then (if is_3indirect_block addr_per_block end_block
        then some (
            p.blocks_count
            + span p.start_block end_block
            + span (from / addr_per_block) (upto / addr_per_block)
            + span (from / square) (upto / square)
            + 1)
        else none)
    else some p.blocks_count

unfoldable pub estimate_blocks_for_range : ℕ → ℕ → ℕ → Option ℕ
estimate_blocks_for_range addr_per_block start_block count =
    let end_block = sub32 (add32 start_block count) 1 in
    if count == 0
    then some 0
    else indirect3_stage addr_per_block end_block (
        indirect2_stage addr_per_block end_block (
          indirect1_stage addr_per_block end_block
            (direct_stage end_block (record { start_block = start_block; blocks_count = 0 }))))
