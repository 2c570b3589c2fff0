-- ===== src/MoveBlocks/Estimate/SelfTest.antt =====
-- `test_estimate_blocks_for_range`, which the tool runs on the filesystem it opens.
use prefetch.Common.{ℕ, ◌+◌, ◌-◌, ◌*◌, Bool, false, ◌&&◌, ◌==◌, Option, none, some}
use prefetch.MoveBlocks.Blocks.{ext2_ndir_blocks}
use prefetch.MoveBlocks.Estimate.{estimate_blocks_for_range}

-- An assertion of the test; an abort of the call is no success.
unfoldable pub is_count : Option ℕ → ℕ → Bool
is_count none n = false
is_count (some m) n = m == n

-- All assertions of the test hold.
unfoldable pub test_estimate_blocks_for_range : ℕ → Bool
unfolding is_count
test_estimate_blocks_for_range apb =
    let is = λ (start count n : ℕ). is_count (estimate_blocks_for_range apb start count) n in
    let d = ext2_ndir_blocks in
    let q = apb * apb in
    is 0 0 0
    && is 0 1 1
    && is 1 1 1
    && is 4 5 5
    && is d 1 2
    && is (d - 2) 6 7
    && is (d + 2) 6 7
    && is (d + apb - 1) 1 2
    && is (d + apb) 1 3
    && is (d + apb - 2) 6 9
    && is (d + apb + 2) 6 8
    && is (d + apb + apb - 3) 10 (10 + 1 + 2)
    && is (d + apb) q (q + 1 + apb)
    && is (d + apb + q - 1) 1 3
    && is (d + apb + q) 1 4
    && is (d + apb + q - 3) 10 15
    && is (d + apb + q) (apb * apb * apb) (apb * apb * apb + 1 + apb + q)
    && is (d + apb + q + 1) apb (apb + 1 + 1 + 2)
    && is (d + apb + q + apb * 5) q (q + 1 + 2 + apb)
