-- ===== src/MoveBlocks/FreeSpace.antt =====
-- `find_contiguous_free_space`
pub mod Laws
use prefetch.Common.{
  ℕ, zero, suc, ◌+◌, ◌-◌, ◌≤◌, ◌<◌, ◌≡◌, refl, Bool, true, false, Option, none, some, arith, ltb,
  leb, if◌then◌else◌, inl, inr, Bool-cases, ◌⊎◌,
}

module _ (occupied : ℕ → Bool) (size_in_blocks : ℕ) where
  -- The loop over the `rounds` blocks from `i` on, with `contiguous` free blocks right before `i`.
  unfoldable pub find_loop : ℕ → ℕ → ℕ → Option ℕ
  find_loop zero i contiguous = none
  find_loop (suc rounds) i contiguous = elim (occupied i) [
    | true ↦ find_loop rounds (i + 1) 0
    | false ↦ elim (leb size_in_blocks (contiguous + 1)) [
      | true ↦ some (i + 1 - size_in_blocks)
      | false ↦ find_loop rounds (i + 1) (contiguous + 1)
    ]
  ]

-- `occupied` is the bitmap test; `start` its first block.
unfoldable pub find_contiguous_free_space : (ℕ → Bool) → ℕ → ℕ → ℕ → ℕ → Option ℕ
unfolding find_loop
find_contiguous_free_space occupied start s_blocks_count s_free_blocks_count size_in_blocks =
    if ltb s_free_blocks_count size_in_blocks
    then none
    else find_loop occupied size_in_blocks (s_blocks_count - start) start 0

-- `size` free blocks from `first` on.
abbrev pub IsFree : (ℕ → Bool) → ℕ → ℕ → Type 0
IsFree occupied first size = (b : ℕ) → first ≤ b → b < first + size → occupied b ≡ false
