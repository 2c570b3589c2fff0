-- ===== src/MoveBlocks/Relocate/RawBlock.antt =====
-- When `relocate_raw_block` succeeds, and what it leaves when it does and when it does not.
use prefetch.Common.{
  ℕ, ◌+◌, ◌≤◌, ◌≡◌, refl, true, false, arith, some, Bool-cases, inl, inr, ◌⊎◌, Option-cases,
}
use prefetch.MoveBlocks.Ext2.{Ext2}
use prefetch.MoveBlocks.Relocate.{
  FilesystemInfo, update_bitmaps, write_block, relocate_raw_block, get_block_buffer,
  free_block_buffer,
}

module _ (ext2 : Ext2) where
  open ext2 use {
    Data, test_block_bitmap, mark_block_bitmap, unmark_block_bitmap, read_blk, write_blk, malloc,
  }

  -- What the move of `source` to `target` needs.
  unfoldable pub CanMove : FilesystemInfo ext2 → ℕ → ℕ → Data → Type 0
  CanMove fs source target buf =
      (test_block_bitmap fs.block_map source ≡ true)
      × (test_block_bitmap fs.block_map target ≡ false)
      × (malloc fs.mallocs ≡ true)
      × (read_blk fs.device source ≡ some buf)
      × ((write_blk fs.device target buf).1 ≡ true)

  -- Where the source is marked, the target is not, and the buffer, the read and the write are
  -- successful, the call returns 1: the bitmap has the target marked and then the source unmarked,
  -- the device has the data written to the target, and the buffer is freed.
  pub relocate_raw_block_lem :
      (fs : FilesystemInfo ext2) (source target : ℕ) (buf : Data)
      → CanMove fs source target buf
      → let (fs', moved) = relocate_raw_block ext2 fs source target in
        (moved ≡ true)
        × (fs'.block_map ≡ unmark_block_bitmap (mark_block_bitmap fs.block_map target) source)
        × (fs'.device ≡ (write_blk fs.device target buf).0)
        × (fs'.live_buffers ≡ fs.live_buffers)
  unfolding relocate_raw_block CanMove get_block_buffer write_block update_bitmaps free_block_buffer
  relocate_raw_block_lem fs source target buf (src, tgt, mem, rd, wr) =
      rw (src, tgt, mem, rd, wr) (refl, refl, refl, omega arith)

  -- `fs'` has the bitmap, its dirty flag and the counts of `fs`.
  pub Untouched : FilesystemInfo ext2 → FilesystemInfo ext2 → Type 0
  Untouched fs fs' =
      (fs'.block_map ≡ fs.block_map)
      × (fs'.free_blocks_count ≡ fs.free_blocks_count)
      × (fs'.bb_dirty ≡ fs.bb_dirty)

  -- `relocate_raw_block` returns 1 only where the source is marked, the target is not, and the buffer,
  -- the read and the write are successful. Else it returns 0, one of these conditions fails, the
  -- bitmap, its dirty flag and the counts are as before, and at most one more buffer is allocated.
  pub relocate_raw_block_cases :
      (fs : FilesystemInfo ext2) (source target : ℕ)
      → let (fs', moved) = relocate_raw_block ext2 fs source target in
        ((moved ≡ true) × ((buf : Data) × CanMove fs source target buf))
        ⊎ ((moved ≡ false)
            × Untouched fs fs'
            × (fs'.live_buffers ≤ fs.live_buffers + 1)
            × (¬ ((buf : Data) × CanMove fs source target buf)))
  unfolding relocate_raw_block CanMove get_block_buffer write_block free_block_buffer Untouched
  relocate_raw_block_cases fs source target =
      elim (Bool-cases (test_block_bitmap fs.block_map source)) [
        | inr src ↦ rw (src) (inr (refl, (refl, refl, refl), omega arith, λ k. ground arith))
        | inl src ↦ elim (Bool-cases (test_block_bitmap fs.block_map target)) [
          | inl tgt ↦ rw (src, tgt) (inr (refl, (refl, refl, refl), omega arith, λ k. ground arith))
          | inr tgt ↦ elim (Bool-cases (malloc fs.mallocs)) [
            | inr mem ↦
                rw (src, tgt, mem) (inr (refl, (refl, refl, refl), omega arith, λ k. ground arith))
            | inl mem ↦ elim (Option-cases (read_blk fs.device source)) [
              | inl rd ↦
                  rw (src, tgt, mem, rd)
                    (inr (refl, (refl, refl, refl), omega arith, λ k. ground arith))
              | inr (buf, rd) ↦ elim (Bool-cases (write_blk fs.device target buf).1) [
                | inl wr ↦
                    rw (src, tgt, mem, rd, wr) (inl (refl, (buf, (refl, refl, refl, refl, wr))))
                | inr wr ↦
                    rw (src, tgt, mem, rd, wr)
                      (inr (
                        refl,
                        (refl, refl, refl),
                        omega arith,
                        λ (x, (a, b, c, rd', wr')). cc (wr, rd', wr'),
                      ))
              ]
            ]
          ]
        ]
      ]
