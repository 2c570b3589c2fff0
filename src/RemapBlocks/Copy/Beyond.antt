-- ===== src/RemapBlocks/Copy/Beyond.antt =====
-- What becomes of an extent that does not fit into the buffer.
use prefetch.Common.{
  arith, ℕ, zero, suc, ◌+◌, ◌-◌, ◌≤◌, ◌<◌, ◌^◌, ◌≡◌, ◌≢◌, inl, inr, refl, ◌∙◌, ltb, Bool-cases,
  some, min,
}
use prefetch.RemapBlocks.Splay.{Extent}
use prefetch.RemapBlocks.FreeExtents.Runs.{AreSpread}
use prefetch.RemapBlocks.FreeExtents.Lookup.{IsConsecutive}
use prefetch.RemapBlocks.Copy.{CopySetup, copy_chunks}
use prefetch.RemapBlocks.Copy.Targets.{target, target_injective}
use prefetch.RemapBlocks.Copy.Inode.{IsWorking, write_buffer-HaveMoved, copy_chunks_end}

module _ {D : Type 0} (c : CopySetup) (last : ℕ) (h : IsConsecutive 0 c.free_extents last)
    (small : last < 2 ^ 32) (spread : AreSpread c.free_extents) (works : IsWorking c) where
  -- Where an extent is longer than the buffer, its copying leaves all other blocks than the targets of
  -- its first blocks as they were.
  copy_chunks_keeps :
      (rounds : ℕ) (e : Extent) (curpos : ℕ) (dev : ℕ → D)
      → 0 < c.remap_buf_blocks
      → e.chunk_offset + e.len ≤ last
      → e.len ≤ curpos + rounds
      → (dev' : ℕ → D) × (copy_chunks c rounds e curpos dev ≡ some dev')
        × ((x : ℕ)
            → ((j : ℕ)
                → j < c.remap_buf_blocks
                → j < e.len
                → x ≢ target c.free_extents (e.chunk_offset + j))
            → dev' x ≡ dev x)
  unfolding copy_chunks
  copy_chunks_keeps zero e curpos dev buffer fits enough = (
    dev,
    copy_chunks_end c last h small spread works zero e curpos dev (omega arith),
    λ x other. refl,
  )
  copy_chunks_keeps (suc rounds) e curpos dev buffer fits enough =
      elim (Bool-cases (ltb curpos e.len)) [
        | inr done ↦ (dev, rw (copy_chunks, done) refl, λ x other. refl)
        | inl more ↦
            let curlen = min (e.len - curpos) c.remap_buf_blocks in
            let some_len : 0 < curlen = ground arith in
            let (dev1, done, (moved, keep)) =
              write_buffer-HaveMoved c last h small spread works e.chunk_offset curlen
                (e.block + curpos) dev (omega arith) in
            let (dev2, rest, keep') =
              copy_chunks_keeps rounds e (curpos + curlen) dev1 buffer fits (omega arith) in
            (
              dev2,
              rw (copy_chunks, more, done) rest,
              λ x other. keep' x other ∙ keep x (λ j lt. other j (omega arith) (omega arith)),
            )
      ]

  -- An extent that is longer than the buffer is not copied: of its blocks, those from the size of the
  -- buffer on never come to their targets, which hold what they held before.
  pub copy_chunks_beyond :
      (e : Extent) (dev : ℕ → D)
      → 0 < c.remap_buf_blocks
      → e.chunk_offset + e.len ≤ last
      → (dev' : ℕ → D) × (copy_chunks c e.len e 0 dev ≡ some dev')
        × ((i : ℕ)
            → c.remap_buf_blocks ≤ i
            → i < e.len
            → dev' (target c.free_extents (e.chunk_offset + i))
              ≡ dev (target c.free_extents (e.chunk_offset + i)))
  copy_chunks_beyond e dev buffer fits =
      let (dev', done, keep) = copy_chunks_keeps e.len e 0 dev buffer fits (omega arith) in
      (
        dev',
        done,
        λ i beyond lt. keep (target c.free_extents (e.chunk_offset + i)) (λ j below lt' same.
            let one =
              target_injective c.free_extents last h small spread (e.chunk_offset + i)
                (e.chunk_offset + j) (omega arith) (omega arith) same in
            absurd (omega (arith, one))),
      )
