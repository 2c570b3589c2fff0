-- ===== src/MoveBlocks/Relocate/Accounting.antt =====
-- The block bitmap and the free block counts of the group descriptors agree throughout.
use prefetch.Common.{
  ℕ, suc, ◌+◌, ◌-◌, ◌%◌, ◌<◌, ◌≡◌, refl, ◌∙◌, true, false, not, arith, ◌==◌, if◌then◌else◌, Option,
  none, some, Bool-cases, inl, inr,
}
use prefetch.MoveBlocks.Ext2.{Ext2, Bitmaps}
use prefetch.MoveBlocks.Relocate.{
  FilesystemInfo, update, group_mod, update_bitmaps, write_block, relocate_raw_block,
  get_block_buffer, free_block_buffer,
}
use prefetch.MoveBlocks.Relocate.Counting.{count_free, move_bit, count_free-move_bit}

-- One more in group `s`, then one less in group `t`.
counts_moved :
    (counts : ℕ → ℕ) (s t g x y : ℕ)
    → counts g ≡ x % group_mod
    → y + (if t == g then 1 else 0) ≡ x + (if s == g then 1 else 0)
    → update
        (update counts s ((counts s + 1) % group_mod))
        t
        ((update counts s ((counts s + 1) % group_mod) t + group_mod - 1) % group_mod)
        g
      ≡ y % group_mod
unfolding update
counts_moved counts s t g x y now moved = grind arith

module _ (ext2 : Ext2) (size : ℕ) (laws : Bitmaps ext2 size) where
  open ext2 use {Data, test_block_bitmap, group_of_blk, read_blk, write_blk, malloc}

  -- The count of each group descriptor is the number of free blocks of the group in the bitmap,
  -- modulo 2^16.
  unfoldable pub Accounted : FilesystemInfo ext2 → Type 0
  Accounted fs =
      (g : ℕ)
      → fs.free_blocks_count g
        ≡ count_free (λ b. group_of_blk b == g) (test_block_bitmap fs.block_map) size % group_mod

  update_bitmaps-Accounted :
      (fs : FilesystemInfo ext2) (s t : ℕ)
      → t < size
      → test_block_bitmap fs.block_map s ≡ true
      → test_block_bitmap fs.block_map t ≡ false
      → Accounted fs
      → Accounted (update_bitmaps ext2 fs s t)
  unfolding Accounted update_bitmaps move_bit
  update_bitmaps-Accounted fs s t h src tgt acc g =
      let moved =
        count_free-move_bit ext2 size laws (λ b. group_of_blk b == g) fs.block_map s t h src tgt in
      counts_moved fs.free_blocks_count (group_of_blk s) (group_of_blk t) g
        (count_free (λ b. group_of_blk b == g) (test_block_bitmap fs.block_map) size)
        (count_free (λ b. group_of_blk b == g) (test_block_bitmap (move_bit ext2 fs.block_map s t))
          size)
        (acc g) moved

  -- The number of free blocks.
  unfoldable pub free_blocks : FilesystemInfo ext2 → ℕ
  free_blocks fs = count_free (λ b. true) (test_block_bitmap fs.block_map) size

  -- `fs'` comes from `fs` by moves of blocks.
  pub record Kept (fs fs' : FilesystemInfo ext2) : Type 0 where
    pub accounted : Accounted fs → Accounted fs'
    pub free : free_blocks fs' ≡ free_blocks fs

  update_bitmaps-Kept :
      (fs : FilesystemInfo ext2) (s t : ℕ)
      → t < size
      → test_block_bitmap fs.block_map s ≡ true
      → test_block_bitmap fs.block_map t ≡ false
      → Kept fs (update_bitmaps ext2 fs s t)
  unfolding free_blocks update_bitmaps move_bit
  update_bitmaps-Kept fs s t h src tgt = record {
    accounted = update_bitmaps-Accounted fs s t h src tgt;
    free =
        let moved = count_free-move_bit ext2 size laws (λ b. true) fs.block_map s t h src tgt in
        omega arith;
  }

  write_block-Kept :
      (fs : FilesystemInfo ext2) (s t : ℕ) (o : Option Data)
      → t < size
      → test_block_bitmap fs.block_map s ≡ true
      → test_block_bitmap fs.block_map t ≡ false
      → Kept fs (write_block ext2 fs s t o).0
  unfolding write_block free_block_buffer Accounted free_blocks
  write_block-Kept fs s t none h src tgt = record { accounted = λ a. a; free = refl }
  write_block-Kept fs s t (some buf) h src tgt = elim (Bool-cases (write_blk fs.device t buf).1) [
    | inl e ↦ rw (e) (
        let fs' = free_block_buffer ext2 (record fs { device = (write_blk fs.device t buf).0 }) in
        let k = update_bitmaps-Kept fs' s t h src tgt in
        record { accounted = k.accounted; free = k.free })
    | inr e ↦ rw (e) (record { accounted = λ a. a; free = refl })
  ]

  pub Kept-id : (fs : FilesystemInfo ext2) → Kept fs fs
  Kept-id fs = record { accounted = λ a. a; free = refl }

  with_buffer-Kept :
      (fs : FilesystemInfo ext2) (s t : ℕ)
      → t < size
      → test_block_bitmap fs.block_map s ≡ true
      → test_block_bitmap fs.block_map t ≡ false
      → Kept fs
          (let (fs', allocated) = get_block_buffer ext2 fs in
            if not allocated
            then (fs', false)
            else write_block ext2 fs' s t (read_blk fs'.device s)).0
  unfolding get_block_buffer Accounted free_blocks
  with_buffer-Kept fs s t h src tgt = elim (Bool-cases (malloc fs.mallocs)) [
    | inl e ↦ rw (e) (
        let fs' : FilesystemInfo ext2 = record fs {
          mallocs = suc fs.mallocs;
          live_buffers = suc fs.live_buffers;
        } in
        let k = write_block-Kept fs' s t (read_blk fs.device s) h src tgt in
        record { accounted = k.accounted; free = k.free })
    | inr e ↦ rw (e) (record { accounted = λ a. a; free = refl })
  ]

  pub relocate_raw_block-Kept :
      (fs : FilesystemInfo ext2) (s t : ℕ) → t < size → Kept fs (relocate_raw_block ext2 fs s t).0
  unfolding relocate_raw_block
  relocate_raw_block-Kept fs s t h = elim (Bool-cases (test_block_bitmap fs.block_map s)) [
    | inr src ↦ rw (src) (Kept-id fs)
    | inl src ↦ elim (Bool-cases (test_block_bitmap fs.block_map t)) [
      | inl tgt ↦ rw (src, tgt) (Kept-id fs)
      | inr tgt ↦ rw (src, tgt) (with_buffer-Kept fs s t h src tgt)
    ]
  ]

  pub Kept-trans : (fs fs' fs'' : FilesystemInfo ext2) → Kept fs fs' → Kept fs' fs'' → Kept fs fs''
  Kept-trans fs fs' fs'' p q = record {
    accounted = λ a. q.accounted (p.accounted a);
    free = q.free ∙ p.free;
  }
