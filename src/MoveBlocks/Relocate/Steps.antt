-- ===== src/MoveBlocks/Relocate/Steps.antt =====
-- The relocation of the blocks of files keeps the bitmap and the counts in agreement, and uses at most
-- three target blocks for each block of a file.
use prefetch.Common.{
  ℕ, ◌+◌, ◌≤◌, ◌<◌, ◌≡◌, refl, sym, not, arith, ltb, ◌==◌, Option, none, some, List, if_both,
  get_or, add32,
}
use prefetch.MoveBlocks.Ext2.{Ext2, Bitmaps}
use prefetch.MoveBlocks.Relocate.{FilesystemInfo, relocate_raw_block}
use prefetch.MoveBlocks.Blocks.{BlockRange, in_range}
use prefetch.MoveBlocks.Relocate.Pointers.{
  Moved, relocate_block_in_inode, write_indirect, move_in_indirect_block,
  relocate_block_in_indirect_block,
}
use prefetch.MoveBlocks.Relocate.Accounting.{
  Accounted, free_blocks, Kept, Kept-id, Kept-trans, relocate_raw_block-Kept,
}

module _ (ext2 : Ext2) (size : ℕ) (laws : Bitmaps ext2 size) where
  open ext2 use {read_ind_block, read_inode, write_inode, inode_has_valid_blocks, InodeRest}

  -- Moves that take `fs` to `fs'` and use at most `k` target blocks, from `t` on.
  pub record Run (k : ℕ) (fs : FilesystemInfo ext2) (t : ℕ) (fs' : FilesystemInfo ext2) (t' : ℕ)
      : Type 0 where
    pub kept : Kept ext2 size laws fs fs'
    pub upto : t' ≤ t + k

  -- The same for a state that a block of a file leaves.
  unfoldable pub Steps : ℕ → FilesystemInfo ext2 → ℕ → Moved ext2 → Type 0
  Steps k fs t m = Run k fs t m.fs m.target_block

  pub none_moved : (k : ℕ) (fs : FilesystemInfo ext2) (t : ℕ) → Run k fs t fs t
  none_moved k fs t = record { kept = Kept-id ext2 size laws fs; upto = omega arith }

  pub Run-trans :
      (j k : ℕ) (fs : FilesystemInfo ext2) (t : ℕ) (fs' : FilesystemInfo ext2) (t' : ℕ)
      (fs'' : FilesystemInfo ext2) (t'' : ℕ)
      → Run j fs t fs' t'
      → Run k fs' t' fs'' t''
      → Run (j + k) fs t fs'' t''
  Run-trans j k fs t fs' t' fs'' t'' p q = record {
    kept = Kept-trans ext2 size laws fs fs' fs'' p.kept q.kept;
    upto = omega (arith, p.upto, q.upto);
  }

  pub Run-more :
      (j k : ℕ) (fs : FilesystemInfo ext2) (t : ℕ) (fs' : FilesystemInfo ext2) (t' : ℕ)
      → j ≤ k
      → Run j fs t fs' t'
      → Run k fs t fs' t'
  Run-more j k fs t fs' t' h p = record { kept = p.kept; upto = omega (arith, p.upto, h) }

  pub relocate_block_in_inode-Steps :
      (m : Moved ext2) (index : ℕ) (area : BlockRange)
      → m.target_block < size
      → Steps 1 m.fs m.target_block (relocate_block_in_inode ext2 m index area)
  unfolding Steps relocate_block_in_inode
  relocate_block_in_inode-Steps m index area h =
      let block = get_or m.inode.i_block index 0 in
      let r = relocate_raw_block ext2 m.fs block m.target_block in
      let kept = relocate_raw_block-Kept ext2 size laws m.fs block m.target_block h in
      let same = none_moved 1 m.fs m.target_block in
      let S = λ (m' : Moved ext2). Run 1 m.fs m.target_block m'.fs m'.target_block in
      if_both S (block == 0) _ _ same (
        if_both S (in_range block area) _ _ same (
          if_both S (not r.1) _ _ (record { kept = kept; upto = omega arith })
            (record { kept = kept; upto = omega arith })))

  -- Only the device changes.
  pub same_bitmap :
      (k : ℕ) (fs : FilesystemInfo ext2) (t : ℕ) (fs' fs'' : FilesystemInfo ext2) (t' : ℕ)
      → fs'.block_map ≡ fs''.block_map
      → fs'.free_blocks_count ≡ fs''.free_blocks_count
      → Run k fs t fs' t'
      → Run k fs t fs'' t'
  unfolding Accounted free_blocks
  same_bitmap k fs t fs' fs'' t' m c r = record {
    kept = record {
      accounted = λ a. rw (sym m, sym c) (r.kept.accounted a);
      free = rw (sym m) r.kept.free;
    };
    upto = r.upto;
  }

  move_in_indirect_block-Steps :
      (m : Moved ext2) (ib index : ℕ) (area : BlockRange) (o : Option (List ℕ))
      → m.target_block < size
      → Steps 1 m.fs m.target_block (move_in_indirect_block ext2 m ib index area o)
  unfolding Steps move_in_indirect_block write_indirect
  move_in_indirect_block-Steps m ib index area none h = record {
    kept = Kept-id ext2 size laws m.fs;
    upto = omega arith;
  }
  move_in_indirect_block-Steps m ib index area (some content) h =
      let block = get_or content index 0 in
      let r = relocate_raw_block ext2 m.fs block m.target_block in
      let kept = relocate_raw_block-Kept ext2 size laws m.fs block m.target_block h in
      let same = none_moved 1 m.fs m.target_block in
      let moved : Run 1 m.fs m.target_block r.0 (add32 m.target_block 1) = record {
        kept = kept;
        upto = omega arith;
      } in
      let S = λ (m' : Moved ext2). Run 1 m.fs m.target_block m'.fs m'.target_block in
      if_both S (block == 0) _ _ same (
        if_both S (in_range block area) _ _ same (
          if_both S (not r.1) _ _ (record { kept = kept; upto = omega arith })
            (same_bitmap 1 m.fs m.target_block r.0 _ (add32 m.target_block 1) refl refl moved)))

  pub relocate_block_in_indirect_block-Steps :
      (apb : ℕ) (m : Moved ext2) (ib index : ℕ) (area : BlockRange)
      → m.target_block < size
      → Steps 1 m.fs m.target_block (relocate_block_in_indirect_block ext2 apb m ib index area)
  unfolding Steps relocate_block_in_indirect_block
  relocate_block_in_indirect_block-Steps apb m ib index area h =
      let S = λ (m' : Moved ext2). Run 1 m.fs m.target_block m'.fs m'.target_block in
      let same = none_moved 1 m.fs m.target_block in
      if_both S (not (ltb index apb)) _ _ same (
        if_both S (ib == 0) _ _ same
          (move_in_indirect_block-Steps m ib index area (read_ind_block m.fs.device ib) h))
