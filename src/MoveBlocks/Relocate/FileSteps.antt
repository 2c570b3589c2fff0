-- ===== src/MoveBlocks/Relocate/FileSteps.antt =====
-- `relocate_block` and `relocate_blocks` keep the bitmap and the counts in agreement.
use prefetch.Common.{
  ℕ, zero, suc, ◌+◌, ◌-◌, ◌*◌, ◌/◌, ◌%◌, ◌≤◌, ◌≡◌, refl, Bool, not, arith, ◌==◌, Option, none, some,
  if_both, get_or, add32,
}
use prefetch.MoveBlocks.Ext2.{Ext2, Inode, Bitmaps}
use prefetch.MoveBlocks.Relocate.{
  proceed_both, Status, failed, aborted, done, FilesystemInfo, get_block_buffer, free_block_buffer,
}
use prefetch.MoveBlocks.Blocks.{
  BlockRange, ext2_ind_block, ext2_dind_block, is_direct_block, ext2_ndir_blocks,
  is_1indirect_block, is_2indirect_block,
}
use prefetch.MoveBlocks.Relocate.Pointers.{
  Moved, relocate_block_in_inode, relocate_block_in_indirect_block,
}
use prefetch.MoveBlocks.Relocate.File.{
  and_then, relocate_direct, relocate_1indirect, relocate_2indirect, relocate_by_level, Relocated,
  leave, relocate_inode_block, relocate_block, relocate_from, relocate_blocks, Relocation,
}
use prefetch.MoveBlocks.Relocate.Accounting.{Accounted, free_blocks}
use prefetch.MoveBlocks.Relocate.Steps.{
  Run, none_moved, Run-trans, Run-more, Steps, relocate_block_in_inode-Steps,
  relocate_block_in_indirect_block-Steps, same_bitmap,
}

module _ (ext2 : Ext2) (size : ℕ) (laws : Bitmaps ext2 size) where
  open ext2 use {read_ind_block, read_inode, write_inode, inode_has_valid_blocks, malloc, InodeRest}

  -- `continue` is run only where the first part is done.
  and_then-Steps :
      (j k : ℕ) (fs : FilesystemInfo ext2) (t : ℕ) (m : Moved ext2)
      (continue : Moved ext2 → Moved ext2)
      → Steps ext2 size laws j fs t m
      → Steps ext2 size laws k m.fs m.target_block (continue m)
      → Steps ext2 size laws (j + k) fs t (and_then ext2 m continue)
  unfolding Steps and_then
  and_then-Steps j k fs t m continue p q =
      let stopped = Run-more ext2 size laws j (j + k) fs t m.fs m.target_block (omega arith) p in
      let m' = continue m in
      let both = Run-trans ext2 size laws j k fs t m.fs m.target_block m'.fs m'.target_block p q in
      proceed_both (λ (r : Moved ext2). Run ext2 size laws (j + k) fs t r.fs r.target_block)
        m.status m m' stopped both

  relocate_1indirect-Steps :
      (apb : ℕ) (m : Moved ext2) (b : ℕ) (area : BlockRange)
      → m.target_block + 3 ≤ size
      → Steps ext2 size laws 2 m.fs m.target_block (relocate_1indirect ext2 apb m b area)
  unfolding Steps relocate_1indirect
  relocate_1indirect-Steps apb m b area h =
      let top = relocate_block_in_inode ext2 m ext2_ind_block area in
      let ib = get_or top.inode.i_block ext2_ind_block 0 in
      let S =
        λ (m' : Moved ext2). Run ext2 size laws 1 top.fs top.target_block m'.fs m'.target_block in
      let first =
        relocate_block_in_inode-Steps ext2 size laws m ext2_ind_block area (omega arith) in
      and_then-Steps 1 1 m.fs m.target_block top _ first (
        if_both S (ib == 0) _ _ (none_moved ext2 size laws 1 top.fs top.target_block) (
          relocate_block_in_indirect_block-Steps ext2 size laws apb top ib (b - ext2_ndir_blocks)
            area (omega (arith, first.upto))))

  relocate_2indirect-Steps :
      (apb : ℕ) (m : Moved ext2) (b : ℕ) (area : BlockRange)
      → m.target_block + 3 ≤ size
      → Steps ext2 size laws 3 m.fs m.target_block (relocate_2indirect ext2 apb m b area)
  unfolding Steps relocate_2indirect
  relocate_2indirect-Steps apb m b area h =
      let offset = b - ext2_ndir_blocks - apb in
      let top = relocate_block_in_inode ext2 m ext2_dind_block area in
      let ib = get_or top.inode.i_block ext2_dind_block 0 in
      let S =
        λ (m' : Moved ext2). Run ext2 size laws 2 top.fs top.target_block m'.fs m'.target_block in
      let first =
        relocate_block_in_inode-Steps ext2 size laws m ext2_dind_block area (omega arith) in
      let mid = relocate_block_in_indirect_block ext2 apb top ib (offset / apb) area in
      let second =
        relocate_block_in_indirect_block-Steps ext2 size laws apb top ib (offset / apb) area
          (omega (arith, first.upto)) in
      let T =
        λ (m' : Moved ext2). Run ext2 size laws 1 mid.fs mid.target_block m'.fs m'.target_block in
      and_then-Steps 1 2 m.fs m.target_block top _ first (
        if_both S (ib == 0) _ _ (none_moved ext2 size laws 2 top.fs top.target_block) (
          and_then-Steps 1 1 top.fs top.target_block mid _ second (
            if_both T (mid.next == 0) _ _ (none_moved ext2 size laws 1 mid.fs mid.target_block) (
              relocate_block_in_indirect_block-Steps ext2 size laws apb mid mid.next (offset % apb)
                area (omega (arith, first.upto, second.upto))))))

  relocate_by_level-Steps :
      (apb : ℕ) (m : Moved ext2) (b : ℕ) (area : BlockRange)
      → m.target_block + 3 ≤ size
      → Steps ext2 size laws 3 m.fs m.target_block (relocate_by_level ext2 apb m b area)
  unfolding Steps relocate_by_level relocate_direct
  relocate_by_level-Steps apb m b area h =
      let S = λ (m' : Moved ext2). Run ext2 size laws 3 m.fs m.target_block m'.fs m'.target_block in
      let direct = relocate_block_in_inode ext2 m b area in
      let once = relocate_1indirect ext2 apb m b area in
      if_both S (is_direct_block b) _ _
        (Run-more ext2 size laws 1 3 m.fs m.target_block direct.fs direct.target_block (omega arith)
          (relocate_block_in_inode-Steps ext2 size laws m b area (omega arith)))
        (if_both S (is_1indirect_block apb b) _ _
          (Run-more ext2 size laws 2 3 m.fs m.target_block once.fs once.target_block (omega arith)
            (relocate_1indirect-Steps apb m b area h))
          (if_both S (is_2indirect_block apb b) _ _ (relocate_2indirect-Steps apb m b area h)
            (none_moved ext2 size laws 3 m.fs m.target_block)))

  leave-Run :
      (k : ℕ) (fs : FilesystemInfo ext2) (t inode_number : ℕ) (m : Moved ext2) (st : Status)
      → Steps ext2 size laws k fs t m
      → let r = leave ext2 inode_number m st in Run ext2 size laws k fs t r.fs r.target_block
  unfolding Steps leave free_block_buffer
  leave-Run k fs t inode_number m failed p =
      same_bitmap ext2 size laws k fs t m.fs (free_block_buffer ext2 m.fs) m.target_block refl refl
        p
  leave-Run k fs t inode_number m aborted p = p
  leave-Run k fs t inode_number m done p =
      let (w, ok) = write_inode m.fs.device inode_number m.inode in
      same_bitmap ext2 size laws k fs t m.fs (free_block_buffer ext2 (record m.fs { device = w }))
        m.target_block refl refl p

  buffer-Run :
      (fs : FilesystemInfo ext2) (t : ℕ) → Run ext2 size laws 0 fs t (get_block_buffer ext2 fs).0 t
  unfolding get_block_buffer
  buffer-Run fs t =
      if_both (λ (r : FilesystemInfo ext2 × Bool). Run ext2 size laws 0 fs t r.0 t)
        (malloc fs.mallocs) _ _
        (same_bitmap ext2 size laws 0 fs t fs _ t refl refl (none_moved ext2 size laws 0 fs t))
        (same_bitmap ext2 size laws 0 fs t fs _ t refl refl (none_moved ext2 size laws 0 fs t))

  relocate_inode_block-Run :
      (apb : ℕ) (fs : FilesystemInfo ext2) (inode_number b t : ℕ) (area : BlockRange)
      (o : Option (Inode InodeRest))
      → t + 3 ≤ size
      → let r = relocate_inode_block ext2 apb fs inode_number b t area o in
        Run ext2 size laws 3 fs t r.fs r.target_block
  unfolding relocate_inode_block Steps
  relocate_inode_block-Run apb fs inode_number b t area none h = none_moved ext2 size laws 3 fs t
  relocate_inode_block-Run apb fs inode_number b t area (some inode) h =
      let fs' = (get_block_buffer ext2 fs).0 in
      let R = λ (r : Relocated ext2). Run ext2 size laws 3 fs t r.fs r.target_block in
      let got = buffer-Run fs t in
      let m : Moved ext2 = record {
        fs = fs';
        inode = inode;
        target_block = t;
        next = 0;
        status = done;
      } in
      let m' = relocate_by_level ext2 apb m b area in
      let r = leave ext2 inode_number m' m'.status in
      if_both R (not (inode_has_valid_blocks inode)) _ _ (none_moved ext2 size laws 3 fs t) (
        if_both R (not (get_block_buffer ext2 fs).1) _ _
          (Run-more ext2 size laws 0 3 fs t fs' t (omega arith) got)
          (Run-trans ext2 size laws 0 3 fs t fs' t r.fs r.target_block got
            (leave-Run 3 fs' t inode_number m' m'.status (relocate_by_level-Steps apb m b area h))))

  relocate_from-Run :
      (apb : ℕ) (fs : FilesystemInfo ext2) (relocation : Relocation) (t : ℕ) (area : BlockRange)
      (i left : ℕ)
      → t + 3 * left ≤ size
      → let r = relocate_from ext2 apb fs relocation t area i left in
        Run ext2 size laws (3 * left) fs t r.fs r.target_block
  unfolding relocate_from relocate_block
  relocate_from-Run apb fs relocation t area i zero h = none_moved ext2 size laws _ fs t
  relocate_from-Run apb fs relocation t area i (suc left) h =
      let r =
        relocate_block ext2 apb fs relocation.inode_number (add32 relocation.block_offset i) t
          area in
      let rest = relocate_from ext2 apb r.fs relocation r.target_block area (suc i) left in
      let first =
        relocate_inode_block-Run apb fs relocation.inode_number (add32 relocation.block_offset i) t
          area (read_inode fs.device relocation.inode_number) (omega arith) in
      let others =
        relocate_from-Run apb r.fs relocation r.target_block area (suc i) left
          (omega (arith, first.upto)) in
      proceed_both
        (λ (x : Relocated ext2). Run ext2 size laws (3 * suc left) fs t x.fs x.target_block)
        r.status r rest (Run-more ext2 size laws 3 _ fs t r.fs r.target_block (omega arith) first)
        (Run-more ext2 size laws (3 + 3 * left) _ fs t rest.fs rest.target_block (omega arith) (
          Run-trans ext2 size laws 3 (3 * left) fs t r.fs r.target_block rest.fs rest.target_block
            first others))

  -- Where `blocks_count` times three blocks are left behind `target_block`, `relocate_blocks` keeps
  -- the count of each group descriptor equal to the number of the group's free blocks in the bitmap,
  -- modulo 2^16, whether it succeeds, fails or aborts.
  pub relocate_blocks-Accounted :
      (addr_per_block : ℕ) (fs : FilesystemInfo ext2) (relocation : Relocation) (target_block : ℕ)
      (area : BlockRange)
      → target_block + 3 * relocation.blocks_count ≤ size
      → Accounted ext2 size laws fs
      → Accounted ext2 size laws
          (relocate_blocks ext2 addr_per_block fs relocation target_block area).fs
  unfolding relocate_blocks
  relocate_blocks-Accounted apb fs relocation t area h acc =
      (relocate_from-Run apb fs relocation t area 0 relocation.blocks_count h).kept.accounted acc

  -- Under the same bound, `relocate_blocks` leaves as many free blocks in the bitmap as there were,
  -- whether it succeeds, fails or aborts, and moves `target_block` on by at most three for each block.
  pub relocate_blocks-free_blocks :
      (addr_per_block : ℕ) (fs : FilesystemInfo ext2) (relocation : Relocation) (target_block : ℕ)
      (area : BlockRange)
      → target_block + 3 * relocation.blocks_count ≤ size
      → let r = relocate_blocks ext2 addr_per_block fs relocation target_block area in
        (free_blocks ext2 size laws r.fs ≡ free_blocks ext2 size laws fs)
        × (r.target_block ≤ target_block + 3 * relocation.blocks_count)
  unfolding relocate_blocks
  relocate_blocks-free_blocks apb fs relocation t area h =
      let run = relocate_from-Run apb fs relocation t area 0 relocation.blocks_count h in
      (run.kept.free, run.upto)
