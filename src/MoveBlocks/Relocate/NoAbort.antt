-- ===== src/MoveBlocks/Relocate/NoAbort.antt =====
-- The assertion of `relocate_block_in_indirect_block` on its index never fails.
use prefetch.Common.{
  ℕ, zero, suc, ◌+◌, ◌-◌, ◌*◌, ◌/◌, ◌%◌, ◌^◌, ◌<◌, ◌≡◌, true, not, arith, ◌==◌, Option, none, some,
  List, Bool-cases, lt→ltb, ◌≢◌, if_both, get_or, set, add32, inl, inr,
}
use prefetch.MoveBlocks.Ext2.{Ext2, Inode}
use prefetch.MoveBlocks.Relocate.{
  proceed_both, Status, failed, aborted, done, FilesystemInfo, relocate_raw_block, get_block_buffer,
}
use prefetch.MoveBlocks.Blocks.{
  BlockRange, in_range, ext2_ind_block, ext2_dind_block, is_direct_block, ext2_ndir_blocks,
  is_1indirect_block, is_2indirect_block,
}
use prefetch.MoveBlocks.Relocate.Pointers.{
  Moved, relocate_block_in_inode, write_indirect, move_in_indirect_block,
  relocate_block_in_indirect_block,
}
use prefetch.MoveBlocks.Relocate.File.{
  and_then, relocate_direct, relocate_1indirect, relocate_2indirect, relocate_by_level, Relocated,
  leave, relocate_inode_block, relocate_block, relocate_from, relocate_blocks, Relocation,
}

done≢aborted : done ≢ aborted
done≢aborted = ground arith

failed≢aborted : failed ≢ aborted
failed≢aborted = ground arith

module _ (ext2 : Ext2) where
  open ext2 use {
    read_ind_block, write_ind_block, read_inode, write_inode, inode_has_valid_blocks, InodeRest,
  }

  GoesOn : Moved ext2 → Type 0
  GoesOn m = m.status ≢ aborted

  relocate_block_in_inode-GoesOn :
      (m : Moved ext2) (index : ℕ) (area : BlockRange)
      → GoesOn (relocate_block_in_inode ext2 m index area)
  unfolding relocate_block_in_inode GoesOn
  relocate_block_in_inode-GoesOn m index area =
      let block = get_or m.inode.i_block index 0 in
      let r = relocate_raw_block ext2 m.fs block m.target_block in
      if_both GoesOn (block == 0) _ _ done≢aborted (
        if_both GoesOn (in_range block area) _ _ done≢aborted
          (if_both GoesOn (not r.1) _ _ failed≢aborted done≢aborted))

  move_in_indirect_block-GoesOn :
      (m : Moved ext2) (ib index : ℕ) (area : BlockRange) (o : Option (List ℕ))
      → GoesOn (move_in_indirect_block ext2 m ib index area o)
  unfolding move_in_indirect_block write_indirect GoesOn
  move_in_indirect_block-GoesOn m ib index area none = failed≢aborted
  move_in_indirect_block-GoesOn m ib index area (some content) =
      let block = get_or content index 0 in
      let r = relocate_raw_block ext2 m.fs block m.target_block in
      let written = write_ind_block r.0.device ib (set content index m.target_block) in
      if_both GoesOn (block == 0) _ _ done≢aborted (
        if_both GoesOn (in_range block area) _ _ done≢aborted (
          if_both GoesOn (not r.1) _ _ failed≢aborted
            (if_both (λ st. st ≢ aborted) written.1 done failed done≢aborted failed≢aborted)))

  relocate_block_in_indirect_block-GoesOn :
      (apb : ℕ) (m : Moved ext2) (ib index : ℕ) (area : BlockRange)
      → index < apb
      → GoesOn (relocate_block_in_indirect_block ext2 apb m ib index area)
  unfolding relocate_block_in_indirect_block GoesOn
  relocate_block_in_indirect_block-GoesOn apb m ib index area h =
      let e = lt→ltb index apb h in
      rw (e) (
        if_both GoesOn (ib == 0) _ _ failed≢aborted
          (move_in_indirect_block-GoesOn m ib index area (read_ind_block m.fs.device ib)))

  -- Where the first part has gone on, so does the whole.
  and_then-GoesOn :
      (m : Moved ext2) (continue : Moved ext2 → Moved ext2)
      → GoesOn m
      → GoesOn (continue m)
      → GoesOn (and_then ext2 m continue)
  unfolding and_then
  and_then-GoesOn m continue p q = proceed_both GoesOn m.status m (continue m) p q

  relocate_1indirect-GoesOn :
      (apb : ℕ) (m : Moved ext2) (b : ℕ) (area : BlockRange)
      → b - 12 < apb
      → GoesOn m
      → GoesOn (relocate_1indirect ext2 apb m b area)
  unfolding relocate_1indirect
  relocate_1indirect-GoesOn apb m b area h g =
      let top = relocate_block_in_inode ext2 m ext2_ind_block area in
      let ib = get_or top.inode.i_block ext2_ind_block 0 in
      let first = relocate_block_in_inode-GoesOn m ext2_ind_block area in
      and_then-GoesOn top _ first (
        if_both GoesOn (ib == 0) _ _ first
          (relocate_block_in_indirect_block-GoesOn apb top ib (b - ext2_ndir_blocks) area h))

  relocate_2indirect-GoesOn :
      (apb : ℕ) (m : Moved ext2) (b : ℕ) (area : BlockRange)
      → (b - 12 - apb) / apb < apb
      → (b - 12 - apb) % apb < apb
      → GoesOn (relocate_2indirect ext2 apb m b area)
  unfolding relocate_2indirect
  relocate_2indirect-GoesOn apb m b area h l =
      let offset = b - ext2_ndir_blocks - apb in
      let top = relocate_block_in_inode ext2 m ext2_dind_block area in
      let ib = get_or top.inode.i_block ext2_dind_block 0 in
      let first = relocate_block_in_inode-GoesOn m ext2_dind_block area in
      let mid = relocate_block_in_indirect_block ext2 apb top ib (offset / apb) area in
      let second = relocate_block_in_indirect_block-GoesOn apb top ib (offset / apb) area h in
      and_then-GoesOn top _ first (
        if_both GoesOn (ib == 0) _ _ first (
          and_then-GoesOn mid _ second (
            if_both GoesOn (mid.next == 0) _ _ second
              (relocate_block_in_indirect_block-GoesOn apb mid mid.next (offset % apb) area l))))

  div_bound : (x a : ℕ) → 0 < a → x < a * a → (x / a < a) × (x % a < a)
  div_bound x a z h = grind arith

  is_1indirect_block-index : (apb b : ℕ) → is_1indirect_block apb b ≡ true → b - 12 < apb
  unfolding is_1indirect_block
  is_1indirect_block-index apb b e = ground arith

  is_2indirect_block-index :
      (apb b : ℕ)
      → 12 + apb + apb * apb < 2 ^ 32
      → is_2indirect_block apb b ≡ true
      → b - 12 - apb < apb * apb
  unfolding is_2indirect_block
  is_2indirect_block-index apb b small e = ground arith

  relocate_by_level-GoesOn :
      (apb : ℕ) (m : Moved ext2) (b : ℕ) (area : BlockRange)
      → 0 < apb
      → 12 + apb + apb * apb < 2 ^ 32
      → GoesOn m
      → GoesOn (relocate_by_level ext2 apb m b area)
  unfolding relocate_by_level relocate_direct
  relocate_by_level-GoesOn apb m b area z small g = elim (Bool-cases (is_direct_block b)) [
    | inl d ↦ rw (d) (relocate_block_in_inode-GoesOn m b area)
    | inr d ↦ elim (Bool-cases (is_1indirect_block apb b)) [
      | inl o ↦
          rw (d, o) (relocate_1indirect-GoesOn apb m b area (is_1indirect_block-index apb b o) g)
      | inr o ↦ elim (Bool-cases (is_2indirect_block apb b)) [
        | inl w ↦
            let bounds = div_bound (b - 12 - apb) apb z (is_2indirect_block-index apb b small w) in
            rw (d, o, w) (relocate_2indirect-GoesOn apb m b area bounds.0 bounds.1)
        | inr w ↦ rw (d, o, w) g
      ]
    ]
  ]

  leave-GoesOn :
      (inode_number : ℕ) (m : Moved ext2) (st : Status)
      → st ≢ aborted
      → (leave ext2 inode_number m st).status ≢ aborted
  unfolding leave
  leave-GoesOn inode_number m failed g = failed≢aborted
  leave-GoesOn inode_number m aborted g = g
  leave-GoesOn inode_number m done g =
      if_both (λ st. st ≢ aborted) (write_inode m.fs.device inode_number m.inode).1 done failed
        done≢aborted failed≢aborted

  relocate_inode_block-GoesOn :
      (apb : ℕ) (fs : FilesystemInfo ext2) (inode_number b t : ℕ) (area : BlockRange)
      (o : Option (Inode InodeRest))
      → 0 < apb
      → 12 + apb + apb * apb < 2 ^ 32
      → (relocate_inode_block ext2 apb fs inode_number b t area o).status ≢ aborted
  unfolding relocate_inode_block GoesOn
  relocate_inode_block-GoesOn apb fs inode_number b t area none z small = failed≢aborted
  relocate_inode_block-GoesOn apb fs inode_number b t area (some inode) z small =
      let R = λ (r : Relocated ext2). r.status ≢ aborted in
      let fs' = (get_block_buffer ext2 fs).0 in
      let m : Moved ext2 = record {
        fs = fs';
        inode = inode;
        target_block = t;
        next = 0;
        status = done;
      } in
      let m' = relocate_by_level ext2 apb m b area in
      if_both R (not (inode_has_valid_blocks inode)) _ _ done≢aborted (
        if_both R (not (get_block_buffer ext2 fs).1) _ _ failed≢aborted (
          leave-GoesOn inode_number m' m'.status
            (relocate_by_level-GoesOn apb m b area z small done≢aborted)))

  relocate_from-GoesOn :
      (apb : ℕ) (fs : FilesystemInfo ext2) (relocation : Relocation) (t : ℕ) (area : BlockRange)
      (i left : ℕ)
      → 0 < apb
      → 12 + apb + apb * apb < 2 ^ 32
      → (relocate_from ext2 apb fs relocation t area i left).status ≢ aborted
  unfolding relocate_from relocate_block
  relocate_from-GoesOn apb fs relocation t area i zero z small = done≢aborted
  relocate_from-GoesOn apb fs relocation t area i (suc left) z small =
      let r =
        relocate_block ext2 apb fs relocation.inode_number (add32 relocation.block_offset i) t
          area in
      proceed_both (λ (x : Relocated ext2). x.status ≢ aborted) r.status r
        (relocate_from ext2 apb r.fs relocation r.target_block area (suc i) left)
        (relocate_inode_block-GoesOn apb fs relocation.inode_number
          (add32 relocation.block_offset i) t area (read_inode fs.device relocation.inode_number) z
          small)
        (relocate_from-GoesOn apb r.fs relocation r.target_block area (suc i) left z small)

  -- Where the doubly indirect area ends below 2^32, no relocation fails the assertion on the index
  -- into an indirect block, whatever the device holds.
  pub relocate_blocks-NoAbort :
      (addr_per_block : ℕ) (fs : FilesystemInfo ext2) (relocation : Relocation) (target_block : ℕ)
      (area : BlockRange)
      → 0 < addr_per_block
      → 12 + addr_per_block + addr_per_block * addr_per_block < 2 ^ 32
      → (relocate_blocks ext2 addr_per_block fs relocation target_block area).status ≢ aborted
  unfolding relocate_blocks
  relocate_blocks-NoAbort apb fs relocation t area z small =
      relocate_from-GoesOn apb fs relocation t area 0 relocation.blocks_count z small
