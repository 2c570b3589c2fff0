-- ===== src/MoveBlocks/Relocate/DirectData.antt =====
-- Moving a direct block changes none of the data that the direct blocks of the file hold.
use prefetch.Common.{
  ℕ, ◌<◌, ◌≡◌, ◌≢◌, refl, sym, Bool, true, false, arith, ◌==◌, if◌then◌else◌, Option, none, some,
  Bool-cases, inl, inr, ◌⊎◌, length, get_or, set, get_or-set, get_or-set_other, add32, ℕ_discrete,
}
use prefetch.MoveBlocks.Blocks.{BlockRange, in_range}
use prefetch.MoveBlocks.Ext2.{Ext2, Inode, Storage}
use prefetch.MoveBlocks.Relocate.{FilesystemInfo, done, relocate_raw_block}
use prefetch.MoveBlocks.Relocate.Pointers.{Moved, relocate_block_in_inode}
use prefetch.MoveBlocks.Relocate.RawBlock.{
  CanMove, relocate_raw_block_lem, relocate_raw_block_cases,
}

differ : (f : ℕ → Bool) (x y : ℕ) → f x ≡ false → f y ≡ true → (x == y) ≡ false
differ f x y p q = elim (ℕ_discrete x y) [ yes e ↦ absurd (cc (p, q, e)) | no e ↦ ground arith ]

module _ (ext2 : Ext2) where
  open ext2 use {
    Device, Data, InodeRest, read_blk, read_inode, write_inode, write_blk, test_block_bitmap,
    inode_has_valid_blocks, malloc,
  }

  -- The data of a block that a pointer names; a hole has none.
  unfoldable pub pointed : Device → ℕ → Option Data
  pointed d block = if block == 0 then none else read_blk d block

  -- The data of the direct block `j` of a file.
  unfoldable pub direct_of : Device → ℕ → Option (Inode InodeRest) → Option Data
  direct_of d j none = none
  direct_of d j (some inode) = pointed d (get_or inode.i_block j 0)

  unfoldable pub direct_data : Device → ℕ → ℕ → Option Data
  direct_data d inode_number j = direct_of d j (read_inode d inode_number)

  module _ (storage : Storage ext2) where
    open storage use {IsData, read_written, read_other, read_inode_written, read_beside_inode}

    -- The direct blocks of the inode are holes, or are marked in the bitmap and hold data.
    unfoldable pub DirectMapped : FilesystemInfo ext2 → Inode InodeRest → Type 0
    DirectMapped fs inode =
        (j : ℕ)
        → j < 12
        → (get_or inode.i_block j 0 ≡ 0)
          ⊎ ((test_block_bitmap fs.block_map (get_or inode.i_block j 0) ≡ true)
              × IsData (get_or inode.i_block j 0))

    -- Writing the inode leaves what its direct blocks hold.
    pub pointed-write_inode :
        (d : Device) (i block : ℕ) (inode : Inode InodeRest)
        → (block ≡ 0) ⊎ IsData block
        → pointed (write_inode d i inode).0 block ≡ pointed d block
    unfolding pointed
    pointed-write_inode d i block inode (inl z) = rw (z) refl
    pointed-write_inode d i block inode (inr h) = rw (read_beside_inode d i block inode h) refl

    -- A block other than the one written.
    pointed-write_blk :
        (d : Device) (t block : ℕ) (x : Data)
        → (t == block) ≡ false
        → pointed (write_blk d t x).0 block ≡ pointed d block
    unfolding pointed
    pointed-write_blk d t block x h = rw (read_other d t block x h) refl

    -- What the move of a direct block does to what the direct block `j` of the inode in memory holds.
    unfoldable pub Same : FilesystemInfo ext2 → Inode InodeRest → Moved ext2 → Type 0
    Same fs inode m =
        (j : ℕ)
        → j < 12
        → (pointed m.fs.device (get_or m.inode.i_block j 0)
            ≡ pointed fs.device (get_or inode.i_block j 0))
          × ((get_or m.inode.i_block j 0 ≡ 0) ⊎ IsData (get_or m.inode.i_block j 0))

    untouched :
        (m : Moved ext2) (buf : Data) (block : ℕ)
        → m.target_block ≢ 0
        → test_block_bitmap m.fs.block_map m.target_block ≡ false
        → (block ≡ 0) ⊎ ((test_block_bitmap m.fs.block_map block ≡ true) × IsData block)
        → (pointed (write_blk m.fs.device m.target_block buf).0 block ≡ pointed m.fs.device block)
          × ((block ≡ 0) ⊎ IsData block)
    untouched m buf block nonzero tgt (inl z) =
        (pointed-write_blk m.fs.device m.target_block block buf (rw (z) (ground arith)), inl z)
    untouched m buf block nonzero tgt (inr (marked, data_block)) = (
      pointed-write_blk m.fs.device m.target_block block buf
          (differ (test_block_bitmap m.fs.block_map) m.target_block block tgt marked),
      inr data_block,
    )

    moved-Same :
        (m : Moved ext2) (b : ℕ) (buf : Data)
        → b < length m.inode.i_block
        → m.target_block ≢ 0
        → IsData m.target_block
        → DirectMapped m.fs m.inode
        → (get_or m.inode.i_block b 0 == 0) ≡ false
        → CanMove ext2 m.fs (get_or m.inode.i_block b 0) m.target_block buf
        → (j : ℕ) → j < 12
        → let after = get_or (set m.inode.i_block b m.target_block) j 0 in
          (pointed (write_blk m.fs.device m.target_block buf).0 after
            ≡ pointed m.fs.device (get_or m.inode.i_block j 0))
          × ((after ≡ 0) ⊎ IsData after)
    unfolding CanMove DirectMapped pointed
    moved-Same m b buf inside nonzero tdata mapped hole (src, tgt, mem, rd, wr) j h =
        elim (ℕ_discrete b j) [
          | yes e ↦
              let now = get_or-set m.inode.i_block b m.target_block 0 inside in
              let t : (m.target_block == 0) ≡ false = ground arith in
              rw (sym e, now, t, hole, read_written m.fs.device m.target_block buf wr, rd)
                (refl, inr tdata)
          | no e ↦
              rw (get_or-set_other m.inode.i_block b j m.target_block 0 e)
                (untouched m buf (get_or m.inode.i_block j 0) nonzero tgt (mapped j h))
        ]

    stay-Same :
        (m : Moved ext2)
        → DirectMapped m.fs m.inode
        → Same m.fs m.inode (record m { status = done })
    unfolding Same DirectMapped
    stay-Same m mapped j h = elim (mapped j h) [
      | inl z ↦ (refl, inl z)
      | inr (t, d) ↦ (refl, inr d)
    ]

    in_memory-Same :
        (m : Moved ext2) (b : ℕ) (buf : Data)
        → b < length m.inode.i_block
        → m.target_block ≢ 0
        → IsData m.target_block
        → DirectMapped m.fs m.inode
        → (get_or m.inode.i_block b 0 == 0) ≡ false
        → CanMove ext2 m.fs (get_or m.inode.i_block b 0) m.target_block buf
        → Same m.fs m.inode (record m {
          fs = (relocate_raw_block ext2 m.fs (get_or m.inode.i_block b 0) m.target_block).0;
          inode = record m.inode { i_block = set m.inode.i_block b m.target_block };
          target_block = add32 m.target_block 1;
          status = done;
        })
    unfolding Same
    in_memory-Same m b buf inside nonzero tdata mapped z can j h =
        let effect =
          relocate_raw_block_lem ext2 m.fs (get_or m.inode.i_block b 0) m.target_block buf can in
        let dev = effect.2 in rw (dev) (moved-Same m b buf inside nonzero tdata mapped z can j h)

    pub relocate_block_in_inode-Same :
        (m : Moved ext2) (b : ℕ) (area : BlockRange)
        → b < length m.inode.i_block
        → m.target_block ≢ 0
        → IsData m.target_block
        → DirectMapped m.fs m.inode
        → (relocate_block_in_inode ext2 m b area).status ≡ done
        → Same m.fs m.inode (relocate_block_in_inode ext2 m b area)
    unfolding relocate_block_in_inode
    relocate_block_in_inode-Same m b area inside nonzero tdata mapped =
        let block = get_or m.inode.i_block b 0 in
        elim (Bool-cases (block == 0)) [
          | inl z ↦ rw (z) (λ e. stay-Same m mapped)
          | inr z ↦ elim (Bool-cases (in_range block area)) [
            | inl i ↦ rw (z, i) (λ e. stay-Same m mapped)
            | inr i ↦ elim (relocate_raw_block_cases ext2 m.fs block m.target_block) [
              | inl (moved, (buf, can)) ↦
                  rw (z, i, moved) (λ e. in_memory-Same m b buf inside nonzero tdata mapped z can)
              | inr (moved, _, _, _) ↦ rw (z, i, moved) (λ e. absurd (cc (e)))
            ]
          ]
        ]
