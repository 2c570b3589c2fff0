-- ===== src/RemapBlocks/Run/Chosen.antt =====
-- An inode that is moved into the extents that `find_free_blocks` has chosen.
use prefetch.Common.{
  arith, ℕ, ◌+◌, ◌-◌, ◌≤◌, ◌<◌, ◌^◌, ◌≡◌, ◌≢◌, ◌++◌, Bool, true, some, List, [], ◌∷◌, All,
}
use prefetch.RemapBlocks.Splay.{Extent}
use prefetch.RemapBlocks.Load.{InodeExtents}
use prefetch.RemapBlocks.FreeExtents.{FreeExtent, several, scan, find_free_blocks}
use prefetch.RemapBlocks.FreeExtents.Runs.{IsFreeRun}
use prefetch.RemapBlocks.FreeExtents.Apart.{QSort}
use prefetch.RemapBlocks.FreeExtents.Choice.{AreTargets, IsEnough, find_free_blocks-AreTargets}
use prefetch.RemapBlocks.FreeExtents.Lookup.{IsConsecutive}
use prefetch.RemapBlocks.Copy.{CopySetup}
use prefetch.RemapBlocks.Copy.Targets.{target, target_free}
use prefetch.RemapBlocks.Copy.Inode.{IsWorking, IsMovable, IsUntouched, AreDisjoint}
use prefetch.RemapBlocks.Traverse.Pointers.{IsSmall}
use prefetch.RemapBlocks.Run.{Visit, InodeReader, Moves, remap_inodes}
use prefetch.RemapBlocks.Load.Chunks.{extents_of}
use prefetch.RemapBlocks.Run.Pointers.{
  traverse_setup, AreOutside, HaveSameData, remap_inodes-HaveSameData,
}

-- All blocks of the extent are in use, its offsets are within a number of blocks, and it fits into the
-- buffer.
abbrev pub IsInUse : (ℕ → Bool) → ℕ → ℕ → Extent → Type 0
IsInUse occupied remap_buf_blocks last e =
    (e.chunk_offset + e.len ≤ last)
    × (e.len ≤ remap_buf_blocks)
    × ((i : ℕ) → i < e.len → occupied (e.block + i) ≡ true)

module _ (occupied : ℕ → Bool) (end_block : ℕ) (bounded : end_block < 2 ^ 32) where
  IsFreeRun-IsSmall :
      (first last : ℕ) (es : List FreeExtent)
      → All (IsFreeRun occupied end_block) es
      → IsConsecutive first es last
      → All IsSmall es
  IsFreeRun-IsSmall first last [] free c = tt
  IsFreeRun-IsSmall first last (e ∷ es) (free, others) (o, some_len, c) =
      let (unused, below) = free (e.block + (e.len - 1)) (omega arith) (omega arith) in
      (omega arith, IsFreeRun-IsSmall (first + e.len) last es others c)

  module _ (copy : CopySetup) (last : ℕ) (small : last < 2 ^ 32)
      (free : All (IsFreeRun occupied end_block) copy.free_extents)
      (c : IsConsecutive 0 copy.free_extents last) where
    in_use_elsewhere : (b o : ℕ) → occupied b ≡ true → o < last → b ≢ target copy.free_extents o
    in_use_elsewhere b o used lt same =
        let unused = target_free copy.free_extents last c small occupied end_block free o lt in
        absurd (cc (used, unused, same))

    pub IsInUse-IsMovable :
        (es : List Extent)
        → All (IsInUse occupied copy.remap_buf_blocks last) es
        → All (IsMovable copy last) es
    IsInUse-IsMovable [] h = tt
    IsInUse-IsMovable (e ∷ es) ((fits, one, used), h) = (
      (fits, one, λ i o lt lt'. in_use_elsewhere (e.block + i) o (used i lt) lt'),
      IsInUse-IsMovable es h,
    )

    IsInUse-IsUntouched :
        (b : ℕ) (es : List Extent)
        → occupied b ≡ true
        → All (IsInUse occupied copy.remap_buf_blocks last) es
        → IsUntouched copy b es
    IsInUse-IsUntouched b [] used h = tt
    IsInUse-IsUntouched b (e ∷ es) used ((fits, one, uses), h) = (
      λ i lt. in_use_elsewhere b (e.chunk_offset + i) used (omega arith),
      IsInUse-IsUntouched b es used h,
    )

    visits-AreOutside :
        (es : List Extent) (vs : List Visit)
        → All (IsInUse occupied copy.remap_buf_blocks last) es
        → All (λ v. occupied v.blocknr ≡ true) vs
        → AreOutside copy es vs
    visits-AreOutside es [] h used = tt
    visits-AreOutside es (v ∷ vs) h (used, others) =
        (IsInUse-IsUntouched v.blocknr es used h, visits-AreOutside es vs h others)

    IsInUse-AreOutside :
        (es : List Extent) (fs : InodeReader) (inodes : List InodeExtents)
        → All (IsInUse occupied copy.remap_buf_blocks last) es
        → All (λ iext. All (λ v. occupied v.blocknr ≡ true) (fs.visits iext.ino)) inodes
        → All (λ iext. AreOutside copy es (fs.visits iext.ino)) inodes
    IsInUse-AreOutside es fs [] h used = tt
    IsInUse-AreOutside es fs (iext ∷ inodes) h (used, others) =
        (visits-AreOutside es (fs.visits iext.ino) h used, IsInUse-AreOutside es fs inodes h others)

module _ (sorter : QSort) (occupied : ℕ → Bool) (end_block : ℕ) (bounded : end_block < 2 ^ 32)
    (remap_blocks : ℕ) (few : remap_blocks < 2 ^ 32) (some_blocks : 0 < remap_blocks)
    (min_free_extent_size : ℕ) (some_size : 0 < min_free_extent_size) (start : ℕ)
    (enough : (found : List FreeExtent)
      → scan occupied end_block remap_blocks min_free_extent_size (end_block - start) start []
        ≡ several found
      → IsEnough sorter occupied end_block remap_blocks found)
    (copy : CopySetup) (works : IsWorking copy)
    (chosen : find_free_blocks sorter.qsort occupied start end_block remap_blocks
        min_free_extent_size
      ≡ some copy.free_extents) where
  targets : AreTargets sorter occupied end_block remap_blocks copy.free_extents
  targets =
      find_free_blocks-AreTargets sorter occupied end_block remap_blocks bounded some_blocks
        min_free_extent_size some_size start enough copy.free_extents chosen

  -- When e2remapblocks has moved all inodes into the extents that `find_free_blocks` has chosen, the
  -- blocks that the iteration comes to have new numbers, and what was copied to each of them is what the
  -- block with the old number held at the start. The blocks of the inodes were in use, the offsets of
  -- their extents are within the number of blocks to move and do not overlap, each extent fits into the
  -- buffer, reads and writes succeed, and the extents of at least half the length of the last one needed have enough blocks where no single
  -- one has.
  pub remap_inodes_chosen :
      {D : Type 0} (addr s_blocks_count : ℕ) (fs : InodeReader) (inodes : List InodeExtents)
      (s s' : Moves D)
      → All (IsInUse occupied copy.remap_buf_blocks remap_blocks) (extents_of inodes)
      → AreDisjoint (extents_of inodes)
      → All (λ iext. All (λ v. occupied v.blocknr ≡ true) (fs.visits iext.ino)) inodes
      → remap_inodes copy (traverse_setup copy addr s_blocks_count) fs inodes s ≡ some s'
      → (ps : List (ℕ × List ℕ)) × (s'.pointers ≡ s.pointers ++ ps)
        × HaveSameData fs s.device s'.device inodes ps
  remap_inodes_chosen addr s_blocks_count fs inodes s s' in_use disjoint visited done =
      let (free, spread, c) = targets in
      let es = extents_of inodes in
      remap_inodes-HaveSameData copy addr s_blocks_count remap_blocks c few spread works
        (IsFreeRun-IsSmall occupied end_block bounded 0 remap_blocks copy.free_extents free c) fs
        inodes s s'
        (IsInUse-IsMovable occupied end_block bounded copy remap_blocks few free c es in_use)
        disjoint
        (IsInUse-AreOutside occupied end_block bounded copy remap_blocks few free c es fs inodes
          in_use visited)
        done
