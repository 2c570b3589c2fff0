-- ===== src/RemapBlocks/Run/Pointers.antt =====
-- An inode after its move: its blocks hold the data that they held before.
use prefetch.Common.{
  ℕ, ◌<◌, ◌^◌, ◌≡◌, sym, ◌∙◌, subst, Option, none, some, List, [], ◌∷◌, ◌++◌, map, All,
}
use prefetch.RemapBlocks.Splay.{Extent}
use prefetch.RemapBlocks.Splay.Ascending.{All-split}
use prefetch.RemapBlocks.Load.{InodeExtents}
use prefetch.RemapBlocks.FreeExtents.Runs.{AreSpread}
use prefetch.RemapBlocks.FreeExtents.Lookup.{IsConsecutive}
use prefetch.RemapBlocks.Copy.{CopySetup, copy_extents, copy_inode_blocks}
use prefetch.RemapBlocks.Copy.Inode.{
  IsWorking, IsMovable, IsUntouched, AreDisjoint, if_given, HasArrived,
  copy_inode_blocks-HaveArrived,
}
use prefetch.RemapBlocks.Traverse.{
  TraverseData, Callback, exited, block_abort, unchanged, changed, TraverseSetup, remap_block,
}
use prefetch.RemapBlocks.Traverse.Pointers.{IsSmall, HasMoved, KeepsData, remap_block-KeepsData}
use prefetch.RemapBlocks.Load.Chunks.{extents_of}
use prefetch.RemapBlocks.Run.Sequence.{AreIterated, remap_inodes-AllConsist}
use prefetch.RemapBlocks.Run.{
  remap_inodes, Visit, more_blocks, iterate_blocks, start_of, InodeReader, Moves,
}

-- Each new block holds what the visited block held.
abbrev pub SameData : {D : Type 0} → (ℕ → D) → (ℕ → D) → List Visit → List ℕ → Type 0
SameData dev dev' [] [] = Unit {0}
SameData dev dev' [] (b ∷ bs) = ⊥
SameData dev dev' (v ∷ vs) [] = ⊥
SameData dev dev' (v ∷ vs) (b ∷ bs) = (dev' b ≡ dev v.blocknr) × SameData dev dev' vs bs

module _ {D : Type 0} (c : TraverseSetup) (last : ℕ) (h : IsConsecutive 0 c.free_extents last)
    (small : last < 2 ^ 32) (blocks : All IsSmall c.free_extents) (dev dev' : ℕ → D) where
  -- What a visited block holds has not changed.
  abbrev Stays : Visit → Type 0
  Stays v = dev' v.blocknr ≡ dev v.blocknr

  abbrev KeepsAll : List Visit → Option (List ℕ) → Type 0
  KeepsAll vs none = Unit {0}
  KeepsAll vs (some bs) = SameData dev dev' vs bs

  untouched_rest : (vs : List Visit) → All Stays vs → SameData dev dev' vs (map Visit.blocknr vs)
  untouched_rest [] s = tt
  untouched_rest (v ∷ vs) (sv, s) = (sv, untouched_rest vs s)

  more_blocks-KeepsAll :
      (v : Visit) (vs : List Visit) (b : ℕ) (o : Option (List ℕ))
      → dev' b ≡ dev v.blocknr
      → KeepsAll vs o
      → KeepsAll (v ∷ vs) (more_blocks b o)
  more_blocks-KeepsAll v vs b none e k = tt
  more_blocks-KeepsAll v vs b (some bs) e k = (e, k)

  after_callback :
      (v : Visit) (vs : List Visit) (r : Callback)
      → KeepsData c last h small blocks dev dev' v.blocknr r
      → Stays v
      → All Stays vs
      → ((t : TraverseData)
          → All (HasMoved c last h small blocks dev dev') t.actext
          → KeepsAll vs (iterate_blocks c t vs))
      → KeepsAll (v ∷ vs) (elim r [
        | exited ↦ none
        | block_abort ↦ some (map Visit.blocknr (v ∷ vs))
        | unchanged t' ↦ more_blocks v.blocknr (iterate_blocks c t' vs)
        | changed t' b ↦ more_blocks b (iterate_blocks c t' vs)
      ])
  after_callback v vs exited k sv s next = tt
  after_callback v vs block_abort k sv s next = untouched_rest (v ∷ vs) (sv, s)
  after_callback v vs (unchanged t) m sv s next =
      more_blocks-KeepsAll v vs v.blocknr (iterate_blocks c t vs) sv (next t m)
  after_callback v vs (changed t b) (e, m) sv s next =
      more_blocks-KeepsAll v vs b (iterate_blocks c t vs) e (next t m)

  iterate_blocks-KeepsAll :
      (t : TraverseData) (vs : List Visit)
      → All (HasMoved c last h small blocks dev dev') t.actext
      → All Stays vs
      → KeepsAll vs (iterate_blocks c t vs)
  unfolding iterate_blocks
  iterate_blocks-KeepsAll t [] m s = tt
  iterate_blocks-KeepsAll t (v ∷ vs) m (sv, s) =
      after_callback v vs (remap_block c t v.blocknr v.blockcnt v.parent_offset)
        (remap_block-KeepsData c last h small blocks dev dev' t v.blocknr v.blockcnt v.parent_offset
          m)
        sv s (λ t' m'. iterate_blocks-KeepsAll t' vs m' s)

-- The extents that the data goes to are those of the copying.
abbrev pub traverse_setup : CopySetup → ℕ → ℕ → TraverseSetup
traverse_setup copy addr s_blocks_count = record {
  addr = addr;
  s_blocks_count = s_blocks_count;
  free_extents = copy.free_extents;
}

-- The visited blocks are not among the targets.
abbrev pub AreOutside : CopySetup → List Extent → List Visit → Type 0
AreOutside copy es vs = All (λ v. IsUntouched copy v.blocknr es) vs

-- The new blocks of each inode hold what its old ones held.
abbrev pub HaveSameData :
    {D : Type 0} → InodeReader → (ℕ → D) → (ℕ → D) → List InodeExtents → List (ℕ × List ℕ) → Type 0
HaveSameData fs dev dev' [] [] = Unit {0}
HaveSameData fs dev dev' [] (p ∷ ps) = ⊥
HaveSameData fs dev dev' (iext ∷ inodes) [] = ⊥
HaveSameData fs dev dev' (iext ∷ inodes) (p ∷ ps) =
    (p.0 ≡ iext.ino)
    × SameData dev dev' (fs.visits iext.ino) p.1
    × HaveSameData fs dev dev' inodes ps

module _ {D : Type 0} (copy : CopySetup) (addr s_blocks_count last : ℕ)
    (h : IsConsecutive 0 copy.free_extents last) (small : last < 2 ^ 32)
    (spread : AreSpread copy.free_extents) (works : IsWorking copy)
    (blocks : All IsSmall copy.free_extents) (fs : InodeReader) where
  HasArrived-HasMoved :
      (es : List Extent) (dev dev' : ℕ → D)
      → All (IsMovable copy last) es
      → All (HasArrived copy dev dev') es
      → All (HasMoved (traverse_setup copy addr s_blocks_count) last h small blocks dev dev') es
  HasArrived-HasMoved [] dev dev' m a = tt
  HasArrived-HasMoved (e ∷ es) dev dev' (me, m) (ae, a) =
      ((me.0, ae), HasArrived-HasMoved es dev dev' m a)

  AreOutside-Stays :
      (es : List Extent) (vs : List Visit) (dev dev' : ℕ → D)
      → ((x : ℕ) → IsUntouched copy x es → dev' x ≡ dev x)
      → AreOutside copy es vs
      → All (Stays (traverse_setup copy addr s_blocks_count) last h small blocks dev dev') vs
  AreOutside-Stays es [] dev dev' keep o = tt
  AreOutside-Stays es (v ∷ vs) dev dev' keep (ov, o) =
      (keep v.blocknr ov, AreOutside-Stays es vs dev dev' keep o)

  AreIterated-HaveSameData :
      (dev dev' : ℕ → D) (inodes : List InodeExtents) (ps : List (ℕ × List ℕ))
      → AreIterated (traverse_setup copy addr s_blocks_count) fs inodes ps
      → All
          (HasMoved (traverse_setup copy addr s_blocks_count) last h small blocks dev dev')
          (extents_of inodes)
      → All
          (λ iext.
            All
              (Stays (traverse_setup copy addr s_blocks_count) last h small blocks dev dev')
              (fs.visits iext.ino))
          inodes
      → HaveSameData fs dev dev' inodes ps
  unfolding extents_of start_of
  AreIterated-HaveSameData dev dev' [] [] i m s = tt
  AreIterated-HaveSameData dev dev' [] (p ∷ ps) i m s = absurd i
  AreIterated-HaveSameData dev dev' (iext ∷ inodes) [] i m s = absurd i
  AreIterated-HaveSameData dev dev' (iext ∷ inodes) (p ∷ ps) ((same, done), i) m (se, s) =
      let trav = traverse_setup copy addr s_blocks_count in
      let (me, ms) =
        All-split (HasMoved trav last h small blocks dev dev') iext.extents (extents_of inodes) m in
      (
        same,
        subst (KeepsAll trav last h small blocks dev dev' (fs.visits iext.ino)) done (
            iterate_blocks-KeepsAll trav last h small blocks dev dev' (start_of iext.extents)
              (fs.visits iext.ino) me se),
        AreIterated-HaveSameData dev dev' inodes ps i ms s,
      )

  All-Stay :
      (es : List Extent) (inodes : List InodeExtents) (dev dev' : ℕ → D)
      → ((x : ℕ) → IsUntouched copy x es → dev' x ≡ dev x)
      → All (λ iext. AreOutside copy es (fs.visits iext.ino)) inodes
      → All
          (λ iext.
            All
              (Stays (traverse_setup copy addr s_blocks_count) last h small blocks dev dev')
              (fs.visits iext.ino))
          inodes
  All-Stay es [] dev dev' keep o = tt
  All-Stay es (iext ∷ inodes) dev dev' keep (oi, o) = (
    AreOutside-Stays es (fs.visits iext.ino) dev dev' keep oi,
    All-Stay es inodes dev dev' keep o,
  )

  -- When all inodes have been moved, their blocks have new numbers, and on the device each of them holds
  -- what the block with the old number held before any was moved.
  pub remap_inodes-HaveSameData :
      (inodes : List InodeExtents) (s s' : Moves D)
      → All (IsMovable copy last) (extents_of inodes)
      → AreDisjoint (extents_of inodes)
      → All (λ iext. AreOutside copy (extents_of inodes) (fs.visits iext.ino)) inodes
      → remap_inodes copy (traverse_setup copy addr s_blocks_count) fs inodes s ≡ some s'
      → (ps : List (ℕ × List ℕ)) × (s'.pointers ≡ s.pointers ++ ps)
        × HaveSameData fs s.device s'.device inodes ps
  unfolding copy_inode_blocks
  remap_inodes-HaveSameData inodes s s' m d o e =
      let es = extents_of inodes in
      let (copied, ps, iterated, appended) =
        remap_inodes-AllConsist copy (traverse_setup copy addr s_blocks_count) fs works.given inodes
          s s' e in
      let (dev', done, (arrived, keep)) =
        copy_inode_blocks-HaveArrived copy last h small spread works es s.device m d in
      let done' =
        sym (if_given copy.allocated none (copy_extents copy es s.device) works.given) ∙ done in
      let final : dev' ≡ s'.device = cc (done', copied) in
      (
        ps,
        appended,
        subst (λ dev. HaveSameData fs s.device dev inodes ps) final
            (AreIterated-HaveSameData s.device dev' inodes ps iterated
              (HasArrived-HasMoved es s.device dev' m arrived)
              (All-Stay es inodes s.device dev' keep o)),
      )
