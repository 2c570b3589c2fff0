-- ===== src/RemapBlocks/Run/Sequence.antt =====
-- The inodes that are moved one after the other: their copies are one copy of all their extents.
use prefetch.Common.{
  ℕ, ◌==◌, ◌≡◌, refl, sym, ap, ◌∙◌, Bool, true, false, not, if◌then◌else◌, Option, none, some,
  Option-cases, subst, inl, inr, List, [], ◌∷◌, ◌++◌,
}
use mathlib.Core.List.{append_assoc, append-nil}
use prefetch.RemapBlocks.Splay.{Extent}
use prefetch.RemapBlocks.Load.{InodeExtents}
use prefetch.RemapBlocks.Load.Chunks.{extents_of}
use prefetch.RemapBlocks.Copy.{CopySetup, copy_chunks, copy_extents, copy_inode_blocks}
use prefetch.RemapBlocks.Copy.Inode.{if_given}
use prefetch.RemapBlocks.Traverse.{TraverseSetup}
use prefetch.RemapBlocks.Run.{
  iterate_blocks, start_of, InodeReader, Moves, after_iteration, after_copy, remap_inode,
  remap_inodes,
}

-- A test that fails must not have been true.
pub passes :
    {A : Type 0} (b : Bool) (o : Option A) (a : A) → (if b then none else o) ≡ some a → o ≡ some a
passes true o a e = absurd (cc e)
passes false o a e = e

module _ {D : Type 0} (copy : CopySetup) where
  abbrev then_copy : Option (ℕ → D) → List Extent → Option (ℕ → D)
  then_copy none es = none
  then_copy (some dev) es = copy_extents copy es dev

  copy_extents-append :
      (es es' : List Extent) (dev : ℕ → D)
      → copy_extents copy (es ++ es') dev ≡ then_copy (copy_extents copy es dev) es'
  unfolding copy_extents
  copy_extents-append [] es' dev = refl
  copy_extents-append (e ∷ es) es' dev = elim (Option-cases (copy_chunks copy e.len e 0 dev)) [
    | inl failed ↦ rw (copy_extents, failed) refl
    | inr (dev', copied) ↦ rw (copy_extents, copied) (copy_extents-append es es' dev')
  ]

module _ (trav : TraverseSetup) (fs : InodeReader) where
  -- The numbers of an inode's blocks are what the iteration gives.
  abbrev pub IsIterated : InodeExtents → ℕ × List ℕ → Type 0
  IsIterated iext p =
      (p.0 ≡ iext.ino)
      × (iterate_blocks trav (start_of iext.extents) (fs.visits iext.ino) ≡ some p.1)

  abbrev pub AreIterated : List InodeExtents → List (ℕ × List ℕ) → Type 0
  AreIterated [] [] = Unit {0}
  AreIterated [] (p ∷ ps) = ⊥
  AreIterated (iext ∷ inodes) [] = ⊥
  AreIterated (iext ∷ inodes) (p ∷ ps) = IsIterated iext p × AreIterated inodes ps

module _ {D : Type 0} (copy : CopySetup) (trav : TraverseSetup) (fs : InodeReader) where
  -- What the move of an inode consists of.
  abbrev Consists : Moves D → InodeExtents → Option (ℕ → D) → Moves D → Type 0
  Consists s iext o s' =
      (dev' : ℕ → D) × (o ≡ some dev')
      × (bs : List ℕ) × (iterate_blocks trav (start_of iext.extents) (fs.visits iext.ino) ≡ some bs)
      × (record { device = dev'; pointers = s.pointers ++ (iext.ino, bs) ∷ [] } ≡ s')

  after_iteration-Consists :
      (s : Moves D) (iext : InodeExtents) (dev' : ℕ → D) (o : Option (List ℕ)) (s' : Moves D)
      → iterate_blocks trav (start_of iext.extents) (fs.visits iext.ino) ≡ o
      → after_iteration copy trav fs (record s { device = dev' }) iext.ino o ≡ some s'
      → Consists s iext (some dev') s'
  unfolding after_iteration
  after_iteration-Consists s iext dev' none s' i e = absurd (cc e)
  after_iteration-Consists s iext dev' (some bs) s' i e = (dev', refl, bs, i, cc e)

  after_copy-Consists :
      (s : Moves D) (iext : InodeExtents) (o : Option (ℕ → D)) (s' : Moves D)
      → after_copy copy trav fs s iext o ≡ some s'
      → Consists s iext o s'
  unfolding after_copy
  after_copy-Consists s iext none s' e = absurd (cc e)
  after_copy-Consists s iext (some dev') s' e = after_iteration-Consists s iext dev' _ s' refl e

  remap_inode-Consists :
      (s : Moves D) (iext : InodeExtents) (s' : Moves D)
      → remap_inode copy trav fs s iext ≡ some s'
      → Consists s iext (copy_inode_blocks copy iext.extents s.device) s'
  unfolding remap_inode
  remap_inode-Consists s iext s' e =
      after_copy-Consists s iext (copy_inode_blocks copy iext.extents s.device) s'
        (passes (fs.i_links_count iext.ino == 0) _ s' (passes (not (fs.can_read iext.ino)) _ s' e))

  then_remap : List InodeExtents → Option (Moves D) → Option (Moves D)
  then_remap inodes none = none
  then_remap inodes (some s) = remap_inodes copy trav fs inodes s

  -- The moves of all inodes: one copy of all extents, and the iterations in the order of the inodes.
  abbrev pub AllConsist : Moves D → List InodeExtents → Moves D → Type 0
  AllConsist s inodes s' =
      (copy_extents copy (extents_of inodes) s.device ≡ some s'.device)
      × (ps : List (ℕ × List ℕ)) × AreIterated trav fs inodes ps
      × (s'.pointers ≡ s.pointers ++ ps)

  pub remap_inodes-AllConsist :
      (given : copy.allocated ≡ true) (inodes : List InodeExtents) (s s' : Moves D)
      → remap_inodes copy trav fs inodes s ≡ some s'
      → AllConsist s inodes s'
  unfolding remap_inodes extents_of copy_extents copy_inode_blocks then_remap
  remap_inodes-AllConsist given [] s s' e =
      let same : s ≡ s' = cc e in subst (AllConsist s []) same (refl, [], tt, simp append-nil)
  remap_inodes-AllConsist given (iext ∷ inodes) s s' e =
      elim (Option-cases (remap_inode copy trav fs s iext)) [
        | inl failed ↦ absurd (cc (e, ap (then_remap inodes) failed))
        | inr (s1, first) ↦
            let (dev1, copied, bs, iterated, same) = remap_inode-Consists s iext s1 first in
            let (rest, ps, more, appended) =
              remap_inodes-AllConsist given inodes s1 s' (sym (ap (then_remap inodes) first) ∙ e) in
            let copied' =
              sym (if_given copy.allocated none (copy_extents copy iext.extents s.device) given)
              ∙ copied in
            (
              copy_extents-append copy iext.extents (extents_of inodes) s.device
                  ∙ ap (λ o. then_copy copy o (extents_of inodes)) copied'
                  ∙ ap (copy_extents copy (extents_of inodes)) (ap Moves.device same)
                  ∙ rest,
              (iext.ino, bs) ∷ ps,
              ((refl, iterated), more),
              appended
                  ∙ ap (λ q. q ++ ps) (sym (ap Moves.pointers same))
                  ∙ append_assoc s.pointers _ ps,
            )
      ]
