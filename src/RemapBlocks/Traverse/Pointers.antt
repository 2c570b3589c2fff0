-- ===== src/RemapBlocks/Traverse/Pointers.antt =====
-- A pointer that is changed leads to the data that it led to before.
use prefetch.Common.{
  arith, ℕ, zero, suc, ◌+◌, ◌%◌, ◌≤◌, ◌<◌, ◌^◌, ◌≡◌, refl, sym, ap, ◌∙◌, subst, ltb, leb, ◌==◌,
  Bool-cases, if_both, inl, inr, Option, none, some, List, [], ◌∷◌, All, ℤ, pos, negsuc, neg, ◌+ℤ◌,
  ltb_ℤ, word_mod, add32, sub32,
}
use prefetch.RemapBlocks.Splay.{Extent}
use prefetch.RemapBlocks.FreeExtents.{FreeExtent, find_remapped_offset}
use prefetch.RemapBlocks.FreeExtents.Lookup.{IsConsecutive, find_remapped_offset-IsAt}
use prefetch.RemapBlocks.Copy.Targets.{block_in, target, target_in, All-at}
use prefetch.RemapBlocks.Traverse.{
  cmp_ext_offset_ptr_core, TraverseData, Callback, exited, block_abort, unchanged, changed,
  TraverseSetup, with_place, at_indirect, at_double, at_triple, place_of, advance, new_block,
  check_new, in_extent, at_distance, at_extent, at_place, remap_block,
}

-- The block numbers behind a free extent have 32 bits.
abbrev pub IsSmall : FreeExtent → Type 0
IsSmall f = f.block + f.len < 2 ^ 32

-- The place of a block does not change the extents that are left.
place_of_actext :
    (c : TraverseSetup) (t : TraverseData) (blockcnt : ℤ) (parent_offset : ℕ) (t' : TraverseData)
    (offset : ℤ)
    → place_of c t blockcnt parent_offset ≡ some (t', offset)
    → t.actext ≡ t'.actext
unfolding place_of with_place at_indirect at_double at_triple
place_of_actext c t (pos n) parent_offset t' offset e = ground arith
place_of_actext c t (negsuc zero) parent_offset t' offset e = ground arith
place_of_actext c t (negsuc (suc zero)) parent_offset t' offset e = ground arith
place_of_actext c t (negsuc (suc (suc zero))) parent_offset t' offset e = ground arith
place_of_actext c t (negsuc (suc (suc (suc n)))) parent_offset t' offset e = ground arith

module _ {D : Type 0} (c : TraverseSetup) (last : ℕ) (h : IsConsecutive 0 c.free_extents last)
    (small : last < 2 ^ 32) (blocks : All IsSmall c.free_extents) (dev dev' : ℕ → D) where
  -- The data of an extent, within the offsets of the free extents, is at its targets.
  abbrev pub HasMoved : Extent → Type 0
  HasMoved e =
      (e.chunk_offset + e.len ≤ last)
      × ((i : ℕ)
          → i < e.len
          → dev' (target c.free_extents (e.chunk_offset + i)) ≡ dev (e.block + i))

  -- The callback has given a pointer to the data that the old pointer led to; and it has left extents
  -- whose data has moved.
  abbrev pub KeepsData : ℕ → Callback → Type 0
  KeepsData b (changed t b') = (dev' b' ≡ dev b) × All HasMoved t.actext
  KeepsData b exited = Unit {0}
  KeepsData b block_abort = Unit {0}
  KeepsData b (unchanged t) = All HasMoved t.actext

  check_new-KeepsData :
      (t : TraverseData) (b n : ℕ)
      → All HasMoved t.actext
      → dev' n ≡ dev b
      → KeepsData b (check_new c t (some n))
  unfolding check_new
  check_new-KeepsData t b n m e = elim (Bool-cases (leb c.s_blocks_count n)) [
    | inl out ↦ rw out tt
    | inr within ↦ rw within (e, m)
  ]

  in_extent-KeepsData :
      (t : TraverseData) (e : Extent) (b i : ℕ)
      → All HasMoved t.actext
      → HasMoved e
      → i < e.len
      → KeepsData b (in_extent c t e b i)
  unfolding in_extent new_block
  in_extent-KeepsData t e b i m (fits, moved) lt = elim (Bool-cases (b == e.block + i)) [
    | inr other ↦ rw other tt
    | inl same ↦
        let o = e.chunk_offset + i in
        let (k, f, at, found, (from, to)) =
          find_remapped_offset-IsAt c.free_extents last o h small (omega arith) in
        let word : o ≡ o % word_mod = omega arith in
        let found' : find_remapped_offset c.free_extents (o % word_mod) ≡ some f =
          ap (find_remapped_offset c.free_extents) (sym word) ∙ found in
        let below = All-at IsSmall c.free_extents k f blocks at in
        let place : sub32 (add32 f.block o) f.offset ≡ block_in o f = omega arith in
        let goes = target_in c.free_extents last h small o f o (omega arith) found (from, to) in
        let old : b ≡ e.block + i = ground arith in
        rw (same, found')
          (check_new-KeepsData t b (sub32 (add32 f.block o) f.offset) m
            (ap dev' (place ∙ sym goes.0) ∙ moved i lt ∙ ap dev (sym old)))
  ]

  at_distance-KeepsData :
      (t : TraverseData) (e : Extent) (b : ℕ) (d : ℤ)
      → All HasMoved t.actext
      → HasMoved e
      → KeepsData b (at_distance c t e b d)
  unfolding at_distance
  at_distance-KeepsData t e b (negsuc n) m me = m
  at_distance-KeepsData t e b (pos i) m me = elim (Bool-cases (ltb i e.len)) [
    | inl within ↦ rw within (in_extent-KeepsData t e b i m me (ground arith))
    | inr behind ↦ rw behind m
  ]

  at_extent-KeepsData :
      (t : TraverseData) (es : List Extent) (b : ℕ) (offset : ℤ)
      → All HasMoved es
      → KeepsData b (at_extent c t es b offset)
  unfolding at_extent
  at_extent-KeepsData t [] b offset m = tt
  at_extent-KeepsData t (e ∷ es) b offset (me, m) =
      at_distance-KeepsData (record t { actext = e ∷ es }) e b (offset +ℤ neg e.offset) (me, m) me

  advance-HasMoved :
      (es : List Extent) (offset : ℤ) → All HasMoved es → All HasMoved (advance c es offset)
  unfolding advance
  advance-HasMoved [] offset m = tt
  advance-HasMoved (e ∷ es) offset m =
      if_both (All HasMoved)
        (ltb_ℤ (pos 0) (cmp_ext_offset_ptr_core offset (e.offset +ℤ pos e.len +ℤ negsuc 0))) es
        (e ∷ es) m.1 m

  at_place-KeepsData :
      (b : ℕ) (o : Option (TraverseData × ℤ))
      → ((t : TraverseData) (offset : ℤ) → o ≡ some (t, offset) → All HasMoved t.actext)
      → KeepsData b (at_place c b o)
  unfolding at_place
  at_place-KeepsData b none m = tt
  at_place-KeepsData b (some (t, offset)) m =
      if_both (KeepsData b) (leb c.s_blocks_count b) exited
        (at_extent c t (advance c t.actext offset) b offset) tt
        (at_extent-KeepsData t (advance c t.actext offset) b offset
          (advance-HasMoved t.actext offset (m t offset refl)))

  -- If the data of the extents from the current one on has been copied to its targets, then a pointer
  -- that the callback changes leads to the data that it led to before, in data blocks as in blocks of
  -- pointers, whatever the iteration has come to.
  pub remap_block-KeepsData :
      (t : TraverseData) (b : ℕ) (blockcnt : ℤ) (parent_offset : ℕ)
      → All HasMoved t.actext
      → KeepsData b (remap_block c t b blockcnt parent_offset)
  unfolding remap_block
  remap_block-KeepsData t b blockcnt parent_offset m =
      at_place-KeepsData b (place_of c t blockcnt parent_offset) (λ t' offset e.
        subst (All HasMoved) (place_of_actext c t blockcnt parent_offset t' offset e) m)
