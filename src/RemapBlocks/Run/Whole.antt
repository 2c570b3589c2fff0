-- ===== src/RemapBlocks/Run/Whole.antt =====
-- A whole run of e2remapblocks.
use mathlib.Core.List.{Permᴰ}
use mathlib.Core.List.Permᴰ
use prefetch.Common.{
  ℕ, ◌+◌, ◌-◌, ◌≤◌, ◌<◌, ◌^◌, ◌≡◌, refl, sym, ap, ◌∙◌, Bool, true, Bool-cases, Option, none, some,
  Option-cases, inl, inr, List, [], ◌∷◌, All, All-perm, ℤ,
}
use prefetch.RemapBlocks.Splay.{Extent}
use prefetch.RemapBlocks.Load.{
  InodeExtents, Remap, no_extents, Setup, InputLine, loaded, load_extents,
}
use prefetch.RemapBlocks.Load.Chunks.{extents_of, AreChunks-perm}
use prefetch.RemapBlocks.Load.Offsets.{loaded-AreChunked}
use prefetch.RemapBlocks.FreeExtents.{FreeExtent, several, scan, find_free_blocks}
use prefetch.RemapBlocks.FreeExtents.Apart.{QSort}
use prefetch.RemapBlocks.FreeExtents.Choice.{IsEnough}
use prefetch.RemapBlocks.Copy.{CopySetup}
use prefetch.RemapBlocks.Traverse.{TraverseSetup}
use prefetch.RemapBlocks.Bitmap.{Counts, update_bitmap}
use prefetch.RemapBlocks.Run.{
  Settings, with_sorted, sort_inodes_extents, Moves, remap_inodes, copy_and_remap_extents, done,
  Opened, Sorts, closed, with_free, with_extents, main,
}
use prefetch.RemapBlocks.Run.Pointers.{traverse_setup, HaveSameData}
use prefetch.RemapBlocks.Run.Chosen.{IsInUse, remap_inodes_chosen}

-- The sort of each inode permutes the extents.
sort_inodes_extents-perm :
    (qsort : (Extent → Extent → ℤ) → List Extent → List Extent)
    (permuted : (cmp : Extent → Extent → ℤ) (es : List Extent) → Permᴰ es (qsort cmp es))
    (inodes : List InodeExtents)
    → Permᴰ (extents_of inodes) (extents_of (sort_inodes_extents qsort inodes))
unfolding extents_of sort_inodes_extents with_sorted
sort_inodes_extents-perm qsort permuted [] = Permᴰ.nil
sort_inodes_extents-perm qsort permuted (x ∷ inodes) =
    Permᴰ.trans (Permᴰ.append_right (extents_of inodes) (permuted _ x.extents)) (
      Permᴰ.append_left (with_sorted qsort x).extents
        (sort_inodes_extents-perm qsort permuted inodes))

module _ {D Bitmap : Type 0} (sorts : Sorts) (fs : Opened D Bitmap) (settings : Settings) where
  closed_done :
      (o : Option (Moves D × Counts Bitmap)) (s : Moves D) (n : Counts Bitmap)
      → closed sorts fs settings o ≡ done s n
      → o ≡ some (s, n)
  unfolding closed
  closed_done none s n e = absurd (cc e)
  closed_done (some (s', n')) s n e = elim (Bool-cases fs.can_close) [
    | inl can ↦ cc (e, can)
    | inr cannot ↦ absurd (cc (e, cannot))
  ]

  -- The steps of a run that ends with `done`.
  copy_and_remap_extents_done :
      (copy : CopySetup) (trav : TraverseSetup) (inodes : List InodeExtents) (s : Moves D)
      (n : Counts Bitmap) (s' : Moves D) (n' : Counts Bitmap)
      → copy_and_remap_extents copy trav fs.reader fs.groups inodes s n ≡ some (s', n')
      → remap_inodes copy trav fs.reader inodes s ≡ some s'
  unfolding copy_and_remap_extents
  copy_and_remap_extents_done copy trav inodes s n s' n' e =
      elim (Option-cases (remap_inodes copy trav fs.reader inodes s)) [
        | inl failed ↦ absurd (cc (e, failed))
        | inr (s1, moved) ↦
            elim (Option-cases (update_bitmap fs.groups copy.free_extents inodes n)) [
              | inl failed ↦ absurd (cc (e, moved, failed))
              | inr (n1, updated) ↦ cc (e, moved, updated)
            ]
      ]

  -- What `main` sets up for the loading and the copying.
  abbrev pub loading_setup : Setup
  loading_setup = record {
    inode_hash_size = settings.inode_hash_size;
    first_ino = fs.first_ino;
    allocated = true;
    grows = fs.grows;
  }

  abbrev pub copy_setup : List FreeExtent → CopySetup
  copy_setup es = record {
    can_read = fs.can_read_blocks;
    can_write = fs.can_write_blocks;
    free_extents = es;
    remap_buf_blocks = settings.remap_buf_blocks;
    allocated = true;
  }

  main-done :
      (lines : List InputLine) (st : Remap) (es : List FreeExtent) (s : Moves D) (n : Counts Bitmap)
      → load_extents loading_setup no_extents lines ≡ loaded st
      → find_free_blocks sorts.sort_free fs.occupied fs.bitmap_start fs.bitmap_end st.remap_blocks
          settings.min_free_extent_size
        ≡ some es
      → main sorts fs settings lines ≡ done s n
      → remap_inodes
          (copy_setup es)
          (traverse_setup (copy_setup es) fs.addr fs.s_blocks_count)
          fs.reader
          (sort_inodes_extents sorts.sort_extents st.inodes)
          (record { device = fs.device; pointers = [] })
        ≡ some s
  unfolding main with_extents with_free
  main-done lines st es s n read chosen e =
      copy_and_remap_extents_done (copy_setup es)
        (traverse_setup (copy_setup es) fs.addr fs.s_blocks_count)
        (sort_inodes_extents sorts.sort_extents st.inodes)
        (record { device = fs.device; pointers = [] }) fs.counts s n
        (closed_done _ s n (
          sym (
            ap (with_free sorts fs settings (sort_inodes_extents sorts.sort_extents st.inodes))
              chosen)
          ∙ sym (ap (with_extents sorts fs settings) read)
          ∙ e))

-- All blocks of the extent are in use, and it fits into the buffer.
abbrev pub IsReady : (ℕ → Bool) → ℕ → Extent → Type 0
IsReady occupied remap_buf_blocks e =
    (e.len ≤ remap_buf_blocks) × ((i : ℕ) → i < e.len → occupied (e.block + i) ≡ true)

All-IsInUse :
    (occupied : ℕ → Bool) (buffer last : ℕ) (es : List Extent)
    → All (λ e. e.chunk_offset + e.len ≤ last) es
    → All (IsReady occupied buffer) es
    → All (IsInUse occupied buffer last) es
All-IsInUse occupied buffer last [] within ready = tt
All-IsInUse occupied buffer last (e ∷ es) (we, within) (me, ready) =
    ((we, me.0, me.1), All-IsInUse occupied buffer last es within ready)

-- `qsort` in its two uses.
abbrev pub both_sorts : QSort → ((Extent → Extent → ℤ) → List Extent → List Extent) → Sorts
both_sorts sorter sort_extents = record { sort_extents = sort_extents; sort_free = sorter.qsort }

module _ {D Bitmap : Type 0} (sorter : QSort)
    (sort_extents : (Extent → Extent → ℤ) → List Extent → List Extent)
    (permuted : (cmp : Extent → Extent → ℤ) (es : List Extent) → Permᴰ es (sort_extents cmp es))
    (fs : Opened D Bitmap) (bounded : fs.bitmap_end < 2 ^ 32)
    (reads : (b n : ℕ) → fs.can_read_blocks b n ≡ true)
    (writes : (b n : ℕ) → fs.can_write_blocks b n ≡ true) (settings : Settings)
    (some_size : 0 < settings.min_free_extent_size) where
  never_done :
      (lines : List InputLine) (st : Remap) (s : Moves D) (n : Counts Bitmap)
      → load_extents (loading_setup (both_sorts sorter sort_extents) fs settings) no_extents lines
        ≡ loaded st
      → find_free_blocks sorter.qsort fs.occupied fs.bitmap_start fs.bitmap_end st.remap_blocks
          settings.min_free_extent_size
        ≡ none
      → main (both_sorts sorter sort_extents) fs settings lines ≡ done s n
      → ⊥
  unfolding main with_extents with_free
  never_done lines st s n read failed e =
      let last =
        sym (
          ap
            (with_free (both_sorts sorter sort_extents) fs settings
              (sort_inodes_extents sort_extents st.inodes))
            failed)
        ∙ sym (ap (with_extents (both_sorts sorter sort_extents) fs settings) read)
        ∙ e in
      absurd (cc last)

  -- When `main` ends with `done`, the blocks that the iteration over the loaded inodes comes to have
  -- new numbers, and what was copied to each of them is what the block with the old number held at the
  -- start. Conditions: reads and writes succeed; the loaded extents have at least one block and fewer
  -- than 2^32, are in use, and each fits into the buffer; the blocks that the iteration comes to are in
  -- use; and where no single extent has enough blocks, those of at least half the length of the last one
  -- needed have.
  pub main-HaveSameData :
      (lines : List InputLine) (st : Remap)
      → load_extents (loading_setup (both_sorts sorter sort_extents) fs settings) no_extents lines
        ≡ loaded st
      → 0 < st.remap_blocks
      → st.remap_blocks < 2 ^ 32
      → ((found : List FreeExtent)
          → scan fs.occupied fs.bitmap_end st.remap_blocks settings.min_free_extent_size
              (fs.bitmap_end - fs.bitmap_start)
              fs.bitmap_start
              []
            ≡ several found
          → IsEnough sorter fs.occupied fs.bitmap_end st.remap_blocks found)
      → All (IsReady fs.occupied settings.remap_buf_blocks) (extents_of st.inodes)
      → All
          (λ iext. All (λ v. fs.occupied v.blocknr ≡ true) (fs.reader.visits iext.ino))
          (sort_inodes_extents sort_extents st.inodes)
      → (s : Moves D) (n : Counts Bitmap)
      → main (both_sorts sorter sort_extents) fs settings lines ≡ done s n
      → (ps : List (ℕ × List ℕ)) × (s.pointers ≡ ps)
        × HaveSameData fs.reader fs.device s.device (sort_inodes_extents sort_extents st.inodes) ps
  main-HaveSameData lines st read some_blocks few enough ready visited s n e =
      elim (Option-cases (
        find_free_blocks sorter.qsort fs.occupied fs.bitmap_start fs.bitmap_end st.remap_blocks
          settings.min_free_extent_size)) [
            | inl failed ↦ absurd (never_done lines st s n read failed e)
            | inr (es, chosen) ↦
                let p = sort_inodes_extents-perm sort_extents permuted st.inodes in
                let (within, apart) = AreChunks-perm st.remap_blocks p (
                  loaded-AreChunked (loading_setup (both_sorts sorter sort_extents) fs settings)
                    lines st read) in
                remap_inodes_chosen sorter fs.occupied fs.bitmap_end bounded st.remap_blocks few
                  some_blocks settings.min_free_extent_size some_size fs.bitmap_start enough
                  (copy_setup (both_sorts sorter sort_extents) fs settings es)
                  (record { reads = reads; writes = writes; given = refl }) chosen fs.addr
                  fs.s_blocks_count fs.reader (sort_inodes_extents sort_extents st.inodes)
                  (record { device = fs.device; pointers = [] }) s
                  (All-IsInUse fs.occupied settings.remap_buf_blocks st.remap_blocks
                    (extents_of (sort_inodes_extents sort_extents st.inodes)) within
                    (All-perm (IsReady fs.occupied settings.remap_buf_blocks) p ready))
                  apart visited
                  (main-done (both_sorts sorter sort_extents) fs settings lines st es s n read
                    chosen e)
          ]
