-- ===== src/RemapBlocks/Load/Offsets.antt =====
-- The offsets of the loaded extents do not overlap, whatever the lines are.
use prefetch.Common.{
  Bool, true, false, if◌then◌else◌, negsuc, pos, sub32, arith, ℕ, zero, suc, ◌+◌, ◌-◌, ◌*◌, ◌%◌,
  ◌≤◌, ◌≡◌, inl, inr, refl, sym, subst, not, leb, ltb, ◌==◌, Bool-cases, if_both, Option, none,
  some, List, [], ◌∷◌, length, All, ℤ, word_mod,
}
use prefetch.RemapBlocks.Splay.{Extent, end_of, Tree, leaf, node, extent_splay, extent_insert}
use prefetch.RemapBlocks.Load.{
  beyond, right_of, at_new_inode, at_root_below, after_below, load_below, Remap, no_extents,
  add_extent, Span, skip, Round, exited, ended, go_on, stop_with, inside_extent, after_gap, Loaded,
  exhausted, failed, loaded, InputLine, no_space, unmapped, unreadable, extent, with_tree, Setup,
  lookup_inode, create_new_inode, good_inode, link_extent, at_inode, insert_new_extent, at_root,
  load_round, load_extent, load_line, load_extents,
}
use prefetch.RemapBlocks.Load.Chunks.{
  extents_of, AreChunks, AreChunks-perm, next_chunk, extents_of-end, extents_of-add_extent,
}

-- The extents of all inodes have offsets up to the number of blocks, which do not overlap.
abbrev pub AreChunked : Remap → Type 0
AreChunked st = AreChunks st.remap_blocks (extents_of st.inodes)

-- What a step gives, if it gives something.
abbrev Gives : Option Remap → Type 0
Gives none = Unit {0}
Gives (some st) = AreChunked st

abbrev Leaves : Round → Type 0
Leaves exited = Unit {0}
Leaves (ended st) = AreChunked st
Leaves (go_on st s) = AreChunked st

abbrev AreLoadedChunks : Loaded → Type 0
AreLoadedChunks exhausted = Unit {0}
AreLoadedChunks failed = Unit {0}
AreLoadedChunks (loaded st) = AreChunked st

with_tree-Gives : (st : Remap) (o : Option Tree) → AreChunked st → Gives (with_tree st o)
unfolding with_tree
with_tree-Gives st none h = tt
with_tree-Gives st (some t) h = h

stop_with-Leaves : (o : Option Remap) → Gives o → Leaves (stop_with o)
unfolding stop_with
stop_with-Leaves none h = tt
stop_with-Leaves (some st) h = h

inside_extent-Leaves :
    (ext : Extent) (st : Remap) (s : Span) → AreChunked st → Leaves (inside_extent ext st s)
unfolding inside_extent
inside_extent-Leaves ext st s h = elim (Bool-cases (leb (s.blocknr + s.len) (end_of ext))) [
  | inl inside ↦ rw inside h
  | inr more ↦ rw more h
]

-- The bound on the offsets may grow.
AreChunks-grow : (last more : ℕ) (es : List Extent) → AreChunks last es → AreChunks (last + more) es
AreChunks-grow last more es (within, apart) = (wider es within, apart)
  where
    wider :
        (es : List Extent)
        → All (λ e. e.chunk_offset + e.len ≤ last) es
        → All (λ e. e.chunk_offset + e.len ≤ last + more) es
    wider [] h = tt
    wider (e ∷ es) (he, h) = (omega arith, wider es h)

module _ (c : Setup) where
  link_extent-Gives :
      (st : Remap) (i : ℕ) (e : Extent)
      → e.chunk_offset ≡ st.remap_blocks
      → AreChunked st
      → Gives (link_extent c st i e)
  unfolding link_extent
  link_extent-Gives st i e at h =
      with_tree-Gives
        (record st { inodes = add_extent st.inodes i e; remap_blocks = st.remap_blocks + e.len })
        (extent_insert e st.extent_tree)
        (elim (extents_of-add_extent st.inodes i e) [
          | inl p ↦
              AreChunks-perm (st.remap_blocks + e.len) p
                (next_chunk st.remap_blocks e (extents_of st.inodes) at h)
          | inr same ↦
              subst (AreChunks (st.remap_blocks + e.len)) (sym same)
                (AreChunks-grow st.remap_blocks e.len (extents_of st.inodes) h)
        ])

  at_new_inode-Gives :
      (st : Remap) (e : Extent) (b : Bool) (table : Remap)
      → e.chunk_offset ≡ table.remap_blocks
      → AreChunked table
      → Gives (at_new_inode c (length st.inodes) e (if b then none else some table))
  unfolding at_new_inode
  at_new_inode-Gives st e true table at h = tt
  at_new_inode-Gives st e false table at h = link_extent-Gives table (length st.inodes) e at h

  at_inode-Gives :
      (st : Remap) (ino : ℕ) (e : Extent) (o : Option ℕ)
      → e.chunk_offset ≡ st.remap_blocks
      → AreChunked st
      → Gives (at_inode c st ino e o)
  unfolding at_inode create_new_inode
  at_inode-Gives st ino e (some i) at h = link_extent-Gives st i e at h
  at_inode-Gives st ino e none at h =
      at_new_inode-Gives st e _ _ at
        (subst (AreChunks st.remap_blocks) (sym (extents_of-end st.inodes ino)) h)

  insert_new_extent-Gives :
      (st : Remap) (blocknr len : ℕ) (offset : ℤ) (ino : ℕ)
      → AreChunked st
      → Gives (insert_new_extent c st blocknr len offset ino)
  unfolding insert_new_extent
  insert_new_extent-Gives st blocknr len offset ino h =
      if_both Gives (not (good_inode c ino)) _ _ h (
        if_both Gives (not c.allocated) _ _ tt (
          at_inode-Gives st ino
            (record {
              block = blocknr % word_mod;
              len = len;
              offset = offset;
              chunk_offset = st.remap_blocks;
            })
            (lookup_inode c st ino) refl h))

  beyond-Leaves :
      (st : Remap) (ino : ℕ) (s : Span) (t : Tree) → AreChunked st → Leaves (beyond c st ino s t)
  unfolding beyond
  beyond-Leaves st ino s leaf h =
      stop_with-Leaves _ (insert_new_extent-Gives st s.blocknr s.len s.offset ino h)
  beyond-Leaves st ino s (node l' e' r') h = h

  after_gap-Leaves :
      (ino : ℕ) (ext : Extent) (s : Span) (o : Option Remap)
      → Gives o
      → Leaves (after_gap c ino ext s o)
  unfolding after_gap
  after_gap-Leaves ino ext s none h = tt
  after_gap-Leaves ino ext s (some st) h =
      if_both Leaves (ltb s.blocknr (end_of ext)) _ _ (inside_extent-Leaves ext st s h)
        (beyond-Leaves st ino s (right_of ext.chunk_offset st.extent_tree) h)

  at_root-Leaves :
      (st : Remap) (ino : ℕ) (s : Span) (t : Tree) → AreChunked st → Leaves (at_root c st ino s t)
  unfolding at_root
  at_root-Leaves st ino s leaf h =
      stop_with-Leaves _ (insert_new_extent-Gives st s.blocknr s.len s.offset ino h)
  at_root-Leaves st ino s (node l ext r) h =
      let all = insert_new_extent-Gives st s.blocknr s.len s.offset ino h in
      if_both Leaves (ltb s.blocknr ext.block) _ _
        (if_both Leaves (ltb (s.blocknr + s.len) ext.block) _ _ (stop_with-Leaves _ all) (
          after_gap-Leaves ino ext (skip s (ext.block - s.blocknr)) _
            (insert_new_extent-Gives st s.blocknr (ext.block - s.blocknr) s.offset ino h)))
        (if_both Leaves (ltb s.blocknr (end_of ext)) _ _ (inside_extent-Leaves ext st s h)
          (beyond-Leaves st ino s r h))

  after_round :
      (rounds : ℕ) (ino : ℕ) (r : Round)
      → Leaves r
      → ((st : Remap) (s : Span) → AreChunked st → AreLoadedChunks (load_extent c rounds st ino s))
      → AreLoadedChunks (elim r [
        | exited ↦ failed
        | ended st' ↦ loaded st'
        | go_on st' s' ↦ load_extent c rounds st' ino s'
      ])
  after_round rounds ino exited k next = tt
  after_round rounds ino (ended st') k next = k
  after_round rounds ino (go_on st' s') k next = next st' s' k

  load_extent-AreLoadedChunks :
      (rounds : ℕ) (st : Remap) (ino : ℕ) (s : Span)
      → AreChunked st
      → AreLoadedChunks (load_extent c rounds st ino s)
  unfolding load_extent load_round
  load_extent-AreLoadedChunks zero st ino s h = elim (Bool-cases (s.len == 0)) [
    | inl none_left ↦ rw (AreLoadedChunks, none_left) h
    | inr more ↦ rw (AreLoadedChunks, more) tt
  ]
  load_extent-AreLoadedChunks (suc rounds) st ino s h = elim (Bool-cases (s.len == 0)) [
    | inl none_left ↦ rw (AreLoadedChunks, none_left) h
    | inr more ↦
        let t = extent_splay (s.blocknr % word_mod) st.extent_tree in
        rw (AreLoadedChunks, more)
          (after_round rounds ino (at_root c (record st { extent_tree = t }) ino s t)
            (at_root-Leaves (record st { extent_tree = t }) ino s t h)
            (λ st' s' k. load_extent-AreLoadedChunks rounds st' ino s' k))
  ]

  at_root_below-Leaves :
      (st : Remap) (ino n len : ℕ) (offset : ℤ) (t : Tree)
      → AreChunked st
      → Leaves (at_root_below c st ino n len offset t)
  unfolding at_root_below
  at_root_below-Leaves st ino n len offset leaf h =
      stop_with-Leaves _ (insert_new_extent-Gives st (sub32 0 (suc n % word_mod)) len offset ino h)
  at_root_below-Leaves st ino n len offset (node l ext r) h =
      if_both Leaves (ltb len (ext.block + suc n)) _ _
        (stop_with-Leaves _
          (insert_new_extent-Gives st (sub32 0 (suc n % word_mod)) len offset ino h))
        (after_gap-Leaves ino ext _ _ (
          insert_new_extent-Gives st (sub32 0 (suc n % word_mod)) ((ext.block + suc n) % word_mod)
            offset ino h))

  after_below-AreLoadedChunks :
      (len ino : ℕ) (r : Round) → Leaves r → AreLoadedChunks (after_below c len ino r)
  unfolding after_below
  after_below-AreLoadedChunks len ino exited h = tt
  after_below-AreLoadedChunks len ino (ended st) h = h
  after_below-AreLoadedChunks len ino (go_on st s) h =
      load_extent-AreLoadedChunks (2 * len + 1) st ino s h

  load_below-AreLoadedChunks :
      (st : Remap) (ino n len : ℕ) (offset : ℤ)
      → AreChunked st
      → AreLoadedChunks (load_below c st ino n len offset)
  unfolding load_below
  load_below-AreLoadedChunks st ino n len offset h = elim (Bool-cases (len == 0)) [
    | inl none_left ↦ rw (AreLoadedChunks, none_left) h
    | inr more ↦
        let t = extent_splay (sub32 0 (suc n % word_mod)) st.extent_tree in
        rw (AreLoadedChunks, more)
          (after_below-AreLoadedChunks len ino
            (at_root_below c (record st { extent_tree = t }) ino n len offset t)
            (at_root_below-Leaves (record st { extent_tree = t }) ino n len offset t h))
  ]

  load_line-AreLoadedChunks :
      (st : Remap) (line : InputLine) → AreChunked st → AreLoadedChunks (load_line c st line)
  unfolding load_line
  load_line-AreLoadedChunks st no_space h = tt
  load_line-AreLoadedChunks st unmapped h = h
  load_line-AreLoadedChunks st unreadable h = tt
  load_line-AreLoadedChunks st (extent (pos blocknr) len offset ino) h =
      load_extent-AreLoadedChunks (2 * len + 1) st ino
        (record { blocknr = blocknr; len = len; offset = offset }) h
  load_line-AreLoadedChunks st (extent (negsuc n) len offset ino) h =
      load_below-AreLoadedChunks st ino n len offset h

  after_line :
      (lines : List InputLine) (r : Loaded)
      → AreLoadedChunks r
      → ((st : Remap) → AreChunked st → AreLoadedChunks (load_extents c st lines))
      → AreLoadedChunks (elim r [
        | exhausted ↦ exhausted
        | failed ↦ failed
        | loaded st' ↦ load_extents c st' lines
      ])
  after_line lines exhausted k next = tt
  after_line lines failed k next = tt
  after_line lines (loaded st') k next = next st' k

  load_extents-AreLoadedChunks :
      (st : Remap) (lines : List InputLine)
      → AreChunked st
      → AreLoadedChunks (load_extents c st lines)
  unfolding load_extents
  load_extents-AreLoadedChunks st [] h = h
  load_extents-AreLoadedChunks st (line ∷ lines) h =
      after_line lines (load_line c st line) (load_line-AreLoadedChunks st line h)
        (λ st' k. load_extents-AreLoadedChunks st' lines k)

  pub loaded-AreChunked :
      (lines : List InputLine) (st : Remap)
      → load_extents c no_extents lines ≡ loaded st
      → AreChunked st
  unfolding no_extents extents_of
  loaded-AreChunked lines st e =
      subst AreLoadedChunks e (load_extents-AreLoadedChunks no_extents lines (tt, tt))
