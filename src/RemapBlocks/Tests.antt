-- ===== src/RemapBlocks/Tests.antt =====
-- e2remapblocks at a small filesystem.
use mathlib.Core.List.Permᴰ
use prefetch.Common.{
  arith, ℕ, ◌+◌, ◌≤◌, ◌<◌, ◌≡◌, inl, refl, Bool, true, Option, none, some, List, [], ◌∷◌,
}
use prefetch.RemapBlocks.Splay.{
  extent_splay, extent_insert, insert_at, splay_loop, turn_at, assemble, assemble_left,
  assemble_right,
}
use prefetch.RemapBlocks.Load.{
  at_new_inode, beyond, append_extent, add_extent, find_in_chain, skip, stop_with, inside_extent,
  after_gap, with_tree, lookup_inode, create_new_inode, good_inode, link_extent, at_inode,
  insert_new_extent, at_root, load_round, load_extent, load_line, no_extents, load_extents,
}
use prefetch.RemapBlocks.Load.Lines.{AreLoaded, load_extents_lem}
use prefetch.RemapBlocks.FreeExtents.{find_remapped_offset, search_extents}
use prefetch.RemapBlocks.FreeExtents.Choice.{AreTargets, find_free_blocks-AreTargets}
use prefetch.RemapBlocks.FreeExtents.Sorting.{insertion}
use prefetch.RemapBlocks.Copy.{
  read_list, write_list, read_blocks, write_blocks, write_pieces, write_buffer, copy_chunks,
  copy_extents, copy_inode_blocks,
}
use prefetch.RemapBlocks.Traverse.{
  cmp_ext_offset_ptr_core, data_offset, depth_of, place_of, advance, new_block, check_new,
  in_extent, at_distance, at_extent, at_place, remap_block,
}
use prefetch.RemapBlocks.Copy.Targets.{target}
use prefetch.RemapBlocks.Copy.Beyond.{copy_chunks_beyond}
use prefetch.RemapBlocks.Copy.Inode.{HaveArrived, copy_inode_blocks-HaveArrived}
use prefetch.RemapBlocks.Bitmap.{Counts, update_bitmap}
use prefetch.RemapBlocks.Bitmap.Groups.{update_bitmap_lem, marked, all_unmarked}
use prefetch.RemapBlocks.Run.{
  sort_inodes_extents, with_sorted, Moves, iterate_blocks, start_of, after_iteration, after_copy,
  remap_inode, remap_inodes,
}
use prefetch.RemapBlocks.Load.Chunks.{extents_of}
use prefetch.RemapBlocks.Run.Pointers.{traverse_setup, HaveSameData}
use prefetch.RemapBlocks.Run.Whole.{main-HaveSameData}
use prefetch.RemapBlocks.Run.Chosen.{IsInUse-IsMovable}
use prefetch.RemapBlocks.Example.{
  all_read, below_used, both, chosen, chosen_extents, copying, counts, counts_of, ends, enough,
  first_inode, listed, loading, long_extent, moves_of, numbers, opened, overlapping, ranges, read,
  small_fs, small_settings, unsorted, used, whole, works,
}

find_free_blocks-AreTargets_example : AreTargets insertion used 60 6 chosen_extents
find_free_blocks-AreTargets_example =
    find_free_blocks-AreTargets insertion used 60 6 (omega arith) (omega arith) 4 (omega arith) 0
      enough chosen_extents chosen

abbrev or_numbers : Option (Moves ℕ) → Moves ℕ
or_numbers none = numbers
or_numbers (some s) = s

abbrev after : Moves ℕ
after = or_numbers (remap_inodes copying (traverse_setup copying 256 60) small_fs both numbers)

moved : remap_inodes copying (traverse_setup copying 256 60) small_fs both numbers ≡ some after
unfolding remap_inodes remap_inode after_copy after_iteration iterate_blocks start_of
    copy_inode_blocks copy_extents copy_chunks write_buffer write_pieces read_blocks write_blocks
    read_list write_list find_remapped_offset search_extents remap_block place_of at_place advance
    at_extent at_distance in_extent check_new new_block cmp_ext_offset_ptr_core data_offset depth_of
moved = refl

new_pointers : after.pointers ≡ (12, 40 ∷ 41 ∷ 42 ∷ 43 ∷ 48 ∷ []) ∷ (13, 49 ∷ 31 ∷ []) ∷ []
unfolding remap_inodes remap_inode after_copy after_iteration iterate_blocks start_of
    copy_inode_blocks copy_extents copy_chunks write_buffer write_pieces read_blocks write_blocks
    read_list write_list find_remapped_offset search_extents remap_block place_of at_place advance
    at_extent at_distance in_extent check_new new_block cmp_ext_offset_ptr_core data_offset depth_of
new_pointers = refl

copy_inode_blocks-HaveArrived_example :
    (dev' : ℕ → ℕ) × (copy_inode_blocks copying first_inode.extents (λ b. b) ≡ some dev')
    × HaveArrived copying first_inode.extents (λ b. b) dev'
copy_inode_blocks-HaveArrived_example =
    let (free, spread, c) =
      find_free_blocks-AreTargets insertion used 60 6 (omega arith) (omega arith) 4 (omega arith) 0
        enough chosen_extents chosen in
    copy_inode_blocks-HaveArrived copying 6 c (omega arith) spread works first_inode.extents
      (λ b. b)
      (IsInUse-IsMovable used 60 (omega arith) copying 6 (omega arith) free c first_inode.extents (
        (omega arith, omega arith, λ i lt. below_used (10 + i) (omega arith)),
        ((omega arith, omega arith, λ i lt. below_used (20 + i) (omega arith)), tt),
      ))
      ((inl (omega arith), tt), (tt, tt))

load_extents_lem_example :
    AreLoaded loading refl no_extents overlapping (load_extents loading no_extents overlapping)
load_extents_lem_example =
    load_extents_lem loading refl overlapping
      (omega arith, omega arith, (omega arith, omega arith, tt))

update_bitmap_lem_example :
    (s' : Counts (List (Bool × ℕ × ℕ))) × (update_bitmap ranges chosen_extents both counts
      ≡ some s')
    × (s'.block_map ≡ all_unmarked ranges both (marked ranges chosen_extents []))
    × (s'.is_super_dirty ≡ true)
update_bitmap_lem_example =
    update_bitmap_lem ranges (λ b. (omega arith, omega arith)) chosen_extents both counts
      (omega arith, (omega arith, tt)) ((omega arith, (omega arith, tt)), ((omega arith, tt), tt))
      refl

-- With a buffer of one block only the first block of the extent is at its target, and it is the last
-- one that is written there.
copy_chunks_beyond_example :
    (dev' : ℕ → ℕ) × (copy_chunks (record copying { remap_buf_blocks = 1 }) 3 long_extent 0 (λ b. b)
      ≡ some dev')
    × ((i : ℕ)
        → 1 ≤ i
        → i < 3
        → dev' (target chosen_extents (0 + i)) ≡ target chosen_extents (0 + i))
copy_chunks_beyond_example =
    let (free, spread, c) =
      find_free_blocks-AreTargets insertion used 60 6 (omega arith) (omega arith) 4 (omega arith) 0
        enough chosen_extents chosen in
    copy_chunks_beyond (record copying { remap_buf_blocks = 1 }) 6 c (omega arith) spread
      (record { reads = λ b n. refl; writes = λ b n. refl; given = refl }) long_extent (λ b. b)
      (omega arith) (omega arith)

main-HaveSameData_example :
    (ps : List (ℕ × List ℕ)) × ((moves_of whole).pointers ≡ ps)
    × HaveSameData small_fs
        (λ b. b)
        (moves_of whole).device
        (sort_inodes_extents unsorted read.inodes)
        ps
unfolding extents_of sort_inodes_extents with_sorted load_extents no_extents load_line load_extent
    load_round at_root insert_new_extent at_inode at_new_inode beyond link_extent good_inode
    create_new_inode lookup_inode with_tree after_gap inside_extent stop_with skip find_in_chain
    add_extent append_extent extent_splay extent_insert insert_at splay_loop turn_at assemble
    assemble_left assemble_right
main-HaveSameData_example =
    main-HaveSameData insertion unsorted (λ cmp es. Permᴰ.refl es) opened (omega arith)
      (λ b n. refl) (λ b n. refl) small_settings (omega arith) listed read all_read (omega arith)
      (omega arith) enough
      (
        (omega arith, λ i lt. below_used (10 + i) (omega arith)),
        (
          (omega arith, λ i lt. below_used (20 + i) (omega arith)),
          ((omega arith, λ i lt. below_used (30 + i) (omega arith)), tt),
        ),
      )
      ((refl, (refl, (refl, (refl, (refl, tt))))), ((refl, (refl, tt)), tt)) (moves_of whole)
      (counts_of whole) ends
