-- ===== src/RemapBlocks/Example.antt =====
-- A small filesystem with two inodes that are to be moved.
use prefetch.Common.{
  ℤ, arith, ℕ, ◌-◌, ◌/◌, ◌≤◌, ◌<◌, ◌≡◌, refl, subst, Bool, true, false, ◌&&◌, ◌||◌, ◌==◌,
  if◌then◌else◌, ltb, leb, some, List, [], ◌∷◌, pos,
}
use prefetch.RemapBlocks.Splay.{
  Extent, leaf, extent_splay, extent_insert, insert_at, splay_loop, turn_at, assemble,
  assemble_left, assemble_right,
}
use prefetch.RemapBlocks.Load.{
  at_new_inode, beyond, Loaded, Remap, loaded, exhausted, failed, append_extent, add_extent,
  find_in_chain, skip, stop_with, inside_extent, after_gap, with_tree, lookup_inode,
  create_new_inode, good_inode, link_extent, at_inode, insert_new_extent, at_root, load_round,
  load_extent, load_line, Setup, InputLine, extent, unmapped, InodeExtents, no_extents,
  load_extents,
}
use prefetch.RemapBlocks.FreeExtents.{
  FreeExtent, several, scan, skip_occupied, next_aligned, free_run, skip_free, record_run,
  shorten_last, choose_extents, after_scan, find_remapped_offset, search_extents, find_free_blocks,
  smallest_enough, take_extents, cmp_extents_len, cmp_extents_start,
}
use prefetch.RemapBlocks.FreeExtents.Choice.{IsEnough}
use prefetch.RemapBlocks.FreeExtents.Sorting.{insertion, sort, insert}
use prefetch.RemapBlocks.Copy.{
  read_list, write_list, CopySetup, read_blocks, write_blocks, write_pieces, write_buffer,
  copy_chunks, copy_extents, copy_inode_blocks,
}
use prefetch.RemapBlocks.Traverse.{
  cmp_ext_offset_ptr_core, data_offset, depth_of, place_of, advance, new_block, check_new,
  in_extent, at_distance, at_extent, at_place, remap_block,
}
use prefetch.RemapBlocks.Copy.Inode.{IsWorking}
use prefetch.RemapBlocks.Bitmap.{
  mark_extents, unmark_extents, unmark_inodes, write_bitmap, with_counts, group_loop, group_stop,
  count_in, BitmapSetup, Counts, update_bitmap,
}
use prefetch.RemapBlocks.Run.{
  Settings, Opened, Ending, done, exit_one, not_flushed, main, with_extents, with_free, closed,
  copy_and_remap_extents, sort_inodes_extents, with_sorted, Visit, InodeReader, Moves,
  iterate_blocks, start_of, after_iteration, after_copy, remap_inode, remap_inodes,
}
use prefetch.RemapBlocks.Run.Whole.{both_sorts, loading_setup}

-- In use are the blocks to 40, and two gaps of 4 blocks between the free ones.
abbrev pub used : ℕ → Bool
used b = ltb b 40 || (leb 44 b && ltb b 48) || (leb 52 b && ltb b 56)

abbrev free_at : ℕ → ℕ → FreeExtent
free_at block offset = record { block = block; len = 4; offset = offset }

abbrev pub chosen_extents : List FreeExtent
chosen_extents = free_at 40 0 ∷ record { block = 48; len = 2; offset = 4 } ∷ []

found : scan used 60 6 4 60 0 [] ≡ several (free_at 40 0 ∷ free_at 48 0 ∷ free_at 56 0 ∷ [])
unfolding scan skip_occupied next_aligned free_run skip_free record_run
found = refl

pub chosen : find_free_blocks insertion.qsort used 0 60 6 4 ≡ some chosen_extents
unfolding find_free_blocks after_scan choose_extents smallest_enough take_extents shorten_last scan
    skip_occupied next_aligned free_run skip_free record_run insertion sort insert cmp_extents_len
    cmp_extents_start
chosen = refl

-- The two extents that are needed are among those of at least half the length.
last_is :
    smallest_enough 6 0
      (record { block = 0; len = 0; offset = 0 })
      (insertion.qsort cmp_extents_len (free_at 40 0 ∷ free_at 48 0 ∷ free_at 56 0 ∷ []))
    ≡ some (free_at 48 0)
unfolding smallest_enough insertion sort insert cmp_extents_len
last_is = refl

taken :
    (take_extents 6 2 0
      (insertion.qsort cmp_extents_start (free_at 40 0 ∷ free_at 48 0 ∷ free_at 56 0 ∷ []))).1
    ≡ 8
unfolding take_extents insertion sort insert cmp_extents_start
taken = refl

pub enough :
    (es : List FreeExtent)
    → scan used 60 6 4 (60 - 0) 0 [] ≡ several es
    → IsEnough insertion used 60 6 es
enough es e =
    let same : free_at 40 0 ∷ free_at 48 0 ∷ free_at 56 0 ∷ [] ≡ es = cc (found, e) in
    subst (IsEnough insertion used 60 6) same (λ last e'.
      let one : free_at 48 0 ≡ last = cc (last_is, e') in
      subst
        (λ (x : FreeExtent).
          6
          ≤ (take_extents 6 (x.len / 2) 0 (
              insertion.qsort cmp_extents_start
                (free_at 40 0 ∷ free_at 48 0 ∷ free_at 56 0 ∷ []))).1)
        one (omega (arith, taken)))

-- The data goes to the chosen extents with a buffer of 3 blocks.
abbrev pub copying : CopySetup
copying = record {
  can_read = λ block len. true;
  can_write = λ block len. true;
  free_extents = chosen_extents;
  remap_buf_blocks = 3;
  allocated = true;
}

pub works : IsWorking copying
works = record { reads = λ b n. refl; writes = λ b n. refl; given = refl }

-- Two inodes: the first with 3 and 2 blocks, the second with one.
abbrev pub first_inode : InodeExtents
first_inode = record {
  ino = 12;
  extents =
      record { block = 10; len = 3; offset = pos 0; chunk_offset = 0 }
      ∷ record { block = 20; len = 2; offset = pos 3; chunk_offset = 3 }
      ∷ [];
}

abbrev second_inode : InodeExtents
second_inode = record {
  ino = 13;
  extents = record { block = 30; len = 1; offset = pos 0; chunk_offset = 5 } ∷ [];
}

abbrev visit : ℕ → ℕ → Visit
visit b n = record { blocknr = b; blockcnt = pos n; parent_offset = 0 }

-- The second inode has a block that stays.
abbrev blocks_of : ℕ → List Visit
blocks_of ino =
    if ino == 12
    then visit 10 0 ∷ visit 11 1 ∷ visit 12 2 ∷ visit 20 3 ∷ visit 21 4 ∷ []
    else visit 30 0 ∷ visit 31 1 ∷ []

abbrev pub small_fs : InodeReader
small_fs = record { can_read = λ ino. true; i_links_count = λ ino. 1; visits = blocks_of }

-- Each block holds its number.
abbrev pub numbers : Moves ℕ
numbers = record { device = λ b. b; pointers = [] }

abbrev pub both : List InodeExtents
both = first_inode ∷ second_inode ∷ []

pub below_used : (b : ℕ) → b < 40 → used b ≡ true
below_used b lt = ground arith

abbrev pub long_extent : Extent
long_extent = record { block = 10; len = 3; offset = pos 0; chunk_offset = 0 }

-- Lines with extents that overlap.
abbrev pub loading : Setup
loading = record { inode_hash_size = 8192; first_ino = 11; allocated = true; grows = λ n. true }

abbrev pub overlapping : List InputLine
overlapping = extent (pos 10) 3 (pos 0) 12 ∷ unmapped ∷ extent (pos 8) 7 (pos 0) 13 ∷ []

-- Groups of 100 blocks, and the marked blocks as a list of ranges.
abbrev pub ranges : BitmapSetup (List (Bool × ℕ × ℕ))
ranges = record {
  blocks_per_group = 100;
  group_of_blk = λ b. b / 100;
  mark_range = λ m b n. (true, b, n) ∷ m;
  unmark_range = λ m b n. (false, b, n) ∷ m;
  can_write = true;
}

abbrev pub counts : Counts (List (Bool × ℕ × ℕ))
counts = record { block_map = []; bg_free_blocks_count = λ g. 50; is_super_dirty = false }

-- The whole run, on the lines of the two inodes.
abbrev pub small_settings : Settings
small_settings = record { inode_hash_size = 8192; min_free_extent_size = 4; remap_buf_blocks = 3 }

abbrev pub opened : Opened ℕ (List (Bool × ℕ × ℕ))
opened = record {
  device = λ b. b;
  counts = counts;
  occupied = used;
  grows = λ n. true;
  bitmap_start = 0;
  bitmap_end = 60;
  first_ino = 11;
  addr = 256;
  s_blocks_count = 60;
  reader = small_fs;
  groups = ranges;
  can_read_blocks = λ b n. true;
  can_write_blocks = λ b n. true;
  can_close = true;
}

abbrev pub unsorted : (Extent → Extent → ℤ) → List Extent → List Extent
unsorted cmp es = es

abbrev pub listed : List InputLine
listed =
    extent (pos 10) 3 (pos 0) 12 ∷ extent (pos 20) 2 (pos 3) 12 ∷ extent (pos 30) 1 (pos 0) 13 ∷ []

abbrev or_empty : Loaded → Remap
or_empty exhausted = record {
  extent_tree = leaf;
  inodes = [];
  inode_hash = λ n. [];
  remap_blocks = 0;
}
or_empty failed = record { extent_tree = leaf; inodes = []; inode_hash = λ n. []; remap_blocks = 0 }
or_empty (loaded st) = st

abbrev pub read : Remap
read = or_empty (
    load_extents (loading_setup (both_sorts insertion unsorted) opened small_settings) no_extents
      listed)

pub all_read :
    load_extents
      (loading_setup (both_sorts insertion unsorted) opened small_settings)
      no_extents
      listed
    ≡ loaded read
unfolding load_extents no_extents load_line load_extent load_round at_root insert_new_extent
    at_inode at_new_inode beyond link_extent good_inode create_new_inode lookup_inode with_tree
    after_gap inside_extent stop_with skip find_in_chain add_extent append_extent extent_splay
    extent_insert insert_at splay_loop turn_at assemble assemble_left assemble_right
all_read = refl

abbrev pub moves_of : Ending ℕ (List (Bool × ℕ × ℕ)) → Moves ℕ
moves_of exit_one = numbers
moves_of (not_flushed s n) = s
moves_of (done s n) = s

abbrev pub counts_of : Ending ℕ (List (Bool × ℕ × ℕ)) → Counts (List (Bool × ℕ × ℕ))
counts_of exit_one = counts
counts_of (not_flushed s n) = n
counts_of (done s n) = n

abbrev pub whole : Ending ℕ (List (Bool × ℕ × ℕ))
whole = main (both_sorts insertion unsorted) opened small_settings listed

pub ends : whole ≡ done (moves_of whole) (counts_of whole)
unfolding main with_extents with_free closed sort_inodes_extents with_sorted load_extents no_extents
    load_line load_extent load_round at_root insert_new_extent at_inode at_new_inode beyond
    link_extent good_inode create_new_inode lookup_inode with_tree after_gap inside_extent stop_with
    skip find_in_chain add_extent append_extent extent_splay extent_insert insert_at splay_loop
    turn_at assemble assemble_left assemble_right remap_inodes remap_inode after_copy
    after_iteration iterate_blocks start_of copy_inode_blocks copy_extents copy_chunks write_buffer
    write_pieces read_blocks write_blocks read_list write_list find_remapped_offset search_extents
    remap_block place_of at_place advance at_extent at_distance in_extent check_new new_block
    cmp_ext_offset_ptr_core data_offset depth_of find_free_blocks after_scan choose_extents
    smallest_enough take_extents shorten_last scan skip_occupied next_aligned free_run skip_free
    record_run insertion sort insert cmp_extents_len cmp_extents_start copy_and_remap_extents
    update_bitmap mark_extents unmark_extents unmark_inodes write_bitmap with_counts group_loop
    group_stop count_in
ends = refl
