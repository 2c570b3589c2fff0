-- ===== src/MoveBlocks/Main/Tests.antt =====
-- A run of e2moveblocks on a disk of 64 blocks.
use prefetch.Common.{
  ℕ, ◌+◌, ◌*◌, ◌≤◌, ◌≡◌, refl, sym, ap, ◌∙◌, true, false, some, List, [], ◌∷◌, arith,
}
use prefetch.MoveBlocks.Ext2.Memory.{memory_ext2, memory_bitmaps}
use prefetch.MoveBlocks.Layout.{
  Layout, layout_read, process_layout_list, process_lines, next_line, process_line, with_name,
  with_inode, with_estimate, with_count, relocation_of, inode_of, size_in_blocks, field_blocks,
}
use prefetch.MoveBlocks.Layout.Text.{
  fgets_lines, fgets_from, until_nul, strtok, token, after_token, skip_delimiters, is_delimiter,
  atol, skip_space, decimal, is_digit,
}
use prefetch.MoveBlocks.Blocks.{
  inode_file_size, ceil_div, is_direct_block, is_1indirect_block, is_2indirect_block,
  is_3indirect_block,
}
use prefetch.MoveBlocks.Estimate.{
  estimate_blocks_for_range, direct_stage, indirect1_stage, indirect2_stage, indirect3_stage,
}
use prefetch.MoveBlocks.FreeSpace.{find_contiguous_free_space, find_loop}
use prefetch.MoveBlocks.Opening.{Device, Features}
use prefetch.MoveBlocks.Main.{Closing, Arguments, Machine, layout_of, main}
use prefetch.MoveBlocks.Main.Laws.{total, found_area, IsSound, main-IsSound}
use prefetch.MoveBlocks.Tests.{filesystem, layout_fs}

-- "12 11 2\n": two blocks of inode 12 from its block 11 on.
abbrev layout_file : List ℕ
layout_file = b'1' ∷ b'2' ∷ 32 ∷ b'1' ∷ b'1' ∷ 32 ∷ b'2' ∷ 10 ∷ []

abbrev features : Features
features = record { compat = 4; incompat = 2; ro_compat = 1 }

abbrev unmounted : Device
unmounted = record {
  check_if_mounted = some (record { mounted = false; busy = false });
  features = some features;
  read_bitmaps = true;
}

-- The flush fails, which the exit status does not show.
abbrev unflushed : Closing
unflushed = record { flushed = false; closed = true }

abbrev machine : Machine memory_ext2
machine = record {
  device = λ name. unmounted;
  file = λ name. some layout_file;
  supported = features;
  layout_fs = layout_fs;
  page_size = 1024;
  allocated = true;
  limits = record { block_map_start = 1; s_blocks_count = 64; s_free_blocks_count = 56 };
  closing = unflushed;
  fs = filesystem;
}

abbrev layout : Layout
layout = record {
  relocations = record { inode_number = 12; block_offset = 11; blocks_count = 2 } ∷ [];
  estimated_block_size = 3;
}

layout_of-machine : (a : Arguments) → layout_of memory_ext2 machine a ≡ layout_read layout
unfolding layout_of process_layout_list process_lines next_line process_line with_name with_inode
    with_estimate with_count relocation_of inode_of size_in_blocks field_blocks fgets_lines
    fgets_from until_nul strtok token after_token skip_delimiters is_delimiter atol skip_space
    decimal is_digit inode_file_size ceil_div estimate_blocks_for_range direct_stage indirect1_stage
    indirect2_stage indirect3_stage is_direct_block is_1indirect_block is_2indirect_block
    is_3indirect_block
layout_of-machine a = refl

area_of_machine : found_area memory_ext2 64 memory_bitmaps machine.limits filesystem layout ≡ some 4
unfolding find_contiguous_free_space find_loop
area_of_machine = refl

has_room :
    (a : Arguments) (l : Layout) (first : ℕ)
    → layout_of memory_ext2 machine a ≡ layout_read l
    → found_area memory_ext2 64 memory_bitmaps machine.limits filesystem l ≡ some first
    → first + 3 * total l.relocations ≤ 64
has_room a l first p q =
    let same : layout ≡ l = layout_read_eq layout l (sym (layout_of-machine a) ∙ p) in
    let at : 4 ≡ first = some_eq 4 first (
      sym area_of_machine
      ∙ ap (found_area memory_ext2 64 memory_bitmaps machine.limits filesystem) same
      ∙ q) in
    omega (arith, at, ap (λ k. total (Layout.relocations k)) same)
  where
    layout_read_eq : (l m : Layout) → layout_read l ≡ layout_read m → l ≡ m
    layout_read_eq l m e = cc

    some_eq : (m n : ℕ) → some m ≡ some n → m ≡ n
    some_eq m n e = cc

main-IsSound_example :
    IsSound memory_ext2 64 memory_bitmaps unflushed filesystem
      (main memory_ext2 machine ((b'd' ∷ []) ∷ (b'l' ∷ []) ∷ []))
main-IsSound_example =
    main-IsSound memory_ext2 64 memory_bitmaps machine ((b'd' ∷ []) ∷ (b'l' ∷ []) ∷ [])
      (λ a l first e p q. has_room a l first p q)
