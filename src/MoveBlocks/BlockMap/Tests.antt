-- ===== src/MoveBlocks/BlockMap/Tests.antt =====
-- Runs of e2blockmap.
use prefetch.Common.{ℕ, ◌≡◌, refl, true, false, some, List, [], ◌∷◌, ◌++◌, pos, negsuc, arith}
use prefetch.PrintTrace.{digits, print_unsigned}
use prefetch.MoveBlocks.Layout.Text.{atol, skip_space, decimal, is_digit, is_same}
use prefetch.MoveBlocks.Opening.{
  Device, Features, open_filesystem, may_open, with_features, are_supported, has_unsupported,
}
use prefetch.MoveBlocks.BlockMap.{
  PrintParams, is_metadata_block, print_block_fun, print_indirect_fun, is_before, is_behind,
  print_data_block, print_file_blocks, BlockFs, block_iterate, inode_of, show_inode_blocks,
  show_file_blockmap, add_token, tokens_from, apply_params, initial_params, with_params,
  open_read_only, main,
}
use prefetch.MoveBlocks.BlockMap.Text.{
  codes, FileBlock, print_block, print_indirect, print_signed, print_u64, block_type_string,
}
use prefetch.MoveBlocks.BlockMap.Laws.{lines, show_file_blockmap_lem}

abbrev data_block : ℕ → ℕ → FileBlock
data_block n disk = record { blocknr = disk; blockcnt = pos n; ref_blk = 0; ref_offset = pos n }

-- A file of four blocks, the third of which is behind its indirect block.
abbrev four : List FileBlock
four = data_block 0 700 ∷ data_block 1 701 ∷ data_block 2 720 ∷ data_block 3 721 ∷ []

abbrev with_indirect : List FileBlock
with_indirect =
    data_block 0 700
    ∷ (data_block 1 701
        ∷ (record { blocknr = 719; blockcnt = negsuc 0; ref_blk = 0; ref_offset = pos 12 })
        ∷ (data_block 2 720 ∷ data_block 3 721 ∷ []))

abbrev block_fs : BlockFs
block_fs = record {
  namei_follow = λ path. some 12;
  blocks = λ inode holes data_only. elim data_only [ true ↦ four | false ↦ with_indirect ];
  is_traversed = λ inode holes data_only. true;
}

abbrev params : PrintParams
params = initial_params (pos 1) (pos 2)

show_file_blockmap_lem_example :
    (show_file_blockmap block_fs (codes "/a") params).printed
    ≡ lines (record params { inode_number = 12 }) 1 (some 2) four
unfolding initial_params inode_of
show_file_blockmap_lem_example =
    show_file_blockmap_lem block_fs (codes "/a") params 12 1 (some 2) refl refl refl refl (
      0,
      refl,
      omega arith,
      (1, refl, omega arith, (2, refl, omega arith, (3, refl, omega arith, tt))),
    )

abbrev features : Features
features = record { compat = 4; incompat = 2; ro_compat = 1 }

abbrev unmounted : List ℕ → Device
unmounted name = record {
  check_if_mounted = some (record { mounted = false; busy = false });
  features = some features;
  read_bitmaps = true;
}

-- e2blockmap -p indirect d /a 1 2
printed_two :
    (main features unmounted
      (λ name. block_fs)
      (codes "-p" ∷ codes "indirect" ∷ codes "d" ∷ codes "/a" ∷ codes "1" ∷ codes "2" ∷ [])).printed
    ≡ codes "701 12 1" ++ 10 ∷ (codes "719 12 IND-1 0 12" ++ 10 ∷ (codes "720 12 2" ++ 10 ∷ []))
unfolding main with_params open_read_only open_filesystem may_open with_features are_supported
    has_unsupported show_file_blockmap show_inode_blocks inode_of block_iterate print_file_blocks
    is_metadata_block print_data_block is_before is_behind print_block_fun print_indirect_fun
    print_block print_indirect block_type_string print_signed print_u64 print_unsigned digits
    add_token tokens_from apply_params initial_params is_same atol skip_space decimal is_digit
printed_two = refl

-- e2blockmap -p "" d /a -1 3: a start below 0 is not unused, since the length counts from it.
printed_below_zero :
    (main features unmounted
      (λ name. block_fs)
      (codes "-p" ∷ [] ∷ codes "d" ∷ codes "/a" ∷ codes "-1" ∷ codes "3" ∷ [])).printed
    ≡ codes "700 12 0" ++ 10 ∷ (codes "701 12 1" ++ 10 ∷ [])
unfolding main with_params open_read_only open_filesystem may_open with_features are_supported
    has_unsupported show_file_blockmap show_inode_blocks inode_of block_iterate print_file_blocks
    is_metadata_block print_data_block is_before is_behind print_block_fun print_indirect_fun
    print_block print_indirect block_type_string print_signed print_u64 print_unsigned digits
    add_token tokens_from apply_params initial_params is_same atol skip_space decimal is_digit
printed_below_zero = refl
