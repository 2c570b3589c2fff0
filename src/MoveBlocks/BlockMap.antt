-- ===== src/MoveBlocks/BlockMap.antt =====
-- prefetch-initscripts/e2moveblocks/e2blockmap.cpp: printing which blocks of the disk a file has.
-- libext2fs's lookup of a name and its iteration over the blocks of a file are parameters.
pub mod Text
pub mod Laws
mod Tests
use prefetch.Common.{
  ℕ, ◌<◌, ◌-◌, Bool, true, false, not, ◌&&◌, ◌||◌, leb, ltb, ◌==◌, if◌then◌else◌, Option, none,
  some, List, [], ◌∷◌, ◌++◌, ℤ, pos, negsuc, is_neg, ◌+ℤ◌, ltb_ℤ, signed,
}
use prefetch.MoveBlocks.Layout.Text.{atol, is_same}
use prefetch.MoveBlocks.Opening.{Features, Device, open_filesystem}
use prefetch.MoveBlocks.BlockMap.Text.{
  codes, FileBlock, print_indirect_verbose, print_block_verbose, print_indirect, print_block,
}

-- e2blockmap has an `open_filesystem` of its own: that of e2moveblocks without `--force`, read-only.
unfoldable pub open_read_only : Features → Device → Bool
open_read_only supported d = open_filesystem supported d false

-- `verbose` says which pair of printing functions is set.
pub record PrintParams : Type 0 where
  pub inode_number : ℕ
  pub start_offset : ℤ
  pub length : ℤ
  pub print_holes : Bool
  pub print_indirect : Bool
  pub verbose : Bool
  pub in_printing_range : Bool

unfoldable pub is_metadata_block : ℤ → Bool
is_metadata_block block = is_neg block

unfoldable pub print_block_fun : PrintParams → FileBlock → List ℕ
print_block_fun params b =
    if params.verbose
    then print_block_verbose params.inode_number b
    else print_block params.inode_number b

unfoldable pub print_indirect_fun : PrintParams → FileBlock → List ℕ
print_indirect_fun params b =
    if params.verbose
    then print_indirect_verbose params.inode_number b
    else Text.print_indirect params.inode_number b

-- What a call of the callback leaves: its parameters, what it prints, and whether it returns
-- `BLOCK_ABORT`.
pub record Called : Type 0 where
  pub params : PrintParams
  pub printed : List ℕ
  pub stop : Bool

unfoldable pub is_before : PrintParams → ℤ → Bool
is_before params blockcnt = not (is_neg params.start_offset) && ltb_ℤ blockcnt params.start_offset

unfoldable pub is_behind : PrintParams → ℤ → Bool
is_behind params blockcnt =
    not (is_neg params.length) && not (ltb_ℤ blockcnt (params.start_offset +ℤ params.length))

unfoldable pub print_data_block : PrintParams → FileBlock → Called
print_data_block params b =
    let outside = record params { in_printing_range = false } in
    let inside = record params { in_printing_range = true } in
    if is_before params b.blockcnt
    then record { params = outside; printed = []; stop = false }
    else if is_behind params b.blockcnt
    then record { params = outside; printed = []; stop = true }
    else record { params = inside; printed = print_block_fun inside b; stop = false }

unfoldable pub print_file_blocks : PrintParams → FileBlock → Called
print_file_blocks params b =
    if is_metadata_block b.blockcnt
    then record {
      params = params;
      printed =
          if params.print_indirect && params.in_printing_range
          then print_indirect_fun params b
          else [];
      stop = false;
    }
    else print_data_block params b

-- libext2fs on the opened filesystem: a name's inode, and the calls that `ext2fs_block_iterate2` makes
-- for an inode and the flags for holes and for data only, and whether it succeeds.
pub record BlockFs : Type 0 where
  pub namei_follow : List ℕ → Option ℕ
  pub blocks : ℕ → Bool → Bool → List FileBlock
  pub is_traversed : ℕ → Bool → Bool → Bool

-- The calls of the callback, up to the first that returns `BLOCK_ABORT`.
unfoldable pub block_iterate : PrintParams → List FileBlock → List ℕ
block_iterate params [] = []
block_iterate params (b ∷ bs) =
    let r = print_file_blocks params b in
    let rest = block_iterate r.params bs in if r.stop then r.printed else r.printed ++ rest

unfoldable pub inode_of : BlockFs → List ℕ → Option ℕ
inode_of fs [] = none
inode_of fs (c ∷ cs) =
    if c == b'/'
    then fs.namei_follow (c ∷ cs)
    else if leb b'0' c && leb c b'9'
    then some (atol (c ∷ cs))
    else none

pub record Shown : Type 0 where
  pub printed : List ℕ
  pub success : Bool

unfoldable pub show_inode_blocks : BlockFs → PrintParams → Option ℕ → Shown
show_inode_blocks fs params none = record { printed = []; success = false }
show_inode_blocks fs params (some inode_number) =
    let data_only = not params.print_indirect in
    let params' = record params { inode_number = inode_number } in
    record {
      printed = block_iterate params' (fs.blocks inode_number params.print_holes data_only);
      success = fs.is_traversed inode_number params.print_holes data_only;
    }

unfoldable pub show_file_blockmap : BlockFs → List ℕ → PrintParams → Shown
show_file_blockmap fs file_name params = show_inode_blocks fs params (inode_of fs file_name)

-- The tokens between commas and spaces; `token` is the one that is read.
unfoldable pub add_token : List ℕ → List (List ℕ) → List (List ℕ)
add_token [] tokens = tokens
add_token (c ∷ cs) tokens = (c ∷ cs) ∷ tokens

unfoldable pub tokens_from : List ℕ → List ℕ → List (List ℕ)
tokens_from token [] = add_token token []
tokens_from token (c ∷ cs) =
    let ended = add_token token (tokens_from [] cs) in
    let longer = tokens_from (token ++ c ∷ []) cs in
    if (c == b',') || (c == 32) then ended else longer

-- `none` is an unknown parameter.
unfoldable pub apply_params : PrintParams → List (List ℕ) → Option PrintParams
apply_params params [] = some params
apply_params params (p ∷ ps) =
    let as_verbose = apply_params (record params { verbose = true }) ps in
    let with_indirect = apply_params (record params { print_indirect = true }) ps in
    let with_holes = apply_params (record params { print_holes = true }) ps in
    if is_same p (codes "verbose")
    then as_verbose
    else if is_same p (codes "indirect")
    then with_indirect
    else if is_same p (codes "holes")
    then with_holes
    else none

unfoldable pub initial_params : ℤ → ℤ → PrintParams
initial_params start_offset length = record {
  inode_number = 0;
  start_offset = start_offset;
  length = length;
  print_holes = false;
  print_indirect = false;
  verbose = false;
  in_printing_range = false;
}

-- The exit status and what is printed to stdout.
pub record Ended : Type 0 where
  pub status : ℕ
  pub printed : List ℕ

unfoldable pub with_params :
    Features → (List ℕ → Device) → (List ℕ → BlockFs) → List ℕ → List ℕ → Option PrintParams → Ended
with_params supported device fs devicename filename none = record { status = 1; printed = [] }
with_params supported device fs devicename filename (some params) =
    if open_read_only supported (device devicename)
    then record {
      status = 0;
      printed = (show_file_blockmap (fs devicename) filename params).printed;
    }
    else record { status = 3; printed = [] }

-- The arguments behind the name of the program; the devices are given by name.
unfoldable pub main : Features → (List ℕ → Device) → (List ℕ → BlockFs) → List (List ℕ) → Ended
main supported device fs
      (param_token ∷ params_str ∷ devicename ∷ filename ∷ start_offset ∷ length ∷ []) =
    if is_same param_token (codes "-p")
    then with_params supported device fs devicename filename (
        apply_params (initial_params (signed (atol start_offset)) (signed (atol length)))
          (tokens_from [] params_str))
    else record { status = 1; printed = [] }
main supported device fs _ = record { status = 1; printed = [] }
