-- ===== src/MoveBlocks/Main.antt =====
-- `main` of e2moveblocks: the options, the layout list, the free space for it, and the relocations
-- one after the other.
pub mod Laws
mod Tests
use prefetch.Common.{
  ℕ, Bool, true, false, ◌&&◌, ◌==◌, if◌then◌else◌, Option, none, some, List, [], ◌∷◌, word_mod, ◌%◌,
}
use prefetch.MoveBlocks.Blocks.{BlockRange}
use prefetch.MoveBlocks.Estimate.SelfTest.{test_estimate_blocks_for_range}
use prefetch.MoveBlocks.Ext2.{Ext2}
use prefetch.MoveBlocks.FreeSpace.{find_contiguous_free_space}
use prefetch.MoveBlocks.Layout.{
  LayoutFs, Layout, LayoutResult, layout_failed, layout_read, layout_aborted, process_layout_list,
}
use prefetch.MoveBlocks.Layout.Text.{is_same}
use prefetch.MoveBlocks.Opening.{Features, Device, open_filesystem}
use prefetch.MoveBlocks.Relocate.{FilesystemInfo, Status, failed, done, aborted, proceed}
use prefetch.MoveBlocks.Relocate.File.{Relocation, Relocated, relocate_blocks}

pub record Arguments : Type 0 where
  pub force : Bool
  pub devicename : List ℕ
  pub layoutfile : List ℕ

abbrev pub force_option : List ℕ
force_option = b'-' ∷ b'-' ∷ b'f' ∷ b'o' ∷ b'r' ∷ b'c' ∷ b'e' ∷ []

-- The arguments behind the name of the program; `none` is the usage and exit status 1.
unfoldable pub arguments : List (List ℕ) → Option Arguments
arguments (device ∷ layout ∷ []) =
    some (record { force = false; devicename = device; layoutfile = layout })
arguments (option ∷ device ∷ layout ∷ []) =
    if is_same option force_option
    then some (record { force = true; devicename = device; layoutfile = layout })
    else none
arguments _ = none

-- The start of the block bitmap and the superblock's fields that bound the search for free space.
pub record Limits : Type 0 where
  pub block_map_start : ℕ
  pub s_blocks_count : ℕ
  pub s_free_blocks_count : ℕ

pub data Exit : Type 0 where
  exit : ℕ → Exit
  abort : Exit

-- Whether ext2fs_flush and ext2fs_close succeed. Their failures are only printed.
pub record Closing : Type 0 where
  pub flushed : Bool
  pub closed : Bool

module _ (ext2 : Ext2) where
  -- How the program ends, the filesystem as it is in memory then, if it was opened, and the call of
  -- `close_filesystem`, if there was one.
  pub record Ended : Type 0 where
    pub status : Exit
    pub fs : Option (FilesystemInfo ext2)
    pub closed : Option Closing

  unfoldable pub stopped : Exit → FilesystemInfo ext2 → Ended
  stopped status fs = record { status = status; fs = some fs; closed = none }

  -- The loop over the relocations.
  unfoldable pub relocate_all :
      ℕ → FilesystemInfo ext2 → List Relocation → ℕ → BlockRange → Relocated ext2
  relocate_all addr_per_block fs [] relocation_block area = record {
    fs = fs;
    target_block = relocation_block;
    status = done;
  }
  relocate_all addr_per_block fs (relocation ∷ relocations) relocation_block area =
      let r = relocate_blocks ext2 addr_per_block fs relocation relocation_block area in
      let rest = relocate_all addr_per_block r.fs relocations r.target_block area in
      proceed r.status r rest

  -- `close_filesystem`, behind which `main` ends with 0 whatever it has come to.
  unfoldable pub close_filesystem : Closing → FilesystemInfo ext2 → Ended
  close_filesystem closing fs = record { status = exit 0; fs = some fs; closed = some closing }

  unfoldable pub finish : Closing → FilesystemInfo ext2 → Status → Ended
  finish closing fs failed = stopped (exit 10) fs
  finish closing fs aborted = stopped abort fs
  finish closing fs done = close_filesystem closing fs

  unfoldable pub with_area : Closing → ℕ → FilesystemInfo ext2 → Layout → Option ℕ → Ended
  with_area closing addr_per_block fs l none = stopped (exit 4) fs
  with_area closing addr_per_block fs l (some found_first_block) =
      let area : BlockRange = record {
        start_block = found_first_block;
        blocks_count = l.estimated_block_size % word_mod;
      } in
      let r = relocate_all addr_per_block fs l.relocations found_first_block area in
      finish closing r.fs r.status

  unfoldable pub with_layout : Closing → ℕ → Limits → FilesystemInfo ext2 → LayoutResult → Ended
  with_layout closing addr_per_block limits fs layout_failed = stopped (exit 5) fs
  with_layout closing addr_per_block limits fs layout_aborted = stopped abort fs
  with_layout closing addr_per_block limits fs (layout_read l) =
      with_area closing addr_per_block fs l (
        find_contiguous_free_space (Ext2.test_block_bitmap ext2 fs.block_map) limits.block_map_start
          limits.s_blocks_count limits.s_free_blocks_count (l.estimated_block_size % word_mod))

  -- What the program finds: the devices and files by name, and the filesystem on the device.
  pub record Machine : Type 0 where
    pub device : List ℕ → Device
    pub file : List ℕ → Option (List ℕ)
    pub supported : Features
    pub layout_fs : LayoutFs
    pub page_size : ℕ
    pub allocated : Bool
    pub limits : Limits
    pub closing : Closing
    pub fs : FilesystemInfo ext2

  unfoldable pub layout_of : Machine → Arguments → LayoutResult
  layout_of machine a =
      process_layout_list machine.layout_fs machine.page_size (machine.file a.layoutfile)
        machine.allocated

  unfoldable pub with_arguments : Machine → Option Arguments → Ended
  with_arguments machine none = record { status = exit 1; fs = none; closed = none }
  with_arguments machine (some a) =
      if open_filesystem machine.supported (machine.device a.devicename) a.force
      then if test_estimate_blocks_for_range machine.layout_fs.addr_per_block
        then with_layout machine.closing machine.layout_fs.addr_per_block machine.limits machine.fs
            (layout_of machine a)
        else stopped abort machine.fs
      else record { status = exit 3; fs = none; closed = none }

  unfoldable pub main : Machine → List (List ℕ) → Ended
  main machine argv = with_arguments machine (arguments argv)
