-- ===== src/RemapBlocks/Run.antt =====
-- The run of e2remapblocks: its options, `sort_inodes_extents`, `copy_and_remap_extents` and `main`.
pub mod Pointers
pub mod Chosen
pub mod Whole
pub mod Sequence
use prefetch.Common.{
  ℕ, zero, suc, ◌+◌, ◌-◌, ◌%◌, Bool, true, false, not, ltb, leb, ◌==◌, if◌then◌else◌, Option, none,
  some, List, [], ◌∷◌, ◌++◌, map, ℤ, pos, negsuc, ltb_ℤ, word_mod,
}
use prefetch.RemapBlocks.Splay.{Extent}
use prefetch.RemapBlocks.Load.{
  InodeExtents, Remap, no_extents, Setup, InputLine, Loaded, exhausted, failed, loaded,
  load_extents,
}
use prefetch.RemapBlocks.FreeExtents.{FreeExtent, find_free_blocks}
use prefetch.RemapBlocks.Copy.{CopySetup, copy_inode_blocks}
use prefetch.RemapBlocks.Traverse.{
  cmp_ext_offset_ptr, TraverseData, Callback, exited, block_abort, unchanged, changed,
  TraverseSetup, remap_block,
}
use prefetch.RemapBlocks.Bitmap.{BitmapSetup, Counts, update_bitmap}

-- An option as getopt gives it: with its number, as strtol reads it, and whether text is left.
pub data CommandOption : Type 0 where
  hash_size : ℕ → Bool → CommandOption
  free_size : ℤ → Bool → CommandOption
  remap_size : ℤ → Bool → CommandOption
  help : CommandOption

pub record Settings : Type 0 where
  pub inode_hash_size : ℕ
  pub min_free_extent_size : ℕ
  pub remap_buf_blocks : ℕ

abbrev pub default_settings : Settings
default_settings = record {
  inode_hash_size = 8192;
  min_free_extent_size = 16;
  remap_buf_blocks = 256;
}

abbrev pub min_inode_hash_size : ℕ
min_inode_hash_size = 256

-- none is the exit. The cases 'f' and 'r' have no `break`: each goes on into the next and ends in the
-- usage.
unfoldable pub parse_options : Settings → List CommandOption → Option Settings
parse_options s [] = some s
parse_options s (hash_size n rest ∷ options) =
    let others = parse_options (record s { inode_hash_size = n }) options in
    if rest then none else if leb n min_inode_hash_size then none else others
parse_options s (free_size n rest ∷ options) = none
parse_options s (remap_size n rest ∷ options) = none
parse_options s (help ∷ options) = none

unfoldable pub with_sorted :
    ((Extent → Extent → ℤ) → List Extent → List Extent) → InodeExtents → InodeExtents
with_sorted qsort iext = record iext { extents = qsort cmp_ext_offset_ptr iext.extents }

-- `qsort` with the order of the offsets, on the extents of each inode.
unfoldable pub sort_inodes_extents :
    ((Extent → Extent → ℤ) → List Extent → List Extent) → List InodeExtents → List InodeExtents
sort_inodes_extents qsort inodes = map (with_sorted qsort) inodes

-- A block that ext2fs_block_iterate2 comes to: its number, its place and that of its pointer.
pub record Visit : Type 0 where
  pub blocknr : ℕ
  pub blockcnt : ℤ
  pub parent_offset : ℕ

abbrev pub more_blocks : ℕ → Option (List ℕ) → Option (List ℕ)
more_blocks b none = none
more_blocks b (some bs) = some (b ∷ bs)

-- The numbers of the visited blocks after the iteration; none is an exit.
unfoldable pub iterate_blocks : TraverseSetup → TraverseData → List Visit → Option (List ℕ)
iterate_blocks c t [] = some []
iterate_blocks c t (v ∷ vs) = elim (remap_block c t v.blocknr v.blockcnt v.parent_offset) [
  | exited ↦ none
  | block_abort ↦ some (map Visit.blocknr (v ∷ vs))
  | unchanged t' ↦ more_blocks v.blocknr (iterate_blocks c t' vs)
  | changed t' b ↦ more_blocks b (iterate_blocks c t' vs)
]

unfoldable pub start_of : List Extent → TraverseData
start_of es = record { index0 = 0; index1 = 0; depth = negsuc 0; actext = es }

-- What libext2fs gives for an inode: whether it can be read, its links, and its blocks.
pub record InodeReader : Type 0 where
  pub can_read : ℕ → Bool
  pub i_links_count : ℕ → ℕ
  pub visits : ℕ → List Visit

-- The blocks of the device as the copying leaves them, and the new block numbers of the inodes that are
-- done, which libext2fs writes into the inodes and the blocks of pointers.
pub record Moves (D : Type 0) : Type 0 where
  pub device : ℕ → D
  pub pointers : List (ℕ × List ℕ)

module _ {D : Type 0} (copy : CopySetup) (trav : TraverseSetup) (fs : InodeReader) where
  unfoldable pub after_iteration : Moves D → ℕ → Option (List ℕ) → Option (Moves D)
  after_iteration s ino none = none
  after_iteration s ino (some bs) = some (record s { pointers = s.pointers ++ (ino, bs) ∷ [] })

  unfoldable pub after_copy : Moves D → InodeExtents → Option (ℕ → D) → Option (Moves D)
  after_copy s iext none = none
  after_copy s iext (some dev) =
      after_iteration (record s { device = dev }) iext.ino
        (iterate_blocks trav (start_of iext.extents) (fs.visits iext.ino))

  unfoldable pub remap_inode : Moves D → InodeExtents → Option (Moves D)
  remap_inode s iext =
      if not (fs.can_read iext.ino)
      then none
      else if fs.i_links_count iext.ino == 0
      then none
      else after_copy s iext (copy_inode_blocks copy iext.extents s.device)

  unfoldable pub remap_inodes : List InodeExtents → Moves D → Option (Moves D)
  remap_inodes [] s = some s
  remap_inodes (iext ∷ inodes) s = elim (remap_inode s iext) [
    | none ↦ none
    | some s' ↦ remap_inodes inodes s'
  ]

  unfoldable pub copy_and_remap_extents :
      {Bitmap : Type 0}
      → BitmapSetup Bitmap
      → List InodeExtents
      → Moves D
      → Counts Bitmap
      → Option (Moves D × Counts Bitmap)
  copy_and_remap_extents b inodes s n = elim (remap_inodes inodes s) [
    | none ↦ none
    | some s' ↦ elim (update_bitmap b copy.free_extents inodes n) [
      | none ↦ none
      | some n' ↦ some (s', n')
    ]
  ]

-- How the program ends: by an exit with 1, which leaves out what comes after, or after ext2fs_close.
pub data Ending (D Bitmap : Type 0) : Type 0 where
  exit_one : Ending D Bitmap
  not_flushed : Moves D → Counts Bitmap → Ending D Bitmap
  done : Moves D → Counts Bitmap → Ending D Bitmap

-- The filesystem that is opened, as the steps need it, the growth of the table of inodes, and whether
-- ext2fs_close succeeds.
pub record Opened (D Bitmap : Type 0) : Type 0 where
  pub device : ℕ → D
  pub counts : Counts Bitmap
  pub occupied : ℕ → Bool
  pub grows : ℕ → Bool
  pub bitmap_start : ℕ
  pub bitmap_end : ℕ
  pub first_ino : ℕ
  pub addr : ℕ
  pub s_blocks_count : ℕ
  pub reader : InodeReader
  pub groups : BitmapSetup Bitmap
  pub can_read_blocks : ℕ → ℕ → Bool
  pub can_write_blocks : ℕ → ℕ → Bool
  pub can_close : Bool

-- The two uses of `qsort`.
pub record Sorts : Type 0 where
  pub sort_extents : (Extent → Extent → ℤ) → List Extent → List Extent
  pub sort_free : (FreeExtent → FreeExtent → ℤ) → List FreeExtent → List FreeExtent

module _ {D Bitmap : Type 0} (sorts : Sorts) (fs : Opened D Bitmap) (settings : Settings) where
  unfoldable pub closed : Option (Moves D × Counts Bitmap) → Ending D Bitmap
  closed none = exit_one
  closed (some (s, n)) = if fs.can_close then done s n else not_flushed s n

  -- With the extents to move and the free extents for them.
  unfoldable pub with_free : List InodeExtents → Option (List FreeExtent) → Ending D Bitmap
  with_free inodes none = exit_one
  with_free inodes (some es) = closed (
      copy_and_remap_extents
        (record {
          can_read = fs.can_read_blocks;
          can_write = fs.can_write_blocks;
          free_extents = es;
          remap_buf_blocks = settings.remap_buf_blocks;
          allocated = true;
        })
        (record { addr = fs.addr; s_blocks_count = fs.s_blocks_count; free_extents = es }) fs.reader
        fs.groups inodes (record { device = fs.device; pointers = [] }) fs.counts)

  unfoldable pub with_extents : Loaded → Ending D Bitmap
  with_extents exhausted = exit_one
  with_extents failed = exit_one
  with_extents (loaded st) = with_free (sort_inodes_extents sorts.sort_extents st.inodes) (
      find_free_blocks sorts.sort_free fs.occupied fs.bitmap_start fs.bitmap_end st.remap_blocks
        settings.min_free_extent_size)

  -- `main` after the options, with the lines of the file of extents.
  unfoldable pub main : List InputLine → Ending D Bitmap
  main lines = with_extents (
      load_extents
        (record {
          inode_hash_size = settings.inode_hash_size;
          first_ino = fs.first_ino;
          allocated = true;
          grows = fs.grows;
        })
        no_extents lines)
