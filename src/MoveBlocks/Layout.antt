-- ===== src/MoveBlocks/Layout.antt =====
-- `process_layout_list`: the list of requested relocations, read from the layout file.
pub mod Text
pub mod Line
pub mod Laws
use prefetch.Common.{
  ℕ, zero, suc, ◌+◌, ◌-◌, ◌*◌, ◌/◌, ◌%◌, ◌^◌, Bool, true, false, not, ◌&&◌, ◌||◌, ltb, leb, ◌==◌,
  if◌then◌else◌, Option, none, some, List, [], ◌∷◌, ◌++◌, length, word_mod, add32, sub32, mul32,
}
use prefetch.MoveBlocks.Blocks.{inode_file_size, ceil_div}
use prefetch.MoveBlocks.Estimate.{estimate_blocks_for_range}
use prefetch.MoveBlocks.Relocate.File.{Relocation}
use prefetch.MoveBlocks.Layout.Text.{fgets_lines, until_nul, strtok, atol}

pub record FileSize : Type 0 where
  pub is_regular : Bool
  pub i_size : ℕ
  pub i_size_high : ℕ

-- What is asked of the filesystem: ext2fs_namei_follow from the root, ext2fs_read_inode, and fields
-- of the superblock.
pub record LayoutFs : Type 0 where
  pub namei_follow : List ℕ → Option ℕ
  pub read_size : ℕ → Option FileSize
  pub first_ino : ℕ
  pub blocksize : ℕ
  pub addr_per_block : ℕ

abbrev pub memory_for_relocations : ℕ
memory_for_relocations = 20000

-- A field in pages as blocks; `absent` where there is no field.
unfoldable pub field_blocks : ℕ → ℕ → Option (List ℕ) → ℕ
field_blocks factor absent none = absent
field_blocks factor absent (some field) = mul32 (atol field) factor

unfoldable pub size_in_blocks : LayoutFs → FileSize → ℕ
size_in_blocks fs size =
    ceil_div (inode_file_size size.is_regular size.i_size size.i_size_high) fs.blocksize % word_mod

-- `none` is a range that begins behind the end of the file.
unfoldable pub relocation_of :
    LayoutFs → ℕ → ℕ → FileSize → Option (List ℕ) → Option (List ℕ) → Option Relocation
relocation_of fs factor inode_number size offset_field length_field =
    let file_size_in_blocks = size_in_blocks fs size in
    let block_offset = field_blocks factor 0 offset_field in
    let rest = sub32 file_size_in_blocks block_offset in
    let wanted = field_blocks factor rest length_field in
    let count = if ltb file_size_in_blocks (add32 block_offset wanted) then rest else wanted in
    if leb file_size_in_blocks block_offset
    then none
    else some
        (record { inode_number = inode_number; block_offset = block_offset; blocks_count = count })

-- The first field: a path, or the number of an inode.
unfoldable pub inode_of : LayoutFs → List ℕ → Option ℕ
inode_of fs [] = none
inode_of fs (c ∷ cs) =
    if c == b'/'
    then fs.namei_follow (c ∷ cs)
    else if leb b'0' c && leb c b'9'
    then some (atol (c ∷ cs))
    else none

-- What a line leads to: the next line, the end of the call for want of room, a relocation with its
-- estimate, or a failed assertion.
pub data LineResult : Type 0 where
  skipped : LineResult
  too_many : LineResult
  accepted : Relocation → ℕ → LineResult
  line_aborted : LineResult

unfoldable pub with_count : Relocation → Option ℕ → LineResult
with_count r none = line_aborted
with_count r (some estimated_blocks_count) = accepted r estimated_blocks_count

unfoldable pub with_estimate : LayoutFs → Option Relocation → LineResult
with_estimate fs none = skipped
with_estimate fs (some r) =
    with_count r (estimate_blocks_for_range fs.addr_per_block r.block_offset r.blocks_count)

unfoldable pub with_inode :
    LayoutFs → ℕ → ℕ → Option ℕ → Option (List ℕ) → Option (List ℕ) → LineResult
with_inode fs factor num_relocations none offset_field length_field = skipped
with_inode fs factor num_relocations (some inode_number) offset_field length_field =
    if ltb inode_number fs.first_ino
    then skipped
    else if leb memory_for_relocations num_relocations
    then too_many
    else elim (fs.read_size inode_number) [
      | none ↦ skipped
      | some size ↦
          with_estimate fs (relocation_of fs factor inode_number size offset_field length_field)
    ]

unfoldable pub with_name :
    LayoutFs → ℕ → ℕ → Option (List ℕ) → Option (List ℕ) → Option (List ℕ) → LineResult
with_name fs factor num_relocations none offset_field length_field = skipped
with_name fs factor num_relocations (some name) offset_field length_field =
    with_inode fs factor num_relocations (inode_of fs name) offset_field length_field

-- One turn of the loop, on the string that fgets has read.
unfoldable pub process_line : LayoutFs → ℕ → ℕ → List ℕ → LineResult
process_line fs factor num_relocations [] = skipped
process_line fs factor num_relocations (c ∷ cs) =
    let (field1, rest1) = strtok (c ∷ cs) in
    let (field2, rest2) = strtok rest1 in
    let (field3, rest3) = strtok rest2 in
    if c == b'#'
    then skipped
    else if c == 10
    then skipped
    else with_name fs factor num_relocations field1 field2 field3

pub record Layout : Type 0 where
  pub relocations : List Relocation
  pub estimated_block_size : ℕ

-- The return value with what is stored through the pointers; the last is a failed assertion.
pub data LayoutResult : Type 0 where
  layout_failed : LayoutResult
  layout_read : Layout → LayoutResult
  layout_aborted : LayoutResult

unfoldable pub next_line : Layout → LineResult → (Layout → LayoutResult) → LayoutResult
next_line l skipped continue = continue l
next_line l too_many continue = layout_read l
next_line l line_aborted continue = layout_aborted
next_line l (accepted r n) continue = continue (record {
  relocations = l.relocations ++ r ∷ [];
  estimated_block_size = l.estimated_block_size + n;
})

unfoldable pub process_lines : LayoutFs → ℕ → Layout → List (List ℕ) → LayoutResult
process_lines fs factor l [] = layout_read l
process_lines fs factor l (line ∷ lines) =
    next_line l (process_line fs factor (length l.relocations) (until_nul line))
      (λ l'. process_lines fs factor l' lines)

-- `file` is the content of the layout file, `none` where it cannot be opened; `allocated` says
-- whether malloc gives the room for the relocations.
unfoldable pub process_layout_list : LayoutFs → ℕ → Option (List ℕ) → Bool → LayoutResult
process_layout_list fs page_size none allocated = layout_failed
process_layout_list fs page_size (some bytes) allocated =
    let factor = page_size / fs.blocksize in
    if not allocated
    then layout_failed
    else if not (factor * fs.blocksize == page_size)
    then layout_failed
    else process_lines fs factor (record { relocations = []; estimated_block_size = 0 })
        (fgets_lines bytes)
