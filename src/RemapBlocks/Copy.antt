-- ===== src/RemapBlocks/Copy.antt =====
-- The copying of the data: `read_blocks`, `write_blocks` and `copy_inode_blocks`.
pub mod Targets
pub mod Pieces
pub mod Inode
pub mod Beyond
use prefetch.Common.{
  ℕ, zero, suc, ◌+◌, ◌-◌, ◌%◌, Bool, true, false, not, ltb, leb, ◌==◌, if◌then◌else◌, Option, none,
  some, List, [], ◌∷◌, take, drop, length, min, word_mod,
}
use prefetch.RemapBlocks.Splay.{Extent}
use prefetch.RemapBlocks.FreeExtents.{FreeExtent, find_remapped_offset}

-- The blocks of the device.
module _ {D : Type 0} where
  unfoldable pub write_list : List D → ℕ → (ℕ → D) → ℕ → D
  write_list [] block dev = dev
  write_list (x ∷ xs) block dev = write_list xs (block + 1) (λ b. if b == block then x else dev b)

  unfoldable pub read_list : ℕ → ℕ → (ℕ → D) → List D
  read_list zero block dev = []
  read_list (suc len) block dev = dev block ∷ read_list len (block + 1) dev

-- Whether pread and pwrite of some blocks succeed, the extents that the data goes to, the size of the
-- buffer, and whether it is allocated.
pub record CopySetup : Type 0 where
  pub can_read : ℕ → ℕ → Bool
  pub can_write : ℕ → ℕ → Bool
  pub free_extents : List FreeExtent
  pub remap_buf_blocks : ℕ
  pub allocated : Bool

module _ {D : Type 0} (c : CopySetup) where
  -- none is an exit.
  unfoldable pub read_blocks : ℕ → ℕ → (ℕ → D) → Option (List D)
  read_blocks block len dev = if c.can_read block len then some (read_list len block dev) else none

  unfoldable pub write_blocks : ℕ → List D → ℕ → (ℕ → D) → Option (ℕ → D)
  write_blocks block buf len dev =
      if c.can_write block len then some (write_list (take len buf) block dev) else none

  -- The loop over `writepos`, on what is left of the buffer; none is an exit, or a NULL extent.
  unfoldable pub write_pieces : ℕ → ℕ → List D → (ℕ → D) → Option (ℕ → D)
  write_pieces rounds offset [] dev = some dev
  write_pieces zero offset (x ∷ xs) dev = none
  write_pieces (suc rounds) offset (x ∷ xs) dev =
      elim (find_remapped_offset c.free_extents (offset % word_mod)) [
        | none ↦ none
        | some freeext ↦
            let writelen = min (freeext.len - (offset - freeext.offset)) (length (x ∷ xs)) in
            elim (write_blocks (freeext.block + (offset - freeext.offset)) (x ∷ xs) writelen dev) [
              | none ↦ none
              | some dev' ↦ write_pieces rounds (offset + writelen) (drop writelen (x ∷ xs)) dev'
            ]
      ]

  unfoldable pub write_buffer : ℕ → Option (List D) → (ℕ → D) → Option (ℕ → D)
  write_buffer offset none dev = none
  write_buffer offset (some buf) dev = write_pieces (length buf) offset buf dev

  -- The loop over `curpos`. What is written starts at the offset of the extent in each round: the code
  -- does not add `curpos` to it.
  unfoldable pub copy_chunks : ℕ → Extent → ℕ → (ℕ → D) → Option (ℕ → D)
  copy_chunks zero actext curpos dev = if ltb curpos actext.len then none else some dev
  copy_chunks (suc rounds) actext curpos dev = elim (ltb curpos actext.len) [
    | false ↦ some dev
    | true ↦
        let curlen = min (actext.len - curpos) c.remap_buf_blocks in
        elim (write_buffer actext.chunk_offset (read_blocks (actext.block + curpos) curlen dev)
          dev) [ none ↦ none | some dev' ↦ copy_chunks rounds actext (curpos + curlen) dev' ]
  ]

  unfoldable pub copy_extents : List Extent → (ℕ → D) → Option (ℕ → D)
  copy_extents [] dev = some dev
  copy_extents (actext ∷ extents) dev = elim (copy_chunks actext.len actext 0 dev) [
    | none ↦ none
    | some dev' ↦ copy_extents extents dev'
  ]

  unfoldable pub copy_inode_blocks : List Extent → (ℕ → D) → Option (ℕ → D)
  copy_inode_blocks extents dev = if not c.allocated then none else copy_extents extents dev
