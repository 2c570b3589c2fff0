-- ===== src/MoveBlocks/Layout/Line.antt =====
-- What one line of a layout file leads to.
use prefetch.Common.{
  ℕ, ◌^◌, ◌≤◌, ◌<◌, ◌≡◌, refl, Bool, true, false, arith, ltb, leb, ◌==◌, if◌then◌else◌, Option,
  none, some, List, [], ◌∷◌, add32, sub32, Option-cases, Bool-cases, if_both, subst, leb→le, inl,
  inr,
}
use prefetch.MoveBlocks.Estimate.{estimate_blocks_for_range}
use prefetch.MoveBlocks.Relocate.File.{Relocation}
use prefetch.MoveBlocks.Layout.Text.{strtok}
use prefetch.MoveBlocks.Layout.{
  FileSize, LayoutFs, memory_for_relocations, field_blocks, size_in_blocks, relocation_of, inode_of,
  LineResult, skipped, too_many, accepted, line_aborted, with_count, with_estimate, with_inode,
  with_name, process_line,
}

-- The relocation begins inside of its file, and the 32-bit sum that is its end does not lie behind
-- the end of the file; the inode is no reserved one.
unfoldable pub IsInside : LayoutFs → Relocation → Type 0
IsInside fs r =
    (size : FileSize) × (fs.read_size r.inode_number ≡ some size)
    × (r.block_offset < size_in_blocks fs size)
    × (add32 r.block_offset r.blocks_count ≤ size_in_blocks fs size)
    × (fs.first_ino ≤ r.inode_number)

size_in_blocks-small : (fs : LayoutFs) (size : FileSize) → size_in_blocks fs size < 2 ^ 32
unfolding size_in_blocks
size_in_blocks-small fs size = omega arith

-- The cut to the size of the file.
cut :
    (blocks offset wanted : ℕ)
    → blocks < 2 ^ 32
    → offset < blocks
    → add32 offset (if ltb blocks (add32 offset wanted) then sub32 blocks offset else wanted)
      ≤ blocks
cut blocks offset wanted h k = ground arith

taken :
    (b : Bool) (x r : Relocation) → (if b then none else some x) ≡ some r → (b ≡ false) × (x ≡ r)
taken true x r e = absurd (cc e)
taken false x r e = (refl, cc e)

range_inside :
    (fs : LayoutFs) (factor ino : ℕ) (size : FileSize) (f2 f3 : Option (List ℕ)) (r : Relocation)
    → relocation_of fs factor ino size f2 f3 ≡ some r
    → (r.inode_number ≡ ino)
      × (r.block_offset < size_in_blocks fs size)
      × (add32 r.block_offset r.blocks_count ≤ size_in_blocks fs size)
unfolding relocation_of
range_inside fs factor ino size f2 f3 r e =
    let blocks = size_in_blocks fs size in
    let offset = field_blocks factor 0 f2 in
    let (begins, same) = taken (leb blocks offset) _ r e in
    let inside : offset < blocks = ground arith in
    subst
      (λ (x : Relocation).
        (x.inode_number ≡ ino)
        × (x.block_offset < blocks)
        × (add32 x.block_offset x.blocks_count ≤ blocks))
      same
      (
        refl,
        inside,
        cut blocks offset (field_blocks factor (sub32 blocks offset) f3)
            (size_in_blocks-small fs size) inside,
      )

-- What the result of a line promises.
unfoldable pub Promise : LayoutFs → ℕ → LineResult → Type 0
Promise fs n skipped = Unit
Promise fs n too_many = memory_for_relocations ≤ n
Promise fs n line_aborted = Unit
Promise fs n (accepted r m) =
    IsInside fs r
    × (estimate_blocks_for_range fs.addr_per_block r.block_offset r.blocks_count ≡ some m)
    × (n < memory_for_relocations)

with_count-Promise :
    (fs : LayoutFs) (n : ℕ) (r : Relocation) (o : Option ℕ)
    → estimate_blocks_for_range fs.addr_per_block r.block_offset r.blocks_count ≡ o
    → IsInside fs r
    → n < memory_for_relocations
    → Promise fs n (with_count r o)
unfolding with_count Promise
with_count-Promise fs n r none e inside room = tt
with_count-Promise fs n r (some m) e inside room = (inside, e, room)

with_inode-Promise :
    (fs : LayoutFs) (factor n : ℕ) (ino : Option ℕ) (f2 f3 : Option (List ℕ))
    → Promise fs n (with_inode fs factor n ino f2 f3)
unfolding with_inode with_estimate IsInside Promise
with_inode-Promise fs factor n none f2 f3 = tt
with_inode-Promise fs factor n (some ino) f2 f3 = elim (Bool-cases (ltb ino fs.first_ino)) [
  | inl t ↦ rw (t) tt
  | inr t ↦ elim (Bool-cases (leb memory_for_relocations n)) [
    | inl m ↦ rw (t, m) (leb→le memory_for_relocations n m)
    | inr m ↦ elim (Option-cases (fs.read_size ino)) [
      | inl s ↦ rw (t, m, s) tt
      | inr (size, s) ↦ elim (Option-cases (relocation_of fs factor ino size f2 f3)) [
        | inl q ↦ rw (t, m, s, q) tt
        | inr (r, q) ↦
            let (same, begins, ends) = range_inside fs factor ino size f2 f3 r q in
            rw (t, m, s, q)
              (with_count-Promise fs n r
                (estimate_blocks_for_range fs.addr_per_block r.block_offset r.blocks_count) refl
                (size, rw (same) s, begins, ends, ground arith) (ground arith))
      ]
    ]
  ]
]

with_name-Promise :
    (fs : LayoutFs) (factor n : ℕ) (f1 f2 f3 : Option (List ℕ))
    → Promise fs n (with_name fs factor n f1 f2 f3)
unfolding with_name Promise
with_name-Promise fs factor n none f2 f3 = tt
with_name-Promise fs factor n (some name) f2 f3 =
    with_inode-Promise fs factor n (inode_of fs name) f2 f3

pub process_line-Promise :
    (fs : LayoutFs) (factor n : ℕ) (line : List ℕ) → Promise fs n (process_line fs factor n line)
unfolding process_line Promise
process_line-Promise fs factor n [] = tt
process_line-Promise fs factor n (c ∷ cs) =
    let (field1, rest1) = strtok (c ∷ cs) in
    let (field2, rest2) = strtok rest1 in
    let (field3, rest3) = strtok rest2 in
    if_both (Promise fs n) (c == b'#') _ _ tt
      (if_both (Promise fs n) (c == 10) _ _ tt (with_name-Promise fs factor n field1 field2 field3))
