-- ===== src/RemapBlocks/Load/Lines.antt =====
-- The loading of a whole file of extents.
use prefetch.Common.{
  negsuc, pos, arith, ℕ, ◌+◌, ◌*◌, ◌≤◌, ◌<◌, ◌^◌, ◌≡◌, inl, Bool, true, false, ◌&&◌, ◌||◌, ltb, leb,
  List, [], ◌∷◌, ℤ,
}
use prefetch.RemapBlocks.Splay.Split.{IsOrdered}
use prefetch.RemapBlocks.Load.{
  Remap, no_extents, Setup, Loaded, exhausted, failed, loaded, InputLine, no_space, unmapped,
  unreadable, extent, load_line, load_extents,
}
use prefetch.RemapBlocks.Load.Cover.{in_tree}
use prefetch.RemapBlocks.Load.Line.{IsLoaded, load_extent-IsLoaded}

-- The block is in an extent of the lines.
unfoldable pub is_listed : ℕ → List InputLine → Bool
is_listed x [] = false
is_listed x (extent (pos blocknr) len offset ino ∷ lines) =
    (leb blocknr x && ltb x (blocknr + len)) || is_listed x lines
is_listed x (extent (negsuc n) len offset ino ∷ lines) = is_listed x lines
is_listed x (no_space ∷ lines) = is_listed x lines
is_listed x (unmapped ∷ lines) = is_listed x lines
is_listed x (unreadable ∷ lines) = is_listed x lines

-- Extents of inodes that are not reserved, with block numbers that are not negative, and of 32 bits up
-- to the one behind the extent.
abbrev pub AreMovable : ℕ → List InputLine → Type 0
AreMovable first_ino [] = Unit {0}
AreMovable first_ino (extent (pos blocknr) len offset ino ∷ lines) =
    (first_ino ≤ ino) × (blocknr + len < 2 ^ 32) × AreMovable first_ino lines
AreMovable first_ino (extent (negsuc n) len offset ino ∷ lines) = ⊥
AreMovable first_ino (no_space ∷ lines) = AreMovable first_ino lines
AreMovable first_ino (unmapped ∷ lines) = AreMovable first_ino lines
AreMovable first_ino (unreadable ∷ lines) = AreMovable first_ino lines

module _ (c : Setup) (given : c.allocated ≡ true) where
  -- The rounds suffice, and what is loaded is ordered and covers what was covered and what is listed.
  abbrev pub AreLoaded : Remap → List InputLine → Loaded → Type 0
  AreLoaded st lines exhausted = ⊥
  AreLoaded st lines failed = Unit {0}
  AreLoaded st lines (loaded st') =
      IsOrdered st'.extent_tree
      × ((x : ℕ) → in_tree x st'.extent_tree ≡ (in_tree x st.extent_tree || is_listed x lines))

  no_lines : (st : Remap) → IsOrdered st.extent_tree → AreLoaded st [] (loaded st)
  unfolding is_listed
  no_lines st o = (o, λ x. ground arith)

  -- The rest of the lines after an extent.
  then_load :
      (st : Remap) (blocknr len : ℕ) (offset : ℤ) (ino : ℕ) (good : c.first_ino ≤ ino)
      (lines : List InputLine) (r : Loaded)
      → IsLoaded c ino good given st (record { blocknr = blocknr; len = len; offset = offset }) r
      → ((st' : Remap) → IsOrdered st'.extent_tree → AreLoaded st' lines (load_extents c st' lines))
      → AreLoaded st (extent (pos blocknr) len offset ino ∷ lines) (elim r [
        | exhausted ↦ exhausted
        | failed ↦ failed
        | loaded st' ↦ load_extents c st' lines
      ])
  unfolding is_listed
  then_load st blocknr len offset ino good lines exhausted h next = h
  then_load st blocknr len offset ino good lines failed h next = tt
  then_load st blocknr len offset ino good lines (loaded st') (o, f) next =
      relate (load_extents c st' lines) (next st' o)
    where
      relate :
          (r : Loaded)
          → AreLoaded st' lines r
          → AreLoaded st (extent (pos blocknr) len offset ino ∷ lines) r
      relate exhausted h = h
      relate failed h = tt
      relate (loaded st2) (o2, h) = (o2, λ x. ground (arith, h x, f x))

  skip_line :
      (st : Remap) (lines : List InputLine) (r : Loaded)
      → AreLoaded st lines r
      → AreLoaded st (unmapped ∷ lines) r
  unfolding is_listed
  skip_line st lines exhausted h = h
  skip_line st lines failed h = tt
  skip_line st lines (loaded st') h = h

  load_extents-AreLoaded :
      (st : Remap) (lines : List InputLine)
      → IsOrdered st.extent_tree
      → AreMovable c.first_ino lines
      → AreLoaded st lines (load_extents c st lines)
  unfolding load_extents load_line
  load_extents-AreLoaded st [] o h = no_lines st o
  load_extents-AreLoaded st (no_space ∷ lines) o h = tt
  load_extents-AreLoaded st (unreadable ∷ lines) o h = tt
  load_extents-AreLoaded st (unmapped ∷ lines) o h =
      skip_line st lines (load_extents c st lines) (load_extents-AreLoaded st lines o h)
  load_extents-AreLoaded st (extent (negsuc n) len offset ino ∷ lines) o h = absurd h
  load_extents-AreLoaded st (extent (pos blocknr) len offset ino ∷ lines) o (good, fits, h) =
      then_load st blocknr len offset ino good lines _
        (load_extent-IsLoaded c ino good given (2 * len + 1) st
          (record { blocknr = blocknr; len = len; offset = offset }) o fits (inl (omega arith)))
        (λ st' o'. load_extents-AreLoaded st' lines o' h)

  -- The loading of lines about inodes that are not reserved, with block numbers from 0 on that have 32
  -- bits up to the one behind the extent, ends: in an exit, or where the array of inodes moves, or with
  -- extents that do not overlap and that cover just the blocks that are listed.
  pub load_extents_lem :
      (lines : List InputLine)
      → AreMovable c.first_ino lines
      → AreLoaded no_extents lines (load_extents c no_extents lines)
  unfolding no_extents
  load_extents_lem lines h = load_extents-AreLoaded no_extents lines tt h
