-- ===== src/MoveBlocks/Layout/Laws.antt =====
-- What the relocations of a layout file are.
use prefetch.Common.{
  ℕ, ◌+◌, ◌*◌, ◌≤◌, ◌≡◌, refl, Bool, arith, ◌==◌, Option, none, some, List, [], ◌∷◌, ◌++◌, length,
  All, All-append, if_both, length-append, not, ◌/◌,
}
use prefetch.MoveBlocks.Estimate.{estimate_blocks_for_range}
use prefetch.MoveBlocks.Relocate.File.{Relocation}
use prefetch.MoveBlocks.Layout.Text.{until_nul, fgets_lines}
use prefetch.MoveBlocks.Layout.{
  LayoutFs, memory_for_relocations, LineResult, skipped, too_many, accepted, line_aborted,
  process_line, Layout, LayoutResult, layout_failed, layout_read, layout_aborted, next_line,
  process_lines, process_layout_list,
}
use prefetch.MoveBlocks.Layout.Line.{IsInside, Promise, process_line-Promise}

-- The estimates of the relocations add up to `total`.
pub Sum : LayoutFs → List Relocation → ℕ → Type 0
Sum fs [] total = total ≡ 0
Sum fs (r ∷ rs) total =
    (m : ℕ) × (rest : ℕ) × (estimate_blocks_for_range fs.addr_per_block r.block_offset
        r.blocks_count
      ≡ some m)
    × Sum fs rs rest
    × (total ≡ m + rest)

-- What holds of the list after each line.
pub GoodLayout : LayoutFs → Layout → Type 0
GoodLayout fs l =
    All (IsInside fs) l.relocations
    × (length l.relocations ≤ memory_for_relocations)
    × Sum fs l.relocations l.estimated_block_size

pub GoodResult : LayoutFs → LayoutResult → Type 0
GoodResult fs layout_failed = Unit
GoodResult fs layout_aborted = Unit
GoodResult fs (layout_read l) = GoodLayout fs l

Sum-append :
    (fs : LayoutFs) (rs : List Relocation) (r : Relocation) (total m : ℕ)
    → Sum fs rs total
    → estimate_blocks_for_range fs.addr_per_block r.block_offset r.blocks_count ≡ some m
    → Sum fs (rs ++ r ∷ []) (total + m)
unfolding Sum
Sum-append fs [] r total m s e = (m, 0, e, refl, omega (arith, s))
Sum-append fs (x ∷ rs) r total m (k, rest, ex, s, t) e =
    (k, rest + m, ex, Sum-append fs rs r rest m s e, omega (arith, t))

next_line-GoodResult :
    (fs : LayoutFs) (l : Layout) (r : LineResult) (continue : Layout → LayoutResult)
    → Promise fs (length l.relocations) r
    → GoodLayout fs l
    → ((l' : Layout) → GoodLayout fs l' → GoodResult fs (continue l'))
    → GoodResult fs (next_line l r continue)
unfolding next_line Promise GoodResult GoodLayout
next_line-GoodResult fs l skipped continue p g next = next l g
next_line-GoodResult fs l too_many continue p g next = g
next_line-GoodResult fs l line_aborted continue p g next = tt
next_line-GoodResult fs l (accepted r m) continue (inside, e, room) (all, short, sum) next =
    let l' : Layout = record {
      relocations = l.relocations ++ r ∷ [];
      estimated_block_size = l.estimated_block_size + m;
    } in
    let longer = length-append l.relocations (r ∷ []) in
    next l' (
      All-append (IsInside fs) l.relocations (r ∷ []) all (inside, tt),
      omega (arith, longer, room),
      Sum-append fs l.relocations r l.estimated_block_size m sum e,
    )

process_lines-GoodResult :
    (fs : LayoutFs) (factor : ℕ) (l : Layout) (lines : List (List ℕ))
    → GoodLayout fs l
    → GoodResult fs (process_lines fs factor l lines)
unfolding process_lines GoodResult
process_lines-GoodResult fs factor l [] g = g
process_lines-GoodResult fs factor l (line ∷ lines) g =
    next_line-GoodResult fs l (process_line fs factor (length l.relocations) (until_nul line)) _
      (process_line-Promise fs factor (length l.relocations) (until_nul line)) g
      (λ l' g'. process_lines-GoodResult fs factor l' lines g')

-- Where `process_layout_list` succeeds, each relocation begins inside of a file that is no reserved
-- inode and its end, as a 32-bit sum, is not behind the end of the file; there are at most 20000, and
-- `estimated_block_size` is the sum of the estimates of them.
pub process_layout_list_lem :
    (fs : LayoutFs) (page_size : ℕ) (file : Option (List ℕ)) (allocated : Bool)
    → GoodResult fs (process_layout_list fs page_size file allocated)
unfolding process_layout_list GoodResult GoodLayout Sum
process_layout_list_lem fs page_size none allocated = tt
process_layout_list_lem fs page_size (some bytes) allocated =
    let factor = page_size / fs.blocksize in
    if_both (GoodResult fs) (not allocated) _ _ tt (
      if_both (GoodResult fs) (not (factor * fs.blocksize == page_size)) _ _ tt (
        process_lines-GoodResult fs factor (record { relocations = []; estimated_block_size = 0 })
          (fgets_lines bytes) (tt, omega arith, refl)))
