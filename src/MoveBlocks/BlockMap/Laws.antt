-- ===== src/MoveBlocks/BlockMap/Laws.antt =====
-- What e2blockmap prints without the indirect blocks.
use prefetch.Common.{
  ℕ, ◌+◌, ◌≤◌, ◌≡◌, refl, sym, ap, ◌∙◌, Bool, true, false, not, ◌&&◌, if◌then◌else◌, Option, none,
  some, leb, ltb, List, [], ◌∷◌, ◌++◌, ℤ, pos, negsuc, is_neg, ◌+ℤ◌, ltb_ℤ, arith, Bool-cases, inl,
  inr,
}
use prefetch.MoveBlocks.BlockMap.{
  PrintParams, is_metadata_block, print_block_fun, Called, is_before, is_behind, print_data_block,
  print_file_blocks, BlockFs, block_iterate, inode_of, show_inode_blocks, show_file_blockmap,
}
use prefetch.MoveBlocks.BlockMap.Text.{FileBlock}

-- What the callback takes for the range.
abbrev is_taken : PrintParams → FileBlock → Bool
is_taken params b = not (is_before params b.blockcnt) && not (is_behind params b.blockcnt)

taken_lines : PrintParams → List FileBlock → List ℕ
taken_lines params [] = []
taken_lines params (b ∷ bs) =
    if is_taken params b
    then print_block_fun params b ++ taken_lines params bs
    else taken_lines params bs

-- The block is one of those from `start` on: of `length` many, or, without one, of all.
abbrev pub is_wanted : ℕ → Option ℕ → ℤ → Bool
is_wanted start none (pos n) = leb start n
is_wanted start (some length) (pos n) = leb start n && ltb n (start + length)
is_wanted start length (negsuc n) = false

-- The argument that asks for a length.
abbrev pub length_argument : Option ℕ → ℤ
length_argument none = negsuc 0
length_argument (some length) = pos length

-- The lines of the wanted blocks.
unfoldable pub lines : PrintParams → ℕ → Option ℕ → List FileBlock → List ℕ
lines params start length [] = []
lines params start length (b ∷ bs) =
    if is_wanted start length b.blockcnt
    then print_block_fun params b ++ lines params start length bs
    else lines params start length bs

-- Data blocks in ascending order, from `first` on.
abbrev pub IsAscending : ℕ → List FileBlock → Type 0
IsAscending first [] = Unit {0}
IsAscending first (b ∷ bs) = (n : ℕ) × (b.blockcnt ≡ pos n) × (first ≤ n) × IsAscending (n + 1) bs

-- The parameters as a call of the callback leaves them.
abbrev with_range : PrintParams → Bool → PrintParams
with_range params b = record params { in_printing_range = b }

ltb_ℤ_mono : (m n : ℕ) (e : ℤ) → m ≤ n → ltb_ℤ (pos m) e ≡ false → ltb_ℤ (pos n) e ≡ false
ltb_ℤ_mono m n (pos e) h k = ground arith
ltb_ℤ_mono m n (negsuc e) h k = refl

and-false : (a : Bool) → (a && false) ≡ false
and-false true = refl
and-false false = refl

is_behind_mono :
    (params : PrintParams) (m n : ℕ)
    → m ≤ n
    → is_behind params (pos m) ≡ true
    → is_behind params (pos n) ≡ true
unfolding is_behind
is_behind_mono params m n h k =
    ground (arith, ltb_ℤ_mono m n (params.start_offset +ℤ params.length) h)

lines_behind :
    (params : PrintParams) (m first : ℕ) (bs : List FileBlock)
    → m ≤ first
    → is_behind params (pos m) ≡ true
    → IsAscending first bs
    → taken_lines params bs ≡ []
unfolding taken_lines
lines_behind params m first [] h k o = refl
lines_behind params m first (b ∷ bs) h k (n, e, le, o) =
    let behind : is_behind params b.blockcnt ≡ true =
      ap (is_behind params) e ∙ is_behind_mono params m n (omega arith) k in
    rw (behind, and-false (not (is_before params b.blockcnt)))
      (lines_behind params m (n + 1) bs (omega arith) k o)

-- What is printed from a call on.
after_call : List FileBlock → Called → List ℕ
after_call bs r = if r.stop then r.printed else r.printed ++ block_iterate r.params bs

-- The three ways that a data block can go.
data_call :
    (params : PrintParams) (flag before behind : Bool) (b : FileBlock)
    → is_neg b.blockcnt ≡ false
    → is_before params b.blockcnt ≡ before
    → is_behind params b.blockcnt ≡ behind
    → print_file_blocks (with_range params flag) b ≡ (
        if before
        then record { params = with_range params false; printed = []; stop = false }
        else if behind
        then record { params = with_range params false; printed = []; stop = true }
        else record {
          params = with_range params true;
          printed = print_block_fun params b;
          stop = false;
        })
unfolding print_file_blocks is_metadata_block print_data_block is_before is_behind print_block_fun
data_call params flag before behind b m p q = rw (m, p, q) refl

iterate_lines :
    (params : PrintParams) (flag : Bool) (first : ℕ) (bs : List FileBlock)
    → IsAscending first bs
    → block_iterate (with_range params flag) bs ≡ taken_lines params bs
unfolding block_iterate taken_lines after_call
iterate_lines params flag first [] o = refl
iterate_lines params flag first (b ∷ bs) (n, e, le, o) =
    let m : is_neg b.blockcnt ≡ false = ap is_neg e in
    elim (Bool-cases (is_before params b.blockcnt)) [
      | inl before ↦ rw before (
          ap (after_call bs)
            (data_call params flag true (is_behind params b.blockcnt) b m before refl)
          ∙ iterate_lines params false (n + 1) bs o)
      | inr after ↦ elim (Bool-cases (is_behind params b.blockcnt)) [
        | inl behind ↦
            rw (after, behind)
              (ap (after_call bs) (data_call params flag false true b m after behind)
                ∙ sym (
                    lines_behind params n (n + 1) bs (omega arith)
                      (ap (is_behind params) (sym e) ∙ behind) o))
        | inr inside ↦
            rw (after, inside)
              (ap (after_call bs) (data_call params flag false false b m after inside)
                ∙ ap (◌++◌ (print_block_fun params b)) (iterate_lines params true (n + 1) bs o))
      ]
    ]

taken-is_wanted :
    (params : PrintParams) (start : ℕ) (length : Option ℕ) (n : ℕ)
    → params.start_offset ≡ pos start
    → params.length ≡ length_argument length
    → (not (is_before params (pos n)) && not (is_behind params (pos n)))
      ≡ is_wanted start length (pos n)
unfolding is_before is_behind
taken-is_wanted params start none n e l = rw (e, l) (ground arith)
taken-is_wanted params start (some length) n e l = rw (e, l) (ground arith)

taken_lines-lines :
    (params : PrintParams) (start : ℕ) (length : Option ℕ) (first : ℕ) (bs : List FileBlock)
    → params.start_offset ≡ pos start
    → params.length ≡ length_argument length
    → IsAscending first bs
    → taken_lines params bs ≡ lines params start length bs
unfolding taken_lines lines
taken_lines-lines params start length first [] e l o = refl
taken_lines-lines params start length first (b ∷ bs) e l (n, at, le, o) =
    let same : is_taken params b ≡ is_wanted start length b.blockcnt =
      ap (λ c. not (is_before params c) && not (is_behind params c)) at
      ∙ taken-is_wanted params start length n e l
      ∙ ap (is_wanted start length) (sym at) in
    rw same (
      ap
        (λ rest.
          if is_wanted start length b.blockcnt then print_block_fun params b ++ rest else rest)
        (taken_lines-lines params start length (n + 1) bs e l o))

-- Where the library gives the blocks of data in ascending order, the tool prints without indirect
-- blocks just the lines of the blocks from the start offset on, in order: as many as the length says, or
-- all for a length of -1; although it stops at the first block behind the range. The start offset is not
-- negative.
pub show_file_blockmap_lem :
    (fs : BlockFs) (file_name : List ℕ) (params : PrintParams) (inode_number start : ℕ)
    (length : Option ℕ)
    → params.start_offset ≡ pos start
    → params.length ≡ length_argument length
    → params.print_indirect ≡ false
    → inode_of fs file_name ≡ some inode_number
    → IsAscending 0 (fs.blocks inode_number params.print_holes true)
    → (show_file_blockmap fs file_name params).printed
      ≡ lines
          (record params { inode_number = inode_number })
          start
          length
          (fs.blocks inode_number params.print_holes true)
unfolding show_file_blockmap show_inode_blocks
show_file_blockmap_lem fs file_name params inode_number start length e l d i o =
    rw (i, d, show_inode_blocks)
      (iterate_lines (record params { inode_number = inode_number; print_indirect = false })
          params.in_printing_range 0 _ o
        ∙ taken_lines-lines (record params { inode_number = inode_number; print_indirect = false })
            start length 0 _ e l o)
