-- ===== src/MoveBlocks/BlockMap/Text.antt =====
-- The lines that e2blockmap prints.
use Prim.Native.Char.{code}
use Prim.Native.String.{String}
use prefetch.Common.{ℕ, suc, zero, ◌-◌, ◌^◌, List, [], ◌∷◌, ◌++◌, ℤ, pos, negsuc, neg, signed}
use prefetch.PrintTrace.{digits, print_unsigned}

abbrev pub codes : String → List ℕ
codes String.[] = []
codes (String.◌∷◌ c s) = code c ∷ codes s

-- A number of 64 bits has twenty digits at most.
unfoldable pub print_u64 : ℕ → List ℕ
print_u64 number = digits 20 number []

-- `%d` and `%lld`
unfoldable pub print_signed : ℤ → List ℕ
print_signed (pos n) = print_u64 n
print_signed (negsuc n) = b'-' ∷ print_u64 (suc n)

-- `%llu` of a `long long`
unfoldable pub as_u64 : ℤ → ℕ
as_u64 (pos n) = n
as_u64 (negsuc n) = 2 ^ 64 - 1 - n

-- One call of the callback: the block on the disk, its offset in the file or, below 0, its kind of
-- indirection, and where the reference to it stands.
pub record FileBlock : Type 0 where
  pub blocknr : ℕ
  pub blockcnt : ℤ
  pub ref_blk : ℕ
  pub ref_offset : ℤ

-- `BLOCK_COUNT_IND` to `BLOCK_COUNT_TRANSLATOR` are -1 to -4.
unfoldable pub block_type_string : ℤ → List ℕ
block_type_string (negsuc zero) = codes "IND"
block_type_string (negsuc (suc zero)) = codes "DIND"
block_type_string (negsuc (suc (suc zero))) = codes "TIND"
block_type_string (negsuc (suc (suc (suc zero)))) = codes "TIND"
block_type_string _ = codes "Unknown"

unfoldable pub print_indirect_verbose : ℕ → FileBlock → List ℕ
print_indirect_verbose inode_number b =
    codes "diskblock="
    ++ (print_unsigned b.blocknr
        ++ (codes "  inode="
            ++ (print_unsigned inode_number
                ++ (codes " type="
                    ++ (block_type_string b.blockcnt
                        ++ (codes "-indirect_number="
                            ++ (print_signed (neg b.blockcnt)
                                ++ (codes " ref_blk="
                                    ++ (print_unsigned b.ref_blk
                                        ++ (codes " ref_offset="
                                            ++ (print_signed b.ref_offset ++ 10 ∷ [])))))))))))

unfoldable pub print_block_verbose : ℕ → FileBlock → List ℕ
print_block_verbose inode_number b =
    codes "inode="
    ++ (print_signed (signed inode_number)
        ++ (codes " blocknumber="
            ++ (print_u64 (as_u64 b.blockcnt)
                ++ (codes " diskblock="
                    ++ (print_unsigned b.blocknr
                        ++ (codes " ref_blk="
                            ++ (print_unsigned b.ref_blk
                                ++ (codes " ref_offset="
                                    ++ (print_signed b.ref_offset ++ 10 ∷ [])))))))))

unfoldable pub print_indirect : ℕ → FileBlock → List ℕ
print_indirect inode_number b =
    print_unsigned b.blocknr
    ++ 32
      ∷ (print_unsigned inode_number
          ++ 32
            ∷ (block_type_string b.blockcnt
                ++ b'-'
                  ∷ (print_signed (neg b.blockcnt)
                      ++ 32
                        ∷ (print_unsigned b.ref_blk
                            ++ 32 ∷ (print_signed b.ref_offset ++ 10 ∷ [])))))

unfoldable pub print_block : ℕ → FileBlock → List ℕ
print_block inode_number b =
    print_unsigned b.blocknr
    ++ 32 ∷ (print_signed (signed inode_number) ++ 32 ∷ (print_signed b.blockcnt ++ 10 ∷ []))
