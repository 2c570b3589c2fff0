-- ===== src/PrefetchModule/Inodes/Tests.antt =====
-- Runs of the walk over the lists of inodes.
use prefetch.Common.{ℕ, ◌≡◌, refl, true, some, [], ◌∷◌, ◌==◌, not, arith}
use prefetch.PrefetchModule.Inodes.{
  ListedInode, InodeLists, walk_inodes, walk_from, ivec_inode, ivec_at, refilled, ivec_fill,
  fill_from, fill_behind, fill_all, can_continue, ivec_push, store_inode, is_pushed, behind,
  ivec_full,
}
use prefetch.PrefetchModule.Inodes.Filling.{all_inodes, in_use_of}
use prefetch.PrefetchModule.Inodes.Laws.{walk_inodes_lem}

abbrev clean_inode : ℕ → ListedInode
clean_inode number = record { number = number; i_count = 1; i_mapping = true; i_state = 0 }

abbrev six : InodeLists
six = record {
  of_super_blocks = [];
  in_use =
      clean_inode 1
      ∷ clean_inode 2
      ∷ clean_inode 3
      ∷ clean_inode 4
      ∷ clean_inode 5
      ∷ clean_inode 6
      ∷ [];
  unused = [];
}

walk_inodes_lem_example : walk_inodes 8 (λ state. not (state == 0)) 9 six ≡ some (all_inodes six)
unfolding in_use_of is_pushed
walk_inodes_lem_example =
    walk_inodes_lem 8 (λ state. not (state == 0)) six (omega arith) 9 (omega arith)

-- A window of two: each time it is filled again, the inode behind the last one is left out.
inodes_skipped :
    walk_inodes 2 (λ state. not (state == 0)) 9 six
    ≡ some (clean_inode 1 ∷ clean_inode 2 ∷ clean_inode 4 ∷ clean_inode 5 ∷ [])
unfolding walk_inodes walk_from ivec_inode ivec_at refilled ivec_fill fill_from fill_behind fill_all
    can_continue ivec_push store_inode is_pushed behind ivec_full
inodes_skipped = refl
