-- ===== src/MoveBlocks/Main/Laws.antt =====
-- A whole run of e2moveblocks: the bitmap and the counts stay in agreement, and when they are written
-- back.
use prefetch.Common.{
  ℕ, ◌+◌, ◌*◌, ◌≤◌, ◌≡◌, ◌≢◌, refl, ◌∙◌, Option, none, some, List, [], ◌∷◌, arith, ◌↔◌, ◌%◌,
  word_mod, if_both, subst,
}
use prefetch.MoveBlocks.Blocks.{BlockRange}
use prefetch.MoveBlocks.Estimate.SelfTest.{test_estimate_blocks_for_range}
use prefetch.MoveBlocks.Ext2.{Ext2, Bitmaps}
use prefetch.MoveBlocks.FreeSpace.{find_contiguous_free_space}
use prefetch.MoveBlocks.Layout.{Layout, LayoutResult, layout_failed, layout_read, layout_aborted}
use prefetch.MoveBlocks.Opening.{open_filesystem}
use prefetch.MoveBlocks.Main.{
  Arguments, arguments, Limits, Closing, close_filesystem, Exit, exit, abort, Ended, stopped,
  relocate_all, finish, with_area, with_layout, Machine, layout_of, with_arguments, main,
}
use prefetch.MoveBlocks.Relocate.{FilesystemInfo, Status, failed, done, aborted, proceed_both}
use prefetch.MoveBlocks.Relocate.File.{Relocation, Relocated, relocate_blocks}
use prefetch.MoveBlocks.Relocate.Accounting.{Accounted, free_blocks}
use prefetch.MoveBlocks.Relocate.FileSteps.{relocate_blocks-Accounted, relocate_blocks-free_blocks}

-- All blocks of the relocations.
abbrev pub total : List Relocation → ℕ
total [] = 0
total (r ∷ rs) = r.blocks_count + total rs

module _ (ext2 : Ext2) (size : ℕ) (laws : Bitmaps ext2 size) where
  pub record Kept (fs fs' : FilesystemInfo ext2) : Type 0 where
    pub accounted : Accounted ext2 size laws fs → Accounted ext2 size laws fs'
    pub free : free_blocks ext2 size laws fs' ≡ free_blocks ext2 size laws fs

  relocate_all-Kept :
      (apb : ℕ) (fs : FilesystemInfo ext2) (relocations : List Relocation) (t : ℕ)
      (area : BlockRange)
      → t + 3 * total relocations ≤ size
      → Kept fs (relocate_all ext2 apb fs relocations t area).fs
  unfolding relocate_all
  relocate_all-Kept apb fs [] t area h = record { accounted = λ a. a; free = refl }
  relocate_all-Kept apb fs (r ∷ rs) t area h =
      let first = relocate_blocks ext2 apb fs r t area in
      let (free, upto) = relocate_blocks-free_blocks ext2 size laws apb fs r t area (omega arith) in
      let accounted = relocate_blocks-Accounted ext2 size laws apb fs r t area (omega arith) in
      let rest = relocate_all-Kept apb first.fs rs first.target_block area (omega arith) in
      proceed_both (λ (x : Relocated ext2). Kept fs x.fs) first.status _ _
        (record { accounted = accounted; free = free })
        (record { accounted = λ a. rest.accounted (accounted a); free = rest.free ∙ free })

  -- The filesystem in memory, if there is one, has the counts in agreement and as many free blocks;
  -- it is flushed and closed just if the status is 0, with success or without.
  pub record IsSound (closing : Closing) (fs : FilesystemInfo ext2) (e : Ended ext2) : Type 0 where
    pub kept : (fs' : FilesystemInfo ext2) → e.fs ≡ some fs' → Kept fs fs'
    pub written : (e.closed ≡ some closing) ↔ (e.status ≡ exit 0)

  some_eq : (a b : FilesystemInfo ext2) → some a ≡ some b → a ≡ b
  some_eq a b e = cc

  same-Kept : (fs fs' : FilesystemInfo ext2) → some fs ≡ some fs' → Kept fs fs'
  same-Kept fs fs' e =
      subst (Kept fs) (some_eq fs fs' e) (record { accounted = λ a. a; free = refl })

  stopped-IsSound :
      (closing : Closing) (fs : FilesystemInfo ext2) (e : Exit)
      → e ≢ exit 0
      → IsSound closing fs (stopped ext2 e fs)
  unfolding stopped
  stopped-IsSound closing fs e h = record {
    kept = λ fs' q. same-Kept fs fs' q;
    written = (λ q. absurd cc, λ q. absurd (h q));
  }

  finish-IsSound :
      (closing : Closing) (fs fs' : FilesystemInfo ext2) (s : Status)
      → Kept fs fs'
      → IsSound closing fs (finish ext2 closing fs' s)
  unfolding finish stopped close_filesystem
  finish-IsSound closing fs fs' failed k = record {
    kept = λ g q. subst (Kept fs) (some_eq fs' g q) k;
    written = (λ q. absurd cc, λ q. absurd cc);
  }
  finish-IsSound closing fs fs' aborted k = record {
    kept = λ g q. subst (Kept fs) (some_eq fs' g q) k;
    written = (λ q. absurd cc, λ q. absurd cc);
  }
  finish-IsSound closing fs fs' done k = record {
    kept = λ g q. subst (Kept fs) (some_eq fs' g q) k;
    written = (λ q. refl, λ q. refl);
  }

  with_area-IsSound :
      (closing : Closing) (apb : ℕ) (fs : FilesystemInfo ext2) (l : Layout) (found : Option ℕ)
      → ((first : ℕ) → found ≡ some first → first + 3 * total l.relocations ≤ size)
      → IsSound closing fs (with_area ext2 closing apb fs l found)
  unfolding with_area
  with_area-IsSound closing apb fs l none h = stopped-IsSound closing fs (exit 4) cc
  with_area-IsSound closing apb fs l (some first) h =
      finish-IsSound closing fs _ _ (relocate_all-Kept apb fs l.relocations first _ (h first refl))

  abbrev pub found_area : Limits → FilesystemInfo ext2 → Layout → Option ℕ
  found_area limits fs l =
      find_contiguous_free_space (Ext2.test_block_bitmap ext2 fs.block_map) limits.block_map_start
        limits.s_blocks_count limits.s_free_blocks_count (l.estimated_block_size % word_mod)

  with_layout-IsSound :
      (closing : Closing) (apb : ℕ) (limits : Limits) (fs : FilesystemInfo ext2) (r : LayoutResult)
      → ((l : Layout) (first : ℕ)
          → r ≡ layout_read l
          → found_area limits fs l ≡ some first
          → first + 3 * total l.relocations ≤ size)
      → IsSound closing fs (with_layout ext2 closing apb limits fs r)
  unfolding with_layout
  with_layout-IsSound closing apb limits fs layout_failed h = stopped-IsSound closing fs (exit 5) cc
  with_layout-IsSound closing apb limits fs layout_aborted h = stopped-IsSound closing fs abort cc
  with_layout-IsSound closing apb limits fs (layout_read l) h =
      with_area-IsSound closing apb fs l (found_area limits fs l) (λ first q. h l first refl q)

  not_opened :
      (closing : Closing) (fs : FilesystemInfo ext2) (e : Exit)
      → e ≢ exit 0
      → IsSound closing fs (record { status = e; fs = none; closed = none })
  not_opened closing fs e h = record {
    kept = λ fs' q. absurd cc;
    written = (λ q. absurd cc, λ q. absurd (h q));
  }

  with_arguments-IsSound :
      (machine : Machine ext2) (o : Option Arguments)
      → ((a : Arguments) (l : Layout) (first : ℕ)
          → o ≡ some a
          → layout_of ext2 machine a ≡ layout_read l
          → found_area machine.limits machine.fs l ≡ some first
          → first + 3 * total l.relocations ≤ size)
      → IsSound machine.closing machine.fs (with_arguments ext2 machine o)
  unfolding with_arguments
  with_arguments-IsSound machine none h = not_opened machine.closing machine.fs (exit 1) cc
  with_arguments-IsSound machine (some a) h =
      if_both (IsSound machine.closing machine.fs)
        (open_filesystem machine.supported (machine.device a.devicename) a.force) _ _
        (if_both (IsSound machine.closing machine.fs)
          (test_estimate_blocks_for_range machine.layout_fs.addr_per_block) _ _
          (with_layout-IsSound machine.closing machine.layout_fs.addr_per_block machine.limits
            machine.fs (layout_of ext2 machine a) (λ l first p q. h a l first refl p q))
          (stopped-IsSound machine.closing machine.fs abort cc))
        (not_opened machine.closing machine.fs (exit 3) cc)

  -- A whole run, if three times the blocks of the relocations fit behind the free space that is found:
  -- whatever its exit status, and also if an assertion fails, the count of each group descriptor in
  -- memory is the number of the group's free blocks, if it was before, and there are as many free
  -- blocks as before; `close_filesystem`, which is to write the bitmap and the counts back, is called just
  -- if the exit status is 0, also where flushing or closing fails there.
  pub main-IsSound :
      (machine : Machine ext2) (argv : List (List ℕ))
      → ((a : Arguments) (l : Layout) (first : ℕ)
          → arguments argv ≡ some a
          → layout_of ext2 machine a ≡ layout_read l
          → found_area machine.limits machine.fs l ≡ some first
          → first + 3 * total l.relocations ≤ size)
      → IsSound machine.closing machine.fs (main ext2 machine argv)
  unfolding main
  main-IsSound machine argv h = with_arguments-IsSound machine (arguments argv) h
