-- ===== src/PrefetchModule/Inodes/Laws.antt =====
-- A walk over lists that fit into the window visits every inode in use once, in the order of the lists.
use prefetch.Common.{
  ℕ, zero, suc, ◌+◌, ◌-◌, ◌≤◌, ◌<◌, ◌≡◌, refl, sym, ap, ◌∙◌, Bool, false, ltb, leb, ◌==◌, Option,
  none, some, List, [], ◌∷◌, get_elem?, drop, drop_all, dec_lt, length, arith, le→leb,
}
use prefetch.PrefetchModule.Inodes.{
  ListedInode, InodeLists, InodeWalk, new_walk, ivec_full, fill_from, ivec_fill, refilled, ivec_at,
  ivec_inode, walk_from, walk_inodes,
}
use prefetch.PrefetchModule.Inodes.Filling.{
  all_inodes, window, minus_zero, plus_one, drop_at, empty_list, fill_all_lem,
}

module _ (ivec_size : ℕ) (is_dirty : ℕ → Bool) where
  module _ (lists : InodeLists) (fits : length (all_inodes lists) ≤ ivec_size) where
    -- The window is not filled again.
    refilled_lem :
        (w : InodeWalk) (pos : ℕ)
        → w.ivec ≡ window (all_inodes lists)
        → 0 < length (all_inodes lists)
        → refilled ivec_size is_dirty lists w pos ≡ w
    unfolding refilled ivec_full
    refilled_lem w pos e h =
        let n = length (all_inodes lists) in
        let some_there : (n == 0) ≡ false = ground arith in
        let not_full : ltb (0 + n) n ≡ false = ground arith in
        let not_before : ltb pos 0 ≡ false = ground arith in
        rw (e, some_there, not_full, not_before) refl

    ivec_inode_end :
        (w : InodeWalk) (pos : ℕ)
        → w.ivec ≡ window (all_inodes lists)
        → 0 < length (all_inodes lists)
        → length (all_inodes lists) ≤ pos
        → (ivec_inode ivec_size is_dirty lists w pos).1 ≡ none
    unfolding ivec_inode ivec_at
    ivec_inode_end w pos e h k =
        rw (refilled_lem w pos e h, e, le→leb (length (all_inodes lists)) pos k) refl

    ivec_inode_at :
        (w : InodeWalk) (pos : ℕ) (i : ListedInode)
        → w.ivec ≡ window (all_inodes lists)
        → 0 < length (all_inodes lists)
        → pos < length (all_inodes lists)
        → get_elem? (all_inodes lists) pos ≡ some i
        → ((ivec_inode ivec_size is_dirty lists w pos).1 ≡ some i)
          × ((ivec_inode ivec_size is_dirty lists w pos).0.ivec ≡ window (all_inodes lists))
    unfolding ivec_inode ivec_at
    ivec_inode_at w pos i e h k g =
        let inside : leb (length (all_inodes lists)) pos ≡ false = ground arith in
        rw (refilled_lem w pos e h, e, inside)
          (ap (get_elem? (all_inodes lists)) (minus_zero pos) ∙ g, refl)

    -- The rest of an iteration.
    next_visit : ℕ → ℕ → InodeWalk → Option ListedInode → Option (List ListedInode)
    next_visit fuel pos w none = some []
    next_visit fuel pos w (some i) = elim (walk_from ivec_size is_dirty fuel lists w (pos + 1)) [
      | none ↦ none
      | some is ↦ some (i ∷ is)
    ]

    visit_step :
        (fuel pos : ℕ) (w : InodeWalk)
        → walk_from ivec_size is_dirty (suc fuel) lists w pos
          ≡ next_visit fuel pos
              (ivec_inode ivec_size is_dirty lists w pos).0
              (ivec_inode ivec_size is_dirty lists w pos).1
    unfolding walk_from next_visit
    visit_step fuel pos w =
        by_inode (ivec_inode ivec_size is_dirty lists w pos).0
          (ivec_inode ivec_size is_dirty lists w pos).1
      where
        by_inode :
            (w' : InodeWalk) (o : Option ListedInode)
            → elim o [
              | none ↦ some []
              | some i ↦ elim (walk_from ivec_size is_dirty fuel lists w' (pos + 1)) [
                | none ↦ none
                | some is ↦ some (i ∷ is)
              ]
            ]
              ≡ next_visit fuel pos w' o
        by_inode w' none = refl
        by_inode w' (some i) = refl

    visited :
        (fuel pos : ℕ) (w : InodeWalk) (i : ListedInode) (is : List ListedInode)
        → walk_from ivec_size is_dirty fuel lists w (pos + 1) ≡ some is
        → next_visit fuel pos w (some i) ≡ some (i ∷ is)
    unfolding next_visit
    visited fuel pos w i is e = rw (e, next_visit)

    walk_from_lem :
        (fuel pos : ℕ) (w : InodeWalk)
        → w.ivec ≡ window (all_inodes lists)
        → 0 < length (all_inodes lists)
        → pos ≤ length (all_inodes lists)
        → length (all_inodes lists) - pos < fuel
        → walk_from ivec_size is_dirty fuel lists w pos ≡ some (drop pos (all_inodes lists))
    unfolding walk_from next_visit
    walk_from_lem zero pos w e h le f = absurd (omega arith)
    walk_from_lem (suc fuel) pos w e h le f = elim (dec_lt pos (length (all_inodes lists))) [
      | yes k ↦
          let (i, g, split) = drop_at pos (all_inodes lists) k in
          let (a, b) = ivec_inode_at w pos i e h k g in
          let rest =
            walk_from_lem fuel (pos + 1) (ivec_inode ivec_size is_dirty lists w pos).0 b h
              (omega arith) (omega arith) in
          visit_step fuel pos w
          ∙ ap (next_visit fuel pos (ivec_inode ivec_size is_dirty lists w pos).0) a
          ∙ visited fuel pos (ivec_inode ivec_size is_dirty lists w pos).0 i _ rest
          ∙ ap some (ap (λ k. i ∷ drop k (all_inodes lists)) (plus_one pos) ∙ sym split)
      | no k ↦
          visit_step fuel pos w
          ∙ ap (next_visit fuel pos (ivec_inode ivec_size is_dirty lists w pos).0)
              (ivec_inode_end w pos e h (omega arith))
          ∙ ap some (sym (drop_all pos (all_inodes lists) (omega arith)))
    ]

    filled : InodeWalk
    filled = record new_walk { ivec = window (all_inodes lists) }

    -- The first inode that is asked for fills the window.
    first_refilled : refilled ivec_size is_dirty lists new_walk 0 ≡ filled
    unfolding refilled ivec_full ivec_fill fill_from filled
    first_refilled =
        ap (λ v. record new_walk { ivec = v }) (fill_all_lem ivec_size is_dirty lists fits)

    first_inode :
        0 < length (all_inodes lists)
        → ivec_inode ivec_size is_dirty lists new_walk 0
          ≡ ivec_inode ivec_size is_dirty lists filled 0
    unfolding ivec_inode filled
    first_inode h =
        ap (λ w. ivec_at ivec_size is_dirty w 0)
          (first_refilled ∙ sym (refilled_lem filled 0 refl h))

    first_missing :
        length (all_inodes lists) ≡ 0 → (ivec_inode ivec_size is_dirty lists new_walk 0).1 ≡ none
    unfolding ivec_inode ivec_at filled
    first_missing h =
        ap (λ w. (ivec_at ivec_size is_dirty w 0).1) first_refilled
        ∙ rw (le→leb (length (all_inodes lists)) 0 (omega arith)) refl

    -- Where no more inodes are in use than the window holds, the walk ends, and it visits each of them
    -- once, in the order of the lists.
    pub walk_inodes_lem :
        (fuel : ℕ)
        → length (all_inodes lists) < fuel
        → walk_inodes ivec_size is_dirty fuel lists ≡ some (all_inodes lists)
    unfolding walk_inodes filled next_visit
    walk_inodes_lem zero f = absurd (omega arith)
    walk_inodes_lem (suc fuel) f = elim (dec_lt 0 (length (all_inodes lists))) [
      | yes h ↦
          visit_step fuel 0 new_walk
          ∙ ap (λ r. next_visit fuel 0 r.0 r.1) (first_inode h)
          ∙ sym (visit_step fuel 0 filled)
          ∙ walk_from_lem (suc fuel) 0 filled refl h (omega arith) (omega arith)
      | no h ↦
          visit_step fuel 0 new_walk
          ∙ ap (next_visit fuel 0 (ivec_inode ivec_size is_dirty lists new_walk 0).0)
              (first_missing (omega arith))
          ∙ ap some (sym (empty_list (all_inodes lists) (omega arith)))
    ]
