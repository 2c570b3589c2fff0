-- ===== src/PrefetchModule/Inodes/Filling.antt =====
-- The window that one scan of the lists fills.
use prefetch.Common.{
  ℕ, zero, suc, ◌+◌, ◌-◌, ◌≤◌, ◌<◌, ◌≡◌, refl, sym, ap, ◌∙◌, Bool, true, false, leb, if◌then◌else◌,
  some, List, [], ◌∷◌, ◌++◌, get_elem?, drop, length, length-append, arith, Bool-cases, inl, inr,
  lt→ltb,
}
use mathlib.Core.List.{append-nil, append_assoc}
use prefetch.PrefetchModule.Inodes.{
  ListedInode, InodeLists, Window, is_pushed, store_inode, ivec_push, fill_all,
}

-- The inodes that are in use and have a mapping.
unfoldable pub in_use_of : List ListedInode → List ListedInode
in_use_of [] = []
in_use_of (i ∷ is) = if is_pushed i then i ∷ in_use_of is else in_use_of is

abbrev pub all_inodes : InodeLists → List ListedInode
all_inodes lists = in_use_of (lists.of_super_blocks ++ (lists.in_use ++ lists.unused))

-- A window that starts at the first inode and holds all that were pushed.
abbrev pub window : List ListedInode → Window
window is = record { cursor = length is; origin = 0; size = length is; inodes = is }

push_step :
    (is : List ListedInode) (i : ListedInode)
    → store_inode (record { cursor = length is + 1; origin = 0; size = length is; inodes = is }) i
      ≡ window (is ++ i ∷ [])
unfolding store_inode
push_step is i =
    let len : length is + 1 ≡ length (is ++ i ∷ []) =
      omega (arith, length-append {0} is (i ∷ [])) in
    rw (lt→ltb 0 (length is + 1) (omega arith))
      (ap (λ n. record { cursor = n; origin = 0; size = n; inodes = is ++ i ∷ [] }) len)

pub empty_list : (is : List ListedInode) → length is ≡ 0 → is ≡ []
empty_list [] h = refl
empty_list (i ∷ is) h = absurd (omega arith)

pub minus_zero : (n : ℕ) → n - 0 ≡ n
minus_zero n = omega arith

pub plus_one : (n : ℕ) → n + 1 ≡ suc n
plus_one n = omega arith

pub drop_at :
    (pos : ℕ) (is : List ListedInode)
    → pos < length is
    → (i : ListedInode) × (get_elem? is pos ≡ some i) × (drop pos is ≡ i ∷ drop (suc pos) is)
drop_at pos [] h = absurd (omega arith)
drop_at zero (i ∷ is) h = (i, refl, refl)
drop_at (suc pos) (i ∷ is) h = drop_at pos is (omega arith)

in_use_of-pushed :
    (j : ListedInode) (js : List ListedInode)
    → is_pushed j ≡ true
    → in_use_of (j ∷ js) ≡ j ∷ in_use_of js
unfolding in_use_of
in_use_of-pushed j js h = rw h

in_use_of-unpushed :
    (j : ListedInode) (js : List ListedInode)
    → is_pushed j ≡ false
    → in_use_of (j ∷ js) ≡ in_use_of js
unfolding in_use_of
in_use_of-unpushed j js h = rw h

module _ (ivec_size : ℕ) (is_dirty : ℕ → Bool) where
  ivec_push_lem :
      (is js : List ListedInode)
      → length is + length (in_use_of js) ≤ ivec_size
      → ivec_push ivec_size is_dirty (window is) js ≡ window (is ++ in_use_of js)
  unfolding ivec_push in_use_of
  ivec_push_lem is [] h = ap window (sym (append-nil is))
  ivec_push_lem is (j ∷ js) h = elim (Bool-cases (is_pushed j)) [
    | inl pushed ↦
        let split : in_use_of (j ∷ js) ≡ j ∷ in_use_of js = in_use_of-pushed j js pushed in
        let count = ap length split in
        let room : leb ivec_size (length is) ≡ false = ground (arith, count, h) in
        let more = length-append {0} is (j ∷ []) in
        rw (pushed, room)
          (ap (λ v. ivec_push ivec_size is_dirty v js) (push_step is j)
            ∙ ivec_push_lem (is ++ j ∷ []) js (omega (arith, count, more, h))
            ∙ ap window (append_assoc is (j ∷ []) (in_use_of js)))
    | inr not_pushed ↦
        let count = ap length (in_use_of-unpushed j js not_pushed) in
        rw not_pushed (ivec_push_lem is js (omega (arith, count, h)))
  ]

  module _ (lists : InodeLists) (fits : length (all_inodes lists) ≤ ivec_size) where
    pub fill_all_lem : fill_all ivec_size is_dirty lists 0 ≡ window (all_inodes lists)
    unfolding fill_all
    fill_all_lem =
        ivec_push_lem [] (lists.of_super_blocks ++ (lists.in_use ++ lists.unused))
          (omega (arith, fits))
