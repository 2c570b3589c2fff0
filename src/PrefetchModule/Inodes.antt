-- ===== src/PrefetchModule/Inodes.antt =====
-- The walk over the kernel's lists of inodes in prefetch.c: the window `ivec` onto the lists, which is
-- filled again when the walk leaves it, and the cursor `icur`. The lists do not change during a walk,
-- which holds `inode_lock`, and hold fewer than 2^32 inodes.
pub mod Filling
pub mod Laws
mod Tests
use prefetch.Common.{
  ℕ, zero, suc, ◌+◌, ◌-◌, Bool, true, false, not, ◌&&◌, ◌||◌, ltb, leb, ◌==◌, if◌then◌else◌, Option,
  none, some, List, [], ◌∷◌, ◌++◌, get_elem?,
}

-- What the walk reads of an inode; `number` tells inodes apart.
pub record ListedInode : Type 0 where
  pub number : ℕ
  pub i_count : ℕ
  pub i_mapping : Bool
  pub i_state : ℕ

-- The lists `s_dirty` and `s_io` of all super blocks one after the other, `inode_in_use` and
-- `inode_unused`.
pub record InodeLists : Type 0 where
  pub of_super_blocks : List ListedInode
  pub in_use : List ListedInode
  pub unused : List ListedInode

-- `ivec`, with `inodes` up to `size`, and `icur`.
pub record Window : Type 0 where
  pub cursor : ℕ
  pub origin : ℕ
  pub size : ℕ
  pub inodes : List ListedInode

pub record InodeWalk : Type 0 where
  pub ivec : Window
  pub icur_pos : ℕ
  pub icur_state : ℕ
  pub icur_inode : Option ListedInode

-- A new session, which `kzalloc` has cleared.
abbrev pub new_walk : InodeWalk
new_walk = record {
  ivec = record { cursor = 0; origin = 0; size = 0; inodes = [] };
  icur_pos = 0;
  icur_state = 0;
  icur_inode = none;
}

unfoldable pub ivec_full : Window → Bool
ivec_full v = (v.cursor == 0) || ltb (v.origin + v.size) v.cursor

unfoldable pub is_pushed : ListedInode → Bool
is_pushed i = not (i.i_count == 0) && i.i_mapping

-- The rest of a list behind an inode, where the loop goes on from a saved inode.
unfoldable pub behind : ℕ → List ListedInode → List ListedInode
behind number [] = []
behind number (i ∷ is) = if i.number == number then is else behind number is

unfoldable pub store_inode : Window → ListedInode → Window
store_inode v i =
    if ltb v.origin v.cursor then record v { size = v.size + 1; inodes = v.inodes ++ i ∷ [] } else v

-- `IVEC_SIZE` is `ivec_size`; `is_dirty` tests a state for `I_DIRTY`.
module _ (ivec_size : ℕ) (is_dirty : ℕ → Bool) where
  -- `ivec_push` of each inode of a list, up to the first that finds the window full.
  unfoldable pub ivec_push : Window → List ListedInode → Window
  ivec_push v [] = v
  ivec_push v (i ∷ is) =
      let counted = record v { cursor = v.cursor + 1 } in
      let unpushed = ivec_push v is in
      let stored = ivec_push (store_inode counted i) is in
      if not (is_pushed i) then unpushed else if leb ivec_size v.size then counted else stored

  unfoldable pub can_continue : InodeWalk → ℕ → ListedInode → Bool
  can_continue w pos i =
      leb w.icur_pos pos && (not (is_dirty w.icur_state) && (w.icur_state == i.i_state))

  unfoldable pub fill_all : InodeLists → ℕ → Window
  fill_all lists pos =
      ivec_push (record { cursor = 0; origin = pos; size = 0; inodes = [] })
        (lists.of_super_blocks ++ (lists.in_use ++ lists.unused))

  unfoldable pub fill_behind : InodeLists → InodeWalk → ℕ → ListedInode → Window
  fill_behind lists w pos i =
      ivec_push (record { cursor = w.icur_pos; origin = pos; size = 0; inodes = [] })
        (behind i.number lists.in_use ++ lists.unused)

  unfoldable pub fill_from : InodeLists → InodeWalk → ℕ → Option ListedInode → Window
  fill_from lists w pos none = fill_all lists pos
  fill_from lists w pos (some i) =
      if can_continue w pos i then fill_behind lists w pos i else fill_all lists pos

  unfoldable pub ivec_fill : InodeLists → InodeWalk → ℕ → InodeWalk
  ivec_fill lists w pos = record w { ivec = fill_from lists w pos w.icur_inode }

  unfoldable pub refilled : InodeLists → InodeWalk → ℕ → InodeWalk
  refilled lists w pos =
      let v = w.ivec in
      if (ivec_full v && leb (v.origin + v.size) pos) || ltb pos v.origin
      then ivec_fill lists w pos
      else w

  -- The end of `ivec_inode`; `none` is NULL.
  unfoldable pub ivec_at : InodeWalk → ℕ → InodeWalk × Option ListedInode
  ivec_at w pos =
      let inode = get_elem? w.ivec.inodes (pos - w.ivec.origin) in
      if leb w.ivec.cursor pos
      then (w, none)
      else (record w { icur_pos = pos; icur_inode = inode }, inode)

  unfoldable pub ivec_inode : InodeLists → InodeWalk → ℕ → InodeWalk × Option ListedInode
  ivec_inode lists w pos = ivec_at (refilled lists w pos) pos

  -- The inodes that the loop of `walk_pages` shows from position `pos` on; `none` means that the fuel
  -- ran out.
  unfoldable pub walk_from : ℕ → InodeLists → InodeWalk → ℕ → Option (List ListedInode)
  walk_from zero lists w pos = none
  walk_from (suc fuel) lists w pos =
      let (w', inode) = ivec_inode lists w pos in
      elim inode [
        | none ↦ some []
        | some i ↦ elim (walk_from fuel lists w' (pos + 1)) [
          | none ↦ none
          | some is ↦ some (i ∷ is)
        ]
      ]

  unfoldable pub walk_inodes : ℕ → InodeLists → Option (List ListedInode)
  walk_inodes fuel lists = walk_from fuel lists new_walk 0
