-- ===== src/MoveBlocks/Estimate/Walk.antt =====
-- The blocks of a range counted one by one: each data block, and each block of the indirection where
-- it is met first.
use prefetch.Common.{
  ℕ, zero, suc, ◌+◌, ◌-◌, ◌/◌, ◌≤◌, ◌<◌, ◌≡◌, ◌⊎◌, Bool, false, ◌&&◌, ◌||◌, arith, ltb, leb, ◌==◌,
  if◌then◌else◌, List, [], ◌∷◌,
}

-- A block of the indirection: its depth and its number among those of that depth.
pub record MetaBlock : Type 0 where
  pub depth : ℕ
  pub number : ℕ

abbrev meta : ℕ → ℕ → MetaBlock
meta d n = record { depth = d; number = n }

-- The blocks of the indirection on the way to a data block, from the inode down, for the blocks that
-- two levels reach.
way_to : ℕ → ℕ → List MetaBlock
way_to addr_per_block block =
    if ltb block 12
    then []
    else if ltb block (12 + addr_per_block)
    then meta 1 0 ∷ []
    else meta 2 0 ∷ meta 1 (1 + (block - (12 + addr_per_block)) / addr_per_block) ∷ []

is_on : MetaBlock → List MetaBlock → Bool
is_on m [] = false
is_on m (w ∷ way) = (m.depth == w.depth && m.number == w.number) || is_on m way

-- How many blocks of the second way are not on the first.
fresh : List MetaBlock → List MetaBlock → ℕ
fresh before [] = 0
fresh before (m ∷ way) = (if is_on m before then 0 else 1) + fresh before way

-- The blocks of the `count` data blocks from `start` on.
unfoldable pub walk : ℕ → ℕ → ℕ → ℕ
unfolding way_to fresh is_on
walk apb start zero = 0
walk apb start (suc zero) = 1 + fresh [] (way_to apb start)
walk apb start (suc (suc n)) =
    walk apb start (suc n) + 1 + fresh (way_to apb (start + n)) (way_to apb (start + n + 1))

-- The same number in closed form, for the range from `s` to `e`.
unfoldable pub closed : ℕ → ℕ → ℕ → ℕ
closed apb s e =
    e
    + 1
    - s
    + (if ltb s (12 + apb) && leb 12 e then 1 else 0)
    + (if leb (12 + apb) e then 2 + (e - (12 + apb)) / apb - (s - (12 + apb)) / apb else 0)

div_step : (x a : ℕ) → 0 < a → ((x + 1) / a ≡ x / a) ⊎ ((x + 1) / a ≡ x / a + 1)
div_step x a h = grind arith

pub div_mono : (x y a : ℕ) → 0 < a → x ≤ y → x / a ≤ y / a
div_mono x y a h k = grind arith

closed_step :
    (apb s e : ℕ)
    → 0 < apb
    → s ≤ e
    → closed apb s (e + 1) ≡ closed apb s e + 1 + fresh (way_to apb e) (way_to apb (e + 1))
unfolding closed way_to fresh is_on
closed_step apb s e h k =
    ground
      (arith, div_step (e - (12 + apb)) apb h, div_mono (s - (12 + apb)) (e - (12 + apb)) apb h)

closed_start : (apb s : ℕ) → 1 + fresh [] (way_to apb s) ≡ closed apb s (s + 0)
unfolding closed way_to fresh is_on
closed_start apb s = ground arith

pub walk-closed : (apb s n : ℕ) → 0 < apb → walk apb s (suc n) ≡ closed apb s (s + n)
unfolding walk
walk-closed apb s zero h = closed_start apb s
walk-closed apb s (suc n) h =
    let step = closed_step apb s (s + n) h (omega arith) in
    let before = walk-closed apb s n h in grind arith
