-- ===== src/RemapBlocks/Load/Primed.antt =====
-- Two splays for a block between the root and the next extent behind it.
use prefetch.Common.{arith, ℕ, ◌≡◌, refl, subst, ◌∷◌}
use prefetch.RemapBlocks.Splay.{
  Extent, Tree, leaf, node, Sides, no_sides, link_left, assemble, turn_at, splay_loop, extent_splay,
}
use prefetch.RemapBlocks.Splay.Split.{InTree, IsOrdered, Before, Behind}

-- The root ends before the block, and the next extent is behind it: a splay for the block brings an
-- extent behind it to the root.
abbrev pub IsPrimed : ℕ → Tree → Type 0
IsPrimed b leaf = ⊥
IsPrimed b (node l e leaf) = ⊥
IsPrimed b (node l e (node l' e' r')) = Before b e × InTree (Behind b) (node l' e' r')

abbrev pub IsRootBehind : ℕ → Tree → Type 0
IsRootBehind b leaf = Unit {0}
IsRootBehind b (node l e r) = Behind b e

splay_loop-IsRootBehind :
    (b : ℕ) (t stop : Tree) (s : Sides)
    → InTree (Behind b) t
    → IsRootBehind b stop
    → IsRootBehind b (splay_loop b t stop s)
unfolding splay_loop assemble turn_at
splay_loop-IsRootBehind b leaf stop s h k = k
splay_loop-IsRootBehind b (node leaf e leaf) stop s h k = ground arith
splay_loop-IsRootBehind b (node (node a y c) e leaf) stop s h k = ground (
  arith,
  splay_loop-IsRootBehind b a (assemble s a y (node c e leaf))
      (record s { rights = (y, node c e leaf) ∷ s.rights }),
  splay_loop-IsRootBehind b (node a y c) (assemble s (node a y c) e leaf)
      (record s { rights = (e, leaf) ∷ s.rights }),
)
splay_loop-IsRootBehind b (node leaf e (node a y c)) stop s h k = ground arith
splay_loop-IsRootBehind b (node (node a y c) e (node a' y' c')) stop s h k = ground (
  arith,
  splay_loop-IsRootBehind b a (assemble s a y (node c e (node a' y' c')))
      (record s { rights = (y, node c e (node a' y' c')) ∷ s.rights }),
  splay_loop-IsRootBehind b (node a y c) (assemble s (node a y c) e (node a' y' c'))
      (record s { rights = (e, node a' y' c') ∷ s.rights }),
)

-- At a node the loop does not need `stop`.
splay_loop_stop :
    (b : ℕ) (l : Tree) (e : Extent) (r stop stop' : Tree) (s : Sides)
    → splay_loop b (node l e r) stop s ≡ splay_loop b (node l e r) stop' s
unfolding splay_loop
splay_loop_stop b leaf e leaf stop stop' s = refl
splay_loop_stop b (node a y c) e leaf stop stop' s = refl
splay_loop_stop b leaf e (node a y c) stop stop' s = refl
splay_loop_stop b (node a y c) e (node a' y' c') stop stop' s = refl

from_Behind :
    (b : ℕ) (l : Tree) (e : Extent) (r stop : Tree) (s : Sides)
    → InTree (Behind b) (node l e r)
    → IsRootBehind b (splay_loop b (node l e r) stop s)
from_Behind b l e r stop s h =
    subst (IsRootBehind b) (splay_loop_stop b l e r leaf stop s)
      (splay_loop-IsRootBehind b (node l e r) leaf s h tt)

pub primed_splay :
    (b : ℕ) (t : Tree) → IsOrdered t → IsPrimed b t → IsRootBehind b (extent_splay b t)
unfolding extent_splay splay_loop turn_at
primed_splay b leaf o h = absurd h
primed_splay b (node l e leaf) o h = absurd h
primed_splay b (node leaf e (node a y c)) o (first, behind) = ground (
  arith,
  from_Behind b a y c (assemble no_sides leaf e (node a y c)) (link_left leaf e no_sides) behind,
)
primed_splay b (node (node l' e' r') e (node a y c)) o (first, behind) = ground (
  arith,
  from_Behind b a y c (assemble no_sides (node l' e' r') e (node a y c))
      (link_left (node l' e' r') e no_sides) behind,
)
