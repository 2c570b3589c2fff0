-- ===== src/RemapBlocks/Splay/Split.antt =====
-- A splay brings the extent that holds the block to the root, or splits the others around the block.
use prefetch.Common.{arith, ℕ, ◌+◌, ◌≤◌, ◌<◌, ◌^◌, List, [], ◌∷◌, All}
use prefetch.RemapBlocks.Splay.{
  Extent, end_of, Tree, leaf, node, Sides, no_sides, link_left, link_right, assemble_left,
  assemble_right, assemble, turn_at, splay_loop, extent_splay,
}

-- At least one block, with a number of 32 bits behind the last.
abbrev pub IsExtent : Extent → Type 0
IsExtent e = (0 < e.len) × (e.block + e.len < 2 ^ 32)

abbrev pub InTree : (Extent → Type 0) → Tree → Type 0
InTree P leaf = Unit {0}
InTree P (node l e r) = InTree P l × P e × InTree P r

-- Extents in ascending order that do not overlap.
abbrev pub IsOrdered : Tree → Type 0
IsOrdered leaf = Unit {0}
IsOrdered (node l e r) =
    InTree (λ x. end_of x ≤ e.block) l
    × InTree (λ x. end_of e ≤ x.block) r
    × IsExtent e
    × IsOrdered l
    × IsOrdered r

-- Extents before a block, and behind it.
abbrev pub Before : ℕ → Extent → Type 0
Before b x = end_of x ≤ b

abbrev pub Behind : ℕ → Extent → Type 0
Behind b x = b < x.block

pub InTree-imp :
    {P Q : Extent → Type 0} → ((x : Extent) → P x → Q x) → (t : Tree) → InTree P t → InTree Q t
InTree-imp f leaf h = tt
InTree-imp f (node l e r) (hl, he, hr) = (InTree-imp f l hl, f e he, InTree-imp f r hr)

abbrev LeftsBefore : ℕ → List (Tree × Extent) → Type 0
LeftsBefore b lefts = All (λ (p : Tree × Extent). InTree (Before b) p.0 × Before b p.1) lefts

abbrev RightsBehind : ℕ → List (Extent × Tree) → Type 0
RightsBehind b rights = All (λ (p : Extent × Tree). Behind b p.0 × InTree (Behind b) p.1) rights

assemble_left-Before :
    (b : ℕ) (lefts : List (Tree × Extent)) (t : Tree)
    → LeftsBefore b lefts
    → InTree (Before b) t
    → InTree (Before b) (assemble_left lefts t)
unfolding assemble_left
assemble_left-Before b [] t h k = k
assemble_left-Before b ((l, e) ∷ lefts) t ((hl, he), h) k =
    assemble_left-Before b lefts (node l e t) h (hl, he, k)

assemble_right-Behind :
    (b : ℕ) (rights : List (Extent × Tree)) (t : Tree)
    → RightsBehind b rights
    → InTree (Behind b) t
    → InTree (Behind b) (assemble_right rights t)
unfolding assemble_right
assemble_right-Behind b [] t h k = k
assemble_right-Behind b ((e, r) ∷ rights) t ((he, hr), h) k =
    assemble_right-Behind b rights (node t e r) h (k, he, hr)

-- The block stands in the root, or the root is the last extent before it with nothing between,
-- or the first behind it.
abbrev pub IsSplit : ℕ → Tree → Type 0
IsSplit b leaf = Unit {0}
IsSplit b (node l e r) = InTree (Before b) l × InTree (Behind b) r

-- Before an extent, and so before each block from its start on; behind it in the same way.
pub low :
    (b : ℕ) (e : Extent) (l : Tree)
    → IsExtent e
    → e.block ≤ b
    → InTree (λ x. end_of x ≤ e.block) l
    → InTree (Before b) l
low b e l h k = InTree-imp (λ x p. omega arith) l

pub high :
    (b : ℕ) (e : Extent) (r : Tree)
    → IsExtent e
    → b < e.block + e.len
    → InTree (λ x. end_of e ≤ x.block) r
    → InTree (Behind b) r
high b e r h k = InTree-imp (λ x p. omega arith) r

assemble-IsSplit :
    (b : ℕ) (s : Sides) (l : Tree) (e : Extent) (r : Tree)
    → LeftsBefore b s.lefts
    → RightsBehind b s.rights
    → InTree (Before b) l
    → InTree (Behind b) r
    → IsSplit b (assemble s l e r)
unfolding assemble
assemble-IsSplit b s l e r h k p q =
    (assemble_left-Before b s.lefts l h p, assemble_right-Behind b s.rights r k q)

-- The loop may come to no node, and then ends with `stop`.
abbrev StopFits : ℕ → Tree → Tree → Type 0
StopFits b leaf stop = IsSplit b stop
StopFits b (node l e r) stop = Unit {0}

stop_left :
    (b : ℕ) (s : Sides) (a : Tree) (y : Extent) (r : Tree)
    → LeftsBefore b s.lefts
    → RightsBehind b s.rights
    → InTree (Behind b) r
    → StopFits b a (assemble s a y r)
stop_left b s leaf y r h k q = assemble-IsSplit b s leaf y r h k tt q
stop_left b s (node l e r') y r h k q = tt

stop_right :
    (b : ℕ) (s : Sides) (l : Tree) (y : Extent) (c : Tree)
    → LeftsBefore b s.lefts
    → RightsBehind b s.rights
    → InTree (Before b) l
    → StopFits b c (assemble s l y c)
stop_right b s l y leaf h k q = assemble-IsSplit b s l y leaf h k q tt
stop_right b s l y (node l' e r) h k q = tt

splay_loop-IsSplit :
    (b : ℕ) (t stop : Tree) (s : Sides)
    → IsOrdered t
    → LeftsBefore b s.lefts
    → RightsBehind b s.rights
    → StopFits b t stop
    → IsSplit b (splay_loop b t stop s)
unfolding splay_loop turn_at
splay_loop-IsSplit b leaf stop s o h k p = p
splay_loop-IsSplit b (node leaf e leaf) stop s o h k p = assemble-IsSplit b s leaf e leaf h k tt tt
splay_loop-IsSplit b (node (node a y c) e leaf) stop s o h k p = ground (
  arith,
  low b e (node a y c),
  low b y a,
  high b y c,
  assemble-IsSplit b s (node a y c) e leaf,
  stop_left b s a y (node c e leaf),
  splay_loop-IsSplit b a (assemble s a y (node c e leaf)) (link_right y (node c e leaf) s),
  splay_loop-IsSplit b (node a y c) (assemble s (node a y c) e leaf) (link_right e leaf s),
)
splay_loop-IsSplit b (node leaf e (node a y c)) stop s o h k p = ground (
  arith,
  high b e (node a y c),
  low b y a,
  high b y c,
  assemble-IsSplit b s leaf e (node a y c),
  stop_right b s (node leaf e a) y c,
  splay_loop-IsSplit b c (assemble s (node leaf e a) y c) (link_left (node leaf e a) y s),
  splay_loop-IsSplit b (node a y c) (assemble s leaf e (node a y c)) (link_left leaf e s),
)
splay_loop-IsSplit b (node (node a y c) e (node a' y' c')) stop s o h k p = ground (
  arith,
  low b e (node a y c),
  high b e (node a' y' c'),
  low b y a,
  high b y c,
  low b y' a',
  high b y' c',
  assemble-IsSplit b s (node a y c) e (node a' y' c'),
  stop_left b s a y (node c e (node a' y' c')),
  stop_right b s (node (node a y c) e a') y' c',
  splay_loop-IsSplit b a (assemble s a y (node c e (node a' y' c')))
      (link_right y (node c e (node a' y' c')) s),
  splay_loop-IsSplit b (node a y c) (assemble s (node a y c) e (node a' y' c'))
      (link_right e (node a' y' c') s),
  splay_loop-IsSplit b c' (assemble s (node (node a y c) e a') y' c')
      (link_left (node (node a y c) e a') y' s),
  splay_loop-IsSplit b (node a' y' c') (assemble s (node a y c) e (node a' y' c'))
      (link_left (node a y c) e s),
)

pub extent_splay-IsSplit : (b : ℕ) (t : Tree) → IsOrdered t → IsSplit b (extent_splay b t)
unfolding extent_splay
extent_splay-IsSplit b leaf o = tt
extent_splay-IsSplit b (node l e r) o =
    splay_loop-IsSplit b (node l e r) (node l e r) no_sides o tt tt tt
