-- ===== src/RemapBlocks/Splay.antt =====
-- The splay tree of extents: `extent_splay` and `extent_insert`. The tree's nodes are the extents, and
-- of an extent only its tree pointers change after its insertion.
pub mod Order
pub mod Split
pub mod Ascending
pub mod Insert
use prefetch.Common.{
  ℕ, Bool, true, false, ltb, leb, if◌then◌else◌, Option, none, some, List, [], ◌∷◌, ◌++◌, ℤ, add32,
}

-- `struct remap_extent`
pub record Extent : Type 0 where
  pub block : ℕ
  pub len : ℕ
  pub offset : ℤ
  pub chunk_offset : ℕ

-- `block+len` in 32 bits
abbrev pub end_of : Extent → ℕ
end_of e = add32 e.block e.len

pub data Tree : Type 0 where
  leaf : Tree
  node : Tree → Extent → Tree → Tree

-- The trees `l` and `r` that grow while the loop runs: the latest node first, with the subtree that it
-- keeps. The pointer of the latest node is filled in at the end.
pub record Sides : Type 0 where
  pub lefts : List (Tree × Extent)
  pub rights : List (Extent × Tree)

abbrev pub no_sides : Sides
no_sides = record { lefts = []; rights = [] }

abbrev pub link_left : Tree → Extent → Sides → Sides
link_left l e s = record s { lefts = (l, e) ∷ s.lefts }

abbrev pub link_right : Extent → Tree → Sides → Sides
link_right e r s = record s { rights = (e, r) ∷ s.rights }

unfoldable pub assemble_left : List (Tree × Extent) → Tree → Tree
assemble_left [] t = t
assemble_left ((l, e) ∷ lefts) t = assemble_left lefts (node l e t)

unfoldable pub assemble_right : List (Extent × Tree) → Tree → Tree
assemble_right [] t = t
assemble_right ((e, r) ∷ rights) t = assemble_right rights (node t e r)

-- `assemble`
unfoldable pub assemble : Sides → Tree → Extent → Tree → Tree
assemble s l e r = node (assemble_left s.lefts l) e (assemble_right s.rights r)

-- The way that the loop takes at a node: to a child, which may be rotated up first, or no further.
pub data Turn : Type 0 where
  left : Turn
  right : Turn
  here : Turn

unfoldable pub turn_at : ℕ → Extent → Turn
turn_at blocknr e =
    if ltb blocknr e.block then left else if leb (end_of e) blocknr then right else here

-- The loop at a tree. It ends with `stop` if it has come to no node: at the node before.
unfoldable pub splay_loop : ℕ → Tree → Tree → Sides → Tree
splay_loop blocknr leaf stop s = stop
splay_loop blocknr (node leaf e leaf) stop s = assemble s leaf e leaf
splay_loop blocknr (node (node a y c) e leaf) stop s = elim (turn_at blocknr e) [
  | left ↦ elim (ltb blocknr y.block) [
    | true ↦ splay_loop blocknr a (assemble s a y (node c e leaf)) (link_right y (node c e leaf) s)
    | false ↦ splay_loop blocknr (node a y c) (assemble s (node a y c) e leaf) (link_right e leaf s)
  ]
  | right ↦ assemble s (node a y c) e leaf
  | here ↦ assemble s (node a y c) e leaf
]
splay_loop blocknr (node leaf e (node a y c)) stop s = elim (turn_at blocknr e) [
  | left ↦ assemble s leaf e (node a y c)
  | right ↦ elim (leb (end_of y) blocknr) [
    | true ↦ splay_loop blocknr c (assemble s (node leaf e a) y c) (link_left (node leaf e a) y s)
    | false ↦ splay_loop blocknr (node a y c) (assemble s leaf e (node a y c)) (link_left leaf e s)
  ]
  | here ↦ assemble s leaf e (node a y c)
]
splay_loop blocknr (node (node a y c) e (node a' y' c')) stop s = elim (turn_at blocknr e) [
  | left ↦ elim (ltb blocknr y.block) [
    | true ↦
        splay_loop blocknr a (assemble s a y (node c e (node a' y' c')))
          (link_right y (node c e (node a' y' c')) s)
    | false ↦
        splay_loop blocknr (node a y c) (assemble s (node a y c) e (node a' y' c'))
          (link_right e (node a' y' c') s)
  ]
  | right ↦ elim (leb (end_of y') blocknr) [
    | true ↦
        splay_loop blocknr c' (assemble s (node (node a y c) e a') y' c')
          (link_left (node (node a y c) e a') y' s)
    | false ↦
        splay_loop blocknr (node a' y' c') (assemble s (node a y c) e (node a' y' c'))
          (link_left (node a y c) e s)
  ]
  | here ↦ assemble s (node a y c) e (node a' y' c')
]

-- A tree without a node is NULL.
unfoldable pub extent_splay : ℕ → Tree → Tree
extent_splay blocknr leaf = leaf
extent_splay blocknr (node l e r) = splay_loop blocknr (node l e r) (node l e r) no_sides

-- `new` at the root of a tree that was splayed for it; none is the exit.
unfoldable pub insert_at : Extent → Tree → Option Tree
insert_at new leaf = some (node leaf new leaf)
insert_at new (node l e r) =
    if ltb (end_of new) e.block
    then some (node l new (node leaf e r))
    else if leb (end_of e) new.block
    then some (node (node l e leaf) new r)
    else none

unfoldable pub extent_insert : Extent → Tree → Option Tree
extent_insert new t = insert_at new (extent_splay new.block t)
