-- ===== src/RemapBlocks/Splay/Order.antt =====
-- A splay leaves the order of the extents as it is.
use mathlib.Core.List.{append-nil, append_assoc}
use prefetch.Common.{arith, ℕ, ◌≡◌, refl, sym, ◌∙◌, List, [], ◌∷◌, ◌++◌}
use prefetch.RemapBlocks.Splay.{
  Extent, Tree, leaf, node, Sides, no_sides, link_left, link_right, assemble_left, assemble_right,
  assemble, splay_loop, extent_splay,
}

-- The extents from left to right.
unfoldable pub in_order : Tree → List Extent
in_order leaf = []
in_order (node l e r) = in_order l ++ e ∷ in_order r

unfoldable pub before : List (Tree × Extent) → List Extent
before [] = []
before ((l, e) ∷ lefts) = before lefts ++ (in_order l ++ e ∷ [])

unfoldable pub after : List (Extent × Tree) → List Extent
after [] = []
after ((e, r) ∷ rights) = e ∷ (in_order r ++ after rights)

in_order-assemble_left :
    (lefts : List (Tree × Extent)) (t : Tree)
    → in_order (assemble_left lefts t) ≡ before lefts ++ in_order t
unfolding in_order assemble_left before
in_order-assemble_left [] t = refl
in_order-assemble_left ((l, e) ∷ lefts) t =
    rw (in_order-assemble_left lefts (node l e t)) (simp append_assoc)

in_order-assemble_right :
    (rights : List (Extent × Tree)) (t : Tree)
    → in_order (assemble_right rights t) ≡ in_order t ++ after rights
unfolding in_order assemble_right after
in_order-assemble_right [] t = sym (append-nil (in_order t))
in_order-assemble_right ((e, r) ∷ rights) t =
    rw (in_order-assemble_right rights (node t e r)) (simp append_assoc)

-- The extents of the sides and the tree between them.
abbrev pub whole : Sides → List Extent → List Extent
whole s xs = before s.lefts ++ (xs ++ after s.rights)

pub in_order-assemble :
    (s : Sides) (l : Tree) (e : Extent) (r : Tree)
    → in_order (assemble s l e r) ≡ whole s (in_order (node l e r))
unfolding in_order assemble
in_order-assemble s l e r = simp (in_order-assemble_left, in_order-assemble_right, append_assoc)

whole-link_right :
    (s : Sides) (l : Tree) (e : Extent) (r : Tree)
    → whole (link_right e r s) (in_order l) ≡ whole s (in_order (node l e r))
unfolding in_order after
whole-link_right s l e r = simp append_assoc

whole-link_left :
    (s : Sides) (l : Tree) (e : Extent) (r : Tree)
    → whole (link_left l e s) (in_order r) ≡ whole s (in_order (node l e r))
unfolding in_order before
whole-link_left s l e r = simp append_assoc

rotated_right :
    (a : Tree) (y : Extent) (c : Tree) (e : Extent) (r : Tree)
    → in_order (node a y (node c e r)) ≡ in_order (node (node a y c) e r)
unfolding in_order
rotated_right a y c e r = simp append_assoc

in_order-splay_loop :
    (b : ℕ) (t stop : Tree) (s : Sides)
    → in_order stop ≡ whole s (in_order t)
    → in_order (splay_loop b t stop s) ≡ whole s (in_order t)
unfolding splay_loop
in_order-splay_loop b leaf stop s h = h
in_order-splay_loop b (node leaf e leaf) stop s h = in_order-assemble s leaf e leaf
in_order-splay_loop b (node (node a y c) e leaf) stop s h = ground (
  arith,
  in_order-assemble s (node a y c) e leaf,
  in_order-assemble s a y (node c e leaf),
  whole-link_right s a y (node c e leaf),
  whole-link_right s (node a y c) e leaf,
  rotated_right a y c e leaf,
  in_order-splay_loop b a (assemble s a y (node c e leaf)) (link_right y (node c e leaf) s),
  in_order-splay_loop b (node a y c) (assemble s (node a y c) e leaf) (link_right e leaf s),
)
in_order-splay_loop b (node leaf e (node a y c)) stop s h = ground (
  arith,
  in_order-assemble s leaf e (node a y c),
  in_order-assemble s (node leaf e a) y c,
  whole-link_left s (node leaf e a) y c,
  whole-link_left s leaf e (node a y c),
  rotated_right leaf e a y c,
  in_order-splay_loop b c (assemble s (node leaf e a) y c) (link_left (node leaf e a) y s),
  in_order-splay_loop b (node a y c) (assemble s leaf e (node a y c)) (link_left leaf e s),
)
in_order-splay_loop b (node (node a y c) e (node a' y' c')) stop s h = ground (
  arith,
  in_order-assemble s (node a y c) e (node a' y' c'),
  in_order-assemble s a y (node c e (node a' y' c')),
  whole-link_right s a y (node c e (node a' y' c')),
  whole-link_right s (node a y c) e (node a' y' c'),
  rotated_right a y c e (node a' y' c'),
  in_order-splay_loop b a (assemble s a y (node c e (node a' y' c')))
      (link_right y (node c e (node a' y' c')) s),
  in_order-splay_loop b (node a y c) (assemble s (node a y c) e (node a' y' c'))
      (link_right e (node a' y' c') s),
  in_order-assemble s (node (node a y c) e a') y' c',
  whole-link_left s (node (node a y c) e a') y' c',
  whole-link_left s (node a y c) e (node a' y' c'),
  rotated_right (node a y c) e a' y' c',
  in_order-splay_loop b c' (assemble s (node (node a y c) e a') y' c')
      (link_left (node (node a y c) e a') y' s),
  in_order-splay_loop b (node a' y' c') (assemble s (node a y c) e (node a' y' c'))
      (link_left (node a y c) e s),
)

pub in_order-extent_splay : (b : ℕ) (t : Tree) → in_order (extent_splay b t) ≡ in_order t
unfolding extent_splay before after
in_order-extent_splay b leaf = refl
in_order-extent_splay b (node l e r) =
    let t = node l e r in
    let same : whole no_sides (in_order t) ≡ in_order t = append-nil (in_order t) in
    in_order-splay_loop b t t no_sides (sym same) ∙ same
