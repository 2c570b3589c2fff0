-- ===== src/RemapBlocks/Splay/Ascending.antt =====
-- An ordered tree is one whose extents ascend from left to right; so a splay keeps it ordered.
use prefetch.Common.{arith, ℕ, ◌≤◌, sym, subst, List, [], ◌∷◌, ◌++◌, All, All-append}
use prefetch.RemapBlocks.Splay.{Extent, end_of, Tree, leaf, node, extent_splay}
use prefetch.RemapBlocks.Splay.Order.{in_order, in_order-extent_splay}
use prefetch.RemapBlocks.Splay.Split.{IsExtent, InTree, IsOrdered}

-- Each extent ends before the later ones start.
abbrev pub IsAscending : List Extent → Type 0
IsAscending [] = Unit {0}
IsAscending (x ∷ xs) = IsExtent x × All (λ y. end_of x ≤ y.block) xs × IsAscending xs

pub All-split : (P : Extent → Type 0) (xs ys : List Extent) → All P (xs ++ ys) → All P xs × All P ys
All-split P [] ys h = (tt, h)
All-split P (x ∷ xs) ys (hx, h) = let (p, q) = All-split P xs ys h in ((hx, p), q)

pub All-imp :
    {P Q : Extent → Type 0} → ((x : Extent) → P x → Q x) → (xs : List Extent) → All P xs → All Q xs
All-imp f [] h = tt
All-imp f (x ∷ xs) (hx, h) = (f x hx, All-imp f xs h)

pub All-in_order : (P : Extent → Type 0) (t : Tree) → InTree P t → All P (in_order t)
unfolding in_order
All-in_order P leaf h = tt
All-in_order P (node l e r) (hl, he, hr) =
    All-append P (in_order l) (e ∷ in_order r) (All-in_order P l hl) (he, All-in_order P r hr)

pub InTree-in_order : (P : Extent → Type 0) (t : Tree) → All P (in_order t) → InTree P t
unfolding in_order
InTree-in_order P leaf h = tt
InTree-in_order P (node l e r) h =
    let (p, q) = All-split P (in_order l) (e ∷ in_order r) h in
    (InTree-in_order P l p, q.0, InTree-in_order P r q.1)

-- An extent between extents before it and behind it.
pub IsAscending-middle :
    (xs : List Extent) (e : Extent) (ys : List Extent)
    → IsAscending xs
    → All (λ x. end_of x ≤ e.block) xs
    → IsExtent e
    → All (λ y. end_of e ≤ y.block) ys
    → IsAscending ys
    → IsAscending (xs ++ e ∷ ys)
IsAscending-middle [] e ys ax bx he by ay = (he, by, ay)
IsAscending-middle (x ∷ xs) e ys (hx, after, ax) (first, bx) he by ay = (
  hx,
  All-append (λ y. end_of x ≤ y.block) xs (e ∷ ys) after
      (first, All-imp (λ y h. omega arith) ys by),
  IsAscending-middle xs e ys ax bx he by ay,
)

pub IsAscending-parts :
    (xs : List Extent) (e : Extent) (ys : List Extent)
    → IsAscending (xs ++ e ∷ ys)
    → IsAscending xs
      × All (λ x. end_of x ≤ e.block) xs
      × IsExtent e
      × All (λ y. end_of e ≤ y.block) ys
      × IsAscending ys
IsAscending-parts [] e ys (he, by, ay) = (tt, tt, he, by, ay)
IsAscending-parts (x ∷ xs) e ys (hx, after, a) =
    let (ax, bx, he, by, ay) = IsAscending-parts xs e ys a in
    let (near, far) = All-split (λ y. end_of x ≤ y.block) xs (e ∷ ys) after in
    ((hx, near, ax), (far.0, bx), he, by, ay)

pub in_order-IsAscending : (t : Tree) → IsOrdered t → IsAscending (in_order t)
unfolding in_order
in_order-IsAscending leaf o = tt
in_order-IsAscending (node l e r) (before, behind, he, ol, or) =
    IsAscending-middle (in_order l) e (in_order r) (in_order-IsAscending l ol)
      (All-in_order (λ x. end_of x ≤ e.block) l before) he
      (All-in_order (λ x. end_of e ≤ x.block) r behind) (in_order-IsAscending r or)

pub IsOrdered-in_order : (t : Tree) → IsAscending (in_order t) → IsOrdered t
unfolding in_order
IsOrdered-in_order leaf a = tt
IsOrdered-in_order (node l e r) a =
    let (ax, bx, he, by, ay) = IsAscending-parts (in_order l) e (in_order r) a in
    (
      InTree-in_order (λ x. end_of x ≤ e.block) l bx,
      InTree-in_order (λ x. end_of e ≤ x.block) r by,
      he,
      IsOrdered-in_order l ax,
      IsOrdered-in_order r ay,
    )

pub extent_splay-IsOrdered : (b : ℕ) (t : Tree) → IsOrdered t → IsOrdered (extent_splay b t)
extent_splay-IsOrdered b t o =
    IsOrdered-in_order (extent_splay b t)
      (subst IsAscending (sym (in_order-extent_splay b t)) (in_order-IsAscending t o))
