-- ===== src/RemapBlocks/Splay/Insert.antt =====
-- What an insertion does to the extents.
use mathlib.Core.List.{append_assoc}
use prefetch.Common.{
  arith, ◌≤◌, ◌<◌, ◌≡◌, ◌⊎◌, inl, inr, refl, sym, subst, ltb, leb, Bool-cases, Option, none, some,
  List, [], ◌∷◌, ◌++◌, All, All-append,
}
use prefetch.RemapBlocks.Splay.{
  Extent, end_of, Tree, leaf, node, extent_splay, insert_at, extent_insert,
}
use prefetch.RemapBlocks.Splay.Order.{in_order, in_order-extent_splay}
use prefetch.RemapBlocks.Splay.Split.{
  IsExtent, IsOrdered, Before, Behind, IsSplit, extent_splay-IsSplit,
}
use prefetch.RemapBlocks.Splay.Ascending.{
  IsAscending, All-split, All-in_order, IsAscending-middle, IsOrdered-in_order,
}

-- `new` has come between the extents that end before it and those that start behind its start; or it
-- touches or overlaps an extent that does not end before it.
abbrev pub Inserted : Extent → List Extent → Option Tree → Type 0
Inserted new old (some t) =
    (xs : List Extent) × (ys : List Extent) × (old ≡ xs ++ ys)
    × (in_order t ≡ xs ++ new ∷ ys)
    × All (Before new.block) xs
    × All (Behind new.block) ys
Inserted new old none =
    (xs : List Extent) × (x : Extent) × (ys : List Extent) × (old ≡ xs ++ x ∷ ys)
    × (x.block ≤ end_of new)
    × (new.block < end_of x)

insert_at-Inserted :
    (new : Extent) (t : Tree)
    → IsExtent new
    → IsSplit new.block t
    → Inserted new (in_order t) (insert_at new t)
unfolding insert_at in_order
insert_at-Inserted new leaf h k = ([], [], refl, refl, tt, tt)
insert_at-Inserted new (node l e r) h (before, behind) =
    elim (Bool-cases (ltb (end_of new) e.block)) [
      | inl first ↦
          let close : new.block < e.block = ground arith in
          rw first (
            in_order l,
            e ∷ in_order r,
            refl,
            refl,
            All-in_order (Before new.block) l before,
            (close, All-in_order (Behind new.block) r behind),
          )
      | inr other ↦ rw other (elim (Bool-cases (leb (end_of e) new.block)) [
        | inl last ↦
            let done : end_of e ≤ new.block = ground arith in
            rw last (
              in_order l ++ e ∷ [],
              in_order r,
              simp append_assoc,
              refl,
              All-append (Before new.block) (in_order l) (e ∷ [])
                  (All-in_order (Before new.block) l before) (done, tt),
              All-in_order (Behind new.block) r behind,
            )
        | inr inside ↦ rw inside (in_order l, e, in_order r, refl, ground arith, ground arith)
      ])
    ]

-- An extent is inserted at its place in the order, behind all that end before its first block and
-- before all that start behind it; the program exits, without an extent lost, only if the new extent
-- touches or overlaps an extent that does not end before it.
pub extent_insert_lem :
    (new : Extent) (t : Tree)
    → IsExtent new
    → IsOrdered t
    → Inserted new (in_order t) (extent_insert new t)
unfolding extent_insert
extent_insert_lem new t h o =
    subst (λ old. Inserted new old (insert_at new (extent_splay new.block t)))
      (in_order-extent_splay new.block t)
      (insert_at-Inserted new (extent_splay new.block t) h (extent_splay-IsSplit new.block t o))

IsAscending-append :
    (xs ys : List Extent) → IsAscending (xs ++ ys) → IsAscending xs × IsAscending ys
IsAscending-append [] ys a = (tt, a)
IsAscending-append (x ∷ xs) ys (hx, after, a) =
    let (ax, ay) = IsAscending-append xs ys a in
    ((hx, (All-split (λ y. end_of x ≤ y.block) xs ys after).0, ax), ay)

-- Extents that start behind the start of one that they do not overlap start behind its end.
apart :
    (new : Extent) (ys : List Extent)
    → IsAscending ys
    → All (λ x. (end_of x ≤ new.block) ⊎ (end_of new ≤ x.block)) ys
    → All (Behind new.block) ys
    → All (λ y. end_of new ≤ y.block) ys
apart new [] a d h = tt
apart new (y ∷ ys) (hy, after, a) (inl p, d) (h, hs) = (omega arith, apart new ys a d hs)
apart new (y ∷ ys) (hy, after, a) (inr p, d) (h, hs) = (p, apart new ys a d hs)

pub Inserted-IsOrdered :
    (new : Extent) (old : List Extent) (o : Option Tree)
    → IsExtent new
    → IsAscending old
    → All (λ x. (end_of x ≤ new.block) ⊎ (end_of new ≤ x.block)) old
    → Inserted new old o
    → (t : Tree) → o ≡ some t
    → IsOrdered t
Inserted-IsOrdered new old none h a d i t e = absurd (cc e)
Inserted-IsOrdered new old (some t') h a d (xs, ys, parts, now, before, behind) t e =
    let a' = subst IsAscending parts a in
    let (ax, ay) = IsAscending-append xs ys a' in
    let d' =
      (All-split (λ x. (end_of x ≤ new.block) ⊎ (end_of new ≤ x.block)) xs ys
        (subst (All (λ x. (end_of x ≤ new.block) ⊎ (end_of new ≤ x.block))) parts d)).1 in
    let same : t' ≡ t = cc e in
    subst IsOrdered same (
      IsOrdered-in_order t' (
        subst IsAscending (sym now)
          (IsAscending-middle xs new ys ax before h (apart new ys ay d' behind) ay)))
