-- ===== src/RemapBlocks/FreeExtents/Sorting.antt =====
-- A sort that meets the contract of `qsort` for the order of the starts.
use mathlib.Core.List.{Permᴰ}
use mathlib.Core.List.Permᴰ
use prefetch.Common.{
  arith, ◌≤◌, ◌≡◌, ◌≢◌, refl, inl, inr, true, false, Bool-cases, List, [], ◌∷◌, All, All-perm, ℤ,
  pos, ltb_ℤ,
}
use prefetch.RemapBlocks.FreeExtents.{FreeExtent, cmp_extents_start}
use prefetch.RemapBlocks.FreeExtents.Apart.{IsByStart, QSort}

module _ (cmp : FreeExtent → FreeExtent → ℤ) where
  unfoldable pub insert : FreeExtent → List FreeExtent → List FreeExtent
  insert e [] = e ∷ []
  insert e (f ∷ fs) = elim (ltb_ℤ (pos 0) (cmp e f)) [ true ↦ f ∷ insert e fs | false ↦ e ∷ f ∷ fs ]

  unfoldable pub sort : List FreeExtent → List FreeExtent
  sort [] = []
  sort (e ∷ es) = insert e (sort es)

  insert_perm : (e : FreeExtent) (fs : List FreeExtent) → Permᴰ (e ∷ fs) (insert e fs)
  unfolding insert
  insert_perm e [] = Permᴰ.refl _
  insert_perm e (f ∷ fs) = elim (Bool-cases (ltb_ℤ (pos 0) (cmp e f))) [
    | inl after ↦
        rw (after, insert) (Permᴰ.trans (Permᴰ.swap refl refl) (Permᴰ.cons refl (insert_perm e fs)))
    | inr first ↦ rw (first, insert) (Permᴰ.refl _)
  ]

  pub sort_perm : (es : List FreeExtent) → Permᴰ es (sort es)
  unfolding sort
  sort_perm [] = Permᴰ.nil
  sort_perm (e ∷ es) = Permᴰ.trans (Permᴰ.cons refl (sort_perm es)) (insert_perm e (sort es))

not_after : (e f : FreeExtent) → e.block ≤ f.block → cmp_extents_start e f ≢ pos 1
unfolding cmp_extents_start
not_after e f le same = absurd (ground arith)

in_order : (e f : FreeExtent) → ltb_ℤ (pos 0) (cmp_extents_start e f) ≡ false → e.block ≤ f.block
unfolding cmp_extents_start
in_order e f h = ground arith

out_of_order : (e f : FreeExtent) → ltb_ℤ (pos 0) (cmp_extents_start e f) ≡ true → f.block ≤ e.block
unfolding cmp_extents_start
out_of_order e f h = ground arith

not_after-All :
    (e f : FreeExtent) (fs : List FreeExtent)
    → e.block ≤ f.block
    → All (λ g. cmp_extents_start f g ≢ pos 1) fs
    → All (λ g. cmp_extents_start e g ≢ pos 1) fs
unfolding cmp_extents_start
not_after-All e f [] le h = tt
not_after-All e f (g ∷ fs) le (hg, h) = (λ same. absurd (ground arith), not_after-All e f fs le h)

insert-IsByStart :
    (e : FreeExtent) (fs : List FreeExtent)
    → IsByStart fs
    → IsByStart (insert cmp_extents_start e fs)
unfolding insert
insert-IsByStart e [] h = (tt, tt)
insert-IsByStart e (f ∷ fs) (hf, h) = elim (Bool-cases (ltb_ℤ (pos 0) (cmp_extents_start e f))) [
  | inl after ↦
      rw (after, insert)
        (
          All-perm (λ g. cmp_extents_start f g ≢ pos 1) (insert_perm cmp_extents_start e fs)
              (not_after f e (out_of_order e f after), hf),
          insert-IsByStart e fs h,
        )
  | inr first ↦
      let le = in_order e f first in
      rw (first, insert) ((not_after e f le, not_after-All e f fs le hf), (hf, h))
]

pub sort-IsByStart : (es : List FreeExtent) → IsByStart (sort cmp_extents_start es)
unfolding sort
sort-IsByStart [] = tt
sort-IsByStart (e ∷ es) = insert-IsByStart e (sort cmp_extents_start es) (sort-IsByStart es)

unfoldable pub insertion : QSort
insertion = record { qsort = sort; permuted = sort_perm; by_start = sort-IsByStart }
