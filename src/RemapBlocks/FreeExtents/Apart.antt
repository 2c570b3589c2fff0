-- ===== src/RemapBlocks/FreeExtents/Apart.antt =====
-- Extents that do not overlap, in any order and in the order of their starts.
use mathlib.Core.List.{Permᴰ}
use prefetch.Common.{
  arith, ℕ, ◌+◌, ◌-◌, ◌≤◌, ◌<◌, ◌≢◌, ◌⊎◌, Bool, inl, inr, List, [], ◌∷◌, All, AllPairs-perm,
  AllPairs, ℤ, pos,
}
use prefetch.RemapBlocks.FreeExtents.{FreeExtent, cmp_extents_start}
use prefetch.RemapBlocks.FreeExtents.Runs.{AreSpread, All-imp, IsFreeRun}
use prefetch.RemapBlocks.FreeExtents.Taking.{sum_len}

-- Either extent ends before the other starts.
abbrev AreApart : FreeExtent → FreeExtent → Type 0
AreApart a b = (a.block + a.len ≤ b.block) ⊎ (b.block + b.len ≤ a.block)

abbrev PairwiseApart : List FreeExtent → Type 0
PairwiseApart es = AllPairs AreApart es

-- What `qsort` promises, for the comparison of the starts: no extent comes before one with a smaller
-- start.
abbrev pub IsByStart : List FreeExtent → Type 0
IsByStart [] = Unit {0}
IsByStart (e ∷ es) = All (λ f. cmp_extents_start e f ≢ pos 1) es × IsByStart es

pub record QSort : Type 0 where
  pub qsort : (FreeExtent → FreeExtent → ℤ) → List FreeExtent → List FreeExtent
  pub permuted :
      (cmp : FreeExtent → FreeExtent → ℤ) (es : List FreeExtent) → Permᴰ es (qsort cmp es)
  pub by_start : (es : List FreeExtent) → IsByStart (qsort cmp_extents_start es)

apart_flip : (a b : FreeExtent) → AreApart a b → AreApart b a
apart_flip a b (inl h) = inr h
apart_flip a b (inr h) = inl h

pub PairwiseApart-perm :
    {es fs : List FreeExtent} → Permᴰ es fs → PairwiseApart es → PairwiseApart fs
PairwiseApart-perm = AllPairs-perm AreApart apart_flip

pub AreSpread-PairwiseApart : (es : List FreeExtent) → AreSpread es → PairwiseApart es
AreSpread-PairwiseApart [] s = tt
AreSpread-PairwiseApart (e ∷ es) (before, s) =
    (All-imp (λ f h. inl h) es before, AreSpread-PairwiseApart es s)

-- Extents that are apart, in the order of their starts, end one before the other.
spread_after :
    (e : FreeExtent) (es : List FreeExtent)
    → All (AreApart e) es
    → All (λ f. cmp_extents_start e f ≢ pos 1) es
    → All (λ f. 0 < f.len) es
    → All (λ f. e.block + e.len ≤ f.block) es
unfolding cmp_extents_start
spread_after e [] a s l = tt
spread_after e (f ∷ es) (inl h, a) (s, ss) (l, ls) = (h, spread_after e es a ss ls)
spread_after e (f ∷ es) (inr h, a) (s, ss) (l, ls) = absurd (ground arith)

pub qsort-AreSpread :
    (es : List FreeExtent)
    → PairwiseApart es
    → IsByStart es
    → All (λ e. 0 < e.len) es
    → AreSpread es
qsort-AreSpread [] a s l = tt
qsort-AreSpread (e ∷ es) (ae, a) (se, s) (le, l) =
    (spread_after e es ae se l, qsort-AreSpread es a s l)

-- Free extents one after the other have no more blocks than the bitmap.
pub sum_len_le :
    (occupied : ℕ → Bool) (end_block lo : ℕ) (es : List FreeExtent)
    → All (IsFreeRun occupied end_block) es
    → AreSpread es
    → All (λ e. 0 < e.len) es
    → All (λ e. lo ≤ e.block) es
    → sum_len es ≤ end_block - lo
unfolding sum_len
sum_len_le occupied end_block lo [] free s l h = omega arith
sum_len_le occupied end_block lo (e ∷ es) (fe, free) (before, s) (le, l) (he, h) =
    let last = fe (e.block + e.len - 1) (omega arith) (omega arith) in
    omega (arith, last.1, sum_len_le occupied end_block (e.block + e.len) es free s l before)
