-- ===== src/RemapBlocks/Copy/Targets.antt =====
-- The block that an offset is moved to.
use prefetch.Common.{
  arith, dec_lt, ℕ, zero, suc, ◌+◌, ◌-◌, ◌≤◌, ◌<◌, ◌^◌, ◌≡◌, refl, Bool, false, none, some, List,
  [], ◌∷◌, All, subst,
}
use prefetch.RemapBlocks.FreeExtents.{FreeExtent, find_remapped_offset}
use prefetch.RemapBlocks.FreeExtents.Runs.{AreSpread, IsFreeRun}
use prefetch.RemapBlocks.FreeExtents.Lookup.{
  IsConsecutive, Holds, IsAt, find_remapped_offset-IsAt, find_remapped_offset_same,
}

abbrev pub block_in : ℕ → FreeExtent → ℕ
block_in offset e = e.block + (offset - e.offset)

unfoldable pub target : List FreeExtent → ℕ → ℕ
target es offset = elim (find_remapped_offset es offset) [ none ↦ 0 | some e ↦ block_in offset e ]

pub All-at :
    (P : FreeExtent → Type 0) (es : List FreeExtent) (i : ℕ) (e : FreeExtent)
    → All P es
    → IsAt es i e
    → P e
All-at P [] i e h at = absurd (cc at)
All-at P (x ∷ es) zero e (hx, h) at = subst P (cc at) hx
All-at P (x ∷ es) (suc i) e (hx, h) at = All-at P es i e h at

spread_at :
    (es : List FreeExtent) (i j : ℕ) (e f : FreeExtent)
    → AreSpread es
    → i < j
    → IsAt es i e
    → IsAt es j f
    → e.block + e.len ≤ f.block
spread_at [] i j e f s lt at at' = absurd (cc at)
spread_at (x ∷ es) i zero e f s lt at at' = absurd (omega arith)
spread_at (x ∷ es) zero (suc j) e f (before, s) lt at at' =
    let same : x ≡ e = cc at in
    rw (← same) (All-at (λ y. x.block + x.len ≤ y.block) es j f before at')
spread_at (x ∷ es) (suc i) (suc j) e f (before, s) lt at at' =
    spread_at es i j e f s (omega arith) at at'

module _ (es : List FreeExtent) (last : ℕ) (h : IsConsecutive 0 es last)
    (small : last < 2 ^ 32) where
  target_found :
      (offset : ℕ) (e : FreeExtent)
      → find_remapped_offset es offset ≡ some e
      → target es offset ≡ block_in offset e
  unfolding target
  target_found offset e found = rw (target, found) refl

  -- The offsets of one extent go to its blocks.
  pub target_in :
      (offset : ℕ) (e : FreeExtent) (offset' : ℕ)
      → offset < last
      → find_remapped_offset es offset ≡ some e
      → Holds e offset'
      → (target es offset' ≡ block_in offset' e) × (offset' < last)
  target_in offset e offset' lt found holds =
      let (found', lt') =
        find_remapped_offset_same es last offset offset' e h small lt found holds in
      (target_found offset' e found', lt')

  -- Different offsets go to different blocks.
  pub target_injective :
      AreSpread es → (o o' : ℕ) → o < last → o' < last → target es o ≡ target es o' → o ≡ o'
  target_injective spread o o' lt lt' same =
      let (i, e, at, found, (p, q)) = find_remapped_offset-IsAt es last o h small lt in
      let (j, f, at', found', (p', q')) = find_remapped_offset-IsAt es last o' h small lt' in
      let t = target_found o e found in
      let t' = target_found o' f found' in
      elim (dec_lt i j) [
        | yes below ↦ absurd (omega (arith, spread_at es i j e f spread below at at', t, t', same))
        | no ge ↦ elim (dec_lt j i) [
          | yes above ↦
              absurd (omega (arith, spread_at es j i f e spread above at' at, t, t', same))
          | no le ↦
              let together : i ≡ j = omega arith in
              let one : e ≡ f = cc (at, at', together) in ground (arith, one, t, t', same)
        ]
      ]

  -- A target is a free block.
  pub target_free :
      (occupied : ℕ → Bool) (end_block : ℕ)
      → All (IsFreeRun occupied end_block) es
      → (o : ℕ) → o < last
      → occupied (target es o) ≡ false
  target_free occupied end_block free o lt =
      let (i, e, at, found, (p, q)) = find_remapped_offset-IsAt es last o h small lt in
      rw (target_found o e found)
        (All-at (IsFreeRun occupied end_block) es i e free at (block_in o e) (omega arith)
          (omega arith)).0
