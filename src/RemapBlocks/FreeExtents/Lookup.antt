-- ===== src/RemapBlocks/FreeExtents/Lookup.antt =====
-- `find_remapped_offset` finds the extent of an offset.
use prefetch.Common.{
  arith, dec_lt, ℕ, zero, suc, ◌+◌, ◌-◌, ◌/◌, ◌≤◌, ◌<◌, ◌^◌, ◌≡◌, refl, ap, ◌∙◌, true, false, ◌&&◌,
  ltb, leb, Bool-cases, inl, inr, some, List, [], ◌∷◌, get_elem?, length, add32,
}
use prefetch.RemapBlocks.FreeExtents.{FreeExtent, search_extents, find_remapped_offset}

-- Extents of at least one block, whose offsets go on from `first` to `last`.
abbrev pub IsConsecutive : ℕ → List FreeExtent → ℕ → Type 0
IsConsecutive first [] last = first ≡ last
IsConsecutive first (e ∷ es) last =
    (e.offset ≡ first) × (0 < e.len) × IsConsecutive (first + e.len) es last

-- The offset lies in the extent.
abbrev pub Holds : FreeExtent → ℕ → Type 0
Holds e offset = (e.offset ≤ offset) × (offset < e.offset + e.len)

-- The extent at a position.
abbrev pub IsAt : List FreeExtent → ℕ → FreeExtent → Type 0
IsAt es i e = get_elem? es i ≡ some e

pub IsConsecutive-le :
    (first last : ℕ) (es : List FreeExtent) → IsConsecutive first es last → first ≤ last
IsConsecutive-le first last [] h = omega arith
IsConsecutive-le first last (e ∷ es) (o, some_len, h) =
    omega (arith, IsConsecutive-le (first + e.len) last es h)

-- Each extent is within the offsets.
bounds_at :
    (first last : ℕ) (es : List FreeExtent) (i : ℕ) (e : FreeExtent)
    → IsConsecutive first es last
    → IsAt es i e
    → (first ≤ e.offset) × (e.offset + e.len ≤ last) × (0 < e.len)
bounds_at first last [] i e h at = absurd (cc at)
bounds_at first last (x ∷ es) zero e (o, some_len, h) at =
    let same : x ≡ e = cc at in
    rw (← same) (omega arith, omega (arith, IsConsecutive-le (first + x.len) last es h), some_len)
bounds_at first last (x ∷ es) (suc i) e (o, some_len, h) at =
    let (p, q, r) = bounds_at (first + x.len) last es i e h at in (omega arith, q, r)

-- An extent at an earlier position ends before a later one starts.
apart_at :
    (first last : ℕ) (es : List FreeExtent) (i j : ℕ) (e f : FreeExtent)
    → IsConsecutive first es last
    → i < j
    → IsAt es i e
    → IsAt es j f
    → e.offset + e.len ≤ f.offset
apart_at first last [] i j e f h lt at at' = absurd (cc at)
apart_at first last (x ∷ es) i zero e f h lt at at' = absurd (omega arith)
apart_at first last (x ∷ es) zero (suc j) e f (o, some_len, h) lt at at' =
    let same : x ≡ e = cc at in
    let (p, q, r) = bounds_at (first + x.len) last es j f h at' in rw (← same) (omega arith)
apart_at first last (x ∷ es) (suc i) (suc j) e f (o, some_len, h) lt at at' =
    apart_at (first + x.len) last es i j e f h (omega arith) at at'

IsAt-below : (es : List FreeExtent) (i : ℕ) → i < length es → (e : FreeExtent) × IsAt es i e
IsAt-below [] i h = absurd (omega arith)
IsAt-below (x ∷ es) zero h = (x, refl)
IsAt-below (x ∷ es) (suc i) h = IsAt-below es i (omega arith)

IsAt-within : (es : List FreeExtent) (i : ℕ) (e : FreeExtent) → IsAt es i e → i < length es
IsAt-within [] i e at = absurd (cc at)
IsAt-within (x ∷ es) zero e at = omega arith
IsAt-within (x ∷ es) (suc i) e at = omega (arith, IsAt-within es i e at)

IsAt-offset :
    (first last : ℕ) (es : List FreeExtent) (offset : ℕ)
    → IsConsecutive first es last
    → first ≤ offset
    → offset < last
    → (i : ℕ) × (e : FreeExtent) × (i < length es) × IsAt es i e × Holds e offset
IsAt-offset first last [] offset h from to = absurd (omega arith)
IsAt-offset first last (x ∷ es) offset (o, some_len, h) from to =
    elim (Bool-cases (ltb offset (first + x.len))) [
      | inl here ↦ (zero, x, omega arith, refl, (omega arith, ground arith))
      | inr there ↦
          let (i, e, lt, at, holds) =
            IsAt-offset (first + x.len) last es offset h (ground arith) to in
          (suc i, e, omega arith, at, holds)
    ]

module _ (es : List FreeExtent) (last offset : ℕ) (h : IsConsecutive 0 es last)
    (small : last < 2 ^ 32) where
  -- The position of the extent lies in the range of the search.
  search_extents-Holds :
      (rounds start stop i : ℕ) (e : FreeExtent)
      → IsAt es i e
      → Holds e offset
      → start ≤ i
      → i < stop
      → stop ≤ length es
      → stop ≤ start + rounds
      → search_extents es offset rounds start stop ≡ some e
  unfolding search_extents
  search_extents-Holds zero start stop i e at holds from to fits enough = absurd (omega arith)
  search_extents-Holds (suc rounds) start stop i e at holds from to fits enough =
      let mid = (start + (stop - 1)) / 2 in
      let (f, at') = IsAt-below es mid (omega arith) in
      let (p, q, r) = bounds_at 0 last es mid f h at' in
      let open_range : ltb start stop ≡ true = ground arith in
      elim (dec_lt i mid) [
        | yes lt ↦
            let beyond = apart_at 0 last es i mid e f h lt at at' in
            let out : (leb f.offset offset && ltb offset (add32 f.offset f.len)) ≡ false =
              ground arith in
            let lower : ltb f.offset offset ≡ false = ground arith in
            ground (arith, at', search_extents-Holds rounds start mid i e at holds from lt)
        | no ge ↦ elim (dec_lt mid i) [
          | yes gt ↦
              let beyond = apart_at 0 last es mid i f e h gt at' at in
              let out : (leb f.offset offset && ltb offset (add32 f.offset f.len)) ≡ false =
                ground arith in
              let upper : ltb f.offset offset ≡ true = ground arith in
              ground (arith, at', search_extents-Holds rounds (mid + 1) stop i e at holds)
          | no le ↦
              let same_at : mid ≡ i = omega arith in
              let same : f ≡ e = cc (at, at', same_at) in
              let hit : (leb f.offset offset && ltb offset (add32 f.offset f.len)) ≡ true =
                ground (arith, same) in
              ground (arith, at', same)
        ]
      ]

  -- For free extents with consecutive offsets the search ends at the one that holds the offset.
  pub find_remapped_offset_lem :
      offset < last → (e : FreeExtent) × (find_remapped_offset es offset ≡ some e) × Holds e offset
  unfolding find_remapped_offset
  find_remapped_offset_lem lt =
      let (i, e, below, at, holds) = IsAt-offset 0 last es offset h (omega arith) lt in
      (
        e,
        search_extents-Holds (length es) 0 (length es) i e at holds (omega arith) below
            (omega arith) (omega arith),
        holds,
      )

-- The extent of an offset, with its position.
pub find_remapped_offset-IsAt :
    (es : List FreeExtent) (last offset : ℕ)
    → IsConsecutive 0 es last
    → last < 2 ^ 32
    → offset < last
    → (i : ℕ) × (e : FreeExtent) × IsAt es i e
      × (find_remapped_offset es offset ≡ some e)
      × Holds e offset
unfolding find_remapped_offset
find_remapped_offset-IsAt es last offset h small lt =
    let (i, e, below, at, here) = IsAt-offset 0 last es offset h (omega arith) lt in
    (
      i,
      e,
      at,
      search_extents-Holds es last offset h small (length es) 0 (length es) i e at here
          (omega arith) below (omega arith) (omega arith),
      here,
    )

-- The search finds the same extent for each offset in it.
pub find_remapped_offset_same :
    (es : List FreeExtent) (last offset offset' : ℕ) (e : FreeExtent)
    → IsConsecutive 0 es last
    → last < 2 ^ 32
    → offset < last
    → find_remapped_offset es offset ≡ some e
    → Holds e offset'
    → (find_remapped_offset es offset' ≡ some e) × (offset' < last)
unfolding find_remapped_offset
find_remapped_offset_same es last offset offset' e h small lt found holds =
    let (i, f, at, found', here) = find_remapped_offset-IsAt es last offset h small lt in
    let same : f ≡ e = cc (found, found') in
    let at' : IsAt es i e = at ∙ ap some same in
    let (p, q, r) = bounds_at 0 last es i e h at' in
    let below = IsAt-within es i e at' in
    (
      search_extents-Holds es last offset' h small (length es) 0 (length es) i e at' holds
          (omega arith) below (omega arith) (omega arith),
      omega arith,
    )
