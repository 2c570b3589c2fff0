-- ===== src/RemapBlocks/Copy/Pieces.antt =====
-- A buffer is written piece by piece to the targets of its offsets.
use prefetch.Common.{
  arith, dec_lt, ℕ, zero, suc, ◌+◌, ◌-◌, ◌%◌, ◌≤◌, ◌<◌, ◌^◌, ◌≡◌, ◌≢◌, ◌⊎◌, inl, inr, refl, sym, ap,
  ◌∙◌, subst, true, false, ◌==◌, if◌then◌else◌, some, List, [], ◌∷◌, take, drop, length, min,
  word_mod,
}
use prefetch.RemapBlocks.FreeExtents.{FreeExtent, find_remapped_offset}
use prefetch.RemapBlocks.FreeExtents.Runs.{AreSpread}
use prefetch.RemapBlocks.FreeExtents.Lookup.{IsConsecutive, find_remapped_offset-IsAt}
use prefetch.RemapBlocks.Copy.{write_list, read_list, CopySetup, write_blocks, write_pieces}
use prefetch.RemapBlocks.Copy.Targets.{block_in, target, target_in, target_injective}

module _ {D : Type 0} where
  pub length-read_list : (k s : ℕ) (dev : ℕ → D) → length (read_list k s dev) ≡ k
  unfolding read_list
  length-read_list zero s dev = refl
  length-read_list (suc k) s dev = ap suc (length-read_list k (s + 1) dev)

  take-read_list :
      (w k s : ℕ) (dev : ℕ → D) → w ≤ k → take w (read_list k s dev) ≡ read_list w s dev
  unfolding read_list
  take-read_list zero k s dev h = refl
  take-read_list (suc w) zero s dev h = absurd (omega arith)
  take-read_list (suc w) (suc k) s dev h =
      ap (λ ys. dev s ∷ ys) (take-read_list w k (s + 1) dev (omega arith))

  drop-read_list :
      (w k s : ℕ) (dev : ℕ → D) → w ≤ k → drop w (read_list k s dev) ≡ read_list (k - w) (s + w) dev
  unfolding read_list
  drop-read_list zero k s dev h =
      let e : k ≡ k - 0 = omega arith in let f : s ≡ s + 0 = omega arith in rw (← e, ← f) refl
  drop-read_list (suc w) zero s dev h = absurd (omega arith)
  drop-read_list (suc w) (suc k) s dev h =
      let e : k - w ≡ suc k - suc w = omega arith in
      let f : s + 1 + w ≡ s + suc w = omega arith in
      drop-read_list w k (s + 1) dev (omega arith)
      ∙ ap (λ n. read_list n (s + 1 + w) dev) e
      ∙ ap (λ n. read_list (suc k - suc w) n dev) f

  -- Two devices that agree on the blocks that are read.
  pub read_list_agree :
      (k s : ℕ) (dev dev' : ℕ → D)
      → ((j : ℕ) → j < k → dev (s + j) ≡ dev' (s + j))
      → read_list k s dev ≡ read_list k s dev'
  unfolding read_list
  read_list_agree zero s dev dev' h = refl
  read_list_agree (suc k) s dev dev' h =
      let here : dev s ≡ dev' s = subst (λ n. dev n ≡ dev' n) (omega arith) (h 0 (omega arith)) in
      let there =
        read_list_agree k (s + 1) dev dev'
          (λ j lt. subst (λ n. dev n ≡ dev' n) (omega arith) (h (j + 1) (omega arith))) in
      rw (here, there) refl

  -- The blocks that were written, and the others.
  write_list_outside :
      (w s b x : ℕ) (dev0 dev : ℕ → D)
      → (x < b) ⊎ (b + w ≤ x)
      → write_list (read_list w s dev0) b dev x ≡ dev x
  unfolding write_list read_list
  write_list_outside zero s b x dev0 dev h = refl
  write_list_outside (suc w) s b x dev0 dev h =
      let other : (x == b) ≡ false = ground (arith, h) in
      write_list_outside w (s + 1) (b + 1) x dev0 (λ b'. if b' == b then dev0 s else dev b')
        (outside h)
      ∙ rw other refl
    where
      outside : (x < b) ⊎ (b + suc w ≤ x) → (x < b + 1) ⊎ (b + 1 + w ≤ x)
      outside (inl p) = inl (omega arith)
      outside (inr p) = inr (omega arith)

  write_list_inside :
      (w s b x : ℕ) (dev0 dev : ℕ → D)
      → b ≤ x
      → x < b + w
      → write_list (read_list w s dev0) b dev x ≡ dev0 (s + (x - b))
  unfolding write_list read_list
  write_list_inside zero s b x dev0 dev h k = absurd (omega arith)
  write_list_inside (suc w) s b x dev0 dev h k = elim (dec_lt b x) [
    | yes lt ↦
        let same : s + 1 + (x - (b + 1)) ≡ s + (x - b) = omega arith in
        write_list_inside w (s + 1) (b + 1) x dev0 (λ b'. if b' == b then dev0 s else dev b')
          (omega arith) (omega arith)
        ∙ ap dev0 same
    | no ge ↦
        let here : (x == b) ≡ true = ground arith in
        let same : s ≡ s + (x - b) = omega arith in
        write_list_outside w (s + 1) (b + 1) x dev0 (λ b'. if b' == b then dev0 s else dev b')
          (inl (omega arith))
        ∙ rw here (ap dev0 same)
  ]

-- The blocks that are written at once.
piece_len : FreeExtent → ℕ → ℕ → ℕ
piece_len e offset k = min (e.len - (offset - e.offset)) k

piece_len_lem :
    (e : FreeExtent) (offset k : ℕ)
    → e.offset ≤ offset
    → offset < e.offset + e.len
    → let w = piece_len e offset (suc k) in (0 < w) × (w ≤ suc k) × (offset + w ≤ e.offset + e.len)
unfolding piece_len
piece_len_lem e offset k from to = omega arith

module _ {D : Type 0} (c : CopySetup) (last : ℕ) (h : IsConsecutive 0 c.free_extents last)
    (small : last < 2 ^ 32) (spread : AreSpread c.free_extents)
    (writes : (b n : ℕ) → c.can_write b n ≡ true) where
  -- The blocks of a run of offsets have come from `s` on of a device to their targets, and the others
  -- are as they were.
  abbrev pub HaveMoved : ℕ → ℕ → ℕ → (ℕ → D) → (ℕ → D) → (ℕ → D) → Type 0
  HaveMoved offset k s dev0 dev dev' =
      ((j : ℕ) → j < k → dev' (target c.free_extents (offset + j)) ≡ dev0 (s + j))
      × ((x : ℕ) → ((j : ℕ) → j < k → x ≢ target c.free_extents (offset + j)) → dev' x ≡ dev x)

  pub HaveMoved-none : (offset s : ℕ) (dev0 dev : ℕ → D) → HaveMoved offset 0 s dev0 dev dev
  HaveMoved-none offset s dev0 dev = (λ j lt. absurd (omega arith), λ x other. refl)

  -- Two runs of offsets, one after the other.
  pub HaveMoved-then :
      (offset k w s : ℕ) (dev0 dev dev1 dev2 : ℕ → D)
      → w ≤ k
      → offset + k ≤ last
      → HaveMoved offset w s dev0 dev dev1
      → HaveMoved (offset + w) (k - w) (s + w) dev0 dev1 dev2
      → HaveMoved offset k s dev0 dev dev2
  HaveMoved-then offset k w s dev0 dev dev1 dev2 le fits (m, keep) (m', keep') = (
    λ j lt. elim (dec_lt j w) [
      | yes p ↦
          keep' (target c.free_extents (offset + j)) (λ j' lt' same. absurd (
            omega (
              arith,
              target_injective c.free_extents last h small spread (offset + j) (offset + w + j')
                  (omega arith) (omega arith) same,
            )))
          ∙ m j p
      | no ge ↦
          let at : offset + w + (j - w) ≡ offset + j = omega arith in
          let from : s + w + (j - w) ≡ s + j = omega arith in
          ap (λ n. dev2 (target c.free_extents n)) (sym at)
          ∙ m' (j - w) (omega arith)
          ∙ ap dev0 from
    ],
    λ x other.
        keep' x (λ j' lt' same.
          let at : offset + w + j' ≡ offset + (w + j') = omega arith in
          other (w + j') (omega arith) (same ∙ ap (target c.free_extents) at))
        ∙ keep x (λ j lt. other j (omega arith)),
  )

  write_piece :
      (offset w s : ℕ) (e : FreeExtent) (dev0 dev : ℕ → D)
      → offset < last
      → find_remapped_offset c.free_extents offset ≡ some e
      → e.offset ≤ offset
      → offset + w ≤ e.offset + e.len
      → HaveMoved offset w s dev0 dev (write_list (read_list w s dev0) (block_in offset e) dev)
  write_piece offset w s e dev0 dev lt found from to =
      let b = block_in offset e in
      (
        λ j j-lt.
            let (at, below) =
              target_in c.free_extents last h small offset e (offset + j) lt found
                (omega arith, omega arith) in
            let from : s + (block_in (offset + j) e - b) ≡ s + j = omega arith in
            ap (write_list (read_list w s dev0) b dev) at
            ∙ write_list_inside w s b (block_in (offset + j) e) dev0 dev (omega arith) (omega arith)
            ∙ ap dev0 from,
        λ x other. write_list_outside w s b x dev0 dev (elim (dec_lt x b) [
          | yes before ↦ inl before
          | no ge ↦ elim (dec_lt x (b + w)) [
            | no behind ↦ inr (omega arith)
            | yes within ↦
                let (at, below) =
                  target_in c.free_extents last h small offset e (offset + (x - b)) lt found
                    (omega arith, omega arith) in
                let same : x ≡ target c.free_extents (offset + (x - b)) = omega (arith, at) in
                absurd (other (x - b) (omega arith) same)
          ]
        ]),
      )

  write_pieces_done :
      (rounds offset : ℕ) (dev : ℕ → D) → write_pieces c rounds offset [] dev ≡ some dev
  unfolding write_pieces
  write_pieces_done zero offset dev = refl
  write_pieces_done (suc rounds) offset dev = refl

  write_pieces_step :
      (rounds offset : ℕ) (x : D) (xs : List D) (dev : ℕ → D) (e : FreeExtent)
      → find_remapped_offset c.free_extents (offset % word_mod) ≡ some e
      → let w = piece_len e offset (length (x ∷ xs)) in
        write_pieces c (suc rounds) offset (x ∷ xs) dev
        ≡ write_pieces c rounds
            (offset + w)
            (drop w (x ∷ xs))
            (write_list (take w (x ∷ xs)) (block_in offset e) dev)
  unfolding write_pieces write_blocks piece_len
  write_pieces_step rounds offset x xs dev e found =
      rw
        (
          write_pieces,
          found,
          write_blocks,
          writes (block_in offset e) (piece_len e offset (length (x ∷ xs))),
        )
        refl

  -- Enough rounds write the whole buffer to its targets.
  pub write_pieces-HaveMoved :
      (rounds offset k s : ℕ) (dev0 dev : ℕ → D)
      → k ≤ rounds
      → offset + k ≤ last
      → (dev' : ℕ → D) × (write_pieces c rounds offset (read_list k s dev0) dev ≡ some dev')
        × HaveMoved offset k s dev0 dev dev'
  unfolding read_list
  write_pieces-HaveMoved rounds offset zero s dev0 dev enough fits =
      (dev, write_pieces_done rounds offset dev, HaveMoved-none offset s dev0 dev)
  write_pieces-HaveMoved zero offset (suc k) s dev0 dev enough fits = absurd (omega arith)
  write_pieces-HaveMoved (suc rounds) offset (suc k) s dev0 dev enough fits =
      let (i, e, at, found, (from, to)) =
        find_remapped_offset-IsAt c.free_extents last offset h small (omega arith) in
      let w = piece_len e offset (suc k) in
      let (some_w, fits_w, in_extent) = piece_len_lem e offset k from to in
      let n : length (read_list (suc k) s dev0) ≡ suc k = length-read_list (suc k) s dev0 in
      let word : offset ≡ offset % word_mod = omega arith in
      let stepped =
        write_pieces_step rounds offset (dev0 s) (read_list k (s + 1) dev0) dev e
          (ap (find_remapped_offset c.free_extents) (sym word) ∙ found) in
      let dev1 = write_list (read_list w s dev0) (block_in offset e) dev in
      let (dev2, rest, moved) =
        write_pieces-HaveMoved rounds (offset + w) (suc k - w) (s + w) dev0 dev1 (omega arith)
          (omega arith) in
      let piece = write_piece offset w s e dev0 dev (omega arith) found from in_extent in
      let buf = read_list (suc k) s dev0 in
      let b = block_in offset e in
      let go = λ (n : ℕ).
        write_pieces c rounds (offset + piece_len e offset n) (drop (piece_len e offset n) buf)
          (write_list (take (piece_len e offset n) buf) b dev) in
      let cut =
        ap (λ ys. write_pieces c rounds (offset + w) ys (write_list (take w buf) b dev))
          (drop-read_list w (suc k) s dev0 fits_w)
        ∙ ap
            (λ ys.
              write_pieces c rounds (offset + w) (read_list (suc k - w) (s + w) dev0)
                (write_list ys b dev))
            (take-read_list w (suc k) s dev0 fits_w) in
      (
        dev2,
        stepped ∙ ap go n ∙ cut ∙ rest,
        HaveMoved-then offset (suc k) w s dev0 dev dev1 dev2 fits_w fits piece moved,
      )
