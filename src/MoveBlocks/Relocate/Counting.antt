-- ===== src/MoveBlocks/Relocate/Counting.antt =====
-- The number of free blocks in a bitmap, and how marking and unmarking change it.
use prefetch.Common.{
  ℕ, zero, suc, ◌+◌, ◌≤◌, ◌<◌, ◌≡◌, refl, Bool, true, false, not, ◌&&◌, arith, ◌==◌, if◌then◌else◌,
  dec_lt,
}
use prefetch.MoveBlocks.Ext2.{Ext2, Bitmaps}

-- How many of the blocks below `n` that `p` selects are free.
unfoldable pub count_free : (ℕ → Bool) → (ℕ → Bool) → ℕ → ℕ
count_free p occupied zero = 0
count_free p occupied (suc n) = count_free p occupied n + (if p n && not (occupied n) then 1 else 0)

count_free-same :
    (p before after : ℕ → Bool) (b n : ℕ)
    → n ≤ b
    → ((c : ℕ) → (b == c) ≡ false → after c ≡ before c)
    → count_free p after n ≡ count_free p before n
unfolding count_free
count_free-same p before after b zero h same = refl
count_free-same p before after b (suc n) h same =
    let rest = count_free-same p before after b n (omega arith) same in
    let e = same n (ground arith) in rw (rest, e) refl

-- A block that becomes free is one more, if it is selected.
count_free-freed :
    (p before after : ℕ → Bool) (b n : ℕ)
    → b < n
    → before b ≡ true
    → after b ≡ false
    → ((c : ℕ) → (b == c) ≡ false → after c ≡ before c)
    → count_free p after n ≡ count_free p before n + (if p b then 1 else 0)
unfolding count_free
count_free-freed p before after b zero h t f same = absurd (omega arith)
count_free-freed p before after b (suc n) h t f same = elim (dec_lt b n) [
  | yes q ↦
      let rest = count_free-freed p before after b n q t f same in
      let e = same n (ground arith) in ground arith
  | no q ↦
      let e : b ≡ n = omega arith in
      let rest = count_free-same p before after b n (omega arith) same in ground arith
]

module _ (ext2 : Ext2) where
  open ext2 use {Bitmap, mark_block_bitmap, unmark_block_bitmap}

  unfoldable pub move_bit : Bitmap → ℕ → ℕ → Bitmap
  move_bit m source target = unmark_block_bitmap (mark_block_bitmap m target) source

module _ (ext2 : Ext2) (size : ℕ) (laws : Bitmaps ext2 size) where
  open ext2 use {Bitmap, test_block_bitmap, mark_block_bitmap, unmark_block_bitmap, group_of_blk}

  count_free-mark :
      (p : ℕ → Bool) (m : Bitmap) (t : ℕ)
      → t < size
      → test_block_bitmap m t ≡ false
      → count_free p (test_block_bitmap m) size
        ≡ count_free p (test_block_bitmap (mark_block_bitmap m t)) size + (if p t then 1 else 0)
  count_free-mark p m t h f =
      let now = laws.test_mark m t t h in
      count_free-freed p (test_block_bitmap (mark_block_bitmap m t)) (test_block_bitmap m) t size h
        (ground arith) f (λ c q. let e = laws.test_mark m t c h in ground arith)

  count_free-unmark :
      (p : ℕ → Bool) (m : Bitmap) (s : ℕ)
      → s < size
      → test_block_bitmap m s ≡ true
      → count_free p (test_block_bitmap (unmark_block_bitmap m s)) size
        ≡ count_free p (test_block_bitmap m) size + (if p s then 1 else 0)
  count_free-unmark p m s h t =
      let now = laws.test_unmark m s s h in
      count_free-freed p (test_block_bitmap m) (test_block_bitmap (unmark_block_bitmap m s)) s size
        h t (ground arith) (λ c q. let e = laws.test_unmark m s c h in ground arith)

  occupied-inside : (m : Bitmap) (b : ℕ) → test_block_bitmap m b ≡ true → b < size
  occupied-inside m b t = elim (dec_lt b size) [
    | yes h ↦ h
    | no h ↦ let f = laws.test_outside m b (omega arith) in ground arith
  ]

  pub count_free-move_bit :
      (p : ℕ → Bool) (m : Bitmap) (s t : ℕ)
      → t < size
      → test_block_bitmap m s ≡ true
      → test_block_bitmap m t ≡ false
      → count_free p (test_block_bitmap (move_bit ext2 m s t)) size + (if p t then 1 else 0)
        ≡ count_free p (test_block_bitmap m) size + (if p s then 1 else 0)
  unfolding move_bit
  count_free-move_bit p m s t h src tgt =
      let inside = occupied-inside m s src in
      let still = laws.test_mark m t s h in
      let a = count_free-mark p m t h tgt in
      let b = count_free-unmark p (mark_block_bitmap m t) s inside (ground arith) in ground arith
