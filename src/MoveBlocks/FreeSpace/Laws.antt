-- ===== src/MoveBlocks/FreeSpace/Laws.antt =====
-- `find_contiguous_free_space` finds the first run of free blocks, if there is one.
use prefetch.Common.{
  ℕ, zero, suc, ◌+◌, ◌-◌, ◌≤◌, ◌<◌, ◌≡◌, refl, Bool, true, false, Option, none, some, arith, leb,
  inl, inr, dec_lt, leb→le, lt→ltb, ge→ltb, subst, Bool-cases, ◌⊎◌,
}
use prefetch.MoveBlocks.FreeSpace.{find_loop, find_contiguous_free_space, IsFree}

-- What is searched in: the blocks of `[start, stop)`.
abbrev pub IsFirstRun : (ℕ → Bool) → ℕ → ℕ → ℕ → Option ℕ → Type 0
IsFirstRun occupied start stop size (some first) =
    (start ≤ first)
    × (first + size ≤ stop)
    × IsFree occupied first size
    × ((b : ℕ) → start ≤ b → b < first → ¬ IsFree occupied b size)
IsFirstRun occupied start stop size none =
    (b : ℕ) → start ≤ b → b + size ≤ stop → ¬ IsFree occupied b size

module _ (occupied : ℕ → Bool) (size start : ℕ) where
  -- Before block `i`, with `c` free blocks right before it.
  record LoopInv (i c : ℕ) : Type 0 where
    free : IsFree occupied (i - c) c
    behind_start : start + c ≤ i
    short : c < size
    earlier : (b : ℕ) → start ≤ b → b < i - c → ¬ IsFree occupied b size

  -- A run that starts in front of an occupied block, and reaches it, is not free.
  run_hits : (i b : ℕ) → occupied i ≡ true → b ≤ i → i < b + size → ¬ IsFree occupied b size
  run_hits i b e lo hi run = cc (run i lo hi)

  free_upto :
      (i c b : ℕ) → occupied i ≡ false → LoopInv i c → i - c ≤ b → b < i + 1 → occupied b ≡ false
  free_upto i c b e v lo hi = ground (arith, v.free b)

  earlier_than :
      (i c b : ℕ)
      → occupied i ≡ true
      → LoopInv i c
      → start ≤ b
      → b < i + 1
      → ¬ IsFree occupied b size
  earlier_than i c b e v lo hi run = elim (dec_lt b (i - c)) [
    | yes h ↦ v.earlier b lo h run
    | no h ↦ run_hits i b e (omega arith) (omega (arith, v.short, v.behind_start)) run
  ]

  no_run_left : (i c b : ℕ) → LoopInv i c → start ≤ b → b + size ≤ i → ¬ IsFree occupied b size
  no_run_left i c b v lo hi run = elim (dec_lt b (i - c)) [
    | yes h ↦ v.earlier b lo h run
    | no h ↦ absurd (omega (arith, v.short, v.behind_start))
  ]

  step_occupied : (i c : ℕ) → occupied i ≡ true → LoopInv i c → LoopInv (i + 1) 0
  step_occupied i c e v = record {
    free = λ b lo hi. absurd (omega arith);
    behind_start = omega (arith, v.behind_start);
    short = omega (arith, v.short);
    earlier = λ b lo hi. earlier_than i c b e v lo (omega arith);
  }

  step_free : (i c : ℕ) → occupied i ≡ false → c + 1 < size → LoopInv i c → LoopInv (i + 1) (c + 1)
  step_free i c e less v = record {
    free = λ b lo hi. free_upto i c b e v (omega arith) (omega (arith, v.behind_start));
    behind_start = omega (arith, v.behind_start);
    short = less;
    earlier = λ b lo hi. v.earlier b lo (omega (arith, v.behind_start));
  }

  found :
      (i c stop : ℕ)
      → occupied i ≡ false
      → size ≤ c + 1
      → i < stop
      → LoopInv i c
      → IsFirstRun occupied start stop size (some (i + 1 - size))
  found i c stop e enough before v = (
    omega (arith, v.behind_start, v.short),
    omega (arith, v.behind_start, v.short),
    λ b lo hi.
        free_upto i c b e v (omega (arith, v.short)) (omega (arith, v.behind_start, v.short)),
    λ b lo hi. v.earlier b lo (omega (arith, v.behind_start, v.short)),
  )

  find_loop-IsFirstRun :
      (rounds i c : ℕ)
      → LoopInv i c
      → IsFirstRun occupied start (i + rounds) size (find_loop occupied size rounds i c)
  unfolding find_loop
  find_loop-IsFirstRun zero i c v = λ b lo hi. no_run_left i c b v lo (omega arith)
  find_loop-IsFirstRun (suc rounds) i c v = elim (Bool-cases (occupied i)) [
    | inl e ↦
        rw (e, find_loop)
          (retarget _ (find_loop-IsFirstRun rounds (i + 1) 0 (step_occupied i c e v)))
    | inr e ↦ elim (Bool-cases (leb size (c + 1))) [
      | inl enough ↦
          rw (e, enough, find_loop)
            (found i c (i + suc rounds) e (leb→le _ _ enough) (omega arith) v)
      | inr more ↦
          rw (e, more, find_loop)
            (retarget _
              (find_loop-IsFirstRun rounds (i + 1) (c + 1) (step_free i c e (ground arith) v)))
    ]
  ]
    where
      retarget :
          (r : Option ℕ)
          → IsFirstRun occupied start (i + 1 + rounds) size r
          → IsFirstRun occupied start (i + suc rounds) size r
      retarget r h =
          let same : i + 1 + rounds ≡ i + suc rounds = omega arith in
          subst (λ n. IsFirstRun occupied start n size r) same h

-- The call finds the first run of the wanted size, and fails only where there is none, or where the
-- superblock counts too few free blocks.
pub find_contiguous_free_space_lem :
    (occupied : ℕ → Bool) (start s_blocks_count s_free_blocks_count size : ℕ)
    → 0 < size
    → start ≤ s_blocks_count
    → let r = find_contiguous_free_space occupied start s_blocks_count s_free_blocks_count size in
      ((size ≤ s_free_blocks_count) × IsFirstRun occupied start s_blocks_count size r)
      ⊎ ((s_free_blocks_count < size) × (r ≡ none))
unfolding find_contiguous_free_space
find_contiguous_free_space_lem occupied start count free size positive inside =
    elim (dec_lt free size) [
      | yes few ↦ rw (lt→ltb free size few) (inr (few, refl))
      | no enough ↦
          let whole : start + (count - start) ≡ count = omega arith in
          let found =
            subst
              (λ n.
                IsFirstRun occupied start n size (find_loop occupied size (count - start) start 0))
              whole
              (find_loop-IsFirstRun occupied size start (count - start) start 0 (record {
                free = λ b lo hi. absurd (omega arith);
                behind_start = omega arith;
                short = positive;
                earlier = λ b lo hi. absurd (omega arith);
              })) in
          rw (ge→ltb free size (omega arith)) (inl (omega arith, found))
    ]
