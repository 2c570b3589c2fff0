-- ===== src/MoveBlocks/Estimate/Plain.antt =====
-- The stages of the estimate without the wrap of 32-bit words, and the estimate as the number of
-- blocks of a walk.
use prefetch.Common.{
  ℕ, zero, suc, ◌+◌, ◌-◌, ◌*◌, ◌/◌, ◌^◌, ◌≤◌, ◌<◌, ◌≡◌, refl, ap, sym, ◌∙◌, false, not, arith, ltb,
  dec_lt, lt→ltb, ge→ltb, sub32, add32, ◌==◌, if◌then◌else◌, some,
}
use prefetch.MoveBlocks.Blocks.{
  is_direct_block, is_1indirect_block, is_2indirect_block, is_3indirect_block,
}
use prefetch.MoveBlocks.Estimate.{
  Progress, span, direct_stage, indirect1_stage, indirect2_stage, indirect3_stage,
  estimate_blocks_for_range,
}
use prefetch.MoveBlocks.Estimate.Walk.{walk, closed, walk-closed, div_mono}

abbrev at : ℕ → ℕ → Progress
at s c = record { start_block = s; blocks_count = c }

-- The stages without the wrap of 32-bit words.
direct_plain : ℕ → ℕ → ℕ → Progress
direct_plain e s c =
    if ltb s 12 then (if ltb e 12 then at s (c + (e + 1 - s)) else at 12 (c + (12 - s))) else at s c

indirect1_plain : ℕ → ℕ → ℕ → ℕ → Progress
indirect1_plain apb e s c =
    if ltb s 12
    then at s c
    else if ltb s (12 + apb)
    then (if ltb e (12 + apb)
        then at s (c + (e + 1 - s) + 1)
        else at (12 + apb) (c + (12 + apb - s) + 1))
    else at s c

direct_stage_plain :
    (e s c : ℕ) → s ≤ e → e + 1 < 2 ^ 32 → direct_stage e (at s c) ≡ direct_plain e s c
unfolding direct_stage direct_plain is_direct_block
direct_stage_plain e s c h k = ground arith

indirect1_stage_plain :
    (apb e s c : ℕ)
    → s ≤ e
    → e + 1 < 2 ^ 32
    → 12 + apb < 2 ^ 32
    → indirect1_stage apb e (at s c) ≡ indirect1_plain apb e s c
unfolding indirect1_stage indirect1_plain is_1indirect_block
indirect1_stage_plain apb e s c h k l = ground arith

indirect2_plain : ℕ → ℕ → ℕ → ℕ → Progress
indirect2_plain apb e s c =
    if ltb s (12 + apb)
    then at s c
    else at s (c + (e + 1 - s) + 1 + ((e - (12 + apb)) / apb + 1 - (s - (12 + apb)) / apb))

div_le : (x a : ℕ) → 0 < a → x / a ≤ x
div_le x a h = grind arith

is_2indirect_block_plain :
    (apb b : ℕ)
    → 12 + apb + apb * apb < 2 ^ 32
    → b < 12 + apb + apb * apb
    → is_2indirect_block apb b ≡ not (ltb b (12 + apb))
unfolding is_2indirect_block
is_2indirect_block_plain apb b j l = ground arith

span_plain : (a b : ℕ) → a ≤ b → b + 1 < 2 ^ 32 → span a b ≡ b + 1 - a
span_plain a b h k = omega arith

sub32_plain : (a b : ℕ) → b ≤ a → a < 2 ^ 32 → sub32 a b ≡ a - b
sub32_plain a b h k = omega arith

rows_plain :
    (apb s e : ℕ)
    → 0 < apb
    → 12 + apb ≤ s
    → s ≤ e
    → e + 1 < 2 ^ 32
    → span (sub32 s (add32 12 apb) / apb) (sub32 e (add32 12 apb) / apb)
      ≡ (e - (12 + apb)) / apb + 1 - (s - (12 + apb)) / apb
rows_plain apb s e z h k l =
    let small = div_le (e - (12 + apb)) apb z in
    let f : add32 12 apb ≡ 12 + apb = omega arith in
    let x : sub32 s (12 + apb) ≡ s - (12 + apb) = omega arith in
    let y : sub32 e (12 + apb) ≡ e - (12 + apb) = omega arith in
    rw (f, x, y)
      (span_plain ((s - (12 + apb)) / apb) ((e - (12 + apb)) / apb)
        (div_mono (s - (12 + apb)) (e - (12 + apb)) apb z (omega arith)) (omega arith))

indirect2_stage_plain :
    (apb e s c : ℕ)
    → 0 < apb
    → s ≤ e
    → e < 12 + apb + apb * apb
    → 12 + apb + apb * apb < 2 ^ 32
    → indirect2_stage apb e (at s c) ≡ indirect2_plain apb e s c
unfolding indirect2_stage indirect2_plain
indirect2_stage_plain apb e s c z k l j =
    rw (is_2indirect_block_plain apb s j (omega arith), is_2indirect_block_plain apb e j l)
      (elim (dec_lt s (12 + apb)) [
        | yes q ↦ rw (lt→ltb s (12 + apb) q) refl
        | no q ↦
            rw
              (
                ge→ltb s (12 + apb) (omega arith),
                ge→ltb e (12 + apb) (omega arith),
                span_plain s e k (omega arith),
                rows_plain apb s e z (omega arith) k (omega arith),
              )
              refl
      ])

indirect3_stage_plain :
    (apb e s c : ℕ)
    → s < 12 + apb + apb * apb
    → 12 + apb + apb * apb < 2 ^ 32
    → indirect3_stage apb e (at s c) ≡ some c
unfolding indirect3_stage is_3indirect_block
indirect3_stage_plain apb e s c l j = ground arith

estimate_none : (apb s : ℕ) → estimate_blocks_for_range apb s 0 ≡ some (walk apb s 0)
unfolding estimate_blocks_for_range walk
estimate_none apb s = refl

estimate_stages :
    (apb s n : ℕ)
    → s + suc n < 2 ^ 32
    → estimate_blocks_for_range apb s (suc n)
      ≡ indirect3_stage apb (s + n) (
          indirect2_stage apb (s + n) (indirect1_stage apb (s + n) (direct_stage (s + n) (at s 0))))
unfolding estimate_blocks_for_range
estimate_stages apb s n h =
    let e : sub32 (add32 s (suc n)) 1 ≡ s + n = omega arith in
    let z : (suc n == 0) ≡ false = ground arith in rw (z, e) refl

direct_plain-le : (e s c : ℕ) → s ≤ e → Progress.start_block (direct_plain e s c) ≤ e
unfolding direct_plain
direct_plain-le e s c k = ground arith

indirect1_plain-le : (apb e s c : ℕ) → s ≤ e → Progress.start_block (indirect1_plain apb e s c) ≤ e
unfolding indirect1_plain
indirect1_plain-le apb e s c k = ground arith

plain : ℕ → ℕ → ℕ → Progress
plain apb e s =
    let p = direct_plain e s 0 in
    let q = indirect1_plain apb e p.start_block p.blocks_count in
    indirect2_plain apb e q.start_block q.blocks_count

stages_plain :
    (apb s e : ℕ)
    → 0 < apb
    → s ≤ e
    → e < 12 + apb + apb * apb
    → 12 + apb + apb * apb < 2 ^ 32
    → indirect2_stage apb e (indirect1_stage apb e (direct_stage e (at s 0))) ≡ plain apb e s
unfolding plain
stages_plain apb s e z k l j =
    let p = direct_plain e s 0 in
    let p_le = direct_plain-le e s 0 k in
    let q = indirect1_plain apb e p.start_block p.blocks_count in
    let q_le = indirect1_plain-le apb e p.start_block p.blocks_count p_le in
    let first = direct_stage_plain e s 0 k (omega arith) in
    let second =
      indirect1_stage_plain apb e p.start_block p.blocks_count p_le (omega arith) (omega arith) in
    ap (λ r. indirect2_stage apb e (indirect1_stage apb e r)) first
    ∙ ap (indirect2_stage apb e) second
    ∙ indirect2_stage_plain apb e q.start_block q.blocks_count z q_le l j

plain_bound :
    (apb s e : ℕ)
    → 0 < apb
    → s ≤ e
    → e < 12 + apb + apb * apb
    → Progress.start_block (plain apb e s) < 12 + apb + apb * apb
unfolding plain direct_plain indirect1_plain indirect2_plain
plain_bound apb s e z k l = ground arith

plain-closed :
    (apb s e : ℕ) → 0 < apb → s ≤ e → Progress.blocks_count (plain apb e s) ≡ closed apb s e
unfolding plain direct_plain indirect1_plain indirect2_plain closed
plain-closed apb s e z k = ground (arith, div_mono (s - (12 + apb)) (e - (12 + apb)) apb z)

estimate_closed :
    (apb s n : ℕ)
    → 0 < apb
    → s + suc n ≤ 12 + apb + apb * apb
    → 12 + apb + apb * apb < 2 ^ 32
    → estimate_blocks_for_range apb s (suc n) ≡ some (closed apb s (s + n))
estimate_closed apb s n z fits small =
    let e = s + n in
    let r = plain apb e s in
    let le : s ≤ e = omega arith in
    let lt : e < 12 + apb + apb * apb = omega arith in
    estimate_stages apb s n (omega arith)
    ∙ ap (indirect3_stage apb e) (stages_plain apb s e z le lt small)
    ∙ indirect3_stage_plain apb e r.start_block r.blocks_count (plain_bound apb s e z le lt) small
    ∙ ap some (plain-closed apb s e z le)

-- A range that ends before the triply indirect area, in a filesystem whose block numbers fit in 32
-- bits, is estimated at the number of blocks that a walk through it meets: each data block of the
-- range, and each block of the indirection on the way to one of them, counted once.
pub estimate_blocks_for_range_lem :
    (addr_per_block start count : ℕ)
    → 0 < addr_per_block
    → start + count ≤ 12 + addr_per_block + addr_per_block * addr_per_block
    → 12 + addr_per_block + addr_per_block * addr_per_block < 2 ^ 32
    → estimate_blocks_for_range addr_per_block start count ≡ some (walk addr_per_block start count)
estimate_blocks_for_range_lem apb s zero z fits small = estimate_none apb s
estimate_blocks_for_range_lem apb s (suc n) z fits small =
    estimate_closed apb s n z fits small ∙ sym (ap some (walk-closed apb s n z))
