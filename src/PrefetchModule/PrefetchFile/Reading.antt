-- ===== src/PrefetchModule/PrefetchFile/Reading.antt =====
-- What is read from a saved trace.
use native.Mathlib.Nat.{zero-add, suc-add}
use prefetch.Common.{
  length-drop, ltb, ◌&&◌, ◌%◌, ◌^◌, pos, negsuc, word_mod, Bool-cases, inl, inr, dec_lt, take_all,
  ℕ, zero, suc, ◌+◌, ◌-◌, ◌≤◌, ◌<◌, ◌≡◌, refl, sym, ap, ◌∙◌, true, false, leb, ◌==◌, if◌then◌else◌,
  none, some, List, [], ◌∷◌, ◌++◌, take, drop, length, length-take, arith,
}
use prefetch.PrefetchModule.TraceBuffer.{Result, ok}
use prefetch.PrefetchModule.PrefetchFile.{
  FileOutcome, prefetch_started, empty_trace, read_loop, after_loop, int_of, with_size,
  do_prefetch_from_file,
}

-- `kernel_read` reads the file `content`: inside of it at least one byte and at most what was asked
-- for, at its end or behind it nothing.
pub record IsReading (content : List ℕ) (kernel_read : ℕ → ℕ → Result (List ℕ)) : Type 0 where
  pub inside :
      (p count : ℕ)
      → p < length content
      → 0 < count
      → (n : ℕ) × (0 < n)
        × (n ≤ count)
        × (p + n ≤ length content)
        × (kernel_read p count ≡ ok (take n (drop p content)))
  pub behind : (p count : ℕ) → length content ≤ p → kernel_read p count ≡ ok []

take_parts : (p n : ℕ) (xs : List ℕ) → take p xs ++ take n (drop p xs) ≡ take (p + n) xs
take_parts zero n xs = rw zero-add
take_parts (suc p) zero [] = rw suc-add refl
take_parts (suc p) (suc n) [] = rw suc-add refl
take_parts (suc p) n (x ∷ xs) = rw suc-add (ap (λ ys. x ∷ ys) (take_parts p n xs))

take-take : (n : ℕ) (xs : List ℕ) → take n (take n xs) ≡ take n xs
take-take zero xs = refl
take-take (suc n) [] = refl
take-take (suc n) (x ∷ xs) = ap (λ ys. x ∷ ys) (take-take n xs)

module _ (content : List ℕ) (kernel_read : ℕ → ℕ → Result (List ℕ))
    (reading : IsReading content kernel_read) where
  length-part : (p : ℕ) → p ≤ length content → length (take p content) ≡ p
  length-part p h = omega (arith, length-take p content)

  read_loop_end :
      (rounds size : ℕ) (data_read : List ℕ)
      → leb size (length data_read) ≡ true
      → read_loop kernel_read rounds size data_read ≡ some (ok data_read)
  unfolding read_loop
  read_loop_end zero size data_read h = rw h refl
  read_loop_end (suc rounds) size data_read h = rw h refl

  read_loop_step :
      (rounds size p : ℕ) (bytes : List ℕ)
      → p ≤ length content
      → p < size
      → kernel_read p (size - p) ≡ ok bytes
      → read_loop kernel_read (suc rounds) size (take p content) ≡ (
          if length bytes == 0
          then some (ok (take p content))
          else read_loop kernel_read rounds size (take p content ++ bytes))
  unfolding read_loop
  read_loop_step rounds size p bytes le lt h =
      let more : leb size (length (take p content)) ≡ false = ground (arith, length-part p le) in
      rw (more, length-part p le, h) refl

  full :
      (rounds size p : ℕ)
      → p ≤ length content
      → p ≡ size
      → read_loop kernel_read rounds size (take p content) ≡ some (ok (take size content))
  full rounds size p le e =
      read_loop_end rounds size (take p content) (ground (arith, length-part p le))
      ∙ ap (λ n. some (ok (take n content))) e

  read_more :
      (rounds size p n : ℕ)
      → p < size
      → 0 < n
      → p + n ≤ length content
      → kernel_read p (size - p) ≡ ok (take n (drop p content))
      → read_loop kernel_read (suc rounds) size (take p content)
        ≡ read_loop kernel_read rounds size (take (p + n) content)
  read_more rounds size p n lt some_n fits h =
      let bytes = take n (drop p content) in
      let filled : (length bytes == 0) ≡ false =
        ground (arith, length-take n (drop p content), length-drop p content) in
      read_loop_step rounds size p bytes (omega arith) lt h
      ∙ rw (filled, take_parts p n content) refl

  -- The rest of the loop, when `p` bytes have been read.
  read_loop_lem :
      (rounds size p : ℕ)
      → p ≤ length content
      → p ≤ size
      → size ≤ p + rounds
      → read_loop kernel_read rounds size (take p content) ≡ some (ok (take size content))
  read_loop_lem zero size p le le' enough = full zero size p le (omega arith)
  read_loop_lem (suc rounds) size p le le' enough = elim (dec_lt p size) [
    | no h ↦ full (suc rounds) size p le (omega arith)
    | yes lt ↦ elim (dec_lt p (length content)) [
      | yes inner ↦
          let (n, some_n, most, fits, e) = reading.inside p (size - p) inner (omega arith) in
          read_more rounds size p n lt some_n fits e
          ∙ read_loop_lem rounds size (p + n) fits (omega arith) (omega arith)
      | no h ↦
          read_loop_step rounds size p [] le lt (reading.behind p (size - p) (omega arith))
          ∙ ap (λ bytes. some (ok bytes))
              (take_all p content (omega arith) ∙ sym (take_all size content (omega arith)))
    ]
  ]

  loaded :
      (n : ℕ)
      → with_size kernel_read (pos (suc n)) true ≡ some (prefetch_started (take (suc n) content))
  unfolding with_size after_loop
  loaded n =
      ap (after_loop kernel_read (suc n))
        (read_loop_lem (suc n) (suc n) 0 (omega arith) (omega arith) (omega arith))
      ∙ ap (λ bytes. some (prefetch_started bytes)) (take-take (suc n) content)

  -- What becomes of a file whose size has these low 32 bits.
  abbrev pub outcome : ℕ → FileOutcome
  outcome w = if ltb 0 w && ltb w (2 ^ 31) then prefetch_started (take w content) else empty_trace

  by_word :
      (w : ℕ)
      → with_size kernel_read (if ltb w (2 ^ 31) then pos w else negsuc (word_mod - 1 - w)) true
        ≡ some (outcome w)
  unfolding with_size
  by_word zero = refl
  by_word (suc n) = elim (Bool-cases (ltb (suc n) (2 ^ 31))) [
    | inl small ↦
        let some_there : ltb 0 (suc n) ≡ true = ground arith in rw (small, some_there) (loaded n)
    | inr negative ↦
        let some_there : ltb 0 (suc n) ≡ true = ground arith in rw (negative, some_there) refl
  ]

  -- A trace that can be opened, for which there is memory, is prefetched with the bytes of the file up to
  -- its size, if the low 32 bits of `i_size` are between 1 and 2^31 - 1: then they are the size, and a
  -- file that has become shorter is prefetched as far as it goes. All other sizes count as an empty
  -- trace. As many rounds as the size are enough.
  pub do_prefetch_from_file_lem :
      (i_size : ℕ)
      → do_prefetch_from_file kernel_read none i_size true ≡ some (outcome (i_size % 2 ^ 32))
  unfolding do_prefetch_from_file int_of
  do_prefetch_from_file_lem i_size = by_word (i_size % 2 ^ 32)
