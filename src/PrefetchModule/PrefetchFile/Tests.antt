-- ===== src/PrefetchModule/PrefetchFile/Tests.antt =====
-- A saved trace that is read two bytes at a time.
use prefetch.Common.{
  ℕ, ◌-◌, ◌+◌, ◌^◌, ◌≡◌, refl, ap, true, none, some, List, [], ◌∷◌, take, drop, min, arith,
}
use prefetch.PrefetchModule.TraceBuffer.{Result, ok}
use prefetch.PrefetchModule.PrefetchFile.{prefetch_started, do_prefetch_from_file}
use prefetch.PrefetchModule.PrefetchFile.Reading.{IsReading, do_prefetch_from_file_lem}

abbrev saved_bytes : List ℕ
saved_bytes = 10 ∷ 20 ∷ 30 ∷ 40 ∷ 50 ∷ []

abbrev read_two : ℕ → ℕ → Result (List ℕ)
read_two p count = ok (take (min 2 (min count (5 - p))) (drop p saved_bytes))

read_two-IsReading : IsReading saved_bytes read_two
read_two-IsReading = record {
  inside = λ p count h k. (min 2 (min count (5 - p)), omega arith, omega arith, omega arith, refl);
  behind = λ p count h.
      let none_left : min 2 (min count (5 - p)) ≡ 0 = omega arith in
      ap (λ n. ok (take n (drop p saved_bytes))) none_left;
}

-- The file has one byte more than its size was, which is seen without its upper bits.
do_prefetch_from_file_lem_example :
    do_prefetch_from_file read_two none (2 ^ 32 + 4) true
    ≡ some (prefetch_started (take 4 saved_bytes))
do_prefetch_from_file_lem_example =
    do_prefetch_from_file_lem saved_bytes read_two read_two-IsReading (2 ^ 32 + 4)
