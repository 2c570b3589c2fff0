-- ===== src/PrintTrace/ReadBack.antt =====
-- A printed line can be read back as the record.
use prefetch.Common.{
  ℕ, zero, suc, ◌+◌, ◌*◌, ◌/◌, ◌%◌, ◌^◌, ◌<◌, ◌≡◌, refl, ap, ◌∙◌, false, arith, ◌==◌, if◌then◌else◌,
  Bool-cases, inl, inr, List, [], ◌∷◌, ◌++◌,
}
use mathlib.Core.List.{append_assoc}
use prefetch.Trace.{TraceRecord, IsTraceRecord, major, minor}
use prefetch.MoveBlocks.Layout.Text.{decimal, is_digit}
use prefetch.PrintTrace.{digits, print_unsigned, record_line}

digit-decimal :
    (m c : ℕ) (rest : List ℕ) → c < 10 → decimal m ((b'0' + c) ∷ rest) ≡ decimal (m * 10 + c) rest
unfolding decimal is_digit
digit-decimal m c rest h = ground arith

last_digit :
    (number : ℕ) (rest : List ℕ)
    → number < 10
    → decimal 0 ((b'0' + number % 10) ∷ rest) ≡ decimal number rest
last_digit number rest h =
    digit-decimal 0 (number % 10) rest (omega arith) ∙ ap (λ m. decimal m rest) (omega arith)

tenth : (n number : ℕ) → number < 10 ^ suc (suc n) → number / 10 < 10 ^ suc n
tenth n number h = grind arith

-- The digits of a number read back as the number.
decimal-digits :
    (n number : ℕ) (rest : List ℕ)
    → number < 10 ^ suc n
    → decimal 0 (digits (suc n) number rest) ≡ decimal number rest
unfolding digits
decimal-digits zero number rest h = elim (Bool-cases (number / 10 == 0)) [
  | inl e ↦ rw (e) (last_digit number rest (omega arith))
  | inr e ↦ rw (e) (last_digit number rest (omega arith))
]
decimal-digits (suc n) number rest h = elim (Bool-cases (number / 10 == 0)) [
  | inl e ↦ rw (e) (last_digit number rest (ground arith))
  | inr e ↦ rw (e) (
      decimal-digits n (number / 10) ((b'0' + number % 10) ∷ rest) (tenth n number h)
      ∙ digit-decimal (number / 10) (number % 10) rest (omega arith)
      ∙ ap (λ m. decimal m rest) (omega arith))
]

-- What follows the digits and one separator.
after_number : List ℕ → List ℕ
after_number [] = []
after_number (c ∷ cs) = if is_digit c then after_number cs else cs

after_number-digit :
    (c : ℕ) (rest : List ℕ) → c < 10 → after_number ((b'0' + c) ∷ rest) ≡ after_number rest
unfolding after_number is_digit
after_number-digit c rest h = ground arith

after_number-digits :
    (n number : ℕ) (rest : List ℕ) → after_number (digits n number rest) ≡ after_number rest
unfolding digits
after_number-digits zero number rest = refl
after_number-digits (suc n) number rest = elim (Bool-cases (number / 10 == 0)) [
  | inl e ↦ rw (e) (after_number-digit (number % 10) rest (omega arith))
  | inr e ↦ rw (e) (
      after_number-digits n (number / 10) ((b'0' + number % 10) ∷ rest)
      ∙ after_number-digit (number % 10) rest (omega arith))
]

digits-append :
    (n number : ℕ) (rest more : List ℕ)
    → digits n number rest ++ more ≡ digits n number (rest ++ more)
unfolding digits
digits-append zero number rest more = refl
digits-append (suc n) number rest more = elim (Bool-cases (number / 10 == 0)) [
  | inl e ↦ rw (e) refl
  | inr e ↦ rw (e) (digits-append n (number / 10) ((b'0' + number % 10) ∷ rest) more)
]

-- A printed word, a separator and the rest.
word_read :
    (number separator : ℕ) (rest : List ℕ)
    → number < 2 ^ 32
    → is_digit separator ≡ false
    → (decimal 0 (print_unsigned number ++ separator ∷ rest) ≡ number)
      × (after_number (print_unsigned number ++ separator ∷ rest) ≡ rest)
unfolding print_unsigned decimal after_number
word_read number separator rest h stop =
    let flat = digits-append 10 number [] (separator ∷ rest) in
    let value = decimal-digits 9 number (separator ∷ rest) (omega arith) in
    let behind = after_number-digits 10 number (separator ∷ rest) in
    let stopped : decimal number (separator ∷ rest) ≡ number = rw (stop, decimal) refl in
    let skipped : after_number (separator ∷ rest) ≡ rest = rw (stop, after_number) refl in
    (ap (decimal 0) flat ∙ value ∙ stopped, ap after_number flat ∙ behind ∙ skipped)

-- A line read back: five numbers with one separator behind each, and what follows the line.
pub read_line : List ℕ → TraceRecord × List ℕ
read_line line =
    let s1 = after_number line in
    let s2 = after_number s1 in
    let s3 = after_number s2 in
    let s4 = after_number s3 in
    (
      record {
        device = decimal 0 line * 2 ^ 20 + decimal 0 s1;
        inode_no = decimal 0 s2;
        range_start = decimal 0 s3;
        range_length = decimal 0 s4;
      },
      after_number s4,
    )

-- The line with what follows it, word by word.
record_line-rest :
    (r : TraceRecord) (rest : List ℕ)
    → record_line r ++ rest
      ≡ print_unsigned (major r.device)
        ++ b':'
          ∷ (print_unsigned (minor r.device)
              ++ 9
                ∷ (print_unsigned r.inode_no
                    ++ 9
                      ∷ (print_unsigned r.range_start
                          ++ 9 ∷ (print_unsigned r.range_length ++ 10 ∷ rest))))
unfolding record_line
record_line-rest r rest =
    let p5 = print_unsigned r.range_length in
    let p4 = print_unsigned r.range_start in
    let p3 = print_unsigned r.inode_no in
    let p2 = print_unsigned (minor r.device) in
    let t5 = p5 ++ 10 ∷ [] in
    let t4 = p4 ++ 9 ∷ t5 in
    let t3 = p3 ++ 9 ∷ t4 in
    let t2 = p2 ++ 9 ∷ t3 in
    let p1 = print_unsigned (major r.device) in
    append_assoc p1 (b':' ∷ t2) rest
    ∙ ap (λ t. p1 ++ b':' ∷ t)
        (append_assoc p2 (9 ∷ t3) rest
          ∙ ap (λ t. p2 ++ 9 ∷ t)
              (append_assoc p3 (9 ∷ t4) rest
                ∙ ap (λ t. p3 ++ 9 ∷ t)
                    (append_assoc p4 (9 ∷ t5) rest
                      ∙ ap (λ t. p4 ++ 9 ∷ t) (append_assoc p5 (10 ∷ []) rest))))

-- The record whose device has these two numbers.
device_parts : (d : ℕ) → major d * 2 ^ 20 + minor d ≡ d
unfolding major minor
device_parts d = omega arith

parts_words : (d : ℕ) → d < 2 ^ 32 → (major d < 2 ^ 32) × (minor d < 2 ^ 32)
unfolding major minor
parts_words d h = (omega arith, omega arith)

digit_9 : is_digit 9 ≡ false
unfolding is_digit
digit_9 = refl

digit_10 : is_digit 10 ≡ false
unfolding is_digit
digit_10 = refl

digit_colon : is_digit b':' ≡ false
unfolding is_digit
digit_colon = refl

-- The line that is printed for a record of words reads back as the record, whatever follows it.
pub read_line-record_line :
    (r : TraceRecord) (rest : List ℕ)
    → IsTraceRecord r
    → read_line (record_line r ++ rest) ≡ (r, rest)
unfolding read_line
read_line-record_line r rest w =
    let (hi, lo) = parts_words r.device w.device_word in
    let t5 = print_unsigned r.range_length ++ 10 ∷ rest in
    let t4 = print_unsigned r.range_start ++ 9 ∷ t5 in
    let t3 = print_unsigned r.inode_no ++ 9 ∷ t4 in
    let t2 = print_unsigned (minor r.device) ++ 9 ∷ t3 in
    let e1 = word_read (major r.device) b':' t2 hi digit_colon in
    let e2 = word_read (minor r.device) 9 t3 lo digit_9 in
    let e3 = word_read r.inode_no 9 t4 w.inode_word digit_9 in
    let e4 = word_read r.range_start 9 t5 w.start_word digit_9 in
    let e5 = word_read r.range_length 10 rest w.length_word digit_10 in
    rw
      (
        record_line-rest r rest,
        e1.1,
        e2.1,
        e3.1,
        e4.1,
        e5.1,
        e1.0,
        e2.0,
        e3.0,
        e4.0,
        e5.0,
        device_parts r.device,
      )
      refl
