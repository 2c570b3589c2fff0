-- ===== src/MoveBlocks/Layout/Text.antt =====
-- fgets, strtok, atol and strcmp of the C library, as the tools use them.
use prefetch.Common.{
  ℕ, ◌+◌, ◌-◌, ◌*◌, ◌^◌, Bool, true, false, ◌&&◌, ◌||◌, leb, ◌==◌, if◌then◌else◌, Option, none,
  some, List, [], ◌∷◌, ◌++◌, min, sub32,
}

-- The strings that repeated calls of `fgets(line_buf, 1024, file)` give: each ends after a newline,
-- or is 1023 bytes long, or is the end of the file. `line` is read, with room for `room` more.
unfoldable pub fgets_from : List ℕ → ℕ → List ℕ → List (List ℕ)
fgets_from [] room [] = []
fgets_from (c ∷ line) room [] = (c ∷ line) ∷ []
fgets_from line room (c ∷ cs) =
    let line' = line ++ c ∷ [] in
    let ended = fgets_from [] 1023 cs in
    let longer = fgets_from line' (room - 1) cs in
    if (c == 10) || leb room 1 then line' ∷ ended else longer

unfoldable pub fgets_lines : List ℕ → List (List ℕ)
fgets_lines bytes = fgets_from [] 1023 bytes

-- A buffer as a string.
unfoldable pub until_nul : List ℕ → List ℕ
until_nul [] = []
until_nul (c ∷ cs) = if c == 0 then [] else c ∷ until_nul cs

-- `" \t\n"`
unfoldable pub is_delimiter : ℕ → Bool
is_delimiter c = (c == 32) || (c == 9) || (c == 10)

unfoldable pub skip_delimiters : List ℕ → List ℕ
skip_delimiters [] = []
skip_delimiters (c ∷ cs) = if is_delimiter c then skip_delimiters cs else c ∷ cs

unfoldable pub token : List ℕ → List ℕ
token [] = []
token (c ∷ cs) = if is_delimiter c then [] else c ∷ token cs

unfoldable pub after_token : List ℕ → List ℕ
after_token [] = []
after_token (c ∷ cs) = if is_delimiter c then cs else after_token cs

-- The next token, and where the next call goes on.
unfoldable pub strtok : List ℕ → Option (List ℕ) × List ℕ
strtok s = elim (skip_delimiters s) [
  | [] ↦ (none, [])
  | c ∷ cs ↦ (some (token (c ∷ cs)), after_token (c ∷ cs))
]

unfoldable pub is_digit : ℕ → Bool
is_digit c = leb b'0' c && leb c b'9'

unfoldable pub decimal : ℕ → List ℕ → ℕ
decimal n [] = n
decimal n (c ∷ cs) = if is_digit c then decimal (n * 10 + (c - b'0')) cs else n

-- A token has no white space but vertical tabs, form feeds and carriage returns.
unfoldable pub skip_space : List ℕ → List ℕ
skip_space [] = []
skip_space (c ∷ cs) = if (leb 9 c && leb c 13) || (c == 32) then skip_space cs else c ∷ cs

-- The result is a `long` of 32 bits, in range or the nearest that is, taken as a word.
unfoldable pub atol : List ℕ → ℕ
atol s = elim (skip_space s) [
  | [] ↦ 0
  | c ∷ cs ↦
      if c == b'-'
      then sub32 0 (min (decimal 0 cs) (2 ^ 31))
      else min (decimal 0 (if c == b'+' then cs else c ∷ cs)) (2 ^ 31 - 1)
]

-- `strcmp(a, b) == 0`
unfoldable pub is_same : List ℕ → List ℕ → Bool
is_same [] [] = true
is_same [] (d ∷ ds) = false
is_same (c ∷ cs) [] = false
is_same (c ∷ cs) (d ∷ ds) = (c == d) && is_same cs ds
