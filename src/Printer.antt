-- ===== src/Printer.antt =====
-- src/utils.cpp: `buffer_printer::to_string`, the dump of a buffer for the log. A text is its bytes in
-- UTF-8. What the formatting library writes for a number is an argument.
pub mod RoundTrip
mod Tests
use oxen_libquic.Base.{
  ℕ, zero, suc, ◌+◌, ◌%◌, Bool, ◌||◌, List, [], ◌∷◌, ◌++◌, ◌==◌, ltb, if◌then◌else◌, length, take,
  drop,
}
use oxen_libquic.Base.Outcome.{Outcome, done, out_of_fuel, ◌>>=◌}

abbrev pub newline : ℕ
newline = 10

abbrev pub space : ℕ
space = 32

-- The symbols for an empty byte, for a byte that is not printed, and the bar.
abbrev pub empty_sign : List ℕ
empty_sign = 0xe2 ∷ 0x88 ∷ 0x85 ∷ []

abbrev pub dot_sign : List ℕ
dot_sign = 0xc2 ∷ 0xb7 ∷ []

abbrev pub bar : List ℕ
bar = 0xe2 ∷ 0x94 ∷ 0x83 ∷ []

-- One byte in the right column. Bytes from 128 on are negative as `char`, or above 0x7e.
unfoldable pub symbol : ℕ → List ℕ
symbol c = if c == 0 then empty_sign else if ltb c 0x20 || ltb 0x7e c then dot_sign else c ∷ []

unfoldable pub symbols : List ℕ → List ℕ
symbols [] = []
symbols (c ∷ cs) = symbol c ++ symbols cs

-- What the library writes for "Buffer[{}/{:#x} bytes]:", for "{:04x}" and for "{:02x}".
pub record Format : Type 0 where
  pub size_text : ℕ → List ℕ
  pub offset_text : ℕ → List ℕ
  pub byte_text : ℕ → List ℕ

module _ (fmt : Format) where
  -- The loop over `j`, with the rounds left, on the bytes from `b[i + j]` to `stop`.
  unfoldable pub columns : ℕ → ℕ → List ℕ → List ℕ
  columns zero j bs = []
  columns (suc n) j [] =
      (if j % 4 == 0 then space ∷ [] else []) ++ (space ∷ space ∷ columns n (j + 1) [])
  columns (suc n) j (b ∷ bs) =
      (if j % 4 == 0 then space ∷ [] else []) ++ (fmt.byte_text b ++ columns n (j + 1) bs)

  -- A round of the loop over `i`, on the bytes from `b[i]` to `stop`.
  unfoldable pub row : ℕ → List ℕ → List ℕ
  row i bs =
      newline
      ∷ (fmt.offset_text i
          ++ (space ∷ (columns 32 0 bs ++ (space ∷ space ∷ (bar ++ (symbols bs ++ bar))))))

  -- The loop over `i`, on the bytes from `b[i]` on.
  unfoldable pub rows : ℕ → ℕ → List ℕ → Outcome (List ℕ)
  rows zero i bs = out_of_fuel
  rows (suc fuel) i [] = done []
  rows (suc fuel) i (b ∷ bs) =
      rows fuel (i + 32) (drop 32 (b ∷ bs)) >>= λ more. done (row i (take 32 (b ∷ bs)) ++ more)

  -- With fuel for a round more than the buffer has bytes.
  unfoldable pub to_string : List ℕ → Outcome (List ℕ)
  to_string b = rows (suc (length b)) 0 b >>= λ text. done (fmt.size_text (length b) ++ text)
