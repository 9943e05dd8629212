-- ===== src/Printer/RoundTrip.antt =====
-- The dump of a buffer is read back.
use oxen_libquic.Base.{
  ℕ, zero, suc, ◌+◌, ◌-◌, ◌*◌, ◌/◌, ◌%◌, ◌≤◌, ◌<◌, ◌≡◌, refl, ap, ◌∙◌, Bool, true, false, List, [],
  ◌∷◌, ◌++◌, ◌==◌, ltb, if◌then◌else◌, length, take, drop, arith, All, append_assoc,
  take-append-drop, length-drop, length-take, All-take, All-drop,
}
use oxen_libquic.Base.Outcome.{done, ◌>>=◌}
use oxen_libquic.Printer.{
  newline, space, bar, symbol, symbols, Format, columns, row, rows, to_string,
}

abbrev pub digit : ℕ → ℕ
digit d = if ltb d 10 then 48 + d else 87 + d

abbrev pub Lacks : ℕ → List ℕ → Type 0
Lacks c = All (λ b. (b == c) ≡ false)

-- What the printer relies on: a byte is two hexadecimal digits, an offset has no space in it, and
-- the line on the size is one line.
pub record IsHex (fmt : Format) : Type 0 where
  pub two_digits : (b : ℕ) → b < 256 → fmt.byte_text b ≡ digit (b / 16) ∷ digit (b % 16) ∷ []
  pub one_word : (i : ℕ) → Lacks space (fmt.offset_text i)
  pub one_line : (n : ℕ) → Lacks newline (fmt.size_text n)

abbrev pub IsByte : ℕ → Type 0
IsByte b = b < 256

-- A reader of dumps: it takes the bytes from the columns of each line.
abbrev pub skip_to : ℕ → List ℕ → List ℕ
skip_to c [] = []
skip_to c (b ∷ bs) = if b == c then bs else skip_to c bs

abbrev pub value : ℕ → ℕ
value c = if ltb c 58 then c - 48 else c - 87

abbrev pub read_byte : (List ℕ → List ℕ) → List ℕ → List ℕ
read_byte next [] = []
read_byte next (c ∷ []) = []
read_byte next (c ∷ d ∷ rest) =
    if c == space then next rest else (value c * 16 + value d) ∷ next rest

abbrev pub read_columns : ℕ → ℕ → List ℕ → List ℕ
read_columns zero j text = []
read_columns (suc n) j text =
    read_byte (read_columns n (j + 1)) (if j % 4 == 0 then drop 1 text else text)

pub read_lines : ℕ → List ℕ → List ℕ
read_lines zero text = []
read_lines (suc n) [] = []
read_lines (suc n) (c ∷ cs) =
    let cols = skip_to space (c ∷ cs) in
    read_columns 32 0 cols ++ read_lines n (skip_to newline cols)

-- At most `n` lines, after the one on the size.
pub read_dump : ℕ → List ℕ → List ℕ
unfolding read_lines
read_dump n text = read_lines n (skip_to newline text)

skip_to-append : (c : ℕ) (xs ys : List ℕ) → Lacks c xs → skip_to c (xs ++ ys) ≡ skip_to c ys
skip_to-append c [] ys a = refl
skip_to-append c (x ∷ xs) ys (p, a) = rw p (skip_to-append c xs ys a)

Lacks-append : (c : ℕ) (xs ys : List ℕ) → Lacks c xs → Lacks c ys → Lacks c (xs ++ ys)
Lacks-append c [] ys a b = b
Lacks-append c (x ∷ xs) ys (p, a) b = (p, Lacks-append c xs ys a b)

digit_lem :
    (b : ℕ)
    → b < 256
    → (value (digit (b / 16)) * 16 + value (digit (b % 16)) ≡ b)
      × ((digit (b / 16) == space) ≡ false)
      × ((digit (b / 16) == newline) ≡ false)
      × ((digit (b % 16) == newline) ≡ false)
digit_lem b h = (ground arith, ground arith, ground arith, ground arith)

symbol-Lacks : (c : ℕ) → Lacks newline (symbol c)
unfolding symbol
symbol-Lacks c = ground arith

symbols-Lacks : (cs : List ℕ) → Lacks newline (symbols cs)
unfolding symbols
symbols-Lacks [] = tt
symbols-Lacks (c ∷ cs) =
    Lacks-append newline (symbol c) (symbols cs) (symbol-Lacks c) (symbols-Lacks cs)

-- A gap before every fourth byte.
abbrev gap : Bool → List ℕ
gap t = if t then space ∷ [] else []

gap-Lacks : (t : Bool) → Lacks newline (gap t)
gap-Lacks true = (refl, tt)
gap-Lacks false = tt

drop-gap : (t : Bool) (xs : List ℕ) → (if t then drop 1 (gap t ++ xs) else gap t ++ xs) ≡ xs
drop-gap true xs = refl
drop-gap false xs = refl

read_lines_nil : (n : ℕ) → read_lines n [] ≡ []
unfolding read_lines
read_lines_nil zero = refl
read_lines_nil (suc n) = refl

-- A line starts with a word and a space.
read_lines-word :
    (n : ℕ) (word text : List ℕ)
    → Lacks space word
    → read_lines (suc n) (word ++ space ∷ text)
      ≡ read_columns 32 0 text ++ read_lines n (skip_to newline text)
unfolding read_lines
read_lines-word n [] text a = refl
read_lines-word n (c ∷ word) text a =
    ap (λ k. read_columns 32 0 k ++ read_lines n (skip_to newline k))
      (skip_to-append space (c ∷ word) (space ∷ text) a)

module _ (fmt : Format) (h : IsHex fmt) where
  columns-Lacks : (n j : ℕ) (bs : List ℕ) → All IsByte bs → Lacks newline (columns fmt n j bs)
  unfolding columns
  columns-Lacks zero j bs a = tt
  columns-Lacks (suc n) j [] a =
      Lacks-append newline (gap (j % 4 == 0)) _ (gap-Lacks (j % 4 == 0))
        (refl, (refl, columns-Lacks n (j + 1) [] a))
  columns-Lacks (suc n) j (b ∷ bs) (p, a) =
      let (v, s, x, y) = digit_lem b p in
      Lacks-append newline (gap (j % 4 == 0)) _ (gap-Lacks (j % 4 == 0))
        (rw (h.two_digits b p) (x, (y, columns-Lacks n (j + 1) bs a)))

  read_columns-gap :
      (n j : ℕ) (xs rest : List ℕ)
      → read_columns (suc n) j ((gap (j % 4 == 0) ++ xs) ++ rest)
        ≡ read_byte (read_columns n (j + 1)) (xs ++ rest)
  read_columns-gap n j xs rest =
      ap (read_columns (suc n) j) (append_assoc (gap (j % 4 == 0)) xs rest)
      ∙ ap (read_byte (read_columns n (j + 1))) (drop-gap (j % 4 == 0) (xs ++ rest))

  read_columns-columns :
      (n j : ℕ) (bs rest : List ℕ)
      → All IsByte bs
      → length bs ≤ n
      → read_columns n j (columns fmt n j bs ++ rest) ≡ bs
  unfolding columns
  read_columns-columns zero j [] rest a l = refl
  read_columns-columns zero j (b ∷ bs) rest a l = absurd (omega arith)
  read_columns-columns (suc n) j [] rest a l =
      read_columns-gap n j (space ∷ space ∷ columns fmt n (j + 1) []) rest
      ∙ read_columns-columns n (j + 1) [] rest a (omega arith)
  read_columns-columns (suc n) j (b ∷ bs) rest (p, a) l =
      let (v, s, x, y) = digit_lem b p in
      read_columns-gap n j (fmt.byte_text b ++ columns fmt n (j + 1) bs) rest
      ∙ rw (h.two_digits b p, s, v)
          (ap (◌∷◌ b) (read_columns-columns n (j + 1) bs rest a (omega arith)))

  -- Up to the end of a row, from its columns on.
  skip_to-row :
      (n j : ℕ) (bs cs rest : List ℕ)
      → All IsByte bs
      → skip_to newline
          ((columns fmt n j bs ++ (space ∷ space ∷ (bar ++ (symbols cs ++ bar)))) ++ rest)
        ≡ skip_to newline rest
  skip_to-row n j bs cs rest a =
      skip_to-append newline (columns fmt n j bs ++ (space ∷ space ∷ (bar ++ (symbols cs ++ bar))))
        rest
        (Lacks-append newline (columns fmt n j bs) _ (columns-Lacks n j bs a) (
          refl,
          (
            refl,
            (
              refl,
              (
                refl,
                (
                  refl,
                  Lacks-append newline (symbols cs) bar (symbols-Lacks cs)
                      (refl, (refl, (refl, tt))),
                ),
              ),
            ),
          ),
        ))

  -- A row, read from behind its newline.
  read_lines-row :
      (n i : ℕ) (bs rest : List ℕ)
      → All IsByte bs
      → length bs ≤ 32
      → read_lines (suc n) (skip_to newline (row fmt i bs ++ rest))
        ≡ bs ++ read_lines n (skip_to newline rest)
  unfolding row
  read_lines-row n i bs rest a l =
      let body = columns fmt 32 0 bs ++ (space ∷ space ∷ (bar ++ (symbols bs ++ bar))) in
      ap (read_lines (suc n)) (append_assoc (fmt.offset_text i) (space ∷ body) rest)
      ∙ read_lines-word n (fmt.offset_text i) (body ++ rest) (h.one_word i)
      ∙ ap (λ k. k ++ read_lines n (skip_to newline (body ++ rest)))
          (ap (read_columns 32 0) (append_assoc (columns fmt 32 0 bs) _ rest)
            ∙ read_columns-columns 32 0 bs _ a l)
      ∙ ap (λ k. bs ++ read_lines n k) (skip_to-row 32 0 bs bs rest a)

  -- The rows come to an end, and are read back.
  rows_lem :
      (fuel i n : ℕ) (bs : List ℕ)
      → All IsByte bs
      → length bs < fuel
      → length bs ≤ n
      → (text : List ℕ) × (rows fmt fuel i bs ≡ done text)
        × (read_lines n (skip_to newline text) ≡ bs)
  unfolding rows
  rows_lem zero i n bs a l m = absurd (omega arith)
  rows_lem (suc fuel) i n [] a l m = ([], refl, read_lines_nil n)
  rows_lem (suc fuel) i zero (b ∷ bs) a l m = absurd (omega arith)
  rows_lem (suc fuel) i (suc n) (b ∷ bs) a l m =
      let (text, e, r) =
        rows_lem fuel (i + 32) n (drop 32 (b ∷ bs)) (All-drop IsByte 32 (b ∷ bs) a)
          (omega (arith, length-drop 32 (b ∷ bs))) (omega (arith, length-drop 32 (b ∷ bs))) in
      (
        row fmt i (take 32 (b ∷ bs)) ++ text,
        ap (λ k. k >>= λ more. done (row fmt i (take 32 (b ∷ bs)) ++ more)) e,
        read_lines-row n i (take 32 (b ∷ bs)) text (All-take IsByte 32 (b ∷ bs) a)
              (omega (arith, length-take 32 (b ∷ bs)))
            ∙ ap (λ k. take 32 (b ∷ bs) ++ k) r
            ∙ take-append-drop 32 (b ∷ bs),
      )

-- The printer comes to an end for every buffer, and the bytes of the buffer can be read back from
-- its hexadecimal columns, by a reader that takes as many lines as the buffer has bytes, or more.
pub to_string-read_dump :
    (fmt : Format) (b : List ℕ) (n : ℕ)
    → IsHex fmt
    → All IsByte b
    → length b ≤ n
    → (text : List ℕ) × (to_string fmt b ≡ done text) × (read_dump n text ≡ b)
unfolding to_string read_dump
to_string-read_dump fmt b n h a l =
    let (text, e, r) = rows_lem fmt h (suc (length b)) 0 n b a (omega arith) l in
    (
      fmt.size_text (length b) ++ text,
      ap (λ k. k >>= λ t. done (fmt.size_text (length b) ++ t)) e,
      ap (read_lines n)
            (skip_to-append newline (fmt.size_text (length b)) text (h.one_line (length b)))
          ∙ r,
    )
