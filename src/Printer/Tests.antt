-- ===== src/Printer/Tests.antt =====
-- The round trip, with numbers of four hexadecimal digits.
use oxen_libquic.Base.{ℕ, ◌/◌, ◌%◌, ◌<◌, ◌≡◌, refl, false, List, [], ◌∷◌, ◌==◌, arith}
use oxen_libquic.Base.Outcome.{done}
use oxen_libquic.Printer.{Format, to_string, space, newline}
use oxen_libquic.Printer.RoundTrip.{digit, IsHex, read_dump, to_string-read_dump}

abbrev four_digits : ℕ → List ℕ
four_digits n =
    digit (n / 4096 % 16) ∷ digit (n / 256 % 16) ∷ digit (n / 16 % 16) ∷ digit (n % 16) ∷ []

abbrev hex : Format
hex = record {
  size_text = λ n. b'#' ∷ four_digits n;
  offset_text = four_digits;
  byte_text = λ b. digit (b / 16) ∷ digit (b % 16) ∷ [];
}

digit-ne-space : (d : ℕ) → d < 16 → (digit d == space) ≡ false
digit-ne-space d h = ground arith

digit-ne-newline : (d : ℕ) → d < 16 → (digit d == newline) ≡ false
digit-ne-newline d h = ground arith

hex-IsHex : IsHex hex
hex-IsHex = record {
  two_digits = λ b h. refl;
  one_word = λ n. (
    digit-ne-space (n / 4096 % 16) (omega arith),
    (
      digit-ne-space (n / 256 % 16) (omega arith),
      (digit-ne-space (n / 16 % 16) (omega arith), (digit-ne-space (n % 16) (omega arith), tt)),
    ),
  );
  one_line = λ n. (
    refl,
    (
      digit-ne-newline (n / 4096 % 16) (omega arith),
      (
        digit-ne-newline (n / 256 % 16) (omega arith),
        (
          digit-ne-newline (n / 16 % 16) (omega arith),
          (digit-ne-newline (n % 16) (omega arith), tt),
        ),
      ),
    ),
  );
}

to_string-read_dump_example :
    (text : List ℕ) × (to_string hex (0 ∷ 65 ∷ 10 ∷ 32 ∷ 200 ∷ []) ≡ done text)
    × (read_dump 5 text ≡ 0 ∷ 65 ∷ 10 ∷ 32 ∷ 200 ∷ [])
to_string-read_dump_example =
    to_string-read_dump hex (0 ∷ 65 ∷ 10 ∷ 32 ∷ 200 ∷ []) 5 hex-IsHex (omega arith) (omega arith)
