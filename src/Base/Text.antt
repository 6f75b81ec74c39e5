-- ===== src/Base/Text.antt =====
-- C strings as lists of bytes, without the final NUL, and the conversions of `scanf` and `atoi` on
-- them: white space is skipped, then a sign and decimal digits are read.
use Prim.Native.Char.{code}
use Prim.Native.String.{String}
use memory_mutation_testing.Base.Tests.{leb, ◌==◌, if◌then◌else◌}
use memory_mutation_testing.Base.Int.{ℤ, pos, ◌-ℤ◌}
use Prim.Native.Nat.{ℕ, ◌+◌, ◌-◌, ◌*◌}
use mathlib.Core.Bool.{Bool, true, false, ◌&&◌, ◌||◌}
use mathlib.Core.Option.{Option, none, some}
use mathlib.Core.Option as Option
use mathlib.Core.Path.{◌≡◌, refl}
use native.Mathlib.Omega.{arith}
use mathlib.Core.List.{List, [], ◌∷◌}

abbrev pub Bytes : Type 0
Bytes = List ℕ

-- `strcmp(a, b) == 0`
unfoldable pub bytes_eq : Bytes → Bytes → Bool
bytes_eq [] [] = true
bytes_eq [] (y ∷ ys) = false
bytes_eq (x ∷ xs) [] = false
bytes_eq (x ∷ xs) (y ∷ ys) = (x == y) && bytes_eq xs ys

-- The bytes of an ASCII literal.
abbrev pub codes : String → Bytes
codes String.[] = []
codes (String.◌∷◌ c s) = code c ∷ codes s

abbrev pub is_digit : ℕ → Bool
is_digit c = leb b'0' c && leb c b'9'

-- `isspace`: tab, line feed, vertical tab, form feed, carriage return and the blank.
abbrev pub is_space : ℕ → Bool
is_space c = (c == b' ') || (leb 9 c && leb c 13)

unfoldable pub skip_space : Bytes → Bytes
skip_space [] = []
skip_space (c ∷ s) = if is_space c then skip_space s else c ∷ s

unfoldable pub scan_digits : ℕ → Bytes → ℕ × Bytes
scan_digits acc [] = (acc, [])
scan_digits acc (c ∷ s) = if is_digit c then scan_digits (acc * 10 + (c - b'0')) s else (acc, c ∷ s)

-- At least one digit.
unfoldable pub scan_nat : Bytes → Option (ℕ × Bytes)
unfolding scan_digits
scan_nat [] = none
scan_nat (c ∷ s) = if is_digit c then some (scan_digits 0 (c ∷ s)) else none

abbrev negated : ℕ × Bytes → ℤ × Bytes
negated (n, s) = (pos 0 -ℤ pos n, s)

abbrev unsigned : ℕ × Bytes → ℤ × Bytes
unsigned (n, s) = (pos n, s)

unfoldable pub scan_signed : Bytes → Option (ℤ × Bytes)
unfolding scan_nat ◌-ℤ◌
scan_signed [] = none
scan_signed (c ∷ s) =
    if c == b'-'
    then Option.map negated (scan_nat s)
    else if c == b'+'
    then Option.map unsigned (scan_nat s)
    else Option.map unsigned (scan_nat (c ∷ s))

-- The conversion `%d`: the number and what follows it, or a matching failure.
unfoldable pub scan_int : Bytes → Option (ℤ × Bytes)
unfolding skip_space scan_signed
scan_int s = scan_signed (skip_space s)

-- `atoi`, which is 0 where there is no number.
unfoldable pub atoi : Bytes → ℤ
unfolding scan_int
atoi s = elim (scan_int s) [ none ↦ pos 0 | some (n, _) ↦ n ]

pub bytes_eq_self : (s : Bytes) → bytes_eq s s ≡ true
unfolding bytes_eq
bytes_eq_self [] = refl
bytes_eq_self (c ∷ s) = ground (arith, bytes_eq_self s)

pub bytes_eq→eq : (s t : Bytes) → bytes_eq s t ≡ true → s ≡ t
unfolding bytes_eq
bytes_eq→eq [] [] h = refl
bytes_eq→eq [] (y ∷ t) h = cc
bytes_eq→eq (x ∷ s) [] h = cc
bytes_eq→eq (x ∷ s) (y ∷ t) h = ground (arith, bytes_eq→eq s t)
