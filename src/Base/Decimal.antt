-- ===== src/Base/Decimal.antt =====
-- `%d` of `printf`, and that the `%d` of `scanf` and `atoi` read it back.
use mathlib.Core.Bool.{Bool, true, false}
use mathlib.Core.List.{[], ◌∷◌, ◌++◌, append-nil}
use mathlib.Core.Logic.{inl, inr}
use mathlib.Core.Option.{some}
use mathlib.Core.Path.{◌≡◌, refl, ◌∙◌, sym, ap}
use native.Mathlib.Omega.{arith}
use Prim.Native.Nat.{ℕ, zero, suc, ◌+◌, ◌/◌, ◌%◌, ◌<◌}
use memory_mutation_testing.Base.Tests.{ltb, if◌then◌else◌, Bool-cases}
use memory_mutation_testing.Base.Int.{ℤ, pos, negsuc}
use memory_mutation_testing.Base.Text.{Bytes, is_digit, scan_digits, scan_nat, scan_int, atoi}

-- Digits from the last to the first, in front of `out`; the fuel bounds their number.
emit : ℕ → ℕ → Bytes → Bytes
emit zero n out = out
emit (suc f) n out =
    let more = emit f (n / 10) ((b'0' + n % 10) ∷ out) in
    if ltb n 10 then (b'0' + n) ∷ out else more

unfoldable pub print_nat : ℕ → Bytes
unfolding emit
print_nat n = emit (suc n) n []

unfoldable pub print_int : ℤ → Bytes
unfolding print_nat
print_int (pos n) = print_nat n
print_int (negsuc n) = b'-' ∷ print_nat (suc n)

-- Whether the text begins with a digit.
abbrev pub leads : Bytes → Bool
leads [] = false
leads (c ∷ s) = is_digit c

-- All bytes are digits.
abbrev pub AllDigits : Bytes → Type 0
AllDigits [] = Unit {0}
AllDigits (c ∷ s) = (is_digit c ≡ true) × AllDigits s

digit : (n : ℕ) → n < 10 → is_digit (b'0' + n) ≡ true
digit n h = ground arith

emit-append : (f n : ℕ) (out rest : Bytes) → emit f n (out ++ rest) ≡ emit f n out ++ rest
unfolding emit
emit-append zero n out rest = refl
emit-append (suc f) n out rest = elim (Bool-cases (ltb n 10)) [
  | inl e ↦ rw e refl
  | inr e ↦ rw e (emit-append f (n / 10) ((b'0' + n % 10) ∷ out) rest)
]

leads-emit : (f n : ℕ) (out : Bytes) → n < f → leads (emit f n out) ≡ true
unfolding emit
leads-emit zero n out h = elim h [ ]
leads-emit (suc f) n out h = elim (Bool-cases (ltb n 10)) [
  | inl e ↦ rw e (ground arith)
  | inr e ↦ rw e (leads-emit f (n / 10) ((b'0' + n % 10) ∷ out) (ground arith))
]

emit-AllDigits : (f n : ℕ) (out : Bytes) → AllDigits out → AllDigits (emit f n out)
unfolding emit
emit-AllDigits zero n out h = h
emit-AllDigits (suc f) n out h = elim (Bool-cases (ltb n 10)) [
  | inl e ↦ rw e (ground arith, h)
  | inr e ↦ rw e (emit-AllDigits f (n / 10) _ (ground arith, h))
]

scan_digits-emit :
    (f n : ℕ) (out : Bytes) → n < f → scan_digits 0 (emit f n out) ≡ scan_digits n out
unfolding emit scan_digits
scan_digits-emit zero n out h = elim h [ ]
scan_digits-emit (suc f) n out h = elim (Bool-cases (ltb n 10)) [
  | inl e ↦ rw e (ground arith)
  | inr e ↦ rw e (scan_digits-emit f (n / 10) ((b'0' + n % 10) ∷ out) (ground arith) ∙ ground arith)
]

print_nat-append : (n : ℕ) (rest : Bytes) → print_nat n ++ rest ≡ emit (suc n) n rest
unfolding print_nat
print_nat-append n rest = sym (emit-append (suc n) n [] rest)

pub print_nat-AllDigits : (n : ℕ) → AllDigits (print_nat n)
unfolding print_nat
print_nat-AllDigits n = emit-AllDigits (suc n) n [] tt

pub leads-print_nat : (n : ℕ) (rest : Bytes) → leads (print_nat n ++ rest) ≡ true
leads-print_nat n rest = rw print_nat-append (leads-emit (suc n) n rest (omega arith))

scan_digits_stop : (n : ℕ) (rest : Bytes) → leads rest ≡ false → scan_digits n rest ≡ (n, rest)
unfolding scan_digits
scan_digits_stop n [] h = refl
scan_digits_stop n (c ∷ s) h = rw h refl

scan_nat-leads : (s : Bytes) → leads s ≡ true → scan_nat s ≡ some (scan_digits 0 s)
unfolding scan_nat
scan_nat-leads [] h = cc
scan_nat-leads (c ∷ s) h = rw h refl

scan_int-leads :
    (s : Bytes) {n : ℕ} {r : Bytes}
    → leads s ≡ true
    → scan_nat s ≡ some (n, r)
    → scan_int s ≡ some (pos n, r)
unfolding scan_int
scan_int-leads [] h e = cc
scan_int-leads (c ∷ s) h e = ground arith

pub scan_nat-print_nat :
    (n : ℕ) (rest : Bytes) → leads rest ≡ false → scan_nat (print_nat n ++ rest) ≡ some (n, rest)
scan_nat-print_nat n rest h =
    scan_nat-leads _ (leads-print_nat n rest)
    ∙ ap (λ r. some r)
        (rw print_nat-append
          (scan_digits-emit (suc n) n rest (omega arith) ∙ scan_digits_stop n rest h))

scan_int_minus :
    (s : Bytes) {n : ℕ} {r : Bytes}
    → scan_nat s ≡ some (suc n, r)
    → scan_int (b'-' ∷ s) ≡ some (negsuc n, r)
unfolding scan_int
scan_int_minus s e = ground arith

-- What `%d` prints, `%d` reads back, and it stops at the first byte that is no digit.
pub scan_int-print_int :
    (n : ℤ) (rest : Bytes) → leads rest ≡ false → scan_int (print_int n ++ rest) ≡ some (n, rest)
unfolding print_int
scan_int-print_int (pos n) rest h =
    scan_int-leads _ (leads-print_nat n rest) (scan_nat-print_nat n rest h)
scan_int-print_int (negsuc n) rest h =
    scan_int_minus (print_nat (suc n) ++ rest) (scan_nat-print_nat (suc n) rest h)

pub atoi-print_int : (n : ℤ) → atoi (print_int n) ≡ n
unfolding atoi
atoi-print_int n = rw (← append-nil (print_int n)) (rw (scan_int-print_int n [] refl, atoi) refl)

pub print_int-AllDigits : (n : ℕ) → AllDigits (print_int (pos n))
unfolding print_int
print_int-AllDigits n = print_nat-AllDigits n

pub leads-print_int : (n : ℕ) → leads (print_int (pos n)) ≡ true
unfolding print_int
leads-print_int n = rw (← append-nil (print_nat n)) (leads-print_nat n [])
