-- ===== src/Controller/Results/Tokens.antt =====
-- `strtok` and `atoi` take the list of numbers apart that the report joins with commas.
use memory_mutation_testing.Base.{
  ℕ, zero, suc, ◌≡◌, refl, ◌∙◌, ap, Bool, true, false, List, [], ◌∷◌, ◌++◌, map, arith, ◌==◌, ℤ,
  pos, negsuc,
}
use mathlib.Core.Path.{ap₂}
use mathlib.Core.List.{append-nil, append_assoc}
use memory_mutation_testing.Base.Text.{Bytes, is_digit, atoi}
use memory_mutation_testing.Base.Decimal.{
  AllDigits, print_int, print_int-AllDigits, atoi-print_int, leads, leads-print_int,
}
use memory_mutation_testing.CuTest.Report.{join_ids, comma}
use memory_mutation_testing.Controller.Results.{flush, tokens_from, tokens}

-- Positive numbers only, as the numbers of tests are.
abbrev pub AllPositive : List ℤ → Type 0
AllPositive [] = Unit {0}
AllPositive (pos zero ∷ ns) = ⊥
AllPositive (pos (suc n) ∷ ns) = AllPositive ns
AllPositive (negsuc n ∷ ns) = ⊥

digit-ne-comma : (d : ℕ) → is_digit d ≡ true → (d == b',') ≡ false
digit-ne-comma d h = ground arith

tokens_from-digits :
    (cur ds rest : Bytes)
    → AllDigits ds
    → tokens_from cur (ds ++ rest) ≡ tokens_from (cur ++ ds) rest
unfolding tokens_from
tokens_from-digits cur [] rest h = rw append-nil refl
tokens_from-digits cur (d ∷ ds) rest h =
    rw (digit-ne-comma d h.0)
      (tokens_from-digits (cur ++ (d ∷ [])) ds rest h.1 ∙ rw append_assoc refl)

flush-leads : (s : Bytes) (ts : List Bytes) → leads s ≡ true → flush s ts ≡ s ∷ ts
flush-leads [] ts h = cc
flush-leads (c ∷ s) ts h = refl

pub join_ids-suc :
    (first : Bool) (n : ℕ) (ns : List ℤ)
    → join_ids first (pos (suc n) ∷ ns)
      ≡ comma first ++ (print_int (pos (suc n)) ++ join_ids false ns)
unfolding join_ids
join_ids-suc first n ns = ground arith

tokens_from-comma : (cur s : Bytes) → tokens_from cur (b',' ∷ s) ≡ flush cur (tokens_from [] s)
unfolding tokens_from
tokens_from-comma cur s = refl

pub join_ids-nil : (first : Bool) → join_ids first [] ≡ []
unfolding join_ids
join_ids-nil first = refl

pub join_ids_zero : (first : Bool) (ns : List ℤ) → join_ids first (pos 0 ∷ ns) ≡ []
unfolding join_ids
join_ids_zero first ns = refl

tokens_from-none : (first : Bool) (cur : Bytes) → tokens_from cur (join_ids first []) ≡ flush cur []
unfolding join_ids tokens_from
tokens_from-none first cur = refl

tokens_from-number :
    (n : ℕ) (ns : List ℤ)
    → tokens_from (print_int (pos (suc n))) (join_ids false ns)
      ≡ flush (print_int (pos (suc n))) (map print_int ns)
    → tokens_from [] (print_int (pos (suc n)) ++ join_ids false ns)
      ≡ map print_int (pos (suc n) ∷ ns)
tokens_from-number n ns ih =
    tokens_from-digits [] (print_int (pos (suc n))) (join_ids false ns)
      (print_int-AllDigits (suc n))
    ∙ ih
    ∙ flush-leads (print_int (pos (suc n))) (map print_int ns) (leads-print_int (suc n))

tokens_from-join_ids :
    (cur : Bytes) (ns : List ℤ)
    → AllPositive ns
    → tokens_from cur (join_ids false ns) ≡ flush cur (map print_int ns)
tokens_from-join_ids cur [] h = tokens_from-none false cur
tokens_from-join_ids cur (pos zero ∷ ns) h = elim h [ ]
tokens_from-join_ids cur (negsuc n ∷ ns) h = elim h [ ]
tokens_from-join_ids cur (pos (suc n) ∷ ns) h =
    rw (join_ids-suc false n ns, tokens_from-comma)
      (ap (flush cur)
        (tokens_from-number n ns (tokens_from-join_ids (print_int (pos (suc n))) ns h)))

-- A list of positive numbers, joined by commas, has as its tokens the numbers in decimal.
tokens-join_ids : (ns : List ℤ) → AllPositive ns → tokens (join_ids true ns) ≡ map print_int ns
unfolding tokens
tokens-join_ids [] h = tokens_from-none true []
tokens-join_ids (pos zero ∷ ns) h = elim h [ ]
tokens-join_ids (negsuc n ∷ ns) h = elim h [ ]
tokens-join_ids (pos (suc n) ∷ ns) h =
    rw join_ids-suc (tokens_from-number n ns (tokens_from-join_ids (print_int (pos (suc n))) ns h))

-- `atoi` on each token gives the numbers back.
pub atoi-tokens-join_ids :
    (ns : List ℤ) → AllPositive ns → map atoi (tokens (join_ids true ns)) ≡ ns
atoi-tokens-join_ids ns h = rw (tokens-join_ids ns h) (atoi-print_all ns)
  where
    atoi-print_all : (ns : List ℤ) → map atoi (map print_int ns) ≡ ns
    atoi-print_all [] = refl
    atoi-print_all (n ∷ ns) = ap₂ ◌∷◌ (atoi-print_int n) (atoi-print_all ns)
