-- ===== src/Common/Decimal.antt =====
-- Decimal numerals, as `%d` and `strconv.FormatInt` print them.
use Prim.Native.Nat.{ℕ, zero, suc, ◌+◌, ◌-◌, ◌*◌, ◌/◌, ◌%◌, ◌≤◌, ◌<◌, pred}
use mathlib.Core.Path.{◌≡◌, refl, sym, ap, subst, ◌∙◌}
use mathlib.Core.Logic.{◌≢◌, inl, inr}
use mathlib.Core.List.{[], ◌∷◌, ◌++◌}
use native.Mathlib.Omega.{arith}
use stream_rail.Common.Tests.{ltb, if◌then◌else◌, Bool-cases}
use stream_rail.Common.Equality.{Str, codes}
use stream_rail.Common.Lists.{All, All-append}
use stream_rail.Common.Int.{ℤ, pos, negsuc}

-- Digits of `n`, the last one first written; `suc n` rounds are enough.
digits_within : ℕ → ℕ → Str
digits_within zero n = []
digits_within (suc fuel) n =
    let rest = digits_within fuel (n / 10) in
    if ltb n 10 then (b'0' + n) ∷ [] else rest ++ (b'0' + n % 10) ∷ []

unfoldable pub format_nat : ℕ → Str
unfolding digits_within
format_nat n = digits_within (suc n) n

unfoldable pub format_int : ℤ → Str
unfolding format_nat
format_int (pos n) = format_nat n
format_int (negsuc n) = b'-' ∷ format_nat (suc n)

format_int_tests : (format_int (pos 120) ≡ codes "120") × (format_int (negsuc 6) ≡ codes "-7")
unfolding format_int
format_int_tests = (refl, refl)

-- The number that a text of digits denotes.
value_from : ℕ → Str → ℕ
value_from n [] = n
value_from n (c ∷ s) = value_from (n * 10 + (c - b'0')) s

value_from-snoc :
    (n : ℕ) (s : Str) (c : ℕ) → value_from n (s ++ c ∷ []) ≡ value_from n s * 10 + (c - b'0')
unfolding value_from
value_from-snoc n [] c = refl
value_from-snoc n (d ∷ s) c = value_from-snoc (n * 10 + (d - b'0')) s c

value-digits : (fuel n : ℕ) → n < fuel → value_from 0 (digits_within fuel n) ≡ n
unfolding digits_within value_from
value-digits zero n h = absurd (omega arith)
value-digits (suc fuel) n h = elim (Bool-cases (ltb n 10)) [
  | inl small ↦ rw small (omega arith)
  | inr large ↦
      rw (large, value_from-snoc 0 (digits_within fuel (n / 10)) (b'0' + n % 10))
        (ground (arith, value-digits fuel (n / 10)))
]

abbrev pub IsDigit : ℕ → Type 0
IsDigit c = (b'0' ≤ c) × (c ≤ b'9')

digits-IsDigit : (fuel n : ℕ) → All IsDigit (digits_within fuel n)
unfolding digits_within
digits-IsDigit zero n = tt
digits-IsDigit (suc fuel) n = elim (Bool-cases (ltb n 10)) [
  | inl small ↦ rw small (ground arith)
  | inr large ↦ rw large (
      All-append IsDigit (digits_within fuel (n / 10)) _ (digits-IsDigit fuel (n / 10))
        (omega arith))
]

pub format_nat-IsDigit : (n : ℕ) → All IsDigit (format_nat n)
unfolding format_nat
format_nat-IsDigit n = digits-IsDigit (suc n) n

pub format_nat-injective : (m n : ℕ) → format_nat m ≡ format_nat n → m ≡ n
unfolding format_nat
format_nat-injective m n h =
    sym (value-digits (suc m) m (omega arith))
    ∙ ap (value_from 0) h
    ∙ value-digits (suc n) n (omega arith)

drop_first : Str → Str
drop_first [] = []
drop_first (c ∷ s) = s

minus-format_nat : (m : ℕ) (s : Str) → format_nat m ≢ b'-' ∷ s
minus-format_nat m s h =
    let d : All IsDigit (b'-' ∷ s) = subst (All IsDigit) h (format_nat-IsDigit m) in
    omega (arith, d.0)

pub format_int-injective : (a b : ℤ) → format_int a ≡ format_int b → a ≡ b
unfolding format_int drop_first
format_int-injective (pos m) (pos n) h = ap pos (format_nat-injective m n h)
format_int-injective (negsuc m) (negsuc n) h =
    ap negsuc (ap pred (format_nat-injective (suc m) (suc n) (ap drop_first h)))
format_int-injective (pos m) (negsuc n) h = absurd (minus-format_nat m (format_nat (suc n)) h)
format_int-injective (negsuc m) (pos n) h = absurd (minus-format_nat n (format_nat (suc m)) (sym h))
