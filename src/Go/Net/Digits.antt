-- ===== src/Go/Net/Digits.antt =====
-- What strconv.Itoa writes: digits, and different ones for different numbers.
use client_api.Prelude.{
  Bytes, ℕ, zero, suc, ◌+◌, ◌-◌, ◌*◌, ◌^◌, ◌/◌, ◌%◌, ◌≤◌, ◌<◌, ◌≡◌, sym, ap, ◌∙◌, [], ◌∷◌, ltb, All,
  Bool-cases, inl, inr, arith,
}
use client_api.Go.Net.{digits_before, itoa}

-- The number that decimal digits continue.
value : ℕ → Bytes → ℕ
value n [] = n
value n (c ∷ cs) = value (n * 10 + (c - b'0')) cs

pow10 : ℕ → ℕ
pow10 zero = 1
pow10 (suc n) = 10 * pow10 n

value-digits_before :
    (fuel n : ℕ) (rest : Bytes)
    → n < pow10 fuel
    → value 0 (digits_before fuel n rest) ≡ value n rest
unfolding value pow10 digits_before
value-digits_before zero n rest h = ap (λ m. value m rest) (omega arith)
value-digits_before (suc fuel) n rest h = elim (Bool-cases (ltb n 10)) [
  | inl e ↦
      let same : (0 * 10 + (n + b'0' - b'0')) ≡ n = omega arith in
      rw e (ap (λ m. value m rest) same)
  | inr e ↦
      let same : (n / 10 * 10 + (n % 10 + b'0' - b'0')) ≡ n = omega arith in
      rw e (
        value-digits_before fuel (n / 10) ((n % 10 + b'0') ∷ rest) (omega arith)
        ∙ ap (λ m. value m rest) same)
]

abbrev pub AreDigits : Bytes → Type 0
AreDigits = All (λ c. b'0' ≤ c)

digits_before-AreDigits :
    (fuel n : ℕ) (rest : Bytes) → AreDigits rest → AreDigits (digits_before fuel n rest)
unfolding digits_before
digits_before-AreDigits zero n rest h = h
digits_before-AreDigits (suc fuel) n rest h = elim (Bool-cases (ltb n 10)) [
  | inl e ↦ rw e (omega arith, h)
  | inr e ↦ rw e (digits_before-AreDigits fuel (n / 10) ((n % 10 + b'0') ∷ rest) (omega arith, h))
]

pub itoa-AreDigits : (n : ℕ) → AreDigits (itoa n)
unfolding itoa
itoa-AreDigits n = digits_before-AreDigits 20 n [] tt

value-itoa : (n : ℕ) → n < 2 ^ 64 → value 0 (itoa n) ≡ n
unfolding itoa pow10 value
value-itoa n h = value-digits_before 20 n [] (omega arith)

-- Numbers of 64 bits that are written alike are equal.
pub itoa_injective : (n m : ℕ) → n < 2 ^ 64 → m < 2 ^ 64 → itoa n ≡ itoa m → n ≡ m
itoa_injective n m h k e = sym (value-itoa n h) ∙ ap (value 0) e ∙ value-itoa m k
