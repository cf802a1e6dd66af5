-- ===== src/ReleaseContract/GateKeys.antt =====
-- compatibilityGateKey tells the gates apart whose names have no NUL byte.
use client_api.Prelude.{
  Bytes, ℕ, zero, suc, ◌+◌, ◌^◌, ◌<◌, ◌≡◌, refl, sym, ap, [], ◌∷◌, ◌++◌, ℤ, pos, negsuc, arith,
}
use client_api.Go.Net.{itoa}
use client_api.Go.Net.Digits.{AreDigits, itoa-AreDigits, itoa_injective}
use client_api.ReleaseContract.Components.{print_int, compatibility_gate_key}

-- How many NUL bytes the text has.
unfoldable pub zeros : Bytes → ℕ
zeros [] = 0
zeros (zero ∷ cs) = suc (zeros cs)
zeros (suc c ∷ cs) = zeros cs

-- The value is one of Go's 64-bit int.
abbrev pub IsInt : ℤ → Type 0
IsInt (pos n) = n < 2 ^ 63
IsInt (negsuc n) = n < 2 ^ 63

zeros-append : (a b : Bytes) → zeros (a ++ b) ≡ zeros a + zeros b
unfolding zeros
zeros-append [] b = omega arith
zeros-append (zero ∷ a) b = omega (arith, zeros-append a b)
zeros-append (suc c ∷ a) b = zeros-append a b

AreDigits-zeros : (a : Bytes) → AreDigits a → zeros a ≡ 0
unfolding zeros
AreDigits-zeros [] h = refl
AreDigits-zeros (zero ∷ a) (l, h) = absurd (omega arith)
AreDigits-zeros (suc c ∷ a) (l, h) = AreDigits-zeros a h

print_int-zeros : (v : ℤ) → zeros (print_int v) ≡ 0
unfolding zeros
print_int-zeros (pos n) = AreDigits-zeros (itoa n) (itoa-AreDigits n)
print_int-zeros (negsuc n) = AreDigits-zeros (itoa (suc n)) (itoa-AreDigits (suc n))

signed_apart : (n : ℕ) (a : Bytes) → AreDigits a → (b'-' ∷ itoa (suc n)) ≡ a → ⊥
signed_apart n [] h e = absurd (cc e)
signed_apart n (c ∷ a) (l, h) e = let p : b'-' ≡ c = cc e in omega arith

print_int_injective : (v w : ℤ) → IsInt v → IsInt w → print_int v ≡ print_int w → v ≡ w
print_int_injective (pos n) (pos m) h k e =
    ap pos (itoa_injective n m (omega (arith, h)) (omega (arith, k)) e)
print_int_injective (pos n) (negsuc m) h k e =
    absurd (signed_apart m (itoa n) (itoa-AreDigits n) (sym e))
print_int_injective (negsuc n) (pos m) h k e = absurd (signed_apart n (itoa m) (itoa-AreDigits m) e)
print_int_injective (negsuc n) (negsuc m) h k e =
    let p : itoa (suc n) ≡ itoa (suc m) = cc e in
    let q : suc n ≡ suc m =
      itoa_injective (suc n) (suc m) (omega (arith, h)) (omega (arith, k)) p in
    ap negsuc (omega (arith, q))

-- Texts without NUL end at the same one.
cut_at_zero :
    (a c b d : Bytes) → zeros a ≡ 0 → zeros c ≡ 0 → a ++ (0 ∷ b) ≡ c ++ (0 ∷ d) → (a ≡ c) × (b ≡ d)
unfolding zeros
cut_at_zero [] [] b d h k e = (refl, cc e)
cut_at_zero [] (zero ∷ c) b d h k e = absurd (omega arith)
cut_at_zero [] (suc y ∷ c) b d h k e = absurd (let p : ◌≡◌ {A = ℕ} 0 (suc y) = cc e in omega arith)
cut_at_zero (zero ∷ a) c b d h k e = absurd (omega arith)
cut_at_zero (suc x ∷ a) [] b d h k e = absurd (let p : ◌≡◌ {A = ℕ} (suc x) 0 = cc e in omega arith)
cut_at_zero (suc x ∷ a) (zero ∷ c) b d h k e = absurd (omega arith)
cut_at_zero (suc x ∷ a) (suc y ∷ c) b d h k e =
    let p : suc x ≡ suc y = cc e in
    let q : a ++ (0 ∷ b) ≡ c ++ (0 ∷ d) = cc e in
    let (s, t) = cut_at_zero a c b d h k q in (cc (p, s), t)

zeros-compatibility_gate_key :
    (provider consumer contract : Bytes) (version : ℤ)
    → zeros (compatibility_gate_key provider consumer contract version)
      ≡ zeros provider + (zeros consumer + (zeros contract + 3))
unfolding compatibility_gate_key zeros
zeros-compatibility_gate_key provider consumer contract version = omega (
  arith,
  zeros-append provider (0 ∷ consumer ++ (0 ∷ contract ++ (0 ∷ print_int version))),
  zeros-append consumer (0 ∷ contract ++ (0 ∷ print_int version)),
  zeros-append contract (0 ∷ print_int version),
  print_int-zeros version,
)

-- Equal keys are those of equal parts, if the names on one side have no NUL byte.
pub compatibility_gate_key_injective :
    (p c k q d l : Bytes) (v w : ℤ)
    → (zeros p ≡ 0) × (zeros c ≡ 0) × (zeros k ≡ 0)
    → IsInt v
    → IsInt w
    → compatibility_gate_key p c k v ≡ compatibility_gate_key q d l w
    → (p ≡ q) × (c ≡ d) × (k ≡ l) × (v ≡ w)
unfolding compatibility_gate_key
compatibility_gate_key_injective p c k q d l v w (zp, zc, zk) iv iw e =
    let m = zeros-compatibility_gate_key p c k v in
    let n = zeros-compatibility_gate_key q d l w in
    let same = ap zeros e in
    let (a, e1) = cut_at_zero p q _ _ zp (unfold zeros in omega (arith, m, n, same)) e in
    let (b, e2) = cut_at_zero c d _ _ zc (omega (arith, m, n, same)) e1 in
    let (f, e3) = cut_at_zero k l _ _ zk (omega (arith, m, n, same)) e2 in
    (a, b, f, print_int_injective v w iv iw e3)
