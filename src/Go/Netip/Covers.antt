-- ===== src/Go/Netip/Covers.antt =====
-- Which addresses a prefix inside another one contains.
use native.Mathlib.Nat
use client_api.Prelude.{
  bytes_eq, ℕ, zero, suc, ◌+◌, ◌-◌, ◌*◌, ◌/◌, ◌^◌, ◌≤◌, ◌<◌, ◌≡◌, ap, ◌∙◌, true, nat_eq, arith,
  refl,
}
use client_api.Go.Netip.{
  Addr, unset, v4, v6, Prefix, bit_len, number, network, mask_addr, masked, prefix_bits,
  prefix_contains, overlaps, min_bits,
}

pow_sum : (a b : ℕ) → 2 ^ (a + b) ≡ 2 ^ a * 2 ^ b
pow_sum zero b = grind arith
pow_sum (suc a) b = grind (arith, pow_sum a b, Nat.pow-succ' 2 a, Nat.pow-succ' 2 (a + b))

power_positive : (k : ℕ) → 0 < 2 ^ k
power_positive zero = omega arith
power_positive (suc k) = omega (arith, Nat.pow-succ' 2 k, power_positive k)

-- Numbers that agree above bit `i` agree above a higher one.
higher : (n m i j : ℕ) → i ≤ j → n / 2 ^ i ≡ m / 2 ^ i → n / 2 ^ j ≡ m / 2 ^ j
higher n m i j l h =
    let e : j ≡ i + (j - i) = omega arith in
    let p : 2 ^ j ≡ 2 ^ i * 2 ^ (j - i) = ap (λ k. 2 ^ k) e ∙ pow_sum i (j - i) in
    rw
      (
        p,
        ← Nat.div-div-eq-div-mul n (2 ^ i) (2 ^ (j - i)),
        ← Nat.div-div-eq-div-mul m (2 ^ i) (2 ^ (j - i)),
        h,
      )
      refl

network_shorter :
    (a b : Addr) (i j : ℕ)
    → bit_len a ≡ bit_len b
    → i ≤ j
    → network a j ≡ network b j
    → network a i ≡ network b i
network_shorter a b i j e l h =
    rw e (higher (number a) (number b) (bit_len b - j) (bit_len b - i) (omega arith) (rw e at h))

network_masked : (p : Prefix) → network (masked p).ip (prefix_bits p) ≡ network p.ip (prefix_bits p)
unfolding masked
network_masked p =
    elim p.ip
      as (λ a. network (mask_addr a (prefix_bits p)) (prefix_bits p) ≡ network a (prefix_bits p)) [
        | unset ↦ refl
        | v4 n ↦
            Nat.mul-div_cancel (n / 2 ^ (32 - prefix_bits p)) (power_positive (32 - prefix_bits p))
        | v6 n z ↦
            Nat.mul-div_cancel (n / 2 ^ (128 - prefix_bits p))
              (power_positive (128 - prefix_bits p))
      ]

bit_len-masked : (p : Prefix) → bit_len (masked p).ip ≡ bit_len p.ip
unfolding masked
bit_len-masked p = elim p.ip as (λ a. bit_len (mask_addr a (prefix_bits p)) ≡ bit_len a) [
  | unset ↦ refl
  | v4 n ↦ refl
  | v6 n z ↦ refl
]

-- Masking a prefix does not change what it contains.
pub prefix_contains-masked :
    (p : Prefix) (a : Addr) → prefix_contains (masked p) a ≡ prefix_contains p a
unfolding prefix_contains masked
prefix_contains-masked p a = cc (network_masked p, bit_len-masked p)

-- A route that is no longer than a prefix and contains its address contains all that the prefix
-- contains.
pub prefix_contains_trans :
    (route prefix : Prefix) (a : Addr)
    → prefix_bits route ≤ prefix_bits prefix
    → prefix_contains route prefix.ip ≡ true
    → prefix_contains prefix a ≡ true
    → prefix_contains route a ≡ true
unfolding prefix_contains
prefix_contains_trans route prefix a l h k =
    ground (arith, network_shorter prefix.ip a (prefix_bits route) (prefix_bits prefix))

-- Prefixes with an address in common overlap.
pub overlaps_of_common :
    (p q : Prefix) (a : Addr)
    → prefix_contains p a ≡ true
    → prefix_contains q a ≡ true
    → overlaps p q ≡ true
unfolding overlaps prefix_contains
overlaps_of_common p q a h k = ground (
  arith,
  network_shorter p.ip a (min_bits p q) (prefix_bits p),
  network_shorter q.ip a (min_bits p q) (prefix_bits q),
)
