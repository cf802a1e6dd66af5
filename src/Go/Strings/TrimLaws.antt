-- ===== src/Go/Strings/TrimLaws.antt =====
-- `strings.TrimSpace` leaves no white space at either end, and doing it again changes nothing.
use mathlib.Core.List.{reverse-reverse, reverse-append}
use client_api.Prelude.{
  Bytes, ℕ, zero, suc, ◌≡◌, refl, sym, ap, ◌∙◌, [], ◌∷◌, ◌++◌, reverse, arith, inl, inr, ◌⊎◌,
}
use client_api.Go.Strings.{
  space_width, space_width_reversed, trim_while, trim_left_space, trim_right_space, trim_space,
}

ℕ-cases : (n : ℕ) → (n ≡ 0) ⊎ ((k : ℕ) × (n ≡ suc k))
ℕ-cases zero = inl refl
ℕ-cases (suc k) = inr (k, refl)

module _ (width : Bytes → ℕ) (no_bytes : width [] ≡ 0) where
  width-trim_while : (skip : ℕ) (s : Bytes) → width (trim_while width skip s) ≡ 0
  unfolding trim_while
  width-trim_while skip [] = no_bytes
  width-trim_while zero (x ∷ xs) = elim (ℕ-cases (width (x ∷ xs))) [
    | inl e ↦ rw (e, trim_while) e
    | inr (k, e) ↦ rw (e, trim_while) (width-trim_while k xs)
  ]
  width-trim_while (suc k) (x ∷ xs) = width-trim_while k xs

  trim_while_none : (s : Bytes) → width s ≡ 0 → trim_while width 0 s ≡ s
  unfolding trim_while
  trim_while_none [] h = refl
  trim_while_none (x ∷ xs) h = rw (h, trim_while)

  trim_while-suffix : (skip : ℕ) (s : Bytes) → (p : Bytes) × (s ≡ p ++ trim_while width skip s)
  unfolding trim_while
  trim_while-suffix skip [] = ([], refl)
  trim_while-suffix zero (x ∷ xs) = elim (ℕ-cases (width (x ∷ xs))) [
    | inl e ↦ ([], rw (e, trim_while))
    | inr (k, e) ↦
        let (p, q) = trim_while-suffix k xs in (x ∷ p, rw (e, trim_while) (ap (λ t. x ∷ t) q))
  ]
  trim_while-suffix (suc k) (x ∷ xs) =
      let (p, q) = trim_while-suffix k xs in (x ∷ p, ap (λ t. x ∷ t) q)

-- A prefix of a string without leading white space has none.
space_width-prefix : (s t : Bytes) → space_width (s ++ t) ≡ 0 → space_width s ≡ 0
unfolding space_width
space_width-prefix [] t h = refl
space_width-prefix (a ∷ []) [] h = h
space_width-prefix (a ∷ []) (b ∷ []) h = ground arith
space_width-prefix (a ∷ []) (b ∷ c ∷ t) h = ground arith
space_width-prefix (a ∷ b ∷ []) [] h = h
space_width-prefix (a ∷ b ∷ []) (c ∷ t) h = ground arith
space_width-prefix (a ∷ b ∷ c ∷ s) t h = h

trim_right_space-prefix : (s : Bytes) → (t : Bytes) × (s ≡ trim_right_space s ++ t)
unfolding trim_right_space
trim_right_space-prefix s =
    let (p, e) = trim_while-suffix space_width_reversed refl 0 (reverse s) in
    (reverse p, sym (reverse-reverse s) ∙ ap reverse e ∙ reverse-append p _)

pub trim_space-no_leading : (s : Bytes) → space_width (trim_space s) ≡ 0
unfolding trim_left_space trim_space
trim_space-no_leading s =
    let t = trim_left_space s in
    let (r, e) = trim_right_space-prefix t in
    space_width-prefix (trim_right_space t) r (rw (← e) (width-trim_while space_width refl 0 s))

pub trim_space-no_trailing : (s : Bytes) → space_width_reversed (reverse (trim_space s)) ≡ 0
unfolding trim_space trim_right_space
trim_space-no_trailing s =
    rw reverse-reverse (width-trim_while space_width_reversed refl 0 (reverse (trim_left_space s)))

-- A string with no white space at its ends is its own trim.
pub trim_space_of_trimmed :
    (s : Bytes) → space_width s ≡ 0 → space_width_reversed (reverse s) ≡ 0 → trim_space s ≡ s
unfolding trim_space trim_left_space trim_right_space
trim_space_of_trimmed s h k =
    rw (trim_while_none space_width refl s h)
      (rw (trim_while_none space_width_reversed refl (reverse s) k) (reverse-reverse s))

pub trim_space_idempotent : (s : Bytes) → trim_space (trim_space s) ≡ trim_space s
trim_space_idempotent s =
    trim_space_of_trimmed (trim_space s) (trim_space-no_leading s) (trim_space-no_trailing s)
