-- ===== src/Cleaning/Laws.antt =====
-- What the loop keeps: every form once, in the order of first occurrence.
use client_api.Prelude.{
  Bytes, bytes_eq, bytes_beq_iff, ◌≡◌, refl, ap, false, ◌||◌, List, [], ◌∷◌, ◌==◌, contains, map,
  All, All-map, Distinct, Bool-cases, inl, inr, arith,
}
use client_api.Cleaning.{keep_new}

module _ (form : Bytes → Bytes) where
  -- What is kept is not empty and was not seen.
  keep_new-fresh :
      (seen values : List Bytes)
      → All (λ v. ((v == []) ≡ false) × (contains v seen ≡ false)) (keep_new form seen values)
  unfolding keep_new contains
  keep_new-fresh seen [] = tt
  keep_new-fresh seen (raw ∷ values) =
      elim (Bool-cases (form raw == [] || contains (form raw) seen)) [
        | inl e ↦ rw (e, keep_new) (keep_new-fresh seen values)
        | inr e ↦
            rw (e, keep_new)
              (
                (ground arith, ground arith),
                All-map _ _ (λ v (p, q). (p, ground arith)) _
                    (keep_new-fresh (form raw ∷ seen) values),
              )
      ]

  contains_of_fresh :
      (a : Bytes) (seen xs : List Bytes)
      → All (λ v. ((v == []) ≡ false) × (contains v (a ∷ seen) ≡ false)) xs
      → contains a xs ≡ false
  unfolding contains
  contains_of_fresh a seen [] h = refl
  contains_of_fresh a seen (b ∷ xs) ((p, q), h) =
      ground (arith, contains_of_fresh a seen xs h, bytes_beq_iff a b, bytes_beq_iff b a)

  pub keep_new-Distinct : (seen values : List Bytes) → Distinct (keep_new form seen values)
  unfolding keep_new
  keep_new-Distinct seen [] = tt
  keep_new-Distinct seen (raw ∷ values) =
      elim (Bool-cases (form raw == [] || contains (form raw) seen)) [
        | inl e ↦ rw (e, keep_new) (keep_new-Distinct seen values)
        | inr e ↦
            rw (e, keep_new)
              (
                contains_of_fresh (form raw) seen _ (keep_new-fresh (form raw ∷ seen) values),
                keep_new-Distinct (form raw ∷ seen) values,
              )
      ]

  pub keep_new-nonempty :
      (seen values : List Bytes) → All (λ v. (v == []) ≡ false) (keep_new form seen values)
  keep_new-nonempty seen values =
      All-map _ _ (λ v (p, q). p) (keep_new form seen values) (keep_new-fresh seen values)

  -- A value is kept exactly when it is the form of an input, is not empty and was not seen.
  pub keep_new-contains :
      (k : Bytes) (seen values : List Bytes)
      → (k == []) ≡ false
      → (contains k (keep_new form seen values) || contains k seen)
        ≡ (contains k (map form values) || contains k seen)
  unfolding keep_new contains
  keep_new-contains k seen [] n = refl
  keep_new-contains k seen (raw ∷ values) n = ground (
    arith,
    keep_new-contains k seen values n,
    keep_new-contains k (form raw ∷ seen) values n,
    bytes_beq_iff k (form raw),
    bytes_beq_iff (form raw) [],
  )

  fresh-cons :
      (a : Bytes) (seen values : List Bytes)
      → All (λ v. (form v ≡ v) × ((v == []) ≡ false) × (contains v seen ≡ false)) values
      → contains a values ≡ false
      → All (λ v. (form v ≡ v) × ((v == []) ≡ false) × (contains v (a ∷ seen) ≡ false)) values
  unfolding contains
  fresh-cons a seen [] h d = tt
  fresh-cons a seen (v ∷ values) ((e, n, c), h) d = (
    (e, n, ground (arith, bytes_beq_iff a v, bytes_beq_iff v a)),
    fresh-cons a seen values h (ground arith),
  )

  -- Values in their form, different and not empty, are kept as they are.
  pub keep_new_of_clean :
      (seen values : List Bytes)
      → All (λ v. (form v ≡ v) × ((v == []) ≡ false) × (contains v seen ≡ false)) values
      → Distinct values
      → keep_new form seen values ≡ values
  unfolding keep_new contains
  keep_new_of_clean seen [] h d = refl
  keep_new_of_clean seen (v ∷ values) ((e, n, c), h) (a, d) =
      rw (e, n, c)
        (ap (λ r. v ∷ r) (keep_new_of_clean (v ∷ seen) values (fresh-cons v seen values h a) d))

  -- What holds of the values' forms holds of what is kept.
  pub keep_new-All {ℓ} :
      (P : Bytes → Type ℓ) (seen values : List Bytes)
      → All (λ v. P (form v)) values
      → All P (keep_new form seen values)
  unfolding keep_new
  keep_new-All P seen [] h = tt
  keep_new-All P seen (raw ∷ values) (p, h) =
      elim (Bool-cases (form raw == [] || contains (form raw) seen)) [
        | inl e ↦ rw (e, keep_new) (keep_new-All P seen values h)
        | inr e ↦ rw (e, keep_new) (p, keep_new-All P (form raw ∷ seen) values h)
      ]

  All-any {ℓ} : (P : Bytes → Type ℓ) → ((v : Bytes) → P v) → (values : List Bytes) → All P values
  All-any P h [] = tt
  All-any P h (v ∷ values) = (h v, All-any P h values)

  pub keep_new-formed :
      ((raw : Bytes) → form (form raw) ≡ form raw)
      → (seen values : List Bytes) → All (λ v. form v ≡ v) (keep_new form seen values)
  keep_new-formed i seen values =
      keep_new-All (λ v. form v ≡ v) seen values (All-any (λ v. form (form v) ≡ form v) i values)
