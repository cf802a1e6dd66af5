-- ===== src/Prelude/Results.antt =====
-- Go's `(value, error)` results: `err` holds the error, and the value beside it is the zero value.
use mathlib.Core.Path.{◌≡◌, refl}
use mathlib.Core.Bool.{Bool, true, false}
use mathlib.Core.List.{List, [], ◌∷◌}
use client_api.Prelude.Lists.{All}

pub data Result {ℓ} (E : Type 0) (A : Type ℓ) : Type ℓ where
  err : E → Result E A
  ok : A → Result E A

-- The rest of a function behind a call that may return early.
module _ {E : Type 0} where
  infixl 5 ◌>>=◌ ◌>>◌
  abbrev pub ◌>>=◌ {ℓ κ} : {A : Type ℓ} {B : Type κ} → Result E A → (A → Result E B) → Result E B
  err problem >>= rest = err problem
  ok value >>= rest = rest value

  abbrev pub ◌>>◌ {ℓ} : {B : Type ℓ} → Result E (Unit {0}) → Result E B → Result E B
  check >> rest = check >>= λ done. rest

-- `if bad { return e }`
abbrev pub reject : {E : Type 0} → Bool → E → Result E (Unit {0})
reject true e = err e
reject false e = ok tt

-- A check as a Go `error`: success is nil.
abbrev pub Check : Type 0 → Type 0
Check E = Result E (Unit {0})

-- `for _, x := range xs { if err := f(x); err != nil { return err } }`
unfoldable pub for_each {ℓ} : {E : Type 0} {A : Type ℓ} → (A → Check E) → List A → Check E
for_each f [] = ok tt
for_each f (x ∷ xs) = f x >> for_each f xs

abbrev pub is_ok {ℓ} : {E : Type 0} {A : Type ℓ} → Result E A → Bool
is_ok (ok a) = true
is_ok (err e) = false

module _ {ℓ κ} {E : Type 0} {A : Type ℓ} {B : Type κ} where
  -- A call that the function survives has returned a value, with which the rest succeeds.
  pub >>=-eq-ok :
      (call : Result E A) (rest : A → Result E B) {r : B}
      → (call >>= rest) ≡ ok r
      → (value : A) × (call ≡ ok value) × (rest value ≡ ok r)
  >>=-eq-ok (err problem) rest h = cc
  >>=-eq-ok (ok value) rest h = (value, refl, h)

module _ {κ} {E : Type 0} {B : Type κ} where
  pub >>-eq-ok : (m : Check E) (k : Result E B) {b : B} → (m >> k) ≡ ok b → (m ≡ ok tt) × (k ≡ ok b)
  >>-eq-ok (ok tt) k h = (refl, h)
  >>-eq-ok (err e) k h = cc

  pub reject-eq-ok :
      (c : Bool) (e : E) (k : Result E B) {b : B}
      → (reject c e >> k) ≡ ok b
      → (c ≡ false) × (k ≡ ok b)
  reject-eq-ok true e k h = cc
  reject-eq-ok false e k h = (refl, h)

module _ {ℓ} {E : Type 0} {A : Type ℓ} (f : A → Check E) where
  -- A loop of checks succeeds exactly when every check does.
  pub for_each-eq-ok : (xs : List A) → for_each f xs ≡ ok tt → All (λ x. f x ≡ ok tt) xs
  unfolding for_each
  for_each-eq-ok [] h = tt
  for_each-eq-ok (x ∷ xs) h = let (p, q) = >>-eq-ok (f x) _ h in (p, for_each-eq-ok xs q)

  pub for_each-All : (xs : List A) → All (λ x. f x ≡ ok tt) xs → for_each f xs ≡ ok tt
  unfolding for_each
  for_each-All [] h = refl
  for_each-All (x ∷ xs) (p, h) = rw p (for_each-All xs h)

-- For the last check of a function.
pub reject-ok : {E : Type 0} (c : Bool) (e : E) → reject c e ≡ ok tt → c ≡ false
reject-ok true e h = cc
reject-ok false e h = refl
