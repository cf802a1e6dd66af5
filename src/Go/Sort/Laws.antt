-- ===== src/Go/Sort/Laws.antt =====
-- Sorting forgets the order of its input where the order tells elements apart.
use mathlib.Core.List.{Memᴰ, Permᴰ}
use mathlib.Core.List.Permᴰ
use client_api.Prelude.{
  ◌≡◌, refl, sym, ◌∙◌, Bool, true, false, List, [], ◌∷◌, Bool-cases, inl, inr, arith, All, Eq,
  contains, Distinct,
}
use client_api.Go.Sort.{insert_sorted, sort}

-- A strict weak order.
pub record IsWeakOrder {ℓ} {A : Type ℓ} (lt : A → A → Bool) : Type ℓ where
  pub asym : (a b : A) → lt a b ≡ true → lt b a ≡ false
  pub weak : (a b c : A) → lt c b ≡ true → lt c a ≡ false → lt a b ≡ true

module _ {ℓ} {A : Type ℓ} where
  mem_of_perm : {xs ys : List A} (a : A) → Permᴰ xs ys → Memᴰ a ys → Memᴰ a xs
  mem_of_perm a Permᴰ.nil m = m
  mem_of_perm a (Permᴰ.cons e p) (Memᴰ.head h) = Memᴰ.head (h ∙ sym e)
  mem_of_perm a (Permᴰ.cons e p) (Memᴰ.tail m) = Memᴰ.tail (mem_of_perm a p m)
  mem_of_perm a (Permᴰ.swap e f) (Memᴰ.head h) = Memᴰ.tail (Memᴰ.head (h ∙ sym f))
  mem_of_perm a (Permᴰ.swap e f) (Memᴰ.tail (Memᴰ.head h)) = Memᴰ.head (h ∙ sym e)
  mem_of_perm a (Permᴰ.swap e f) (Memᴰ.tail (Memᴰ.tail m)) = Memᴰ.tail (Memᴰ.tail m)
  mem_of_perm a (Permᴰ.trans p q) m = mem_of_perm a p (mem_of_perm a q m)

  pub All-Perm {κ} : (P : A → Type κ) {xs ys : List A} → Permᴰ xs ys → All P ys → All P xs
  All-Perm P Permᴰ.nil h = tt
  All-Perm P (Permᴰ.cons e p) (h, hs) = (rw e h, All-Perm P p hs)
  All-Perm P (Permᴰ.swap e f) (h, (k, hs)) = (rw e k, (rw f h, hs))
  All-Perm P (Permᴰ.trans p q) h = All-Perm P p (All-Perm P q h)

  module _ ⦃test : Eq A⦄ where
    pub contains-Perm : (k : A) {xs ys : List A} → Permᴰ xs ys → contains k xs ≡ contains k ys
    unfolding contains
    contains-Perm k Permᴰ.nil = refl
    contains-Perm k (Permᴰ.cons e p) = rw (e, contains-Perm k p) refl
    contains-Perm k (Permᴰ.swap e f) = rw (e, f) (ground arith)
    contains-Perm k (Permᴰ.trans p q) = contains-Perm k p ∙ contains-Perm k q

    swap-Distinct : (u v : A) (l : List A) → Distinct (u ∷ v ∷ l) → Distinct (v ∷ u ∷ l)
    unfolding contains
    swap-Distinct u v l (h, (k, hs)) =
        (ground (arith, test.same_iff v u, test.same_iff u v), (ground arith, hs))

    pub Distinct-Perm : {xs ys : List A} → Permᴰ xs ys → Distinct ys → Distinct xs
    Distinct-Perm Permᴰ.nil h = tt
    Distinct-Perm (Permᴰ.cons {b = b} e p) (h, hs) =
        (rw (e, contains-Perm b p) h, Distinct-Perm p hs)
    Distinct-Perm (Permᴰ.swap {a' = u} {b' = v} {l = l} e f) h = rw (e, f) (swap-Distinct u v l h)
    Distinct-Perm (Permᴰ.trans p q) h = Distinct-Perm p (Distinct-Perm q h)

  -- Two elements that the order does not tell apart are the same.
  abbrev pub Separates : (A → A → Bool) → List A → Type ℓ
  Separates lt xs = (a b : A) → Memᴰ a xs → Memᴰ b xs → lt a b ≡ false → lt b a ≡ false → a ≡ b

  module _ (lt : A → A → Bool) (order : IsWeakOrder lt) where
    insert_commutes :
        (a b : A) (xs : List A)
        → lt a b ≡ true
        → insert_sorted lt a (insert_sorted lt b xs) ≡ insert_sorted lt b (insert_sorted lt a xs)
    unfolding insert_sorted
    insert_commutes a b [] h = ground (arith, order.asym a b h)
    insert_commutes a b (c ∷ xs) h =
        ground
          (arith, order.asym a b h, insert_commutes a b xs h, order.weak b a c, order.weak a b c)

    insert_twice :
        (a b : A) (xs : List A)
        → (lt a b ≡ false → lt b a ≡ false → a ≡ b)
        → insert_sorted lt a (insert_sorted lt b xs) ≡ insert_sorted lt b (insert_sorted lt a xs)
    insert_twice a b xs same = elim (Bool-cases (lt a b)) [
      | inl h ↦ insert_commutes a b xs h
      | inr h ↦ elim (Bool-cases (lt b a)) [
        | inl k ↦ sym (insert_commutes b a xs k)
        | inr k ↦ rw (same h k) refl
      ]
    ]

    -- Two lists with the same elements sort to the same list, if the order tells the elements
    -- apart.
    pub sort-Perm : {xs ys : List A} → Permᴰ xs ys → Separates lt xs → sort lt xs ≡ sort lt ys
    unfolding sort
    sort-Perm Permᴰ.nil s = refl
    sort-Perm (Permᴰ.cons {a} {b} e p) s =
        rw (e, sort-Perm p (λ c d m n. s c d (Memᴰ.tail m) (Memᴰ.tail n))) refl
    sort-Perm (Permᴰ.swap {a} {b} {l = xs} e f) s =
        rw (← e, ← f)
          (insert_twice a b (sort lt xs) (s a b (Memᴰ.head refl) (Memᴰ.tail (Memᴰ.head refl))))
    sort-Perm (Permᴰ.trans p q) s =
        sort-Perm p s ∙ sort-Perm q (λ c d m n. s c d (mem_of_perm c p m) (mem_of_perm d p n))

    insert_sorted-Perm : (a : A) (xs : List A) → Permᴰ (insert_sorted lt a xs) (a ∷ xs)
    unfolding insert_sorted
    insert_sorted-Perm a [] = Permᴰ.cons refl Permᴰ.nil
    insert_sorted-Perm a (b ∷ xs) = elim (Bool-cases (lt b a)) [
      | inl h ↦
          rw (h, insert_sorted)
            (Permᴰ.trans (Permᴰ.cons refl (insert_sorted-Perm a xs)) (Permᴰ.swap refl refl))
      | inr h ↦ rw (h, insert_sorted) (Permᴰ.refl (a ∷ b ∷ xs))
    ]

    -- Sorting permutes.
    pub sort_perm : (xs : List A) → Permᴰ (sort lt xs) xs
    unfolding sort
    sort_perm [] = Permᴰ.nil
    sort_perm (a ∷ xs) =
        Permᴰ.trans (insert_sorted-Perm a (sort lt xs)) (Permᴰ.cons refl (sort_perm xs))
