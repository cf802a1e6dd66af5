-- ===== src/MapStream/Merge/Laws.antt =====
-- The merge over positions does what replacing entries in place does.
use mathlib.Core.List.{append-nil, append_assoc}
use client_api.Prelude.{
  Bytes, bytes_eq, bytes_beq_iff, ℕ, zero, suc, ◌≡◌, refl, sym, ap, ◌∙◌, false, Option, none, some,
  List, [], ◌∷◌, ◌++◌, ◌==◌, contains, length, All, ok, >>=-eq-ok, reject-eq-ok, Bool-cases,
  Option-cases, inl, inr, if◌then◌else◌, arith, map, Distinct,
}
use client_api.Go.Strings.{trim_space}
use client_api.MapStream.Merge.{
  Index, position_of, set, keep_current, place, apply_upserts, normalized_id_set, merge,
}

module _ {ℓ} {A : Type ℓ} (id_of : A → Bytes) where
  -- Replaces the entry with the same ID in place, or appends.
  unfoldable pub put : A → List A → List A
  put u [] = u ∷ []
  put u (x ∷ xs) = if id_of x == id_of u then u ∷ xs else x ∷ put u xs

  unfoldable pub put_all : List A → List A → List A
  put_all [] xs = xs
  put_all (u ∷ us) xs = put_all us (put u xs)

  -- The current entries whose ID is not removed.
  unfoldable pub unremoved : List Bytes → List A → List A
  unremoved remove [] = []
  unremoved remove (x ∷ xs) =
      let rest = unremoved remove xs in if contains (id_of x) remove then rest else x ∷ rest

  shifted : Option ℕ → Option ℕ
  shifted none = none
  shifted (some n) = some (suc n)

  -- The first position with the ID.
  position_in : Bytes → List A → Option ℕ
  position_in k [] = none
  position_in k (x ∷ xs) = if id_of x == k then some 0 else shifted (position_in k xs)

  or_last : Bytes → A → ℕ → Option ℕ → Option ℕ
  or_last k e n (some i) = some i
  or_last k e n none = if id_of e == k then some n else none

  position_in-append :
      (k : Bytes) (e : A) (xs : List A)
      → position_in k (xs ++ e ∷ []) ≡ or_last k e (length xs) (position_in k xs)
  unfolding position_in or_last shifted
  position_in-append k e [] = ground arith
  position_in-append k e (x ∷ xs) = ground (arith, position_in-append k e xs)

  -- At the position of its ID an entry is put by a write, and elsewhere by an append.
  put-set :
      (u : A) (xs : List A) (i : ℕ) → position_in (id_of u) xs ≡ some i → set xs i u ≡ put u xs
  unfolding put position_in shifted
  put-set u [] i h = cc
  put-set u (x ∷ xs) zero h = ground arith
  put-set u (x ∷ xs) (suc i) h = ground (arith, put-set u xs i)

  put-append : (u : A) (xs : List A) → position_in (id_of u) xs ≡ none → put u xs ≡ xs ++ u ∷ []
  unfolding put position_in shifted
  put-append u [] h = refl
  put-append u (x ∷ xs) h = ground (arith, put-append u xs)

  position_in-put :
      (u : A) (xs : List A) (i : ℕ) (k : Bytes)
      → position_in (id_of u) xs ≡ some i
      → position_in k (put u xs) ≡ position_in k xs
  unfolding put position_in shifted
  position_in-put u [] i k h = cc
  position_in-put u (x ∷ xs) zero k h = ground (
    arith,
    bytes_beq_iff (id_of x) (id_of u),
    bytes_beq_iff (id_of x) k,
    bytes_beq_iff (id_of u) k,
  )
  position_in-put u (x ∷ xs) (suc i) k h = ground (
    arith,
    position_in-put u xs i k,
    bytes_beq_iff (id_of x) (id_of u),
    bytes_beq_iff (id_of x) k,
    bytes_beq_iff (id_of u) k,
  )

  -- The index gives the position of every ID.
  abbrev Describes : Index → List A → Type 0
  Describes index xs = (k : Bytes) → position_of k index ≡ position_in k xs

  Describes-append :
      (index : Index) (xs : List A) (e : A) (id : Bytes)
      → id ≡ id_of e
      → position_in id xs ≡ none
      → Describes index xs
      → Describes ((id, length xs) ∷ index) (xs ++ e ∷ [])
  unfolding position_of or_last
  Describes-append index xs e id p n d k =
      rw position_in-append (ground (arith, d k, bytes_beq_iff id k, bytes_beq_iff (id_of e) k))

  -- No entry's ID is in `xs` yet.
  abbrev AreNew : List A → List A → Type 0
  AreNew entries xs = All (λ e. position_in (id_of e) xs ≡ none) entries

  AreNew-append :
      (e : A) (entries xs : List A)
      → AreNew entries xs
      → contains (id_of e) (map id_of entries) ≡ false
      → AreNew entries (xs ++ e ∷ [])
  unfolding contains or_last
  AreNew-append e [] xs h k = tt
  AreNew-append e (f ∷ entries) xs (n, h) k = (
    rw position_in-append (ground (arith, bytes_beq_iff (id_of e) (id_of f))),
    AreNew-append e entries xs h (ground arith),
  )

  keep_current-unremoved :
      (remove : List Bytes) (entries xs : List A) (index : Index)
      → AreNew entries xs
      → Distinct (map id_of entries)
      → Describes index xs
      → ((keep_current id_of remove xs index entries).0 ≡ xs ++ unremoved remove entries)
        × Describes
            (keep_current id_of remove xs index entries).1
            (keep_current id_of remove xs index entries).0
  unfolding keep_current unremoved
  keep_current-unremoved remove [] xs index n h d = (sym (append-nil xs), d)
  keep_current-unremoved remove (e ∷ entries) xs index (n, ns) (a, h) d =
      elim (Bool-cases (contains (id_of e) remove)) [
        | inl r ↦ rw (r, keep_current) (keep_current-unremoved remove entries xs index ns h d)
        | inr r ↦
            let (p, q) =
              keep_current-unremoved remove entries (xs ++ e ∷ []) ((id_of e, length xs) ∷ index)
                (AreNew-append e entries xs ns a) h
                (Describes-append index xs e (id_of e) refl n d) in
            rw (r, keep_current) (p ∙ append_assoc xs (e ∷ []) (unremoved remove entries), q)
      ]

  none_yet : (entries : List A) → AreNew entries []
  unfolding position_in
  none_yet [] = tt
  none_yet (e ∷ entries) = (refl, none_yet entries)

  abbrev pub IsCanonical : A → Type 0
  IsCanonical u = trim_space (id_of u) ≡ id_of u

  apply_upserts-put_all :
      (us xs : List A) (index : Index) (seen : List Bytes) (r : List A)
      → All IsCanonical us
      → Describes index xs
      → apply_upserts id_of xs index seen us ≡ ok r
      → put_all us xs ≡ r
  unfolding apply_upserts put_all place
  apply_upserts-put_all [] xs index seen r c d h = ground arith
  apply_upserts-put_all (u ∷ us) xs index seen r (c, cs) d h =
      let id = trim_space (id_of u) in
      let (a, h1) = reject-eq-ok (id == []) _ _ h in
      let (b, h2) = reject-eq-ok (contains id seen) _ _ h1 in
      elim (Option-cases (position_in (id_of u) xs)) [
        | inl n ↦
            let e = ap (λ k. position_of k index) c ∙ d (id_of u) ∙ n in
            rw (put-append u xs n) (
              apply_upserts-put_all us (xs ++ u ∷ []) ((id, length xs) ∷ index) (id ∷ seen) r cs
                (Describes-append index xs u id c (rw c n) d) (rw e at h2))
        | inr (i, n) ↦
            let e = ap (λ k. position_of k index) c ∙ d (id_of u) ∙ n in
            let same = put-set u xs i n in
            rw (← same) (
              apply_upserts-put_all us (set xs i u) index (id ∷ seen) r cs
                (λ k. rw same (d k ∙ sym (position_in-put u xs i k n))) (rw e at h2))
      ]

  -- If the current IDs are distinct and the upserts' IDs carry no white space, the merge keeps the
  -- entries that are not removed, in their order, and puts the upserts into them one by one: in
  -- place of the entry with the same ID, or at the end.
  pub merge-put_all :
      (current upserts : List A) (remove_ids : List Bytes) (r : List A)
      → Distinct (map id_of current)
      → All IsCanonical upserts
      → merge id_of current upserts remove_ids ≡ ok r
      → (remove : List Bytes) × (normalized_id_set [] remove_ids ≡ ok remove)
        × (put_all upserts (unremoved remove current) ≡ r)
  unfolding merge position_in position_of
  merge-put_all current upserts remove_ids r dist c h =
      let (remove, e, k) = >>=-eq-ok (normalized_id_set [] remove_ids) _ h in
      let (p, d) =
        keep_current-unremoved remove current [] [] (none_yet current) dist (λ k. refl) in
      (
        remove,
        e,
        ap (put_all upserts) (sym p)
            ∙ apply_upserts-put_all upserts (keep_current id_of remove [] [] current).0
                (keep_current id_of remove [] [] current).1 [] r c d k,
      )
