-- ===== src/MapStream/Merge/View.antt =====
-- What the merge does to the entry of each ID.
use client_api.Prelude.{
  Bytes, bytes_eq, bytes_beq_iff, ◌≡◌, refl, ap, ◌∙◌, true, false, ◌||◌, Option, none, some, List,
  [], ◌∷◌, ◌==◌, contains, All, ok, >>=-eq-ok, reject-eq-ok, if◌then◌else◌, arith, map, Distinct,
}
use client_api.Go.Strings.{trim_space}
use client_api.MapStream.Merge.{
  Index, position_of, keep_current, place, apply_upserts, normalized_id_set, merge,
}
use client_api.MapStream.Merge.Laws.{put, put_all, unremoved, IsCanonical, merge-put_all}

-- The set holds exactly the trimmed IDs.
normalized_id_set-contains :
    (k : Bytes) (found values : List Bytes) {r : List Bytes}
    → normalized_id_set found values ≡ ok r
    → contains k r ≡ (contains k found || contains k (map trim_space values))
unfolding normalized_id_set contains
normalized_id_set-contains k found [] h = ground arith
normalized_id_set-contains k found (v ∷ values) {r} h =
    let (a, h1) = reject-eq-ok (trim_space v == []) _ _ h in
    let (b, h2) = reject-eq-ok (contains (trim_space v) found) _ _ h1 in
    ground (arith, normalized_id_set-contains k (trim_space v ∷ found) values h2)

module _ {ℓ} {A : Type ℓ} (id_of : A → Bytes) where
  -- The first entry with the ID.
  unfoldable pub find : Bytes → List A → Option A
  find k [] = none
  find k (x ∷ xs) = if id_of x == k then some x else find k xs

  -- The upsert, or else what is there.
  abbrev pub or_found : Option A → Option A → Option A
  or_found none old = old
  or_found (some u) old = some u

  find-put :
      (k : Bytes) (u : A) (xs : List A)
      → find k (put id_of u xs) ≡ (if id_of u == k then some u else find k xs)
  unfolding find put
  find-put k u [] = refl
  find-put k u (x ∷ xs) = ground (
    arith,
    find-put k u xs,
    bytes_beq_iff (id_of x) (id_of u),
    bytes_beq_iff (id_of x) k,
    bytes_beq_iff (id_of u) k,
  )

  find_absent : (k : Bytes) (us : List A) → contains k (map id_of us) ≡ false → find k us ≡ none
  unfolding find contains
  find_absent k [] h = refl
  find_absent k (u ∷ us) h =
      ground (arith, find_absent k us, bytes_beq_iff k (id_of u), bytes_beq_iff (id_of u) k)

  find-put_all :
      (k : Bytes) (us xs : List A)
      → Distinct (map id_of us)
      → find k (put_all id_of us xs) ≡ or_found (find k us) (find k xs)
  unfolding put_all find
  find-put_all k [] xs d = refl
  find-put_all k (u ∷ us) xs (a, d) = ground (
    arith,
    find-put_all k us (put id_of u xs) d,
    find-put k u xs,
    find_absent (id_of u) us a,
    bytes_beq_iff (id_of u) k,
  )

  find-unremoved :
      (k : Bytes) (remove : List Bytes) (xs : List A)
      → find k (unremoved id_of remove xs) ≡ (if contains k remove then none else find k xs)
  unfolding find unremoved
  find-unremoved k remove [] = ground arith
  find-unremoved k remove (x ∷ xs) =
      ground
        (arith, find-unremoved k remove xs, bytes_beq_iff (id_of x) k, ap (λ i. contains i remove))

  apply_upserts-Distinct :
      (us xs : List A) (index : Index) (seen : List Bytes) {r : List A}
      → All (IsCanonical id_of) us
      → apply_upserts id_of xs index seen us ≡ ok r
      → Distinct (map id_of us)
        × ((k : Bytes) → contains k seen ≡ true → contains k (map id_of us) ≡ false)
  unfolding apply_upserts contains
  apply_upserts-Distinct [] xs index seen c h = (tt, λ k e. refl)
  apply_upserts-Distinct (u ∷ us) xs index seen (c, cs) h =
      let id = trim_space (id_of u) in
      let (a, h1) = reject-eq-ok (id == []) _ _ h in
      let (b, h2) = reject-eq-ok (contains id seen) _ _ h1 in
      let next = place id_of xs index u (position_of id index) in
      let (d, apart) = apply_upserts-Distinct us next.0 next.1 (id ∷ seen) cs h2 in
      (
        (ground (arith, apart (id_of u), bytes_beq_iff (id_of u) id), d),
        λ k e. ground (arith, apart k, bytes_beq_iff k (id_of u)),
      )

  -- After a merge into entries with distinct IDs, by upserts whose IDs carry no white space, an ID
  -- leads to its upsert if there is one; otherwise to nothing if the ID is among the trimmed IDs to
  -- remove; and otherwise to the entry it led to before.
  pub merge-find :
      (current upserts : List A) (remove_ids : List Bytes) (r : List A) (k : Bytes)
      → Distinct (map id_of current)
      → All (IsCanonical id_of) upserts
      → merge id_of current upserts remove_ids ≡ ok r
      → find k r
        ≡ or_found
            (find k upserts)
            (if contains k (map trim_space remove_ids) then none else find k current)
  unfolding merge contains
  merge-find current upserts remove_ids r k d c h =
      let (remove, e, p) = merge-put_all id_of current upserts remove_ids r d c h in
      let (remove', e', h1) = >>=-eq-ok (normalized_id_set [] remove_ids) _ h in
      let kept = keep_current id_of remove' [] [] current in
      let (u, _) = apply_upserts-Distinct upserts kept.0 kept.1 [] c h1 in
      rw (← p) (
        find-put_all k upserts (unremoved id_of remove current) u
        ∙ ap (or_found (find k upserts)) (
            find-unremoved k remove current
            ∙ ap (λ b. if b then none else find k current)
                (normalized_id_set-contains k [] remove_ids e)))
