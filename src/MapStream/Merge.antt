-- ===== src/MapStream/Merge.antt =====
-- mapstream.go, mergePeers and mergeRelays: one program over two types, the merge of keyed entries.
pub mod Laws
pub mod View
use client_api.Prelude.{
  Bytes, bytes_eq, ℕ, zero, suc, Bool, not, Option, none, some, List, [], ◌∷◌, ◌++◌, ◌==◌, contains,
  length, Result, ok, err, ◌>>=◌, ◌>>◌, reject, if◌then◌else◌,
}
use client_api.Go.Strings.{trim_space}
use client_api.Errors.{Error, empty_id, duplicate_id}

-- normalizedIDSet, with the set so far.
unfoldable pub normalized_id_set : List Bytes → List Bytes → Result Error (List Bytes)
normalized_id_set found [] = ok found
normalized_id_set found (value ∷ values) = do
  reject (trim_space value == []) empty_id
  reject (contains (trim_space value) found) duplicate_id
  normalized_id_set (trim_space value ∷ found) values

-- The Go map `index`: the newest entry of a key counts.
abbrev pub Index : Type 0
Index = List (Bytes × ℕ)

unfoldable pub position_of : Bytes → Index → Option ℕ
position_of id [] = none
position_of id ((k, n) ∷ index) = if k == id then some n else position_of id index

module _ {ℓ} {A : Type ℓ} where
  -- A write at a position of the slice.
  abbrev pub set : List A → ℕ → A → List A
  set [] i v = []
  set (x ∷ xs) zero v = v ∷ xs
  set (x ∷ xs) (suc i) v = x ∷ set xs i v

module _ {ℓ} {A : Type ℓ} (id_of : A → Bytes) where
  -- The loop over the current entries, with `result` and `index`.
  unfoldable pub keep_current : List Bytes → List A → Index → List A → List A × Index
  keep_current remove result index [] = (result, index)
  keep_current remove result index (entry ∷ entries) =
      let kept =
        keep_current remove (result ++ entry ∷ []) ((id_of entry, length result) ∷ index) entries in
      let rest = keep_current remove result index entries in
      if contains (id_of entry) remove then rest else kept

  -- result[position] = entry, or the append behind a missing key.
  unfoldable pub place : List A → Index → A → Option ℕ → List A × Index
  place result index entry (some position) = (set result position entry, index)
  place result index entry none =
      (result ++ entry ∷ [], (trim_space (id_of entry), length result) ∷ index)

  -- The loop over the upserts, with the trimmed IDs seen before.
  unfoldable pub apply_upserts : List A → Index → List Bytes → List A → Result Error (List A)
  apply_upserts result index seen [] = ok result
  apply_upserts result index seen (entry ∷ entries) = do
    let id = trim_space (id_of entry)
    reject (id == []) empty_id
    reject (contains id seen) duplicate_id
    let next = place result index entry (position_of id index)
    apply_upserts next.0 next.1 (id ∷ seen) entries

  unfoldable pub merge : List A → List A → List Bytes → Result Error (List A)
  merge current upserts remove_ids = do
    remove ← normalized_id_set [] remove_ids
    let kept = keep_current remove [] [] current
    apply_upserts kept.0 kept.1 [] upserts
