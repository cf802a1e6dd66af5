-- ===== src/Credential/Scopes.antt =====
-- The scopes of a node credential: a set of texts, kept as a sorted list.
use client_api.Prelude.{
  Bytes, bytes_eq, ◌≡◌, refl, ap, ◌∙◌, false, List, [], ◌==◌, contains, map, All, All-map, All-both,
  Distinct, arith,
}
use client_api.Go.Strings.{trim_space}
use client_api.Go.Strings.TrimLaws.{trim_space_idempotent}
use client_api.Go.Sort.{sort}
use client_api.Go.Sort.Texts.{bytes_lt, bytes_lt_total, bytes_lt_asym, bytes_lt_weak}
use client_api.Go.Sort.Laws.{
  IsWeakOrder, sort-Perm, sort_perm, All-Perm, Distinct-Perm, contains-Perm,
}
use client_api.Cleaning.{clean_strings}
use client_api.Cleaning.Laws.{
  keep_new-Distinct, keep_new-nonempty, keep_new-formed, keep_new_of_clean, keep_new-contains,
}
use client_api.Credential.{clean_credential_scopes}

bytes_order : IsWeakOrder bytes_lt
bytes_order = record { asym = bytes_lt_asym; weak = bytes_lt_weak }

pub clean_credential_scopes-Distinct :
    (scopes : List Bytes) → Distinct (clean_credential_scopes scopes)
unfolding clean_credential_scopes clean_strings
clean_credential_scopes-Distinct scopes =
    Distinct-Perm (sort_perm bytes_lt bytes_order (clean_strings scopes))
      (keep_new-Distinct trim_space [] scopes)

-- A cleaned scope is trimmed and not empty.
pub clean_credential_scopes-formed :
    (scopes : List Bytes)
    → All (λ v. (trim_space v ≡ v) × ((v == []) ≡ false)) (clean_credential_scopes scopes)
unfolding clean_credential_scopes clean_strings
clean_credential_scopes-formed scopes =
    All-Perm _ (sort_perm bytes_lt bytes_order (clean_strings scopes)) (
      All-both _ _ _ (keep_new-formed trim_space trim_space_idempotent [] scopes)
        (keep_new-nonempty trim_space [] scopes))

pub clean_credential_scopes_idempotent :
    (scopes : List Bytes)
    → clean_credential_scopes (clean_credential_scopes scopes) ≡ clean_credential_scopes scopes
unfolding clean_credential_scopes clean_strings contains
clean_credential_scopes_idempotent scopes =
    let cleaned = sort bytes_lt (clean_strings scopes) in
    let same =
      keep_new_of_clean trim_space [] cleaned
        (All-map _ _ (λ v (e, n). (e, n, refl)) cleaned (clean_credential_scopes-formed scopes))
        (clean_credential_scopes-Distinct scopes) in
    ap (sort bytes_lt) same
    ∙ sort-Perm bytes_lt bytes_order (sort_perm bytes_lt bytes_order (clean_strings scopes))
        (λ a b m n h k. bytes_lt_total a b h k)

-- Cleaning keeps exactly the trimmed scopes that are not empty.
pub credential_has-clean_credential_scopes :
    (scope : Bytes) (scopes : List Bytes)
    → (scope == []) ≡ false
    → contains scope (clean_credential_scopes scopes) ≡ contains scope (map trim_space scopes)
unfolding clean_credential_scopes clean_strings contains
credential_has-clean_credential_scopes scope scopes n =
    contains-Perm scope (sort_perm bytes_lt bytes_order (clean_strings scopes))
    ∙ ground (arith, keep_new-contains trim_space scope [] scopes n)
