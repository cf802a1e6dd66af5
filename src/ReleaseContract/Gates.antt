-- ===== src/ReleaseContract/Gates.antt =====
-- The evidence of a released component has the keys of its candidate's gates.
use client_api.Prelude.{
  Bytes, bytes_eq, bytes_beq_iff, nat_eq, ◌+◌, ◌≤◌, ◌<◌, ◌≡◌, refl, sym, ap, ◌∙◌, true, false, not,
  ◌||◌, List, [], ◌∷◌, ◌==◌, map, length, contains, Distinct, ok, arith, Bool-cases, inl, inr,
  >>-eq-ok, >>=-eq-ok, reject-eq-ok, reject-ok, beq_refl, if◌then◌else◌,
}
use client_api.Types.Component.{
  CompatibilityGate, CompatibilityEvidence, ComponentCandidate, ReleasedComponent,
}
use client_api.External.{External}
use client_api.ReleaseContract.{validate_digest_reference, gate_unexpected, evidence_missing}
use client_api.ReleaseContract.Components.{
  gate_key, evidence_key, add_key, wanted_keys, seen_keys, check_binding,
  validate_released_component,
}

remove : Bytes → List Bytes → List Bytes
remove k [] = []
remove k (x ∷ xs) = let rest = remove k xs in if k == x then rest else x ∷ rest

remove_no_longer : (k : Bytes) (xs : List Bytes) → length (remove k xs) ≤ length xs
unfolding remove
remove_no_longer k [] = omega arith
remove_no_longer k (x ∷ xs) = ground (arith, remove_no_longer k xs)

remove_shorter :
    (k : Bytes) (xs : List Bytes) → contains k xs ≡ true → length (remove k xs) < length xs
unfolding remove contains
remove_shorter k [] h = cc
remove_shorter k (x ∷ xs) h = ground (arith, remove_no_longer k xs, remove_shorter k xs)

contains-remove :
    (j k : Bytes) (xs : List Bytes) → (j == k) ≡ false → contains j (remove k xs) ≡ contains j xs
unfolding remove contains
contains-remove j k [] n = refl
contains-remove j k (x ∷ xs) n =
    ground
      (arith, n, contains-remove j k xs n, bytes_beq_iff j x, bytes_beq_iff k x, bytes_beq_iff j k)

-- Different keys among others are no more than those.
Distinct-fits :
    (xs ys : List Bytes)
    → Distinct xs
    → ((k : Bytes) → contains k xs ≡ true → contains k ys ≡ true)
    → length xs ≤ length ys
unfolding contains
Distinct-fits [] ys d h = omega arith
Distinct-fits (x ∷ xs) ys (fresh, d) h =
    let fits = Distinct-fits xs (remove x ys) d (λ k m.
      let apart : (k == x) ≡ false = ground (arith, fresh, m, bytes_beq_iff k x) in
      contains-remove k x ys apart ∙ h k (ground (arith, m))) in
    let shorter = remove_shorter x ys (h x (ground (arith, beq_refl x))) in
    omega (arith, fits, shorter)

-- As many of them are all of them.
Distinct-covers :
    (xs ys : List Bytes)
    → Distinct xs
    → ((k : Bytes) → contains k xs ≡ true → contains k ys ≡ true)
    → length xs ≡ length ys
    → (k : Bytes) → contains k xs ≡ contains k ys
unfolding contains
Distinct-covers xs ys d h e k = elim (Bool-cases (contains k xs)) [
  | inl a ↦ a ∙ sym (h k a)
  | inr a ↦ elim (Bool-cases (contains k ys)) [
    | inr b ↦ a ∙ sym b
    | inl b ↦
        let fits =
          Distinct-fits (k ∷ xs) ys (a, d)
            (λ j m. elim (Bool-cases (j == k)) [
              | inl s ↦ ground (arith, b, s, bytes_beq_iff j k)
              | inr s ↦ h j (ground arith)
            ]) in
        ground (arith, fits, e)
  ]
]

wanted_keys-contains :
    (k : Bytes) (gs : List CompatibilityGate) (keys : List Bytes)
    → contains k (wanted_keys gs keys) ≡ (contains k (map gate_key gs) || contains k keys)
unfolding wanted_keys add_key contains
wanted_keys-contains k [] keys = refl
wanted_keys-contains k (g ∷ gs) keys =
    ground
      (arith, wanted_keys-contains k gs (add_key (gate_key g) keys), bytes_beq_iff k (gate_key g))

not_among :
    (k : Bytes) (seen keys : List Bytes)
    → ((j : Bytes) → contains j keys ≡ true → contains j (k ∷ seen) ≡ false)
    → contains k keys ≡ false
unfolding contains
not_among k seen keys h = elim (Bool-cases (contains k keys)) [
  | inr e ↦ e
  | inl e ↦ ground (arith, h k e, beq_refl k)
]

-- What the loop over the evidence has found.
record IsSeen (want seen : List Bytes) (es : List CompatibilityEvidence) (out : List Bytes)
    : Type 0 where
  distinct : Distinct (map evidence_key es)
  wanted : (k : Bytes) → contains k (map evidence_key es) ≡ true → contains k want ≡ true
  fresh : (k : Bytes) → contains k (map evidence_key es) ≡ true → contains k seen ≡ false
  total : length out ≡ length (map evidence_key es) + length seen

seen_keys-IsSeen :
    (want seen : List Bytes) (es : List CompatibilityEvidence) (out : List Bytes)
    → seen_keys want seen es ≡ ok out
    → IsSeen want seen es out
unfolding seen_keys contains
seen_keys-IsSeen want seen [] out h =
    let same : seen ≡ out = cc h in
    record {
      distinct = tt;
      wanted = λ k m. cc m;
      fresh = λ k m. cc m;
      total = omega (arith, ap length (sym same));
    }
seen_keys-IsSeen want seen (e ∷ es) out h =
    let (a, h1) =
      reject-eq-ok (not (contains (evidence_key e) want) || contains (evidence_key e) seen)
        gate_unexpected _ h in
    let (b, h2) = >>-eq-ok (validate_digest_reference e.evidence) _ h1 in
    let i = seen_keys-IsSeen want (evidence_key e ∷ seen) es out h2 in
    record {
      distinct = (not_among (evidence_key e) seen (map evidence_key es) i.fresh, i.distinct);
      wanted = λ k m. elim (Bool-cases (k == evidence_key e)) [
        | inl s ↦ ground (arith, a, s, bytes_beq_iff k (evidence_key e))
        | inr s ↦ i.wanted k (ground (arith, m, s))
      ];
      fresh = λ k m. elim (Bool-cases (k == evidence_key e)) [
        | inl s ↦ ground (arith, a, s, bytes_beq_iff k (evidence_key e))
        | inr s ↦ ground (arith, i.fresh k (ground (arith, m, s)))
      ];
      total = omega (arith, i.total);
    }

module _ ⦃x : External⦄ where
  -- The keys of an accepted release's evidence are those of its candidate's gates, each once.
  pub validate_released_component-keys :
      (r : ReleasedComponent) (c : ComponentCandidate) (candidate_raw k : Bytes)
      → validate_released_component r c candidate_raw ≡ ok tt
      → Distinct (map evidence_key r.compatibility_evidence)
        × (contains k (map evidence_key r.compatibility_evidence)
            ≡ contains k (map gate_key c.compatibility_gates))
  unfolding validate_released_component contains
  validate_released_component-keys r c candidate_raw k h =
      let want = wanted_keys c.compatibility_gates [] in
      let (a, h1) = >>-eq-ok (check_binding r c candidate_raw) _ h in
      let (seen, b, h2) = >>=-eq-ok (seen_keys want [] r.compatibility_evidence) _ h1 in
      let d = reject-ok (not (length seen == length want)) evidence_missing h2 in
      let i = seen_keys-IsSeen want [] r.compatibility_evidence seen b in
      let all =
        Distinct-covers (map evidence_key r.compatibility_evidence) want i.distinct i.wanted
          (ground (arith, d, i.total)) k in
      (i.distinct, all ∙ ground (arith, wanted_keys-contains k c.compatibility_gates []))
