-- ===== src/ReleaseContract/Coverage.antt =====
-- The evidence of a released component covers the gates of its candidate.
use mathlib.Core.List.{Memᴰ}
use client_api.Prelude.{
  Bytes, bytes_eq, ◌≡◌, refl, sym, ◌∙◌, true, false, List, [], ◌∷◌, ◌==◌, map, contains, All,
  All-map, All-member, All-Memᴰ, Distinct, Bool-cases, inl, inr, ok, eq_of_beq, beq_refl, arith,
}
use client_api.Types.Component.{
  CompatibilityGate, CompatibilityEvidence, ComponentCandidate, ReleasedComponent,
}
use client_api.External.{External}
use client_api.ReleaseContract.Components.{gate_key, evidence_key, validate_released_component}
use client_api.ReleaseContract.GateKeys.{zeros, IsInt, compatibility_gate_key_injective}
use client_api.ReleaseContract.Gates.{validate_released_component-keys}

-- The evidence is for this gate.
pub record IsFor (g : CompatibilityGate) (e : CompatibilityEvidence) : Type 0 where
  pub provider : g.provider ≡ e.provider
  pub consumer : g.consumer ≡ e.consumer
  pub contract : g.contract ≡ e.contract
  pub version : g.version ≡ e.version

-- A gate whose names have no NUL byte.
pub record IsPlain (g : CompatibilityGate) : Type 0 where
  pub named : (zeros g.provider ≡ 0) × (zeros g.consumer ≡ 0) × (zeros g.contract ≡ 0)
  pub fits : IsInt g.version

contains-map-Memᴰ :
    {A : Type 0} (f : A → Bytes) (k : Bytes) (xs : List A)
    → contains k (map f xs) ≡ true
    → (a : A) × Memᴰ a xs × (k ≡ f a)
unfolding contains
contains-map-Memᴰ f k [] h = cc
contains-map-Memᴰ f k (x ∷ xs) h = elim (Bool-cases (k == f x)) [
  | inl e ↦ (x, Memᴰ.head refl, eq_of_beq k (f x) e)
  | inr e ↦ let (a, m, p) = contains-map-Memᴰ f k xs (ground arith) in (a, Memᴰ.tail m, p)
]

Memᴰ-contains-map :
    {A : Type 0} (f : A → Bytes) (a : A) (xs : List A)
    → Memᴰ a xs
    → contains (f a) (map f xs) ≡ true
unfolding contains
Memᴰ-contains-map f a [] m = elim m [ ]
Memᴰ-contains-map f a (x ∷ xs) (Memᴰ.head p) = rw p (ground (arith, beq_refl (f x)))
Memᴰ-contains-map f a (x ∷ xs) (Memᴰ.tail m) = ground (arith, Memᴰ-contains-map f a xs m)

same_key-IsFor :
    (g : CompatibilityGate) (e : CompatibilityEvidence)
    → IsPlain g
    → IsInt e.version
    → gate_key g ≡ evidence_key e
    → IsFor g e
same_key-IsFor g e i n h =
    let (a, b, c, d) =
      compatibility_gate_key_injective g.provider g.consumer g.contract e.provider e.consumer
        e.contract g.version e.version i.named i.fits n h in
    record { provider = a; consumer = b; contract = c; version = d }

-- No two of these are evidence for the same gate.
abbrev pub NoneTwice : List CompatibilityEvidence → Type 0
NoneTwice [] = Unit
NoneTwice (e ∷ es) =
    All
      (λ f. ¬ (
        (e.provider ≡ f.provider)
        × (e.consumer ≡ f.consumer)
        × (e.contract ≡ f.contract)
        × (e.version ≡ f.version)))
      es
    × NoneTwice es

not_repeated :
    (e : CompatibilityEvidence) (es : List CompatibilityEvidence)
    → contains (evidence_key e) (map evidence_key es) ≡ false
    → (f : CompatibilityEvidence) → Memᴰ f es
    → ¬ (
        (e.provider ≡ f.provider)
        × (e.consumer ≡ f.consumer)
        × (e.contract ≡ f.contract)
        × (e.version ≡ f.version))
not_repeated e es fresh f m (p, c, k, v) =
    let same : evidence_key e ≡ evidence_key f = rw (p, c, k, v) refl in
    let listed = Memᴰ-contains-map evidence_key f es m in
    let clash : contains (evidence_key e) (map evidence_key es) ≡ true = rw same listed in
    absurd (cc (clash, fresh))

Distinct-NoneTwice :
    (es : List CompatibilityEvidence) → Distinct (map evidence_key es) → NoneTwice es
Distinct-NoneTwice [] d = tt
Distinct-NoneTwice (e ∷ es) (fresh, d) =
    (All-map _ _ (not_repeated e es fresh) es (All-member es), Distinct-NoneTwice es d)

-- Each gate has evidence, each evidence is for a gate, and no gate has evidence twice.
pub record IsCovered (gs : List CompatibilityGate) (es : List CompatibilityEvidence) : Type 0 where
  pub each_gate : All (λ g. (e : CompatibilityEvidence) × Memᴰ e es × IsFor g e) gs
  pub each_evidence : All (λ e. (g : CompatibilityGate) × Memᴰ g gs × IsFor g e) es
  pub once : NoneTwice es

module _ ⦃x : External⦄ where
  -- An accepted release of a component has evidence for exactly the compatibility gates of its
  -- candidate, for no gate twice: evidence and gate agree in provider, consumer, contract and
  -- version. The versions are ints of 64 bits, and the names in the gates have no NUL byte, which
  -- the code's key separates them with.
  pub validate_released_component-covers :
      (r : ReleasedComponent) (c : ComponentCandidate) (candidate_raw : Bytes)
      → All IsPlain c.compatibility_gates
      → All (λ e. IsInt e.version) r.compatibility_evidence
      → validate_released_component r c candidate_raw ≡ ok tt
      → IsCovered c.compatibility_gates r.compatibility_evidence
  validate_released_component-covers r c candidate_raw plain ints h =
      let keys = λ (k : Bytes). validate_released_component-keys r c candidate_raw k h in
      let gs = c.compatibility_gates in
      let es = r.compatibility_evidence in
      record {
        each_gate =
            All-map _ _
              (λ g m.
                let (e, n, p) =
                  contains-map-Memᴰ evidence_key (gate_key g) es
                    ((keys (gate_key g)).1 ∙ Memᴰ-contains-map gate_key g gs m) in
                (e, n, same_key-IsFor g e (All-Memᴰ _ gs g plain m) (All-Memᴰ _ es e ints n) p))
              gs (All-member gs);
        each_evidence =
            All-map _ _
              (λ e m.
                let (g, n, p) =
                  contains-map-Memᴰ gate_key (evidence_key e) gs
                    (sym (keys (evidence_key e)).1 ∙ Memᴰ-contains-map evidence_key e es m) in
                (
                  g,
                  n,
                  same_key-IsFor g e (All-Memᴰ _ gs g plain n) (All-Memᴰ _ es e ints m) (sym p),
                ))
              es (All-member es);
        once = Distinct-NoneTwice es (keys []).0;
      }
