-- ===== src/MapSign/Canonical.antt =====
-- The signed payload does not depend on the order of the map's lists.
use mathlib.Core.List.{Memᴰ, Permᴰ}
use client_api.Prelude.{
  Bytes, bytes_eq, bytes_beq_iff, ◌≡◌, true, false, List, ◌==◌, arith, eq_of_beq, Bool-cases, inl,
  inr,
}
use client_api.Go.Sort.{sort}
use client_api.Go.Sort.Texts.{bytes_lt_irrefl, bytes_lt_total, bytes_lt_asym, bytes_lt_weak}
use client_api.Go.Sort.Laws.{IsWeakOrder, sort-Perm}
use client_api.Types.Time.{Time}
use client_api.Types.Relay.{RelayEndpoint}
use client_api.Types.Node.{Peer, StunEndpoint}
use client_api.Types.Map.{NetworkMapSnapshot}
use client_api.External.{External}
use client_api.MapSign.{
  pair_lt, peer_lt, relay_lt, stun_lt, signing_payload, canonical_network_map_payload,
}

pair_lt_asym : (a p b q : Bytes) → pair_lt a p b q ≡ true → pair_lt b q a p ≡ false
pair_lt_asym a p b q h =
    ground (arith, bytes_beq_iff a b, bytes_beq_iff b a, bytes_lt_asym a b, bytes_lt_asym p q)

pair_lt_weak :
    (a p b q c r : Bytes)
    → pair_lt c r b q ≡ true
    → pair_lt c r a p ≡ false
    → pair_lt a p b q ≡ true
pair_lt_weak a p b q c r h k = ground (
  arith,
  bytes_beq_iff a b,
  bytes_beq_iff c b,
  bytes_beq_iff c a,
  bytes_lt_weak a b c,
  bytes_lt_weak p q r,
  bytes_lt_total a c,
  bytes_lt_irrefl a,
)

pair_lt_total :
    (a p b q : Bytes) → pair_lt a p b q ≡ false → pair_lt b q a p ≡ false → (a ≡ b) × (p ≡ q)
pair_lt_total a p b q h k = elim (Bool-cases (a == b)) [
  | inl e ↦ (
    eq_of_beq a b e,
    bytes_lt_total p q (ground arith) (ground (arith, bytes_beq_iff a b, bytes_beq_iff b a)),
  )
  | inr e ↦ ground (arith, bytes_lt_total a b, bytes_beq_iff a b, bytes_beq_iff b a)
]

module _ {A : Type 0} (id second : A → Bytes) where
  -- Entries with the same two keys are the same entry.
  abbrev pub AreKeyed : List A → Type 0
  AreKeyed xs = (a b : A) → Memᴰ a xs → Memᴰ b xs → id a ≡ id b → second a ≡ second b → a ≡ b

  keyed_order : IsWeakOrder (λ a b. pair_lt (id a) (second a) (id b) (second b))
  keyed_order = record {
    asym = λ a b h. pair_lt_asym (id a) (second a) (id b) (second b) h;
    weak = λ a b c h k. pair_lt_weak (id a) (second a) (id b) (second b) (id c) (second c) h k;
  }

  sort-keyed :
      {xs ys : List A}
      → Permᴰ xs ys
      → AreKeyed xs
      → sort (λ a b. pair_lt (id a) (second a) (id b) (second b)) xs
        ≡ sort (λ a b. pair_lt (id a) (second a) (id b) (second b)) ys
  sort-keyed p k =
      sort-Perm (λ a b. pair_lt (id a) (second a) (id b) (second b)) keyed_order p
        (λ a b m n h l.
          let (e, f) = pair_lt_total (id a) (second a) (id b) (second b) h l in k a b m n e f)

module _ ⦃x : External⦄ where
  -- The signed payload is the same for two maps that differ in the order of their peers, relays and
  -- STUN endpoints only, if peers with the same ID and hostname, and relays and endpoints with the
  -- same ID and address, are the same.
  pub canonical_network_map_payload-Perm :
      (s : NetworkMapSnapshot) (peers : List Peer) (relays : List RelayEndpoint)
      (endpoints : List StunEndpoint) (key_id : Bytes) (issued_at expires_at : Time)
      → Permᴰ s.peers peers
      → Permᴰ s.relays relays
      → Permᴰ s.stun_endpoints endpoints
      → AreKeyed (λ p. p.id) (λ p. p.hostname) s.peers
      → AreKeyed (λ r. r.id) (λ r. r.addr) s.relays
      → AreKeyed (λ e. e.id) (λ e. e.addr) s.stun_endpoints
      → canonical_network_map_payload s key_id issued_at expires_at
        ≡ canonical_network_map_payload
            (record s { peers = peers; relays = relays; stun_endpoints = endpoints })
            key_id
            issued_at
            expires_at
  unfolding canonical_network_map_payload signing_payload peer_lt relay_lt stun_lt
  canonical_network_map_payload-Perm s peers relays endpoints key_id issued_at expires_at p q r kp
        kr ke =
      simp (
        sort-keyed (λ p. p.id) (λ p. p.hostname) p kp,
        sort-keyed (λ r. r.id) (λ r. r.addr) q kr,
        sort-keyed (λ e. e.id) (λ e. e.addr) r ke,
      )
