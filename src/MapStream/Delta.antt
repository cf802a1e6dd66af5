-- ===== src/MapStream/Delta.antt =====
-- What a delta changes.
use client_api.Prelude.{
  Bytes, bytes_eq, ◌≡◌, refl, none, List, map, Distinct, contains, All, ok, if◌then◌else◌,
  >>=-eq-ok,
}
use client_api.Go.Strings.{trim_space}
use client_api.Types.Relay.{RelayEndpoint}
use client_api.Types.Node.{Peer}
use client_api.Types.Map.{NetworkMapSnapshot, MapDelta}
use client_api.MapStream.Merge.Laws.{IsCanonical}
use client_api.MapStream.Merge.View.{find, or_found, merge-find}
use client_api.MapStream.{or_else, or_keep, merge_peers, merge_relays, apply_map_delta}

-- Each ID leads to its upsert, or to nothing if it is removed, or to what it led to.
abbrev pub IsPatched {ℓ} :
    {A : Type ℓ} → (A → Bytes) → List A → List A → List Bytes → List A → Type ℓ
IsPatched id_of current upserts remove_ids result =
    (k : Bytes)
    → find id_of k result
      ≡ or_found id_of (find id_of k upserts)
          (if contains k (map trim_space remove_ids) then none else find id_of k current)

-- A delta applies to a map with distinct peer IDs and distinct relay IDs: if its upserts' IDs carry
-- no white space, every peer and every relay of the result is the upsert under its ID, or else,
-- unless its ID is removed, the current one; the network, the node, the STUN endpoints and the
-- relay credential are the delta's where it has them; and the binding stays.
pub apply_map_delta-IsPatched :
    (current next : NetworkMapSnapshot) (d : MapDelta)
    → Distinct (map (λ (p : Peer). p.id) current.peers)
    → Distinct (map (λ (r : RelayEndpoint). r.id) current.relays)
    → All (IsCanonical (λ (p : Peer). p.id)) d.peer_upserts
    → All (IsCanonical (λ (r : RelayEndpoint). r.id)) d.relay_upserts
    → apply_map_delta current d ≡ ok next
    → IsPatched (λ (p : Peer). p.id) current.peers d.peer_upserts d.peer_remove_ids next.peers
      × IsPatched
          (λ (r : RelayEndpoint). r.id)
          current.relays
          d.relay_upserts
          d.relay_remove_ids
          next.relays
      × (next.network ≡ or_else d.network current.network)
      × (next.node ≡ or_else d.node current.node)
      × (next.stun_endpoints ≡ or_else d.stun_endpoints current.stun_endpoints)
      × (next.relay_credential ≡ or_keep d.relay_credential current.relay_credential)
      × (next.registration_binding ≡ current.registration_binding)
unfolding apply_map_delta merge_peers merge_relays
apply_map_delta-IsPatched current next d p q c e h =
    let (peers, h1, k) =
      >>=-eq-ok (merge_peers current.peers d.peer_upserts d.peer_remove_ids) _ h in
    let (relays, h2, l) =
      >>=-eq-ok (merge_relays current.relays d.relay_upserts d.relay_remove_ids) _ k in
    let made : record current {
      network = or_else d.network current.network;
      node = or_else d.node current.node;
      peers = peers;
      stun_endpoints = or_else d.stun_endpoints current.stun_endpoints;
      relays = relays;
      relay_credential = or_keep d.relay_credential current.relay_credential;
    }
        ≡ next =
      cc l in
    rw (← made) (
      λ k.
          merge-find (λ (p : Peer). p.id) current.peers d.peer_upserts d.peer_remove_ids peers k p c
            h1,
      λ k.
          merge-find (λ (r : RelayEndpoint). r.id) current.relays d.relay_upserts d.relay_remove_ids
            relays k q e h2,
      refl,
      refl,
      refl,
      refl,
      refl,
    )
