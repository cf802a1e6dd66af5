-- ===== src/Sharing/Laws.antt =====
-- What accepted sharing grants are: their rights, their leases, and the peers that they bind.
use mathlib.Core.List.{Memᴰ}
use client_api.Prelude.{
  Bytes, bytes_eq, bytes_beq_iff, ℕ, ◌+◌, ◌≤◌, ◌<◌, ◌≡◌, ◌≢◌, refl, sym, ap, ◌∙◌, Bool, true, false,
  not, ◌||◌, ◌&&◌, List, [], ◌∷◌, ◌++◌, ◌==◌, nat_eq, ltb, length, any, All, All-map, none-Memᴰ,
  contains, ok, >>=-eq-ok, >>-eq-ok, reject-eq-ok, reject-ok, for_each, arith, inl, inr, Bool-cases,
  eq_of_beq,
}
use client_api.Go.Netip.{overlaps}
use client_api.Types.Time.{Time}
use client_api.Types.Network.{SharePeerGrant, ShareTraffic}
use client_api.Types.Node.{Peer}
use client_api.Types.Map.{NetworkMapSnapshot}
use client_api.External.{External}
use client_api.Wireguard
use client_api.Sharing.{
  share_initiation_recipient_only, max_share_peer_grant_ttl, identifiers, validate_share_field,
  is_bad_lease, validate_ports, rights_overlap, validate_rights, share_host_prefixes, validate,
  share_ips_equal, Endpoint, local_end, remote_end, share_local_ips_match, find_remote,
  validate_grant, validate_grants, is_unbound, is_outside_lease, validate_share_peer_grants,
  validate_share_peer_grants_at,
}

-- No port of a right is another's, if both have the same protocol.
abbrev pub AreApart : ShareTraffic → ShareTraffic → Type 0
AreApart r s =
    r.protocol ≡ s.protocol
    → (n : ℕ) → r.first_port ≤ n
    → n ≤ r.last_port
    → s.first_port ≤ n
    → n ≤ s.last_port
    → false ≡ true

-- Every two of the rights are apart.
abbrev pub ArePairwiseApart : List ShareTraffic → Type 0
ArePairwiseApart [] = Unit
ArePairwiseApart (r ∷ rs) = All (λ s. AreApart s r) rs × ArePairwiseApart rs

apart_of_no_overlap : (r s : ShareTraffic) → rights_overlap r s ≡ false → AreApart r s
apart_of_no_overlap r s h e n a b c d = ground (arith, bytes_beq_iff r.protocol s.protocol)

any-append-false :
    {A : Type 0} (p : A → Bool) (xs : List A) (a : A)
    → any p (xs ++ a ∷ []) ≡ false
    → (any p xs ≡ false) × (p a ≡ false)
unfolding any
any-append-false p [] a h = ground arith
any-append-false p (x ∷ xs) a h = ground (arith, any-append-false p xs a)

validate_rights-apart :
    (earlier rights : List ShareTraffic)
    → validate_rights earlier rights ≡ ok tt
    → All (λ r. any (rights_overlap r) earlier ≡ false) rights × ArePairwiseApart rights
unfolding validate_rights
validate_rights-apart earlier [] h = (tt, tt)
validate_rights-apart earlier (r ∷ rs) h =
    let (a, h1) = >>-eq-ok (validate_ports r) _ h in
    let (b, h2) = reject-eq-ok (any (rights_overlap r) earlier) _ _ h1 in
    let (c, d) = validate_rights-apart (earlier ++ r ∷ []) rs h2 in
    (
      (b, All-map _ _ (λ s e. (any-append-false (rights_overlap s) earlier r e).0) rs c),
      (
        All-map _ _
            (λ s e. apart_of_no_overlap s r (any-append-false (rights_overlap s) earlier r e).1) rs
            c,
        d,
      ),
    )

module _ ⦃x : External⦄ where
  -- An accepted grant has between 1 and 128 rights no two of which share a port of a protocol, goes
  -- between two different nodes, and is a lease of more than no time and of at most two minutes.
  pub validate-ArePairwiseApart :
      (g : SharePeerGrant)
      → validate g ≡ ok tt
      → ArePairwiseApart g.rights
        × (1 ≤ length g.rights)
        × (length g.rights ≤ 128)
        × (g.source_node_id ≢ g.recipient_node_id)
        × (g.issued_at < g.expires_at)
        × (g.expires_at ≤ g.issued_at + max_share_peer_grant_ttl)
  unfolding validate
  validate-ArePairwiseApart g h =
      let (a, h1) = >>-eq-ok (for_each validate_share_field (identifiers g)) _ h in
      let (b, h2) =
        reject-eq-ok
          (g.source_node_id == g.recipient_node_id || g.source_public_key == g.recipient_public_key)
          _ _ h1 in
      let (_, h3) = >>-eq-ok (Wireguard.validate_public_key g.source_public_key) _ h2 in
      let (_, h4) = >>-eq-ok (Wireguard.validate_public_key g.recipient_public_key) _ h3 in
      let (_, h5) =
        reject-eq-ok (not (g.initiation == share_initiation_recipient_only) || g.revision == 0) _ _
          h4 in
      let (c, h6) = reject-eq-ok (is_bad_lease g) _ _ h5 in
      let (left, _, h7) = >>=-eq-ok (share_host_prefixes g.source_allowed_ips) _ h6 in
      let (right, _, h8) = >>=-eq-ok (share_host_prefixes g.recipient_allowed_ips) _ h7 in
      let (_, h9) = reject-eq-ok (any (λ a. any (overlaps a) right) left) _ _ h8 in
      let (d, h10) = reject-eq-ok (length g.rights == 0 || ltb 128 (length g.rights)) _ _ h9 in
      (
        (validate_rights-apart [] g.rights h10).1,
        ground arith,
        ground arith,
        ground (arith, bytes_beq_iff g.source_node_id g.recipient_node_id),
        ground arith,
        ground arith,
      )

  -- The peer is the grant's remote end.
  pub record IsBoundBy (s : NetworkMapSnapshot) (peer : Peer) (g : SharePeerGrant) : Type 0 where
    pub node : peer.id ≡ (remote_end s g).node
    pub network : peer.network_id ≡ (remote_end s g).network
    pub key : peer.public_key ≡ (remote_end s g).key
    pub ips : share_ips_equal peer.allowed_ips (remote_end s g).ips ≡ true
    pub local_network : (local_end s g).network ≡ s.network.id
    pub local_node : (local_end s g).node ≡ s.node.id
    pub local_key : (local_end s g).key ≡ s.node.public_key

  find_remote-bound :
      (remote : Endpoint) (found : Bool) (peers : List Peer) (peer : Peer) {r : Bool}
      → find_remote remote found peers ≡ ok r
      → Memᴰ peer peers
      → peer.id ≡ remote.node
      → (peer.network_id ≡ remote.network)
        × (peer.public_key ≡ remote.key)
        × (share_ips_equal peer.allowed_ips remote.ips ≡ true)
  unfolding find_remote
  find_remote-bound remote found [] peer h m e = elim m [ ]
  find_remote-bound remote found (p ∷ ps) peer h (Memᴰ.head q) e =
      let (a, _) =
        reject-eq-ok
          (p.id == remote.node
            && (not (p.network_id == remote.network)
                || not (p.public_key == remote.key)
                || not (share_ips_equal p.allowed_ips remote.ips)))
          _ _ h in
      let b : (p.id == remote.node) ≡ true =
        (bytes_beq_iff p.id remote.node).1 (ap (λ r. r.id) (sym q) ∙ e) in
      rw q (
        ground (arith, bytes_beq_iff p.network_id remote.network),
        ground (arith, bytes_beq_iff p.public_key remote.key),
        ground arith,
      )
  find_remote-bound remote found (p ∷ ps) peer h (Memᴰ.tail m) e =
      let (_, k) =
        reject-eq-ok
          (p.id == remote.node
            && (not (p.network_id == remote.network)
                || not (p.public_key == remote.key)
                || not (share_ips_equal p.allowed_ips remote.ips)))
          _ _ h in
      find_remote-bound remote (found || p.id == remote.node) ps peer k m e

  validate_grant-bound :
      (s : NetworkMapSnapshot) (seen : List Bytes) (g : SharePeerGrant) (peer : Peer)
      → validate_grant s seen g ≡ ok tt
      → Memᴰ peer s.peers
      → peer.id ≡ (remote_end s g).node
      → IsBoundBy s peer g
  unfolding validate_grant
  validate_grant-bound s seen g peer h m e =
      let local = local_end s g in
      let remote = remote_end s g in
      let (_, h1) = >>-eq-ok (validate g) _ h in
      let (_, h2) = reject-eq-ok (contains g.grant_id seen) _ _ h1 in
      let (a, h3) =
        reject-eq-ok
          (not (local.network == s.network.id)
            || not (local.node == s.node.id)
            || not (local.key == s.node.public_key)
            || not (share_local_ips_match s.node local.ips))
          _ _ h2 in
      let (found, b, h4) = >>=-eq-ok (find_remote remote false s.peers) _ h3 in
      let (c, d, f) = find_remote-bound remote false s.peers peer b m e in
      record {
        node = e;
        network = c;
        key = d;
        ips = f;
        local_network = ground (arith, bytes_beq_iff local.network s.network.id);
        local_node = ground (arith, bytes_beq_iff local.node s.node.id);
        local_key = ground (arith, bytes_beq_iff local.key s.node.public_key);
      }

  grant_valid :
      (s : NetworkMapSnapshot) (seen : List Bytes) (g : SharePeerGrant)
      → validate_grant s seen g ≡ ok tt
      → validate g ≡ ok tt
  unfolding validate_grant
  grant_valid s seen g h = (>>-eq-ok (validate g) _ h).0

  validate_grants-bound :
      (s : NetworkMapSnapshot) (seen bound : List Bytes) (grants : List SharePeerGrant)
      (peer : Peer) {r : List Bytes}
      → validate_grants s seen bound grants ≡ ok r
      → Memᴰ peer s.peers
      → contains peer.id r ≡ true
      → contains peer.id bound ≡ false
      → (g : SharePeerGrant) × Memᴰ g grants × (validate g ≡ ok tt) × IsBoundBy s peer g
  unfolding validate_grants contains
  validate_grants-bound s seen bound [] peer h m k n = ground arith
  validate_grants-bound s seen bound (g ∷ grants) peer {r} h m k n =
      let (a, h1) = >>-eq-ok (validate_grant s seen g) _ h in
      elim (Bool-cases (peer.id == (remote_end s g).node)) [
        | inl e ↦ (
          g,
          Memᴰ.head refl,
          grant_valid s seen g a,
          validate_grant-bound s seen g peer a m (eq_of_beq peer.id (remote_end s g).node e),
        )
        | inr e ↦
            let (f, i, v, b) =
              validate_grants-bound s (g.grant_id ∷ seen) ((remote_end s g).node ∷ bound) grants
                peer h1 m k (ground arith) in
            (f, Memᴰ.tail i, v, b)
      ]

  -- In an accepted map every peer of another network is the remote end of one of the map's valid
  -- grants, with that end's network, key and addresses, and the grant's local end is this node.
  pub validate_share_peer_grants-IsBoundBy :
      (s : NetworkMapSnapshot) (peer : Peer)
      → validate_share_peer_grants s ≡ ok tt
      → Memᴰ peer s.peers
      → peer.network_id ≢ []
      → peer.network_id ≢ s.network.id
      → (g : SharePeerGrant) × Memᴰ g s.network.share_peer_grants
        × (validate g ≡ ok tt)
        × IsBoundBy s peer g
  unfolding validate_share_peer_grants contains
  validate_share_peer_grants-IsBoundBy s peer h m n k =
      let (bound, a, h1) = >>=-eq-ok (validate_grants s [] [] s.network.share_peer_grants) _ h in
      let b = reject-ok (any (is_unbound s bound) s.peers) _ h1 in
      let c = none-Memᴰ (is_unbound s bound) s.peers peer b m in
      validate_grants-bound s [] [] s.network.share_peer_grants peer a m
        (ground
          (arith, bytes_beq_iff peer.network_id [], bytes_beq_iff peer.network_id s.network.id))
        refl

  -- In a map that is accepted at a time every grant's lease has begun and has not ended.
  pub validate_share_peer_grants_at-leased :
      (s : NetworkMapSnapshot) (now : Time) (g : SharePeerGrant)
      → validate_share_peer_grants_at s now ≡ ok tt
      → Memᴰ g s.network.share_peer_grants
      → (g.issued_at ≤ now) × (now < g.expires_at)
  unfolding validate_share_peer_grants_at
  validate_share_peer_grants_at-leased s now g h m =
      let (_, h1) = >>-eq-ok (validate_share_peer_grants s) _ h in
      let a = reject-ok (any (is_outside_lease now) s.network.share_peer_grants) _ h1 in
      let b = none-Memᴰ (is_outside_lease now) s.network.share_peer_grants g a m in
      (ground arith, ground arith)
