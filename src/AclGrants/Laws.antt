-- ===== src/AclGrants/Laws.antt =====
-- What an accepted grant reaches.
use mathlib.Core.List.{Memᴰ}
use mathlib.Core.Path.{subst}
use client_api.Prelude.{
  Bytes, bytes, bytes_eq, ℕ, ◌≡◌, refl, sym, ap, ◌∙◌, ◌≤◌, true, false, not, ◌||◌, some, List, [],
  ◌∷◌, ◌==◌, nat_eq, int_eq, int_beq_iff, ltb, length, ℤ, pos, All, All-map, All-Memᴰ, any-Memᴰ, ok,
  >>=-eq-ok, >>-eq-ok, reject-eq-ok, for_each, for_each-eq-ok, arith, ◌⊎◌, inl, inr, Option-cases,
  Bool-cases, eq_of_beq, negsuc, ltb_ℤ,
}
use client_api.Go.Netip.{Addr, Prefix, masked, prefix_contains}
use client_api.Go.Netip.Covers.{prefix_contains_trans, prefix_contains-masked}
use client_api.Types.Node.{Peer, AclPort, AclGrant}
use client_api.External.{External}
use client_api.AclGrants.{
  is_known_protocol, validate_port, covers, parse_routes, canonical_destination,
  validate_destination, validate_grant, validate_acl_grants,
}
use client_api.Errors.{acl_protocol}

-- A port number that fits its protocol.
pub data IsPort (port : AclPort) : Type 0 where
  icmp : port.protocol ≡ bytes "icmp" → port.port ≡ pos 0 → IsPort port
  transport :
      (n : ℕ)
      → (port.protocol ≡ bytes "tcp") ⊎ (port.protocol ≡ bytes "udp")
      → port.port ≡ pos n
      → 1 ≤ n
      → n ≤ 65535
      → IsPort port

length-Memᴰ : {A : Type 0} {a : A} (xs : List A) → Memᴰ a xs → (length xs == 0) ≡ false
length-Memᴰ [] m = elim m [ ]
length-Memᴰ (x ∷ xs) m = ground arith

mem_cons : {A : Type 0} {r a : A} {xs : List A} → Memᴰ r (a ∷ xs) → (r ≡ a) ⊎ Memᴰ r xs
mem_cons (Memᴰ.head e) = inl e
mem_cons (Memᴰ.tail m) = inr m

in_range :
    (z : ℤ)
    → (ltb_ℤ z (pos 1) || ltb_ℤ (pos 65535) z) ≡ false
    → (n : ℕ) × (z ≡ pos n) × (1 ≤ n) × (n ≤ 65535)
in_range (pos n) h = (n, refl, ground arith, ground arith)
in_range (negsuc n) h = ground arith

named_transport :
    (p : Bytes)
    → is_known_protocol p ≡ true
    → (p == bytes "icmp") ≡ false
    → (p ≡ bytes "tcp") ⊎ (p ≡ bytes "udp")
named_transport p h k = elim (Bool-cases (p == bytes "tcp")) [
  | inl e ↦ inl (eq_of_beq p (bytes "tcp") e)
  | inr e ↦ inr (eq_of_beq p (bytes "udp") (ground arith))
]

validate_port-IsPort : (port : AclPort) → validate_port port ≡ ok tt → IsPort port
unfolding validate_port
validate_port-IsPort port h =
    let (a, h1) = reject-eq-ok (not (is_known_protocol port.protocol)) acl_protocol _ h in
    elim (Bool-cases (port.protocol == bytes "icmp")) [
      | inl e ↦
          icmp (eq_of_beq port.protocol (bytes "icmp") e)
            (ground (arith, int_beq_iff port.port (pos 0)))
      | inr e ↦
          let (n, p, q, r) = in_range port.port (ground arith) in
          transport n (named_transport port.protocol (ground arith) e) p q r
    ]

module _ ⦃x : External⦄ where
  parse_routes-cons :
      (value : Bytes) (values : List Bytes) {routes : List Prefix}
      → parse_routes (value ∷ values) ≡ ok routes
      → (route : Prefix) × (rest : List Prefix) × (x.parse_prefix value ≡ some route)
        × (parse_routes values ≡ ok rest)
        × (routes ≡ masked route ∷ rest)
  unfolding parse_routes
  parse_routes-cons value values h = elim (Option-cases (x.parse_prefix value)) [
    | inl n ↦ cc
    | inr (route, n) ↦
        let (rest, k, l) = >>=-eq-ok (parse_routes values) _ (rw (n, parse_routes) at h) in
        (route, rest, n, k, cc l)
  ]

  parse_routes-nil : {routes : List Prefix} → parse_routes [] ≡ ok routes → routes ≡ []
  unfolding parse_routes
  parse_routes-nil h = cc

  -- The value and the route in it that a masked route comes from.
  abbrev IsFrom : List Bytes → Prefix → Type 0
  IsFrom values r =
      (value : Bytes) × (route : Prefix) × Memᴰ value values
      × (x.parse_prefix value ≡ some route)
      × (r ≡ masked route)

  parse_routes-Memᴰ :
      (values : List Bytes) (routes : List Prefix) (r : Prefix)
      → parse_routes values ≡ ok routes
      → Memᴰ r routes
      → IsFrom values r
  parse_routes-Memᴰ [] routes r h m = elim (subst (Memᴰ r) (parse_routes-nil h) m) [ ]
  parse_routes-Memᴰ (value ∷ values) routes r h m =
      let (route, rest, n, k, e) = parse_routes-cons value values h in
      elim (mem_cons (subst (Memᴰ r) e m)) [
        | inl p ↦ (value, route, Memᴰ.head refl, n, p)
        | inr q ↦
            let (v, s, a, b, c) = parse_routes-Memᴰ values rest r k q in (v, s, Memᴰ.tail a, b, c)
      ]

  destination-covered :
      (routes : List Prefix) (cidr : Bytes) (prefix : Prefix)
      → validate_destination routes cidr ≡ ok tt
      → x.parse_prefix cidr ≡ some prefix
      → (r : Prefix) × Memᴰ r routes × (covers prefix r ≡ true)
  unfolding validate_destination
  destination-covered routes cidr prefix h p =
      let (q, a, b) = >>=-eq-ok (canonical_destination (x.parse_prefix cidr)) _ h in
      let e : q ≡ prefix = ground arith in any-Memᴰ (covers prefix) routes (rw (← e) (ground arith))

  -- What an accepted peer with grants is.
  grants_checked :
      (peer : Peer) (grant : AclGrant)
      → validate_acl_grants peer ≡ ok tt
      → Memᴰ grant peer.acl_grants
      → (peer.acl_restricted ≡ true)
        × (length peer.allowed_ports ≡ 0)
        × ((routes : List Prefix) × (parse_routes peer.allowed_ips ≡ ok routes)
            × (validate_grant routes grant ≡ ok tt))
  unfolding validate_acl_grants
  grants_checked peer grant h m = elim (Bool-cases (length peer.acl_grants == 0)) [
    | inl e ↦ ground (arith, length-Memᴰ peer.acl_grants m)
    | inr e ↦
        let h0 = rw e at h in
        let (a, h1) =
          reject-eq-ok (not peer.acl_restricted || not (length peer.allowed_ports == 0)) _ _ h0 in
        let (b, h2) = reject-eq-ok (ltb 1000 (length peer.acl_grants)) _ _ h1 in
        let (routes, c, h3) = >>=-eq-ok (parse_routes peer.allowed_ips) _ h2 in
        (
          ground arith,
          ground arith,
          (
            routes,
            c,
            All-Memᴰ _ peer.acl_grants grant
                (for_each-eq-ok (validate_grant routes) peer.acl_grants h3) m,
          ),
        )
  ]

  grant_checked :
      (routes : List Prefix) (grant : AclGrant)
      → validate_grant routes grant ≡ ok tt
      → All (λ cidr. validate_destination routes cidr ≡ ok tt) grant.destination_cidrs
        × All (λ port. validate_port port ≡ ok tt) grant.allowed_ports
  unfolding validate_grant
  grant_checked routes grant h =
      let (a, h1) =
        reject-eq-ok
          (length grant.destination_cidrs == 0 || ltb 1000 (length grant.destination_cidrs)) _ _
          h in
      let (b, h2) = reject-eq-ok (ltb 65535 (length grant.allowed_ports)) _ _ h1 in
      let (c, d) = >>-eq-ok (for_each (validate_destination routes) grant.destination_cidrs) _ h2 in
      (
        for_each-eq-ok (validate_destination routes) grant.destination_cidrs c,
        for_each-eq-ok validate_port grant.allowed_ports d,
      )

  -- An accepted peer's grant reaches only addresses that one of the peer's allowed IPs contains.
  pub validate_acl_grants-prefix_contains :
      (peer : Peer) (grant : AclGrant) (cidr : Bytes) (prefix : Prefix) (a : Addr)
      → validate_acl_grants peer ≡ ok tt
      → Memᴰ grant peer.acl_grants
      → Memᴰ cidr grant.destination_cidrs
      → x.parse_prefix cidr ≡ some prefix
      → prefix_contains prefix a ≡ true
      → (value : Bytes) × (route : Prefix) × Memᴰ value peer.allowed_ips
        × (x.parse_prefix value ≡ some route)
        × (prefix_contains route a ≡ true)
  unfolding covers
  validate_acl_grants-prefix_contains peer grant cidr prefix a h m n p k =
      let (_, _, (routes, e, f)) = grants_checked peer grant h m in
      let d = All-Memᴰ _ grant.destination_cidrs cidr (grant_checked routes grant f).0 n in
      let (r, i, c) = destination-covered routes cidr prefix d p in
      let (value, route, j, q, l) = parse_routes-Memᴰ peer.allowed_ips routes r e i in
      (
        value,
        route,
        j,
        q,
        sym (prefix_contains-masked route a)
            ∙ ap (λ s. prefix_contains s a) (sym l)
            ∙ prefix_contains_trans r prefix a (ground arith) (ground arith) k,
      )

  -- A peer that is accepted with grants is restricted, has no ports outside of its grants, and every
  -- port of a grant fits its protocol: 0 for ICMP, and 1 to 65535 for TCP and UDP.
  pub validate_acl_grants-IsPort :
      (peer : Peer) (grant : AclGrant)
      → validate_acl_grants peer ≡ ok tt
      → Memᴰ grant peer.acl_grants
      → (peer.acl_restricted ≡ true)
        × (length peer.allowed_ports ≡ 0)
        × All IsPort grant.allowed_ports
  validate_acl_grants-IsPort peer grant h m =
      let (a, b, (routes, e, f)) = grants_checked peer grant h m in
      (
        a,
        b,
        All-map _ IsPort validate_port-IsPort grant.allowed_ports (grant_checked routes grant f).1,
      )
