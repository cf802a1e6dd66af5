-- ===== src/Application/Laws.antt =====
-- What an accepted application route reaches, and who serves it.
use mathlib.Core.List.{Memᴰ}
use client_api.Prelude.{
  Bytes, bytes_eq, bytes_beq_iff, ◌≡◌, ap, eq_of_beq, true, false, not, ◌||◌, ◌&&◌, Option, none,
  some, List, [], ◌∷◌, ◌==◌, nat_eq, ltb, length, any, contains, All-Memᴰ, any-Memᴰ, none-Memᴰ, ok,
  >>=-eq-ok, >>-eq-ok, reject-eq-ok, for_each-eq-ok, arith, Bool-cases, inl, inr,
}
use client_api.Go.Hex
use client_api.Go.Netip.{Addr, Prefix, masked, overlaps, prefix_contains}
use client_api.Go.Netip.Covers.{overlaps_of_common}
use client_api.Types.Time.{is_zero}
use client_api.Types.Network.{ServiceHost, Application, ApplicationRoute}
use client_api.Types.Map.{NetworkMapSnapshot}
use client_api.External.{External}
use client_api.Application.{
  ApplicationTarget, forbidden_blocks, application_prefix_allowed, is_canonical_prefix,
  parse_application_target, identity_of, identities, host_beq, validate_bindings, overlaps_text,
  exceeds_target, route_prefix, is_digest, validate_route_cidrs, validate_routes,
  validate_application_binding, validate_application_bindings,
}
use client_api.Errors.{Error, app_node_binding}
use client_api.Application.Identities.{IsNode, identity_of-Memᴰ, identities-IsNode}

bindings_checked :
    (e : Error) (known : List (Bytes × Bytes)) (seen : List Bytes) (bindings : List ServiceHost)
    (b : ServiceHost)
    → validate_bindings e known seen bindings ≡ ok tt
    → Memᴰ b bindings
    → (identity_of known b.node_id ≡ b.public_key) × ((b.public_key == []) ≡ false)
unfolding validate_bindings
bindings_checked e known seen [] b h m = elim m [ ]
bindings_checked e known seen (c ∷ cs) b h m =
    let (p, k) =
      reject-eq-ok
        (c.node_id == []
          || c.public_key == []
          || not (identity_of known c.node_id == c.public_key)
          || contains c.node_id seen)
        _ _ h in
    elim m [
      | Memᴰ.head q ↦
          rw q
            (ground (arith, bytes_beq_iff (identity_of known c.node_id) c.public_key), ground arith)
      | Memᴰ.tail n ↦ bindings_checked e known (c.node_id ∷ seen) cs b k n
    ]

allowed_outside :
    (p block : Prefix) (a : Addr)
    → application_prefix_allowed p ≡ true
    → Memᴰ block forbidden_blocks
    → prefix_contains p a ≡ true
    → prefix_contains block a ≡ false
unfolding application_prefix_allowed
allowed_outside p block a h m k = ground (
  arith,
  none-Memᴰ (overlaps p) forbidden_blocks block (ground arith) m,
  overlaps_of_common p block a k,
)

module _ ⦃x : External⦄ where
  -- No address of the prefix is in the network that the text names.
  abbrev pub IsOutside : Prefix → Bytes → Type 0
  IsOutside p text =
      (net : Prefix) (a : Addr)
      → x.parse_prefix text ≡ some net
      → prefix_contains p a ≡ true
      → prefix_contains net a ≡ false

  overlaps_text-IsOutside :
      (p : Prefix) (text : Bytes) → overlaps_text p text ≡ false → IsOutside p text
  overlaps_text-IsOutside p text h net a e k = ground (arith, overlaps_of_common p net a k)

  -- What an accepted destination of a route is.
  pub record IsDestination (s : NetworkMapSnapshot) (text : Bytes) : Type 0 where
    pub prefix : Prefix
    pub parsed : x.parse_prefix text ≡ some prefix
    pub canonical : x.prefix_string (masked prefix) ≡ text
    pub allowed :
        (block : Prefix) (a : Addr)
        → Memᴰ block forbidden_blocks
        → prefix_contains prefix a ≡ true
        → prefix_contains block a ≡ false
    pub outside_cidr : IsOutside prefix s.network.cidr
    pub outside_ipv6_cidr : IsOutside prefix s.network.ipv6_cidr

  route_prefix-parsed :
      (seen : List Bytes) (text : Bytes) (o : Option Prefix) {p : Prefix}
      → route_prefix seen text o ≡ ok p
      → (o ≡ some p) × (is_canonical_prefix text p ≡ true)
  route_prefix-parsed seen text none h = cc
  route_prefix-parsed seen text (some q) {p} h =
      elim (Bool-cases (is_canonical_prefix text q && not (contains text seen))) [
        | inl e ↦ let r : q ≡ p = ground arith in (ap some r, rw (← r) (ground arith))
        | inr e ↦ ground arith
      ]

  validate_route_cidrs-IsDestination :
      (s : NetworkMapSnapshot) (target : ApplicationTarget) (seen texts : List Bytes) (text : Bytes)
      → validate_route_cidrs s target seen texts ≡ ok tt
      → Memᴰ text texts
      → IsDestination s text
  unfolding validate_route_cidrs
  validate_route_cidrs-IsDestination s target seen [] text h m = elim m [ ]
  validate_route_cidrs-IsDestination s target seen (t ∷ ts) text h m =
      let (p, a, h1) = >>=-eq-ok (route_prefix seen t (x.parse_prefix t)) _ h in
      let (b, h2) =
        reject-eq-ok (overlaps_text p s.network.cidr || overlaps_text p s.network.ipv6_cidr) _ _
          h1 in
      let (_, h3) = reject-eq-ok (exceeds_target target p) _ _ h2 in
      let (q, c) = route_prefix-parsed seen t (x.parse_prefix t) a in
      elim m [
        | Memᴰ.head e ↦ rw e (record {
          prefix = p;
          parsed = q;
          canonical = ground (arith, bytes_beq_iff (x.prefix_string (masked p)) t);
          allowed = λ block addr. allowed_outside p block addr (ground arith);
          outside_cidr = overlaps_text-IsOutside p s.network.cidr (ground arith);
          outside_ipv6_cidr = overlaps_text-IsOutside p s.network.ipv6_cidr (ground arith);
        })
        | Memᴰ.tail n ↦ validate_route_cidrs-IsDestination s target (t ∷ seen) ts text h3 n
      ]

  routes_checked :
      (s : NetworkMapSnapshot) (connectors : List ServiceHost) (target : ApplicationTarget)
      (seen : List Bytes) (routes : List ApplicationRoute) (route : ApplicationRoute)
      → validate_routes s connectors target seen routes ≡ ok tt
      → Memᴰ route routes
      → (any (host_beq route.connector) connectors ≡ true)
        × (validate_route_cidrs s target [] route.cidrs ≡ ok tt)
  unfolding validate_routes
  routes_checked s connectors target seen [] route h m = elim m [ ]
  routes_checked s connectors target seen (r ∷ rs) route h m =
      let (a, h1) =
        reject-eq-ok
          (not (any (host_beq r.connector) connectors)
            || contains r.connector.node_id seen
            || is_zero r.expires_at
            || length r.cidrs == 0
            || ltb 64 (length r.cidrs))
          _ _ h in
      let (b, h2) = >>-eq-ok (validate_route_cidrs s target [] r.cidrs) _ h1 in
      elim m [
        | Memᴰ.head e ↦ rw e (ground arith, b)
        | Memᴰ.tail n ↦
            routes_checked s connectors target (r.connector.node_id ∷ seen) rs route h2 n
      ]

  connector_known :
      (s : NetworkMapSnapshot) (connectors : List ServiceHost) (c : ServiceHost)
      → validate_bindings app_node_binding (identities s) [] connectors ≡ ok tt
      → any (host_beq c) connectors ≡ true
      → IsNode s c.node_id c.public_key
  connector_known s connectors c h k =
      let (d, m, e) = any-Memᴰ (host_beq c) connectors k in
      let (i, n) = bindings_checked app_node_binding (identities s) [] connectors d h m in
      let p = eq_of_beq c.node_id d.node_id (ground arith) in
      let q = eq_of_beq c.public_key d.public_key (ground arith) in
      let listed = identity_of-Memᴰ (identities s) d.node_id (rw i n) in
      rw (p, q) (identities-IsNode s d.node_id d.public_key (rw i at listed))

  -- In an accepted map every destination of an application's route is a canonical prefix without an
  -- address of a forbidden block or of the overlay's own networks, and the route's connector is the
  -- map's own node or one of its peers, with the key that the map has for it.
  pub validate_application_bindings-IsDestination :
      (s : NetworkMapSnapshot) (app : Application) (route : ApplicationRoute) (text : Bytes)
      → validate_application_bindings s ≡ ok tt
      → Memᴰ app s.network.applications
      → Memᴰ route app.routes
      → Memᴰ text route.cidrs
      → IsDestination s text × IsNode s route.connector.node_id route.connector.public_key
  unfolding validate_application_bindings validate_application_binding
  validate_application_bindings-IsDestination s app route text h m n k =
      let a =
        All-Memᴰ _ s.network.applications app
          (for_each-eq-ok (validate_application_binding s) s.network.applications h) m in
      let (_, h1) = reject-eq-ok (not (is_digest (Hex.decode app.policy_hash))) _ _ a in
      let (_, h2) =
        >>-eq-ok (validate_bindings app_node_binding (identities s) [] app.sources) _ h1 in
      let (b, h3) =
        >>-eq-ok (validate_bindings app_node_binding (identities s) [] app.connectors) _ h2 in
      let (target, _, h4) = >>=-eq-ok (parse_application_target app.target_type app.target) _ h3 in
      let (c, d) = routes_checked s app.connectors target [] app.routes route h4 n in
      (
        validate_route_cidrs-IsDestination s target [] route.cidrs text d k,
        connector_known s app.connectors route.connector b c,
      )
