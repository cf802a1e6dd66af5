-- ===== src/MapSign/Laws.antt =====
-- What an accepted map signature is, and that a signed map is accepted while its signature lasts.
use client_api.Prelude.{
  Bytes, bytes_eq, bytes_beq, bytes_beq_iff, ℕ, ◌≤◌, ◌<◌, ◌+◌, ◌≡◌, refl, ◌↔◌, true, false, not,
  ◌||◌, Option, none, some, [], ◌∷◌, ◌==◌, nat_eq, int_eq, int_beq_iff, length, All, ok, >>=-eq-ok,
  >>-eq-ok, reject-eq-ok, arith, beq_refl,
}
use client_api.Go.Strings.{trim_space}
use client_api.Go.AsciiLaws.{trim_space_graphic}
use client_api.Go.Base64
use client_api.Go.Base64.{raw_url_encoding}
use client_api.Go.Base64.Laws.{IsByte, encode-IsGraphic, raw_url-decode-encode}
use client_api.Go.Hex
use client_api.Types.Time.{Time, is_zero, after, truncate_second}
use client_api.Types.Map.{NetworkMapSnapshot, MapSignature}
use client_api.External.{External}
use client_api.Trust.{signing_key_id, public_key_size}
use client_api.Trust.Bundle.{signing_key_id-IsGraphic}
use client_api.Sharing.{validate_share_peer_grants_at}
use client_api.Errors.{
  Error, signature_missing, provider_failed, verify_public_key, signature_encoding,
  payload_key_id_missing, marshal_failed,
}
use client_api.MapSign.{
  map_signature_version, map_signature_algorithm, max_network_map_signature_clock_skew,
  signature_size, signing_payload, required, sized, canonical_network_map_payload,
  sign_network_map_snapshot_with_provider, check_times, check_key, verify_signature,
  verify_network_map_snapshot_signature_at,
}

pub required-eq-ok :
    {A : Type 0} (e : Error) (o : Option A) {a : A} → required e o ≡ ok a → o ≡ some a
required-eq-ok e none h = cc
required-eq-ok e (some b) h = cc

pub sized-eq-ok :
    (e : Error) (n : ℕ) (o : Option Bytes) {raw : Bytes}
    → sized e n o ≡ ok raw
    → (o ≡ some raw) × (length raw ≡ n)
sized-eq-ok e n none h = cc
sized-eq-ok e n (some b) {raw} h = ground arith

-- The signature's times at `now`.
pub record IsCurrent (g : MapSignature) (now : Time) : Type 0 where
  pub issued : is_zero g.issued_at ≡ false
  pub expires : is_zero g.expires_at ≡ false
  pub in_order : g.issued_at < g.expires_at
  pub begun : g.issued_at ≤ now + max_network_map_signature_clock_skew
  pub unexpired : now < g.expires_at

check_times-IsCurrent :
    (g : MapSignature) (now : Time) → check_times g now ≡ ok tt → IsCurrent g now
unfolding check_times
check_times-IsCurrent g now h =
    let (a, h1) = reject-eq-ok (is_zero g.issued_at) _ _ h in
    let (b, h2) = reject-eq-ok (is_zero g.expires_at) _ _ h1 in
    let (c, h3) = reject-eq-ok (not (after g.expires_at g.issued_at)) _ _ h2 in
    let (d, h4) =
      reject-eq-ok (after g.issued_at (now + max_network_map_signature_clock_skew)) _ _ h3 in
    record {
      issued = a;
      expires = b;
      in_order = ground arith;
      begun = ground arith;
      unexpired = ground arith;
    }

IsCurrent-check_times :
    (g : MapSignature) (now : Time) → IsCurrent g now → check_times g now ≡ ok tt
unfolding check_times
IsCurrent-check_times g now c =
    ground (arith, c.issued, c.expires, c.in_order, c.begun, c.unexpired)

module _ ⦃x : External⦄ where
  -- The map carries a signature of its payload by the key, current at `now`.
  pub record IsSigned (s : NetworkMapSnapshot) (public_key : Bytes) (now : Time) : Type 0 where
    pub g : MapSignature
    pub key : Bytes
    pub signature : Bytes
    pub payload : Bytes
    pub present : s.map_signature ≡ some g
    pub versioned : g.version ≡ map_signature_version
    pub algorithm_known : g.algorithm ≡ map_signature_algorithm
    pub key_derived : signing_key_id (trim_space public_key) ≡ ok g.key_id
    pub key_decoded : Base64.decode raw_url_encoding (trim_space public_key) ≡ some key
    pub key_sized : length key ≡ public_key_size
    pub signature_decoded : Base64.decode raw_url_encoding g.signature ≡ some signature
    pub signature_sized : length signature ≡ signature_size
    pub current : IsCurrent g now
    pub marshalled :
        x.marshal_map_payload (signing_payload s g.key_id g.issued_at g.expires_at) ≡ some payload
    pub hashed : g.payload_hash ≡ Hex.encode (x.sha256 payload)
    pub verified : x.ed25519_verify key payload signature ≡ true

  canonical-eq-ok :
      (s : NetworkMapSnapshot) (id : Bytes) (t u : Time) {payload : Bytes}
      → canonical_network_map_payload s id t u ≡ ok payload
      → x.marshal_map_payload (signing_payload s id t u) ≡ some payload
  unfolding canonical_network_map_payload
  canonical-eq-ok s id t u h =
      required-eq-ok marshal_failed _
        (reject-eq-ok (trim_space id == []) payload_key_id_missing _ h).1

  check_key-eq-ok :
      (g : MapSignature) (k : Bytes) {p : Bytes × Bytes}
      → check_key g k ≡ ok p
      → (signing_key_id k ≡ ok g.key_id)
        × ((Base64.decode raw_url_encoding k ≡ some p.0) × (length p.0 ≡ public_key_size))
        × ((Base64.decode raw_url_encoding g.signature ≡ some p.1) × (length p.1 ≡ signature_size))
  unfolding check_key
  check_key-eq-ok g k {p} h =
      let (a, h1) = reject-eq-ok (k == []) _ _ h in
      let (id, b, h2) = >>=-eq-ok (signing_key_id k) _ h1 in
      let (c, h3) = reject-eq-ok (trim_space g.key_id == [] || not (g.key_id == id)) _ _ h2 in
      let (key, d, h4) =
        >>=-eq-ok (sized verify_public_key public_key_size (Base64.decode raw_url_encoding k)) _
          h3 in
      let (signature, e, h5) =
        >>=-eq-ok
          (sized signature_encoding signature_size (Base64.decode raw_url_encoding g.signature)) _
          h4 in
      let q : (key, signature) ≡ p = cc h5 in
      (
        ground (arith, bytes_beq_iff g.key_id id),
        rw (← q) (sized-eq-ok verify_public_key public_key_size _ d),
        rw (← q) (sized-eq-ok signature_encoding signature_size _ e),
      )

  -- No key ID derives from an empty key.
  pub key_nonempty : (k id : Bytes) → signing_key_id k ≡ ok id → (k == []) ≡ false
  unfolding signing_key_id trim_space Base64.decode bytes_beq
  key_nonempty [] id h = cc
  key_nonempty (b ∷ k) id h = refl

  accepted-IsSigned :
      (s : NetworkMapSnapshot) (public_key : Bytes) (now : Time)
      → verify_network_map_snapshot_signature_at s public_key now ≡ ok tt
      → IsSigned s public_key now × (validate_share_peer_grants_at s now ≡ ok tt)
  unfolding verify_network_map_snapshot_signature_at verify_signature
  accepted-IsSigned s public_key now h =
      let (g, a, h1) = >>=-eq-ok (required signature_missing s.map_signature) _ h in
      let (b, h2) = reject-eq-ok (not (g.version == map_signature_version)) _ _ h1 in
      let (c, h3) = reject-eq-ok (not (g.algorithm == map_signature_algorithm)) _ _ h2 in
      let (p, d, h4) = >>=-eq-ok (check_key g (trim_space public_key)) _ h3 in
      let (e, h5) = >>-eq-ok (check_times g now) _ h4 in
      let (payload, f, h6) =
        >>=-eq-ok (canonical_network_map_payload s g.key_id g.issued_at g.expires_at) _ h5 in
      let (i, h7) = reject-eq-ok (not (g.payload_hash == Hex.encode (x.sha256 payload))) _ _ h6 in
      let (j, h8) = reject-eq-ok (not (x.ed25519_verify p.0 payload p.1)) _ _ h7 in
      let (k, l, m) = check_key-eq-ok g (trim_space public_key) d in
      (
        record {
          g = g;
          key = p.0;
          signature = p.1;
          payload = payload;
          present = required-eq-ok signature_missing s.map_signature a;
          versioned = ground (arith, int_beq_iff g.version map_signature_version);
          algorithm_known = ground (arith, bytes_beq_iff g.algorithm map_signature_algorithm);
          key_derived = k;
          key_decoded = l.0;
          key_sized = l.1;
          signature_decoded = m.0;
          signature_sized = m.1;
          current = check_times-IsCurrent g now e;
          marshalled = canonical-eq-ok s g.key_id g.issued_at g.expires_at f;
          hashed = ground (arith, bytes_beq_iff g.payload_hash (Hex.encode (x.sha256 payload)));
          verified = ground arith;
        },
        h8,
      )

  IsSigned-accepted :
      (s : NetworkMapSnapshot) (public_key : Bytes) (now : Time)
      → IsSigned s public_key now
      → validate_share_peer_grants_at s now ≡ ok tt
      → verify_network_map_snapshot_signature_at s public_key now ≡ ok tt
  unfolding verify_network_map_snapshot_signature_at verify_signature check_key
      canonical_network_map_payload
  IsSigned-accepted s public_key now i h =
      let (named, full, _) =
        signing_key_id-IsGraphic (trim_space public_key) i.g.key_id i.key_derived in
      let trimmed = trim_space_graphic i.g.key_id named in
      simp (
        i.present,
        i.versioned,
        i.algorithm_known,
        i.key_derived,
        trimmed,
        full,
        beq_refl i.g.key_id,
        i.key_decoded,
        i.key_sized,
        i.signature_decoded,
        i.signature_sized,
        IsCurrent-check_times i.g now i.current,
        i.marshalled,
        i.hashed,
        i.verified,
        h,
        key_nonempty (trim_space public_key) i.g.key_id i.key_derived,
        beq_refl map_signature_algorithm,
        beq_refl (Hex.encode (x.sha256 i.payload)),
      )

  -- Verification accepts exactly the maps that carry a signature of version 5 over the map's
  -- payload, made by the given key, named by that key's ID, current at the given time, with the
  -- payload's hash beside it, and whose sharing grants are valid at that time.
  pub verify_network_map_snapshot_signature_at_iff :
      (s : NetworkMapSnapshot) (public_key : Bytes) (now : Time)
      → (verify_network_map_snapshot_signature_at s public_key now ≡ ok tt)
        ↔ (IsSigned s public_key now × (validate_share_peer_grants_at s now ≡ ok tt))
  verify_network_map_snapshot_signature_at_iff s public_key now =
      (accepted-IsSigned s public_key now, λ (i, h). IsSigned-accepted s public_key now i h)

  pub encoded_trimmed :
      (raw : Bytes)
      → trim_space (Base64.encode raw_url_encoding raw) ≡ Base64.encode raw_url_encoding raw
  encoded_trimmed raw =
      trim_space_graphic (Base64.encode raw_url_encoding raw) (encode-IsGraphic raw)

  made-IsSigned :
      (public_key : Bytes) (s : NetworkMapSnapshot) (at now : Time) (ttl : ℕ)
      (sign : Bytes → Option Bytes) (g : MapSignature)
      → All IsByte public_key
      → ((m signature : Bytes)
          → sign m ≡ some signature
          → (x.ed25519_verify public_key m signature ≡ true) × All IsByte signature)
      → sign_network_map_snapshot_with_provider public_key s at ttl (some sign) ≡ ok g
      → is_zero (truncate_second at) ≡ false
      → truncate_second at ≤ now + max_network_map_signature_clock_skew
      → now < truncate_second at + ttl
      → IsSigned
          (record s { map_signature = some g })
          (Base64.encode raw_url_encoding public_key)
          now
  unfolding sign_network_map_snapshot_with_provider signing_payload
  made-IsSigned public_key s at now ttl sign g bytes genuine h start begun unexpired =
      let encoded = Base64.encode raw_url_encoding public_key in
      let (a, h1) = reject-eq-ok (not (length public_key == public_key_size)) _ _ h in
      let (b, h2) = reject-eq-ok (ttl == 0) _ _ h1 in
      let (id, c, h3) = >>=-eq-ok (signing_key_id encoded) _ h2 in
      let (payload, d, h4) =
        >>=-eq-ok
          (canonical_network_map_payload s id (truncate_second at) (truncate_second at + ttl)) _
          h3 in
      let (signature, e, h5) = >>=-eq-ok (required provider_failed (sign payload)) _ h4 in
      let (f, h6) = reject-eq-ok (not (length signature == signature_size)) _ _ h5 in
      let (true_signature, octets) =
        genuine payload signature (required-eq-ok provider_failed _ e) in
      let p : record {
        version = map_signature_version;
        key_id = id;
        algorithm = map_signature_algorithm;
        issued_at = truncate_second at;
        expires_at = truncate_second at + ttl;
        payload_hash = Hex.encode (x.sha256 payload);
        signature = Base64.encode raw_url_encoding signature;
      }
          ≡ g =
        cc h6 in
      rw (← p) (record {
        g = _;
        key = public_key;
        signature = signature;
        payload = payload;
        present = refl;
        versioned = refl;
        algorithm_known = refl;
        key_derived = rw (encoded_trimmed public_key) c;
        key_decoded = rw (encoded_trimmed public_key) (raw_url-decode-encode public_key bytes);
        key_sized = ground arith;
        signature_decoded = raw_url-decode-encode signature octets;
        signature_sized = ground arith;
        current = record {
          issued = start;
          expires = ground arith;
          in_order = ground arith;
          begun = begun;
          unexpired = unexpired;
        };
        marshalled = canonical-eq-ok s id (truncate_second at) (truncate_second at + ttl) d;
        hashed = refl;
        verified = true_signature;
      })

  -- A map with the signature that the signer made for it is accepted from at most the clock skew
  -- before the signature's start until its end, if the provider's signatures verify under the
  -- signer's key and the sharing grants are valid at that time.
  pub sign-verify_network_map_snapshot :
      (public_key : Bytes) (s : NetworkMapSnapshot) (at now : Time) (ttl : ℕ)
      (sign : Bytes → Option Bytes) (g : MapSignature)
      → All IsByte public_key
      → ((m signature : Bytes)
          → sign m ≡ some signature
          → (x.ed25519_verify public_key m signature ≡ true) × All IsByte signature)
      → sign_network_map_snapshot_with_provider public_key s at ttl (some sign) ≡ ok g
      → is_zero (truncate_second at) ≡ false
      → truncate_second at ≤ now + max_network_map_signature_clock_skew
      → now < truncate_second at + ttl
      → validate_share_peer_grants_at (record s { map_signature = some g }) now ≡ ok tt
      → verify_network_map_snapshot_signature_at
          (record s { map_signature = some g })
          (Base64.encode raw_url_encoding public_key)
          now
        ≡ ok tt
  sign-verify_network_map_snapshot public_key s at now ttl sign g bytes genuine h start begun
        unexpired grants =
      IsSigned-accepted (record s { map_signature = some g })
        (Base64.encode raw_url_encoding public_key) now
        (made-IsSigned public_key s at now ttl sign g bytes genuine h start begun unexpired) grants
