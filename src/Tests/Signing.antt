-- ===== src/Tests/Signing.antt =====
-- Trust bundles and map signatures on the sample.
use mathlib.Core.List.{Memᴰ, Permᴰ}
use client_api.Prelude.{
  Bytes, bytes, ◌≡◌, ◌↔◌, ◌++◌, refl, true, some, ok, Option, [], ◌∷◌, All, arith, none, sym, ap,
  ◌∙◌,
}
use client_api.Go.Strings.{trim_space}
use client_api.Go.Base64
use client_api.Go.Base64.{raw_url_encoding}
use client_api.Go.Base64.Laws.{IsByte}
use client_api.Types.Time.{minute}
use client_api.Types.Keys.{SigningTrustKey, SigningTrustBundle}
use client_api.Types.Node.{Peer}
use client_api.Tests.{program}
use client_api.Tests.Sample.{
  outside, office, now, start, signature, trust, trusted_key, raw_key, key_text, key_name, peer,
  guest,
}
use client_api.Trust.{validate, resolve}
use client_api.Trust.Laws.{IsSound, IsWithin, resolve-IsSound, resolve_complete}
use client_api.Trust.Bundle.{new_signing_trust_bundle-resolve}
use client_api.Sharing.{validate_share_peer_grants_at}
use client_api.MapSign.{canonical_network_map_payload, verify_network_map_snapshot_signature_at}
use client_api.MapSign.Laws.{
  IsSigned, verify_network_map_snapshot_signature_at_iff, sign-verify_network_map_snapshot,
}
use client_api.MapSign.Canonical.{canonical_network_map_payload-Perm}

resolve-IsSound_example :
    Memᴰ trusted_key trust.keys
    × (key_name ≡ trim_space key_name)
    × IsSound trusted_key
    × IsWithin trusted_key.not_before trusted_key.not_after now
unfolding program
resolve-IsSound_example = resolve-IsSound trust key_name now trusted_key refl

resolve_complete_example : resolve trust key_name now ≡ ok trusted_key
unfolding program
resolve_complete_example =
    resolve_complete trust now trusted_key refl (Memᴰ.head refl) refl (refl, refl)

abbrev made : SigningTrustBundle
made = record trust { keys = record trusted_key { not_after = none } ∷ [] }

new_signing_trust_bundle-resolve_example :
    (validate made ≡ ok tt)
    × ((key : SigningTrustKey) × (resolve made made.active_key_id now ≡ ok key)
        × (key.public_key ≡ trim_space (bytes " " ++ key_text)))
unfolding program
new_signing_trust_bundle-resolve_example =
    new_signing_trust_bundle-resolve (bytes " " ++ key_text) made now refl

verify_network_map_snapshot_signature_at_iff_example :
    (verify_network_map_snapshot_signature_at office key_text now ≡ ok tt)
    ↔ (IsSigned office key_text now × (validate_share_peer_grants_at office now ≡ ok tt))
verify_network_map_snapshot_signature_at_iff_example =
    verify_network_map_snapshot_signature_at_iff office key_text now

abbrev signer : Bytes → Option Bytes
signer m = some (raw_key ++ raw_key)

signer_genuine :
    (m s : Bytes) → signer m ≡ some s → (outside.ed25519_verify raw_key m s ≡ true) × All IsByte s
unfolding program
signer_genuine m s h = let e : raw_key ++ raw_key ≡ s = cc h in rw (← e) (refl, omega arith)

raw_key_octets : All IsByte raw_key
raw_key_octets = omega arith

sign-verify_network_map_snapshot_example :
    verify_network_map_snapshot_signature_at office (Base64.encode raw_url_encoding raw_key) now
    ≡ ok tt
unfolding program
sign-verify_network_map_snapshot_example =
    sign-verify_network_map_snapshot raw_key office start now minute signer signature raw_key_octets
      signer_genuine refl refl (ground arith) (ground arith) refl

peers_apart :
    (a b : Peer)
    → Memᴰ a office.peers
    → Memᴰ b office.peers
    → a.id ≡ b.id
    → a.hostname ≡ b.hostname
    → a ≡ b
peers_apart a b (Memᴰ.head p) (Memᴰ.head q) e f = p ∙ sym q
peers_apart a b (Memᴰ.head p) (Memᴰ.tail (Memᴰ.head q)) e f =
    cc (ap (λ (r : Peer). r.id) p, ap (λ (r : Peer). r.id) q)
peers_apart a b (Memᴰ.tail (Memᴰ.head p)) (Memᴰ.head q) e f =
    cc (ap (λ (r : Peer). r.id) p, ap (λ (r : Peer). r.id) q)
peers_apart a b (Memᴰ.tail (Memᴰ.head p)) (Memᴰ.tail (Memᴰ.head q)) e f = p ∙ sym q
peers_apart a b (Memᴰ.head p) (Memᴰ.tail (Memᴰ.tail m)) e f = elim m [ ]
peers_apart a b (Memᴰ.tail (Memᴰ.head p)) (Memᴰ.tail (Memᴰ.tail m)) e f = elim m [ ]
peers_apart a b (Memᴰ.tail (Memᴰ.tail m)) _ e f = elim m [ ]

nothing_listed :
    {A : Type 0} (id second : A → Bytes) (a b : A)
    → Memᴰ a []
    → Memᴰ b []
    → id a ≡ id b
    → second a ≡ second b
    → a ≡ b
nothing_listed id second a b m n e f = elim m [ ]

canonical_network_map_payload-Perm_example :
    canonical_network_map_payload office key_name start now
    ≡ canonical_network_map_payload (record office { peers = guest ∷ peer ∷ [] }) key_name start now
canonical_network_map_payload-Perm_example =
    canonical_network_map_payload-Perm office (guest ∷ peer ∷ []) [] [] key_name start now
      (Permᴰ.swap refl refl) Permᴰ.nil Permᴰ.nil peers_apart
      (nothing_listed (λ r. r.id) (λ r. r.addr)) (nothing_listed (λ e. e.id) (λ e. e.addr))
