-- ===== src/Tests/Credentials.antt =====
-- Node credentials on the sample.
use client_api.Prelude.{
  Bytes, bytes, bytes_eq, ◌≡◌, ◌↔◌, refl, true, false, some, Option, ok, List, [], ◌∷◌, ◌++◌, ◌==◌,
  ◌*◌, All, All-append, nat_eq, arith, inr,
}
use client_api.Go.Strings.{trim_space}
use client_api.Go.Net.{cut_first}
use client_api.Go.AsciiLaws.{IsGraphic}
use client_api.Go.Base64
use client_api.Go.Base64.{raw_url_encoding}
use client_api.Go.Base64.Laws.{IsByte}
use client_api.Types.Time.{minute}
use client_api.Types.Keys.{NodeCredentialClaims, SigningTrustKey}
use client_api.Trust.{resolve}
use client_api.Tests.{program}
use client_api.Tests.Sample.{outside, trust, raw_key, now, ticket_claims, ticket_text}
use client_api.Credential.{
  clean_credential_scopes, validate_node_credential, decode_node_credential, sign_node_credential,
  verify_node_credential_with_trust_bundle,
}
use client_api.Credential.Laws.{IsTrusted, verify_node_credential_with_trust_bundle_iff}
use client_api.Credential.Signing.{KeepsClaims, sign-validate_node_credential}

abbrev wanted : List Bytes
wanted = bytes " relay" ∷ bytes "peer" ∷ [] ∷ bytes "relay" ∷ []

wanted_cleaned : clean_credential_scopes wanted ≡ bytes "peer" ∷ bytes "relay" ∷ []
unfolding program
wanted_cleaned = refl

abbrev ticket : Bytes
ticket = bytes "enc_" ++ Base64.encode raw_url_encoding ticket_text

ticket_made :
    sign_node_credential (raw_key ++ raw_key) (bytes "net-1") (bytes "n1 ") wanted (20 * minute)
    ≡ ok ticket
unfolding program
ticket_made = refl

ticket_accepted :
    verify_node_credential_with_trust_bundle ticket trust (bytes "relay") now ≡ ok ticket_claims
unfolding program
ticket_accepted = refl

verify_node_credential_with_trust_bundle_iff_example :
    (verify_node_credential_with_trust_bundle ticket trust [] now ≡ ok ticket_claims) ↔ (
      (decode_node_credential ticket ≡ ok ticket_claims)
      × ((key : SigningTrustKey) × (resolve trust ticket_claims.key_id now ≡ ok key)
          × IsTrusted ticket_claims key.public_key [] now))
verify_node_credential_with_trust_bundle_iff_example =
    verify_node_credential_with_trust_bundle_iff ticket trust [] now ticket_claims

abbrev signer : Bytes → Option Bytes
signer m = some (raw_key ++ raw_key)

signer_genuine :
    (m s : Bytes) → signer m ≡ some s → (outside.ed25519_verify raw_key m s ≡ true) × All IsByte s
unfolding program
signer_genuine m s h = let e : raw_key ++ raw_key ≡ s = cc h in rw (← e) (refl, omega arith)

raw_key_octets : All IsByte raw_key
raw_key_octets = omega arith

IsGraphic-IsByte : (s : Bytes) → All IsGraphic s → All IsByte s
IsGraphic-IsByte [] h = tt
IsGraphic-IsByte (c ∷ s) (p, h) = (omega (arith, p), IsGraphic-IsByte s h)

-- The first line ends at the line feed, since it has none.
cut_first-line :
    (id text : Bytes) → All IsGraphic id → cut_first 10 (id ++ (10 ∷ text)) ≡ some (id, text)
unfolding cut_first
cut_first-line [] text h = refl
cut_first-line (c ∷ id) text (p, h) =
    let other : (c == 10) ≡ false = ground arith in rw (other, cut_first-line id text h) refl

claims_kept : KeepsClaims (bytes "net-1") (bytes "n1 ") wanted (20 * minute)
unfolding program
claims_kept id text raw named signed h =
    let p : id ++ (10 ∷ text) ≡ raw = cc h in
    rw (← p) (
      All-append IsByte id (10 ∷ text) (IsGraphic-IsByte id named)
          (omega arith, IsGraphic-IsByte text signed),
      ([], rw (cut_first-line id text named) refl, refl),
    )

sign-validate_node_credential_example :
    (claims : NodeCredentialClaims) × (validate_node_credential ticket
        (Base64.encode raw_url_encoding raw_key)
        (bytes "relay")
        now
      ≡ ok claims)
    × (claims.network_id ≡ trim_space (bytes "net-1"))
    × (claims.node_id ≡ trim_space (bytes "n1 "))
    × (claims.scopes ≡ clean_credential_scopes wanted)
    × (claims.expires_at ≡ 20 * minute)
unfolding program
sign-validate_node_credential_example =
    sign-validate_node_credential raw_key (bytes "net-1") (bytes "n1 ") wanted (20 * minute) signer
      ticket (bytes "relay") now raw_key_octets signer_genuine claims_kept refl (ground arith)
      (inr refl)
