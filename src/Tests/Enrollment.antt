-- ===== src/Tests/Enrollment.antt =====
-- Registration on the sample.
use client_api.Prelude.{
  Bytes, bytes, ◌≡◌, ◌⊎◌, refl, true, none, some, ok, err, [], ◌∷◌, ◌++◌, pos, All, arith, map, ◌%◌,
}
use client_api.Go.Strings.{trim_space}
use client_api.Go.Base64
use client_api.Go.Base64.{raw_url_encoding}
use client_api.Go.Base64.Laws.{IsByte}
use client_api.Types.Requests.{RegisterNodeRequest}
use client_api.Types.Map.{RegisterNodeResponse}
use client_api.Tests.{program}
use client_api.Tests.Sample.{outside, office, node, node_key, raw_key, signature, ticket_text}
use client_api.Errors.{mixed_authorization}
use client_api.Fields.{decode_identity_public_key}
use client_api.Registration.{
  set_register_node_identity_proof, verify_register_node_identity_proof, validate_request,
  validate_for_request, proof_of, registration_identity_proof_payload,
}
use client_api.Registration.Proof.{IsSigningKey, set-verify_register_node_identity_proof}
use client_api.Registration.Laws.{IsRenewal, IsEnrollment, validate_request-IsAuthorized}
use client_api.Registration.Answer.{validate_for_request_unique}

abbrev unsigned : RegisterNodeRequest
unsigned = record {
  schema_version = pos 2;
  idempotency_id = bytes "reg_0123456789012345678901234";
  network_id = bytes "net-1";
  network_name = [];
  account_id = [];
  cell_id = [];
  join_token = bytes "join";
  node_credential = [];
  registration_binding = [];
  session_token_binding = [];
  hostname = bytes "host-1";
  client_version = bytes "1.0";
  identity_public_key = [];
  identity_signature = [];
  public_key = node_key;
  device_fingerprint = bytes "device";
  endpoint = [];
  generation = 1;
  candidates = [];
  ttl = bytes "5m0s";
  advertised_ips = [];
  tags = bytes "db" ∷ [];
}

abbrev private_key : Bytes
private_key = raw_key ++ raw_key

abbrev pub join_request : RegisterNodeRequest
join_request = record unsigned {
  identity_public_key = bytes "enp_" ++ Base64.encode raw_url_encoding raw_key;
  identity_signature = Base64.encode raw_url_encoding (raw_key ++ raw_key);
}

abbrev pub join_response : RegisterNodeResponse
join_response = record {
  schema_version = pos 2;
  idempotency_id = join_request.idempotency_id;
  revision = office.revision;
  network = office.network;
  node = record node {
    identity_public_key = join_request.identity_public_key;
    device_fingerprint = bytes "device";
  };
  peers = office.peers;
  registration_binding =
      Base64.encode raw_url_encoding (outside.sha256 join_request.idempotency_id);
  node_credential = bytes "enc_" ++ Base64.encode raw_url_encoding ticket_text;
  stun_endpoints = [];
  relays = [];
  relay_credential = none;
  map_signature = some signature;
}

request_made : set_register_node_identity_proof unsigned private_key ≡ ok join_request
unfolding program
request_made = refl

request_valid : validate_request join_request ≡ ok tt
unfolding program
request_valid = refl

mixed_refused :
    validate_request
      (record join_request { node_credential = bytes "enc_x"; registration_binding = bytes "b" })
    ≡ err mixed_authorization
unfolding program
mixed_refused = refl

response_accepted : validate_for_request join_response join_request ≡ ok tt
unfolding program
response_accepted = refl

private_key-IsSigningKey : IsSigningKey private_key
unfolding program
private_key-IsSigningKey = record {
  sized = refl;
  public_sized = refl;
  public_octets = omega arith;
  signature_sized = λ m. refl;
  signature_octets = λ m. omega arith;
  verifies = λ m. refl;
}

set-verify_register_node_identity_proof_example :
    (q : RegisterNodeRequest) × (set_register_node_identity_proof unsigned private_key ≡ ok q)
    × (verify_register_node_identity_proof q ≡ ok tt)
set-verify_register_node_identity_proof_example =
    set-verify_register_node_identity_proof unsigned private_key private_key-IsSigningKey

validate_request-IsAuthorized_example :
    (IsRenewal join_request ⊎ IsEnrollment join_request)
    × ((key : Bytes) × (signed : Bytes) × (decode_identity_public_key
            join_request.identity_public_key
          ≡ ok key)
        × (Base64.encode raw_url_encoding signed ≡ trim_space join_request.identity_signature)
        × (outside.ed25519_verify key (registration_identity_proof_payload join_request) signed
            ≡ true))
unfolding program
validate_request-IsAuthorized_example = validate_request-IsAuthorized join_request refl

abbrev renamed : RegisterNodeRequest
renamed = record join_request { identity_signature = bytes " " ++ join_request.identity_signature }

bytes_below : (m : Bytes) → All IsByte (map (λ b. b % 256) m)
bytes_below [] = tt
bytes_below (b ∷ m) = (omega arith, bytes_below m)

digest_octets : (m : Bytes) → All IsByte (outside.sha256 m)
digest_octets m = (omega arith, (omega arith, (omega arith, bytes_below m)))

validate_for_request_unique_example : proof_of join_request ≡ proof_of renamed
unfolding program
validate_for_request_unique_example =
    validate_for_request_unique join_response join_request renamed digest_octets (λ e. refl)
      (λ e. refl) response_accepted refl
