-- ===== src/External.antt =====
-- What the program takes from elsewhere: the text forms of IP addresses and URLs, SHA-256, Ed25519,
-- JSON, and the relay protocol's own validation. The model is a function of them; what a theorem
-- needs to know of them it takes as a hypothesis.
use client_api.Prelude.{Bytes, ℤ, Bool, Option, List}
use client_api.Go.Netip.{Addr, Prefix}
use client_api.Types.Relay.{RelayEndpoint}
use client_api.Types.Payload.{NetworkMapSigningPayload, RegistrationProof}
use client_api.Types.Map.{MapStreamEvent}
use client_api.Types.Keys.{NodeCredentialClaims, NodeCredentialPayload}

-- What `url.Parse` returns, as far as the program reads it.
pub record Url : Type 0 where
  pub scheme : Bytes
  pub host : Bytes
  pub hostname : Bytes
  pub port : Bytes
  pub has_user : Bool
  pub path : Bytes
  pub raw_query : Bytes
  pub fragment : Bytes

-- encoding/json at one type: json.Marshal, and a strict decoder's Decode with the text behind it.
pub record Json (A : Type 0) : Type 0 where
  pub marshal : A → Option Bytes
  pub decode : Bytes → Option (A × Bytes)

pub record External : Type 0 where
  -- netip.ParseAddr, netip.ParsePrefix (`none` is their error) and the two String methods
  pub parse_addr : Bytes → Option Addr
  pub parse_prefix : Bytes → Option Prefix
  pub addr_string : Addr → Bytes
  pub prefix_string : Prefix → Bytes
  -- url.Parse
  pub parse_url : Bytes → Option Url
  -- http.NewRequest method url: whether it makes a request
  pub request_formed : Bytes → Bytes → Bool
  -- net.ParseIP(host) is an address, and that address IsLoopback
  pub is_loopback_ip : Bytes → Bool
  -- sha256.Sum256
  pub sha256 : Bytes → Bytes
  -- ed25519.Verify publicKey message signature
  pub ed25519_verify : Bytes → Bytes → Bytes → Bool
  -- PrivateKey.Public and ed25519.Sign privateKey message
  pub ed25519_public : Bytes → Bytes
  pub ed25519_sign : Bytes → Bytes → Bytes
  -- curve25519.X25519 at the base point
  pub x25519_base : Bytes → Option Bytes
  -- json.Marshal at the three types that the package signs or encodes
  pub marshal_map_payload : NetworkMapSigningPayload → Option Bytes
  pub marshal_credential_payload : NodeCredentialPayload → Option Bytes
  pub marshal_claims : NodeCredentialClaims → Option Bytes
  -- json.Marshal at the proof of a device identity, of which the program ignores the error
  pub marshal_registration_proof : RegistrationProof → Bytes
  -- a strict json.Decoder's Decode: the value and the text behind it
  pub decode_claims : Bytes → Option (NodeCredentialClaims × Bytes)
  -- whether a second Decode meets io.EOF
  pub at_eof : Bytes → Bool
  -- a strict json.Decoder's Decode at an event of the map stream
  pub decode_event : Bytes → Option (MapStreamEvent × Bytes)
  -- time.ParseDuration and Duration.String, in nanoseconds
  pub parse_duration : Bytes → Option ℤ
  pub duration_string : ℤ → Bytes
  -- EndpointSnapshot{Version: 1, Endpoints: …}.Validate of the relay protocol
  pub relays_valid : List RelayEndpoint → Bool
