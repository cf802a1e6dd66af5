-- ===== src/Codec.antt =====
-- clientapi/v1/codec.go: strict JSON of public errors and registration messages. JSON itself is an
-- instance of Json for each type.
pub mod Laws
use client_api.Prelude.{
  Bytes, bytes, ℕ, suc, ◌*◌, Bool, true, false, ◌&&◌, Option, none, some, List, length, ltb, leb,
  take, Result, ok, err, ◌>>=◌, ◌>>◌, reject, Check, if◌then◌else◌,
}
use client_api.Types.Map.{RegisterNodeResponse}
use client_api.Types.Requests.{RegisterNodeRequest}
use client_api.External.{External, Json}
use client_api.MapSign.{required}
use client_api.PublicError
use client_api.PublicError.{PublicError}
use client_api.Registration.{validate_request, validate_response}
use client_api.Errors.{
  Error, marshal_failed, reader_missing, body_unreadable, body_too_large, body_json, body_trailing,
}

abbrev pub max_public_error_bytes : ℕ
max_public_error_bytes = 16 * 1024

abbrev pub max_register_node_request_bytes : ℕ
max_register_node_request_bytes = 64 * 1024

abbrev pub max_register_node_response_bytes : ℕ
max_register_node_response_bytes = 4 * 1024 * 1024

-- An io.Reader by all that it delivers, and whether it ends in an error other than io.EOF.
pub record Source : Type 0 where
  pub content : Bytes
  pub fails : Bool

-- io.ReadAll of a LimitedReader: it does not read on, and so meets no error, behind `most` bytes.
unfoldable pub read_limited : ℕ → Source → Result Error Bytes
read_limited most source =
    if source.fails && ltb (length source.content) most
    then err body_unreadable
    else ok (take most source.content)

module _ ⦃x : External⦄ {A : Type 0} where
  abbrev pub single : Option (A × Bytes) → Result Error A
  single none = err body_json
  single (some (a, rest)) = if x.at_eof rest then ok a else err body_trailing

  -- decodeStrict
  unfoldable pub decode_strict : (Bytes → Option (A × Bytes)) → Option Source → ℕ → Result Error A
  decode_strict decode reader limit = do
    source ← required reader_missing reader
    raw ← read_limited (suc limit) source
    reject (ltb limit (length raw)) body_too_large
    single (decode raw)

  -- The three Decode functions: strictly, then validated.
  unfoldable pub decode_validated :
      (Bytes → Option (A × Bytes)) → ℕ → (A → Check Error) → Option Source → Result Error A
  decode_validated decode limit validate reader = do
    a ← decode_strict decode reader limit
    validate a
    ok a

-- marshalValidated
unfoldable pub marshal_validated :
    {A : Type 0} → (A → Option Bytes) → (A → Check Error) → A → Result Error Bytes
marshal_validated marshal validate a = do validate a; required marshal_failed (marshal a)

module _ ⦃x : External⦄ where
  -- MarshalPublicError
  unfoldable pub marshal_public_error : ⦃j : Json PublicError⦄ → PublicError → Result Error Bytes
  marshal_public_error ⦃j⦄ e = marshal_validated j.marshal PublicError.validate e

  -- DecodePublicError
  unfoldable pub decode_public_error :
      ⦃j : Json PublicError⦄ → Option Source → Result Error PublicError
  decode_public_error ⦃j⦄ reader =
      decode_validated j.decode max_public_error_bytes PublicError.validate reader

  -- MarshalRegisterNodeRequest
  unfoldable pub marshal_register_node_request :
      ⦃j : Json RegisterNodeRequest⦄ → RegisterNodeRequest → Result Error Bytes
  marshal_register_node_request ⦃j⦄ q = marshal_validated j.marshal validate_request q

  -- DecodeRegisterNodeRequest
  unfoldable pub decode_register_node_request :
      ⦃j : Json RegisterNodeRequest⦄ → Option Source → Result Error RegisterNodeRequest
  decode_register_node_request ⦃j⦄ reader =
      decode_validated j.decode max_register_node_request_bytes validate_request reader

  -- MarshalRegisterNodeResponse
  unfoldable pub marshal_register_node_response :
      ⦃j : Json RegisterNodeResponse⦄ → RegisterNodeResponse → Result Error Bytes
  marshal_register_node_response ⦃j⦄ r = marshal_validated j.marshal validate_response r

  -- DecodeRegisterNodeResponse
  unfoldable pub decode_register_node_response :
      ⦃j : Json RegisterNodeResponse⦄ → Option Source → Result Error RegisterNodeResponse
  decode_register_node_response ⦃j⦄ reader =
      decode_validated j.decode max_register_node_response_bytes validate_response reader
