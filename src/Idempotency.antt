-- ===== src/Idempotency.antt =====
-- clientapi/v1/idempotency.go, and NewRegistrationIdempotencyID of registration.go: operation
-- identities from random bytes, which are an argument; `none` is a failure of crypto/rand.
pub mod Laws
use client_api.Prelude.{Bytes, bytes, Option, none, some, ◌++◌}
use client_api.Go.Base64
use client_api.Go.Base64.{raw_url_encoding}

-- NewCreateIdempotencyKey
unfoldable pub new_create_idempotency_key : Option Bytes → Option Bytes
new_create_idempotency_key none = none
new_create_idempotency_key (some raw) = some (Base64.encode raw_url_encoding raw)

-- NewRegistrationIdempotencyID
unfoldable pub new_registration_idempotency_id : Option Bytes → Option Bytes
new_registration_idempotency_id none = none
new_registration_idempotency_id (some raw) =
    some (bytes "reg_" ++ Base64.encode raw_url_encoding raw)
