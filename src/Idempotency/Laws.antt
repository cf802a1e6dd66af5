-- ===== src/Idempotency/Laws.antt =====
-- The identities that are made are valid.
use client_api.Prelude.{
  Bytes, bytes, bytes_eq, ℕ, ◌+◌, ◌≤◌, ◌≡◌, refl, true, some, [], ◌∷◌, ◌++◌, length, all, All,
  All-append, ok, arith, beq_refl, ◌*◌,
}
use client_api.Go.AsciiLaws.{IsGraphic, trim_space_graphic}
use client_api.Go.Base64
use client_api.Go.Base64.{raw_url_encoding, letter}
use client_api.Go.Base64.Laws.{encode-IsGraphic}
use client_api.Fields.{validate_identifier, is_identifier_byte, max_identifier_bytes}
use client_api.Idempotency.{new_registration_idempotency_id}

letter_is_identifier : (v : ℕ) → is_identifier_byte (letter raw_url_encoding v) ≡ true
unfolding letter
letter_is_identifier v = ground arith

encode_is_identifier :
    (raw : Bytes) → all is_identifier_byte (Base64.encode raw_url_encoding raw) ≡ true
unfolding Base64.encode all
encode_is_identifier [] = refl
encode_is_identifier (a ∷ []) = simp (letter_is_identifier)
encode_is_identifier (a ∷ b ∷ []) = simp (letter_is_identifier)
encode_is_identifier (a ∷ b ∷ c ∷ raw) = simp (letter_is_identifier, encode_is_identifier raw)

length-encode :
    (raw : Bytes)
    → (3 * length (Base64.encode raw_url_encoding raw) ≤ 4 * length raw + 2)
      × (4 * length raw ≤ 3 * length (Base64.encode raw_url_encoding raw))
unfolding Base64.encode
length-encode [] = (omega arith, omega arith)
length-encode (a ∷ []) = (omega arith, omega arith)
length-encode (a ∷ b ∷ []) = (omega arith, omega arith)
length-encode (a ∷ b ∷ c ∷ raw) = let (h, k) = length-encode raw in (omega arith, omega arith)

abbrev prefix : Bytes
prefix = bytes "reg_"

-- From 32 random bytes comes a registration operation ID, and it passes the check of such IDs that
-- requests and results are put to.
pub new_registration_idempotency_id-valid :
    (raw : Bytes)
    → length raw ≡ 32
    → (id : Bytes) × (new_registration_idempotency_id (some raw) ≡ some id)
      × (validate_identifier id 16 max_identifier_bytes ≡ ok tt)
unfolding new_registration_idempotency_id validate_identifier all
new_registration_idempotency_id-valid raw h =
    let encoded = Base64.encode raw_url_encoding raw in
    let graphic : All IsGraphic (prefix ++ encoded) =
      All-append IsGraphic prefix encoded (omega arith) (encode-IsGraphic raw) in
    let (most, least) = length-encode raw in
    (
      prefix ++ encoded,
      refl,
      simp
          (
            trim_space_graphic (prefix ++ encoded) graphic,
            beq_refl (prefix ++ encoded),
            encode_is_identifier raw,
          )
          (ground (arith, most, least, h)),
    )
