-- ===== src/Wireguard/Keys.antt =====
-- clientapi/wireguard/keys.go: private keys from random bytes, which are an argument (`none` is a
-- failure of crypto/rand), and their public keys.
use client_api.Prelude.{
  Bytes, ◌+◌, ◌*◌, ◌/◌, ◌%◌, not, Option, none, some, [], ◌∷◌, ◌==◌, nat_eq, length, Result, ok,
  ◌>>=◌, ◌>>◌, reject,
}
use client_api.Go.Base64
use client_api.Go.Base64.{std_encoding}
use client_api.External.{External}
use client_api.MapSign.{required}
use client_api.Errors.{Error, private_key_encoding, private_key_length, public_key_failed}

-- key[0] &= 248
unfoldable pub clear_low : Bytes → Bytes
clear_low [] = []
clear_low (b ∷ key) = (b / 8 * 8) ∷ key

-- key[31] &= 127 and key[31] |= 64, the last byte
unfoldable pub set_high : Bytes → Bytes
set_high [] = []
set_high (b ∷ []) = (b % 64 + 64) ∷ []
set_high (b ∷ c ∷ key) = b ∷ set_high (c ∷ key)

-- GeneratePrivateKey, from 32 random bytes
unfoldable pub generate_private_key : Option Bytes → Option Bytes
generate_private_key none = none
generate_private_key (some random) = some (Base64.encode std_encoding (set_high (clear_low random)))

module _ ⦃x : External⦄ where
  -- PublicKey
  unfoldable pub public_key : Bytes → Result Error Bytes
  public_key private_key = do
    raw ← required private_key_encoding (Base64.decode std_encoding private_key)
    reject (not (length raw == 32)) private_key_length
    point ← required public_key_failed (x.x25519_base raw)
    ok (Base64.encode std_encoding point)
