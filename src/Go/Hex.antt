-- ===== src/Go/Hex.antt =====
-- Package `encoding/hex`.
use client_api.Prelude.{
  Bytes, ℕ, ◌+◌, ◌-◌, ◌*◌, ◌/◌, ◌%◌, ◌&&◌, Option, none, some, [], ◌∷◌, leb, ltb, if◌then◌else◌,
}
use client_api.Go.Base64.{◌>>=◌}

abbrev pub digit : ℕ → ℕ
digit v = if ltb v 10 then v + b'0' else v - 10 + b'a'

-- hex.EncodeToString
unfoldable pub encode : Bytes → Bytes
encode [] = []
encode (b ∷ bs) = digit (b / 16) ∷ digit (b % 16) ∷ encode bs

abbrev pub digit_value : ℕ → Option ℕ
digit_value c =
    if leb b'0' c && leb c b'9'
    then some (c - b'0')
    else if leb b'a' c && leb c b'f'
    then some (c - b'a' + 10)
    else if leb b'A' c && leb c b'F'
    then some (c - b'A' + 10)
    else none

-- hex.DecodeString; `none` is its error.
unfoldable pub decode : Bytes → Option Bytes
decode [] = some []
decode (c ∷ []) = none
decode (c ∷ d ∷ s) = do
  u ← digit_value c
  v ← digit_value d
  bs ← decode s
  some ((u * 16 + v) ∷ bs)
