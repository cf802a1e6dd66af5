-- ===== src/Go/Utf8.antt =====
-- Package `unicode/utf8`: the decoder as a state machine over the bytes.
use client_api.Prelude.{
  Bytes, ℕ, zero, suc, ◌+◌, ◌*◌, ◌-◌, ◌≡◌, refl, Bool, ◌&&◌, ◌||◌, Option, none, some, List, [],
  ◌∷◌, leb, ltb, ◌==◌, nat_eq, if◌then◌else◌,
}

pub data Decoder : Type 0 where
  ready : Decoder
  -- `left` continuation bytes to come after one in `lo..hi`; `acc` is the code point so far
  within : (left lo hi acc : ℕ) → Decoder
  complete : ℕ → Decoder
  invalid : Decoder

-- The ranges of the second byte exclude overlong forms, surrogates and what lies above U+10FFFF.
abbrev lead : ℕ → Decoder
lead b =
    if ltb b 0x80
    then complete b
    else if ltb b 0xc2
    then invalid
    else if ltb b 0xe0
    then within 0 0x80 0xbf (b - 0xc0)
    else if b == 0xe0
    then within 1 0xa0 0xbf 0
    else if b == 0xed
    then within 1 0x80 0x9f 0xd
    else if ltb b 0xf0
    then within 1 0x80 0xbf (b - 0xe0)
    else if b == 0xf0
    then within 2 0x90 0xbf 0
    else if ltb b 0xf4
    then within 2 0x80 0xbf (b - 0xf0)
    else if b == 0xf4
    then within 2 0x80 0x8f 4
    else invalid

abbrev proceed : ℕ → ℕ → Decoder
proceed zero acc = complete acc
proceed (suc left) acc = within left 0x80 0xbf acc

unfoldable pub decode_byte : Decoder → ℕ → Decoder
decode_byte ready b = lead b
decode_byte (complete r) b = lead b
decode_byte invalid b = invalid
decode_byte (within left lo hi acc) b =
    if leb lo b && leb b hi then proceed left (acc * 64 + (b - 0x80)) else invalid

abbrev emit : Decoder → Option (List ℕ) → Option (List ℕ)
emit (complete r) (some rs) = some (r ∷ rs)
emit (complete r) none = none
emit ready rest = rest
emit (within left lo hi acc) rest = rest
emit invalid rest = none

abbrev finish : Decoder → Option (List ℕ)
finish ready = some []
finish (complete r) = some []
finish (within left lo hi acc) = none
finish invalid = none

unfoldable pub decode_from : Decoder → Bytes → Option (List ℕ)
unfolding decode_byte
decode_from d [] = finish d
decode_from d (b ∷ bs) = let next = decode_byte d b in emit next (decode_from next bs)

-- The runes of a string, as `range` reads them; `none` where utf8.ValidString is false.
unfoldable pub decode_runes : Bytes → Option (List ℕ)
unfolding decode_from
decode_runes s = decode_from ready s

-- unicode.IsControl
abbrev pub is_control : ℕ → Bool
is_control r = leb r 0x1f || leb 0x7f r && ltb r 0xa0

euro : decode_runes (0x61 ∷ 0xe2 ∷ 0x82 ∷ 0xac ∷ []) ≡ some (0x61 ∷ 0x20ac ∷ [])
unfolding decode_runes
euro = refl

surrogate : decode_runes (0xed ∷ 0xa0 ∷ 0x80 ∷ []) ≡ none
unfolding decode_runes
surrogate = refl
