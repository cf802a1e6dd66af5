-- ===== src/Go/Base64.antt =====
-- Package `encoding/base64`: the raw URL encoding and the padded standard one, with the decoders
-- as Go has them: line breaks are skipped, and only `Strict` wants the unused bits to be zero.
pub mod Laws
use client_api.Prelude.{
  Bytes, ℕ, ◌+◌, ◌-◌, ◌*◌, ◌/◌, ◌%◌, Bool, true, false, not, ◌&&◌, ◌||◌, Option, none, some, [],
  ◌∷◌, leb, ltb, ◌==◌, nat_eq, if◌then◌else◌,
}

-- The last two letters of an alphabet, and whether the last group is padded.
pub record Encoding : Type 0 where
  pub letter_62 : ℕ
  pub letter_63 : ℕ
  pub padded : Bool
  pub strict : Bool

-- base64.RawURLEncoding
abbrev pub raw_url_encoding : Encoding
raw_url_encoding = record { letter_62 = b'-'; letter_63 = b'_'; padded = false; strict = false }

-- base64.RawURLEncoding.Strict()
abbrev pub raw_url_strict : Encoding
raw_url_strict = record { letter_62 = b'-'; letter_63 = b'_'; padded = false; strict = true }

-- base64.StdEncoding
abbrev pub std_encoding : Encoding
std_encoding = record { letter_62 = b'+'; letter_63 = b'/'; padded = true; strict = false }

-- base64.StdEncoding.Strict()
abbrev pub std_strict : Encoding
std_strict = record { letter_62 = b'+'; letter_63 = b'/'; padded = true; strict = true }

unfoldable pub letter : Encoding → ℕ → ℕ
letter enc v =
    if ltb v 26
    then v + b'A'
    else if ltb v 52
    then v - 26 + b'a'
    else if ltb v 62
    then v - 52 + b'0'
    else if v == 62
    then enc.letter_62
    else enc.letter_63

unfoldable pub letter_value : Encoding → ℕ → Option ℕ
letter_value enc c =
    if leb b'A' c && leb c b'Z'
    then some (c - b'A')
    else if leb b'a' c && leb c b'z'
    then some (c - b'a' + 26)
    else if leb b'0' c && leb c b'9'
    then some (c - b'0' + 52)
    else if c == enc.letter_62
    then some 62
    else if c == enc.letter_63
    then some 63
    else none

abbrev padding : Encoding → Bytes → Bytes
padding enc p = if enc.padded then p else []

-- EncodeToString
unfoldable pub encode : Encoding → Bytes → Bytes
unfolding letter
encode enc [] = []
encode enc (a ∷ []) = letter enc (a / 4) ∷ letter enc (a % 4 * 16) ∷ padding enc (b'=' ∷ b'=' ∷ [])
encode enc (a ∷ b ∷ []) =
    letter enc (a / 4)
    ∷ letter enc (a % 4 * 16 + b / 16)
    ∷ letter enc (b % 16 * 4)
    ∷ padding enc (b'=' ∷ [])
encode enc (a ∷ b ∷ c ∷ rest) =
    letter enc (a / 4)
    ∷ letter enc (a % 4 * 16 + b / 16)
    ∷ letter enc (b % 16 * 4 + c / 64)
    ∷ letter enc (c % 64)
    ∷ encode enc rest

unfoldable pub drop_breaks : Bytes → Bytes
drop_breaks [] = []
drop_breaks (c ∷ s) = let rest = drop_breaks s in if c == 10 || c == 13 then rest else c ∷ rest

infixl 5 ◌>>=◌
abbrev pub ◌>>=◌ {ℓ κ} : {A : Type ℓ} {B : Type κ} → Option A → (A → Option B) → Option B
none >>= k = none
some a >>= k = k a

abbrev pub when : Bool → Bytes → Option Bytes
when true s = some s
when false s = none

-- The last group: two or three letters with their padding, or four letters.
unfoldable pub last_of_two : Encoding → ℕ → ℕ → Option Bytes
unfolding letter_value
last_of_two enc p q = do
  u ← letter_value enc p
  v ← letter_value enc q
  when (not enc.strict || v % 16 == 0) ((u * 4 + v / 16) ∷ [])

unfoldable pub last_of_three : Encoding → ℕ → ℕ → ℕ → Option Bytes
unfolding letter_value
last_of_three enc p q r = do
  u ← letter_value enc p
  v ← letter_value enc q
  w ← letter_value enc r
  when (not enc.strict || w % 4 == 0) ((u * 4 + v / 16) ∷ (v % 16 * 16 + w / 4) ∷ [])

unfoldable pub group_of_four : Encoding → ℕ → ℕ → ℕ → ℕ → Option Bytes → Option Bytes
unfolding letter_value
group_of_four enc p q r s rest = do
  u ← letter_value enc p
  v ← letter_value enc q
  w ← letter_value enc r
  x ← letter_value enc s
  bs ← rest
  some ((u * 4 + v / 16) ∷ (v % 16 * 16 + w / 4) ∷ (w % 4 * 64 + x) ∷ bs)

-- A group of four at the end of the text: padding may stand in its last two places.
unfoldable pub last_group : Encoding → ℕ → ℕ → ℕ → ℕ → Option Bytes
unfolding last_of_two last_of_three group_of_four
last_group enc p q r s =
    if enc.padded && s == b'='
    then if r == b'=' then last_of_two enc p q else last_of_three enc p q r
    else group_of_four enc p q r s (some [])

unfoldable pub decode_groups : Encoding → Bytes → Option Bytes
unfolding last_group last_of_two last_of_three group_of_four
decode_groups enc [] = some []
decode_groups enc (p ∷ []) = none
decode_groups enc (p ∷ q ∷ []) = if enc.padded then none else last_of_two enc p q
decode_groups enc (p ∷ q ∷ r ∷ []) = if enc.padded then none else last_of_three enc p q r
decode_groups enc (p ∷ q ∷ r ∷ s ∷ []) = last_group enc p q r s
decode_groups enc (p ∷ q ∷ r ∷ s ∷ t ∷ rest) =
    group_of_four enc p q r s (decode_groups enc (t ∷ rest))

-- DecodeString; `none` is its error.
unfoldable pub decode : Encoding → Bytes → Option Bytes
unfolding decode_groups drop_breaks
decode enc s = decode_groups enc (drop_breaks s)
