-- ===== src/Go/Strings.antt =====
-- Package `strings`, over the bytes of a string.
pub mod TrimLaws
use client_api.Prelude.{
  Bytes, ℕ, zero, suc, ◌-◌, ◌+◌, Bool, true, false, ◌&&◌, ◌||◌, List, [], ◌∷◌, ◌++◌, map, reverse,
  leb, ◌==◌, nat_eq, if◌then◌else◌,
}

-- The white space of `unicode.IsSpace`, by its UTF-8 encodings of one, two and three bytes.
abbrev pub is_space_1 : ℕ → Bool
is_space_1 a = leb 9 a && leb a 13 || a == 32

abbrev pub is_space_2 : ℕ → ℕ → Bool
is_space_2 a b = a == 0xc2 && (b == 0x85 || b == 0xa0)

abbrev pub is_space_3 : ℕ → ℕ → ℕ → Bool
is_space_3 a b c =
    a == 0xe1 && b == 0x9a && c == 0x80
    || a == 0xe2 && b == 0x80 && (leb 0x80 c && leb c 0x8a || c == 0xa8 || c == 0xa9 || c == 0xaf)
    || a == 0xe2 && b == 0x81 && c == 0x9f
    || a == 0xe3 && b == 0x80 && c == 0x80

-- The bytes of the white space that a string begins with, 0 for none.
unfoldable pub space_width : Bytes → ℕ
space_width [] = 0
space_width (a ∷ []) = if is_space_1 a then 1 else 0
space_width (a ∷ b ∷ []) = if is_space_1 a then 1 else if is_space_2 a b then 2 else 0
space_width (a ∷ b ∷ c ∷ _) =
    if is_space_1 a then 1 else if is_space_2 a b then 2 else if is_space_3 a b c then 3 else 0

-- The same at the end of a string that is given reversed.
unfoldable pub space_width_reversed : Bytes → ℕ
space_width_reversed [] = 0
space_width_reversed (a ∷ []) = if is_space_1 a then 1 else 0
space_width_reversed (b ∷ a ∷ []) = if is_space_1 b then 1 else if is_space_2 a b then 2 else 0
space_width_reversed (c ∷ b ∷ a ∷ _) =
    if is_space_1 c then 1 else if is_space_2 b c then 2 else if is_space_3 a b c then 3 else 0

-- Drops what `width` measures as long as it measures something; `skip` counts bytes still to drop.
unfoldable pub trim_while : (Bytes → ℕ) → ℕ → Bytes → Bytes
trim_while width skip [] = []
trim_while width zero (x ∷ xs) = elim (width (x ∷ xs)) [
  | zero ↦ x ∷ xs
  | suc k ↦ trim_while width k xs
]
trim_while width (suc k) (x ∷ xs) = trim_while width k xs

unfoldable pub trim_left_space : Bytes → Bytes
unfolding trim_while space_width
trim_left_space s = trim_while space_width 0 s

unfoldable pub trim_right_space : Bytes → Bytes
unfolding trim_while space_width_reversed
trim_right_space s = reverse (trim_while space_width_reversed 0 (reverse s))

-- strings.TrimSpace
unfoldable pub trim_space : Bytes → Bytes
unfolding trim_left_space trim_right_space
trim_space s = trim_right_space (trim_left_space s)

-- strings.HasPrefix
unfoldable pub has_prefix : Bytes → Bytes → Bool
has_prefix s [] = true
has_prefix [] (p ∷ ps) = false
has_prefix (c ∷ s) (p ∷ ps) = c == p && has_prefix s ps

unfoldable pub drop_bytes : ℕ → Bytes → Bytes
drop_bytes zero s = s
drop_bytes (suc n) [] = []
drop_bytes (suc n) (c ∷ s) = drop_bytes n s

abbrev byte_count : Bytes → ℕ
byte_count [] = 0
byte_count (c ∷ s) = suc (byte_count s)

-- strings.TrimPrefix
unfoldable pub trim_prefix : Bytes → Bytes → Bytes
unfolding has_prefix drop_bytes
trim_prefix s p = if has_prefix s p then drop_bytes (byte_count p) s else s

-- strings.TrimSuffix
unfoldable pub trim_suffix : Bytes → Bytes → Bytes
unfolding trim_prefix
trim_suffix s p = reverse (trim_prefix (reverse s) (reverse p))

drop_byte : ℕ → Bytes → Bytes
drop_byte sep [] = []
drop_byte sep (c ∷ s) = let rest = drop_byte sep s in if c == sep then rest else c ∷ s

-- strings.TrimRight with a cutset of one byte.
unfoldable pub trim_right_byte : ℕ → Bytes → Bytes
unfolding drop_byte
trim_right_byte sep s = reverse (drop_byte sep (reverse s))

abbrev pub push_head : ℕ → List Bytes → List Bytes
push_head c [] = (c ∷ []) ∷ []
push_head c (p ∷ ps) = (c ∷ p) ∷ ps

-- strings.Split with a separator of one byte: the parts between the separators, never none.
unfoldable pub split : Bytes → ℕ → List Bytes
split [] sep = [] ∷ []
split (c ∷ s) sep = let rest = split s sep in if c == sep then [] ∷ rest else push_head c rest

-- strings.Contains with a text of one byte.
unfoldable pub contains_byte : Bytes → ℕ → Bool
contains_byte [] b = false
contains_byte (c ∷ s) b = c == b || contains_byte s b

-- strings.ToLower on ASCII bytes; the others are kept.
abbrev pub lower_byte : ℕ → ℕ
lower_byte c = if leb b'A' c && leb c b'Z' then c + 32 else c

unfoldable pub to_lower : Bytes → Bytes
to_lower s = map lower_byte s

-- strings.Join
unfoldable pub join : List Bytes → Bytes → Bytes
join [] sep = []
join (p ∷ []) sep = p
join (p ∷ q ∷ ps) sep = p ++ (sep ++ join (q ∷ ps) sep)
