-- ===== src/Go/Url.antt =====
-- `url.PathEscape` and `url.QueryEscape`.
use client_api.Prelude.{
  Bytes, ℕ, ◌+◌, ◌/◌, ◌%◌, Bool, ◌&&◌, ◌||◌, [], ◌∷◌, ◌++◌, leb, ltb, ◌==◌, nat_eq, if◌then◌else◌,
}

-- The bytes that stand for themselves everywhere.
abbrev pub is_unreserved : ℕ → Bool
is_unreserved c =
    leb b'a' c && leb c b'z'
    || leb b'A' c && leb c b'Z'
    || leb b'0' c && leb c b'9'
    || c == b'-'
    || c == b'_'
    || c == b'.'
    || c == b'~'

-- Those of a path segment: also $ & + = : @
abbrev pub is_segment_byte : ℕ → Bool
is_segment_byte c =
    is_unreserved c || c == b'$' || c == b'&' || c == b'+' || c == b'=' || c == b':' || c == b'@'

-- A digit of "0123456789ABCDEF".
abbrev pub upper_digit : ℕ → ℕ
upper_digit v = if ltb v 10 then b'0' + v else b'7' + v

abbrev pub percent : ℕ → Bytes
percent c = b'%' ∷ upper_digit (c / 16 % 16) ∷ upper_digit (c % 16) ∷ []

-- url.PathEscape
unfoldable pub path_escape : Bytes → Bytes
path_escape [] = []
path_escape (c ∷ s) = (if is_segment_byte c then c ∷ [] else percent c) ++ path_escape s

-- url.QueryEscape
unfoldable pub query_escape : Bytes → Bytes
query_escape [] = []
query_escape (c ∷ s) =
    (if is_unreserved c then c ∷ [] else if c == b' ' then b'+' ∷ [] else percent c)
    ++ query_escape s
