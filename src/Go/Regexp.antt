-- ===== src/Go/Regexp.antt =====
-- Package `regexp`, for patterns that are anchored at both ends: whether a text matches, by the
-- pattern's derivatives. A class reads one byte; where it stands for more than ASCII it holds every
-- byte from 0x80, so that it reads a longer character byte by byte.
use client_api.Prelude.{
  Bytes, ℕ, zero, suc, Bool, true, false, ◌&&◌, ◌||◌, not, [], ◌∷◌, leb, ◌==◌, nat_eq,
  if◌then◌else◌,
}

pub data Regexp : Type 0 where
  never : Regexp
  empty : Regexp
  class : (ℕ → Bool) → Regexp
  in_order : Regexp → Regexp → Regexp
  either : Regexp → Regexp → Regexp
  star : Regexp → Regexp

-- The pattern matches the empty text.
unfoldable pub nullable : Regexp → Bool
nullable never = false
nullable empty = true
nullable (class c) = false
nullable (in_order p q) = nullable p && nullable q
nullable (either p q) = nullable p || nullable q
nullable (star p) = true

abbrev join : Regexp → Regexp → Regexp
join never q = never
join empty q = q
join p q = in_order p q

abbrev choose : Regexp → Regexp → Regexp
choose never q = q
choose p never = p
choose p q = either p q

-- What must follow the byte.
unfoldable pub derivative : Regexp → ℕ → Regexp
unfolding nullable
derivative never b = never
derivative empty b = never
derivative (class c) b = if c b then empty else never
derivative (in_order p q) b =
    let first = join (derivative p b) q in
    let second = derivative q b in if nullable p then choose first second else first
derivative (either p q) b = choose (derivative p b) (derivative q b)
derivative (star p) b = join (derivative p b) (star p)

-- MatchString of a pattern between ^ and $.
unfoldable pub match_string : Regexp → Bytes → Bool
unfolding nullable derivative
match_string p [] = nullable p
match_string p (b ∷ s) = match_string (derivative p b) s

-- The pattern p+.
abbrev pub plus : Regexp → Regexp
plus p = in_order p (star p)

-- The pattern p{n}.
abbrev pub times : ℕ → Regexp → Regexp
times zero p = empty
times (suc n) p = in_order p (times n p)

-- The pattern (?:p)?
abbrev pub optional : Regexp → Regexp
optional p = either empty p

abbrev pub literal : Bytes → Regexp
literal [] = empty
literal (c ∷ s) = in_order (class (λ b. b == c)) (literal s)

abbrev pub is_digit : ℕ → Bool
is_digit b = leb b'0' b && leb b b'9'

abbrev pub is_lower_hex : ℕ → Bool
is_lower_hex b = is_digit b || leb b'a' b && leb b b'f'

abbrev pub is_word : ℕ → Bool
is_word b = is_digit b || leb b'A' b && leb b b'Z' || leb b'a' b && leb b b'z'

-- The class \S
abbrev pub is_no_space : ℕ → Bool
is_no_space b = not (b == 9 || b == 10 || b == 12 || b == 13 || b == 32)
