-- ===== src/Go/Net.antt =====
-- `net.SplitHostPort`, and the decimal numbers of package `strconv`.
pub mod Digits
use client_api.Prelude.{
  Bytes, ℕ, zero, suc, ◌+◌, ◌-◌, ◌*◌, ◌/◌, ◌%◌, ◌^◌, Bool, not, ◌&&◌, ◌||◌, Option, none, some, [],
  ◌∷◌, leb, ltb, ◌==◌, nat_eq, ℤ, pos, negsuc, reverse, if◌then◌else◌,
}
use client_api.Go.Strings.{contains_byte}

abbrev with_head : ℕ → Option (Bytes × Bytes) → Option (Bytes × Bytes)
with_head c none = none
with_head c (some (s, t)) = some (c ∷ s, t)

-- The text before and behind the first `sep`.
unfoldable pub cut_first : ℕ → Bytes → Option (Bytes × Bytes)
cut_first sep [] = none
cut_first sep (c ∷ s) =
    let rest = cut_first sep s in if c == sep then some ([], s) else with_head c rest

abbrev swap_reversed : Option (Bytes × Bytes) → Option (Bytes × Bytes)
swap_reversed none = none
swap_reversed (some (s, t)) = some (reverse t, reverse s)

-- The text before and behind the last `sep`.
unfoldable pub cut_last : ℕ → Bytes → Option (Bytes × Bytes)
unfolding cut_first
cut_last sep s = swap_reversed (cut_first sep (reverse s))

-- No bracket is left in the host and the port.
unfoldable pub has_bracket : Bytes → Bool
unfolding contains_byte
has_bracket s = contains_byte s b'[' || contains_byte s b']'

-- Without brackets the port follows the last colon, and the host holds none.
abbrev pub plain_host : Option (Bytes × Bytes) → Option (Bytes × Bytes)
plain_host none = none
plain_host (some (host, port)) =
    if contains_byte host b':' || has_bracket host || has_bracket port
    then none
    else some (host, port)

-- `[host]:port`, given what follows `[`, cut at the first `]`; the port's colon is the last one.
abbrev pub bracketed_host : Option (Bytes × Bytes) → Option (Bytes × Bytes)
bracketed_host none = none
bracketed_host (some (host, [])) = none
bracketed_host (some (host, c ∷ port)) =
    if not (c == b':') || contains_byte port b':' || contains_byte host b'[' || has_bracket port
    then none
    else some (host, port)

-- net.SplitHostPort; `none` is its error.
unfoldable pub split_host_port : Bytes → Option (Bytes × Bytes)
unfolding contains_byte cut_first cut_last has_bracket
split_host_port [] = none
split_host_port (c ∷ s) =
    if c == b'[' then bracketed_host (cut_first b']' s) else plain_host (cut_last b':' (c ∷ s))

unfoldable pub digits_value : ℕ → Bytes → Option ℕ
digits_value acc [] = some acc
digits_value acc (c ∷ s) =
    let rest = digits_value (acc * 10 + (c - b'0')) s in
    if leb b'0' c && leb c b'9' then rest else none

-- A number below `limit`, from one digit or more.
unfoldable pub parse_digits : ℕ → Bytes → Option ℕ
unfolding digits_value
parse_digits limit [] = none
parse_digits limit (c ∷ s) = elim (digits_value 0 (c ∷ s)) [
  | none ↦ none
  | some n ↦ if ltb n limit then some n else none
]

abbrev pub negate : ℕ → ℤ
negate zero = pos 0
negate (suc n) = negsuc n

abbrev pub with_sign : (ℕ → ℤ) → Option ℕ → Option ℤ
with_sign f none = none
with_sign f (some n) = some (f n)

-- strconv.Atoi on a 64-bit int; `none` is its error.
unfoldable pub atoi : Bytes → Option ℤ
unfolding parse_digits
atoi [] = none
atoi (c ∷ s) =
    if c == b'-'
    then with_sign negate (parse_digits (2 ^ 63 + 1) s)
    else if c == b'+'
    then with_sign pos (parse_digits (2 ^ 63) s)
    else with_sign pos (parse_digits (2 ^ 63) (c ∷ s))

-- The decimal digits of a number below 10 ^ fuel, before `rest`.
unfoldable pub digits_before : ℕ → ℕ → Bytes → Bytes
digits_before zero n rest = rest
digits_before (suc fuel) n rest =
    let more = digits_before fuel (n / 10) ((n % 10 + b'0') ∷ rest) in
    if ltb n 10 then (n + b'0') ∷ rest else more

-- strconv.Itoa of an int from 0: 20 digits are enough for 64 bits.
unfoldable pub itoa : ℕ → Bytes
unfolding digits_before
itoa n = digits_before 20 n []
