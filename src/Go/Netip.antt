-- ===== src/Go/Netip.antt =====
-- Package `net/netip`: addresses as numbers, prefixes with their length plus one, as in Go.
pub mod Covers
use client_api.Prelude.{
  Bytes, bytes_eq, ℕ, ◌-◌, ◌*◌, ◌/◌, ◌^◌, Bool, true, false, not, ◌&&◌, [], ◌==◌, nat_eq, leb,
  if◌then◌else◌,
}

pub data Addr : Type 0 where
  -- the zero value
  unset : Addr
  v4 : ℕ → Addr
  -- an IPv6 address and its zone
  v6 : ℕ → Bytes → Addr

pub record Prefix : Type 0 where
  pub ip : Addr
  pub bits_plus_one : ℕ

abbrev pub zero_prefix : Prefix
zero_prefix = record { ip = unset; bits_plus_one = 0 }

abbrev pub bit_len : Addr → ℕ
bit_len unset = 0
bit_len (v4 n) = 32
bit_len (v6 n z) = 128

abbrev pub zone : Addr → Bytes
zone (v6 n z) = z
zone unset = []
zone (v4 n) = []

abbrev pub number : Addr → ℕ
number unset = 0
number (v4 n) = n
number (v6 n z) = n

-- Addr.IsValid
abbrev pub is_valid_addr : Addr → Bool
is_valid_addr unset = false
is_valid_addr (v4 n) = true
is_valid_addr (v6 n z) = true

-- Addr.Is4In6: the upper 96 bits are ::ffff:0:0.
unfoldable pub is_4_in_6 : Addr → Bool
is_4_in_6 unset = false
is_4_in_6 (v4 n) = false
is_4_in_6 (v6 n z) = n / 2 ^ 32 == 0xffff

abbrev pub same_number : Addr → Addr → Bool
same_number a b = bit_len a == bit_len b && number a == number b

unfoldable pub addr_beq : Addr → Addr → Bool
addr_beq a b = same_number a b && zone a == zone b

-- Prefix.IsValid
abbrev pub is_valid_prefix : Prefix → Bool
is_valid_prefix p = not (p.bits_plus_one == 0)

-- Prefix.Bits of a valid prefix
abbrev pub prefix_bits : Prefix → ℕ
prefix_bits p = p.bits_plus_one - 1

-- The network part of an address under a mask of `b` bits.
abbrev pub network : Addr → ℕ → ℕ
network a b = number a / 2 ^ (bit_len a - b)

abbrev pub mask_addr : Addr → ℕ → Addr
mask_addr unset b = unset
mask_addr (v4 n) b = v4 (n / 2 ^ (32 - b) * 2 ^ (32 - b))
mask_addr (v6 n z) b = v6 (n / 2 ^ (128 - b) * 2 ^ (128 - b)) []

-- Prefix.Masked
unfoldable pub masked : Prefix → Prefix
masked p = record { ip = mask_addr p.ip (prefix_bits p); bits_plus_one = p.bits_plus_one }

-- `==` on prefixes
unfoldable pub prefix_beq : Prefix → Prefix → Bool
unfolding addr_beq
prefix_beq p q = addr_beq p.ip q.ip && p.bits_plus_one == q.bits_plus_one

-- Prefix.Contains
unfoldable pub prefix_contains : Prefix → Addr → Bool
prefix_contains p a =
    is_valid_prefix p
    && zone a == []
    && bit_len p.ip == bit_len a
    && network p.ip (prefix_bits p) == network a (prefix_bits p)

abbrev pub min_bits : Prefix → Prefix → ℕ
min_bits p q = if leb (prefix_bits p) (prefix_bits q) then prefix_bits p else prefix_bits q

-- Prefix.Overlaps
unfoldable pub overlaps : Prefix → Prefix → Bool
overlaps p q =
    is_valid_prefix p
    && is_valid_prefix q
    && bit_len p.ip == bit_len q.ip
    && network p.ip (min_bits p q) == network q.ip (min_bits p q)

-- netip.PrefixFrom at the full length, which drops the zone
abbrev pub host_prefix : Addr → Prefix
host_prefix unset = zero_prefix
host_prefix (v4 n) = record { ip = v4 n; bits_plus_one = 33 }
host_prefix (v6 n z) = record { ip = v6 n []; bits_plus_one = 129 }
