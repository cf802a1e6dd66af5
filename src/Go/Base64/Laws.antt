-- ===== src/Go/Base64/Laws.antt =====
-- Decoding what was encoded without padding gives the bytes back.
use client_api.Prelude.{
  Bytes, ℕ, ◌+◌, ◌*◌, ◌/◌, ◌%◌, ◌<◌, ◌≡◌, refl, false, some, [], ◌∷◌, All, arith, ◌≢◌,
}
use client_api.Go.AsciiLaws.{IsGraphic}
use client_api.Go.Base64.{
  Encoding, raw_url_encoding, raw_url_strict, letter, letter_value, encode, decode, decode_groups,
  drop_breaks, last_of_two, last_of_three, group_of_four, last_group,
}

abbrev pub IsByte : ℕ → Type 0
IsByte b = b < 256

-- The letters of an encoding are told apart, and none is a line break.
pub record IsProper (enc : Encoding) : Type 0 where
  pub value : (v : ℕ) → v < 64 → letter_value enc (letter enc v) ≡ some v
  pub no_lf : (v : ℕ) → letter enc v ≢ 10
  pub no_cr : (v : ℕ) → letter enc v ≢ 13

module _ (enc : Encoding) (raw : enc.padded ≡ false) (proper : IsProper enc) where
  no_breaks : (v : ℕ) (s : Bytes) → drop_breaks (letter enc v ∷ s) ≡ letter enc v ∷ drop_breaks s
  unfolding drop_breaks
  no_breaks v s = ground (arith, proper.no_lf v, proper.no_cr v)

  drop_breaks_nil : drop_breaks [] ≡ []
  unfolding drop_breaks
  drop_breaks_nil = refl

  drop_breaks-encode : (bs : Bytes) → drop_breaks (encode enc bs) ≡ encode enc bs
  unfolding encode
  drop_breaks-encode [] = drop_breaks_nil
  drop_breaks-encode (a ∷ []) = simp (raw, no_breaks, drop_breaks_nil)
  drop_breaks-encode (a ∷ b ∷ []) = simp (raw, no_breaks, drop_breaks_nil)
  drop_breaks-encode (a ∷ b ∷ c ∷ rest) = simp (no_breaks, drop_breaks-encode rest)

  decode_groups_step :
      (p q r s : ℕ) (rest : Bytes)
      → decode_groups enc (p ∷ q ∷ r ∷ s ∷ rest)
        ≡ group_of_four enc p q r s (decode_groups enc rest)
  unfolding decode_groups last_group
  decode_groups_step p q r s [] = rw raw
  decode_groups_step p q r s (t ∷ rest) = refl

  last_of_two-encode :
      (a : ℕ)
      → IsByte a
      → last_of_two enc (letter enc (a / 4)) (letter enc (a % 4 * 16)) ≡ some (a ∷ [])
  unfolding last_of_two
  last_of_two-encode a h =
      ground (arith, proper.value (a / 4) (omega arith), proper.value (a % 4 * 16) (omega arith))

  last_of_three-encode :
      (a b : ℕ)
      → IsByte a
      → IsByte b
      → last_of_three enc
          (letter enc (a / 4))
          (letter enc (a % 4 * 16 + b / 16))
          (letter enc (b % 16 * 4))
        ≡ some (a ∷ b ∷ [])
  unfolding last_of_three
  last_of_three-encode a b h k = ground (
    arith,
    proper.value (a / 4) (omega arith),
    proper.value (a % 4 * 16 + b / 16) (omega arith),
    proper.value (b % 16 * 4) (omega arith),
  )

  group_of_four-encode :
      (a b c : ℕ) (rest : Bytes)
      → IsByte a
      → IsByte b
      → IsByte c
      → group_of_four enc
          (letter enc (a / 4))
          (letter enc (a % 4 * 16 + b / 16))
          (letter enc (b % 16 * 4 + c / 64))
          (letter enc (c % 64))
          (some rest)
        ≡ some (a ∷ b ∷ c ∷ rest)
  unfolding group_of_four
  group_of_four-encode a b c rest h k l = ground (
    arith,
    proper.value (a / 4) (omega arith),
    proper.value (a % 4 * 16 + b / 16) (omega arith),
    proper.value (b % 16 * 4 + c / 64) (omega arith),
    proper.value (c % 64) (omega arith),
  )

  decode_groups-encode : (bs : Bytes) → All IsByte bs → decode_groups enc (encode enc bs) ≡ some bs
  unfolding encode
  decode_groups-encode [] h = unfold decode_groups in refl
  decode_groups-encode (a ∷ []) (h, _) =
      simp raw (unfold decode_groups in simp raw (last_of_two-encode a h))
  decode_groups-encode (a ∷ b ∷ []) (h, (k, _)) =
      simp raw (unfold decode_groups in simp raw (last_of_three-encode a b h k))
  decode_groups-encode (a ∷ b ∷ c ∷ rest) (h, (k, (l, m))) =
      rw decode_groups_step
        (rw (decode_groups-encode rest m) (group_of_four-encode a b c rest h k l))

  pub decode-encode : (bs : Bytes) → All IsByte bs → decode enc (encode enc bs) ≡ some bs
  unfolding decode
  decode-encode bs h = rw drop_breaks-encode (decode_groups-encode bs h)

pub raw_url-IsProper : IsProper raw_url_encoding
unfolding letter letter_value
raw_url-IsProper = record {
  value = λ v h. ground arith;
  no_lf = λ v e. ground arith;
  no_cr = λ v e. ground arith;
}

pub raw_url_strict-IsProper : IsProper raw_url_strict
unfolding letter letter_value
raw_url_strict-IsProper = record {
  value = λ v h. ground arith;
  no_lf = λ v e. ground arith;
  no_cr = λ v e. ground arith;
}

-- Decoding what RawURLEncoding wrote gives the bytes back.
pub raw_url-decode-encode :
    (bs : Bytes) → All IsByte bs → decode raw_url_encoding (encode raw_url_encoding bs) ≡ some bs
raw_url-decode-encode = decode-encode raw_url_encoding refl raw_url-IsProper

-- So for the strict decoder.
pub raw_url_strict-decode-encode :
    (bs : Bytes) → All IsByte bs → decode raw_url_strict (encode raw_url_strict bs) ≡ some bs
raw_url_strict-decode-encode = decode-encode raw_url_strict refl raw_url_strict-IsProper

letter-IsGraphic : (v : ℕ) → IsGraphic (letter raw_url_encoding v)
unfolding letter
letter-IsGraphic v = ground arith

-- RawURLEncoding writes printable ASCII without spaces.
pub encode-IsGraphic : (bs : Bytes) → All IsGraphic (encode raw_url_encoding bs)
unfolding encode
encode-IsGraphic [] = tt
encode-IsGraphic (a ∷ []) = (letter-IsGraphic (a / 4), (letter-IsGraphic (a % 4 * 16), tt))
encode-IsGraphic (a ∷ b ∷ []) = (
  letter-IsGraphic (a / 4),
  (letter-IsGraphic (a % 4 * 16 + b / 16), (letter-IsGraphic (b % 16 * 4), tt)),
)
encode-IsGraphic (a ∷ b ∷ c ∷ rest) = (
  letter-IsGraphic (a / 4),
  (
    letter-IsGraphic (a % 4 * 16 + b / 16),
    (letter-IsGraphic (b % 16 * 4 + c / 64), (letter-IsGraphic (c % 64), encode-IsGraphic rest)),
  ),
)
