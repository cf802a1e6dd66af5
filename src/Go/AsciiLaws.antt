-- ===== src/Go/AsciiLaws.antt =====
-- Text of printable ASCII without spaces: it decodes to itself and has nothing to trim.
use client_api.Prelude.{
  Bytes, ℕ, ◌≤◌, ◌<◌, ◌≡◌, refl, some, [], ◌∷◌, reverse, All, All-append, arith,
}
use client_api.Go.Strings.{space_width, space_width_reversed, trim_space}
use client_api.Go.Strings.TrimLaws.{trim_space_of_trimmed}
use client_api.Go.Utf8.{complete, decode_from, decode_runes}
use mathlib.Core.List.{reverse-cons}

-- Above the space and below DEL.
abbrev pub IsGraphic : ℕ → Type 0
IsGraphic c = (0x21 ≤ c) × (c < 0x7f)

pub All-reverse {ℓ} : (P : ℕ → Type ℓ) (s : Bytes) → All P s → All P (reverse s)
All-reverse P [] h = tt
All-reverse P (c ∷ s) (p, h) =
    rw reverse-cons (All-append P (reverse s) (c ∷ []) (All-reverse P s h) (p, tt))

decode_from_complete : (r : ℕ) (s : Bytes) → All IsGraphic s → decode_from (complete r) s ≡ some s
unfolding decode_from
decode_from_complete r [] h = refl
decode_from_complete r (c ∷ s) (p, h) = ground (arith, decode_from_complete c s h)

pub decode_runes_graphic : (s : Bytes) → All IsGraphic s → decode_runes s ≡ some s
unfolding decode_runes decode_from
decode_runes_graphic [] h = refl
decode_runes_graphic (c ∷ s) (p, h) = ground (arith, decode_from_complete c s h)

space_width_graphic : (s : Bytes) → All IsGraphic s → space_width s ≡ 0
unfolding space_width
space_width_graphic [] h = refl
space_width_graphic (a ∷ []) (p, h) = ground arith
space_width_graphic (a ∷ b ∷ []) (p, h) = ground arith
space_width_graphic (a ∷ b ∷ c ∷ s) (p, h) = ground arith

space_width_reversed_graphic : (s : Bytes) → All IsGraphic s → space_width_reversed s ≡ 0
unfolding space_width_reversed
space_width_reversed_graphic [] h = refl
space_width_reversed_graphic (a ∷ []) (p, h) = ground arith
space_width_reversed_graphic (a ∷ b ∷ []) (p, h) = ground arith
space_width_reversed_graphic (a ∷ b ∷ c ∷ s) (p, h) = ground arith

pub trim_space_graphic : (s : Bytes) → All IsGraphic s → trim_space s ≡ s
trim_space_graphic s h =
    trim_space_of_trimmed s (space_width_graphic s h)
      (space_width_reversed_graphic (reverse s) (All-reverse IsGraphic s h))
