-- ===== src/Wireguard/HostnameLaws.antt =====
-- Which hostnames are accepted.
use client_api.Prelude.{
  Bytes, ltb, beq_refl, bytes_beq, bytes_eq, ℕ, suc, ◌+◌, ◌≤◌, ◌<◌, ◌≡◌, ◌↔◌, ◌⊎◌, refl, Bool, true,
  false, ◌||◌, List, [], ◌∷◌, ◌==◌, nat_eq, length, All, All-map, any, ok, >>-eq-ok, reject-eq-ok,
  for_each-eq-ok, for_each-All, inl, inr, Bool-cases, arith,
}
use client_api.Go.Strings.{split, push_head}
use client_api.Go.AsciiLaws.{IsGraphic, decode_runes_graphic, trim_space_graphic}
use client_api.Wireguard.{
  is_blank_or_untrimmed, is_alphanumeric, validate_label_from, validate_label, validate_hostname,
  validate_safe_text, is_unsafe_rune,
}

abbrev pub is_label_byte : ℕ → Bool
is_label_byte c = is_alphanumeric c || c == b'-'

-- What follows a label's first byte: letters, digits and hyphens, the last one no hyphen.
abbrev pub IsLabelTail : Bytes → Type 0
IsLabelTail [] = Unit
IsLabelTail (c ∷ []) = is_alphanumeric c ≡ true
IsLabelTail (c ∷ d ∷ s) = (is_label_byte c ≡ true) × IsLabelTail (d ∷ s)

-- An RFC 1123 label.
abbrev pub IsLabel : Bytes → Type 0
IsLabel [] = ⊥
IsLabel (c ∷ s) = (is_alphanumeric c ≡ true) × IsLabelTail s × (length s < 63)

-- An RFC 1123 host name.
abbrev pub IsHostname : Bytes → Type 0
IsHostname v = (0 < length v) × (length v ≤ 253) × All IsLabel (split v b'.')

label_from_sound :
    (i len : ℕ) (s : Bytes)
    → 0 < i
    → i + length s ≡ len
    → validate_label_from i len s ≡ ok tt
    → IsLabelTail s
unfolding validate_label_from
label_from_sound i len [] p e h = tt
label_from_sound i len (c ∷ []) p e h = ground arith
label_from_sound i len (c ∷ d ∷ s) p e h =
    let (h1, h2) = reject-eq-ok _ _ (validate_label_from (i + 1) len (d ∷ s)) h in
    (ground arith, label_from_sound (i + 1) len (d ∷ s) (omega arith) (omega arith) h2)

label_from_complete :
    (i len : ℕ) (s : Bytes)
    → 0 < i
    → i + length s ≡ len
    → IsLabelTail s
    → validate_label_from i len s ≡ ok tt
unfolding validate_label_from
label_from_complete i len [] p e h = refl
label_from_complete i len (c ∷ []) p e h = ground arith
label_from_complete i len (c ∷ d ∷ s) p e (h, k) =
    ground (arith, label_from_complete (i + 1) len (d ∷ s) (omega arith) (omega arith) k)

validate_label_iff : (s : Bytes) → (validate_label s ≡ ok tt) ↔ IsLabel s
unfolding validate_label
validate_label_iff [] = ground arith
validate_label_iff (c ∷ s) = (
  λ h.
      let (h1, h2) = reject-eq-ok _ _ (validate_label_from 0 (suc (length s)) (c ∷ s)) h in
      unfold validate_label_from in
      let (h3, h4) = reject-eq-ok _ _ (validate_label_from 1 (suc (length s)) s) h2 in
      (
        ground arith,
        label_from_sound 1 (suc (length s)) s (omega arith) (omega arith) h4,
        ground arith,
      ),
  λ h.
      unfold validate_label_from in
      ground (arith, label_from_complete 1 (suc (length s)) s (omega arith) (omega arith) h.1),
)

push_head-All :
    (P : ℕ → Type 0) (c : ℕ) (ps : List Bytes) → All (All P) (push_head c ps) → P c × All (All P) ps
push_head-All P c [] h = (h.0.0, tt)
push_head-All P c (p ∷ ps) h = (h.0.0, (h.0.1, h.1))

-- The bytes of a string are the separators and the bytes of its parts.
split_bytes :
    (P : ℕ → Type 0) (sep : ℕ) (s : Bytes)
    → All (All P) (split s sep)
    → All (λ c. P c ⊎ (c ≡ sep)) s
unfolding split
split_bytes P sep [] h = tt
split_bytes P sep (c ∷ s) h = elim (Bool-cases (c == sep)) [
  | inl e ↦
      let k : All (All P) ([] ∷ split s sep) = rw e at h in
      (inr (ground arith), split_bytes P sep s k.1)
  | inr e ↦
      let k = push_head-All P c (split s sep) (rw e at h) in (inl k.0, split_bytes P sep s k.1)
]

IsLabelTail-bytes : (s : Bytes) → IsLabelTail s → All (λ c. is_label_byte c ≡ true) s
IsLabelTail-bytes [] h = tt
IsLabelTail-bytes (c ∷ []) h = (ground arith, tt)
IsLabelTail-bytes (c ∷ d ∷ s) (h, k) = (h, IsLabelTail-bytes (d ∷ s) k)

IsLabel-bytes : (s : Bytes) → IsLabel s → All (λ c. is_label_byte c ≡ true) s
IsLabel-bytes [] h = absurd h
IsLabel-bytes (c ∷ s) h = (ground arith, IsLabelTail-bytes s h.1)

label_byte-IsGraphic : (c : ℕ) → (is_label_byte c ≡ true) ⊎ (c ≡ b'.') → IsGraphic c
label_byte-IsGraphic c (inl h) = ground arith
label_byte-IsGraphic c (inr h) = ground arith

IsHostname-bytes : (v : Bytes) → IsHostname v → All (λ c. (is_label_byte c ≡ true) ⊎ (c ≡ b'.')) v
IsHostname-bytes v h =
    split_bytes (λ c. is_label_byte c ≡ true) b'.' v
      (All-map IsLabel (All (λ c. is_label_byte c ≡ true)) IsLabel-bytes (split v b'.') h.2)

any_unsafe_graphic : (s : Bytes) → All IsGraphic s → any is_unsafe_rune s ≡ false
unfolding any
any_unsafe_graphic [] h = refl
any_unsafe_graphic (c ∷ s) (p, h) = ground (arith, any_unsafe_graphic s h)

-- Graphic ASCII passes the first two checks of every validator of this package.
pub validate_safe_text_graphic : (s : Bytes) → All IsGraphic s → validate_safe_text s ≡ ok tt
unfolding validate_safe_text
validate_safe_text_graphic s h = simp (decode_runes_graphic s h, any_unsafe_graphic s h)

pub trimmed_graphic : (s : Bytes) → 0 < length s → All IsGraphic s → is_blank_or_untrimmed s ≡ false
unfolding bytes_beq
trimmed_graphic [] p h = elim p [ ]
trimmed_graphic (c ∷ s) p h = rw (trim_space_graphic (c ∷ s) h) (ground (arith, beq_refl s))

pub nonempty_of_trimmed : (v : Bytes) → is_blank_or_untrimmed v ≡ false → 0 < length v
unfolding bytes_beq
nonempty_of_trimmed [] h = absurd (ground arith)
nonempty_of_trimmed (c ∷ s) h = omega arith

-- A hostname is accepted exactly when it is an RFC 1123 host name: not empty, of at most 253 bytes,
-- every label between the dots of 1 to 63 letters, digits and hyphens, with no hyphen at its ends.
pub validate_hostname_iff : (v : Bytes) → (validate_hostname v ≡ ok tt) ↔ IsHostname v
unfolding validate_hostname
validate_hostname_iff v = (
  λ h.
      let (h1, h2) = >>-eq-ok (validate_safe_text v) _ h in
      let (h3, h4) = reject-eq-ok (is_blank_or_untrimmed v) _ _ h2 in
      let (h5, h6) = reject-eq-ok (ltb 253 (length v)) _ _ h4 in
      (
        nonempty_of_trimmed v h3,
        ground arith,
        All-map (λ l. validate_label l ≡ ok tt) IsLabel (λ l. (validate_label_iff l).0)
            (split v b'.') (for_each-eq-ok validate_label (split v b'.') h6),
      ),
  λ h.
      let graphic = All-map _ IsGraphic label_byte-IsGraphic v (IsHostname-bytes v h) in
      let labels = All-map IsLabel _ (λ l. (validate_label_iff l).1) (split v b'.') h.2 in
      simp
        (
          validate_safe_text_graphic v graphic,
          trimmed_graphic v h.0 graphic,
          for_each-All validate_label (split v b'.') labels,
        )
        (ground arith),
)
