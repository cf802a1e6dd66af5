-- ===== src/LineIo/Laws.antt =====
-- What is read stays within the limit, and a line that fits is read whole.
use client_api.Prelude.{
  Bytes, ℕ, ◌+◌, ◌≤◌, ◌<◌, ◌≡◌, [], ◌∷◌, ◌++◌, List, length, length-append, pos, arith, ap, ◌∙◌,
}
use mathlib.Core.List.{append_assoc}
use native.Mathlib.Decide.{dec_le}
use client_api.Errors.{line_too_large}
use client_api.LineIo.{
  Status, delimited, buffer_full, Reader, Line, line, at_eof, at_failure, refused, read_slices,
  read_bounded_line,
}

-- The bytes that a result carries.
abbrev pub carried : Line → Bytes
carried (line out) = out
carried (at_eof out) = out
carried (at_failure out) = out
carried (refused e) = []

read_slices_bounded :
    (m : ℕ) (out : Bytes) (r : Reader)
    → length out ≤ m
    → length (carried (read_slices (pos m) out r).0) ≤ m
unfolding read_slices
read_slices_bounded m out [] h = h
read_slices_bounded m out (s ∷ rest) h =
    ground (arith, read_slices_bounded m (out ++ s.part) rest, length-append out s.part)

-- Whatever the reader delivers, the bytes returned are no more than the limit.
pub read_bounded_line-bounded :
    (r : Reader) (max_bytes : ℕ)
    → length (carried (read_bounded_line r (pos max_bytes)).0) ≤ max_bytes
unfolding read_bounded_line
read_bounded_line-bounded r m = ground (arith, read_slices_bounded m [] r)

-- The buffers that are filled before the delimiter comes.
abbrev pub full_buffers : List Bytes → Reader → Reader
full_buffers [] r = r
full_buffers (p ∷ ps) r = record { part = p; status = buffer_full } ∷ full_buffers ps r

abbrev pub joined : List Bytes → Bytes → Bytes
joined [] last = last
joined (p ∷ ps) last = p ++ joined ps last

abbrev pub line_in : List Bytes → Bytes → Reader → Reader
line_in ps last rest = full_buffers ps (record { part = last; status = delimited } ∷ rest)

module _ (m : ℕ) (last : Bytes) (rest : Reader) where
  over_limit :
      (out p : Bytes) (st : Status) (r : Reader)
      → length out ≤ m
      → m < length out + length p
      → read_slices (pos m) out (record { part = p; status = st } ∷ r) ≡ (refused line_too_large, r)
  unfolding read_slices
  over_limit out p st r k h = ground arith

  next_buffer :
      (out p : Bytes) (r : Reader)
      → length out + length p ≤ m
      → read_slices (pos m) out (record { part = p; status = buffer_full } ∷ r)
        ≡ read_slices (pos m) (out ++ p) r
  unfolding read_slices
  next_buffer out p r h = ground arith

  read_slices_fits :
      (out : Bytes) (ps : List Bytes)
      → length out + length (joined ps last) ≤ m
      → read_slices (pos m) out (line_in ps last rest) ≡ (line (out ++ joined ps last), rest)
  read_slices_fits out [] h = unfold read_slices in ground arith
  read_slices_fits out (p ∷ ps) h =
      let len = length-append p (joined ps last) in
      next_buffer out p (line_in ps last rest) (omega (arith, len))
      ∙ read_slices_fits (out ++ p) ps (omega (arith, len, length-append out p))
      ∙ ap (λ b. (line b, rest)) (append_assoc out p (joined ps last))

  read_slices_too_large :
      (out : Bytes) (ps : List Bytes)
      → length out ≤ m
      → m < length out + length (joined ps last)
      → (read_slices (pos m) out (line_in ps last rest)).0 ≡ refused line_too_large
  read_slices_too_large out [] k h = ap (λ p. p.0) (over_limit out last delimited rest k h)
  read_slices_too_large out (p ∷ ps) k h = elim (dec_le (length out + length p) m) [
    | yes fits ↦
        ap (λ q. q.0) (next_buffer out p (line_in ps last rest) fits)
        ∙ read_slices_too_large (out ++ p) ps (omega (arith, length-append out p))
            (omega (arith, length-append out p, length-append p (joined ps last)))
    | no over ↦ ap (λ q. q.0) (over_limit out p buffer_full (line_in ps last rest) k (omega arith))
  ]

  -- A line that arrives in any number of buffers is returned whole, and the reader stands behind
  -- it, if it is no longer than the limit.
  pub read_bounded_line-line :
      (ps : List Bytes)
      → 0 < m
      → length (joined ps last) ≤ m
      → read_bounded_line (line_in ps last rest) (pos m) ≡ (line (joined ps last), rest)
  unfolding read_bounded_line
  read_bounded_line-line ps p h = ground (arith, read_slices_fits [] ps)

  -- A line that is longer than the limit is refused as too large, whatever the buffers.
  pub read_bounded_line-refused :
      (ps : List Bytes)
      → 0 < m
      → m < length (joined ps last)
      → (read_bounded_line (line_in ps last rest) (pos m)).0 ≡ refused line_too_large
  unfolding read_bounded_line
  read_bounded_line-refused ps p h = ground (arith, read_slices_too_large [] ps)
