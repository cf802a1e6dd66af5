-- ===== src/Api/Events.antt =====
-- Reading the map stream ends.
use client_api.Prelude.{
  Bytes, bytes_eq, ℕ, zero, suc, ◌≤◌, ◌<◌, ◌≡◌, refl, some, [], ◌∷◌, ◌++◌, int_eq, length, ℤ, pos,
  Result, arith,
}
use client_api.Types.Map.{MapStreamEvent}
use client_api.External.{External}
use client_api.LineIo.{Reader, Slice, at_eof, read_slices, read_bounded_line}
use client_api.Api.{CallError}
use client_api.Api.Stream.{
  max_control_map_stream_event_bytes, Turn, again, done, turn_of, next_line, read_events,
}

read_slices_no_longer :
    (m : ℤ) (out : Bytes) (r : Reader) → length (read_slices m out r).1 ≤ length r
unfolding read_slices
read_slices_no_longer m out [] = omega arith
read_slices_no_longer m out (s ∷ rest) =
    ground (arith, read_slices_no_longer m (out ++ s.part) rest)

-- A line takes at least one slice off the reader.
read_slices_shorter :
    (m : ℤ) (out : Bytes) (s : Slice) (rest : Reader)
    → length (read_slices m out (s ∷ rest)).1 ≤ length rest
unfolding read_slices
read_slices_shorter m out s rest = ground (arith, read_slices_no_longer m (out ++ s.part) rest)

read_bounded_line_shorter :
    (s : Slice) (rest : Reader) → length (next_line (s ∷ rest)).1 ≤ length rest
unfolding read_bounded_line
read_bounded_line_shorter s rest =
    read_slices_shorter (pos max_control_map_stream_event_bytes) [] s rest

next_line_of_nothing : (next_line []).0 ≡ at_eof []
unfolding read_bounded_line read_slices
next_line_of_nothing = refl

module _ ⦃x : External⦄ where
  by_turn :
      (f g : ℕ) (reader : Reader) (t : Turn)
      → turn_of (next_line reader).0 ≡ t
      → ((r : Result CallError MapStreamEvent) × (read_events f (next_line reader).1 ≡ some r)
          × (read_events g (next_line reader).1 ≡ some r))
      → (r : Result CallError MapStreamEvent) × (read_events (suc f) reader ≡ some r)
        × (read_events (suc g) reader ≡ some r)
  unfolding read_events
  by_turn f g reader again h (r, a, b) = (r, rw (h, read_events) a, rw (h, read_events) b)
  by_turn f g reader (done r) h rest = (r, rw (h, read_events) refl, rw (h, read_events) refl)

  at_end :
      (f g : ℕ)
      → (r : Result CallError MapStreamEvent) × (read_events (suc f) [] ≡ some r)
        × (read_events (suc g) [] ≡ some r)
  unfolding read_events turn_of read_bounded_line read_slices
  at_end f g = (_, refl, refl)

  both_end :
      (f g : ℕ) (reader : Reader)
      → length reader < f
      → length reader < g
      → (r : Result CallError MapStreamEvent) × (read_events f reader ≡ some r)
        × (read_events g reader ≡ some r)
  both_end zero g reader h k = ground arith
  both_end (suc f) zero reader h k = ground arith
  both_end (suc f) (suc g) [] h k = at_end f g
  both_end (suc f) (suc g) (s ∷ rest) h k =
      let shorter = read_bounded_line_shorter s rest in
      by_turn f g (s ∷ rest) (turn_of (next_line (s ∷ rest)).0) refl
        (both_end f g (next_line (s ∷ rest)).1 (omega (arith, shorter)) (omega (arith, shorter)))

  -- Reading the map stream ends: with a turn more than the reader has slices, or any more, the loop
  -- returns, and always the same.
  pub read_events-enough :
      (fuel : ℕ) (reader : Reader)
      → length reader < fuel
      → (r : Result CallError MapStreamEvent) × (read_events fuel reader ≡ some r)
        × (read_events (suc (length reader)) reader ≡ some r)
  read_events-enough fuel reader h = both_end fuel (suc (length reader)) reader h (omega arith)
