-- ===== src/Api/Usable.antt =====
-- What ReadMapStreamEvent returns is an event to act on.
use mathlib.Core.List.{Memᴰ}
use client_api.Prelude.{
  Bytes, bytes_eq, bytes_beq_iff, ℕ, zero, suc, ◌≤◌, ◌≡◌, ◌≢◌, refl, sym, ap, ◌∙◌, true, not,
  Option, some, none, List, [], ◌∷◌, ◌==◌, int_eq, int_beq_iff, length, ℤ, pos, Result, ok, err,
  arith, >>=-eq-ok, >>-eq-ok, reject-eq-ok, ◌⊎◌, inl, inr,
}
use client_api.Types.Map.{MapCursor, MapStreamEvent}
use client_api.Types.Http.{Response}
use client_api.External.{External}
use client_api.Errors.{Error}
use client_api.LineIo.{Line, Reader, line, at_eof, at_failure, refused}
use client_api.LineIo.Laws.{carried, read_bounded_line-bounded}
use client_api.MapStream.{
  validate_map_stream_event, kind_of, Kind, heartbeat, checkpoint, snapshot, resync, delta,
}
use client_api.Api.{Api, Transport, CallError, local_errors, control_plane_urls}
use client_api.Api.Failover.{IsAnswered, run-ok}
use client_api.Api.Stream.{
  map_stream_protocol_version, map_stream_supported_capabilities, map_stream_capabilities_equal,
  max_control_map_stream_event_bytes, Turn, again, done, event_of, decode_strict_map_stream_event,
  turn_of, turn_of_event, on_kind, next_line, read_events, read_response, result_of, stream_call,
  read_map_stream_event,
}

equal_of : (got want : List Bytes) → map_stream_capabilities_equal got want ≡ true → got ≡ want
unfolding map_stream_capabilities_equal
equal_of [] [] h = refl
equal_of [] (w ∷ want) h = cc
equal_of (g ∷ got) [] h = cc
equal_of (g ∷ got) (w ∷ want) h = ground (arith, bytes_beq_iff g w, equal_of got want)

module _ ⦃x : External⦄ where
  -- The bytes are the first line that is read from these slices after heartbeats only.
  pub data IsFirstLine (raw : Bytes) : Reader → Type 0 where
    here : (reader : Reader) → (next_line reader).0 ≡ line raw → IsFirstLine raw reader
    after_heartbeat :
        (reader : Reader) (beat : Bytes) (e : MapStreamEvent)
        → (next_line reader).0 ≡ line beat
        → event_of beat ≡ ok e
        → kind_of e.type ≡ some heartbeat
        → IsFirstLine raw (next_line reader).1
        → IsFirstLine raw reader

  -- An event to act on, in these slices: of one of the four kinds that carry state, of the right
  -- shape, protocol and capabilities, and decoded from the first line, one within the limit, that
  -- follows the heartbeats.
  pub record IsUsable (reader : Reader) (e : MapStreamEvent) : Type 0 where
    pub raw : Bytes
    pub first : IsFirstLine raw reader
    pub within : length raw ≤ max_control_map_stream_event_bytes
    pub decoded : decode_strict_map_stream_event raw ≡ ok e
    pub protocol : e.protocol_version ≡ pos map_stream_protocol_version
    pub capable : e.capabilities ≡ map_stream_supported_capabilities
    pub shaped : validate_map_stream_event e ≡ ok tt
    pub kind : Kind
    pub known : kind_of e.type ≡ some kind
    pub no_heartbeat : kind ≢ heartbeat

  event_of-checked :
      (raw : Bytes) (e : MapStreamEvent)
      → event_of raw ≡ ok e
      → (decode_strict_map_stream_event raw ≡ ok e)
        × (e.protocol_version ≡ pos map_stream_protocol_version)
        × (e.capabilities ≡ map_stream_supported_capabilities)
        × (validate_map_stream_event e ≡ ok tt)
  unfolding event_of
  event_of-checked raw e h =
      let (d, a, h1) = >>=-eq-ok (decode_strict_map_stream_event raw) _ h in
      let (b, h2) =
        reject-eq-ok (not (d.protocol_version == pos map_stream_protocol_version)) _ _ h1 in
      let (c, h3) =
        reject-eq-ok
          (not (map_stream_capabilities_equal d.capabilities map_stream_supported_capabilities)) _ _
          h2 in
      let (v, h4) = >>-eq-ok (validate_map_stream_event d) _ h3 in
      let p : d ≡ e = cc h4 in
      rw (← p) (
        a,
        ground (arith, int_beq_iff d.protocol_version (pos map_stream_protocol_version)),
        equal_of d.capabilities map_stream_supported_capabilities (ground arith),
        v,
      )

  on_kind-done :
      (e d : MapStreamEvent) (k : Option Kind)
      → on_kind e k ≡ done (ok d)
      → (e ≡ d) × ((kind : Kind) × (k ≡ some kind) × (kind ≢ heartbeat))
  on_kind-done e d none h = cc
  on_kind-done e d (some heartbeat) h = cc
  on_kind-done e d (some checkpoint) h = (cc h, (checkpoint, refl, λ p. cc p))
  on_kind-done e d (some snapshot) h = (cc h, (snapshot, refl, λ p. cc p))
  on_kind-done e d (some resync) h = (cc h, (resync, refl, λ p. cc p))
  on_kind-done e d (some delta) h = (cc h, (delta, refl, λ p. cc p))

  turn_of_event-done :
      (q : Result Error MapStreamEvent) (d : MapStreamEvent)
      → turn_of_event q ≡ done (ok d)
      → (q ≡ ok d) × ((kind : Kind) × (kind_of d.type ≡ some kind) × (kind ≢ heartbeat))
  turn_of_event-done (err e) d h = cc
  turn_of_event-done (ok e) d h =
      let (p, (kind, known, n)) = on_kind-done e d (kind_of e.type) h in
      (ap ok p, (kind, ap (λ (f : MapStreamEvent). kind_of f.type) (sym p) ∙ known, n))

  turn_of-IsUsable :
      (reader : Reader) (l : Line) (e : MapStreamEvent)
      → (next_line reader).0 ≡ l
      → length (carried l) ≤ max_control_map_stream_event_bytes
      → turn_of l ≡ done (ok e)
      → IsUsable reader e
  unfolding turn_of
  turn_of-IsUsable reader (line raw) e r b h =
      let (p, (kind, known, n)) = turn_of_event-done (event_of raw) e h in
      let (a, c, d, v) = event_of-checked raw e p in
      record {
        raw = raw;
        first = IsFirstLine.here reader r;
        within = b;
        decoded = a;
        protocol = c;
        capable = d;
        shaped = v;
        kind = kind;
        known = known;
        no_heartbeat = n;
      }
  turn_of-IsUsable reader (at_eof out) e r b h = cc
  turn_of-IsUsable reader (at_failure out) e r b h = cc
  turn_of-IsUsable reader (refused p) e r b h = cc

  on_kind-again : (e : MapStreamEvent) (k : Option Kind) → on_kind e k ≡ again → k ≡ some heartbeat
  on_kind-again e none h = cc
  on_kind-again e (some heartbeat) h = refl
  on_kind-again e (some checkpoint) h = cc
  on_kind-again e (some snapshot) h = cc
  on_kind-again e (some resync) h = cc
  on_kind-again e (some delta) h = cc

  turn_of_event-again :
      (q : Result Error MapStreamEvent)
      → turn_of_event q ≡ again
      → (e : MapStreamEvent) × (q ≡ ok e) × (kind_of e.type ≡ some heartbeat)
  turn_of_event-again (err e) h = cc
  turn_of_event-again (ok e) h = (e, refl, on_kind-again e (kind_of e.type) h)

  -- A turn after which the loop goes on has read a heartbeat.
  turn_of-again :
      (reader : Reader) (l : Line) {raw : Bytes}
      → (next_line reader).0 ≡ l
      → turn_of l ≡ again
      → IsFirstLine raw (next_line reader).1
      → IsFirstLine raw reader
  unfolding turn_of
  turn_of-again reader (line beat) r h i =
      let (e, p, k) = turn_of_event-again (event_of beat) h in
      IsFirstLine.after_heartbeat reader beat e r p k i
  turn_of-again reader (at_eof out) r h i = cc
  turn_of-again reader (at_failure out) r h i = cc
  turn_of-again reader (refused p) r h i = cc

  events_turn :
      (fuel : ℕ) (reader : Reader) (t : Turn) (e : MapStreamEvent)
      → turn_of (next_line reader).0 ≡ t
      → read_events (suc fuel) reader ≡ some (ok e)
      → (turn_of (next_line reader).0 ≡ done (ok e))
        ⊎ ((turn_of (next_line reader).0 ≡ again)
            × (read_events fuel (next_line reader).1 ≡ some (ok e)))
  unfolding read_events
  events_turn fuel reader again e h k = inr (h, rw (h, read_events) at k)
  events_turn fuel reader (done r) e h k =
      let same : some r ≡ some (ok e) = rw (h, read_events) at k in inl (h ∙ ap done (cc same))

  read_events-IsUsable :
      (fuel : ℕ) (reader : Reader) (e : MapStreamEvent)
      → read_events fuel reader ≡ some (ok e)
      → IsUsable reader e
  unfolding read_events
  read_events-IsUsable zero reader e h = cc
  read_events-IsUsable (suc fuel) reader e h =
      elim (events_turn fuel reader (turn_of (next_line reader).0) e refl h) [
        | inl d ↦
            turn_of-IsUsable reader (next_line reader).0 e refl
              (read_bounded_line-bounded reader max_control_map_stream_event_bytes) d
        | inr (a, k) ↦
            let i = read_events-IsUsable fuel (next_line reader).1 e k in
            record {
              raw = i.raw;
              first = turn_of-again reader (next_line reader).0 refl a (i.first);
              within = i.within;
              decoded = i.decoded;
              protocol = i.protocol;
              capable = i.capable;
              shaped = i.shaped;
              kind = i.kind;
              known = i.known;
              no_heartbeat = i.no_heartbeat;
            }
      ]

  result-IsUsable :
      (o : Option (Result CallError MapStreamEvent)) (e : MapStreamEvent)
      → result_of o ≡ ok e
      → o ≡ some (ok e)
  result-IsUsable none e h = cc
  result-IsUsable (some r) e h = ap some h

  pub local-eq-ok : {A : Type 0} (r : Result Error A) {a : A} → local_errors r ≡ ok a → r ≡ ok a
  local-eq-ok (err e) h = cc
  local-eq-ok (ok b) h = cc

  -- An event that the client returns from a response is one to act on, from the response's slices.
  pub read_response-IsUsable :
      (r : Response) (e : MapStreamEvent) → read_response r ≡ ok e → IsUsable r.slices e
  unfolding read_response
  read_response-IsUsable r e h =
      let (a, b) = >>-eq-ok (local_errors _) _ h in
      read_events-IsUsable (suc (length r.slices)) r.slices e (result-IsUsable _ e b)

  -- An event that ReadMapStreamEvent returns is no heartbeat, has the shape of its kind and the
  -- client's protocol version and capabilities, and is the first one that is no heartbeat, on a
  -- line within the limit, in a response of 2xx that one of the client's origins gave to the call.
  pub read_map_stream_event-IsUsable :
      (transport : Transport) (api : Api) (node_id : Bytes) (cursor : MapCursor) (timeout : ℤ)
      (e : MapStreamEvent)
      → (read_map_stream_event transport api node_id cursor timeout).0 ≡ ok e
      → (u : Bytes) × (r : Response) × Memᴰ u (control_plane_urls api)
        × IsAnswered transport api (stream_call node_id cursor timeout) u r
        × IsUsable r.slices e
  unfolding read_map_stream_event
  read_map_stream_event-IsUsable transport api node_id cursor timeout e h =
      let (u, r, m, a, b, c) = run-ok transport api (stream_call node_id cursor timeout) e h in
      (u, r, m, a, read_response-IsUsable r e b)
