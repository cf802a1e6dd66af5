-- ===== src/Api/Stream.antt =====
-- clientapi/v1/api.go: ReadMapStreamEvent.
use client_api.Prelude.{
  Bytes, bytes, bytes_eq, ℕ, zero, suc, ◌*◌, Bool, not, ◌&&◌, true, false, Option, none, some, List,
  [], ◌∷◌, ◌++◌, ◌==◌, nat_eq, int_eq, length, ℤ, pos, Result, ok, err, ◌>>=◌, ◌>>◌, reject,
  if◌then◌else◌,
}
use client_api.Go.Strings.{trim_space, join}
use client_api.Go.Net.{itoa}
use client_api.Go.Url.{path_escape, query_escape}
use client_api.Types.Http.{Request, Response}
use client_api.Types.Map.{MapCursor, MapStreamEvent}
use client_api.External.{External}
use client_api.LineIo.{
  Line, Reader, line, at_eof, at_failure, refused, read_bounded_line, is_eof_with_no_data,
}
use client_api.MapStream.{validate_map_stream_event, kind_of, heartbeat, Kind}
use client_api.Errors.{
  Error, read_failed, stream_protocol, stream_capabilities, event_json, event_trailing,
  unsupported_event, unexpected_eof,
}
use client_api.Api.{Api, Call, CallError, local, map_stream_no_event, Transport, run, local_errors}

abbrev pub map_stream_protocol_version : ℕ
map_stream_protocol_version = 3

-- MapStreamSupportedCapabilities
abbrev pub map_stream_supported_capabilities : List Bytes
map_stream_supported_capabilities =
    bytes "snapshot"
    ∷ bytes "signed-delta"
    ∷ bytes "checkpoint"
    ∷ bytes "resync"
    ∷ bytes "heartbeat"
    ∷ []

abbrev pub max_control_map_stream_event_bytes : ℕ
max_control_map_stream_event_bytes = 16 * 1024 * 1024

-- mapStreamCapabilitiesEqual
unfoldable pub map_stream_capabilities_equal : List Bytes → List Bytes → Bool
map_stream_capabilities_equal [] [] = true
map_stream_capabilities_equal (g ∷ got) (w ∷ want) =
    g == w && map_stream_capabilities_equal got want
map_stream_capabilities_equal _ _ = false

-- The error of a line that was not read: ErrMapStreamNoEvent at a clean end.
abbrev pub line_error : Line → CallError
line_error l = if is_eof_with_no_data l then map_stream_no_event else elim l [
  | line out ↦ local read_failed
  | at_eof out ↦ local unexpected_eof
  | at_failure out ↦ local read_failed
  | refused e ↦ local e
]

-- One turn of the loop: a heartbeat, after which it goes on, or the call's result.
pub data Turn : Type 0 where
  again : Turn
  done : Result CallError MapStreamEvent → Turn

abbrev pub on_kind : MapStreamEvent → Option Kind → Turn
on_kind e none = done (err (local unsupported_event))
on_kind e (some heartbeat) = again
on_kind e (some _) = done (ok e)

abbrev pub next_line : Reader → Line × Reader
next_line reader = read_bounded_line reader (pos max_control_map_stream_event_bytes)

module _ ⦃x : External⦄ where
  abbrev pub whole_event : Option (MapStreamEvent × Bytes) → Result Error MapStreamEvent
  whole_event none = err event_json
  whole_event (some (e, rest)) = if x.at_eof rest then ok e else err event_trailing

  -- decodeStrictMapStreamEvent
  unfoldable pub decode_strict_map_stream_event : Bytes → Result Error MapStreamEvent
  decode_strict_map_stream_event raw = whole_event (x.decode_event raw)

  -- The checks of an event that was read.
  unfoldable pub event_of : Bytes → Result Error MapStreamEvent
  event_of raw = do
    e ← decode_strict_map_stream_event raw
    reject (not (e.protocol_version == pos map_stream_protocol_version)) stream_protocol
    reject (not (map_stream_capabilities_equal e.capabilities map_stream_supported_capabilities))
        stream_capabilities
    validate_map_stream_event e
    ok e

  abbrev pub turn_of_event : Result Error MapStreamEvent → Turn
  turn_of_event (err e) = done (err (local e))
  turn_of_event (ok e) = on_kind e (kind_of e.type)

  unfoldable pub turn_of : Line → Turn
  turn_of (line raw) = turn_of_event (event_of raw)
  turn_of (at_eof out) = done (err (line_error (at_eof out)))
  turn_of (at_failure out) = done (err (line_error (at_failure out)))
  turn_of (refused e) = done (err (line_error (refused e)))

  -- The loop over the lines; `none` when the fuel ends, which a turn for each slice prevents.
  unfoldable pub read_events : ℕ → Reader → Option (Result CallError MapStreamEvent)
  read_events zero reader = none
  read_events (suc fuel) reader = elim (turn_of (next_line reader).0) [
    | again ↦ read_events fuel (next_line reader).1
    | done r ↦ some r
  ]

  abbrev pub result_of : Option (Result CallError MapStreamEvent) → Result CallError MapStreamEvent
  result_of none = err map_stream_no_event
  result_of (some r) = r

  -- The negotiated headers, then the events.
  unfoldable pub read_response : Response → Result CallError MapStreamEvent
  read_response r = do
    local_errors (do
      reject (not (trim_space r.map_protocol == itoa map_stream_protocol_version)) stream_protocol
      reject
          (not
            (trim_space r.map_capabilities == join map_stream_supported_capabilities (bytes ",")))
          stream_capabilities)
    result_of (read_events (suc (length r.slices)) r.slices)

  abbrev pub stream_path : Bytes → MapCursor → ℤ → Bytes
  stream_path node_id cursor timeout =
      bytes "/maps/"
      ++ (path_escape node_id
          ++ (bytes "/stream?from_network_revision="
              ++ (itoa cursor.revision.network
                  ++ (bytes "&from_global_revision="
                      ++ (itoa cursor.revision.global
                          ++ (bytes "&from_map_hash="
                              ++ (query_escape (trim_space cursor.map_hash)
                                  ++ (bytes "&timeout="
                                      ++ query_escape (x.duration_string timeout)))))))))

  abbrev pub stream_call : Bytes → MapCursor → ℤ → Call MapStreamEvent
  stream_call node_id cursor timeout = record {
    method = bytes "GET";
    path = stream_path node_id cursor timeout;
    body = none;
    prepare = λ (r : Request). record r {
      map_protocol = some (itoa map_stream_protocol_version);
      map_capabilities = some (join map_stream_supported_capabilities (bytes ","));
    };
    finish = read_response;
  }

  -- ReadMapStreamEvent
  unfoldable pub read_map_stream_event :
      Transport → Api → Bytes → MapCursor → ℤ → Result CallError MapStreamEvent × Api
  unfolding run
  read_map_stream_event transport api node_id cursor timeout =
      run transport api (stream_call node_id cursor timeout)
