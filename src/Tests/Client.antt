-- ===== src/Tests/Client.antt =====
-- The HTTP client on two origins, of which the first is down.
use mathlib.Core.List.{Memᴰ}
use client_api.Prelude.{
  Bytes, bytes, bytes_eq, suc, ◌≡◌, ◌↔◌, refl, ap, none, some, ok, err, List, [], ◌∷◌, length, pos,
  ◌++◌, inr, All, map, arith, Result, if◌then◌else◌,
}
use client_api.Go.Strings.{has_prefix}
use client_api.Types.Http.{Request, Response, no_answer, answered}
use client_api.Types.Map.{MapCursor, MapStreamEvent, RegisterNodeResponse}
use client_api.Types.Requests.{RegisterNodeRequest}
use client_api.External.{Json}
use client_api.LineIo.{Reader, delimited, buffer_full}
use client_api.Registration.{validate_request, validate_response}
use client_api.Registration.Answer.{IsAnswer}
use client_api.Errors.{base_url_insecure}
use client_api.Tests.{program}
use client_api.Tests.Sample.{outside, checkpoint_event}
use client_api.Tests.Enrollment.{join_request, join_response}
use client_api.Api.{
  Api, Call, CallError, exhausted, Failure, Transport, new_request, run, requests_sent,
  control_plane_urls, set_active_base_url, validate_control_plane_base_url,
}
use client_api.Api.Stream.{read_events, read_map_stream_event, stream_call}
use client_api.Api.Failover.{IsAnswered, IsUnavailable, run-reaches, run-exhausted}
use client_api.Api.Origins.{IsReady, Keeps, run-IsReady}
use client_api.Api.BaseUrl.{IsSecure, validate_control_plane_base_url_iff}
use client_api.Api.Secrets.{IsForSecure, run-same, run-IsSecure}
use client_api.Api.Events.{read_events-enough}
use client_api.Api.Usable.{IsUsable, read_map_stream_event-IsUsable}
use client_api.Api.Enrolling.{register_node-IsAnswer}

abbrev a_url : Bytes
a_url = bytes "https://a.example"

abbrev b_url : Bytes
b_url = bytes "https://b.example"

abbrev api : Api
api = record {
  base_url = a_url;
  base_urls = a_url ∷ b_url ∷ [];
  token = bytes "t";
  node_credential = [];
}

abbrev heartbeat_free : Reader
heartbeat_free =
    record { part = 123 ∷ []; status = buffer_full }
    ∷ record { part = 125 ∷ 10 ∷ []; status = delimited }
    ∷ []

abbrev good : Response
good = record {
  status_code = 200;
  status = bytes "200 OK";
  map_protocol = bytes "3";
  map_capabilities = bytes "snapshot,signed-delta,checkpoint,resync,heartbeat";
  body = bytes "{}";
  slices = heartbeat_free;
}

abbrev busy : Response
busy = record good { status_code = 503; body = bytes " busy " }

-- The first origin is overloaded, the second answers.
abbrev transport : Transport
transport q = if has_prefix q.url b_url then answered good else answered busy

abbrev cursor : MapCursor
cursor = record { revision = record { network = 4; global = 9 }; map_hash = bytes "h" }

abbrev stream : Call MapStreamEvent
stream = stream_call (bytes "n/1") cursor (pos 300)

abbrev active : Api
active = record api { base_url = b_url; base_urls = b_url ∷ a_url ∷ [] }

stream_read :
    read_map_stream_event transport api (bytes "n/1") cursor (pos 300)
    ≡ (ok checkpoint_event, active)
unfolding program
stream_read = refl

insecure_refused :
    validate_control_plane_base_url (bytes "http://c.example") ≡ err base_url_insecure
unfolding program
insecure_refused = refl

abbrev request_to : Bytes → Request
request_to u = record {
  method = bytes "GET";
  url = u ++ stream.path;
  authorization = some (bytes "Bearer t");
  node_credential = none;
  content_type = none;
  map_protocol = none;
  map_capabilities = none;
  body = none;
}

a-IsUnavailable : IsUnavailable transport api stream a_url
unfolding program
a-IsUnavailable = record {
  sent = request_to a_url;
  made = refl;
  sends_on = inr (inr (omega arith));
}

b-IsAnswered : IsAnswered transport api stream b_url good
unfolding program
b-IsAnswered = record {
  sent = request_to b_url;
  trusted = refl;
  made = refl;
  answer = refl;
  success = (omega arith, omega arith);
}

run-reaches_example :
    run transport api stream ≡ (ok checkpoint_event, set_active_base_url api b_url)
unfolding program
run-reaches_example =
    run-reaches transport api stream (a_url ∷ []) b_url [] good refl (a-IsUnavailable, tt)
      b-IsAnswered

abbrev down : Transport
down q = no_answer

down-IsUnavailable :
    (u : Bytes)
    → new_request api stream.method u stream.path stream.body ≡ ok (request_to u)
    → IsUnavailable down api stream u
down-IsUnavailable u h = record { sent = request_to u; made = h; sends_on = tt }

run-exhausted_example :
    (failures : List Failure) × (run down api stream
      ≡ (err (exhausted stream.method stream.path failures), api))
    × (map (λ f. f.base_url) failures ≡ control_plane_urls api)
unfolding program
run-exhausted_example =
    run-exhausted down api stream
      (down-IsUnavailable a_url refl, (down-IsUnavailable b_url refl, tt))

api-IsReady : IsReady api
unfolding program
api-IsReady = record {
  rest = b_url ∷ [];
  listed = refl;
  formed = ((refl, refl), ((refl, refl), tt));
  distinct = (refl, (refl, tt));
}

run-IsReady_example : Keeps api (run transport api stream).1
run-IsReady_example = run-IsReady transport api stream api-IsReady

validate_control_plane_base_url_iff_example :
    (validate_control_plane_base_url (bytes "http://127.0.0.1:8080") ≡ ok tt)
    ↔ IsSecure (bytes "http://127.0.0.1:8080")
validate_control_plane_base_url_iff_example =
    validate_control_plane_base_url_iff (bytes "http://127.0.0.1:8080")

abbrev insecure : Api
insecure = record api { base_url = bytes "http://c.example"; base_urls = [] }

-- A network that an insecure origin would answer.
abbrev eavesdropper : Transport
eavesdropper q = answered good

no_secure_origin :
    (u : Bytes) (q : Request)
    → Memᴰ u (control_plane_urls insecure)
    → IsSecure u
    → new_request insecure stream.method u stream.path stream.body ≡ ok q
    → eavesdropper (stream.prepare q) ≡ down (stream.prepare q)
unfolding program
no_secure_origin u q (Memᴰ.head e) i h = cc (rw e at i.parsed, rw e at h)
no_secure_origin u q (Memᴰ.tail m) i h = elim m [ ]

run-same_example : run eavesdropper insecure stream ≡ run down insecure stream
unfolding program
run-same_example = run-same insecure stream eavesdropper down no_secure_origin

nothing_sent : requests_sent eavesdropper insecure stream ≡ []
unfolding program
nothing_sent = refl

run-IsSecure_example :
    All
      (IsForSecure transport api stream (control_plane_urls api))
      (requests_sent transport api stream)
run-IsSecure_example = run-IsSecure transport api stream

read_events-enough_example :
    (r : Result CallError MapStreamEvent) × (read_events 9 heartbeat_free ≡ some r)
    × (read_events (suc (length heartbeat_free)) heartbeat_free ≡ some r)
read_events-enough_example = read_events-enough 9 heartbeat_free (omega arith)

read_map_stream_event-IsUsable_example :
    (u : Bytes) × (r : Response) × Memᴰ u (control_plane_urls api)
    × IsAnswered transport api stream u r
    × IsUsable r.slices checkpoint_event
read_map_stream_event-IsUsable_example =
    read_map_stream_event-IsUsable transport api (bytes "n/1") cursor (pos 300) checkpoint_event
      (ap (λ o. o.0) stream_read)

instance abbrev request_json : Json RegisterNodeRequest
request_json = record { marshal = λ q. some q.idempotency_id; decode = λ t. none }

instance abbrev response_json : Json RegisterNodeResponse
response_json = record { marshal = λ r. none; decode = λ t. some (join_response, []) }

register_node-IsAnswer_example :
    (validate_request join_request ≡ ok tt)
    × (validate_response join_response ≡ ok tt)
    × IsAnswer join_response join_request
unfolding program
register_node-IsAnswer_example =
    register_node-IsAnswer transport api join_request join_response refl
