-- ===== src/Api.antt =====
-- clientapi/v1/api.go: the HTTP client, its origins and the loop over them. NewAPI's http.Client is
-- the model's `Transport`; which TLS it speaks is not modelled.
pub mod Stream
pub mod Calls
pub mod Origins
pub mod Failover
pub mod BaseUrl
pub mod Secrets
pub mod Events
pub mod Usable
pub mod Enrolling
use client_api.Prelude.{
  Bytes, bytes, bytes_eq, ℕ, Bool, true, false, not, ◌&&◌, ◌||◌, Option, none, some, List, [], ◌∷◌,
  ◌++◌, ◌==◌, nat_eq, ltb, leb, take, Result, ok, err, ◌>>=◌, ◌>>◌, reject, Check, if◌then◌else◌,
}
use client_api.Go.Strings.{trim_space, trim_suffix, to_lower}
use client_api.Types.Http.{Request, Response, Answer, no_answer, answered}
use client_api.External.{External, Url, Json}
use client_api.Cleaning.{url_form, normalize_control_plane_urls}
use client_api.MapSign.{required}
use client_api.Errors.{
  Error, marshal_failed, base_url_invalid, base_url_user, base_url_insecure, base_url_scheme,
  request_malformed, response_json, response_trailing,
}

pub record ControlPlaneStatusError : Type 0 where
  pub method : Bytes
  pub path : Bytes
  pub status_code : ℕ
  pub status : Bytes
  pub body : Bytes

-- Why an origin was passed over: no answer, or a status that sends the client on.
pub record Failure : Type 0 where
  pub base_url : Bytes
  pub answer : Option ControlPlaneStatusError

-- The errors of a call: one of the checks, a status, failoverError, or ErrMapStreamNoEvent.
pub data CallError : Type 0 where
  local : Error → CallError
  status_error : ControlPlaneStatusError → CallError
  exhausted : Bytes → Bytes → List Failure → CallError
  map_stream_no_event : CallError

-- IsControlPlaneStatus
unfoldable pub is_control_plane_status : CallError → ℕ → Bool
is_control_plane_status (status_error e) status_code = e.status_code == status_code
is_control_plane_status (local e) status_code = false
is_control_plane_status (exhausted method path failures) status_code = false
is_control_plane_status map_stream_no_event status_code = false

pub record Api : Type 0 where
  pub base_url : Bytes
  pub base_urls : List Bytes
  pub token : Bytes
  pub node_credential : Bytes

abbrev pub first_url : List Bytes → Bytes
first_url [] = []
first_url (u ∷ us) = u

-- NewAPIWithBaseURLs
unfoldable pub new_api_with_base_urls : List Bytes → Bytes → Api
new_api_with_base_urls base_urls token =
    let normalized = normalize_control_plane_urls base_urls in
    record {
      base_url = first_url normalized;
      base_urls = normalized;
      token = token;
      node_credential = [];
    }

-- NewAPI
unfoldable pub new_api : Bytes → Bytes → Api
new_api base_url token = new_api_with_base_urls (base_url ∷ []) token

-- NewAPIWithNodeCredentialURLs
unfoldable pub new_api_with_node_credential_urls : List Bytes → Bytes → Bytes → Api
new_api_with_node_credential_urls base_urls token node_credential =
    record (new_api_with_base_urls base_urls token) { node_credential = trim_space node_credential }

-- controlPlaneURLs
unfoldable pub control_plane_urls : Api → List Bytes
control_plane_urls api = normalize_control_plane_urls (api.base_url ∷ api.base_urls)

-- setActiveBaseURL
unfoldable pub set_active_base_url : Api → Bytes → Api
set_active_base_url api base_url =
    let formed = url_form base_url in
    if formed == [] then api else record api {
      base_url = formed;
      base_urls = normalize_control_plane_urls (formed ∷ api.base_urls);
    }

-- withBearer
unfoldable pub with_bearer : Api → Bytes → Api
with_bearer api token = record api { token = trim_space token; node_credential = [] }

-- shouldFailOverStatus
unfoldable pub should_fail_over_status : ℕ → Bool
should_fail_over_status code = code == 408 || code == 429 || leb 500 code

abbrev pub optional_header : Bytes → Bytes → Option Bytes
optional_header value header = if trim_space value == [] then none else some header

module _ ⦃x : External⦄ where
  abbrev pub check_scheme : Bytes → Bytes → Check Error
  check_scheme scheme host =
      if scheme == bytes "https"
      then ok tt
      else if scheme == bytes "http"
      then reject (not (host == bytes "localhost" || x.is_loopback_ip host)) base_url_insecure
      else err base_url_scheme

  abbrev pub check_url : Option Url → Check Error
  check_url none = err base_url_invalid
  check_url (some u) = do
    reject (u.host == [] || u.hostname == []) base_url_invalid
    reject u.has_user base_url_user
    check_scheme (to_lower u.scheme) (trim_suffix (to_lower u.hostname) (bytes "."))

  -- validateControlPlaneBaseURL
  unfoldable pub validate_control_plane_base_url : Bytes → Check Error
  validate_control_plane_base_url raw_url = check_url (x.parse_url (trim_space raw_url))

  -- newRequest
  unfoldable pub new_request : Api → Bytes → Bytes → Bytes → Option Bytes → Result Error Request
  new_request api method base_url path raw = do
    validate_control_plane_base_url base_url
    reject (not (x.request_formed method (base_url ++ path))) request_malformed
    ok (record {
      method = method;
      url = base_url ++ path;
      authorization = optional_header api.token (bytes "Bearer " ++ api.token);
      node_credential = optional_header api.node_credential (trim_space api.node_credential);
      content_type = none;
      map_protocol = none;
      map_capabilities = none;
      body = raw;
    })

-- What http.Client's Do gives: it follows no redirect, so each call of it is one request.
abbrev pub Transport : Type 0
Transport = Request → Answer

-- What one turn of the loop over the origins comes to.
pub data Attempt : Type 0 where
  malformed : Error → Attempt
  passed_over : Failure → Attempt
  refused : ControlPlaneStatusError → Attempt
  accepted : Response → Attempt

-- A call: the request, the headers it adds, and what it makes of a response of 2xx.
pub record Call (A : Type 0) : Type 0 where
  pub method : Bytes
  pub path : Bytes
  pub body : Option Bytes
  pub prepare : Request → Request
  pub finish : Response → Result CallError A

abbrev pub status_error_of : Bytes → Bytes → Response → ControlPlaneStatusError
status_error_of method path r = record {
  method = method;
  path = path;
  status_code = r.status_code;
  status = r.status;
  body = trim_space (take 4096 r.body);
}

abbrev pub classify : Bytes → Bytes → Bytes → Answer → Attempt
classify method path base_url no_answer =
    passed_over (record { base_url = base_url; answer = none })
classify method path base_url (answered r) =
    let e = status_error_of method path r in
    if ltb r.status_code 200 || leb 300 r.status_code
    then (if should_fail_over_status r.status_code
        then passed_over (record { base_url = base_url; answer = some e })
        else refused e)
    else accepted r

-- A call's result, the client after it, and the requests that it has sent.
abbrev pub Traced : Type 0 → Type 0
Traced A = Result CallError A × Api × List Request

module _ ⦃x : External⦄ {A : Type 0} (transport : Transport) (api : Api) (call : Call A) where
  -- What one turn comes to, with the requests that it sends.
  abbrev pub exchanged : Bytes → Result Error Request → Attempt × List Request
  exchanged base_url (err e) = (malformed e, [])
  exchanged base_url (ok r) =
      let q = call.prepare r in (classify call.method call.path base_url (transport q), q ∷ [])

  unfoldable pub attempt : Bytes → Attempt × List Request
  attempt base_url = exchanged base_url (new_request api call.method base_url call.path call.body)

  abbrev pub sending : List Request → Traced A → Traced A
  sending sent (result, after, later) = (result, after, sent ++ later)

  -- The loop of `request` and of ReadMapStreamEvent over the origins.
  unfoldable pub try_origins : List Bytes → List Failure → Traced A
  try_origins [] failures = (err (exhausted call.method call.path failures), api, [])
  try_origins (base_url ∷ rest) failures = sending (attempt base_url).1 (elim (attempt base_url).0 [
    | malformed e ↦ (err (local e), api, [])
    | passed_over f ↦ try_origins rest (failures ++ f ∷ [])
    | refused e ↦ (err (status_error e), api, [])
    | accepted r ↦ (call.finish r, set_active_base_url api base_url, [])
  ])

  -- The requests that the call sends, in their order.
  unfoldable pub requests_sent : List Request
  unfolding try_origins
  requests_sent = (try_origins (control_plane_urls api) []).2

  unfoldable pub run : Result CallError A × Api
  unfolding try_origins
  run = let traced = try_origins (control_plane_urls api) [] in (traced.0, traced.1)

module _ ⦃x : External⦄ {A : Type 0} where
  abbrev pub decoded_whole : Option (A × Bytes) → Result Error A
  decoded_whole none = err response_json
  decoded_whole (some (a, rest)) = if x.at_eof rest then ok a else err response_trailing

  -- decodeStrictAPIResponse
  unfoldable pub decode_strict_api_response : (Bytes → Option (A × Bytes)) → Bytes → Result Error A
  decode_strict_api_response decode body = decoded_whole (decode body)

abbrev pub local_errors : {A : Type 0} → Result Error A → Result CallError A
local_errors (err e) = err (local e)
local_errors (ok a) = ok a
