-- ===== src/Api/Calls.antt =====
-- clientapi/v1/api.go: `request` and the calls over it. A value that the body leaves out (status
-- 204) is `none`, which stands for Go's zero value.
use client_api.Prelude.{
  Bytes, bytes, bytes_eq, Bool, true, false, Option, none, some, List, [], ◌++◌, ◌==◌, nat_eq,
  Result, ok, err, ◌>>=◌, if◌then◌else◌,
}
use client_api.Go.Strings.{trim_space}
use client_api.Go.Url.{path_escape, query_escape}
use client_api.Types.Http.{Request, Response}
use client_api.Types.Keys.{ServerKeyResponse}
use client_api.Types.Network.{Network}
use client_api.Types.Node.{Node}
use client_api.Types.Map.{RegisterNodeResponse}
use client_api.Types.Requests.{
  CreateNetworkRequest, CreateJoinTokenRequest, CreateJoinTokenResponse, RegisterNodeRequest,
  CreateNodeEnrollmentRequestResponse, NodeEnrollmentRequestStatusResponse,
  CompleteNodeEnrollmentRequestResponse, UpdateNodeEndpointRequest,
}
use client_api.External.{External, Json}
use client_api.Idempotency.{new_create_idempotency_key}
use client_api.Registration.{validate_request, validate_for_request}
use client_api.MapSign.{required}
use client_api.Errors.{marshal_failed, random_failed, response_schema_version}
use client_api.Api.{
  Api, Call, CallError, local, Transport, run, with_bearer, decode_strict_api_response,
  local_errors,
}

abbrev typed : Bool → Request → Request
typed has_body r =
    if has_body then record r { content_type = some (bytes "application/json") } else r

-- What a call without an input sends, and one whose input was marshalled.
abbrev pub no_input : Option (Option Bytes)
no_input = none

module _ ⦃x : External⦄ {A : Type 0} where
  -- The value of a response, if the caller wants one and it has a body.
  unfoldable pub value_of :
      Option (Bytes → Option (A × Bytes)) → Response → Result CallError (Option A)
  value_of none r = ok none
  value_of (some decode) r =
      if r.status_code == 204
      then ok none
      else (local_errors (decode_strict_api_response decode r.body) >>= λ a. ok (some a))

  abbrev pub json_call :
      Bytes → Bytes → Option Bytes → Bool → Option (Bytes → Option (A × Bytes)) → Call (Option A)
  json_call method path body has_body decode = record {
    method = method;
    path = path;
    body = body;
    prepare = typed has_body;
    finish = value_of decode;
  }

  -- request
  unfoldable pub request :
      Transport
      → Api
      → Bytes
      → Bytes
      → Option (Option Bytes)
      → Option (Bytes → Option (A × Bytes))
      → Result CallError (Option A) × Api
  unfolding run
  request transport api method path none decode =
      run transport api (json_call method path none false decode)
  request transport api method path (some none) decode = (err (local marshal_failed), api)
  request transport api method path (some (some raw)) decode =
      run transport api (json_call method path (some raw) true decode)

-- The key of a request that has none is made for this call.
abbrev pub keyed : {A : Type 0} → Bytes → Option Bytes → (Bytes → A) → Result CallError A
keyed key random request_with =
    if trim_space key == []
    then (local_errors (required random_failed (new_create_idempotency_key random)) >>= λ k.
        ok (request_with k))
    else ok (request_with key)

abbrev pub sent :
    {A B : Type 0}
    → Api
    → Result CallError A
    → (A → Result CallError B × Api)
    → Result CallError B × Api
sent api (err e) send = (err e, api)
sent api (ok a) send = send a

-- The path of ListNetworksForAccount.
abbrev pub networks_path : Bytes → Bytes
networks_path account_id =
    let id = trim_space account_id in
    if id == [] then bytes "/networks" else bytes "/networks?account_id=" ++ query_escape id

abbrev pub enrollment_path : Bytes → Bytes
enrollment_path id = bytes "/nodes/enrollment-requests/" ++ path_escape (trim_space id)

module _ ⦃x : External⦄ (transport : Transport) (api : Api) where
  -- ServerKey
  unfoldable pub server_key :
      ⦃j : Json ServerKeyResponse⦄ → Result CallError (Option ServerKeyResponse) × Api
  server_key ⦃j⦄ = request transport api (bytes "GET") (bytes "/server-key") none (some j.decode)

  -- CreateNetwork, with random bytes for a key
  unfoldable pub create_network :
      ⦃i : Json CreateNetworkRequest⦄
      → ⦃o : Json Network⦄ → Option Bytes
      → CreateNetworkRequest
      → Result CallError (Option Network) × Api
  create_network ⦃i⦄ ⦃o⦄ random q =
      sent api (keyed q.idempotency_key random (λ key. record q { idempotency_key = key })) (λ r.
        request transport api (bytes "POST") (bytes "/networks") (some (i.marshal r))
          (some o.decode))

  -- ListNetworksForAccount
  unfoldable pub list_networks_for_account :
      ⦃o : Json (List Network)⦄ → Bytes → Result CallError (Option (List Network)) × Api
  list_networks_for_account ⦃o⦄ account_id =
      request transport api (bytes "GET") (networks_path account_id) none (some o.decode)

  -- ListNetworks
  unfoldable pub list_networks :
      ⦃o : Json (List Network)⦄ → Result CallError (Option (List Network)) × Api
  list_networks ⦃o⦄ = list_networks_for_account []

  -- ListNodes
  unfoldable pub list_nodes :
      ⦃o : Json (List Node)⦄ → Bytes → Result CallError (Option (List Node)) × Api
  list_nodes ⦃o⦄ network =
      request transport api (bytes "GET")
        (bytes "/networks/" ++ (path_escape network ++ bytes "/nodes")) none (some o.decode)

  -- CreateJoinToken
  unfoldable pub create_join_token :
      ⦃i : Json CreateJoinTokenRequest⦄
      → ⦃o : Json CreateJoinTokenResponse⦄ → Option Bytes
      → CreateJoinTokenRequest
      → Result CallError (Option CreateJoinTokenResponse) × Api
  create_join_token ⦃i⦄ ⦃o⦄ random q =
      sent api (keyed q.idempotency_key random (λ key. record q { idempotency_key = key })) (λ r.
        request transport api (bytes "POST") (bytes "/nodes/join-tokens") (some (i.marshal r))
          (some o.decode))

  -- What RegisterNode makes of the response; Go's zero value fails at its schema version.
  abbrev pub checked_for :
      RegisterNodeRequest
      → Result CallError (Option RegisterNodeResponse)
      → Result CallError RegisterNodeResponse
  checked_for q (err e) = err e
  checked_for q (ok none) = err (local response_schema_version)
  checked_for q (ok (some r)) = local_errors (validate_for_request r q >>= λ valid. ok r)

  -- RegisterNode
  unfoldable pub register_node :
      ⦃i : Json RegisterNodeRequest⦄
      → ⦃o : Json RegisterNodeResponse⦄ → RegisterNodeRequest
      → Result CallError RegisterNodeResponse × Api
  register_node ⦃i⦄ ⦃o⦄ q = sent api (local_errors (validate_request q)) (λ valid.
      let answer =
        request transport api (bytes "POST") (bytes "/nodes/register") (some (i.marshal q))
          (some o.decode) in
      (checked_for q answer.0, answer.1))

  -- CreateNodeEnrollmentRequest
  unfoldable pub create_node_enrollment_request :
      ⦃i : Json RegisterNodeRequest⦄
      → ⦃o : Json CreateNodeEnrollmentRequestResponse⦄ → RegisterNodeRequest
      → Result CallError (Option CreateNodeEnrollmentRequestResponse) × Api
  create_node_enrollment_request ⦃i⦄ ⦃o⦄ q =
      request transport api (bytes "POST") (bytes "/nodes/enrollment-requests") (some (i.marshal q))
        (some o.decode)

  -- NodeEnrollmentRequestStatus. The call works on a copy of the API, which is dropped.
  unfoldable pub node_enrollment_request_status :
      ⦃o : Json NodeEnrollmentRequestStatusResponse⦄
      → Bytes
      → Bytes
      → Result CallError (Option NodeEnrollmentRequestStatusResponse) × Api
  node_enrollment_request_status ⦃o⦄ id poll_token = (
    (request transport (with_bearer api poll_token) (bytes "GET") (enrollment_path id) none
        (some o.decode)).0,
    api,
  )

  -- CompleteNodeEnrollmentRequest, on a copy as well
  unfoldable pub complete_node_enrollment_request :
      ⦃o : Json CompleteNodeEnrollmentRequestResponse⦄
      → Bytes
      → Bytes
      → Result CallError (Option CompleteNodeEnrollmentRequestResponse) × Api
  complete_node_enrollment_request ⦃o⦄ id poll_token = (
    (request transport (with_bearer api poll_token) (bytes "POST")
        (enrollment_path id ++ bytes "/complete") none (some o.decode)).0,
    api,
  )

  -- UpdateNodeEndpointState
  unfoldable pub update_node_endpoint_state :
      ⦃i : Json UpdateNodeEndpointRequest⦄
      → ⦃o : Json RegisterNodeResponse⦄ → Bytes
      → UpdateNodeEndpointRequest
      → Result CallError (Option RegisterNodeResponse) × Api
  update_node_endpoint_state ⦃i⦄ ⦃o⦄ node_id q =
      request transport api (bytes "PATCH")
        (bytes "/nodes/" ++ (path_escape node_id ++ bytes "/endpoint")) (some (i.marshal q))
        (some o.decode)

  -- Logout
  unfoldable pub logout : Result CallError (Option (Unit {0})) × Api
  logout = request transport api (bytes "POST") (bytes "/auth/logout") none none
