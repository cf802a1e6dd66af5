-- ===== src/Api/Secrets.antt =====
-- Where the client's requests, and so its token and node credential, go.
use mathlib.Core.List.{Memᴰ}
use client_api.Prelude.{
  All, All-member, Bytes, bytes, bytes_eq, ◌≡◌, refl, sym, ap, not, none, List, [], ◌∷◌, ◌++◌,
  Result, ok, err, reject-eq-ok, All-append, >>-eq-ok,
}
use client_api.Go.Strings.{trim_space}
use client_api.Types.Http.{Request}
use client_api.Errors.{Error, request_malformed}
use client_api.External.{External}
use client_api.Api.{
  Api, Call, Failure, Transport, Attempt, attempt, exchanged, sending, Traced, try_origins,
  requests_sent, run, new_request, control_plane_urls, optional_header,
  validate_control_plane_base_url, classify, malformed, passed_over, refused, accepted,
}
use client_api.Api.BaseUrl.{IsSecure, validate_control_plane_base_url_iff}

module _ ⦃x : External⦄ {A : Type 0} (api : Api) (call : Call A) (t s : Transport) where
  -- The two transports answer alike the requests that this call makes for the client's secure
  -- origins.
  abbrev pub AgreeOnSecure : Type 0
  AgreeOnSecure =
      (u : Bytes) (q : Request)
      → Memᴰ u (control_plane_urls api)
      → IsSecure u
      → new_request api call.method u call.path call.body ≡ ok q
      → t (call.prepare q) ≡ s (call.prepare q)

  exchanged-same :
      (u : Bytes) (q : Result Error Request)
      → AgreeOnSecure
      → Memᴰ u (control_plane_urls api)
      → new_request api call.method u call.path call.body ≡ q
      → exchanged t api call u q ≡ exchanged s api call u q
  unfolding new_request
  exchanged-same u (err e) agree m h = refl
  exchanged-same u (ok q) agree m h =
      let valid = (>>-eq-ok (validate_control_plane_base_url u) _ h).0 in
      ap (λ a. (classify call.method call.path u a, call.prepare q ∷ []))
        (agree u q m ((validate_control_plane_base_url_iff u).0 valid) h)

  attempt-same :
      (u : Bytes)
      → AgreeOnSecure
      → Memᴰ u (control_plane_urls api)
      → attempt t api call u ≡ attempt s api call u
  unfolding attempt
  attempt-same u agree m =
      exchanged-same u (new_request api call.method u call.path call.body) agree m refl

  by_attempt :
      (u : Bytes) (urls : List Bytes) (failures : List Failure) (a : Attempt × List Request)
      → attempt t api call u ≡ a
      → attempt s api call u ≡ a
      → ((more : List Failure)
          → try_origins t api call urls more ≡ try_origins s api call urls more)
      → try_origins t api call (u ∷ urls) failures ≡ try_origins s api call (u ∷ urls) failures
  unfolding try_origins
  by_attempt u urls failures (malformed e, _) h k go = rw (h, k, try_origins) refl
  by_attempt u urls failures (refused e, _) h k go = rw (h, k, try_origins) refl
  by_attempt u urls failures (accepted r, _) h k go = rw (h, k, try_origins) refl
  by_attempt u urls failures (passed_over f, sent) h k go =
      rw (h, k, try_origins) (ap (sending t api call sent) (go (failures ++ f ∷ [])))

  try_origins-same :
      (urls : List Bytes) (failures : List Failure)
      → AgreeOnSecure
      → All (λ u. Memᴰ u (control_plane_urls api)) urls
      → try_origins t api call urls failures ≡ try_origins s api call urls failures
  unfolding try_origins
  try_origins-same [] failures agree h = refl
  try_origins-same (u ∷ urls) failures agree (m, h) =
      by_attempt u urls failures (attempt t api call u) refl (sym (attempt-same u agree m))
        (λ more. try_origins-same urls more agree h)

  -- What a call returns depends on the network only by its answers to requests for secure origins.
  pub run-same : AgreeOnSecure → run t api call ≡ run s api call
  unfolding run
  run-same agree =
      ap (λ (o : Traced A). (o.0, o.1))
        (try_origins-same (control_plane_urls api) [] agree (All-member (control_plane_urls api)))

module _ ⦃x : External⦄ {A : Type 0} (transport : Transport) (api : Api) (call : Call A) where
  -- The request is the call's own for one of these origins, which is secure.
  pub record IsForSecure (urls : List Bytes) (q : Request) : Type 0 where
    pub origin : Bytes
    pub listed : Memᴰ origin urls
    pub secure : IsSecure origin
    pub plain : Request
    pub made : new_request api call.method origin call.path call.body ≡ ok plain
    pub addressed : plain.url ≡ origin ++ call.path
    pub prepared : q ≡ call.prepare plain

  exchanged-IsForSecure :
      (u : Bytes) (urls : List Bytes) (o : Result Error Request)
      → Memᴰ u urls
      → new_request api call.method u call.path call.body ≡ o
      → All (IsForSecure urls) (exchanged transport api call u o).1
  unfolding new_request
  exchanged-IsForSecure u urls (err e) m h = tt
  exchanged-IsForSecure u urls (ok q) m h =
      let (valid, h1) = >>-eq-ok (validate_control_plane_base_url u) _ h in
      let (_, h2) =
        reject-eq-ok (not (x.request_formed call.method (u ++ call.path))) request_malformed
          (ok (record {
            method = call.method;
            url = u ++ call.path;
            authorization = optional_header api.token (bytes "Bearer " ++ api.token);
            node_credential = optional_header api.node_credential (trim_space api.node_credential);
            content_type = none;
            map_protocol = none;
            map_capabilities = none;
            body = call.body;
          }))
          h1 in
      (
        record {
          origin = u;
          listed = m;
          secure = (validate_control_plane_base_url_iff u).0 valid;
          plain = q;
          made = h;
          addressed = cc h2;
          prepared = refl;
        },
        tt,
      )

  by_sending :
      (urls rest : List Bytes) (u : Bytes) (failures : List Failure) (a : Attempt)
      → (attempt transport api call u).0 ≡ a
      → All (IsForSecure urls) (attempt transport api call u).1
      → ((more : List Failure)
          → All (IsForSecure urls) (try_origins transport api call rest more).2)
      → All (IsForSecure urls) (try_origins transport api call (u ∷ rest) failures).2
  unfolding try_origins
  by_sending urls rest u failures (malformed e) h m go =
      rw (h, try_origins) (All-append _ _ [] m tt)
  by_sending urls rest u failures (refused e) h m go = rw (h, try_origins) (All-append _ _ [] m tt)
  by_sending urls rest u failures (accepted r) h m go = rw (h, try_origins) (All-append _ _ [] m tt)
  by_sending urls rest u failures (passed_over f) h m go =
      rw (h, try_origins) (All-append _ _ _ m (go (failures ++ f ∷ [])))

  try_origins-IsForSecure :
      (urls rest : List Bytes) (failures : List Failure)
      → All (λ u. Memᴰ u urls) rest
      → All (IsForSecure urls) (try_origins transport api call rest failures).2
  unfolding try_origins attempt
  try_origins-IsForSecure urls [] failures m = tt
  try_origins-IsForSecure urls (u ∷ rest) failures (m, ms) =
      by_sending urls rest u failures (attempt transport api call u).0 refl
        (exchanged-IsForSecure u urls (new_request api call.method u call.path call.body) m refl)
        (λ more. try_origins-IsForSecure urls rest more ms)

  -- Every request that a call sends is the call's own, as newRequest makes it and the call prepares
  -- it, for the call's path at one of the client's origins, and this origin is a URL with a host and
  -- without user information, over HTTPS, or over HTTP to localhost or a loopback address.
  pub run-IsSecure : All (IsForSecure (control_plane_urls api)) (requests_sent transport api call)
  unfolding requests_sent
  run-IsSecure =
      try_origins-IsForSecure (control_plane_urls api) (control_plane_urls api) []
        (All-member (control_plane_urls api))
