-- ===== src/Api/Failover.antt =====
-- Which origin a call reaches: the loop over the origins as a relation, and what follows by
-- induction on it.
use mathlib.Core.List.{Memᴰ, append_assoc, append-nil, map-append}
use client_api.Prelude.{
  Bytes, ◌≡◌, refl, sym, ap, ◌∙◌, List, [], ◌∷◌, ◌++◌, map, All, Result, ok, err, if-cases, ◌||◌,
  true, false, ◌⊎◌, ltb, leb, arith, inl, inr, none, some, ◌≤◌, ◌<◌, >>-eq-ok,
}
use client_api.Types.Http.{Request, Response, Answer, no_answer, answered}
use client_api.Errors.{Error}
use client_api.External.{External}
use client_api.Api.{
  Api, Call, CallError, local, status_error, exhausted, ControlPlaneStatusError, Failure, Transport,
  Attempt, malformed, passed_over, refused, accepted, attempt, exchanged, Traced, try_origins, run,
  classify, status_error_of, control_plane_urls, set_active_base_url, should_fail_over_status,
  new_request, validate_control_plane_base_url,
}

-- The answers after which the client goes on to the next origin.
abbrev pub SendsOn : Answer → Type 0
SendsOn no_answer = Unit
SendsOn (answered r) = (r.status_code ≡ 408) ⊎ ((r.status_code ≡ 429) ⊎ (500 ≤ r.status_code))

abbrev failed_with : Bytes → ControlPlaneStatusError → Failure
failed_with u e = record { base_url = u; answer = some e }

-- A call's result and the client after it.
abbrev pub kept : {A : Type 0} → Traced A → Result CallError A × Api
kept o = (o.0, o.1)

module _ ⦃x : External⦄ {A : Type 0} (transport : Transport) (api : Api) (call : Call A) where
  -- The runs of a call over its origins, by what each origin comes to.
  pub data Run : List Bytes → List Failure → (Result CallError A × Api) → Type 0 where
    nothing_left :
        (failures : List Failure)
        → Run [] failures (err (exhausted call.method call.path failures), api)
    no_request :
        (u : Bytes) (rest : List Bytes) (failures : List Failure) (e : Error)
        → (attempt transport api call u).0 ≡ malformed e
        → Run (u ∷ rest) failures (err (local e), api)
    denied :
        (u : Bytes) (rest : List Bytes) (failures : List Failure) (e : ControlPlaneStatusError)
        → (attempt transport api call u).0 ≡ refused e
        → Run (u ∷ rest) failures (err (status_error e), api)
    reached :
        (u : Bytes) (rest : List Bytes) (failures : List Failure) (r : Response)
        → (attempt transport api call u).0 ≡ accepted r
        → Run (u ∷ rest) failures (call.finish r, set_active_base_url api u)
    went_on :
        (u : Bytes) (rest : List Bytes) (failures : List Failure) (f : Failure)
        (o : Result CallError A × Api)
        → (attempt transport api call u).0 ≡ passed_over f
        → Run rest (failures ++ f ∷ []) o
        → Run (u ∷ rest) failures o

  abbrev pub IsPassedOver : Bytes → Type 0
  IsPassedOver u = (f : Failure) × ((attempt transport api call u).0 ≡ passed_over f)

  Attempt-cases :
      (u : Bytes) (rest : List Bytes) (failures : List Failure) (a : Attempt)
      → (attempt transport api call u).0 ≡ a
      → ((f : Failure)
          → (attempt transport api call u).0 ≡ passed_over f
          → Run rest
              (failures ++ f ∷ [])
              (kept (try_origins transport api call rest (failures ++ f ∷ []))))
      → Run (u ∷ rest) failures (kept (try_origins transport api call (u ∷ rest) failures))
  unfolding try_origins
  Attempt-cases u rest failures (malformed e) h go =
      rw (h, try_origins) (no_request u rest failures e h)
  Attempt-cases u rest failures (refused e) h go = rw (h, try_origins) (denied u rest failures e h)
  Attempt-cases u rest failures (accepted r) h go =
      rw (h, try_origins) (reached u rest failures r h)
  Attempt-cases u rest failures (passed_over f) h go =
      rw (h, try_origins) (went_on u rest failures f _ h (go f h))

  -- The loop makes such a run.
  pub try_origins-Run :
      (urls : List Bytes) (failures : List Failure)
      → Run urls failures (kept (try_origins transport api call urls failures))
  unfolding try_origins
  try_origins-Run [] failures = nothing_left failures
  try_origins-Run (u ∷ rest) failures =
      Attempt-cases u rest failures (attempt transport api call u).0 refl
        (λ f h. try_origins-Run rest (failures ++ f ∷ []))

  try_origins-reaches :
      (before : List Bytes) (u : Bytes) (after : List Bytes) (r : Response)
      (failures : List Failure)
      → All IsPassedOver before
      → (attempt transport api call u).0 ≡ accepted r
      → kept (try_origins transport api call (before ++ u ∷ after) failures)
        ≡ (call.finish r, set_active_base_url api u)
  unfolding try_origins
  try_origins-reaches [] u after r failures h e = rw (e, try_origins) refl
  try_origins-reaches (b ∷ before) u after r failures ((f, p), h) e =
      rw (p, try_origins) (try_origins-reaches before u after r (failures ++ f ∷ []) h e)

  classify-base_url :
      (u : Bytes) (answer : Answer) (f : Failure)
      → classify call.method call.path u answer ≡ passed_over f
      → f.base_url ≡ u
  classify-base_url u no_answer f h =
      let e : record { base_url = u; answer = none } ≡ f = cc h in
      ap (λ (g : Failure). g.base_url) (sym e)
  classify-base_url u (answered r) f h =
      let e = status_error_of call.method call.path r in
      elim (if-cases (ltb r.status_code 200 || leb 300 r.status_code) _ (accepted r) h) [
        | inl (_, k) ↦ elim (if-cases (should_fail_over_status r.status_code) _ (refused e) k) [
          | inl (_, l) ↦
              let p : record { base_url = u; answer = some e } ≡ f = cc l in
              ap (λ (g : Failure). g.base_url) (sym p)
          | inr (_, l) ↦ cc
        ]
        | inr (_, k) ↦ cc
      ]

  exchanged-base_url :
      (u : Bytes) (q : Result Error Request) (f : Failure)
      → (exchanged transport api call u q).0 ≡ passed_over f
      → f.base_url ≡ u
  exchanged-base_url u (err e) f h = cc
  exchanged-base_url u (ok q) f h = classify-base_url u (transport (call.prepare q)) f h

  try_origins-exhausted :
      (urls : List Bytes) (failures : List Failure)
      → All IsPassedOver urls
      → (all : List Failure) × (kept (try_origins transport api call urls failures)
          ≡ (err (exhausted call.method call.path all), api))
        × (map (λ f. f.base_url) all ≡ map (λ f. f.base_url) failures ++ urls)
  unfolding try_origins attempt
  try_origins-exhausted [] failures h = (failures, refl, sym (append-nil _))
  try_origins-exhausted (u ∷ urls) failures ((f, p), h) =
      let (all, a, b) = try_origins-exhausted urls (failures ++ f ∷ []) h in
      let named = exchanged-base_url u (new_request api call.method u call.path call.body) f p in
      (
        all,
        rw (p, try_origins) a,
        b
            ∙ ap (λ names. names ++ urls)
                (map-append (λ (g : Failure). g.base_url) failures (f ∷ []))
            ∙ append_assoc (map (λ (g : Failure). g.base_url) failures) (f.base_url ∷ []) urls
            ∙ ap (λ n. map (λ (g : Failure). g.base_url) failures ++ n ∷ urls) named,
      )

  -- What an attempt that was accepted has done.
  pub record IsAnswered (u : Bytes) (r : Response) : Type 0 where
    pub sent : Request
    pub trusted : validate_control_plane_base_url u ≡ ok tt
    pub made : new_request api call.method u call.path call.body ≡ ok sent
    pub answer : transport (call.prepare sent) ≡ answered r
    pub success : (200 ≤ r.status_code) × (r.status_code < 300)

  classify-accepted :
      (u : Bytes) (answer : Answer) (r : Response)
      → classify call.method call.path u answer ≡ accepted r
      → (answer ≡ answered r) × (200 ≤ r.status_code) × (r.status_code < 300)
  classify-accepted u no_answer r h = cc
  classify-accepted u (answered s) r h =
      elim (if-cases (ltb s.status_code 200 || leb 300 s.status_code) _ (accepted s) h) [
        | inl (_, k) ↦ elim (if-cases (should_fail_over_status s.status_code) _ _ k) [
          | inl (_, l) ↦ cc
          | inr (_, l) ↦ cc
        ]
        | inr (e, k) ↦ let p : s ≡ r = cc k in rw (← p) (refl, ground arith, ground arith)
      ]

  exchanged-accepted :
      (u : Bytes) (q : Result Error Request) (r : Response)
      → new_request api call.method u call.path call.body ≡ q
      → (exchanged transport api call u q).0 ≡ accepted r
      → IsAnswered u r
  unfolding new_request
  exchanged-accepted u (err e) r k h = cc
  exchanged-accepted u (ok q) r k h =
      let (a, b, c) = classify-accepted u (transport (call.prepare q)) r h in
      record {
        sent = q;
        trusted = (>>-eq-ok (validate_control_plane_base_url u) _ k).0;
        made = k;
        answer = a;
        success = (b, c);
      }

  pub accepted-IsAnswered :
      (u : Bytes) (r : Response) → (attempt transport api call u).0 ≡ accepted r → IsAnswered u r
  unfolding attempt
  accepted-IsAnswered u r h =
      exchanged-accepted u (new_request api call.method u call.path call.body) r refl h

  -- An origin that was asked, and gave no answer, or answered 408, 429, or 500 or more.
  pub record IsUnavailable (u : Bytes) : Type 0 where
    pub sent : Request
    pub made : new_request api call.method u call.path call.body ≡ ok sent
    pub sends_on : SendsOn (transport (call.prepare sent))

  classify-passed_over :
      (u : Bytes) (answer : Answer)
      → SendsOn answer
      → (f : Failure) × (classify call.method call.path u answer ≡ passed_over f)
  unfolding should_fail_over_status
  classify-passed_over u no_answer h = (_, refl)
  classify-passed_over u (answered r) (inl h) =
      (failed_with u (status_error_of call.method call.path r), rw h refl)
  classify-passed_over u (answered r) (inr (inl h)) =
      (failed_with u (status_error_of call.method call.path r), rw h refl)
  classify-passed_over u (answered r) (inr (inr h)) =
      let failing : should_fail_over_status r.status_code ≡ true = ground arith in
      let outside : (ltb r.status_code 200 || leb 300 r.status_code) ≡ true = ground arith in
      (failed_with u (status_error_of call.method call.path r), rw (outside, failing) refl)

  IsUnavailable-IsPassedOver : (u : Bytes) → IsUnavailable u → IsPassedOver u
  unfolding attempt
  IsUnavailable-IsPassedOver u i =
      let (f, p) = classify-passed_over u (transport (call.prepare i.sent)) i.sends_on in
      (f, rw (i.made) p)

  All-IsPassedOver : (urls : List Bytes) → All IsUnavailable urls → All IsPassedOver urls
  All-IsPassedOver [] h = tt
  All-IsPassedOver (u ∷ urls) (i, h) = (IsUnavailable-IsPassedOver u i, All-IsPassedOver urls h)

  IsAnswered-accepted :
      (u : Bytes) (r : Response) → IsAnswered u r → (attempt transport api call u).0 ≡ accepted r
  unfolding attempt
  IsAnswered-accepted u r i =
      let (low, high) = i.success in
      let inside : (ltb r.status_code 200 || leb 300 r.status_code) ≡ false = ground arith in
      rw (i.made, i.answer, inside) refl

  -- A call reaches the first origin that answers with 2xx: when those before it give no answer, or
  -- answer 408, 429, or 500 or more, its response is the call's, and it becomes the active origin.
  pub run-reaches :
      (before : List Bytes) (u : Bytes) (after : List Bytes) (r : Response)
      → control_plane_urls api ≡ before ++ u ∷ after
      → All IsUnavailable before
      → IsAnswered u r
      → run transport api call ≡ (call.finish r, set_active_base_url api u)
  unfolding run
  run-reaches before u after r e h a =
      ap (λ urls. kept (try_origins transport api call urls [])) e
      ∙ try_origins-reaches before u after r [] (All-IsPassedOver before h)
          (IsAnswered-accepted u r a)

  -- When every origin gives no answer, or answers 408, 429, or 500 or more, the call fails, keeps
  -- the active origin, and its error names every origin once, in the order in which they were tried.
  pub run-exhausted :
      All IsUnavailable (control_plane_urls api)
      → (failures : List Failure) × (run transport api call
          ≡ (err (exhausted call.method call.path failures), api))
        × (map (λ f. f.base_url) failures ≡ control_plane_urls api)
  unfolding run
  run-exhausted h =
      try_origins-exhausted (control_plane_urls api) []
        (All-IsPassedOver (control_plane_urls api) h)

  -- A call that returns a value has had a response of 2xx from one of its origins, a validated one,
  -- which is active from then on; the value is what the call makes of that response.
  Run-ok :
      (urls : List Bytes) (failures : List Failure) (o : Result CallError A × Api) (value : A)
      → Run urls failures o
      → o.0 ≡ ok value
      → (u : Bytes) × (r : Response) × Memᴰ u urls
        × IsAnswered u r
        × (call.finish r ≡ ok value)
        × (o.1 ≡ set_active_base_url api u)
  Run-ok urls failures o value (nothing_left _) h = cc
  Run-ok urls failures o value (no_request u rest _ e a) h = cc
  Run-ok urls failures o value (denied u rest _ e a) h = cc
  Run-ok urls failures o value (reached u rest _ r a) h =
      (u, r, Memᴰ.head refl, accepted-IsAnswered u r a, h, refl)
  Run-ok urls failures o value (went_on u rest _ f _ a run) h =
      let (v, r, m, a1, b, c) = Run-ok rest (failures ++ f ∷ []) o value run h in
      (v, r, Memᴰ.tail m, a1, b, c)

  pub run-ok :
      (value : A)
      → (run transport api call).0 ≡ ok value
      → (u : Bytes) × (r : Response) × Memᴰ u (control_plane_urls api)
        × IsAnswered u r
        × (call.finish r ≡ ok value)
        × ((run transport api call).1 ≡ set_active_base_url api u)
  unfolding run
  run-ok value h =
      Run-ok (control_plane_urls api) [] _ value (try_origins-Run (control_plane_urls api) []) h
