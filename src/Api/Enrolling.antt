-- ===== src/Api/Enrolling.antt =====
-- What RegisterNode returns, and the path that an ID makes.
use client_api.Prelude.{
  Bytes, bytes, bytes_eq, ℕ, ◌≡◌, refl, false, Option, none, some, [], ◌∷◌, ◌++◌, nat_eq, Result,
  ok, err, arith, >>=-eq-ok, ◌||◌, if◌then◌else◌,
}
use client_api.Go.Strings.{trim_space, split, contains_byte}
use client_api.Go.Url.{path_escape, is_segment_byte, percent}
use client_api.Types.Map.{RegisterNodeResponse}
use client_api.Types.Requests.{RegisterNodeRequest}
use client_api.External.{External, Json}
use client_api.Registration.{validate_request, validate_response, validate_for_request}
use client_api.Registration.Answer.{IsAnswer, validate_for_request_iff}
use client_api.Api.{Api, CallError, Transport, local_errors}
use client_api.Api.Calls.{register_node, checked_for, sent, enrollment_path}
use client_api.Api.Usable.{local-eq-ok}

sent-eq-ok :
    {A B : Type 0} (api : Api) (m : Result CallError A) (send : A → Result CallError B × Api)
    {b : B}
    → (sent api m send).0 ≡ ok b
    → (a : A) × (m ≡ ok a) × ((send a).0 ≡ ok b)
sent-eq-ok api (err e) send h = cc
sent-eq-ok api (ok a) send h = (a, refl, h)

module _ ⦃x : External⦄ (transport : Transport) (api : Api) where
  checked_for-eq-ok :
      (q : RegisterNodeRequest) (a : Result CallError (Option RegisterNodeResponse))
      (r : RegisterNodeResponse)
      → checked_for transport api q a ≡ ok r
      → validate_for_request r q ≡ ok tt
  checked_for-eq-ok q (err e) r h = cc
  checked_for-eq-ok q (ok none) r h = cc
  checked_for-eq-ok q (ok (some s)) r h =
      let (a, b, c) = >>=-eq-ok (validate_for_request s q) _ (local-eq-ok _ h) in
      let p : s ≡ r = cc c in rw (← p) b

  -- A registration that RegisterNode returns is valid and answers the request, which was valid: the
  -- same operation, the digest of its proof, its network, its keys and its fingerprint.
  pub register_node-IsAnswer :
      ⦃i : Json RegisterNodeRequest⦄
      → ⦃o : Json RegisterNodeResponse⦄ → (q : RegisterNodeRequest) (r : RegisterNodeResponse)
      → (register_node transport api q).0 ≡ ok r
      → (validate_request q ≡ ok tt) × (validate_response r ≡ ok tt) × IsAnswer r q
  unfolding register_node
  register_node-IsAnswer ⦃i⦄ ⦃o⦄ q r h =
      let (a, b, c) = sent-eq-ok api (local_errors (validate_request q)) _ h in
      (validate_for_request_iff r q).0 (checked_for-eq-ok q _ r c)

contains_byte-append :
    (s t : Bytes) (b : ℕ) → contains_byte (s ++ t) b ≡ (contains_byte s b || contains_byte t b)
unfolding contains_byte
contains_byte-append [] t b = refl
contains_byte-append (c ∷ s) t b = ground (arith, contains_byte-append s t b)

escaped_byte :
    (c : ℕ) → contains_byte (if is_segment_byte c then c ∷ [] else percent c) b'/' ≡ false
unfolding contains_byte
escaped_byte c = ground arith

path_escape-slash : (s : Bytes) → contains_byte (path_escape s) b'/' ≡ false
unfolding path_escape contains_byte
path_escape-slash [] = refl
path_escape-slash (c ∷ s) = ground (
  arith,
  contains_byte-append (if is_segment_byte c then c ∷ [] else percent c) (path_escape s) b'/',
  escaped_byte c,
  path_escape-slash s,
)

split_of_one : (s : Bytes) → contains_byte s b'/' ≡ false → split s b'/' ≡ s ∷ []
unfolding split contains_byte
split_of_one [] h = refl
split_of_one (c ∷ s) h = ground (arith, split_of_one s)

-- Whatever the ID, the path of an enrollment request has the same three segments before it and the
-- ID's escape as the last: no ID reaches another route.
pub split-enrollment_path :
    (id : Bytes)
    → split (enrollment_path id) b'/'
      ≡ [] ∷ bytes "nodes" ∷ bytes "enrollment-requests" ∷ path_escape (trim_space id) ∷ []
unfolding split
split-enrollment_path id =
    let one = split_of_one (path_escape (trim_space id)) (path_escape-slash (trim_space id)) in
    rw one refl
