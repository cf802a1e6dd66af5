-- ===== src/Api/BaseUrl.antt =====
-- Which URLs the client takes for an origin.
use client_api.Prelude.{
  Bytes, bytes, bytes_eq, bytes_beq, ◌≡◌, refl, ◌↔◌, ◌⊎◌, inl, inr, true, false, not, ◌||◌, Option,
  some, none, [], ◌==◌, ok, arith, Bool-cases, if-cases, reject-eq-ok, reject-ok, eq_of_beq,
}
use client_api.Go.Strings.{trim_space, trim_suffix, to_lower}
use client_api.Errors.{base_url_invalid, base_url_user, base_url_insecure}
use client_api.External.{External, Url}
use client_api.Api.{validate_control_plane_base_url, check_scheme, check_url}

module _ ⦃x : External⦄ where
  -- The host as the check compares it.
  abbrev pub compared_host : Url → Bytes
  compared_host u = trim_suffix (to_lower u.hostname) (bytes ".")

  -- HTTPS, or plain HTTP to a loopback host.
  abbrev pub IsPrivate : Url → Type 0
  IsPrivate u =
      (to_lower u.scheme ≡ bytes "https")
      ⊎ ((to_lower u.scheme ≡ bytes "http")
          × ((compared_host u ≡ bytes "localhost") ⊎ (x.is_loopback_ip (compared_host u) ≡ true)))

  -- The text is a URL with a host, without user information, over a private connection.
  pub record IsSecure (raw_url : Bytes) : Type 0 where
    pub url : Url
    pub parsed : x.parse_url (trim_space raw_url) ≡ some url
    pub hosted : (url.host == []) ≡ false
    pub host_named : (url.hostname == []) ≡ false
    pub no_user : url.has_user ≡ false
    pub confidential : IsPrivate url

  loopback_of :
      (host : Bytes)
      → not (host == bytes "localhost" || x.is_loopback_ip host) ≡ false
      → (host ≡ bytes "localhost") ⊎ (x.is_loopback_ip host ≡ true)
  loopback_of host h = elim (Bool-cases (host == bytes "localhost")) [
    | inl e ↦ inl (eq_of_beq host (bytes "localhost") e)
    | inr e ↦ inr (ground arith)
  ]

  check_scheme-IsPrivate :
      (u : Url) → check_scheme (to_lower u.scheme) (compared_host u) ≡ ok tt → IsPrivate u
  check_scheme-IsPrivate u h = elim (if-cases (to_lower u.scheme == bytes "https") _ _ h) [
    | inl (e, _) ↦ inl (eq_of_beq (to_lower u.scheme) (bytes "https") e)
    | inr (_, k) ↦ elim (if-cases (to_lower u.scheme == bytes "http") _ _ k) [
      | inl (e, l) ↦ inr (
        eq_of_beq (to_lower u.scheme) (bytes "http") e,
        loopback_of (compared_host u) (reject-ok _ base_url_insecure l),
      )
      | inr (_, l) ↦ cc
    ]
  ]

  IsPrivate-check_scheme :
      (u : Url) → IsPrivate u → check_scheme (to_lower u.scheme) (compared_host u) ≡ ok tt
  unfolding bytes_beq
  IsPrivate-check_scheme u (inl e) = rw e refl
  IsPrivate-check_scheme u (inr (e, inl l)) = rw (e, l) refl
  IsPrivate-check_scheme u (inr (e, inr l)) = rw (e, l) (ground arith)

  check_url-IsSecure :
      (raw : Bytes) (o : Option Url)
      → x.parse_url (trim_space raw) ≡ o
      → check_url o ≡ ok tt
      → IsSecure raw
  check_url-IsSecure raw none p h = cc
  check_url-IsSecure raw (some u) p h =
      let (a, h1) = reject-eq-ok (u.host == [] || u.hostname == []) base_url_invalid _ h in
      let (b, h2) = reject-eq-ok u.has_user base_url_user _ h1 in
      record {
        url = u;
        parsed = p;
        hosted = ground arith;
        host_named = ground arith;
        no_user = b;
        confidential = check_scheme-IsPrivate u h2;
      }

  -- A base URL is accepted exactly when it is a URL with a host and without user information, over
  -- HTTPS, or over HTTP to localhost or a loopback address.
  pub validate_control_plane_base_url_iff :
      (raw_url : Bytes) → (validate_control_plane_base_url raw_url ≡ ok tt) ↔ IsSecure raw_url
  unfolding validate_control_plane_base_url
  validate_control_plane_base_url_iff raw_url = (
    check_url-IsSecure raw_url (x.parse_url (trim_space raw_url)) refl,
    λ i.
        rw (i.parsed)
          (simp (i.hosted, i.host_named, i.no_user, IsPrivate-check_scheme i.url i.confidential)),
  )
