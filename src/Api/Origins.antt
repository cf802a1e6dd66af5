-- ===== src/Api/Origins.antt =====
-- The origins of a client: a list of different URLs in their form, the active one first.
use mathlib.Core.List.{Memᴰ}
use mathlib.Core.Path.{subst}
use client_api.Prelude.{
  Bytes, bytes_eq, bytes_beq_iff, ◌≡◌, refl, sym, ap, ◌∙◌, true, false, List, [], ◌∷◌, ◌++◌, ◌==◌,
  contains, map, All, All-map, All-member, All-both, All-Memᴰ, Distinct, Result, arith, beq_refl,
  Bool-cases, eq_of_beq, inl, inr,
}
use client_api.External.{External}
use client_api.Cleaning.{keep_new, url_form, normalize_control_plane_urls}
use client_api.Cleaning.Laws.{
  keep_new-Distinct, keep_new-nonempty, keep_new-contains, keep_new-All, keep_new_of_clean,
}
use client_api.Api.{
  Api, Call, CallError, Failure, Transport, control_plane_urls, set_active_base_url, run,
  new_api_with_base_urls, first_url,
}
use client_api.Api.Failover.{
  Run, nothing_left, no_request, denied, reached, went_on, try_origins-Run,
}

-- A URL as the client stores it: trimmed of white space and of slashes, and not empty.
abbrev pub IsOrigin : Bytes → Type 0
IsOrigin u = (url_form u ≡ u) × ((u == []) ≡ false)

pub record IsReady (api : Api) : Type 0 where
  pub rest : List Bytes
  pub listed : api.base_urls ≡ api.base_url ∷ rest
  pub formed : All IsOrigin api.base_urls
  pub distinct : Distinct api.base_urls

unseen :
    (u : Bytes) (rest : List Bytes)
    → All IsOrigin rest
    → contains u rest ≡ false
    → All (λ v. (url_form v ≡ v) × ((v == []) ≡ false) × (contains v (u ∷ []) ≡ false)) rest
unfolding contains
unseen u [] h d = tt
unseen u (v ∷ rest) ((f, n), h) d =
    ((f, n, ground (arith, bytes_beq_iff u v, bytes_beq_iff v u)), unseen u rest h (ground arith))

normalize_first :
    (u : Bytes) (rest : List Bytes)
    → All IsOrigin (u ∷ rest)
    → Distinct (u ∷ rest)
    → normalize_control_plane_urls (u ∷ u ∷ rest) ≡ u ∷ rest
unfolding normalize_control_plane_urls keep_new contains
normalize_first u rest ((f, n), h) (d, ds) =
    rw (f, n, beq_refl u, keep_new)
      (ap (λ r. u ∷ r) (keep_new_of_clean url_form (u ∷ []) rest (unseen u rest h d) ds))

-- A ready client tries its list of origins as it stands.
pub control_plane_urls-IsReady : (api : Api) → IsReady api → control_plane_urls api ≡ api.base_urls
unfolding control_plane_urls
control_plane_urls-IsReady api i =
    ap (λ us. normalize_control_plane_urls (api.base_url ∷ us)) i.listed
    ∙ normalize_first api.base_url i.rest (subst (All IsOrigin) i.listed i.formed)
        (subst Distinct i.listed i.distinct)
    ∙ sym i.listed

contains_member : (u : Bytes) (us : List Bytes) → Memᴰ u us → contains u us ≡ true
unfolding contains
contains_member u [] m = elim m [ ]
contains_member u (v ∷ us) (Memᴰ.head e) = ground (arith, bytes_beq_iff u v, e)
contains_member u (v ∷ us) (Memᴰ.tail m) = ground (arith, contains_member u us m)

no_empty : (us : List Bytes) → All IsOrigin us → contains [] us ≡ false
unfolding contains
no_empty [] h = refl
no_empty (v ∷ us) ((f, n), h) =
    ground (arith, n, no_empty us h, bytes_beq_iff [] v, bytes_beq_iff v [])

module _ (api : Api) (ready : IsReady api) (u : Bytes) (member : Memᴰ u api.base_urls) where
  u-IsOrigin : IsOrigin u
  u-IsOrigin = All-Memᴰ IsOrigin api.base_urls u ready.formed member

  active_urls :
      (set_active_base_url api u).base_urls ≡ normalize_control_plane_urls (u ∷ api.base_urls)
  unfolding set_active_base_url
  active_urls = simp (u-IsOrigin.0, u-IsOrigin.1)

  active_url : (set_active_base_url api u).base_url ≡ u
  unfolding set_active_base_url
  active_url = simp (u-IsOrigin.0, u-IsOrigin.1)

  normalized_urls :
      normalize_control_plane_urls (u ∷ api.base_urls)
      ≡ u ∷ keep_new url_form (u ∷ []) api.base_urls
  unfolding normalize_control_plane_urls keep_new contains
  normalized_urls = rw (u-IsOrigin.0, u-IsOrigin.1) refl

  normalized-IsOrigin : All IsOrigin (normalize_control_plane_urls (u ∷ api.base_urls))
  unfolding normalize_control_plane_urls
  normalized-IsOrigin =
      All-both (λ v. url_form v ≡ v) _ _
        (keep_new-All url_form (λ v. url_form v ≡ v) [] (u ∷ api.base_urls)
          (
            ap url_form u-IsOrigin.0,
            All-map _ _ (λ v (f, n). ap url_form f) api.base_urls ready.formed,
          ))
        (keep_new-nonempty url_form [] (u ∷ api.base_urls))

  pub set_active_base_url-IsReady : IsReady (set_active_base_url api u)
  unfolding normalize_control_plane_urls
  set_active_base_url-IsReady = record {
    rest = keep_new url_form (u ∷ []) api.base_urls;
    listed =
        active_urls
        ∙ normalized_urls
        ∙ ap (λ b. b ∷ keep_new url_form (u ∷ []) api.base_urls) (sym active_url);
    formed = subst (All IsOrigin) (sym active_urls) normalized-IsOrigin;
    distinct = subst Distinct (sym active_urls) (keep_new-Distinct url_form [] (u ∷ api.base_urls));
  }

  mapped : (us : List Bytes) → All IsOrigin us → map url_form us ≡ us
  mapped [] h = refl
  mapped (v ∷ us) ((f, n), h) = rw f (ap (λ r. v ∷ r) (mapped us h))

  same_nonempty :
      (k : Bytes)
      → (k == []) ≡ false
      → contains k (set_active_base_url api u).base_urls ≡ contains k api.base_urls
  unfolding normalize_control_plane_urls contains
  same_nonempty k n =
      let back = ap (contains k) (mapped (u ∷ api.base_urls) (u-IsOrigin, ready.formed)) in
      ap (contains k) active_urls
      ∙ ground (
        arith,
        keep_new-contains url_form k [] (u ∷ api.base_urls) n,
        back,
        bytes_beq_iff k u,
        contains_member u api.base_urls member,
      )

  pub set_active_base_url-contains :
      (k : Bytes) → contains k (set_active_base_url api u).base_urls ≡ contains k api.base_urls
  set_active_base_url-contains k = elim (Bool-cases (k == [])) [
    | inl e ↦
        let empty = eq_of_beq k [] e in
        rw empty (
          no_empty (set_active_base_url api u).base_urls set_active_base_url-IsReady.formed
          ∙ sym (no_empty api.base_urls ready.formed))
    | inr n ↦ same_nonempty k n
  ]

-- A call keeps the client ready.
pub record Keeps (api after : Api) : Type 0 where
  pub ready : IsReady after
  pub same_origins : (k : Bytes) → contains k after.base_urls ≡ contains k api.base_urls

module _ ⦃x : External⦄ {A : Type 0} (transport : Transport) (api : Api) (call : Call A) where
  Run-Keeps :
      (urls : List Bytes) (failures : List Failure) (o : Result CallError A × Api)
      → IsReady api
      → Run transport api call urls failures o
      → All (λ u. Memᴰ u api.base_urls) urls
      → Keeps api o.1
  Run-Keeps urls failures o i (nothing_left _) m = record { ready = i; same_origins = λ k. refl }
  Run-Keeps urls failures o i (no_request u rest _ e a) m = record {
    ready = i;
    same_origins = λ k. refl;
  }
  Run-Keeps urls failures o i (denied u rest _ e a) m = record {
    ready = i;
    same_origins = λ k. refl;
  }
  Run-Keeps urls failures o i (reached u rest _ r a) (m, _) = record {
    ready = set_active_base_url-IsReady api i u m;
    same_origins = set_active_base_url-contains api i u m;
  }
  Run-Keeps urls failures o i (went_on u rest _ f _ a run) (_, m) =
      Run-Keeps rest (failures ++ f ∷ []) o i run m

  -- Whatever the origins answer, a call leaves the client with the same set of origins, different
  -- and in their form, the active one first.
  pub run-IsReady : IsReady api → Keeps api (run transport api call).1
  unfolding run
  run-IsReady i =
      Run-Keeps (control_plane_urls api) [] _ i
        (try_origins-Run transport api call (control_plane_urls api) [])
        (subst (λ us. All (λ u. Memᴰ u api.base_urls) us) (sym (control_plane_urls-IsReady api i))
          (All-member api.base_urls))

-- A new client is ready when a URL is left after normalization, which a second one does not change.
pub new_api_with_base_urls-IsReady :
    (urls : List Bytes) (token u : Bytes) (rest : List Bytes)
    → All (λ v. url_form (url_form v) ≡ url_form v) urls
    → normalize_control_plane_urls urls ≡ u ∷ rest
    → IsReady (new_api_with_base_urls urls token)
unfolding new_api_with_base_urls normalize_control_plane_urls
new_api_with_base_urls-IsReady urls token u rest formed e = record {
  rest = rest;
  listed = e ∙ ap (λ us. first_url us ∷ rest) (sym e);
  formed =
      All-both (λ v. url_form v ≡ v) _ _
        (keep_new-All url_form (λ v. url_form v ≡ v) [] urls formed)
        (keep_new-nonempty url_form [] urls);
  distinct = keep_new-Distinct url_form [] urls;
}
