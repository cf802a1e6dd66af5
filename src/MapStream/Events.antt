-- ===== src/MapStream/Events.antt =====
-- What a map that an event leads to is, and what a repeated event does.
use mathlib.Core.List.{Memᴰ}
use mathlib.Core.Path.{subst}
use client_api.Prelude.{
  bytes_eq, bytes_beq_iff, nat_eq, ◌≡◌, refl, sym, ap, ◌∙◌, true, not, ◌&&◌, Option, none, some, [],
  ◌==◌, Result, ok, err, ◌⊎◌, inl, inr, >>=-eq-ok, >>-eq-ok, reject-eq-ok, Bool-cases, arith,
  beq_refl,
}
use client_api.Types.Time.{Time}
use client_api.Types.Map.{NetworkMapSnapshot, MapDelta, MapStreamEvent}
use client_api.Types.Keys.{SigningTrustKey, SigningTrustBundle}
use client_api.External.{External}
use client_api.Trust.{resolve}
use client_api.Trust.Laws.{IsWithin, IsSound, resolve-IsSound}
use client_api.NetworkMap.{validate_network_map_snapshot}
use client_api.MapSign.{required, verify_network_map_snapshot_signature_at}
use client_api.MapSign.Laws.{IsSigned, verify_network_map_snapshot_signature_at_iff}
use client_api.Errors.{Error, result_signature_missing}
use client_api.MapStream.{
  Kind, heartbeat, checkpoint, snapshot, resync, delta, kind_of, revision_equal,
  validate_map_stream_event, current_map_hash, apply_map_delta, stamp, is_already_applied, replaced,
  already_applied, to_applied, verify_map_stream_result, apply_checkpoint, apply_snapshot,
  apply_delta, apply_kind, apply_map_stream_event,
}

-- How a delta's result comes from the cached map.
abbrev pub IsFromDelta : NetworkMapSnapshot → MapStreamEvent → NetworkMapSnapshot → Type 0
IsFromDelta current e s =
    (revision_equal current.revision e.from ≡ true)
    × (e.base_hash ≡ current_map_hash current)
    × ((d : MapDelta) × (next : NetworkMapSnapshot) × (e.delta ≡ some d)
        × (apply_map_delta current d ≡ ok next)
        × (s ≡ stamp e next))

module _ ⦃x : External⦄ where
  -- A valid map signed by a key that the bundle trusts at `now`.
  pub record IsTrusted (s : NetworkMapSnapshot) (trust : SigningTrustBundle) (now : Time)
      : Type 0 where
    pub valid : validate_network_map_snapshot s ≡ ok tt
    pub key : SigningTrustKey
    pub listed : Memᴰ key trust.keys
    pub sound : IsSound key
    pub within : IsWithin key.not_before key.not_after now
    pub signed : IsSigned s key.public_key now

  verified-IsTrusted :
      (trust : SigningTrustBundle) (now : Time) (s : NetworkMapSnapshot) {r : NetworkMapSnapshot}
      → verify_map_stream_result trust now s ≡ ok r
      → IsTrusted s trust now × (s ≡ r)
  unfolding verify_map_stream_result
  verified-IsTrusted trust now s h =
      let (a, h1) = >>-eq-ok (validate_network_map_snapshot s) _ h in
      let (g, b, h2) = >>=-eq-ok (required result_signature_missing s.map_signature) _ h1 in
      let (key, c, h3) = >>=-eq-ok (resolve trust g.key_id now) _ h2 in
      let (d, h4) = >>-eq-ok (verify_network_map_snapshot_signature_at s key.public_key now) _ h3 in
      let (m, _, sound, w) = resolve-IsSound trust g.key_id now key c in
      (
        record {
          valid = a;
          key = key;
          listed = m;
          sound = sound;
          within = w;
          signed = ((verify_network_map_snapshot_signature_at_iff s key.public_key now).0 d).0;
        },
        cc h4,
      )

  -- The ways in which an event leads to a map.
  pub data Outcome (current : NetworkMapSnapshot) (e : MapStreamEvent) (trust : SigningTrustBundle)
      (now : Time) (s : NetworkMapSnapshot) : Type 0 where
    unchanged :
        s ≡ current → revision_equal current.revision e.to ≡ true → Outcome current e trust now s
    whole :
        (t : NetworkMapSnapshot)
        → e.snapshot ≡ some t
        → s ≡ stamp e t
        → IsTrusted s trust now
        → Outcome current e trust now s
    patched : IsFromDelta current e s → IsTrusted s trust now → Outcome current e trust now s

  checkpoint-Outcome :
      (current : NetworkMapSnapshot) (e : MapStreamEvent) (trust : SigningTrustBundle) (now : Time)
      {s : NetworkMapSnapshot}
      → apply_checkpoint current e ≡ ok s
      → Outcome current e trust now s
  unfolding apply_checkpoint
  checkpoint-Outcome current e trust now h =
      let (a, h1) = reject-eq-ok (not (revision_equal current.revision e.to)) _ _ h in
      let (b, h2) =
        reject-eq-ok (not (e.base_hash == []) && not (e.base_hash == current_map_hash current)) _ _
          h1 in
      unchanged (cc h2) (ground arith)

  snapshot-Outcome :
      (current : NetworkMapSnapshot) (e : MapStreamEvent) (trust : SigningTrustBundle) (now : Time)
      (o : Option NetworkMapSnapshot) {s : NetworkMapSnapshot}
      → e.snapshot ≡ o
      → apply_snapshot e trust now o ≡ ok s
      → Outcome current e trust now s
  unfolding apply_snapshot
  snapshot-Outcome current e trust now none p h = cc
  snapshot-Outcome current e trust now (some t) p h =
      let (a, q) = verified-IsTrusted trust now (stamp e t) h in whole t p (sym q) (rw (← q) a)

  delta-Outcome :
      (current : NetworkMapSnapshot) (e : MapStreamEvent) (trust : SigningTrustBundle) (now : Time)
      (o : Option MapDelta) {s : NetworkMapSnapshot}
      → e.delta ≡ o
      → apply_delta current e trust now o ≡ ok s
      → Outcome current e trust now s
  unfolding apply_delta
  delta-Outcome current e trust now none p h = cc
  delta-Outcome current e trust now (some d) p h =
      let (a, h1) = reject-eq-ok (not (revision_equal current.revision e.from)) _ _ h in
      let (b, h2) = reject-eq-ok (not (e.base_hash == current_map_hash current)) _ _ h1 in
      let (next, c, h3) = >>=-eq-ok (apply_map_delta current d) _ h2 in
      let (f, q) = verified-IsTrusted trust now (stamp e next) h3 in
      patched
        (
          ground arith,
          ground (arith, bytes_beq_iff e.base_hash (current_map_hash current)),
          (d, next, p, c, sym q),
        )
        (rw (← q) f)

  kind-Outcome :
      (current : NetworkMapSnapshot) (e : MapStreamEvent) (trust : SigningTrustBundle) (now : Time)
      (k : Option Kind) {s : NetworkMapSnapshot}
      → apply_kind current e trust now k ≡ ok s
      → Outcome current e trust now s
  unfolding apply_kind
  kind-Outcome current e trust now none h = cc
  kind-Outcome current e trust now (some heartbeat) h = checkpoint-Outcome current e trust now h
  kind-Outcome current e trust now (some checkpoint) h = checkpoint-Outcome current e trust now h
  kind-Outcome current e trust now (some snapshot) h =
      snapshot-Outcome current e trust now e.snapshot refl h
  kind-Outcome current e trust now (some resync) h =
      snapshot-Outcome current e trust now e.snapshot refl h
  kind-Outcome current e trust now (some delta) h = delta-Outcome current e trust now e.delta refl h

  to_applied-eq-replaced :
      (r : Result Error NetworkMapSnapshot) {s : NetworkMapSnapshot}
      → to_applied r ≡ replaced s
      → r ≡ ok s
  to_applied-eq-replaced (ok t) h = cc
  to_applied-eq-replaced (err e) h = cc

  replaced-parts :
      (current : NetworkMapSnapshot) (e : MapStreamEvent) (trust : SigningTrustBundle) (now : Time)
      (s : NetworkMapSnapshot)
      → apply_map_stream_event current e trust now ≡ replaced s
      → (validate_map_stream_event e ≡ ok tt)
        × (apply_kind current e trust now (kind_of e.type) ≡ ok s)
  unfolding apply_map_stream_event
  replaced-parts current e trust now s h = elim (Bool-cases (is_already_applied current e)) [
    | inl a ↦ ground arith
    | inr a ↦
        ground (arith, to_applied-eq-replaced (apply_kind current e trust now (kind_of e.type)))
  ]

  -- The map that an event leads to is the cached map with the event's revision, or the event's
  -- whole map, or what the event's delta makes of a cached map that has the delta's base revision
  -- and hash. In the last two cases it carries the event's revision and signature, is valid, and
  -- is signed by a key that the trust bundle lists with a validity window around `now`.
  pub apply_map_stream_event-Outcome :
      (current : NetworkMapSnapshot) (e : MapStreamEvent) (trust : SigningTrustBundle) (now : Time)
      (s : NetworkMapSnapshot)
      → apply_map_stream_event current e trust now ≡ replaced s
      → Outcome current e trust now s
  apply_map_stream_event-Outcome current e trust now s h =
      kind-Outcome current e trust now (kind_of e.type) (replaced-parts current e trust now s h).1

  stamp-is_already_applied :
      (e : MapStreamEvent) (t : NetworkMapSnapshot) (trust : SigningTrustBundle) (now : Time)
      → IsTrusted (stamp e t) trust now
      → is_already_applied (stamp e t) e ≡ true
  unfolding is_already_applied revision_equal
  stamp-is_already_applied e t trust now i =
      ground (arith, i.signed.present, beq_refl i.signed.g.payload_hash)

  already_applied_of_trusted :
      (e : MapStreamEvent) (t s : NetworkMapSnapshot) (trust : SigningTrustBundle)
      (now later : Time)
      → validate_map_stream_event e ≡ ok tt
      → s ≡ stamp e t
      → IsTrusted s trust now
      → apply_map_stream_event s e trust later ≡ already_applied s
  unfolding apply_map_stream_event
  already_applied_of_trusted e t s trust now later v p i = ground (
    arith,
    ap (λ r. is_already_applied r e) p
        ∙ stamp-is_already_applied e t trust now (subst (λ r. IsTrusted r trust now) p i),
  )

  -- An event that has led to another map than the cached one is reported as already applied when
  -- it comes again to that map, at any later time and under the same trust bundle.
  pub apply_map_stream_event_twice :
      (current : NetworkMapSnapshot) (e : MapStreamEvent) (trust : SigningTrustBundle)
      (now later : Time) (s : NetworkMapSnapshot)
      → apply_map_stream_event current e trust now ≡ replaced s
      → (s ≡ current) ⊎ (apply_map_stream_event s e trust later ≡ already_applied s)
  apply_map_stream_event_twice current e trust now later s h =
      let v = (replaced-parts current e trust now s h).0 in
      elim (apply_map_stream_event-Outcome current e trust now s h) [
        | unchanged p _ ↦ inl p
        | whole t _ p i ↦ inr (already_applied_of_trusted e t s trust now later v p i)
        | patched (_, _, (d, next, _, _, p)) i ↦
            inr (already_applied_of_trusted e next s trust now later v p i)
      ]
