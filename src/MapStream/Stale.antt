-- ===== src/MapStream/Stale.antt =====
-- When an event asks for a resync.
use client_api.Prelude.{
  Bytes, bytes_eq, bytes_beq_iff, nat_eq, nat_beq_iff, ◌≡◌, ◌≢◌, refl, true, false, ◌&&◌, none,
  some, [], ◌==◌, Result, ok, err, ◌⊎◌, inl, inr, Bool-cases, Option-cases, arith,
}
use client_api.Types.Time.{Time}
use client_api.Types.Map.{MapRevision, NetworkMapSnapshot, MapStreamEvent}
use client_api.Types.Keys.{SigningTrustBundle}
use client_api.External.{External}
use client_api.Errors.{Error, resync_required}
use client_api.MapStream.{
  heartbeat, checkpoint, delta, kind_of, revision_equal, validate_shape, validate_map_stream_event,
  current_map_hash, is_already_applied, already_applied, failed, apply_checkpoint, apply_delta,
  apply_kind, apply_map_stream_event,
}

-- The revisions differ in the network's number or in the global one.
abbrev pub Differ : MapRevision → MapRevision → Type 0
Differ a b = (a.network ≢ b.network) ⊎ (a.global ≢ b.global)

revision_equal-false : (a b : MapRevision) → Differ a b → revision_equal a b ≡ false
unfolding revision_equal
revision_equal-false a b (inl h) = ground (arith, nat_beq_iff a.network b.network)
revision_equal-false a b (inr h) = ground (arith, nat_beq_iff a.global b.global)

revision_equal-parts :
    (a b : MapRevision)
    → revision_equal a b ≡ true
    → (a.network ≡ b.network) × (a.global ≡ b.global)
unfolding revision_equal
revision_equal-parts a b h =
    (ground (arith, nat_beq_iff a.network b.network), ground (arith, nat_beq_iff a.global b.global))

beq-false : (a b : Bytes) → a ≢ b → (a == b) ≡ false
beq-false a b h = ground (arith, bytes_beq_iff a b)

module _ ⦃x : External⦄ where
  -- The event does not follow from the cached map: a delta from another revision or payload hash,
  -- or a heartbeat or checkpoint at another revision or with another base hash, if it has one.
  pub data IsStale (current : NetworkMapSnapshot) (e : MapStreamEvent) : Type 0 where
    delta_from : kind_of e.type ≡ some delta → Differ current.revision e.from → IsStale current e
    delta_onto :
        kind_of e.type ≡ some delta → e.base_hash ≢ current_map_hash current → IsStale current e
    mark_at :
        (kind_of e.type ≡ some heartbeat) ⊎ (kind_of e.type ≡ some checkpoint)
        → Differ current.revision e.to
        → IsStale current e
    mark_onto :
        (kind_of e.type ≡ some heartbeat) ⊎ (kind_of e.type ≡ some checkpoint)
        → e.base_hash ≢ []
        → e.base_hash ≢ current_map_hash current
        → IsStale current e

  has_delta :
      (e : MapStreamEvent)
      → validate_map_stream_event e ≡ ok tt
      → kind_of e.type ≡ some delta
      → e.delta ≢ none
  unfolding validate_map_stream_event validate_shape
  has_delta e v k n = ground arith

  delta-stale :
      (current : NetworkMapSnapshot) (e : MapStreamEvent) (trust : SigningTrustBundle) (now : Time)
      → e.delta ≢ none
      → ((revision_equal current.revision e.from) && (e.base_hash == current_map_hash current))
        ≡ false
      → apply_delta current e trust now e.delta ≡ err resync_required
  unfolding apply_delta
  delta-stale current e trust now d h = elim (Option-cases e.delta) [
    | inl n ↦ absurd (d n)
    | inr (c, n) ↦ rw n (ground arith)
  ]

  mark-stale :
      (current : NetworkMapSnapshot) (e : MapStreamEvent) (trust : SigningTrustBundle) (now : Time)
      → (kind_of e.type ≡ some heartbeat) ⊎ (kind_of e.type ≡ some checkpoint)
      → apply_checkpoint current e ≡ err resync_required
      → apply_kind current e trust now (kind_of e.type) ≡ err resync_required
  unfolding apply_kind
  mark-stale current e trust now (inl k) h = rw k h
  mark-stale current e trust now (inr k) h = rw k h

  apply_kind-stale :
      (current : NetworkMapSnapshot) (e : MapStreamEvent) (trust : SigningTrustBundle) (now : Time)
      → validate_map_stream_event e ≡ ok tt
      → IsStale current e
      → apply_kind current e trust now (kind_of e.type) ≡ err resync_required
  unfolding apply_kind apply_checkpoint
  apply_kind-stale current e trust now v (delta_from k h) =
      let n = revision_equal-false current.revision e.from h in
      rw k (delta-stale current e trust now (has_delta e v k) (ground arith))
  apply_kind-stale current e trust now v (delta_onto k h) =
      let n = beq-false e.base_hash (current_map_hash current) h in
      rw k (delta-stale current e trust now (has_delta e v k) (ground arith))
  apply_kind-stale current e trust now v (mark_at k h) =
      let n = revision_equal-false current.revision e.to h in
      mark-stale current e trust now k (ground arith)
  apply_kind-stale current e trust now v (mark_onto k h g) =
      let n = beq-false e.base_hash [] h in
      let m = beq-false e.base_hash (current_map_hash current) g in
      mark-stale current e trust now k (ground arith)

  -- What an event that does not follow from the cached map comes to.
  pub data Refusal (current : NetworkMapSnapshot) (e : MapStreamEvent) (trust : SigningTrustBundle)
      (now : Time) : Type 0 where
    malformed :
        (problem : Error)
        → validate_map_stream_event e ≡ err problem
        → apply_map_stream_event current e trust now ≡ failed problem
        → Refusal current e trust now
    known :
        current.revision.network ≡ e.to.network
        → current.revision.global ≡ e.to.global
        → apply_map_stream_event current e trust now ≡ already_applied current
        → Refusal current e trust now
    resynced :
        apply_map_stream_event current e trust now ≡ failed resync_required
        → Refusal current e trust now

  validated :
      (current : NetworkMapSnapshot) (e : MapStreamEvent) (trust : SigningTrustBundle) (now : Time)
      → IsStale current e
      → validate_map_stream_event e ≡ ok tt
      → Refusal current e trust now
  unfolding apply_map_stream_event is_already_applied
  validated current e trust now s v = elim (Bool-cases (is_already_applied current e)) [
    | inl a ↦
        let (p, q) = revision_equal-parts current.revision e.to (ground arith) in
        Refusal.known p q (rw (v, a, apply_map_stream_event) refl)
    | inr a ↦
        Refusal.resynced
          (rw (v, a, apply_kind-stale current e trust now v s, apply_map_stream_event) refl)
  ]

  by_validation :
      (current : NetworkMapSnapshot) (e : MapStreamEvent) (trust : SigningTrustBundle) (now : Time)
      (r : Result Error Unit)
      → IsStale current e
      → validate_map_stream_event e ≡ r
      → Refusal current e trust now
  unfolding apply_map_stream_event
  by_validation current e trust now (err problem) s v =
      Refusal.malformed problem v (rw (v, apply_map_stream_event) refl)
  by_validation current e trust now (ok t) s v = validated current e trust now s v

  -- A delta from another revision, in the network's number or in the global one, or onto another
  -- payload hash than the cached map's never changes the map, nor does a heartbeat or a checkpoint
  -- at another revision or with a base hash that is not the cached map's: the event is malformed
  -- and fails with that error, or its target is the cached map's revision and it is already
  -- applied, or it asks for a resync.
  pub apply_map_stream_event_stale :
      (current : NetworkMapSnapshot) (e : MapStreamEvent) (trust : SigningTrustBundle) (now : Time)
      → IsStale current e
      → Refusal current e trust now
  apply_map_stream_event_stale current e trust now s =
      by_validation current e trust now (validate_map_stream_event e) s refl
