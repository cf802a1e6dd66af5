-- ===== src/Tests/Updates.antt =====
-- The map stream on the sample: a delta that adds the guest.
use client_api.Prelude.{
  Bytes, bytes, bytes_eq, ◌≡◌, ◌⊎◌, inl, arith, refl, some, none, ok, List, [], ◌∷◌, pos,
}
use client_api.Types.Map.{NetworkMapSnapshot, MapDelta, MapStreamEvent}
use client_api.Types.Node.{Peer}
use client_api.Types.Relay.{RelayEndpoint}
use client_api.Tests.{program}
use client_api.Tests.Sample.{outside, office, now, signature, trust, peer, guest}
use client_api.Errors.{resync_required}
use client_api.MapStream.{or_else, or_keep, failed, already_applied, apply_map_stream_event}
use client_api.MapStream.Merge.{normalized_id_set}
use client_api.MapStream.Merge.Laws.{merge-put_all, put_all, unremoved}
use client_api.MapStream.Delta.{IsPatched, apply_map_delta-IsPatched}
use client_api.MapStream.Stale.{IsStale, Refusal, apply_map_stream_event_stale}
use client_api.MapStream.Events.{
  Outcome, apply_map_stream_event-Outcome, apply_map_stream_event_twice,
}

-- An earlier peer, which the delta removes.
abbrev gone : Peer
gone = record peer { id = bytes "p9" }

abbrev cached : NetworkMapSnapshot
cached = record office {
  revision = record { network = 3; global = 8 };
  peers = gone ∷ record peer { hostname = bytes "old" } ∷ [];
  map_signature = some (record signature { payload_hash = bytes "old" });
}

abbrev change : MapDelta
change = record {
  network = none;
  node = none;
  peer_upserts = peer ∷ guest ∷ [];
  peer_remove_ids = bytes " p9" ∷ [];
  stun_endpoints = none;
  relay_upserts = [];
  relay_remove_ids = [];
  relay_credential = none;
}

abbrev event : MapStreamEvent
event = record {
  type = bytes "delta";
  protocol_version = pos 1;
  capabilities = [];
  event_id = bytes "e1";
  from = record { network = 3; global = 8 };
  to = office.revision;
  base_hash = bytes "old";
  reason = [];
  snapshot = none;
  delta = some change;
  result_signature = some signature;
}

apply_map_stream_event-Outcome_example : Outcome cached event trust now office
unfolding program
apply_map_stream_event-Outcome_example =
    apply_map_stream_event-Outcome cached event trust now office refl

apply_map_stream_event_twice_example :
    (office ≡ cached) ⊎ (apply_map_stream_event office event trust 0 ≡ already_applied office)
unfolding program
apply_map_stream_event_twice_example =
    apply_map_stream_event_twice cached event trust now 0 office refl

abbrev late : MapStreamEvent
late = record event { from = record { network = 2; global = 8 } }

late-IsStale : IsStale cached late
unfolding program
late-IsStale = IsStale.delta_from refl (inl (omega arith))

apply_map_stream_event_stale_example : Refusal cached late trust now
apply_map_stream_event_stale_example =
    apply_map_stream_event_stale cached late trust now late-IsStale

late_resynced : apply_map_stream_event cached late trust now ≡ failed resync_required
unfolding program
late_resynced = refl

abbrev patched_office : NetworkMapSnapshot
patched_office = record cached { peers = peer ∷ guest ∷ [] }

apply_map_delta-IsPatched_example :
    IsPatched
      (λ (p : Peer). p.id)
      cached.peers
      (peer ∷ guest ∷ [])
      (bytes " p9" ∷ [])
      (peer ∷ guest ∷ [])
    × IsPatched (λ (r : RelayEndpoint). r.id) [] [] [] []
    × (patched_office.network ≡ or_else none cached.network)
    × (patched_office.node ≡ or_else none cached.node)
    × (patched_office.stun_endpoints ≡ or_else none cached.stun_endpoints)
    × (patched_office.relay_credential ≡ or_keep none cached.relay_credential)
    × (patched_office.registration_binding ≡ cached.registration_binding)
unfolding program
apply_map_delta-IsPatched_example =
    apply_map_delta-IsPatched cached patched_office change (refl, (refl, tt)) tt (refl, (refl, tt))
      tt refl

merge-put_all_example :
    (remove : List Bytes) × (normalized_id_set [] (bytes " p9" ∷ []) ≡ ok remove)
    × (put_all
          (λ (p : Peer). p.id)
          (peer ∷ guest ∷ [])
          (unremoved (λ (p : Peer). p.id) remove cached.peers)
        ≡ peer ∷ guest ∷ [])
unfolding program
merge-put_all_example =
    merge-put_all (λ (p : Peer). p.id) cached.peers (peer ∷ guest ∷ []) (bytes " p9" ∷ [])
      (peer ∷ guest ∷ []) (refl, (refl, tt)) (refl, (refl, tt)) refl
