-- ===== src/Errors.antt =====
-- The errors of packages clientapi and wgkeys, one constructor for a message. What a message quotes
-- (a field's name, an index, a limit) is left out; `%w` around another error keeps that error.
pub data Error : Type 0 where
  -- wireguard/validate.go
  invalid_utf8 control_character surrounding_whitespace key_not_canonical hostname_too_long
        label_length hostname_character endpoint_not_host_port endpoint_host endpoint_port
        dns_address not_an_address not_a_prefix :
      Error
  -- registration.go
  identifier_length identifier_character safe_string_length credential_too_long digest_blank
        digest_encoding identity_public_key :
      Error
  -- errors.go
  error_schema_version unknown_error_code wrong_http_status request_id_mismatch : Error
  -- lineio.go
  limit_not_positive line_too_large read_failed : Error
  -- signing_trust.go
  bad_signing_public_key bundle_version active_key_id_missing keys_missing key_id_missing
        key_id_duplicated key_algorithm key_id_underived key_window active_key_missing
        resolve_key_id_missing not_yet_trusted trust_expired not_trusted :
      Error
  -- mapsign.go
  signing_public_key signing_provider_missing ttl_not_positive provider_failed provider_signature
        signature_missing signature_version signature_algorithm trust_anchor_missing
        signing_key_id_mismatch verify_public_key signature_encoding issued_at_missing
        expires_at_missing expires_before_issued not_yet_valid signature_expired
        payload_hash_mismatch verification_failed payload_key_id_missing marshal_failed
        signing_private_key :
      Error
  -- sharing.go
  share_field share_endpoints_same share_initiation share_lease share_addresses_overlap
        share_rights_count share_port_range share_icmp_ports share_protocol share_rights_overlap
        share_outside_lease share_duplicate share_local_mismatch share_peer_mismatch
        share_peer_absent share_overlaps_network share_key_shared share_overlaps_peer
        share_cross_network share_hosts share_host_prefix share_duplicate_family :
      Error
  -- acl_grants.go
  acl_mixed acl_too_many acl_allowed_ips acl_destinations acl_too_many_ports
        acl_destination_not_canonical acl_destination_outside acl_protocol acl_port :
      Error
  -- application.go
  app_cidr app_domain app_url app_url_port app_target_type app_address app_policy_hash
        app_node_binding app_route_binding app_route_destination app_route_overlay app_route_scope :
      Error
  -- networkmap_validate.go
  network_id_missing node_id_missing node_network_mismatch peer_id_missing peer_duplicate
        stun_id_missing relays_invalid relay_id_missing relay_network_mismatch relay_node_mismatch
        app_incomplete app_duplicate service_incomplete service_duplicate service_approval_mode
        service_port hosts_without_approval service_host dns_suffix nameserver_id
        nameserver_duplicate nameserver_address global_with_domains split_without_domains
        nameserver_scope split_domain search_domain search_domain_duplicate port_protocol
        port_number :
      Error
  -- mapstream.go and api.go
  resync_required already_applied unsupported_event event_id_missing unexpected_payload
        snapshot_incomplete result_signature_missing delta_missing base_hash_missing empty_id
        duplicate_id :
      Error
  -- nodecredential.go
  credential_format credential_encoding credential_payload credential_algorithm credential_version
        credential_key_id_missing credential_identity credential_expired credential_scope
        credential_trust_anchor credential_key_mismatch credential_signature credential_verification
        credential_scopes_missing credential_private_key credential_public_key
        credential_provider_missing :
      Error
  -- registration.go, behind the single fields
  request_schema_version network_missing fingerprint_missing too_many_candidates endpoint_ttl
        too_many_advertised_ips too_many_tags renewal_network_missing mixed_authorization
        binding_without_renewal authorization_missing identity_private_key identity_signature
        response_schema_version node_credential_missing credential_identity_mismatch
        map_signature_missing idempotency_mismatch binding_mismatch network_mismatch node_mismatch :
      Error
  -- api.go
  base_url_invalid base_url_user base_url_insecure base_url_scheme request_malformed response_json
        response_trailing random_failed stream_protocol stream_capabilities event_json
        event_trailing unexpected_eof :
      Error
  -- codec.go
  reader_missing body_unreadable body_too_large body_json body_trailing : Error
  -- wireguard/keys.go
  private_key_encoding private_key_length public_key_failed : Error
