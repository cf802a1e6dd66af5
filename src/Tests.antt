-- ===== src/Tests.antt =====
-- Tests of the models on concrete values, and the theorems applied to them.
mod Sample
mod Maps
mod Updates
mod Lines
mod Signing
mod Credentials
mod Enrollment
mod Client
mod Releases
use client_api.AclGrants
use client_api.Api
use client_api.Api.Calls
use client_api.Api.Stream
use client_api.Application
use client_api.Cleaning
use client_api.Codec
use client_api.Credential
use client_api.Domains
use client_api.Fields
use client_api.Go.Base64
use client_api.Go.Hex
use client_api.Go.Net
use client_api.Go.Netip
use client_api.Go.Regexp
use client_api.Go.Sort
use client_api.Go.Sort.Texts
use client_api.Go.Strings
use client_api.Go.Url
use client_api.Go.Utf8
use client_api.Idempotency
use client_api.LineIo
use client_api.MapSign
use client_api.MapStream
use client_api.MapStream.Merge
use client_api.MapStream.Merge.Laws
use client_api.MapStream.Merge.View
use client_api.NetworkMap
use client_api.NetworkMap.Catalog
use client_api.NetworkMap.Members
use client_api.Prelude
use client_api.PublicError
use client_api.Registration
use client_api.ReleaseContract
use client_api.ReleaseContract.Candidates
use client_api.ReleaseContract.Components
use client_api.ReleaseContract.Envelope
use client_api.ReleaseContract.Frozen
use client_api.ReleaseContract.GateKeys
use client_api.ReleaseContract.Resolve
use client_api.Sharing
use client_api.Trust
use client_api.Types.Map
use client_api.Wireguard
use client_api.Wireguard.Keys

-- Opens the program's definitions.
unfoldable pub program : Unit {0}
unfolding AclGrants.validate_port AclGrants.covers AclGrants.parse_routes
    AclGrants.validate_destination AclGrants.validate_grant AclGrants.validate_acl_grants
    Api.is_control_plane_status Api.new_api_with_base_urls Api.new_api
    Api.new_api_with_node_credential_urls Api.control_plane_urls Api.set_active_base_url
    Api.with_bearer Api.should_fail_over_status Api.validate_control_plane_base_url Api.new_request
    Api.attempt Api.try_origins Api.requests_sent Api.run Api.decode_strict_api_response
    Calls.value_of Calls.request Calls.server_key Calls.create_network
    Calls.list_networks_for_account Calls.list_networks Calls.list_nodes Calls.create_join_token
    Calls.register_node Calls.create_node_enrollment_request Calls.node_enrollment_request_status
    Calls.complete_node_enrollment_request Calls.update_node_endpoint_state Calls.logout
    Stream.map_stream_capabilities_equal Stream.decode_strict_map_stream_event Stream.event_of
    Stream.turn_of Stream.read_events Stream.read_response Stream.read_map_stream_event
    Application.forbidden_blocks Application.application_prefix_allowed
    Application.application_address_allowed Application.validate_application_address
    Application.parse_application_target Application.identity_of Application.identities
    Application.validate_bindings Application.validate_route_cidrs Application.validate_routes
    Application.validate_application_binding Application.validate_application_bindings
    Cleaning.keep_new Cleaning.clean_strings Cleaning.normalize_control_plane_urls
    Codec.read_limited Codec.decode_strict Codec.decode_validated Codec.marshal_validated
    Codec.marshal_public_error Codec.decode_public_error Codec.marshal_register_node_request
    Codec.decode_register_node_request Codec.marshal_register_node_response
    Codec.decode_register_node_response Credential.clean_credential_scopes
    Credential.credential_has_scope Credential.node_credential_signing_payload
    Credential.sign_node_credential_with_provider Credential.sign_node_credential
    Credential.decode_node_credential Credential.validate_claims Credential.validate_node_credential
    Credential.verify_node_credential_with_trust_bundle Credential.is_signed_node_credential
    Domains.is_valid_label Domains.is_valid_domain_text Domains.valid_dns_domain
    Fields.validate_identifier Fields.validate_safe_string Fields.validate_opaque_credential
    Fields.validate_digest Fields.decode_identity_public_key Base64.letter Base64.letter_value
    Base64.encode Base64.drop_breaks Base64.last_of_two Base64.last_of_three Base64.group_of_four
    Base64.last_group Base64.decode_groups Base64.decode Hex.encode Hex.decode Net.cut_first
    Net.cut_last Net.has_bracket Net.split_host_port Net.digits_value Net.parse_digits Net.atoi
    Net.digits_before Net.itoa Netip.is_4_in_6 Netip.addr_beq Netip.masked Netip.prefix_beq
    Netip.prefix_contains Netip.overlaps Regexp.nullable Regexp.derivative Regexp.match_string
    Sort.insert_sorted Sort.sort Texts.bytes_lt Strings.space_width Strings.space_width_reversed
    Strings.trim_while Strings.trim_left_space Strings.trim_right_space Strings.trim_space
    Strings.has_prefix Strings.drop_bytes Strings.trim_prefix Strings.trim_suffix
    Strings.trim_right_byte Strings.split Strings.contains_byte Strings.to_lower Strings.join
    Url.path_escape Url.query_escape Utf8.decode_byte Utf8.decode_from Utf8.decode_runes
    Idempotency.new_create_idempotency_key Idempotency.new_registration_idempotency_id
    LineIo.read_slices LineIo.read_bounded_line LineIo.is_eof_with_no_data MapSign.peer_lt
    MapSign.relay_lt MapSign.stun_lt MapSign.signing_payload MapSign.check_times
    MapSign.canonical_network_map_payload MapSign.sign_network_map_snapshot_with_provider
    MapSign.sign_network_map_snapshot_at MapSign.sign_network_map_snapshot MapSign.check_key
    MapSign.verify_signature MapSign.verify_network_map_snapshot_signature_at
    MapSign.verify_network_map_snapshot_signature_with_trust_bundle MapSign.sign_network_map_at
    MapSign.sign_network_map MapSign.sign_network_map_with_provider
    MapSign.verify_network_map_signature_with_trust_bundle MapSign.verify_network_map_signature_at
    MapStream.revision_equal MapStream.has_full_map MapStream.kind_of MapStream.validate_shape
    MapStream.validate_map_stream_event MapStream.current_map_hash MapStream.merge_peers
    MapStream.merge_relays MapStream.apply_map_delta MapStream.is_already_applied
    MapStream.verify_map_stream_result MapStream.apply_checkpoint MapStream.apply_snapshot
    MapStream.apply_delta MapStream.apply_kind MapStream.apply_map_stream_event
    Merge.normalized_id_set Merge.position_of Merge.keep_current Merge.place Merge.apply_upserts
    Merge.merge Laws.put Laws.put_all Laws.unremoved View.find NetworkMap.validate_optional_prefix
    NetworkMap.validate_peers NetworkMap.validate_stun_endpoint NetworkMap.validate_relay
    NetworkMap.validate_relay_credential NetworkMap.validate_map_signature
    NetworkMap.validate_network NetworkMap.validate_members NetworkMap.validate_transport
    NetworkMap.validate_network_map_snapshot NetworkMap.validate_network_map
    Catalog.validate_map_texts Catalog.validate_application_list Catalog.validate_applications
    Catalog.validate_service Catalog.validate_service_list Catalog.validate_services
    Catalog.validate_hosts_of Catalog.validate_service_hosts Catalog.validate_scope
    Catalog.validate_nameserver Catalog.validate_nameservers Catalog.validate_search_domains
    Catalog.validate_dns_config Members.validate_peer_port Members.validate_optional_endpoint
    Members.validate_optional_addr Members.validate_map_node Members.validate_map_peer
    Prelude.bytes_beq Prelude.take Prelude.any Prelude.all Prelude.contains Prelude.for_each
    PublicError.known_error_codes PublicError.http_status PublicError.is_valid
    PublicError.requires_re_enrollment PublicError.validate PublicError.new_public_error
    PublicError.validate_http_status PublicError.validate_http_response
    Registration.is_credential_renewal Registration.validate_renewal
    Registration.validate_enrollment Registration.validate_authorization Registration.secret_binding
    Registration.registration_session_token_binding Registration.proof_of
    Registration.registration_identity_proof_payload
    Registration.registration_identity_proof_binding Registration.set_register_node_identity_proof
    Registration.verify_register_node_identity_proof Registration.validate_identity
    Registration.validate_optional_endpoint Registration.validate_offers
    Registration.validate_request Registration.validate_response Registration.validate_for_request
    ReleaseContract.digest ReleaseContract.validate_digest_reference ReleaseContract.artifact_digest
    ReleaseContract.actions_run_for ReleaseContract.release_artifact_reference_for_component
    Candidates.resolved Candidates.validate_components Candidates.validate_modules
    Candidates.validate_contracts Candidates.validate_candidate Candidates.reject_duplicate_names
    Candidates.reject_duplicate_paths Candidates.component_named Candidates.module_at
    Candidates.check_item Candidates.check_component Candidates.check_module
    Candidates.validate_candidate_provenance Candidates.validate_system_test_evidence
    Components.compatibility_gate_key Components.validate_compatibility_gates
    Components.validate_component_candidate Components.add_key Components.wanted_keys
    Components.seen_keys Components.check_binding Components.validate_released_component
    Components.validate_infrastructure_signal Envelope.check_promotion
    Envelope.build_released_envelope Envelope.lists_beq Envelope.resolved_beq
    Envelope.provenance_beq Envelope.validate_released_envelope Frozen.frozen_legacy_release_path
    Frozen.validate_line Frozen.validate_immutable_changes GateKeys.zeros Resolve.check_provenance
    Resolve.check_artifact Resolve.resolve_candidate Resolve.resolve_production
    Sharing.validate_share_field Sharing.validate_ports Sharing.validate_rights
    Sharing.collect_hosts Sharing.share_host_prefixes Sharing.validate Sharing.texts_beq
    Sharing.share_ips_equal Sharing.local_end Sharing.remote_end Sharing.local_hosts
    Sharing.share_local_ips_match Sharing.find_remote Sharing.check_other_peer
    Sharing.check_remote_ip Sharing.validate_grant Sharing.validate_grants
    Sharing.validate_share_peer_grants Sharing.validate_share_peer_grants_at Trust.signing_key_id
    Trust.new_signing_trust_bundle Trust.validate_key Trust.validate_keys Trust.validate
    Trust.find_key Trust.resolve Trust.signing_trust_bundle_from_response Trust.map_trust_bundle
    Trust.node_credential_trust_bundle Trust.relay_trust_bundle Map.snapshot_of
    Wireguard.validate_safe_text Wireguard.validate_key Wireguard.validate_public_key
    Wireguard.validate_private_key Wireguard.validate_label_from Wireguard.validate_label
    Wireguard.validate_hostname Wireguard.validate_endpoint Wireguard.validate_dns_ip
    Wireguard.validate_addr Wireguard.validate_prefix Keys.clear_low Keys.set_high
    Keys.generate_private_key Keys.public_key
program = tt
