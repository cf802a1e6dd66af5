-- ===== src/NetworkMap/Catalog.antt =====
-- networkmap_validate.go: the network's applications, services and DNS configuration.
use client_api.Prelude.{
  Bytes, bytes, bytes_eq, Bool, false, not, ◌&&◌, ◌||◌, Option, none, some, List, [], ◌∷◌, ltb,
  ◌==◌, nat_eq, contains, length, all, Result, ok, err, ◌>>◌, reject, Check, for_each,
  if◌then◌else◌,
}
use client_api.Go.Strings.{trim_space, trim_suffix, to_lower}
use client_api.Go.Netip.{Addr}
use client_api.Types.Network.{Application, AdvertisedService, ServicePort, DnsConfig, DnsNameserver}
use client_api.Types.Map.{NetworkMapSnapshot}
use client_api.External.{External}
use client_api.Wireguard.{validate_safe_text}
use client_api.Domains.{valid_dns_domain}
use client_api.Application.{parse_application_target, identities, validate_bindings}
use client_api.Errors.{
  Error, app_incomplete, app_duplicate, service_incomplete, service_duplicate,
  service_approval_mode, service_port, hosts_without_approval, service_host, dns_suffix,
  nameserver_id, nameserver_duplicate, nameserver_address, global_with_domains,
  split_without_domains, nameserver_scope, split_domain, search_domain, search_domain_duplicate,
}

-- validateMapText of each field
unfoldable pub validate_map_texts : List Bytes → Check Error
validate_map_texts texts = for_each validate_safe_text texts

abbrev is_blank : Bytes → Bool
is_blank text = trim_space text == []

abbrev discard {ℓ} : {A : Type ℓ} → Result Error A → Check Error
discard (ok a) = ok tt
discard (err e) = err e

module _ ⦃x : External⦄ where
  -- The loop in validateApplications, with the IDs seen before.
  unfoldable pub validate_application_list : List Bytes → List Application → Check Error
  validate_application_list seen [] = ok tt
  validate_application_list seen (app ∷ apps) = do
    reject (is_blank app.id || is_blank app.name || is_blank app.target_type || is_blank app.target)
        app_incomplete
    reject (contains app.id seen) app_duplicate
    validate_map_texts (app.id ∷ app.name ∷ app.target_type ∷ app.target ∷ [])
    discard (parse_application_target app.target_type app.target)
    validate_application_list (app.id ∷ seen) apps

  -- validateApplications
  unfoldable pub validate_applications : List Application → Check Error
  validate_applications apps = validate_application_list [] apps

abbrev is_bad_service_port : ServicePort → Bool
is_bad_service_port port =
    not (port.protocol == bytes "tcp") && not (port.protocol == bytes "udp")
    || port.port == 0
    || ltb 65535 port.port

unfoldable pub validate_service : List Bytes → AdvertisedService → Check Error
validate_service seen service = do
  reject
      (is_blank service.id
        || is_blank service.name
        || not (valid_dns_domain service.dns_name)
        || length service.ports == 0)
      service_incomplete
  reject (contains service.id seen) service_duplicate
  validate_map_texts (
      service.id ∷ service.name ∷ service.description ∷ service.dns_name ∷ service.approval_status
      ∷ service.health ∷ [])
  reject
      (not (service.approval_mode == bytes "manual") && not (service.approval_mode == bytes "auto"))
      service_approval_mode
  for_each (λ port. reject (is_bad_service_port port) service_port) service.ports

-- The loop in validateServices, with the IDs seen before.
unfoldable pub validate_service_list : List Bytes → List AdvertisedService → Check Error
validate_service_list seen [] = ok tt
validate_service_list seen (service ∷ services) = do
  validate_service seen service
  validate_service_list (service.id ∷ seen) services

-- validateServices
unfoldable pub validate_services : List AdvertisedService → Check Error
validate_services services = validate_service_list [] services

unfoldable pub validate_hosts_of : NetworkMapSnapshot → AdvertisedService → Check Error
validate_hosts_of s service = do
  reject (not (length service.hosts == 0) && not (service.approval_status == bytes "approved"))
      hosts_without_approval
  validate_bindings service_host (identities s) [] service.hosts

-- validateServiceHosts
unfoldable pub validate_service_hosts : NetworkMapSnapshot → Check Error
validate_service_hosts s = for_each (validate_hosts_of s) s.network.services

-- The switch on a nameserver's scope.
unfoldable pub validate_scope : DnsNameserver → Check Error
validate_scope ns =
    if ns.scope == bytes "global"
    then reject (not (length ns.split_domains == 0)) global_with_domains
    else if ns.scope == bytes "split"
    then reject (length ns.split_domains == 0) split_without_domains
    else err nameserver_scope

module _ ⦃x : External⦄ where
  abbrev is_canonical_addr : Bytes → Option Addr → Bool
  is_canonical_addr text none = false
  is_canonical_addr text (some addr) = x.addr_string addr == text

  unfoldable pub validate_nameserver : List Bytes → DnsNameserver → Check Error
  validate_nameserver seen ns = do
    reject (is_blank ns.id || not (ns.id == trim_space ns.id)) nameserver_id
    reject (contains ns.id seen) nameserver_duplicate
    reject (not (is_canonical_addr ns.address (x.parse_addr ns.address))) nameserver_address
    validate_scope ns
    reject (not (all valid_dns_domain ns.split_domains)) split_domain

  -- The loop over the nameservers, with the IDs seen before.
  unfoldable pub validate_nameservers : List Bytes → List DnsNameserver → Check Error
  validate_nameservers seen [] = ok tt
  validate_nameservers seen (ns ∷ nss) = do
    validate_nameserver seen ns
    validate_nameservers (ns.id ∷ seen) nss

abbrev normalized_domain : Bytes → Bytes
normalized_domain domain = to_lower (trim_suffix domain (bytes "."))

-- The loop over the search domains, with the normalized ones seen before.
unfoldable pub validate_search_domains : List Bytes → List Bytes → Check Error
validate_search_domains seen [] = ok tt
validate_search_domains seen (domain ∷ domains) = do
  reject (not (valid_dns_domain domain)) search_domain
  reject (contains (normalized_domain domain) seen) search_domain_duplicate
  validate_search_domains (normalized_domain domain ∷ seen) domains

module _ ⦃x : External⦄ where
  -- validateDNSConfig
  unfoldable pub validate_dns_config : Option DnsConfig → Check Error
  validate_dns_config none = ok tt
  validate_dns_config (some config) = do
    reject (not (config.suffix == []) && not (valid_dns_domain config.suffix)) dns_suffix
    validate_nameservers [] config.nameservers
    validate_search_domains [] config.search_domains
