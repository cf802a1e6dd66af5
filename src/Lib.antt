-- ===== src/Lib.antt =====
-- The client library of EndlessNet (clientapi/v1 and clientapi/wireguard), and its
-- release gates (systemtests/releasecontract): what a client accepts from
-- the control plane, and how it verifies it.
--
-- The program's parts. The control plane sends a network map: one network, this node, its peers, STUN
-- endpoints and relays. A client takes it as untrusted: it validates its texts, keys and addresses
-- (wireguard/validate.go), the map as a whole (networkmap_validate.go), the access grants of each peer
-- (acl_grants.go), the applications and their routes (application.go) and the sharing grants between
-- networks (sharing.go); and it verifies the map's signature (mapsign.go) under a key that a trust
-- bundle resolves (signing_trust.go). The map stream (mapstream.go, and the event's shape in api.go)
-- changes the cached map by whole maps and by deltas; its lines come from a bounded reader (lineio.go).
-- A node joins by a registration request that its device signs (registration.go, identityproof.go) and
-- is known afterwards by a signed node credential (nodecredential.go). The HTTP client (api.go) sends
-- the requests: it tries one origin of the control plane after another, remembers the one that answered,
-- and hands back what passes the checks above. Errors of the public routes have a closed set of codes
-- (errors.go), and their bodies are strict JSON of bounded size (codec.go). Apart from the client stand
-- the release gates (systemtests/releasecontract): a candidate is a set of components with immutable
-- artifacts, its provenance and a passed test run promote it to a released envelope, and production
-- resolves nothing else.
--
-- Files and code:
-- - Types, with a file per group: the structs of types.go, signing_trust.go and mapsign.go. A nil
--   slice and an empty one are the same list; a pointer is an Option. Time has the instants.
-- - Wireguard: clientapi/wireguard/validate.go. Fields: the field validators of registration.go and
--   identityproof.go. Domains: validDNSDomain. PublicError: errors.go. LineIo: lineio.go, where a
--   reader is the list of what ReadSlice returns next.
-- - Trust: signing_trust.go. MapSign: mapsign.go. AclGrants: acl_grants.go. Application:
--   application.go. Sharing: sharing.go. NetworkMap, with Catalog and Members:
--   networkmap_validate.go. MapStream, with Merge: mapstream.go and validateMapStreamEvent.
-- - Credential, with Scopes: nodecredential.go; Cleaning: its cleanStrings and the same loop of
--   NormalizeControlPlaneURLs. Registration, with Proof, Laws and
--   Answer: registration.go. Idempotency: idempotency.go.
-- - Api: the state of API, the origins, requests and the loop over the origins, which `request` and
--   ReadMapStreamEvent share, with the requests that it sends; Failover has it as a relation. Calls:
--   the calls; Stream: ReadMapStreamEvent. Types/Http: what the code uses of net/http.
-- - Codec: codec.go. Wireguard/Keys: wireguard/keys.go.
-- - ReleaseContract: systemtests/releasecontract/contract.go, with Candidates, Components, Envelope,
--   Resolve and Frozen for its records; their types are Types/Candidate, Types/Release and
--   Types/Component. A pattern is a value of Go/Regexp, matched by derivatives.
-- - Go: the parts of Go's standard library that the code uses, from their documentation: strings,
--   UTF-8, base64, hex, net.SplitHostPort, strconv, sort, url.PathEscape, regexp, and the operations
--   on parsed netip values.
-- - External: what is taken as parameters: parsing and printing of IP addresses, prefixes and URLs,
--   SHA-256, Ed25519, X25519, JSON, durations and the relay protocol's validation. Each theorem names
--   what it needs of them as a hypothesis.
-- - Errors: one constructor for each error of the code; its text is not modelled.
-- - Laws and the other children of a component hold its theorems; Tests applies them to one sample map.
--
-- How the code is modelled. A string is the list of its bytes. A Go function that returns an error is a
-- function into Result, its early returns a do block in the code's order. A range over a Go map, whose
-- order Go leaves open, goes in the order in which the map is written. A map used as a set is the list
-- of its keys. A loop is structural recursion over its list, with the variables that it changes as
-- arguments; only the loop over the lines of the map stream takes fuel, one turn more than the reader
-- has slices, and Api.Events shows that this is enough. A method that changes its receiver returns the
-- changed value beside its result. The transport is a function from a request to its answer, which
-- loses nothing in one call, since a call sends each origin one request at most. A field of a response
-- that the body left out is none, where Go has the zero value. The clock and the random bytes
-- are arguments. An int is an integer, and uint64 and time values are natural
-- numbers; the code does no arithmetic on them but on lengths, and adds durations to times. A
-- time has no location, since comparison and UTC() do not depend on it. The clone functions
-- copy memory and are the identity on values. sort.Slice is insertion sort, which fixes the order of
-- entries that the comparison does not tell apart. strings.ToLower is that of ASCII, which its callers'
-- checks leave.
--
-- Not modelled: http.Client itself, with its timeout and TLS settings (the one that
-- NewControlPlaneHTTPClient makes follows no redirect, so that it sends what the code hands it and no
-- more); the text of errors; generated RPC code; and, of the release gates, the command line with its files and git
-- (systemtests/cmd/releasecontract/main.go), DecodeStrict and WriteNewJSON.
pub mod Prelude
pub mod Go
pub mod Types
pub mod Errors
pub mod External
pub mod Cleaning
pub mod Wireguard
pub mod Fields
pub mod PublicError
pub mod LineIo
pub mod Trust
pub mod AclGrants
pub mod Domains
pub mod Application
pub mod Sharing
pub mod NetworkMap
pub mod MapSign
pub mod MapStream
pub mod Credential
pub mod Registration
pub mod Idempotency
pub mod Codec
pub mod Api
pub mod ReleaseContract
pub mod Tests
