-- ===== src/Types.antt =====
-- The wire types of clientapi/v1/types.go, sharing.go, signing_trust.go and nodecredential.go. A
-- pointer is an `Option`; a nil slice and an empty one are the same list.
pub mod Time
pub mod Relay
pub mod Network
pub mod Node
pub mod Map
pub mod Requests
pub mod Keys
pub mod Payload
pub mod Http
pub mod Candidate
pub mod Release
pub mod Component
