-- ===== src/Types/Http.antt =====
-- net/http, as far as the client reads and writes it.
use client_api.Prelude.{Bytes, ℕ, Option}
use client_api.LineIo.{Reader}

pub record Request : Type 0 where
  pub method : Bytes
  pub url : Bytes
  -- the bearer token and X-EndlessNet-Node-Credential
  pub authorization : Option Bytes
  pub node_credential : Option Bytes
  pub content_type : Option Bytes
  -- X-EndlessNet-Map-Protocol and X-EndlessNet-Map-Capabilities
  pub map_protocol : Option Bytes
  pub map_capabilities : Option Bytes
  pub body : Option Bytes

-- The body of a response comes as its whole text and as what a buffered reader over it delivers.
pub record Response : Type 0 where
  pub status_code : ℕ
  pub status : Bytes
  pub map_protocol : Bytes
  pub map_capabilities : Bytes
  pub body : Bytes
  pub slices : Reader

-- What HTTPClient.Do returns: a transport error or a response.
pub data Answer : Type 0 where
  no_answer : Answer
  answered : Response → Answer
