-- ===== src/Go.antt =====
-- What the program uses of Go's standard library: `strings`, `unicode/utf8`, `net/netip`,
-- `encoding/base64`, `encoding/hex`, `net`, `strconv`.
pub mod Strings
pub mod Utf8
pub mod Netip
pub mod Base64
pub mod Hex
pub mod Net
pub mod AsciiLaws
pub mod Sort
pub mod Url
pub mod Regexp
