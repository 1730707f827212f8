-- ===== src/Encoding.antt =====
-- The encodings that the services write tokens, hashes and addresses in: Go's `encoding/base64`,
-- `strings.Split` and `url.QueryEscape`, and the bytes of a text.
pub mod Bytes
pub mod Base64
pub mod Split
pub mod RoundTrip
pub mod Url
