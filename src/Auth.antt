-- ===== src/Auth.antt =====
-- internal/shared/ondcauth/ondcauth.go: the Authorization header that signs a request body. Base64, BLAKE2b,
-- ed25519, the numbers of fmt and strconv, and the clock are parameters.
pub mod Header
pub mod Signing
pub mod Parts
pub mod Parsing
pub mod Acceptance
