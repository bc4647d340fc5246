-- ===== src/Policy.antt =====
-- What an administrator configures, its validation (internal/audit/model.go, provider.go), and the
-- candidates that a request gets from it (internal/audit/router.go, the first half of executeRoute).
pub mod Provider
pub mod Config
pub mod Settings
pub mod Candidates
pub mod Bindings
pub mod Choices
pub mod Ready
