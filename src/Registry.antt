-- ===== src/Registry.antt =====
-- What administrators configure, in the database: the tables of credentials, channels, policies and
-- client keys, with the operations of internal/audit/store.go, channels.go, credentials.go, keys.go,
-- key_lifecycle.go and policy_lifecycle.go.
pub mod Tables
pub mod Rows
pub mod Keyed
pub mod Connections
pub mod Policies
pub mod Keys
pub mod Commands
pub mod Consistent
pub mod References
pub mod Locks
pub mod Edits
pub mod OtherTables
pub mod Revocation
pub mod Withdrawn
