-- ===== src/Json.antt =====
-- src/statsig_compat/json_serialization: what the program reads from and writes to JSON text, over
-- the JSON library of JsonLib.antt.
pub mod InitializeResponse
pub mod ErrorArgs
pub mod User
pub mod Requests
pub mod RoundTrip
pub mod Dispatch
pub mod Members
pub mod Strings
pub mod EventMembers
