-- ===== src/Tests.antt =====
-- Tests on concrete data, with a small JSON library in place of nlohmann::json.
pub mod Toy
mod Evaluations
mod Requests
mod Events
mod Reports
mod Caches
mod Clients
mod Pools
mod Sessions
mod Unprintable
mod Users
mod Saves
mod Races
mod Tasks
mod Torn
