-- ===== src/Runtime.antt =====
-- ic-kit-runtime: the simulated replica, its canisters and their messages.
pub mod Types
pub mod EnvBuilder
pub mod Call
pub mod StableMemory
pub mod Canister
pub mod Replica
