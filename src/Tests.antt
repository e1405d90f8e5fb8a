-- ===== src/Tests.antt =====
-- The theorems at concrete chains, pools and trees, with a toy digest in place of the `ring` crate.
mod Toy
mod Crates
mod Web
mod Mining
mod Chains
mod Pools
mod Hashes
mod Nodes
mod Wallet
mod Connections
mod Running
