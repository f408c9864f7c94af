-- ===== src/Spv.antt =====
-- src/pyrxd/spv: proofs that a Bitcoin transaction was mined, for a party without a node. SHA-256
-- (Python's `hashlib`, native code) is a parameter of every definition that hashes.
pub mod Pow
pub mod Merkle
pub mod Chain
pub mod Payment
pub mod Witness
pub mod Proof
mod Tests
