-- ===== src/Api/Endpoint.antt =====
-- The exported handlers together, and what holds of all of them.
pub mod Table
pub mod Reads
pub mod Access
pub mod Answers
pub mod Refusals
pub mod Verdicts
pub mod Hashes
