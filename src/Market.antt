-- ===== src/Market.antt =====
-- ssql_tests/nft-marketplace-backend: the second backend, its client of the RPC server, the routes of
-- its API and the script of its page.
pub mod Client
pub mod Statements
pub mod Routes
pub mod Page
