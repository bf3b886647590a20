-- ===== src/Api.antt =====
-- The route handlers of ssql_tests/mobile-banking-app/app/api, a module for each route.
pub mod Guard
pub mod Accounts
pub mod Beneficiaries
pub mod Cards
pub mod Transactions
pub mod Profile
pub mod SecurityLogs
pub mod Settings
pub mod Support
pub mod LoanPayments
pub mod Transfer
pub mod Login
pub mod Register
pub mod Loans
pub mod Dashboard
pub mod Endpoint
pub mod Secrets
