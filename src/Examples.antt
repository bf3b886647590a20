-- ===== src/Examples.antt =====
-- The theorems at concrete inputs, and tests.
mod Bank
mod Transfers
mod Routes
mod Toasts
mod Histories
mod Pages
mod Market
mod Logins
mod Windows
mod Scripts
mod Dashboards
mod Sessions
