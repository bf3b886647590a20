-- ===== src/Scripts/Suites.antt =====
-- js-scripts/app.js: the statements that are tested, each with what is expected of it.
pub mod Auth
pub mod DataTypes
pub mod Regression
pub mod Indexing
pub mod Joins
pub mod AlterTable
pub mod Queries
pub mod Whitespace
pub mod Literals
pub mod Fragment
