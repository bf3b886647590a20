-- ===== src/Js.antt =====
-- The JavaScript values and the run time that the application's modules use.
pub mod Value
pub mod Convert
pub mod Runtime
pub mod Action
pub mod Trim
pub mod Traversal
