-- ===== src/Flow.antt =====
-- src/flow: operators that give one tuple after another.
pub mod Operator
pub mod Select
pub mod Product
pub mod Coroutine
pub mod Exchange
