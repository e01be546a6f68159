-- ===== src/State.antt =====
-- internal/state: the files in which a command says what it is doing.
pub mod Stage
pub mod Values
pub mod Transaction
pub mod Inspect
pub mod Agree
pub mod Accepted
pub mod Tests
