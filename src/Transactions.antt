-- ===== src/Transactions.antt =====
-- Transactions (objects/src/transaction).
pub mod Unique
pub mod InputNotes
pub mod OutputNotes
pub mod Chain
pub mod TransactionInputs
pub mod Proven
