-- ===== src/Core.antt =====
-- core.h: transactions and the pruned form of a transaction that the coin database keeps.
pub mod OutPoint
pub mod TxIn
pub mod TxOut
pub mod Transaction
pub mod Codec
pub mod TxInUndo
pub mod Coins
