-- ===== src/Wallet.antt =====
-- wallet.cpp: the coins of a wallet that can be spent, their selection for a payment, and the locked
-- coins. wallet.h and main.h are not in the repository.
pub mod Subset
pub mod Select
pub mod Best
pub mod Totals
pub mod Scanned
pub mod Funds
pub mod Payment
pub mod Available
