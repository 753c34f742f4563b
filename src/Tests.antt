-- ===== src/Tests.antt =====
-- Runs of the model at concrete inputs, and the theorems at concrete inputs.
mod CoreTests
mod MerkleTests
mod BloomTests
mod AlertTests
mod ChainTests
mod TextTests
mod QueueTests
mod StringTests
mod NetTests
mod WalletTests
mod AddrTests
mod NetAddrTests
