-- ===== src/Lib.antt =====
-- Verification of the tri-tip node, a program on the code of Bitcoin 0.8: its transactions and
-- coins, Merkle trees, Bloom filters, alerts, checkpoints, the checks of transactions and
-- blocks, the handling of orphan blocks, its queue of checks, the messages of its connections,
-- the selection of coins in its wallet, its table of known addresses, the classes of addresses,
-- its locked memory, and its strings and text encodings.
--
-- The parts and the files that model them, with the code they follow:
--
--   * Core: core.h. OutPoint, TxIn, TxOut, Transaction, TxInUndo and Coins follow COutPoint,
--     CTxIn, CTxOut, CTransaction, CTxInUndo and CCoins; Core.Coins.Format is the compact
--     format of CCoins (CalcMaskSize, Serialize, Unserialize, GetSerializeSize), over
--     Core.Codec, an interface for VARINT and CTxOutCompressor.
--   * Merkle: dust_coin/bitcoin_block.h, BuildMerkleTree, GetMerkleBranch and
--     CheckMerkleBranch over one vector of hashes. check_branch follows the loop, for an
--     index that is not -1.
--   * Murmur and Bloom: hash.cpp and bloom.cpp. MurmurHash3 and the filters, with
--     IsRelevantAndUpdate in Bloom.Relevant.
--   * Alert: alert.cpp. process_alert takes mapAlerts and gives the map, the notices and the
--     command.
--   * Checkpoints: checkpoints.cpp. The tables and the lookups in them.
--   * Validation: CheckTransaction, CheckProofOfWork, GetLegacySigOpCount and CheckBlock of
--     dust_coin/bitcoin_messages_handlers.cpp, on the header of core.h; Validation.Compact is
--     SetCompact and GetCompact of bignum.h.
--   * Chain: IsFinalTx, IsSuperMajority and AcceptBlock of the same file, over Validation and
--     Checkpoints.
--   * Node: GetOrphanRoot, PushGetBlocks, AlreadyHave, ComputeMinWork and ProcessBlock of the
--     same file. It joins the others: a block passes CheckBlock and the test against the last
--     checkpoint, then is held as an orphan or given to the gate.
--   * CheckQueue: checkqueue.h. The critical sections of Loop as functions, and the runs of
--     the threads as sequences of them.
--   * Strings and Hex: ParseString, WildcardMatch, IsHex and ParseHex of util.cpp.
--   * Net: net.cpp. ReceiveMsgBytes with readHeader and readData of CNetMessage, which cut
--     the stream of a socket into messages (Net, Net.Bytes, Net.Stream, Net.Pieces,
--     Net.Frames), and SocketSendData (Net.Send). What net.h and serialize.h define is the
--     record Protocol.
--   * Messages: the message header of protocol.cpp, and ProcessMessages of
--     dust_coin/bitcoin_messages_handlers.cpp as a loop on the queue, with the state of the
--     node and ProcessMessage as parameters.
--   * AddrMan: addrman.h and addrman.cpp. Add_, Create, SwapRandom, ShrinkNew, Attempt_,
--     Connected_ and GetAddr_ on the table of the entries, the map of addresses, the vector
--     in random order and the buckets of new addresses (AddrMan.Consistent, AddrMan.Swaps,
--     AddrMan.Entries, AddrMan.New, AddrMan.Shrinks, AddrMan.Add, AddrMan.Added,
--     AddrMan.Addresses, AddrMan.Reachable), and SelectTried (AddrMan.Tried).
--   * NetAddr: netbase.cpp. The classes of CNetAddr on the 16 bytes of an address, GetNetwork
--     (NetAddr, NetAddr.Ranges), GetGroup and GetReachabilityFrom (NetAddr.Groups); the
--     numbers of the networks are a parameter.
--   * Wallet: wallet.cpp. AvailableCoins with the locked coins (Wallet.Available),
--     ApproximateBestSubset (Wallet.Subset), SelectCoinsMinConf and SelectCoins
--     (Wallet.Select); the random bits and the shuffle are parameters.
--   * Locked: allocators.h. LockedPageManagerBase, with the pages that the system keeps in
--     memory.
--   * Money: FormatMoney and ParseMoney of util.cpp.
--   * Base64 and Base32: the encoders and decoders of util.cpp.
--   * Prelude: lists, tests, integers, bits and maps that the modules share.
--
-- State and integers: a struct is a record, a class with its heap state is a record that an
-- operation takes and gives back, and a failure is none or a Verdict, which names the level of
-- DoS. Numbers are natural numbers; unsigned arithmetic that can leave its width is reduced by
-- a power of two, and signed values are integers. The int64 sums of the wallet are natural
-- numbers without a bound; its theorems ask that the coins, the target and a cent together stay
-- below 2^63 - 1. A byte string is the list of its bytes. A std::map is a list of entries with
-- a new one at the end: the order of keys, which the code reads only for checkpoints, is
-- otherwise forgotten.
--
-- Code that is not in the repository (main.h, script.h, serialize.h, util.h) and OpenSSL are
-- parameters: Core.Codec.Codec, Bloom.Relevant.Script, Alert.Env, Validation.Env, Chain.Net,
-- Net.Protocol, Messages.Environment, and the amounts COIN and CENT. Validation.Values.MoneyLaw
-- states what MoneyRange of main.h does.
--
-- Loops are recursion on lists or on fuel. The loops of the Merkle tree have the number of
-- hashes as fuel, GetOrphanRoot one more than the number of orphans, and ComputeMinWork the
-- periods in its time and one more, ReceiveMsgBytes the bytes that it gets, and the loops over
-- pages their number of bytes; each is shown to be enough. That no chain of hashes has a cycle
-- is the hypothesis of a rank that falls from a block to the one before it.
--
-- Not modelled: sockets, storage, start-up, RPC and user interface, which are I/O and glue; the
-- vendored LevelDB and JSON Spirit; the drafts of the tip coin protocol under dust_coin, which
-- do not compile; printing; GuessVerificationProgress, which uses floating point; and, so far,
-- SendMessages and the handlers of ProcessMessage, the rest of the wallet, the key stores, the
-- parsing and printing of addresses, the buckets of tried addresses and the rest of util.cpp.
pub mod Prelude
pub mod Core
pub mod Merkle
pub mod Murmur
pub mod Bloom
pub mod AddrMan
pub mod NetAddr
pub mod Alert
pub mod Validation
pub mod Chain
pub mod Net
pub mod Locked
pub mod Messages
pub mod Node
pub mod CheckQueue
pub mod Money
pub mod Strings
pub mod Wallet
pub mod Hex
pub mod Base64
pub mod Base32
pub mod Checkpoints
mod Tests
