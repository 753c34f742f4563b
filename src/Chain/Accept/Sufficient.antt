-- ===== src/Chain/Accept/Sufficient.antt =====
-- bitcoin_messages_handlers.cpp, AcceptBlock: when a block is accepted.
use mathlib.Core.Bool.{Bool, false}
use tri_tip.Prelude.{List, some, ℕ, ◌≡◌, ◌⊎◌}
use tri_tip.Prelude.Maps.{find, has}
use tri_tip.Core.Transaction.{Transaction}
use tri_tip.Core.TxIn
use tri_tip.Core.TxIn.{TxIn}
use tri_tip.Validation.{Block}
use tri_tip.Chain.{Net, Indexed, block_hash}
use tri_tip.Chain.Accept.{Follows}

-- A block that is not in the index, and is the genesis block or follows a block of the index
abbrev pub Allowed : Net → List (ℕ × Indexed) → Block → Type 0
Allowed net index block =
    (has (block_hash net block) index ≡ false)
    × ((block_hash net block ≡ net.genesis)
        ⊎ ((prev : Indexed) × (find block.header.hash_prev_block index ≡ some prev)
            × Follows net prev block))
