-- ===== src/Checkpoints.antt =====
-- checkpoints.cpp: the hard-coded checkpoints, CheckBlock, GetTotalBlocksEstimate and
-- GetLastCheckpoint. GuessVerificationProgress, which computes in floating point, is left out.
pub mod Last
use mathlib.Core.Bool.{Bool, false, true}
use tri_tip.Prelude.{[], ◌∷◌, List, Option, if◌then◌else◌, none, some, ℕ, ◌==◌}
use tri_tip.Prelude.Maps.{find}

abbrev pub map_checkpoints : List (ℕ × ℕ)
map_checkpoints =
    (11111, 0x0000000069e244f73d78e8fd29ba2fd2ed618bd6fa2ee92559f542fdb26e7c1d)
    ∷ (33333, 0x000000002dd5588a74784eaa7ab0507a18ad16a236e7b1ce69f00d7ddfb5d0a6)
    ∷ (74000, 0x0000000000573993a3c9e41ce34471c079dcf5f52a0e824a81e7f953b8661a20)
    ∷ (105000, 0x00000000000291ce28027faea320c8d2b054b2e0fe44a773f3eefb151d6bdc97)
    ∷ (134444, 0x00000000000005b12ffd4cd315cd34ffd4a594f430ac814c91184a0d42d2b0fe)
    ∷ (168000, 0x000000000000099e61ea72015e79632f216fe6cb33d7899acb35b75c8303b763)
    ∷ (193000, 0x000000000000059f452a5f7340de6682a977387c17010ff6e6c3bd83ca8b1317)
    ∷ (210000, 0x000000000000048b95347e83192f69cf0366076336c639f9b7228e9ba171342e)
    ∷ (216116, 0x00000000000001b4f4b433e81ee46494af945cf96014816a4e2370f11b23df4e)
    ∷ (225430, 0x00000000000001c108384350f74090433e7fcf79a606b8e797f065b130575932)
    ∷ []

abbrev pub map_checkpoints_testnet : List (ℕ × ℕ)
map_checkpoints_testnet =
    (546, 0x000000002a936ca763904c3c35fce2f3556c559c0214345d31b1bcebf76acb70) ∷ []

-- `*Checkpoints().mapCheckpoints`
abbrev pub checkpoints : Bool → List (ℕ × ℕ)
checkpoints test_net = if test_net then map_checkpoints_testnet else map_checkpoints

-- The loops read any map in the order of its heights.
unfoldable pub matches : ℕ → Option ℕ → Bool
matches hash none = true
matches hash (some expected) = hash == expected

unfoldable pub check_block : Bool → List (ℕ × ℕ) → ℕ → ℕ → Bool
unfolding matches
check_block enabled cs height hash = if enabled then matches hash (find height cs) else true

-- `rbegin()->first` of a map that is not empty
unfoldable pub last_height : List (ℕ × ℕ) → ℕ
last_height [] = 0
last_height ((h, hash) ∷ []) = h
last_height (c ∷ d ∷ cs) = last_height (d ∷ cs)

unfoldable pub get_total_blocks_estimate : Bool → List (ℕ × ℕ) → ℕ
unfolding last_height
get_total_blocks_estimate enabled cs = if enabled then last_height cs else 0

-- The reverse loop: a later checkpoint is looked up first.
unfoldable pub reverse_loop {ℓ} : {A : Type ℓ} → List (ℕ × A) → List (ℕ × ℕ) → Option A
reverse_loop index [] = none
reverse_loop index ((h, hash) ∷ cs) = elim (reverse_loop index cs) [
  | some found ↦ some found
  | none ↦ find hash index
]

unfoldable pub get_last_checkpoint {ℓ} :
    {A : Type ℓ} → Bool → List (ℕ × A) → List (ℕ × ℕ) → Option A
unfolding reverse_loop
get_last_checkpoint enabled index cs = if enabled then reverse_loop index cs else none
