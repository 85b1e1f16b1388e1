-- ===== src/Ledger/Keys.antt =====
-- ledger/v1/ledger_keys.go: the keys that the controllers store their items under.
pub mod RoundTrip
use beatoz_go.Base.{ℕ, ◌/◌, ◌%◌, ◌^◌, ◌≡◌, List, [], ◌∷◌, ◌++◌, Result, ok, panic, length}
use beatoz_go.Base.Bytes.{Bytes}

abbrev pub key_prefix_account : ℕ
key_prefix_account = 0x00

abbrev pub key_prefix_gov_params : ℕ
key_prefix_gov_params = 0x10

abbrev pub key_prefix_proposal : ℕ
key_prefix_proposal = 0x11

abbrev pub key_prefix_frozen_prop : ℕ
key_prefix_frozen_prop = 0x12

abbrev pub key_prefix_delegatee : ℕ
key_prefix_delegatee = 0x20

abbrev pub key_prefix_vpower : ℕ
key_prefix_vpower = 0x21

abbrev pub key_prefix_frozen_vpower : ℕ
key_prefix_frozen_vpower = 0x22

abbrev pub key_prefix_missed_block_count : ℕ
key_prefix_missed_block_count = 0x23

abbrev pub key_prefix_total_supply : ℕ
key_prefix_total_supply = 0x30

abbrev pub key_prefix_reward : ℕ
key_prefix_reward = 0x32

-- binary.BigEndian.PutUint64 on the eight bytes of the key.
unfoldable pub put_uint64 : ℕ → Bytes
put_uint64 h =
    (h / 2 ^ 56 % 256)
    ∷ (h / 2 ^ 48 % 256)
    ∷ (h / 2 ^ 40 % 256)
    ∷ (h / 2 ^ 32 % 256)
    ∷ (h / 2 ^ 24 % 256)
    ∷ (h / 2 ^ 16 % 256)
    ∷ (h / 2 ^ 8 % 256)
    ∷ (h % 256)
    ∷ []

unfoldable pub ledger_key_proposal : Bytes → Bytes
ledger_key_proposal txhash = key_prefix_proposal ∷ txhash

unfoldable pub ledger_key_frozen_prop : Bytes → Bytes
ledger_key_frozen_prop txhash = key_prefix_frozen_prop ∷ txhash

unfoldable pub ledger_key_account : Bytes → Bytes
ledger_key_account addr = key_prefix_account ∷ addr

unfoldable pub ledger_key_gov_params : Bytes
ledger_key_gov_params = key_prefix_gov_params ∷ []

unfoldable pub ledger_key_vpower : Bytes → Bytes → Bytes
ledger_key_vpower from to = key_prefix_vpower ∷ (from ++ to)

unfoldable pub ledger_key_delegatee : Bytes → Bytes
ledger_key_delegatee addr = key_prefix_delegatee ∷ addr

unfoldable pub ledger_key_frozen_vpower : ℕ → Bytes → Bytes
ledger_key_frozen_vpower h from = key_prefix_frozen_vpower ∷ (put_uint64 h ++ from)

unfoldable pub ledger_key_missed_block_count : Bytes → Bytes
ledger_key_missed_block_count signer = key_prefix_missed_block_count ∷ signer

-- "supply"
unfoldable pub ledger_key_total_supply : Bytes
ledger_key_total_supply = key_prefix_total_supply ∷ b's' ∷ b'u' ∷ b'p' ∷ b'p' ∷ b'l' ∷ b'y' ∷ []

unfoldable pub ledger_key_reward : Bytes → Bytes
ledger_key_reward owner = key_prefix_reward ∷ owner

-- `key[1:]`
unfoldable pub unwrap_key_prefix : Bytes → Result Bytes
unwrap_key_prefix [] = panic
unwrap_key_prefix (p ∷ rest) = ok rest

-- What the keys stand for, one constructor for each function above.
pub data Entry : Type 0 where
  account : Bytes → Entry
  gov_params : Entry
  proposal : Bytes → Entry
  frozen_prop : Bytes → Entry
  delegatee : Bytes → Entry
  vpower : Bytes → Bytes → Entry
  frozen_vpower : ℕ → Bytes → Entry
  missed_block_count : Bytes → Entry
  total_supply : Entry
  reward : Bytes → Entry

unfoldable pub key_of : Entry → Bytes
unfolding ledger_key_account ledger_key_gov_params ledger_key_proposal ledger_key_frozen_prop
    ledger_key_delegatee ledger_key_vpower ledger_key_frozen_vpower ledger_key_missed_block_count
    ledger_key_total_supply ledger_key_reward
key_of (account a) = ledger_key_account a
key_of gov_params = ledger_key_gov_params
key_of (proposal h) = ledger_key_proposal h
key_of (frozen_prop h) = ledger_key_frozen_prop h
key_of (delegatee a) = ledger_key_delegatee a
key_of (vpower from to) = ledger_key_vpower from to
key_of (frozen_vpower h from) = ledger_key_frozen_vpower h from
key_of (missed_block_count a) = ledger_key_missed_block_count a
key_of total_supply = ledger_key_total_supply
key_of (reward a) = ledger_key_reward a
