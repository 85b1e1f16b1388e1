-- ===== src/Account/Sample.antt =====
-- Accounts in memory for the tests: one address has 100 on both sides.
use beatoz_go.Base.{◌<◌, ◌≡◌, refl, Bool, none, some, Bool-cases, inl, inr, if◌then◌else◌, arith}
use beatoz_go.Base.Bytes.{Bytes, bytes_eq, bytes_eq_sound, bytes_eq_refl}
use beatoz_go.Ledger.Keys.{ledger_key_account}
use beatoz_go.Ledger.Map.{Store, IsMap}
use beatoz_go.Ledger.Map.Pair.{Pair, pair_store, pair_store-IsMap}
use beatoz_go.Types.Account.{Account, new_account}
use beatoz_go.Account.Books.{account_at, balance_at, IsBook, Fits}
use beatoz_go.Account.{account_keyed}

abbrev pub accounts_store : Store Account
accounts_store = pair_store Account

abbrev pub accounts_map : IsMap accounts_store
accounts_map = pair_store-IsMap Account

abbrev pub account_of : Bytes → Account
account_of addr = record (new_account addr) { balance = 100; nonce = 3 }

abbrev pub accounts_of : Bytes → Pair Account
accounts_of addr x k = if bytes_eq (ledger_key_account addr) k then some (account_of addr) else none

pub accounts_of-IsBook : (addr : Bytes) → IsBook accounts_store accounts_map (accounts_of addr)
unfolding ledger_key_account bytes_eq
accounts_of-IsBook addr = record { valid = tt; fits = fits }
  where
    fits :
        (x : Bool) (b : Bytes)
        → Fits accounts_store accounts_map b
            (account_at accounts_store accounts_map (accounts_of addr) x b)
    fits x b = elim (Bool-cases (bytes_eq addr b)) [
      | inl same ↦ rw same (bytes_eq_sound addr b same, omega arith)
      | inr other ↦ rw other (refl, omega arith)
    ]

pub owner_account :
    (addr : Bytes) (x : Bool)
    → account_at accounts_store accounts_map (accounts_of addr) x addr ≡ some (account_of addr)
unfolding ledger_key_account bytes_eq
owner_account addr x = rw (bytes_eq_refl addr) refl

pub few_balance :
    (addr b : Bytes) (x : Bool)
    → balance_at accounts_store accounts_map (accounts_of addr) x b < 101
unfolding ledger_key_account bytes_eq
few_balance addr b x = elim (Bool-cases (bytes_eq addr b)) [
  | inl same ↦ rw same (omega arith)
  | inr other ↦ rw other (omega arith)
]
