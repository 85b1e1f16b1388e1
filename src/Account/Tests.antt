-- ===== src/Account/Tests.antt =====
-- Transfers and fees on accounts in memory, and the theorems at concrete accounts.
use beatoz_go.Base.{
  ◌≡◌, ◌<◌, ◌^◌, refl, Bool, true, false, some, [], ◌∷◌, ok, err, insufficient_fund, arith, ◌⊎◌,
  ◌+◌, ◌||◌, ◌&&◌,
}
use beatoz_go.Base.Bytes.{Bytes, bytes_eq}
use beatoz_go.Ledger.Keys.{ledger_key_account}
use beatoz_go.Ledger.Map.{Store, IsMap}
use beatoz_go.Ledger.Map.Pair.{Pair, pair_store, pair_store-IsMap}
use beatoz_go.Types.Account
use beatoz_go.Types.Account.{Account, new_account}
use beatoz_go.Account.{find_account, set_account, transfer, transfer_at, end_block, account_keyed}
use beatoz_go.Account.Sample.{accounts_of, accounts_of-IsBook}
use beatoz_go.Account.Books.{
  account_at, balance_at, IsBook, IsAfter, transfer_outcome, transfer_at_exact,
}
use beatoz_go.Account.SelfTransfer.{transfer_at_self}
use beatoz_go.Account.EndBlock.{end_block_pays, reward_of}

abbrev alice : Bytes
alice = 1 ∷ []

abbrev bob : Bytes
bob = 2 ∷ []

abbrev store : Store Account
store = pair_store Account

abbrev is_map : IsMap store
is_map = pair_store-IsMap Account

-- Alice has 100 on both sides; Bob has no account.
abbrev accounts : Pair Account
accounts = accounts_of alice

transfer_run :
    (balance_at store is_map (transfer_at store alice bob 30 true accounts).1 true alice ≡ 70)
    × (balance_at store is_map (transfer_at store alice bob 30 true accounts).1 true bob ≡ 30)
    × ((transfer_at store alice bob 101 true accounts).0 ≡ err insufficient_fund)
unfolding transfer_at find_account set_account transfer Account.sub_balance Account.add_balance
    ledger_key_account bytes_eq
transfer_run = (refl, refl, refl)

accounts-IsBook : IsBook store is_map accounts
accounts-IsBook = accounts_of-IsBook alice

alice_pays : (x : Bool) → transfer_outcome 30 (account_at store is_map accounts x alice) ≡ ok tt
unfolding ledger_key_account bytes_eq
alice_pays x = refl

bob_has_room : balance_at store is_map accounts true bob + 50 < 2 ^ 256
unfolding ledger_key_account bytes_eq
bob_has_room = omega arith

alice_has_room : (x : Bool) → balance_at store is_map accounts x alice + 50 < 2 ^ 256
unfolding ledger_key_account bytes_eq
alice_has_room x = omega arith

apart : bytes_eq alice bob ≡ false
unfolding bytes_eq
apart = refl

transfer_at_exact_example :
    let (r, st') = transfer_at store alice bob 30 true accounts in
    (r ≡ transfer_outcome 30 (account_at store is_map accounts true alice))
    × IsBook store is_map st'
    × IsAfter store is_map alice bob 30 true accounts (r, st')
transfer_at_exact_example =
    transfer_at_exact store is_map alice bob 30 true accounts accounts-IsBook apart

transfer_at-self_example :
    ((transfer_at store alice alice 30 true accounts).0 ≡ ok tt)
    × ((j : Bytes)
        → account_at store is_map (transfer_at store alice alice 30 true accounts).1 true j
          ≡ account_at store is_map accounts true j)
    × ((transfer_at store alice alice 30 false accounts).0 ≡ ok tt)
    × (balance_at store is_map (transfer_at store alice alice 30 false accounts).1 false alice
        ≡ balance_at store is_map accounts false alice + 30)
transfer_at-self_example =
    transfer_at_self store is_map alice 30 accounts accounts-IsBook (alice_pays true)
      (alice_pays false) (omega (arith, alice_has_room false))

end_block_pays_example :
    (st' : Pair Account) × (end_block store (some alice) 50 20 bob accounts ≡ (ok tt, st'))
    × IsBook store is_map st'
    × (balance_at store is_map st' true alice
        ≡ balance_at store is_map accounts true alice + reward_of 50 20)
    × (balance_at store is_map st' true bob + reward_of 50 20
        ≡ balance_at store is_map accounts true bob + 50)
    × ((x : Bool) (j : Bytes)
        → ((x && (bytes_eq alice j || bytes_eq bob j)) ≡ true)
          ⊎ (account_at store is_map st' x j ≡ account_at store is_map accounts x j))
end_block_pays_example =
    end_block_pays store is_map alice bob 50 20 accounts accounts-IsBook apart (omega arith)
      (omega arith) (alice_has_room true) bob_has_room
