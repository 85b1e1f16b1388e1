-- ===== src/Account/Lookup.antt =====
-- ctrlers/account: findAccount, setAccount and the methods on one account, over a ledger that is a
-- pair of maps.
use beatoz_go.Base.{
  ℕ, ◌≡◌, ◌≢◌, refl, ap, ◌∙◌, Bool, ◌&&◌, Option, none, some, [], ok, err, Status, invalid_amount,
  insufficient_fund, ltb, if◌then◌else◌,
}
use beatoz_go.Base.Words.{add256, sub256, neg256}
use beatoz_go.Base.Bytes.{Bytes, bytes_eq}
use beatoz_go.Ledger.Keys.{ledger_key_account}
use beatoz_go.Ledger.Map.{Store, IsMap, found_or_missing, same_side}
use beatoz_go.Types.Account.{Account}
use beatoz_go.Account.{find_account, set_account, or_nil, account_keyed}

-- The key of an address is not empty.
pub account_key : (addr : Bytes) → ledger_key_account addr ≢ []
unfolding ledger_key_account
account_key addr e = cc

-- What a subtraction of `amt` from a balance returns.
abbrev pub outcome : ℕ → ℕ → Status
outcome amt balance =
    if neg256 amt
    then err invalid_amount
    else if ltb balance amt
    then err insufficient_fund
    else ok tt

abbrev pub debit : ℕ → Account → Account
debit amt a = record a { balance = sub256 a.balance amt }

abbrev pub credit : ℕ → Account → Account
credit amt a = record a { balance = add256 a.balance amt }

found : (o : Option Account) → or_nil (found_or_missing o) ≡ ok o
found none = refl
found (some a) = refl

module _ (s : Store Account) (M : IsMap s) where
  -- Both maps are as they were.
  abbrev pub SameViews : s.State → s.State → Type 0
  SameViews st st' = (y : Bool) (j : Bytes) → M.view st' y j ≡ M.view st y j

  -- One side's account of an address is now `a`, and nothing else has changed.
  abbrev pub Puts : Bool → Bytes → Account → s.State → s.State → Type 0
  Puts x addr a st st' =
      (y : Bool) (j : Bytes)
      → M.view st' y j
        ≡ (if same_side x y && bytes_eq (ledger_key_account addr) j then some a else M.view st y j)

  pub find_account_lem :
      (addr : Bytes) (x : Bool) (st : s.State)
      → M.IsValid st
      → (st' : s.State) × (find_account s addr x st
          ≡ (ok (M.view st x (ledger_key_account addr)), st'))
        × M.IsValid st'
        × SameViews st st'
  unfolding find_account
  find_account_lem addr x st v =
      let (r, v', same) = M.get_view (ledger_key_account addr) x st (account_key addr) v in
      (
        (s.get (ledger_key_account addr) x st).1,
        λ i. (
          (ap or_nil r ∙ found (M.view st x (ledger_key_account addr))) i,
          (s.get (ledger_key_account addr) x st).1,
        ),
        v',
        same,
      )

  pub set_account_lem :
      (a : Account) (x : Bool) (st : s.State)
      → M.IsValid st
      → (st' : s.State) × (set_account s a x st ≡ (ok tt, st'))
        × M.IsValid st'
        × Puts x a.address a st st'
  unfolding set_account
  set_account_lem a x st v =
      let (r, v', puts) =
        M.set_view (ledger_key_account a.address) a x st (account_key a.address) tt v in
      (
        (s.set (ledger_key_account a.address) a x st).1,
        λ i. (r i, (s.set (ledger_key_account a.address) a x st).1),
        v',
        puts,
      )
