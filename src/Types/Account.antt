-- ===== src/Types/Account.antt =====
-- ctrlers/types/account.go: an account. A balance is a uint256.Int, a nonce an int64; a nil slice of
-- code is `none`.
use beatoz_go.Base.{
  ℕ, ◌-◌, ◌<◌, ◌^◌, ◌≡◌, ◌↔◌, ap, sym, not, Option, none, [], ok, err, Status, invalid_nonce,
  invalid_amount, insufficient_fund, ltb, ◌==◌, if◌then◌else◌, arith,
}
use beatoz_go.Base.Words.{add64, add256, sub256, neg256}
use beatoz_go.Base.Bytes.{Bytes}

pub record Account : Type 0 where
  pub address : Bytes
  pub name : Bytes
  pub nonce : ℕ
  pub balance : ℕ
  pub code : Option Bytes
  pub doc_url : Bytes

-- The longest name and URL of a document, in bytes.
abbrev pub max_acct_name : ℕ
max_acct_name = 2048

abbrev pub max_acct_doc_url : ℕ
max_acct_doc_url = 2048

abbrev pub new_account : Bytes → Account
new_account addr = record {
  address = addr;
  name = [];
  nonce = 0;
  balance = 0;
  code = none;
  doc_url = [];
}

abbrev pub new_account_with_name : Bytes → Bytes → Account
new_account_with_name addr name = record (new_account addr) { name = name }

-- (*Account).Clone names every field but DocURL.
unfoldable pub clone : Account → Account
clone a = record {
  address = a.address;
  name = a.name;
  nonce = a.nonce;
  balance = a.balance;
  code = a.code;
  doc_url = [];
}

unfoldable pub set_name : Bytes → Account → Account
set_name s a = record a { name = s }

unfoldable pub set_doc_url : Bytes → Account → Account
set_doc_url s a = record a { doc_url = s }

unfoldable pub add_nonce : Account → Account
add_nonce a = record a { nonce = add64 a.nonce 1 }

unfoldable pub set_nonce : ℕ → Account → Account
set_nonce n a = record a { nonce = n }

unfoldable pub check_nonce : ℕ → Account → Status
check_nonce n a = if not (a.nonce == n) then err invalid_nonce else ok tt

unfoldable pub add_balance : ℕ → Account → Status × Account
add_balance amt a =
    if neg256 amt
    then (err invalid_amount, a)
    else (ok tt, record a { balance = add256 a.balance amt })

unfoldable pub sub_balance : ℕ → Account → Status × Account
sub_balance amt a =
    if neg256 amt
    then (err invalid_amount, a)
    else if ltb a.balance amt
    then (err insufficient_fund, a)
    else (ok tt, record a { balance = sub256 a.balance amt })

unfoldable pub set_balance : ℕ → Account → Account
set_balance amt a = record a { balance = amt }

unfoldable pub check_balance : ℕ → Account → Status
check_balance amt a = if ltb a.balance amt then err insufficient_fund else ok tt

unfoldable pub set_code : Option Bytes → Account → Account
set_code c a = record a { code = c }

-- SubBalance takes an amount from a uint256 balance on exactly the amounts below 2 ^ 255 that it
-- covers; the balance falls by that amount with no wrap and nothing else of the account changes.
-- Otherwise the error says which test failed, and the account is as it was.
pub sub_balance_exact :
    (amt : ℕ) (a : Account)
    → a.balance < 2 ^ 256
    → sub_balance amt a ≡ (
        if ltb amt (2 ^ 255)
        then (if ltb a.balance amt
            then (err insufficient_fund, a)
            else (ok tt, record a { balance = a.balance - amt }))
        else (err invalid_amount, a))
unfolding sub_balance
sub_balance_exact amt a h = ground arith

-- Paying in what was taken out restores the account.
pub add_balance-sub_balance :
    (amt : ℕ) (a : Account)
    → a.balance < 2 ^ 256
    → (sub_balance amt a).0 ≡ ok tt
    → add_balance amt (sub_balance amt a).1 ≡ (ok tt, a)
unfolding sub_balance add_balance
add_balance-sub_balance amt a h e = ground arith

-- Clone keeps the account exactly when its document URL is empty: the copy drops it.
pub clone-eq_iff : (a : Account) → (clone a ≡ a) ↔ (a.doc_url ≡ [])
unfolding clone
clone-eq_iff a =
    (λ e. sym (ap (λ (b : Account). b.doc_url) e), λ e i. record a { doc_url = sym e i })
