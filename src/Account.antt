-- ===== src/Account.antt =====
-- ctrlers/account: the account controller, over a state ledger of accounts. The transactions of a
-- block share account objects; `Objects` is the heap of those that a call holds pointers to.
pub mod Lookup
pub mod Transfer
pub mod Books
pub mod SelfTransfer
pub mod EndBlock
pub mod Rewarding
pub mod Sample
pub mod Execution
mod Tests
use beatoz_go.Base.{
  ℕ, zero, suc, ◌*◌, ◌/◌, ◌<◌, ◌≡◌, Bool, true, false, not, ◌&&◌, ◌||◌, Option, none, some, [],
  Result, ok, err, panic, Status, not_found_account, invalid_payload_params, fail_if, ◌>>=◌, ◌>>◌,
  length, ltb, ◌==◌, if◌then◌else◌,
}
use beatoz_go.Base.Words.{sub256, mul256, neg256, from_int32}
use beatoz_go.Base.Bytes.{Bytes, bytes_eq}
use beatoz_go.Ledger.Mutable.{Action, attempt}
use beatoz_go.Ledger.Keys.{ledger_key_account}
use beatoz_go.Ledger.Map.{Store, Keyed}
use beatoz_go.Types.Account
use beatoz_go.Types.Account.{
  Account, new_account, new_account_with_name, max_acct_name, max_acct_doc_url,
}
use beatoz_go.Types.Trx.{Trx, Payload, set_doc, trx_transfer, trx_setdoc}

-- The account objects that pointers lead to.
abbrev pub Objects : Type 0
Objects = ℕ → Account

abbrev pub put : Objects → ℕ → Account → Objects
put objs p a q = if p == q then a else objs q

-- A method that changes the account behind a pointer.
abbrev pub at_pointer : (Account → Status × Account) → ℕ → Objects → Status × Objects
at_pointer f p objs = let (r, a) = f (objs p) in (r, put objs p a)

-- (*AcctCtrler).transfer, with the refund of its error path.
unfoldable pub transfer : ℕ → ℕ → ℕ → Objects → Status × Objects
transfer from to amt objs =
    let (r, paid) = at_pointer (Account.sub_balance amt) from objs in
    attempt r paid λ _.
      let (r', done) = at_pointer (Account.add_balance amt) to paid in
      elim r' [
        | ok _ ↦ (ok tt, done)
        | err e ↦ (err e, (at_pointer (Account.add_balance amt) from done).1)
        | panic ↦ (panic, done)
      ]

-- The decoder of accounts does not look at the key.
instance abbrev pub account_keyed : Keyed Account
account_keyed = record { fits = λ k a. Unit {0} }

-- `if xerr != nil { return nil }`; a panic goes on.
abbrev pub or_nil {ℓ} : {A : Type ℓ} → Result A → Result (Option A)
or_nil (ok a) = ok (some a)
or_nil (err e) = ok none
or_nil panic = panic

-- `if acct == nil { return ErrNotFoundAccount }`
abbrev pub or_not_found : Option Account → Result Account
or_not_found none = err not_found_account
or_not_found (some a) = ok a

-- `if acct == nil { acct = NewAccount(addr) }`
abbrev pub or_new : Bytes → Option Account → Account
or_new addr none = new_account addr
or_new addr (some a) = a

-- (*AcctCtrler).ValidateTrx
unfoldable pub validate_trx : Trx → Status
validate_trx tx =
    if tx.type == trx_setdoc
    then elim tx.payload [
      | some (set_doc name url) ↦ do
        fail_if (ltb max_acct_name (length name)) invalid_payload_params
        fail_if (ltb max_acct_doc_url (length url)) invalid_payload_params
      | _ ↦ panic
    ]
    else ok tt

module _ (s : Store Account) where
  -- (*AcctCtrler).findAccount
  unfoldable pub find_account : Bytes → Bool → Action s.State (Option Account)
  find_account addr exec st =
      let (r, st') = s.get (ledger_key_account addr) exec st in (or_nil r, st')

  -- (*AcctCtrler).setAccount
  unfoldable pub set_account : Account → Bool → Action s.State (Unit {0})
  set_account a exec st = s.set (ledger_key_account a.address) a exec st

  -- (*AcctCtrler).setDoc
  unfoldable pub set_doc_of : Bytes → Bytes → Account → Account
  unfolding Account.set_name Account.set_doc_url
  set_doc_of name url a = Account.set_doc_url url (Account.set_name name a)

  -- The frame that the methods on one account share: find it, or take what stands for a missing one,
  -- change it, and store it. An error ends the call.
  unfoldable pub change :
      (Option Account → Result Account)
      → (Account → Status × Account)
      → Bytes
      → Bool
      → Action s.State (Unit {0})
  change missing f addr exec st =
      let (r0, st') = find_account addr exec st in
      attempt r0 st' λ o.
        attempt (missing o) st' λ a. let (r, a') = f a in attempt r st' λ _. set_account a' exec st'

  -- (*AcctCtrler).SetCode
  unfoldable pub set_code : Bytes → Option Bytes → Bool → Action s.State (Unit {0})
  set_code addr code exec = change or_not_found (λ a. (ok tt, Account.set_code code a)) addr exec

  -- (*AcctCtrler).SetDoc
  unfoldable pub set_doc_at : Bytes → Bytes → Bytes → Bool → Action s.State (Unit {0})
  set_doc_at addr name url exec =
      change or_not_found (λ a. (ok tt, set_doc_of name url a)) addr exec

  -- (*AcctCtrler).Reward
  unfoldable pub reward : Bytes → ℕ → Bool → Action s.State (Unit {0})
  reward to amt exec = change or_not_found (Account.add_balance amt) to exec

  -- (*AcctCtrler).AddBalance
  unfoldable pub add_balance : Bytes → ℕ → Bool → Action s.State (Unit {0})
  add_balance addr amt exec = change (λ o. ok (or_new addr o)) (Account.add_balance amt) addr exec

  -- (*AcctCtrler).SubBalance
  unfoldable pub sub_balance : Bytes → ℕ → Bool → Action s.State (Unit {0})
  sub_balance addr amt exec = change or_not_found (Account.sub_balance amt) addr exec

  -- (*AcctCtrler).SetBalance
  unfoldable pub set_balance : Bytes → ℕ → Bool → Action s.State (Unit {0})
  set_balance addr amt exec =
      change (λ o. ok (or_new addr o)) (λ a. (ok tt, Account.set_balance amt a)) addr exec

  -- (*AcctCtrler).Transfer. The two lookups give one object when the ledger for execution caches it;
  -- the ledger for checking decodes a new object at each lookup.
  unfoldable pub transfer_at : Bytes → Bytes → ℕ → Bool → Action s.State (Unit {0})
  transfer_at from to amt exec st =
      let (found0, st0) = find_account from exec st in
      attempt found0 st0 λ o0. attempt (or_not_found o0) st0 λ acct0.
        let (found1, st1) = find_account to exec st0 in
        attempt found1 st1 λ o1.
          let acct1 : Account = or_new to o1 in
          let to_pointer : ℕ = if exec && bytes_eq from to then 0 else 1 in
          let (r, objs) = transfer 0 to_pointer amt (λ q. if q == 0 then acct0 else acct1) in
          attempt r st1 λ _.
            let (r0, st2) = set_account (objs 0) exec st1 in
            attempt r0 st2 λ _. set_account (objs to_pointer) exec st2

  -- The switch of (*AcctCtrler).ExecuteTrx. `none` is a nil receiver.
  unfoldable pub run_type : Trx → ℕ → Option ℕ → Objects → Status × Objects
  run_type tx sender receiver objs =
      if tx.type == trx_transfer
      then elim receiver [ some p ↦ transfer sender p tx.amount objs | none ↦ (panic, objs) ]
      else if tx.type == trx_setdoc
      then elim tx.payload [
        | some (set_doc name url) ↦ (ok tt, put objs sender (set_doc_of name url (objs sender)))
        | _ ↦ (panic, objs)
      ]
      else (ok tt, objs)

  -- (*AcctCtrler).ExecuteTrx, on the objects of the transaction's context. The results of the two
  -- setAccount calls are dropped.
  unfoldable pub execute_trx :
      Trx → Bool → ℕ → Option ℕ → Objects × s.State → Status × Objects × s.State
  execute_trx tx exec sender receiver (objs, st) =
      let (r, done) = run_type tx sender receiver objs in
      elim r [
        | ok _ ↦
            let st' = (set_account (done sender) exec st).1 in
            elim receiver [
              | some p ↦ (ok tt, done, (set_account (done p) exec st').1)
              | none ↦ (ok tt, done, st')
            ]
        | err e ↦ (err e, done, st)
        | panic ↦ (panic, done, st)
      ]

  -- (*AcctCtrler).EndBlock: the fees of the block, part to its proposer and the rest to the dead
  -- address. `none` is a nil proposer.
  unfoldable pub end_block : Option Bytes → ℕ → ℕ → Bytes → Action s.State (Unit {0})
  end_block none sum_fee rate dead st = (ok tt, st)
  end_block (some proposer) sum_fee rate dead st =
      if (sum_fee == 0) || neg256 sum_fee
      then (ok tt, st)
      else (let rwd_amt = mul256 sum_fee (from_int32 rate) / 100 in
          let (r, st') = add_balance proposer rwd_amt true st in
          attempt r st' λ _. add_balance dead (sub256 sum_fee rwd_amt) true st')

-- The accounts that were asked for and are not in the ledger yet, by side.
pub record Newbies : Type 0 where
  pub newbies_check : Bytes → Option Account
  pub newbies_deliver : Bytes → Option Account

module _ (s : Store Account) where
  abbrev add_newbie : (Bytes → Option Account) → Bytes → Account × (Bytes → Option Account)
  add_newbie newbies addr = elim (newbies addr) [
    | some a ↦ (a, newbies)
    | none ↦ (
      new_account_with_name addr [],
      λ j. if bytes_eq addr j then some (new_account_with_name addr []) else newbies j,
    )
  ]

  -- (*AcctCtrler).FindOrNewAccount; the key of a 20-byte address is the address.
  unfoldable pub find_or_new_account : Bytes → Bool → Action (s.State × Newbies) Account
  find_or_new_account addr exec (st, n) =
      let (found, st') = find_account s addr exec st in
      attempt found (st', n)
        λ o. elim o [
          | some a ↦ (ok a, (st', n))
          | none ↦ elim exec [
            | true ↦
                let (a, m) = add_newbie n.newbies_deliver addr in
                (ok a, (st', record n { newbies_deliver = m }))
            | false ↦
                let (a, m) = add_newbie n.newbies_check addr in
                (ok a, (st', record n { newbies_check = m }))
          ]
        ]
