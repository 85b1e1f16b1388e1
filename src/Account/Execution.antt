-- ===== src/Account/Execution.antt =====
-- ctrlers/account: ExecuteTrx of a transfer, on the objects of its context.
use beatoz_go.Base.{
  ℕ, ◌≡◌, refl, Bool, true, false, ◌||◌, ◌⊎◌, some, ok, err, ◌==◌, Bool-cases, inl, inr, arith,
}
use beatoz_go.Ledger.Map.{Store, IsMap}
use beatoz_go.Types.Account
use beatoz_go.Types.Account.{Account}
use beatoz_go.Types.Trx.{Trx, trx_transfer}
use beatoz_go.Account.{Objects, put, transfer, run_type, execute_trx, account_keyed}
use beatoz_go.Account.Lookup.{outcome, debit, credit}
use beatoz_go.Account.Transfer.{PutsTwo, store_two}

pub same_self : (n : ℕ) → (n == n) ≡ true
same_self n = ground arith

pub sub_balance_ok :
    (amt : ℕ) (a : Account)
    → outcome amt a.balance ≡ ok tt
    → Account.sub_balance amt a ≡ (ok tt, debit amt a)
unfolding Account.sub_balance
sub_balance_ok amt a e = ground arith

-- The sign of an amount that was taken out is not negative.
pub add_balance_ok :
    (amt b : ℕ) (a : Account)
    → outcome amt b ≡ ok tt
    → Account.add_balance amt a ≡ (ok tt, credit amt a)
unfolding Account.add_balance
add_balance_ok amt b a e = ground arith

-- The objects after a transfer between two pointers.
abbrev pub IsMoved : ℕ → ℕ → ℕ → Objects → Objects → Type 0
IsMoved from to amt objs done =
    (done from ≡ debit amt (objs from))
    × (done to ≡ credit amt (objs to))
    × ((q : ℕ) → (((from == q) || (to == q)) ≡ true) ⊎ (done q ≡ objs q))

put_others :
    (from to q : ℕ) (a b : Account) (objs : Objects)
    → ((from == q) || (to == q)) ≡ false
    → put (put objs from a) to b q ≡ objs q
put_others from to q a b objs e = ground arith

pub transfer_pointers :
    (from to amt : ℕ) (objs : Objects)
    → outcome amt (objs from).balance ≡ ok tt
    → (from == to) ≡ false
    → ((transfer from to amt objs).0 ≡ ok tt)
      × IsMoved from to amt objs (transfer from to amt objs).1
unfolding transfer
transfer_pointers from to amt objs covers apart =
    let paid = sub_balance_ok amt (objs from) covers in
    let got = add_balance_ok amt (objs from).balance (objs to) covers in
    let other_way : (to == from) ≡ false = ground (arith, apart) in
    rw (paid, apart, got, paid, apart, got, other_way, same_self from, same_self to, transfer)
      (
        refl,
        (
          refl,
          refl,
          λ q. elim (Bool-cases ((from == q) || (to == q))) [
            | inl named ↦ inl named
            | inr other ↦ inr (put_others from to q _ _ objs other)
          ],
        ),
      )

pub transfer_pointers_fails :
    (from to amt : ℕ) (objs : Objects) (e : _)
    → outcome amt (objs from).balance ≡ err e
    → (transfer from to amt objs).0 ≡ err e
unfolding transfer Account.sub_balance Account.add_balance
transfer_pointers_fails from to amt objs e h = ground arith

module _ (s : Store Account) (M : IsMap s) where
  run_type-transfer :
      (tx : Trx) (from to : ℕ) (objs : Objects)
      → tx.type ≡ trx_transfer
      → run_type s tx from (some to) objs ≡ transfer from to tx.amount objs
  unfolding run_type
  run_type-transfer tx from to objs e = rw (e, run_type) refl

  pub execute_transfer :
      (tx : Trx) (x : Bool) (from to : ℕ) (objs : Objects) (st : s.State)
      → tx.type ≡ trx_transfer
      → outcome tx.amount (objs from).balance ≡ ok tt
      → (from == to) ≡ false
      → M.IsValid st
      → (st' : s.State) × (execute_trx s tx x from (some to) (objs, st)
          ≡ (ok tt, (transfer from to tx.amount objs).1, st'))
        × IsMoved from to tx.amount objs (transfer from to tx.amount objs).1
        × M.IsValid st'
        × PutsTwo s M x (debit tx.amount (objs from)) (credit tx.amount (objs to)) st st'
  unfolding execute_trx
  execute_transfer tx x from to objs st is_transfer covers apart v =
      let (r, (at_from, at_to, others)) = transfer_pointers from to tx.amount objs covers apart in
      let runs = run_type-transfer tx from to objs is_transfer in
      let (st1, st2, s1, s2, v', p) =
        store_two s M (debit tx.amount (objs from)) (credit tx.amount (objs to)) x st v in
      (
        st2,
        rw (runs, r, runs, at_from, at_to, s1, s2, execute_trx) refl,
        (at_from, at_to, others),
        v',
        p,
      )
