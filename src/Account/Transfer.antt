-- ===== src/Account/Transfer.antt =====
-- ctrlers/account: (*AcctCtrler).Transfer, over a ledger that is a pair of maps.
use beatoz_go.Base.{
  ℕ, ◌<◌, ◌^◌, ◌≡◌, refl, ap, ◌∙◌, Bool, true, false, ◌&&◌, none, some, ok, err, not_found_account,
  invalid_amount, insufficient_fund, ltb, ◌==◌, Bool-cases, inl, inr, ◌⊎◌, if◌then◌else◌, arith,
}
use beatoz_go.Base.Words.{neg256}
use beatoz_go.Base.Bytes.{Bytes, bytes_eq, bytes_eq_refl}
use beatoz_go.Ledger.Keys.{ledger_key_account}
use beatoz_go.Ledger.Map.{Store, IsMap, same_side}
use beatoz_go.Types.Account
use beatoz_go.Types.Account.{Account}
use beatoz_go.Account.{Objects, transfer, transfer_at, set_account, or_new, account_keyed}
use beatoz_go.Account.Lookup.{outcome, debit, credit, SameViews, find_account_lem, set_account_lem}

pub outcome-cases :
    (amt b : ℕ)
    → ((outcome amt b ≡ ok tt) × (neg256 amt ≡ false) × (ltb b amt ≡ false))
      ⊎ ((e : _) × (outcome amt b ≡ err e))
outcome-cases amt b = elim (Bool-cases (neg256 amt)) [
  | inl neg ↦ inr (invalid_amount, rw neg refl)
  | inr pos ↦ elim (Bool-cases (ltb b amt)) [
    | inl short ↦ inr (insufficient_fund, rw (pos, short) refl)
    | inr covered ↦ inl (rw (pos, covered) refl, pos, covered)
  ]
]

abbrev pair_of : Account → Account → Objects
pair_of a b q = if q == 0 then a else b

transfer_ok :
    (amt : ℕ) (objs : Objects)
    → outcome amt (objs 0).balance ≡ ok tt
    → ((transfer 0 1 amt objs).0 ≡ ok tt)
      × ((transfer 0 1 amt objs).1 0 ≡ debit amt (objs 0))
      × ((transfer 0 1 amt objs).1 1 ≡ credit amt (objs 1))
unfolding transfer Account.sub_balance Account.add_balance
transfer_ok amt objs e = ground arith

transfer_alias :
    (amt : ℕ) (objs : Objects)
    → outcome amt (objs 0).balance ≡ ok tt
    → ((transfer 0 0 amt objs).0 ≡ ok tt)
      × ((transfer 0 0 amt objs).1 0 ≡ credit amt (debit amt (objs 0)))
unfolding transfer Account.sub_balance Account.add_balance
transfer_alias amt objs e = ground arith

transfer_fails :
    (p amt : ℕ) (objs : Objects) (e : _)
    → outcome amt (objs 0).balance ≡ err e
    → (transfer 0 p amt objs).0 ≡ err e
unfolding transfer Account.sub_balance Account.add_balance
transfer_fails p amt objs e h = ground arith

pub credit-debit :
    (amt : ℕ) (a : Account)
    → a.balance < 2 ^ 256
    → outcome amt a.balance ≡ ok tt
    → credit amt (debit amt a) ≡ a
credit-debit amt a h e = ground arith

module _ (s : Store Account) (M : IsMap s) where
  abbrev pub Ends : s.State → s.State → Type 0
  Ends st st' = M.IsValid st' × SameViews s M st st'

  -- A failed call.
  pub transfer_at-missing :
      (from to : Bytes) (amt : ℕ) (x : Bool) (st : s.State)
      → M.IsValid st
      → M.view st x (ledger_key_account from) ≡ none
      → (st' : s.State) × (transfer_at s from to amt x st ≡ (err not_found_account, st'))
        × Ends st st'
  unfolding transfer_at
  transfer_at-missing from to amt x st v missing =
      let (st0, e0, v0, w0) = find_account_lem s M from x st v in
      (st0, rw (e0, missing, transfer_at) refl, (v0, w0))

  pub transfer_at-short :
      (from to : Bytes) (amt : ℕ) (x : Bool) (st : s.State) (a : Account) (e : _)
      → M.IsValid st
      → M.view st x (ledger_key_account from) ≡ some a
      → outcome amt a.balance ≡ err e
      → (st' : s.State) × (transfer_at s from to amt x st ≡ (err e, st')) × Ends st st'
  unfolding transfer_at
  transfer_at-short from to amt x st a e v there fails =
      let (st0, e0, v0, w0) = find_account_lem s M from x st v in
      let (st1, e1, v1, w1) = find_account_lem s M to x st0 v0 in
      (
        st1,
        rw
            (
              e0,
              there,
              e1,
              transfer_fails (if x && bytes_eq from to then 0 else 1) amt
                  (pair_of a (or_new to (M.view st0 x (ledger_key_account to)))) e fails,
              transfer_at,
            )
            refl,
        (v1, λ y j. w1 y j ∙ w0 y j),
      )

  -- What is stored after the two objects are.
  abbrev pub PutsTwo : Bool → Account → Account → s.State → s.State → Type 0
  PutsTwo x a b st st' =
      (y : Bool) (j : Bytes)
      → M.view st' y j ≡ (
          if same_side x y && bytes_eq (ledger_key_account b.address) j
          then some b
          else if same_side x y && bytes_eq (ledger_key_account a.address) j
          then some a
          else M.view st y j)

  pub store_two :
      (a b : Account) (x : Bool) (st : s.State)
      → M.IsValid st
      → (st' st'' : s.State) × (set_account s a x st ≡ (ok tt, st'))
        × (set_account s b x st' ≡ (ok tt, st''))
        × M.IsValid st''
        × PutsTwo x a b st st''
  store_two a b x st v =
      let (st', e, v', p) = set_account_lem s M a x st v in
      let (st'', e', v'', p') = set_account_lem s M b x st' v' in
      (
        st',
        st'',
        e,
        e',
        v'',
        λ y j.
            p' y j
            ∙ ap
                (λ o.
                  if same_side x y && bytes_eq (ledger_key_account b.address) j then some b else o)
                (p y j),
      )

  pub transfer_at-ok :
      (from to : Bytes) (amt : ℕ) (x : Bool) (st : s.State) (a : Account)
      → M.IsValid st
      → M.view st x (ledger_key_account from) ≡ some a
      → outcome amt a.balance ≡ ok tt
      → (x && bytes_eq from to) ≡ false
      → (st' : s.State) × (transfer_at s from to amt x st ≡ (ok tt, st'))
        × M.IsValid st'
        × PutsTwo x
            (debit amt a)
            (credit amt (or_new to (M.view st x (ledger_key_account to))))
            st
            st'
  unfolding transfer_at
  transfer_at-ok from to amt x st a v there covers apart =
      let (st0, e0, v0, w0) = find_account_lem s M from x st v in
      let (st1, e1, v1, w1) = find_account_lem s M to x st0 v0 in
      let b : Account = or_new to (M.view st x (ledger_key_account to)) in
      let (r, paid, got) = transfer_ok amt (pair_of a b) covers in
      let (st2, st3, s2, s3, v3, p) = store_two (debit amt a) (credit amt b) x st1 v1 in
      (
        st3,
        rw (e0, there, e1, w0 x (ledger_key_account to), apart, r, paid, s2, got, s3, transfer_at)
            refl,
        v3,
        λ y j. rw (← w0 y j, ← w1 y j) (p y j),
      )

  -- The two lookups of one address give one object, which the cache of the ledger for execution holds.
  pub transfer_at-cached :
      (from : Bytes) (amt : ℕ) (st : s.State) (a : Account)
      → M.IsValid st
      → M.view st true (ledger_key_account from) ≡ some a
      → outcome amt a.balance ≡ ok tt
      → (st' : s.State) × (transfer_at s from from amt true st ≡ (ok tt, st'))
        × M.IsValid st'
        × PutsTwo true (credit amt (debit amt a)) (credit amt (debit amt a)) st st'
  unfolding transfer_at
  transfer_at-cached from amt st a v there covers =
      let (st0, e0, v0, w0) = find_account_lem s M from true st v in
      let (st1, e1, v1, w1) = find_account_lem s M from true st0 v0 in
      let b : Account = or_new from (M.view st true (ledger_key_account from)) in
      let (r, paid) = transfer_alias amt (pair_of a b) covers in
      let c : Account = credit amt (debit amt a) in
      let (st2, st3, s2, s3, v3, p) = store_two c c true st1 v1 in
      (
        st3,
        rw
            (
              e0,
              there,
              e1,
              w0 true (ledger_key_account from),
              bytes_eq_refl from,
              r,
              paid,
              s2,
              s3,
              transfer_at,
            )
            refl,
        v3,
        λ y j. rw (← w0 y j, ← w1 y j) (p y j),
      )
