-- ===== src/Account/Books.antt =====
-- ctrlers/account: the balances of the account ledger through Transfer, AddBalance and SubBalance.
use beatoz_go.Base.{
  ℕ, ◌<◌, ◌^◌, ◌≡◌, refl, sym, ◌∙◌, subst, Bool, true, false, ◌&&◌, Option, none, some, Result, ok,
  err, Status, not_found_account, Option-cases, Bool-cases, inl, inr, if◌then◌else◌, arith,
}
use beatoz_go.Base.Bytes.{Bytes, bytes_eq, bytes_eq_sound}
use beatoz_go.Ledger.Keys.{ledger_key_account}
use beatoz_go.Ledger.Map.{Store, IsMap, same_side}
use beatoz_go.Types.Account.{Account}
use beatoz_go.Account.{transfer_at, or_new, account_keyed}
use beatoz_go.Account.Lookup.{outcome, debit, credit, SameViews}
use beatoz_go.Account.Transfer.{
  PutsTwo, transfer_at-missing, transfer_at-short, transfer_at-ok, outcome-cases,
}

pub key_apart :
    (a b : Bytes) → bytes_eq (ledger_key_account a) (ledger_key_account b) ≡ bytes_eq a b
unfolding bytes_eq ledger_key_account
key_apart a b = refl

-- What a transfer returns, by the payer's account.
abbrev pub transfer_outcome : ℕ → Option Account → Status
transfer_outcome amt none = err not_found_account
transfer_outcome amt (some a) = outcome amt a.balance

abbrev pub is_ok {ℓ} : {A : Type ℓ} → Result A → Bool
is_ok (ok a) = true
is_ok _ = false

module _ (s : Store Account) (M : IsMap s) where
  abbrev pub account_at : s.State → Bool → Bytes → Option Account
  account_at st x addr = M.view st x (ledger_key_account addr)

  abbrev pub balance_at : s.State → Bool → Bytes → ℕ
  balance_at st x addr = (or_new addr (account_at st x addr)).balance

  -- Each account is stored under its own address, and its balance is a uint256.
  abbrev pub Fits : Bytes → Option Account → Type 0
  Fits addr o = (or_new addr o).address ≡ addr × ((or_new addr o).balance < 2 ^ 256)

  pub record IsBook (st : s.State) : Type 0 where
    pub valid : M.IsValid st
    pub fits : (x : Bool) (addr : Bytes) → Fits addr (account_at st x addr)

  pub keep : (st st' : s.State) → IsBook st → M.IsValid st' → SameViews s M st st' → IsBook st'
  keep st st' b v w = record {
    valid = v;
    fits = λ x addr. rw (w x (ledger_key_account addr)) (b.fits x addr);
  }

  -- The ledger after a transfer: on the side that it is for, and if it succeeds, the payer's balance
  -- is down and the receiver's is up; any other account, and the other side, is as it was.
  abbrev pub IsAfter : Bytes → Bytes → ℕ → Bool → s.State → Status × s.State → Type 0
  IsAfter from to amt x st (r, st') =
      (y : Bool) (j : Bytes)
      → account_at st' y j ≡ (
          if is_ok r && same_side x y
          then (if bytes_eq to j
              then some (credit amt (or_new to (account_at st x to)))
              else if bytes_eq from j
              then some (debit amt (or_new from (account_at st x from)))
              else account_at st y j)
          else account_at st y j)

  pub keeps_fit :
      (addr j : Bytes) (a : Account) (o : Option Account)
      → a.address ≡ addr
      → a.balance < 2 ^ 256
      → Fits j o
      → Fits j (if bytes_eq addr j then some a else o)
  keeps_fit addr j a o e h f = elim (Bool-cases (bytes_eq addr j)) [
    | inl same ↦ rw same (e ∙ bytes_eq_sound addr j same, h)
    | inr other ↦ rw other f
  ]

  -- Two accounts are stored under their addresses, the second one last.
  abbrev pub StoresTwo : Bytes → Bytes → Bool → Account → Account → s.State → s.State → Type 0
  StoresTwo from to x a b st st' =
      (y : Bool) (j : Bytes)
      → account_at st' y j ≡ (
          if same_side x y
          then (if bytes_eq to j
              then some b
              else if bytes_eq from j
              then some a
              else account_at st y j)
          else account_at st y j)

  pub both_stored :
      (a b : Account) (from to : Bytes) (x : Bool) (st st' : s.State)
      → a.address ≡ from
      → b.address ≡ to
      → PutsTwo s M x a b st st'
      → StoresTwo from to x a b st st'
  both_stored a b from to x st st' ea eb p y j = elim (Bool-cases (same_side x y)) [
    | inl same ↦
        p y (ledger_key_account j) ∙ rw (same, ea, eb, key_apart to j, key_apart from j) refl
    | inr other ↦ p y (ledger_key_account j) ∙ rw other refl
  ]

  pub both_stored-IsBook :
      (a b : Account) (from to : Bytes) (x : Bool) (st st' : s.State)
      → IsBook st
      → M.IsValid st'
      → (a.address ≡ from) × (a.balance < 2 ^ 256)
      → (b.address ≡ to) × (b.balance < 2 ^ 256)
      → StoresTwo from to x a b st st'
      → IsBook st'
  both_stored-IsBook a b from to x st st' k v (ea, ha) (eb, hb) p = record {
    valid = v;
    fits = λ y j. elim (Bool-cases (same_side x y)) [
      | inl same ↦
          rw (p y j, same)
            (keeps_fit to j b (if bytes_eq from j then some a else account_at st y j) eb hb
              (keeps_fit from j a (account_at st y j) ea ha (k.fits y j)))
      | inr other ↦ rw (p y j, other) (k.fits y j)
    ];
  }

  -- Transfer between two addresses, on a ledger of accounts that are stored under their own addresses
  -- with uint256 balances, returns what the payer's account calls for: a missing payer, an amount of
  -- 2 ^ 255 or more, and a balance that does not cover it are each an error. If it succeeds, the
  -- amount leaves the payer's balance and is added to the receiver's, whose account is made if it is
  -- missing; if it fails, no account changes. All other accounts and the other side of the ledger are
  -- as they were.
  pub transfer_at_exact :
      (from to : Bytes) (amt : ℕ) (x : Bool) (st : s.State)
      → IsBook st
      → bytes_eq from to ≡ false
      → let (r, st') = transfer_at s from to amt x st in
        (r ≡ transfer_outcome amt (account_at st x from))
        × IsBook st'
        × IsAfter from to amt x st (r, st')
  transfer_at_exact from to amt x st k apart = elim (Option-cases (account_at st x from)) [
    | inl missing ↦
        let (st', e, (v, w)) = transfer_at-missing s M from to amt x st k.valid missing in
        rw (e, missing) (refl, keep st st' k v w, λ y j. w y (ledger_key_account j))
    | inr (a, there) ↦ elim (outcome-cases amt a.balance) [
      | inl (covers, _, _) ↦
          let c = account_at st x to in
          let (st', e, v, w) =
            transfer_at-ok s M from to amt x st a k.valid there covers (apart_on x) in
          let p =
            both_stored (debit amt a) (credit amt (or_new to c)) from to x st st'
              (payer_address a there) ((k.fits x to).0) w in
          rw (e, there)
            (
              sym covers,
              both_stored-IsBook (debit amt a) (credit amt (or_new to c)) from to x st st' k v
                  (payer_address a there, omega arith) ((k.fits x to).0, omega arith) p,
              p,
            )
      | inr (error, fails) ↦
          let (st', e, (v, w)) =
            transfer_at-short s M from to amt x st a error k.valid there fails in
          rw (e, there) (sym fails, keep st st' k v w, λ y j. w y (ledger_key_account j))
    ]
  ]
    where
      payer_address : (a : Account) → account_at st x from ≡ some a → a.address ≡ from
      payer_address a there = subst (λ o. (or_new from o).address ≡ from) there ((k.fits x from).0)

      apart_on : (y : Bool) → (y && bytes_eq from to) ≡ false
      apart_on true = apart
      apart_on false = refl
