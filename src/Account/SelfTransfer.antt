-- ===== src/Account/SelfTransfer.antt =====
-- ctrlers/account: a transfer from an address to itself.
use beatoz_go.Base.{
  ℕ, ◌+◌, ◌<◌, ◌^◌, ◌≡◌, refl, sym, ap, ◌∙◌, subst, Bool, true, false, Option, none, some, ok,
  Bool-cases, inl, inr, if◌then◌else◌, arith,
}
use beatoz_go.Base.Bytes.{Bytes, bytes_eq, bytes_eq_refl, bytes_eq_sound}
use beatoz_go.Ledger.Map.{Store, IsMap}
use beatoz_go.Types.Account.{Account}
use beatoz_go.Account.{transfer_at, or_new, account_keyed}
use beatoz_go.Account.Lookup.{outcome, debit, credit}
use beatoz_go.Account.Transfer.{transfer_at-ok, transfer_at-cached, credit-debit}
use beatoz_go.Account.Books.{transfer_outcome, account_at, balance_at, Fits, IsBook, both_stored}

module _ (s : Store Account) (M : IsMap s) where
  -- The payer's account, when a transfer of `amt` from it succeeds.
  payer_of :
      (amt : ℕ) (o : Option Account)
      → transfer_outcome amt o ≡ ok tt
      → (a : Account) × (o ≡ some a) × (outcome amt a.balance ≡ ok tt)
  payer_of amt none e = cc
  payer_of amt (some a) e = (a, refl, e)

  -- A transfer from an address to itself, of an amount that its balance covers on both sides and that
  -- does not take the balance for checking past 2 ^ 256: on the side for execution, whose cache gives
  -- both lookups one object, no account changes. On the side for checking the second object is
  -- written over the first, and the balance grows by the amount.
  pub transfer_at_self :
      (from : Bytes) (amt : ℕ) (st : s.State)
      → IsBook s M st
      → (transfer_outcome amt (account_at s M st true from) ≡ ok tt)
      → (transfer_outcome amt (account_at s M st false from) ≡ ok tt)
      → balance_at s M st false from + amt < 2 ^ 256
      → ((transfer_at s from from amt true st).0 ≡ ok tt)
        × ((j : Bytes)
            → account_at s M (transfer_at s from from amt true st).1 true j
              ≡ account_at s M st true j)
        × ((transfer_at s from from amt false st).0 ≡ ok tt)
        × (balance_at s M (transfer_at s from from amt false st).1 false from
            ≡ balance_at s M st false from + amt)
  transfer_at_self from amt st k exec check room =
      let (a, there, covers) = payer_of amt (account_at s M st true from) exec in
      let (b, there', covers') = payer_of amt (account_at s M st false from) check in
      let (st', e, v, w) = transfer_at-cached s M from amt st a k.valid there covers in
      let (st'', e', v', w') =
        transfer_at-ok s M from from amt false st b k.valid there' covers' refl in
      let c : Account = credit amt (debit amt a) in
      let own = (owner true a there).0 in
      let got =
        both_stored s M (debit amt b) (credit amt (or_new from (account_at s M st false from))) from
          from false st st'' ((owner false b there').0) ((k.fits false from).0) w' false from in
      rw (e, e')
        (
          refl,
          λ j.
              both_stored s M c c from from true st st' own own w true j
              ∙ rw (restored a there covers) (same j a there),
          refl,
          ap (λ o. (or_new from o).balance) (ends _ _ _ got) ∙ omega arith,
        )
    where
      ends : (o a b : Option Account) → o ≡ (if bytes_eq from from then a else b) → o ≡ a
      ends o a b e = e ∙ rw (bytes_eq_refl from) refl

      owner :
          (x : Bool) (a : Account)
          → account_at s M st x from ≡ some a
          → (a.address ≡ from) × (a.balance < 2 ^ 256)
      owner x a there = subst (Fits s M from) there (k.fits x from)

      restored :
          (a : Account)
          → account_at s M st true from ≡ some a
          → outcome amt a.balance ≡ ok tt
          → credit amt (debit amt a) ≡ a
      restored a there covers = credit-debit amt a ((owner true a there).1) covers

      same :
          (j : Bytes) (a : Account)
          → account_at s M st true from ≡ some a
          → (if bytes_eq from j
              then some a
              else if bytes_eq from j
              then some a
              else account_at s M st true j)
            ≡ account_at s M st true j
      same j a there = elim (Bool-cases (bytes_eq from j)) [
        | inl here ↦ rw here (sym there ∙ ap (account_at s M st true) (bytes_eq_sound from j here))
        | inr other ↦ rw other refl
      ]
