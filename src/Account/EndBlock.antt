-- ===== src/Account/EndBlock.antt =====
-- ctrlers/account: AddBalance and EndBlock, which pays out the fees of a block.
use beatoz_go.Base.{
  ℕ, ◌+◌, ◌-◌, ◌*◌, ◌/◌, ◌≤◌, ◌<◌, ◌^◌, ◌≡◌, refl, ap, ◌∙◌, Bool, true, false, ◌&&◌, ◌||◌, Option,
  some, ok, ◌==◌, Bool-cases, inl, inr, ◌⊎◌, if◌then◌else◌, arith,
}
use native.Mathlib.Nat.{mul-le-mul_left, mod-eq_of_lt}
use beatoz_go.Base.Words.{sub256, mul256, neg256, from_int32}
use beatoz_go.Base.Bytes.{Bytes, bytes_eq, bytes_eq_refl, bytes_eq_sym}
use beatoz_go.Ledger.Keys.{ledger_key_account}
use beatoz_go.Ledger.Map.{Store, IsMap, same_side}
use beatoz_go.Types.Account
use beatoz_go.Types.Account.{Account, new_account}
use beatoz_go.Account.{or_new, add_balance, change, end_block, account_keyed}
use beatoz_go.Account.Lookup.{credit, SameViews, Puts, find_account_lem, set_account_lem}
use beatoz_go.Account.Books.{key_apart, account_at, balance_at, IsBook, keeps_fit}

credited :
    (amt : ℕ) (a : Account) → neg256 amt ≡ false → Account.add_balance amt a ≡ (ok tt, credit amt a)
unfolding Account.add_balance
credited amt a h = rw h refl

neither :
    (p q : Bool) (o o' a b : Option Account) {c : Option Account}
    → o ≡ (if p then a else o')
    → o' ≡ (if q then b else c)
    → (q || p) ≡ false
    → o ≡ c
neither p q o o' a b d c e = ground arith

-- What the proposer of a block gets of its fees.
abbrev pub reward_of : ℕ → ℕ → ℕ
reward_of sum_fee rate = sum_fee * rate / 100

reward_of_lem :
    (sum_fee rate : ℕ)
    → sum_fee < 2 ^ 248
    → rate ≤ 100
    → (mul256 sum_fee (from_int32 rate) / 100 ≡ reward_of sum_fee rate)
      × (reward_of sum_fee rate ≤ sum_fee)
reward_of_lem sum_fee rate h hr =
    let small = mul-le-mul_left sum_fee hr in
    (rw (plain, mod-eq_of_lt (fits small)) refl, omega (arith, small))
  where
    plain : from_int32 rate ≡ rate
    plain = ground arith

    fits : sum_fee * rate ≤ sum_fee * 100 → sum_fee * rate < 2 ^ 256
    fits small = omega arith

module _ (s : Store Account) (M : IsMap s) where
  -- One side's balance of an address is up by the amount, its account being made if it is missing, and
  -- every other account is as it was.
  abbrev pub Credits : Bool → Bytes → ℕ → s.State → s.State → Type 0
  Credits x addr amt st st' =
      (y : Bool) (j : Bytes)
      → account_at s M st' y j ≡ (
          if same_side x y && bytes_eq addr j
          then some (credit amt (or_new addr (account_at s M st x addr)))
          else account_at s M st y j)

  written_at :
      (addr : Bytes) (a : Account) (x : Bool) (st st0 st1 : s.State)
      → a.address ≡ addr
      → SameViews s M st st0
      → Puts s M x a.address a st0 st1
      → (y : Bool) (j : Bytes)
      → account_at s M st1 y j
        ≡ (if same_side x y && bytes_eq addr j then some a else account_at s M st y j)
  written_at addr a x st st0 st1 e w p y j =
      p y (ledger_key_account j) ∙ rw (e, key_apart addr j, w y (ledger_key_account j)) refl

  written_at-IsBook :
      (addr : Bytes) (a : Account) (x : Bool) (st st1 : s.State)
      → IsBook s M st
      → M.IsValid st1
      → (a.address ≡ addr) × (a.balance < 2 ^ 256)
      → ((y : Bool) (j : Bytes)
          → account_at s M st1 y j
            ≡ (if same_side x y && bytes_eq addr j then some a else account_at s M st y j))
      → IsBook s M st1
  written_at-IsBook addr a x st st1 k v (e, h) p = record {
    valid = v;
    fits = λ y j. elim (Bool-cases (same_side x y)) [
      | inl same ↦
          rw (p y j, same) (keeps_fit s M addr j a (account_at s M st y j) e h (k.fits y j))
      | inr other ↦ rw (p y j, other) (k.fits y j)
    ];
  }

  -- AddBalance of an amount below 2 ^ 255.
  pub add_balance_lem :
      (addr : Bytes) (amt : ℕ) (x : Bool) (st : s.State)
      → IsBook s M st
      → neg256 amt ≡ false
      → (st' : s.State) × (add_balance s addr amt x st ≡ (ok tt, st'))
        × IsBook s M st'
        × Credits x addr amt st st'
  unfolding add_balance change
  add_balance_lem addr amt x st k small =
      let (st0, e0, v0, w0) = find_account_lem s M addr x st k.valid in
      let a : Account = or_new addr (account_at s M st x addr) in
      let (st1, e1, v1, w1) = set_account_lem s M (credit amt a) x st0 v0 in
      let p = written_at addr (credit amt a) x st st0 st1 ((k.fits x addr).0) w0 w1 in
      (
        st1,
        rw (e0, credited amt a small, e1, add_balance, change) refl,
        written_at-IsBook addr (credit amt a) x st st1 k v1 ((k.fits x addr).0, omega arith) p,
        p,
      )

  paid_twice :
      (a b : Bytes) (n m : ℕ) (st st' st'' : s.State)
      → bytes_eq a b ≡ false
      → Credits true a n st st'
      → Credits true b m st' st''
      → balance_at s M st true a + n < 2 ^ 256
      → balance_at s M st true b + m < 2 ^ 256
      → (balance_at s M st'' true a ≡ balance_at s M st true a + n)
        × (balance_at s M st'' true b ≡ balance_at s M st true b + m)
        × ((x : Bool) (j : Bytes)
            → ((x && (bytes_eq a j || bytes_eq b j)) ≡ true)
              ⊎ (account_at s M st'' x j ≡ account_at s M st x j))
  paid_twice a b n m st st' st'' apart c d ha hb = (
    ap (λ o. (or_new a o).balance) (in_a _ _ _ (d true a) ∙ at_a _ _ _ (c true a)) ∙ omega arith,
    ap (λ o. (or_new b o).balance) (at_b _ _ _ (d true b))
        ∙ ap (λ o. (credit m (or_new b o)).balance) (in_b _ _ _ (c true b))
        ∙ omega arith,
    others,
  )
    where
      in_a : (o p q : Option Account) → o ≡ (if bytes_eq b a then p else q) → o ≡ q
      in_a o p q e = e ∙ rw (bytes_eq_sym b a, apart) refl

      in_b : (o p q : Option Account) → o ≡ (if bytes_eq a b then p else q) → o ≡ q
      in_b o p q e = e ∙ rw apart refl

      at_a : (o p q : Option Account) → o ≡ (if bytes_eq a a then p else q) → o ≡ p
      at_a o p q e = e ∙ rw (bytes_eq_refl a) refl

      at_b : (o p q : Option Account) → o ≡ (if bytes_eq b b then p else q) → o ≡ p
      at_b o p q e = e ∙ rw (bytes_eq_refl b) refl

      others :
          (x : Bool) (j : Bytes)
          → ((x && (bytes_eq a j || bytes_eq b j)) ≡ true)
            ⊎ (account_at s M st'' x j ≡ account_at s M st x j)
      others true j = elim (Bool-cases (bytes_eq a j || bytes_eq b j)) [
        | inl named ↦ inl named
        | inr other ↦
            inr (neither (bytes_eq b j) (bytes_eq a j) _ _ _ _ (d true j) (c true j) other)
      ]
      others false j = inr (d false j ∙ c false j)

  end_block_run :
      (proposer dead : Bytes) (sum_fee rate r d : ℕ) (st st1 st2 : s.State)
      → (sum_fee == 0) ≡ false
      → neg256 sum_fee ≡ false
      → mul256 sum_fee (from_int32 rate) / 100 ≡ r
      → sub256 sum_fee r ≡ d
      → add_balance s proposer r true st ≡ (ok tt, st1)
      → add_balance s dead d true st1 ≡ (ok tt, st2)
      → end_block s (some proposer) sum_fee rate dead st ≡ (ok tt, st2)
  unfolding end_block
  end_block_run proposer dead sum_fee rate r d st st1 st2 h n er ed e1 e2 =
      rw (h, n, er, ed, e1, e2, end_block) refl

  -- EndBlock on fees that are below 2 ^ 248, a reward rate of at most 100 percent, a proposer that is
  -- not the dead address, and balances that do not pass 2 ^ 256, succeeds. On the side for execution
  -- the proposer's balance rises by the rate's part of the fees, rounded down, and the dead address's
  -- by all the rest, so that the two rise by the fees; every other account, and the side for checking,
  -- is as it was.
  pub end_block_pays :
      (proposer dead : Bytes) (sum_fee rate : ℕ) (st : s.State)
      → IsBook s M st
      → bytes_eq proposer dead ≡ false
      → sum_fee < 2 ^ 248
      → rate ≤ 100
      → balance_at s M st true proposer + sum_fee < 2 ^ 256
      → balance_at s M st true dead + sum_fee < 2 ^ 256
      → (st' : s.State) × (end_block s (some proposer) sum_fee rate dead st ≡ (ok tt, st'))
        × IsBook s M st'
        × (balance_at s M st' true proposer
            ≡ balance_at s M st true proposer + reward_of sum_fee rate)
        × (balance_at s M st' true dead + reward_of sum_fee rate
            ≡ balance_at s M st true dead + sum_fee)
        × ((x : Bool) (j : Bytes)
            → ((x && (bytes_eq proposer j || bytes_eq dead j)) ≡ true)
              ⊎ (account_at s M st' x j ≡ account_at s M st x j))
  unfolding end_block
  end_block_pays proposer dead sum_fee rate st k apart h hr hp hd =
      elim (Bool-cases (sum_fee == 0)) [
        | inl none_paid ↦
            let none_due = nothing none_paid in
            let (_, least) = reward_of_lem sum_fee rate h hr in
            (
              st,
              rw none_paid refl,
              k,
              omega (arith, none_due, least),
              omega (arith, none_due, least),
              λ x j. inr refl,
            )
        | inr some_paid ↦
            let r : ℕ = reward_of sum_fee rate in
            let (same, fits) = reward_of_lem sum_fee rate h hr in
            let (st1, e1, k1, c1) = add_balance_lem proposer r true st k (small r fits) in
            let (st2, e2, k2, c2) =
              add_balance_lem dead (sum_fee - r) true st1 k1 (small (sum_fee - r) (omega arith)) in
            let (p, d, others) =
              paid_twice proposer dead r (sum_fee - r) st st1 st2 apart c1 c2 (omega (arith, fits))
                (omega arith) in
            (
              st2,
              end_block_run proposer dead sum_fee rate r (sum_fee - r) st st1 st2 some_paid
                  (small sum_fee (omega arith)) same (exact r fits) e1 e2,
              k2,
              p,
              omega (arith, d, fits),
              others,
            )
      ]
    where
      small : (n : ℕ) → n ≤ sum_fee → neg256 n ≡ false
      small n f = ground arith

      exact : (r : ℕ) → r ≤ sum_fee → sub256 sum_fee r ≡ sum_fee - r
      exact r f = omega arith

      nothing : (sum_fee == 0) ≡ true → sum_fee ≡ 0
      nothing e = ground arith
