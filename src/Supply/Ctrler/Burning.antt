-- ===== src/Supply/Ctrler/Burning.antt =====
-- ctrlers/supply/ctrler_burn.go: the total supply through burns.
use beatoz_go.Base.{
  ℕ, ◌+◌, ◌-◌, ◌<◌, ◌^◌, ◌≡◌, refl, sym, true, false, List, [], ◌∷◌, ok, err, invalid_amount, ltb,
  if◌then◌else◌, Bool-cases, inl, inr, arith,
}
use beatoz_go.Ledger.Map.{Store}
use beatoz_go.Supply.Ctrler.{SupplyItem, SupplyCtrler, burn}

module _ (s : Store SupplyItem) where
  -- A sequence of burns, each at its height; the error of a refused one is dropped.
  unfoldable pub burn_all : List (ℕ × ℕ) → SupplyCtrler s → SupplyCtrler s
  burn_all [] c = c
  burn_all (b ∷ bs) c = burn_all bs (burn s b.0 b.1 c).1

  -- The sum of the amounts that are not refused, from a total.
  unfoldable pub burnt : List (ℕ × ℕ) → ℕ → ℕ
  burnt [] total = 0
  burnt (b ∷ bs) total =
      let taken = burnt bs (total - b.1) in
      let kept = burnt bs total in if ltb b.1 total then b.1 + taken else kept

  abbrev total_of : SupplyCtrler s → ℕ
  total_of c = c.last_total_supply.total_supply

  burn_taken :
      (h amt : ℕ) (c : SupplyCtrler s)
      → total_of c < 2 ^ 256
      → ltb amt (total_of c) ≡ true
      → ((burn s h amt c).0 ≡ ok tt) × (total_of (burn s h amt c).1 ≡ total_of c - amt)
  unfolding burn
  burn_taken h amt c fits less = (ground arith, ground arith)

  burn_refused :
      (h amt : ℕ) (c : SupplyCtrler s)
      → ltb amt (total_of c) ≡ false
      → burn s h amt c ≡ (err invalid_amount, c)
  unfolding burn
  burn_refused h amt c more = ground arith

  sum_up :
      (amt left taken total total1 : ℕ)
      → ltb amt total ≡ true
      → total1 ≡ total - amt
      → left + taken ≡ total1
      → left + (amt + taken) ≡ total
  sum_up amt left taken total total1 less e t = ground arith

  -- Burn accepts exactly the amounts below the total supply and refuses the others without a change.
  -- Through any burns a positive total supply stays positive, and with what was burnt it is what it
  -- was: no sequence of burns wraps it around.
  pub burn_all_bounded :
      (bs : List (ℕ × ℕ)) (c : SupplyCtrler s)
      → 0 < total_of c
      → total_of c < 2 ^ 256
      → (0 < total_of (burn_all bs c))
        × (total_of (burn_all bs c) + burnt bs (total_of c) ≡ total_of c)
        × ((h amt : ℕ)
            → (burn s h amt (burn_all bs c)).0
              ≡ (if ltb amt (total_of (burn_all bs c)) then ok tt else err invalid_amount))
  unfolding burn_all burnt
  burn_all_bounded [] c pos fits = (
    pos,
    omega arith,
    λ h amt. elim (Bool-cases (ltb amt (total_of c))) [
      | inl less ↦ rw less (burn_taken h amt c fits less).0
      | inr more ↦ rw (burn_refused h amt c more, more) refl
    ],
  )
  burn_all_bounded (b ∷ bs) c pos fits = elim (Bool-cases (ltb b.1 (total_of c))) [
    | inl less ↦
        let c1 : SupplyCtrler s = (burn s b.0 b.1 c).1 in
        let (r, e) = burn_taken b.0 b.1 c fits less in
        let (p, t, f) = burn_all_bounded bs c1 (rw e (ground arith)) (rw e (omega arith)) in
        (p, rw (less, sym e) (sum_up b.1 _ _ (total_of c) _ less e t), f)
    | inr more ↦
        let (p, t, f) = burn_all_bounded bs c pos fits in
        rw (burn_refused b.0 b.1 c more, more) (p, t, f)
  ]
