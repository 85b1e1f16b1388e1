-- ===== src/Supply/Reward/Balance.antt =====
-- ctrlers/supply/reward.go: what the changes of one height add up to.
use beatoz_go.Base.{
  ℕ, ◌+◌, ◌%◌, ◌<◌, ◌^◌, ◌≡◌, ◌∙◌, refl, true, false, List, [], ◌∷◌, Result, ok, ◌>>=◌, ◌==◌, arith,
}
use beatoz_go.Base.Words.{add256, sub256, slt64}
use beatoz_go.Supply.Reward
use beatoz_go.Supply.Reward.{Reward}

-- A change of a reward, by an amount.
pub data Change : Type 0 where
  issue slash withdraw : ℕ → Change

abbrev pub run_one : ℕ → Change → Reward → Result Reward
run_one h (issue r) = Reward.issue r h
run_one h (slash r) = Reward.slash r h
run_one h (withdraw r) = Reward.withdraw r h

-- Changes at one height, in order.
unfoldable pub run_all : ℕ → List Change → Reward → Result Reward
run_all h [] rwd = ok rwd
run_all h (x ∷ xs) rwd = run_one h x rwd >>= run_all h xs

-- With what was taken out, there is what was there before and what was issued.
abbrev pub IsBalanced : ℕ → Reward → Type 0
IsBalanced opening rwd =
    (rwd.cumulated + rwd.withdrawn + rwd.slashed) % 2 ^ 256 ≡ (opening + rwd.issued) % 2 ^ 256

abbrev amount : Change → ℕ
amount (issue r) = r
amount (slash r) = r
amount (withdraw r) = r

abbrev AreWords : List Change → Type 0
AreWords [] = Unit
AreWords (x ∷ xs) = (amount x < 2 ^ 256) × AreWords xs

-- A change that succeeds, and what it leaves of the height and the balance.
abbrev Leaves : ℕ → ℕ → Change → Reward → Type 0
Leaves opening h x rwd =
    (rwd' : Reward) × (run_one h x rwd ≡ ok rwd')
    × (rwd'.height ≡ h)
    × (rwd'.address ≡ rwd.address)
    × IsBalanced opening rwd'

first_of_height :
    (h : ℕ) (x : Change) (rwd : Reward)
    → amount x < 2 ^ 256
    → slt64 rwd.height h ≡ true
    → Leaves rwd.cumulated h x rwd
unfolding Reward.issue Reward.slash Reward.withdraw
first_of_height h (issue r) rwd w e = (
  record rwd {
    issued = r;
    withdrawn = 0;
    slashed = 0;
    height = h;
    cumulated = add256 rwd.cumulated r;
  },
  rw e refl,
  refl,
  refl,
  omega arith,
)
first_of_height h (slash r) rwd w e = (
  record rwd {
    issued = 0;
    withdrawn = 0;
    slashed = r;
    height = h;
    cumulated = sub256 rwd.cumulated r;
  },
  rw e refl,
  refl,
  refl,
  omega arith,
)
first_of_height h (withdraw r) rwd w e = (
  record rwd {
    issued = 0;
    withdrawn = r;
    slashed = 0;
    height = h;
    cumulated = sub256 rwd.cumulated r;
  },
  rw e refl,
  refl,
  refl,
  omega arith,
)

at_own_height : (h : ℕ) → (slt64 h h ≡ false) × ((h == h) ≡ true)
at_own_height h = (ground arith, ground arith)

later_of_height :
    (opening h : ℕ) (x : Change) (rwd : Reward)
    → amount x < 2 ^ 256
    → rwd.height ≡ h
    → IsBalanced opening rwd
    → Leaves opening h x rwd
unfolding Reward.issue Reward.slash Reward.withdraw
later_of_height opening h (issue r) rwd w e b =
    let (late, same) = at_own_height h in
    (
      record rwd { issued = add256 rwd.issued r; cumulated = add256 rwd.cumulated r },
      rw (e, late, same) refl,
      e,
      refl,
      omega (arith, b),
    )
later_of_height opening h (slash r) rwd w e b =
    let (late, same) = at_own_height h in
    (
      record rwd { slashed = add256 rwd.slashed r; cumulated = sub256 rwd.cumulated r },
      rw (e, late, same) refl,
      e,
      refl,
      omega (arith, b),
    )
later_of_height opening h (withdraw r) rwd w e b =
    let (late, same) = at_own_height h in
    (
      record rwd { withdrawn = add256 rwd.withdrawn r; cumulated = sub256 rwd.cumulated r },
      rw (e, late, same) refl,
      e,
      refl,
      omega (arith, b),
    )

run_all_balances :
    (opening h : ℕ) (xs : List Change) (rwd : Reward)
    → AreWords xs
    → rwd.height ≡ h
    → IsBalanced opening rwd
    → (rwd' : Reward) × (run_all h xs rwd ≡ ok rwd')
      × (rwd'.height ≡ h)
      × (rwd'.address ≡ rwd.address)
      × IsBalanced opening rwd'
unfolding run_all
run_all_balances opening h [] rwd w e b = (rwd, refl, e, refl, b)
run_all_balances opening h (x ∷ xs) rwd (w, ws) e b =
    let (rwd1, e1, h1, a1, b1) = later_of_height opening h x rwd w e b in
    let (rwd2, e2, h2, a2, b2) = run_all_balances opening h xs rwd1 ws h1 b1 in
    (rwd2, rw e1 e2, h2, a2 ∙ a1, b2)

-- Any changes of a reward at one height later than its last succeed, at least one, whatever their
-- order. Afterwards the cumulated amount, with what was withdrawn and slashed at that height, is what
-- was there before and what was issued at that height, modulo 2 ^ 256; the owner is the same.
pub run_all-IsBalanced :
    (h : ℕ) (x : Change) (xs : List Change) (rwd : Reward)
    → AreWords (x ∷ xs)
    → slt64 rwd.height h ≡ true
    → (rwd' : Reward) × (run_all h (x ∷ xs) rwd ≡ ok rwd')
      × (rwd'.height ≡ h)
      × (rwd'.address ≡ rwd.address)
      × IsBalanced rwd.cumulated rwd'
unfolding run_all
run_all-IsBalanced h x xs rwd (w, ws) e =
    let (rwd1, e1, h1, a1, b1) = first_of_height h x rwd w e in
    let (rwd2, e2, h2, a2, b2) = run_all_balances rwd.cumulated h xs rwd1 ws h1 b1 in
    (rwd2, rw e1 e2, h2, a2 ∙ a1, b2)
