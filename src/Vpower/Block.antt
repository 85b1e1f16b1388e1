-- ===== src/Vpower/Block.antt =====
-- ctrlers/vpower/limiter.go: the changes of one block.
use beatoz_go.Base.{
  ℕ, ◌+◌, ◌-◌, ◌*◌, ◌/◌, ◌≤◌, ◌<◌, ◌^◌, ◌≡◌, refl, sym, ap, subst, Bool, true, false, List, [], ◌∷◌,
  leb→le, Bool-cases, inl, inr, arith,
}
use native.Mathlib.Nat.{mul_comm, mul-div_cancel}
use beatoz_go.Vpower.Limiter.{
  VPowerLimiter, reset, check_limit, IsCounting, is_within, is_ok, expected, counted,
  check_limit_exact,
}

-- The changes that the transactions of a block ask for, each with its direction, one after the other;
-- a refused change ends only its own transaction.
unfoldable pub check_all : List (ℕ × Bool) → VPowerLimiter → VPowerLimiter
check_all [] l = l
check_all ((power, op) ∷ cs) l = check_all cs (check_limit power op l).1

abbrev pub sum_of : List (ℕ × Bool) → ℕ
sum_of [] = 0
sum_of ((power, op) ∷ cs) = power + sum_of cs

-- What remains of the last total is at least `100 - allow_rate` percent of the estimated one.
pub record IsLimited (total rate room : ℕ) (l : VPowerLimiter) : Type 0 where
  pub last_is : l.last_total_power ≡ total
  pub rate_is : l.allow_rate ≡ rate
  pub adds_up : l.estimated_total_power + l.subing_power ≡ total + l.adding_power
  pub remains : l.subing_power < total
  pub has_room : l.estimated_total_power + room < 2 ^ 55
  pub limited : 100 ≤ (total - l.subing_power) * 100 / l.estimated_total_power + rate

step-IsLimited :
    (total rate power room : ℕ) (op : Bool) (l : VPowerLimiter)
    → total < 2 ^ 55
    → rate ≤ 100
    → IsLimited total rate (power + room) l
    → IsLimited total rate room (check_limit power op l).1
step-IsLimited total rate power room op l h hr k =
    let counting : IsCounting l = record {
      adds_up = omega (arith, k.adds_up, k.last_is);
      remains = omega (arith, k.remains, k.last_is);
      last_small = omega (arith, k.last_is, h);
      total_small = omega (arith, k.has_room);
      rate_fits = omega (arith, k.rate_is, hr);
    } in
    subst (IsLimited total rate room)
      (sym (ap (λ r. r.1) (check_limit_exact power op l counting (omega (arith, k.has_room)))))
      (elim (Bool-cases (is_ok (expected power op l))) [
        | inl accepted ↦ rw accepted (accept op accepted)
        | inr refused ↦ rw refused (record {
          last_is = k.last_is;
          rate_is = k.rate_is;
          adds_up = k.adds_up;
          remains = k.remains;
          has_room = omega (arith, k.has_room);
          limited = k.limited;
        })
      ])
  where
    within : (op : Bool) → is_ok (expected power op l) ≡ true → is_within power op l ≡ true
    within true e = ground (arith, e)
    within false e = ground (arith, e)

    below : is_ok (expected power false l) ≡ true → power < total - l.subing_power
    below e = ground (arith, e, k.last_is)

    joined :
        l.last_total_power - (l.subing_power + power) ≡ l.last_total_power - l.subing_power - power
    joined = omega arith

    accept :
        (op : Bool)
        → is_ok (expected power op l) ≡ true
        → IsLimited total rate room (counted power op l)
    accept true e = record {
      last_is = k.last_is;
      rate_is = k.rate_is;
      adds_up = omega (arith, k.adds_up);
      remains = k.remains;
      has_room = omega (arith, k.has_room);
      limited = rw (← k.last_is, ← k.rate_is) (leb→le _ _ (within true e));
    }
    accept false e = record {
      last_is = k.last_is;
      rate_is = k.rate_is;
      adds_up = ground (arith, below e, k.adds_up, k.remains);
      remains = ground (arith, below e, k.remains);
      has_room = omega (arith, k.has_room);
      limited = rw (← k.last_is, ← k.rate_is, joined) (leb→le _ _ (within false e));
    }

check_all-IsLimited :
    (total rate : ℕ) (cs : List (ℕ × Bool)) (l : VPowerLimiter)
    → total < 2 ^ 55
    → rate ≤ 100
    → IsLimited total rate (sum_of cs) l
    → IsLimited total rate 0 (check_all cs l)
unfolding check_all
check_all-IsLimited total rate [] l h hr k = k
check_all-IsLimited total rate ((power, op) ∷ cs) l h hr k =
    check_all-IsLimited total rate cs (check_limit power op l).1 h hr
      (step-IsLimited total rate power (sum_of cs) op l h hr k)

-- The limit holds over a block: after Reset with a total above zero and a rate of at most 100 percent,
-- whatever changes the transactions ask for (with their sum and the total below 2 ^ 55), the
-- estimated total is the last one with what was added and less what was taken away, something of the
-- last total remains, and what remains is at least `100 - rate` percent of the estimated total, in
-- whole percents.
pub block_keeps_rate :
    (total rate : ℕ) (cs : List (ℕ × Bool)) (l : VPowerLimiter)
    → 0 < total
    → total + sum_of cs < 2 ^ 55
    → rate ≤ 100
    → IsLimited total rate 0 (check_all cs (reset total rate l))
unfolding reset
block_keeps_rate total rate cs l pos h hr =
    check_all-IsLimited total rate cs (reset total rate l) (omega arith) hr (record {
      last_is = refl;
      rate_is = refl;
      adds_up = refl;
      remains = pos;
      has_room = h;
      limited = whole;
    })
  where
    all_left : total - 0 ≡ total
    all_left = omega arith

    whole : 100 ≤ (total - 0) * 100 / total + rate
    whole = rw (all_left, mul_comm total 100, mul-div_cancel 100 pos) (omega arith)
