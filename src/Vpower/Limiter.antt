-- ===== src/Vpower/Limiter.antt =====
-- ctrlers/vpower/limiter.go: the limit on the change of voting power in one block. An int64 or int32
-- is its bit pattern.
use beatoz_go.Base.{
  ℕ, ◌+◌, ◌-◌, ◌*◌, ◌/◌, ◌≤◌, ◌<◌, ◌^◌, ◌≡◌, refl, ap, ◌∙◌, Bool, true, false, not, ◌&&◌, ok, err,
  panic, Status, overflow, updatable_stake_ratio, fail_if, ◌>>=◌, ◌>>◌, leb, if◌then◌else◌,
  Bool-cases, inl, inr, arith,
}
use native.Mathlib.Nat.{div-lt_iff_lt-mul}
use beatoz_go.Base.Words.{add64, sub64, mul64, div64, div64_exact, sle64, to_int32, sub32, slt32}
use beatoz_go.Ledger.Mutable.{attempt}

pub record VPowerLimiter : Type 0 where
  pub last_total_power : ℕ
  pub estimated_total_power : ℕ
  pub adding_power : ℕ
  pub subing_power : ℕ
  pub allow_rate : ℕ

-- ADD_POWER and SUB_POWER
abbrev pub add_power : Bool
add_power = true

abbrev pub sub_power : Bool
sub_power = false

-- Reset
unfoldable pub reset : ℕ → ℕ → VPowerLimiter → VPowerLimiter
reset total rate l = record {
  last_total_power = total;
  estimated_total_power = total;
  adding_power = 0;
  subing_power = 0;
  allow_rate = rate;
}

-- checkTotalPower
unfoldable pub check_total_power : ℕ → Bool → VPowerLimiter → Status
check_total_power diff op l =
    let remain0 = sub64 l.last_total_power l.subing_power in
    let remain = if op then remain0 else sub64 remain0 diff in
    let total =
      if op then add64 l.estimated_total_power diff else sub64 l.estimated_total_power diff in
    do
      fail_if (not op && sle64 remain0 diff) overflow
      rate ← div64 (mul64 remain 100) total
      fail_if (slt32 l.allow_rate (sub32 100 (to_int32 rate))) updatable_stake_ratio

abbrev pub track : ℕ → Bool → VPowerLimiter → VPowerLimiter
track power op l =
    if op
    then record l {
      estimated_total_power = add64 l.estimated_total_power power;
      adding_power = add64 l.adding_power power;
    }
    else record l {
      estimated_total_power = sub64 l.estimated_total_power power;
      subing_power = add64 l.subing_power power;
    }

-- CheckLimit
unfoldable pub check_limit : ℕ → Bool → VPowerLimiter → Status × VPowerLimiter
check_limit power op l = attempt (check_total_power power op l) l (λ _. (ok tt, track power op l))

-- The limiter counts: the estimated total is the last one with what was added and less what was taken
-- away, in small numbers, and something of the last total remains.
pub record IsCounting (l : VPowerLimiter) : Type 0 where
  pub adds_up : l.estimated_total_power + l.subing_power ≡ l.last_total_power + l.adding_power
  pub remains : l.subing_power < l.last_total_power
  pub last_small : l.last_total_power < 2 ^ 55
  pub total_small : l.estimated_total_power < 2 ^ 55
  pub rate_fits : l.allow_rate ≤ 100

-- What is left of the last total, and the new total, once the change is made.
abbrev pub remain_after : ℕ → Bool → VPowerLimiter → ℕ
remain_after diff op l =
    if op then l.last_total_power - l.subing_power else l.last_total_power - l.subing_power - diff

abbrev pub total_after : ℕ → Bool → VPowerLimiter → ℕ
total_after diff op l =
    if op then l.estimated_total_power + diff else l.estimated_total_power - diff

-- A change is within the limit: it leaves something of the last total, and what it leaves is at
-- least `100 - allow_rate` percent of the new total, in whole percents.
abbrev pub is_within : ℕ → Bool → VPowerLimiter → Bool
is_within diff op l = leb 100 (remain_after diff op l * 100 / total_after diff op l + l.allow_rate)

abbrev pub expected : ℕ → Bool → VPowerLimiter → Status
expected diff op l =
    if not op && leb (l.last_total_power - l.subing_power) diff
    then err overflow
    else if is_within diff op l
    then ok tt
    else err updatable_stake_ratio

rated :
    (remain total rate : ℕ)
    → remain ≤ total
    → 0 < total
    → total < 2 ^ 56
    → rate ≤ 100
    → (do
      q ← div64 (mul64 remain 100) total
      fail_if (slt32 rate (sub32 100 (to_int32 q))) updatable_stake_ratio)
      ≡ (if leb 100 (remain * 100 / total + rate) then ok tt else err updatable_stake_ratio)
rated remain total rate le pos small hr =
    rw (hundredfold, div64_exact (remain * 100) total (omega arith) pos (omega arith))
      (tested (remain * 100 / total) (omega (arith, percent)))
  where
    hundredfold : mul64 remain 100 ≡ remain * 100
    hundredfold = omega arith

    percent : remain * 100 / total < 101
    percent = (div-lt_iff_lt-mul pos).1 (omega arith)

    tested :
        (q : ℕ)
        → q ≤ 100
        → fail_if (slt32 rate (sub32 100 (to_int32 q))) updatable_stake_ratio
          ≡ (if leb 100 (q + rate) then ok tt else err updatable_stake_ratio)
    tested q h = ground arith

checked :
    (power : ℕ) (op : Bool) (l : VPowerLimiter)
    → IsCounting l
    → power < 2 ^ 55
    → check_total_power power op l ≡ expected power op l
unfolding check_total_power
checked power true l c h =
    rw (remain0, added)
      (rated (l.last_total_power - l.subing_power) (l.estimated_total_power + power) l.allow_rate
        (omega arith) (omega arith) (omega arith) c.rate_fits)
  where
    remain0 : sub64 l.last_total_power l.subing_power ≡ l.last_total_power - l.subing_power
    remain0 = omega arith

    added : add64 l.estimated_total_power power ≡ l.estimated_total_power + power
    added = omega arith
checked power false l c h = elim (Bool-cases (leb (l.last_total_power - l.subing_power) power)) [
  | inl all ↦ rw (all, remain0, signed, all) refl
  | inr part ↦
      rw (part, remain0, signed, part, taken part, lowered part)
        (rated (l.last_total_power - l.subing_power - power) (l.estimated_total_power - power)
          l.allow_rate (omega arith) (ground (arith, part)) (omega arith) c.rate_fits)
]
  where
    remain0 : sub64 l.last_total_power l.subing_power ≡ l.last_total_power - l.subing_power
    remain0 = omega arith

    signed :
        sle64 (l.last_total_power - l.subing_power) power
        ≡ leb (l.last_total_power - l.subing_power) power
    signed = ground arith

    taken :
        leb (l.last_total_power - l.subing_power) power ≡ false
        → sub64 (l.last_total_power - l.subing_power) power
          ≡ l.last_total_power - l.subing_power - power
    taken part = ground (arith, part)

    lowered :
        leb (l.last_total_power - l.subing_power) power ≡ false
        → sub64 l.estimated_total_power power ≡ l.estimated_total_power - power
    lowered part = ground (arith, part)

abbrev pub is_ok : Status → Bool
is_ok (ok _) = true
is_ok _ = false

-- The counts after a change.
abbrev pub counted : ℕ → Bool → VPowerLimiter → VPowerLimiter
counted power op l =
    if op
    then record l {
      estimated_total_power = l.estimated_total_power + power;
      adding_power = l.adding_power + power;
    }
    else record l {
      estimated_total_power = l.estimated_total_power - power;
      subing_power = l.subing_power + power;
    }

track_exact :
    (power : ℕ) (op : Bool) (l : VPowerLimiter)
    → IsCounting l
    → power < 2 ^ 55
    → is_ok (expected power op l) ≡ true
    → track power op l ≡ counted power op l
track_exact power true l c h e i = record l {
  estimated_total_power = total i;
  adding_power = adding i;
}
  where
    total : add64 l.estimated_total_power power ≡ l.estimated_total_power + power
    total = omega arith

    adding : add64 l.adding_power power ≡ l.adding_power + power
    adding = omega arith
track_exact power false l c h e i = record l {
  estimated_total_power = total i;
  subing_power = subing i;
}
  where
    some_left : leb (l.last_total_power - l.subing_power) power ≡ false
    some_left = ground (arith, e)

    total : sub64 l.estimated_total_power power ≡ l.estimated_total_power - power
    total = ground (arith, some_left)

    subing : add64 l.subing_power power ≡ l.subing_power + power
    subing = omega arith

-- CheckLimit on a limiter that counts, for an int64 change below 2 ^ 55, accepts it exactly when it is
-- within the limit: a decrease that would leave nothing of the last total is an overflow, and a
-- change after which less than `100 - allow_rate` percent of the new total remains of the last one
-- is refused. A refusal changes nothing; an acceptance counts the change.
pub check_limit_exact :
    (power : ℕ) (op : Bool) (l : VPowerLimiter)
    → IsCounting l
    → power < 2 ^ 55
    → check_limit power op l
      ≡ (expected power op l, if is_ok (expected power op l) then counted power op l else l)
unfolding check_limit
check_limit_exact power op l c h =
    rw (checked power op l c h, check_limit)
      (ends (expected power op l) (track power op l) ∙ ap (λ x. (expected power op l, x)) same)
  where
    ends :
        (r : Status) (t : VPowerLimiter)
        → attempt r l (λ _. (ok tt, t)) ≡ (r, if is_ok r then t else l)
    ends (ok _) t = refl
    ends (err e) t = refl
    ends panic t = refl

    same :
        (if is_ok (expected power op l) then track power op l else l)
        ≡ (if is_ok (expected power op l) then counted power op l else l)
    same = elim (Bool-cases (is_ok (expected power op l))) [
      | inl accepted ↦ rw accepted (track_exact power op l c h accepted)
      | inr refused ↦ rw refused refl
    ]
