-- ===== src/Vpower/Ctrler/Staking.antt =====
-- ctrlers/vpower/ctrler.go: a staking transaction that ValidateTrx accepts.
use beatoz_go.Base.{
  ℕ, ◌*◌, ◌-◌, ◌<◌, ◌^◌, ◌≡◌, ◌≢◌, refl, sym, ap, ◌∙◌, subst, Bool, true, false, Option, none, some,
  [], Result, ok, err, panic, Status, fail_if, ◌>>=◌, ◌>>◌, ◌==◌, arith, XError, overflow,
  chain_succeeds,
}
use beatoz_go.Base.Words.{add64, mul64, div64, from_int32, sub64, slt64}
use beatoz_go.Base.Bytes.{Bytes, bytes_eq, or_empty}
use beatoz_go.Ledger.Keys.{ledger_key_delegatee}
use beatoz_go.Ledger.Mutable.{attempt}
use beatoz_go.Ledger.Map.{Store, IsMap, found_or_missing}
use beatoz_go.Types.Unit.{amount_per_power}
use beatoz_go.Types.Trx.{Trx, trx_staking}
use beatoz_go.Vpower.Chunks.{Delegatee, VpowerItem, vpower_keyed}
use beatoz_go.Vpower.Access.{as_delegatee, read_delegatee}
use beatoz_go.Vpower.Limiter
use beatoz_go.Vpower.Limiter.{VPowerLimiter, check_limit, track}
use beatoz_go.Vpower.Ctrler.{
  StakingParams, BondingTrxOpt, VPowerCtrler, or_absent, power_of_amount, check_bonding,
  validate_staking, validate_trx,
}

-- A chain of two steps on a state that succeeds has succeeded at the first.
attempt_succeeds :
    {S B : Type 0} {A : Type 0} (r : Result A) (c : S) (next : A → Result B × S) (w : B)
    → (attempt r c next).0 ≡ ok w
    → (v : A) × (r ≡ ok v) × (attempt r c next ≡ next v)
attempt_succeeds panic c next w e = cc
attempt_succeeds (err x) c next w e = cc
attempt_succeeds (ok v) c next w e = (v, refl, refl)

power_of_amount_lem :
    (amount power : ℕ)
    → amount < 2 ^ 64 * amount_per_power
    → power_of_amount amount ≡ ok power
    → (amount ≡ power * amount_per_power) × (0 < power) × (power < 2 ^ 63)
unfolding power_of_amount
power_of_amount_lem amount power h e = ground arith

check_limit_lem :
    (power : ℕ) (op : Bool) (l : VPowerLimiter)
    → (check_limit power op l).0 ≡ ok tt
    → (Limiter.check_total_power power op l ≡ ok tt)
      × ((check_limit power op l).1 ≡ track power op l)
unfolding check_limit
check_limit_lem power op l e =
    let (v, r, same) = attempt_succeeds (Limiter.check_total_power power op l) l _ tt e in
    (r, ap (λ q. q.1) same)

-- The delegatee of an accepted stake: the sender itself, with enough power of its own, or one that
-- is there.
abbrev pub IsBacked : StakingParams → Bool → ℕ → Option Delegatee → Type 0
IsBacked p true power none = slt64 power p.min_validator_power ≡ false
IsBacked p true power (some d) = slt64 (add64 power d.self_power) p.min_validator_power ≡ false
IsBacked p false power none = ⊥
IsBacked p false power (some d) =
    (slt64 power p.min_delegator_power ≡ false)
    × (rate : ℕ) × (div64 (mul64 d.self_power 100) (add64 d.sum_power power) ≡ ok rate)
    × (slt64 rate (from_int32 p.min_self_power_rate) ≡ false)

not_failed :
    (wrong : Bool) (e : XError) (r : Result ℕ) (n : ℕ)
    → (fail_if wrong e >> r) ≡ ok n
    → (wrong ≡ false) × (r ≡ ok n)
not_failed true e r n h = cc
not_failed false e r n h = (refl, h)

check_bonding-IsBacked :
    (p : StakingParams) (self : Bool) (power : ℕ) (d : Option Delegatee) (total : ℕ)
    → check_bonding p self power d ≡ ok total
    → IsBacked p self power d
unfolding check_bonding
check_bonding-IsBacked p true power none total e = (not_failed _ _ _ total e).0
check_bonding-IsBacked p true power (some d) total e = (not_failed _ _ _ total e).0
check_bonding-IsBacked p false power none total e = cc
check_bonding-IsBacked p false power (some d) total e =
    let (few, e1) = not_failed _ _ _ total e in
    let (rate, e2, is) =
      chain_succeeds (div64 (mul64 d.self_power 100) (add64 d.sum_power power)) _ total e1 in
    (few, rate, is, (not_failed _ _ _ total e2).0)

module _ (s : Store VpowerItem) (M : IsMap s) where
  -- The delegatee that the ledger holds for an address; another item under its key is a panic.
  abbrev pub delegatee_at : s.State → Bool → Bytes → Result (Option Delegatee)
  delegatee_at st x addr =
      or_absent (found_or_missing (M.view st x (ledger_key_delegatee addr)) >>= as_delegatee)

  -- What an accepted stake is, and what ValidateTrx has changed.
  pub record IsStakeable (p : StakingParams) (x : Bool) (tx : Trx) (opt : BondingTrxOpt)
      (c c' : VPowerCtrler s) : Type 0 where
    pub amount_is : tx.amount ≡ opt.tx_power * amount_per_power
    pub power_pos : 0 < opt.tx_power
    pub power_small : opt.tx_power < 2 ^ 63
    pub found : delegatee_at c.vpower_state x (or_empty tx.to) ≡ ok opt.dgtee
    pub backed : IsBacked p (bytes_eq tx.from (or_empty tx.to)) opt.tx_power opt.dgtee
    pub within : Limiter.check_total_power opt.tx_power Limiter.add_power c.vpow_limiter ≡ ok tt
    pub tracked : c'.vpow_limiter ≡ track opt.tx_power Limiter.add_power c.vpow_limiter
    pub same_delegatees : c'.all_delegatees ≡ c.all_delegatees
    pub same_validators : c'.last_validators ≡ c.last_validators
    pub same_ledger :
        (y : Bool) (j : Bytes) → M.view c'.vpower_state y j ≡ M.view c.vpower_state y j

  -- What ValidateTrx leaves, of the limiter's answer.
  abbrev answered :
      Status × VPowerLimiter
      → BondingTrxOpt
      → VPowerCtrler s
      → Result BondingTrxOpt × VPowerCtrler s
  answered (r, l) opt c =
      attempt r (record c { vpow_limiter = l }) λ _. (ok opt, record c { vpow_limiter = l })

  last_steps :
      (checks : Status) (limit : Status × VPowerLimiter) (o opt : BondingTrxOpt)
      (c : VPowerCtrler s)
      → (attempt checks c λ _. answered limit o c).0 ≡ ok opt
      → (checks ≡ ok tt)
        × (limit.0 ≡ ok tt)
        × (o ≡ opt)
        × ((attempt checks c λ _. answered limit o c).1 ≡ record c { vpow_limiter = limit.1 })
  last_steps panic limit o opt c e = cc
  last_steps (err x) limit o opt c e = cc
  last_steps (ok u) (panic, l) o opt c e = cc
  last_steps (ok u) (err x, l) o opt c e = cc
  last_steps (ok u) (ok w, l) o opt c e = (refl, refl, cc, refl)

  abbrev steps :
      Result ℕ
      → Result (Option Delegatee)
      → (ℕ → Option Delegatee → Status)
      → (ℕ → Status × VPowerLimiter)
      → VPowerCtrler s
      → VPowerCtrler s
      → Result BondingTrxOpt × VPowerCtrler s
  steps powers found checks limit c c' = attempt powers c λ power. attempt found c' λ d.
      attempt (checks power d) c'
        λ _. answered (limit power) (record { dgtee = d; vpow = none; tx_power = power }) c'

  steps_succeed :
      (powers : Result ℕ) (found : Result (Option Delegatee))
      (checks : ℕ → Option Delegatee → Status) (limit : ℕ → Status × VPowerLimiter)
      (c c' : VPowerCtrler s) (opt : BondingTrxOpt)
      → (steps powers found checks limit c c').0 ≡ ok opt
      → (powers ≡ ok opt.tx_power)
        × (found ≡ ok opt.dgtee)
        × (checks opt.tx_power opt.dgtee ≡ ok tt)
        × ((limit opt.tx_power).0 ≡ ok tt)
        × ((steps powers found checks limit c c').1
            ≡ record c' { vpow_limiter = (limit opt.tx_power).1 })
  steps_succeed panic found checks limit c c' opt e = cc
  steps_succeed (err x) found checks limit c c' opt e = cc
  steps_succeed (ok power) panic checks limit c c' opt e = cc
  steps_succeed (ok power) (err x) checks limit c c' opt e = cc
  steps_succeed (ok power) (ok d) checks limit c c' opt e =
      let o : BondingTrxOpt = record { dgtee = d; vpow = none; tx_power = power } in
      let (f, l, same, st) = last_steps (checks power d) (limit power) o opt c' e in
      (
        ap (λ q. ok q.tx_power) same,
        ap (λ q. ok q.dgtee) same,
        subst (λ q. checks q.tx_power q.dgtee ≡ ok tt) same f,
        subst (λ q. (limit q.tx_power).0 ≡ ok tt) same l,
        st ∙ ap (λ q. record c' { vpow_limiter = (limit q.tx_power).1 }) same,
      )

  key_ne_nil : (addr : Bytes) → ledger_key_delegatee addr ≢ []
  unfolding ledger_key_delegatee
  key_ne_nil addr e = cc

  validate_staking_lem :
      (p : StakingParams) (x : Bool) (tx : Trx) (c : VPowerCtrler s) (opt : BondingTrxOpt)
      → M.IsValid c.vpower_state
      → tx.amount < 2 ^ 64 * amount_per_power
      → (validate_staking s p x tx c).0 ≡ ok opt
      → IsStakeable p x tx opt c (validate_staking s p x tx c).1
  unfolding validate_staking read_delegatee
  validate_staking_lem p x tx c opt v h e =
      let addr : Bytes = or_empty tx.to in
      let (r, v', w) =
        M.get_view (ledger_key_delegatee addr) x c.vpower_state (key_ne_nil addr) v in
      let c1 : VPowerCtrler s = record c {
        vpower_state = (s.get (ledger_key_delegatee addr) x c.vpower_state).1;
      } in
      let (e0, e1, e2, e3, st) =
        steps_succeed (power_of_amount tx.amount)
          (or_absent
            (do item ← (s.get (ledger_key_delegatee addr) x c.vpower_state).0; as_delegatee item))
          (λ power d. (do
            total ← check_bonding p (bytes_eq tx.from addr) power d
            fail_if (slt64 (sub64 (2 ^ 63 - 1) power) total) overflow))
          (λ power. check_limit power Limiter.add_power c.vpow_limiter) c c1 opt e in
      let (total, e4, checked) =
        chain_succeeds (check_bonding p (bytes_eq tx.from addr) opt.tx_power opt.dgtee) _ tt e2 in
      let (amount, pos, small) = power_of_amount_lem tx.amount opt.tx_power h e0 in
      record {
        amount_is = amount;
        power_pos = pos;
        power_small = small;
        found = ap (λ q. or_absent (q >>= as_delegatee)) (sym r) ∙ e1;
        backed =
            check_bonding-IsBacked p (bytes_eq tx.from addr) opt.tx_power opt.dgtee total checked;
        within = (check_limit_lem opt.tx_power Limiter.add_power c.vpow_limiter e3).0;
        tracked =
            ap (λ q. q.vpow_limiter) st
            ∙ (check_limit_lem opt.tx_power Limiter.add_power c.vpow_limiter e3).1;
        same_delegatees = ap (λ q. q.all_delegatees) st;
        same_validators = ap (λ q. q.last_validators) st;
        same_ledger = λ y j. ap (λ q. M.view q.vpower_state y j) st ∙ w y j;
      }

  dispatch :
      (p : StakingParams) (x : Bool) (tx : Trx) (c : VPowerCtrler s)
      → (tx.type == trx_staking) ≡ true
      → validate_trx s p x tx c ≡ validate_staking s p x tx c
  unfolding validate_trx
  dispatch p x tx c t = rw t refl

  -- A stake that ValidateTrx accepts, for execution or for checking, of an amount below 2 ^ 64 units
  -- of power: the power is positive, fits int64, and is worth exactly the amount. The delegatee is
  -- what the ledger of that side holds, and is backed: the sender itself with enough power of its own,
  -- or another that is there, has enough of its own, and gets enough. On either side the controller's
  -- one limiter has found the power within the block's limit and counted it as added; the delegatees
  -- and the validators that the controller lists, and all entries of both sides, are as they were.
  pub validate_trx-IsStakeable :
      (p : StakingParams) (x : Bool) (tx : Trx) (c : VPowerCtrler s) (opt : BondingTrxOpt)
      → (tx.type == trx_staking) ≡ true
      → M.IsValid c.vpower_state
      → tx.amount < 2 ^ 64 * amount_per_power
      → (validate_trx s p x tx c).0 ≡ ok opt
      → IsStakeable p x tx opt c (validate_trx s p x tx c).1
  validate_trx-IsStakeable p x tx c opt t v h e =
      let same = dispatch p x tx c t in
      subst (λ (q : Result BondingTrxOpt × VPowerCtrler s). IsStakeable p x tx opt c q.1) (sym same)
        (validate_staking_lem p x tx c opt v h (sym (ap (λ q. q.0) same) ∙ e))
