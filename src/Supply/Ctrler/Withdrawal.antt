-- ===== src/Supply/Ctrler/Withdrawal.antt =====
-- ctrlers/supply/{ctrler,ctrler_reward}.go: what ValidateTrx finds where it accepts a withdrawal, and
-- the write of the reward.
pub mod Settled
use beatoz_go.Base.{
  ℕ, ◌+◌, ◌<◌, ◌^◌, ◌≡◌, refl, sym, ap, ◌∙◌, subst, Bool, true, false, not, ◌&&◌, Option, none,
  some, Result, ok, err, panic, fail_if, ◌>>=◌, ◌>>◌, ◌==◌, ltb, Bool-cases, inl, inr,
  if◌then◌else◌, arith, invalid_trx, invalid_payload_type, unknown_trx_type,
}
use beatoz_go.Base.Words.{sub256, slt64, neg256, add256}
use beatoz_go.Base.Bytes.{Bytes, bytes_eq, bytes_eq_refl}
use beatoz_go.Ledger.Keys.{ledger_key_reward}
use beatoz_go.Ledger.Mutable.{attempt}
use beatoz_go.Ledger.Map.{Store, IsMap, found_or_missing, same_side}
use beatoz_go.Types.Account.{Account}
use beatoz_go.Types.Trx
use beatoz_go.Types.Trx.{Trx, Payload, trx_withdraw}
use beatoz_go.Account.Books.{account_at, balance_at, IsBook}
use beatoz_go.Account.{reward, or_new}
use beatoz_go.Account.EndBlock.{Credits}
use beatoz_go.Account.Rewarding.{reward_lem}
use beatoz_go.Supply.Reward
use beatoz_go.Supply.Reward.{Reward}
use beatoz_go.Supply.Ctrler.{
  SupplyItem, reward_item, SupplyCtrler, as_reward, or_err, withdraw_payload, validate_trx,
  put_reward, withdraw_reward, execute_trx, supply_keyed, reward_fits,
}
use beatoz_go.Supply.Ctrler.Distribution.{
  IsEntry, AreRewards, Writes, cumulated_at, reward_entry, reward_in, key_ne_nil, Writes-AreRewards,
  entry_after, same_side_refl,
}

-- Withdraw of an amount that is there, at a height that the reward is not past.
pub withdraw_lem :
    (amt h : ℕ) (rwd : Reward)
    → h < 2 ^ 64
    → rwd.height < 2 ^ 64
    → slt64 h rwd.height ≡ false
    → rwd.cumulated < 2 ^ 256
    → ltb rwd.cumulated amt ≡ false
    → (rwd' : Reward) × (Reward.withdraw amt h rwd ≡ ok rwd')
      × (rwd'.address ≡ rwd.address)
      × (rwd'.height ≡ h)
      × (rwd'.cumulated + amt ≡ rwd.cumulated)
unfolding Reward.withdraw
withdraw_lem amt h rwd hh hr e fits enough = elim (Bool-cases (slt64 rwd.height h)) [
  | inl late ↦ (
    record rwd {
      issued = 0;
      withdrawn = amt;
      slashed = 0;
      height = h;
      cumulated = sub256 rwd.cumulated amt;
    },
    rw late refl,
    refl,
    refl,
    left,
  )
  | inr same ↦ (
    record rwd { withdrawn = add256 rwd.withdrawn amt; cumulated = sub256 rwd.cumulated amt },
    rw (same, equal same) refl,
    refl,
    height_is same,
    left,
  )
]
  where
    height_is : slt64 rwd.height h ≡ false → rwd.height ≡ h
    height_is s = ground arith

    equal : slt64 rwd.height h ≡ false → (rwd.height == h) ≡ true
    equal s = ground arith

    left : sub256 rwd.cumulated amt + amt ≡ rwd.cumulated
    left = ground arith

-- The entry that withdrawReward leaves.
abbrev pub left_entry : Reward → Option SupplyItem
left_entry rwd = if rwd.cumulated == 0 then none else some (reward_item rwd)

module _ (s : Store SupplyItem) (M : IsMap s) where
  payload_stage :
      (t wrong : Bool) (o : Option Payload) (c : SupplyCtrler s)
      (next : ℕ → Result Reward × SupplyCtrler s) (rwd : Reward)
      → (if t
          then attempt
              (do fail_if wrong invalid_trx; or_err (err invalid_payload_type) (withdraw_payload o))
              c
              next
          else (err unknown_trx_type, c)).0
        ≡ ok rwd
      → (amt : ℕ) × (t ≡ true)
        × (o ≡ some (Trx.withdraw amt))
        × ((if t
              then attempt
                  (do
                    fail_if wrong invalid_trx
                    or_err (err invalid_payload_type) (withdraw_payload o))
                  c
                  next
              else (err unknown_trx_type, c))
            ≡ next amt)
  payload_stage false wrong o c next rwd e = cc
  payload_stage true true o c next rwd e = cc
  payload_stage true false none c next rwd e = cc
  payload_stage true false (some (Trx.withdraw amt)) c next rwd e = (amt, refl, refl, refl)
  payload_stage true false (some _) c next rwd e = cc

  enough_stage :
      (less : Bool) (r rwd : Reward)
      → (fail_if less invalid_trx >> ok r) ≡ ok rwd
      → (less ≡ false) × (r ≡ rwd)
  enough_stage true r rwd e = cc
  enough_stage false r rwd e = (refl, cc)

  item_stage :
      (r : Result SupplyItem) (amt : ℕ) (rwd : Reward)
      → (do item ← r; rwd ← as_reward item; fail_if (ltb rwd.cumulated amt) invalid_trx; ok rwd)
        ≡ ok rwd
      → (r ≡ ok (reward_item rwd)) × (ltb rwd.cumulated amt ≡ false)
  item_stage panic amt rwd e = cc
  item_stage (err x) amt rwd e = cc
  item_stage (ok (reward_item r)) amt rwd e =
      let (l, same) = enough_stage (ltb r.cumulated amt) r rwd e in
      (ap (λ q. ok (reward_item q)) same, subst (λ q. ltb q.cumulated amt ≡ false) same l)
  item_stage (ok _) amt rwd e = cc

  found_entry :
      (o : Option SupplyItem) (rwd : Reward)
      → found_or_missing o ≡ ok (reward_item rwd)
      → o ≡ some (reward_item rwd)
  found_entry none rwd e = cc
  found_entry (some i) rwd e = cc

  -- What ValidateTrx has found where it accepts a withdrawal.
  pub record IsAccepted (x : Bool) (tx : Trx) (rwd : Reward) (c c1 : SupplyCtrler s) : Type 0 where
    pub amt : ℕ
    pub type_is : (tx.type == trx_withdraw) ≡ true
    pub payload_is : tx.payload ≡ some (Trx.withdraw amt)
    pub entry_is : reward_entry s M c.supply_state x tx.from ≡ some (reward_item rwd)
    pub enough : ltb rwd.cumulated amt ≡ false
    pub valid : M.IsValid c1.supply_state
    pub total_same : c1.last_total_supply ≡ c.last_total_supply
    pub same : (y : Bool) (j : Bytes) → M.view c1.supply_state y j ≡ M.view c.supply_state y j

  pub validate_lem :
      (x : Bool) (tx : Trx) (rwd : Reward) (c : SupplyCtrler s)
      → M.IsValid c.supply_state
      → (validate_trx s x tx c).0 ≡ ok rwd
      → IsAccepted x tx rwd c (validate_trx s x tx c).1
  unfolding validate_trx
  validate_lem x tx rwd c v e =
      let (r, v0, w0) =
        M.get_view (ledger_key_reward tx.from) x c.supply_state (key_ne_nil tx.from) v in
      let (amt, t, p, next) =
        payload_stage (tx.type == trx_withdraw) (not (tx.amount == 0)) tx.payload c _ rwd e in
      let (got, enough) = item_stage _ amt rwd (sym (ap (λ q. q.0) next) ∙ e) in
      record {
        amt = amt;
        type_is = t;
        payload_is = p;
        entry_is = found_entry (reward_entry s M c.supply_state x tx.from) rwd (sym r ∙ got);
        enough = enough;
        valid =
            subst (λ (q : Result Reward × SupplyCtrler s). M.IsValid q.1.supply_state) (sym next)
              v0;
        total_same =
            subst
              (λ (q : Result Reward × SupplyCtrler s). q.1.last_total_supply ≡ c.last_total_supply)
              (sym next) refl;
        same = λ y j.
            subst
              (λ (q : Result Reward × SupplyCtrler s).
                M.view q.1.supply_state y j ≡ M.view c.supply_state y j)
              (sym next) (w0 y j);
      }

  pub put_reward_lem :
      (rwd : Reward) (x : Bool) (st : s.State)
      → M.IsValid st
      → (st' : s.State) × (put_reward s rwd x st ≡ (ok tt, st'))
        × M.IsValid st'
        × Writes s M x (ledger_key_reward rwd.address) (left_entry rwd) st st'
  unfolding put_reward
  put_reward_lem rwd x st v = elim (Bool-cases (rwd.cumulated == 0)) [
    | inl gone ↦
        let (e, v', w) =
          M.del_view (ledger_key_reward rwd.address) x st (key_ne_nil rwd.address) v in
        let st' : s.State = (s.del (ledger_key_reward rwd.address) x st).1 in
        (st', rw gone (λ i. (e i, st')), v', rw gone w)
    | inr left ↦
        let (e, v', w) =
          M.set_view (ledger_key_reward rwd.address) (reward_item rwd) x st (key_ne_nil rwd.address)
            (reward_fits rwd.address rwd) v in
        let st' : s.State = (s.set (ledger_key_reward rwd.address) (reward_item rwd) x st).1 in
        (st', rw left (λ i. (e i, st')), v', rw left w)
  ]

  pub left-IsEntry :
      (h : ℕ) (addr : Bytes) (rwd : Reward)
      → IsEntry h addr (some (reward_item rwd))
      → IsEntry h addr (left_entry rwd)
  left-IsEntry h addr rwd e = elim (Bool-cases (rwd.cumulated == 0)) [
    | inl gone ↦ rw gone tt
    | inr left ↦ rw left e
  ]

  left_cumulated :
      (addr : Bytes) (rwd : Reward) → (reward_in addr (left_entry rwd)).cumulated ≡ rwd.cumulated
  left_cumulated addr rwd = elim (Bool-cases (rwd.cumulated == 0)) [
    | inl gone ↦ rw gone (zero gone)
    | inr left ↦ rw left refl
  ]
    where
      zero : (rwd.cumulated == 0) ≡ true → 0 ≡ rwd.cumulated
      zero e = ground arith

  pub left_at :
      (x : Bool) (addr : Bytes) (rwd : Reward) (st st' : s.State)
      → Writes s M x (ledger_key_reward addr) (left_entry rwd) st st'
      → cumulated_at s M st' x addr ≡ rwd.cumulated
  left_at x addr rwd st st' w =
      ap (λ o. (reward_in addr o).cumulated) stored ∙ left_cumulated addr rwd
    where
      stored : reward_entry s M st' x addr ≡ left_entry rwd
      stored = entry_after s M x addr (left_entry rwd) st st' w addr ∙ rw (bytes_eq_refl addr) refl

  pub held :
      (addr : Bytes) (rwd : Reward) {o : Option SupplyItem}
      → o ≡ some (reward_item rwd)
      → (reward_in addr o).cumulated ≡ rwd.cumulated
  held addr rwd e = ap (λ o. (reward_in addr o).cumulated) e
