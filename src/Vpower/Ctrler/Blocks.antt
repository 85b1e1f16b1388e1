-- ===== src/Vpower/Ctrler/Blocks.antt =====
-- ctrlers/vpower/ctrler_block.go: what the voting power controller does at the ends of a block.
use beatoz_go.Base.{
  ℕ, Bool, true, none, some, List, [], ◌∷◌, ok, err, panic, Status, ◌==◌, length, if◌then◌else◌,
}
use beatoz_go.Base.Words.{add64, sub64, sle64}
use beatoz_go.Base.Bytes.{Bytes}
use beatoz_go.Ledger.Mutable.{Action, attempt}
use beatoz_go.Ledger.Map.{Store}
use beatoz_go.Ledger.Map.Seek.{Seeker}
use beatoz_go.Types.Unit.{power_to_amount}
use beatoz_go.Types.Account.{Account}
use beatoz_go.Account.{add_balance}
use beatoz_go.Supply.Ctrler.{is_mint_height}
use beatoz_go.Vpower.Chunks.{VpowerItem}
use beatoz_go.Vpower.Access.{read_delegatee, load_delegatees}
use beatoz_go.Vpower.Freezing.{unfreeze_power_chunk}
use beatoz_go.Vpower.Missed.{add_missed_block_count, reset_all_missed_block_count}
use beatoz_go.Vpower.Slashing.{do_slash}
use beatoz_go.Vpower.Limiter
use beatoz_go.Vpower.Limiter.{VPowerLimiter, check_limit}
use beatoz_go.Vpower.Valset.{ValidatorUpdate, update_validators}
use beatoz_go.Vpower.Ctrler.{
  StakingParams, or_absent, sum_power_of_validators, VPowerCtrler, on_state,
}
use beatoz_go.Vpower.Ctrler.Execution.{release_delegatee}

module _ (s : Store VpowerItem) where
  module _ (a : Store Account) where
    -- The slashes of BeginBlock; a slash that fails is logged.
    unfoldable pub punish_byzantines :
        StakingParams → List Bytes → Action (s.State × a.State) (Unit {0})
    punish_byzantines p [] (st, acct) = (ok tt, (st, acct))
    punish_byzantines p (target ∷ rest) (st, acct) =
        let (r, st') = do_slash s target p.slash_rate st in
        elim r [
          | panic ↦ (panic, (st', acct))
          | err e ↦ punish_byzantines p rest (st', acct)
          | ok slashed ↦
              let (r', acct') = add_balance a p.dead_address (power_to_amount slashed) true acct in
              attempt r' (st', acct') λ _. punish_byzantines p rest (st', acct')
        ]

  -- A validator that missed too many blocks is released; one that is gone already is passed over.
  unfoldable pub punish_missing : StakingParams → ℕ → Bytes → Action s.State (Unit {0})
  punish_missing p height addr st =
      let (r, st1) = add_missed_block_count s addr true st in
      attempt r st1 λ missed.
        if sle64 (sub64 p.inflation_cycle_blocks p.min_signed_blocks) missed
        then (let (r', st2) = read_delegatee s addr true st1 in
            attempt (or_absent r') st2 λ o. elim o [
              | none ↦ (ok tt, st2)
              | some d ↦ release_delegatee s d (add64 height p.lazy_unbonding_blocks) true st2
            ])
        else (ok tt, st1)

  -- The loop over the last votes: an address, and whether it signed.
  unfoldable pub punish_missings :
      StakingParams → ℕ → List (Bytes × Bool) → Action s.State (Unit {0})
  punish_missings p height [] st = (ok tt, st)
  punish_missings p height (v ∷ vs) st =
      let one : Status × s.State = if v.1 then (ok tt, st) else punish_missing p height v.0 st in
      attempt one.0 one.1 λ _. punish_missings p height vs one.1

  abbrev pub reset_limiter : StakingParams → (VPowerCtrler s) → (VPowerCtrler s)
  reset_limiter p c = record c {
    vpow_limiter =
        Limiter.reset (sum_power_of_validators c.last_validators 0) p.max_updatable_power_rate
          c.vpow_limiter;
  }

  module _ (k : Seeker s) (a : Store Account) where
    -- BeginBlock
    unfoldable pub begin_block :
        StakingParams
        → ℕ
        → List Bytes
        → List (Bytes × Bool)
        → Action ((VPowerCtrler s) × a.State) (Unit {0})
    begin_block p height byzantines votes (c, acct) =
        let (r, (st1, acct1)) = punish_byzantines a p byzantines (c.vpower_state, acct) in
        let c1 : (VPowerCtrler s) = record c { vpower_state = st1 } in
        attempt r (c1, acct1)
          λ _.
            if length votes == 0
            then (ok tt, (c1, acct1))
            else (let (r', c2) = on_state s (punish_missings p height votes) c1 in
                attempt r' (c2, acct1)
                  λ _.
                    attempt (is_mint_height height p.inflation_cycle_blocks) (c2, acct1)
                      λ due.
                        let c3 : (VPowerCtrler s) =
                          if due
                          then (on_state s (reset_all_missed_block_count s k true) c2).1
                          else c2 in
                        (ok tt, (reset_limiter p c3, acct1)))

    -- EndBlock; it returns the updates of the validator set.
    unfoldable pub end_block :
        StakingParams → ℕ → Action ((VPowerCtrler s) × a.State) (List ValidatorUpdate)
    end_block p height (c, acct) =
        let c0 : (VPowerCtrler s) = reset_limiter p c in
        let (r, (st1, acct1)) = unfreeze_power_chunk s k a height (c0.vpower_state, acct) in
        let c1 : (VPowerCtrler s) = record c0 { vpower_state = st1 } in
        attempt r (c1, acct1)
          λ _.
            attempt (load_delegatees s k true c1.vpower_state) (c1, acct1)
              λ ds.
                let (ups, vals) = update_validators ds c1.last_validators p.max_validator_cnt in
                (ok ups, (record c1 { all_delegatees = ds; last_validators = vals }, acct1))

  -- Commit; the ledger's own Commit is `commit_state`.
  abbrev pub commit : Action s.State (Bytes × ℕ) → Action (VPowerCtrler s) (Bytes × ℕ)
  commit commit_state c = on_state s commit_state c
