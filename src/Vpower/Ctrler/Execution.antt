-- ===== src/Vpower/Ctrler/Execution.antt =====
-- ctrlers/vpower/ctrler.go: the genesis and the execution of transactions of the voting power
-- controller.
use beatoz_go.Base.{
  zero, suc, ◌++◌, ℕ, Bool, true, Option, none, some, List, [], ◌∷◌, Result, ok, err, panic, ◌>>=◌,
  ◌==◌, length, if◌then◌else◌, not_found_delegatee,
}
use beatoz_go.Base.Words.{add64}
use beatoz_go.Base.Bytes.{Bytes, bytes_eq, or_empty}
use beatoz_go.Ledger.Mutable.{Action, attempt}
use beatoz_go.Ledger.Map.{Store}
use beatoz_go.Types.Account
use beatoz_go.Types.Account.{Account}
use beatoz_go.Types.Trx.{Trx}
use beatoz_go.Account.{set_account}
use beatoz_go.Vpower.Chunks.{
  VPower, Delegatee, VpowerItem, new_vpower, has_delegator, bond_power_chunk, unbond_power_chunk,
}
use beatoz_go.Vpower.Access.{read_vpower, remove_delegatee, remove_vpower}
use beatoz_go.Vpower.Freezing.{freeze_power_chunk, freeze_power_chunk_list}
use beatoz_go.Vpower.Valset.{select_validators}
use beatoz_go.Vpower.Ctrler.{
  StakingParams, BondingTrxOpt, or_result, unstaking_hash, VPowerCtrler, on_state,
}

-- bytes.ZeroBytes
abbrev pub zero_bytes : ℕ → Bytes
zero_bytes zero = []
zero_bytes (suc n) = 0 ∷ zero_bytes n

module _ (s : Store VpowerItem) where
  -- The loop of InitLedger, over the delegatees of the initial validators and their powers.
  unfoldable pub init_delegatees :
      List (Delegatee × ℕ) → List Delegatee → Action s.State (List Delegatee)
  init_delegatees [] dgtees st = (ok dgtees, st)
  init_delegatees (v ∷ vs) dgtees st =
      let (r, b) =
        bond_power_chunk s v.1 1 (zero_bytes 32) true
          (record { dgtee = v.0; vpow = new_vpower v.0.addr v.0.addr; st = st }) in
      attempt r b.st λ _. init_delegatees vs (dgtees ++ (b.dgtee ∷ [])) b.st

  -- InitLedger; NewDelegatee has been applied to the public keys.
  unfoldable pub init_ledger : List (Delegatee × ℕ) → Action (VPowerCtrler s) (Unit {0})
  init_ledger vals c =
      let (r, c') = on_state s (init_delegatees vals []) c in
      attempt r c' λ ds. (
        ok tt,
        record c' { all_delegatees = ds; last_validators = (select_validators ds (length ds)).0 },
      )

  -- The release of all voting power of a delegatee, of exeUnbonding and BeginBlock.
  unfoldable pub release_delegators : Bytes → ℕ → Bool → List Bytes → Action s.State (Unit {0})
  release_delegators addr refund_height exec [] st = (ok tt, st)
  release_delegators addr refund_height exec (from ∷ rest) st =
      let (r, st0) = read_vpower s from addr exec st in
      attempt r st0 λ v.
        let (r', st1) = freeze_power_chunk_list s v.from v.power_chunks refund_height exec st0 in
        attempt r' st1 λ _.
          let (r'', st2) = remove_vpower s v.from v.to exec st1 in
          attempt r'' st2 λ _. release_delegators addr refund_height exec rest st2

  unfoldable pub release_delegatee : Delegatee → ℕ → Bool → Action s.State (Unit {0})
  release_delegatee d refund_height exec st =
      let (r, st') = release_delegators d.addr refund_height exec d.delegators st in
      attempt r st' λ _. remove_delegatee s d.addr exec st'

  -- exeUnbonding
  unfoldable pub exec_unbonding :
      StakingParams → BondingTrxOpt → ℕ → Bool → Trx → Action (VPowerCtrler s) (Unit {0})
  exec_unbonding p opt height exec tx c = attempt (or_result panic opt.dgtee) c λ d.
      attempt (do h ← unstaking_hash tx.payload; or_result panic h) c
        λ txhash. attempt (or_result panic opt.vpow) c λ v.
          let refund_height = add64 height p.lazy_unbonding_blocks in
          let (r, b) =
            unbond_power_chunk s txhash exec
              (record { dgtee = d; vpow = v; st = c.vpower_state }) in
          let c1 : (VPowerCtrler s) = record c { vpower_state = b.st } in
          attempt r c1 λ pc.
            let (r', c2) = on_state s (freeze_power_chunk s v.from pc refund_height exec) c1 in
            attempt r' c2 λ _.
              if b.dgtee.self_power == 0
              then on_state s (release_delegatee b.dgtee refund_height exec) c2
              else (ok tt, c2)

  module _ (a : Store Account) where
    -- execBonding, on the sender's account of the transaction's context. `new_delegatee` is
    -- NewDelegatee of the sender's public key, whose address is a hash.
    unfoldable pub exec_bonding :
        Delegatee
        → BondingTrxOpt
        → ℕ
        → Bytes
        → Bool
        → Trx
        → Action ((VPowerCtrler s) × Account × a.State) (Unit {0})
    exec_bonding new_delegatee opt height txhash exec tx (c, sender, acct) =
        let found : Option Delegatee = elim opt.dgtee [
          | some d ↦ some d
          | none ↦ if bytes_eq tx.from (or_empty tx.to) then some new_delegatee else none
        ] in
        attempt (or_result (err not_found_delegatee) found) (c, sender, acct)
          λ d.
            let listed : Result VPower × s.State =
              if has_delegator tx.from d.delegators
              then read_vpower s tx.from d.addr exec c.vpower_state
              else (ok (new_vpower tx.from d.addr), c.vpower_state) in
            let c1 : (VPowerCtrler s) = record c { vpower_state = listed.1 } in
            attempt listed.0 (c1, sender, acct)
              λ v.
                let (r, b) =
                  bond_power_chunk s opt.tx_power height txhash exec
                    (record { dgtee = d; vpow = v; st = c1.vpower_state }) in
                let c2 : (VPowerCtrler s) = record c1 { vpower_state = b.st } in
                attempt r (c2, sender, acct)
                  λ _.
                    let (r', sender') = Account.sub_balance tx.amount sender in
                    attempt r' (c2, sender', acct)
                      λ _. (ok tt, (c2, sender', (set_account a sender' exec acct).1))
