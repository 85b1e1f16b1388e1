-- ===== src/Vpower/Slashing.antt =====
-- ctrlers/vpower/ctrler_punish.go: the slash of a byzantine validator and of its delegators.
pub mod Sums
use beatoz_go.Base.{ℕ, Bool, List, [], ◌∷◌, Result, ok, ◌>>=◌, true, if◌then◌else◌}
use beatoz_go.Base.Words.{add64, sub64, mul64, div64, from_int32}
use beatoz_go.Base.Bytes.{Bytes, bytes_eq}
use beatoz_go.Ledger.Mutable.{Action, attempt}
use beatoz_go.Ledger.Map.{Store}
use beatoz_go.Vpower.Chunks.{PowerChunk, VPower, Delegatee, VpowerItem}
use beatoz_go.Vpower.Access.{read_delegatee, write_delegatee, read_vpower, write_vpower}

-- What the loops change: the delegatee and the power slashed so far.
pub record Slashed : Type 0 where
  pub dgtee : Delegatee
  pub slashed_power : ℕ

-- The three sums that one slashed chunk lowers, and the one that it raises.
abbrev pub count_slash : Bool → ℕ → Slashed → Slashed
count_slash self slashed z = record {
  dgtee = record z.dgtee {
    sum_power = sub64 z.dgtee.sum_power slashed;
    self_power = if self then sub64 z.dgtee.self_power slashed else z.dgtee.self_power;
  };
  slashed_power = add64 z.slashed_power slashed;
}

-- The loop over the chunks of one delegator, from the last to the first, with their sum.
unfoldable pub slash_chunks :
    ℕ → Bool → List PowerChunk → ℕ → Slashed → Result (List PowerChunk × ℕ × Slashed)
slash_chunks rate self [] sum z = ok ([], sum, z)
slash_chunks rate self (c ∷ cs) sum z = do
  later ← slash_chunks rate self cs sum z
  slashed ← div64 (mul64 c.power (from_int32 rate)) 100
  ok (
    record c { power = sub64 c.power slashed } ∷ later.0,
    sub64 later.1 slashed,
    count_slash self slashed later.2,
  )

-- One delegator's voting power slashed.
unfoldable pub slash_vpower : ℕ → Bytes → VPower → Slashed → Result (VPower × Slashed)
slash_vpower rate addr vpow z = do
  q ← slash_chunks rate (bytes_eq addr vpow.to) vpow.power_chunks vpow.sum_power z
  ok (record vpow { power_chunks = q.0; sum_power = q.1 }, q.2)

module _ (s : Store VpowerItem) where
  -- The loop over the delegators.
  unfoldable pub slash_delegators : ℕ → List Bytes → Slashed → Action s.State Slashed
  slash_delegators rate [] z st = (ok z, st)
  slash_delegators rate (addr ∷ addrs) z st =
      let (r, st') = read_vpower s addr z.dgtee.addr true st in
      attempt r st' λ vpow. attempt (slash_vpower rate addr vpow z) st' λ q.
        let (r', st'') = write_vpower s q.0 true st' in
        attempt r' st'' λ _. slash_delegators rate addrs q.1 st''

  -- doSlash
  unfoldable pub do_slash : Bytes → ℕ → Action s.State ℕ
  do_slash target rate st =
      let (r, st0) = read_delegatee s target true st in
      attempt r st0 λ d.
        let (r', st1) =
          slash_delegators rate d.delegators (record { dgtee = d; slashed_power = 0 }) st0 in
        attempt r' st1 λ z.
          let (r'', st2) = write_delegatee s z.dgtee true st1 in
          attempt r'' st2 λ _. (ok z.slashed_power, st2)
