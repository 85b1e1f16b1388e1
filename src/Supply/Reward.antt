-- ===== src/Supply/Reward.antt =====
-- ctrlers/supply/reward.go: the reward of one address. `height` is that of the last change; issued,
-- slashed and withdrawn count the changes at that height.
pub mod Balance
use beatoz_go.Base.{ℕ, Result, ok, panic, ◌==◌, if◌then◌else◌}
use beatoz_go.Base.Words.{add256, sub256, slt64}
use beatoz_go.Base.Bytes.{Bytes}

pub record Reward : Type 0 where
  pub address : Bytes
  pub height : ℕ
  pub issued : ℕ
  pub slashed : ℕ
  pub withdrawn : ℕ
  pub cumulated : ℕ

abbrev pub new_reward : Bytes → Reward
new_reward addr = record {
  address = addr;
  height = 0;
  issued = 0;
  slashed = 0;
  withdrawn = 0;
  cumulated = 0;
}

-- (*Reward).Issue
unfoldable pub issue : ℕ → ℕ → Reward → Result Reward
issue r h rwd =
    if slt64 rwd.height h
    then ok (record rwd {
      issued = r;
      withdrawn = 0;
      slashed = 0;
      height = h;
      cumulated = add256 rwd.cumulated r;
    })
    else if rwd.height == h
    then ok (record rwd { issued = add256 rwd.issued r; cumulated = add256 rwd.cumulated r })
    else panic

-- (*Reward).Withdraw
unfoldable pub withdraw : ℕ → ℕ → Reward → Result Reward
withdraw r h rwd =
    if slt64 rwd.height h
    then ok (record rwd {
      issued = 0;
      withdrawn = r;
      slashed = 0;
      height = h;
      cumulated = sub256 rwd.cumulated r;
    })
    else if rwd.height == h
    then ok (record rwd { withdrawn = add256 rwd.withdrawn r; cumulated = sub256 rwd.cumulated r })
    else panic

-- (*Reward).Slash
unfoldable pub slash : ℕ → ℕ → Reward → Result Reward
slash r h rwd =
    if slt64 rwd.height h
    then ok (record rwd {
      issued = 0;
      withdrawn = 0;
      slashed = r;
      height = h;
      cumulated = sub256 rwd.cumulated r;
    })
    else if rwd.height == h
    then ok (record rwd { slashed = add256 rwd.slashed r; cumulated = sub256 rwd.cumulated r })
    else panic
