-- ===== src/Supply/Total.antt =====
-- ctrlers/supply/supply.go: the total supply, and the supply at its last adjustment.
use beatoz_go.Base.{ℕ, Bool, true, false}
use beatoz_go.Base.Words.{add256, sub256}

pub record Supply : Type 0 where
  pub height : ℕ
  pub adjust_height : ℕ
  pub total_supply : ℕ
  pub adjust_supply : ℕ
  pub changed : Bool

abbrev pub new_supply : Supply
new_supply = record {
  height = 0;
  adjust_height = 0;
  total_supply = 0;
  adjust_supply = 0;
  changed = false;
}

-- (*Supply).Add
abbrev pub add : ℕ → ℕ → Supply → Supply
add height amt s = record s {
  total_supply = add256 s.total_supply amt;
  height = height;
  changed = true;
}

-- (*Supply).Sub
abbrev pub sub : ℕ → ℕ → Supply → Supply
sub height amt s = record s {
  total_supply = sub256 s.total_supply amt;
  height = height;
  changed = true;
}

-- `s.adjustSupply = s.totalSupply.Clone()`
abbrev adjusted : ℕ → Supply → Supply
adjusted height s = record s { adjust_supply = s.total_supply; adjust_height = height }

-- (*Supply).AdjustAdd
abbrev pub adjust_add : ℕ → ℕ → Supply → Supply
adjust_add height amt s = adjusted height (add height amt s)

-- (*Supply).AdjustSub
abbrev pub adjust_sub : ℕ → ℕ → Supply → Supply
adjust_sub height amt s = adjusted height (sub height amt s)

-- (*Supply).ResetChanged
abbrev pub reset_changed : Supply → Supply
reset_changed s = record s { changed = false }
