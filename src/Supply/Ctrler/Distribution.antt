-- ===== src/Supply/Ctrler/Distribution.antt =====
-- ctrlers/supply/ctrler_reward.go: the rewards of the ledger as distRewardToState changes them.
use beatoz_go.Base.{
  ℕ, ◌+◌, ◌<◌, ◌^◌, ◌≡◌, ◌≢◌, sym, refl, ap, ◌∙◌, Bool, true, false, ◌&&◌, Option, none, some, List,
  [], ◌∷◌, Result, ok, ◌==◌, Bool-cases, subst, inl, inr, if◌then◌else◌, arith,
}
use beatoz_go.Base.Words.{pays_in, add256, slt64}
use beatoz_go.Base.Bytes.{Bytes, bytes_eq, bytes_eq_sound}
use beatoz_go.Ledger.Keys.{ledger_key_reward}
use beatoz_go.Ledger.Map.{Store, IsMap, found_or_missing, same_side}
use beatoz_go.Supply.Reward.{Reward, new_reward, issue}
use beatoz_go.Supply.Mint.{MintedReward}
use beatoz_go.Supply.Ctrler.{
  SupplyItem, supply_item, reward_item, or_new_reward, dist_one, dist_reward_to_state, supply_keyed,
  reward_fits,
}

pub same_side_refl : (x : Bool) → same_side x x ≡ true
same_side_refl true = refl
same_side_refl false = refl

-- What the entry of an address holds: nothing, or a reward.
abbrev pub reward_in : Bytes → Option SupplyItem → Reward
reward_in addr (some (reward_item r)) = r
reward_in addr _ = new_reward addr

-- What an address gets of a list of rewards.
abbrev pub amounts_for : Bytes → List MintedReward → ℕ
amounts_for addr [] = 0
amounts_for addr (n ∷ ns) = (if bytes_eq n.0 addr then n.1 else 0) + amounts_for addr ns

pub key_ne_nil : (a : Bytes) → ledger_key_reward a ≢ []
unfolding ledger_key_reward
key_ne_nil a e = cc

pub key_apart : (a b : Bytes) → bytes_eq (ledger_key_reward a) (ledger_key_reward b) ≡ bytes_eq a b
unfolding bytes_eq ledger_key_reward
key_apart a b = refl

-- An entry is nothing or the reward of its address, not later than a height.
abbrev pub IsEntry : ℕ → Bytes → Option SupplyItem → Type 0
IsEntry h addr none = Unit
IsEntry h addr (some (supply_item s)) = ⊥
IsEntry h addr (some (reward_item r)) =
    (r.address ≡ addr) × (r.height < 2 ^ 64) × (slt64 h r.height ≡ false) × (r.cumulated < 2 ^ 256)

-- Issue at a height that the reward is not past.
issue_lem :
    (amt h : ℕ) (rwd : Reward)
    → h < 2 ^ 64
    → rwd.height < 2 ^ 64
    → slt64 h rwd.height ≡ false
    → (rwd' : Reward) × (issue amt h rwd ≡ ok rwd')
      × (rwd'.address ≡ rwd.address)
      × (rwd'.height ≡ h)
      × (rwd'.cumulated ≡ add256 rwd.cumulated amt)
unfolding issue
issue_lem amt h rwd hh hr e = elim (Bool-cases (slt64 rwd.height h)) [
  | inl late ↦ (
    record rwd {
      issued = amt;
      withdrawn = 0;
      slashed = 0;
      height = h;
      cumulated = add256 rwd.cumulated amt;
    },
    rw late refl,
    refl,
    refl,
    refl,
  )
  | inr same ↦ (
    record rwd { issued = add256 rwd.issued amt; cumulated = add256 rwd.cumulated amt },
    rw (same, equal same) refl,
    refl,
    height_is same,
    refl,
  )
]
  where
    height_is : slt64 rwd.height h ≡ false → rwd.height ≡ h
    height_is s = ground arith

    equal : slt64 rwd.height h ≡ false → (rwd.height == h) ≡ true
    equal s = ground arith

-- The reward to change, where an entry is in order.
abbrev IsReady : ℕ → Bytes → Result Reward → Reward → Type 0
IsReady h addr got r =
    (got ≡ ok r)
    × (r.address ≡ addr)
    × (r.height < 2 ^ 64)
    × (slt64 h r.height ≡ false)
    × (r.cumulated < 2 ^ 256)

entry-IsReady :
    (h : ℕ) (addr : Bytes) (o : Option SupplyItem)
    → h < 2 ^ 63
    → IsEntry h addr o
    → IsReady h addr (or_new_reward addr (found_or_missing o)) (reward_in addr o)
entry-IsReady h addr none hh e = (refl, refl, omega arith, ground arith, omega arith)
entry-IsReady h addr (some (supply_item s)) hh e = elim e [ ]
entry-IsReady h addr (some (reward_item r)) hh (a, w, l, f) = (refl, a, w, l, f)

module _ (s : Store SupplyItem) (M : IsMap s) where
  abbrev pub reward_entry : s.State → Bool → Bytes → Option SupplyItem
  reward_entry st x addr = M.view st x (ledger_key_reward addr)

  abbrev pub cumulated_at : s.State → Bool → Bytes → ℕ
  cumulated_at st x addr = (reward_in addr (reward_entry st x addr)).cumulated

  -- The rewards of a side are stored under their addresses, and none is past the height.
  abbrev pub AreRewards : ℕ → Bool → s.State → Type 0
  AreRewards h x st = (addr : Bytes) → IsEntry h addr (reward_entry st x addr)

  -- One entry of one side is written.
  abbrev pub Writes : Bool → Bytes → Option SupplyItem → s.State → s.State → Type 0
  Writes x key o st st' =
      (y : Bool) (j : Bytes)
      → M.view st' y j ≡ (if same_side x y && bytes_eq key j then o else M.view st y j)

  dist_one_lem :
      (h : ℕ) (n : MintedReward) (st : s.State)
      → h < 2 ^ 63
      → M.IsValid st
      → AreRewards h true st
      → (rwd : Reward) × (st' : s.State) × (dist_one s h n st ≡ (ok tt, st'))
        × M.IsValid st'
        × (rwd.address ≡ n.0)
        × (rwd.height ≡ h)
        × (rwd.cumulated ≡ add256 (cumulated_at st true n.0) n.1)
        × Writes true (ledger_key_reward n.0) (some (reward_item rwd)) st st'
  unfolding dist_one
  dist_one_lem h n st hh v a =
      let (e0, v0, w0) = M.get_view (ledger_key_reward n.0) true st (key_ne_nil n.0) v in
      let (f, adr, wide, late, fit) = entry-IsReady h n.0 (reward_entry st true n.0) hh (a n.0) in
      let (rwd, e1, a1, h1, c1) =
        issue_lem n.1 h (reward_in n.0 (reward_entry st true n.0)) (omega arith) wide late in
      let st0 : s.State = (s.get (ledger_key_reward n.0) true st).1 in
      let (e2, v2, w2) =
        M.set_view (ledger_key_reward n.0) (reward_item rwd) true st0 (key_ne_nil n.0)
          (reward_fits n.0 rwd) v0 in
      (
        rwd,
        (s.set (ledger_key_reward n.0) (reward_item rwd) true st0).1,
        rw (e0, f, e1) (λ i. (e2 i, (s.set (ledger_key_reward n.0) (reward_item rwd) true st0).1)),
        v2,
        a1 ∙ adr,
        h1,
        c1,
        λ y j. w2 y j ∙ rw (w0 y j) refl,
      )

  -- The entries of all addresses after a write of one.
  pub entry_after :
      (x : Bool) (addr : Bytes) (o : Option SupplyItem) (st st' : s.State)
      → Writes x (ledger_key_reward addr) o st st'
      → (b : Bytes) → reward_entry st' x b ≡ (if bytes_eq addr b then o else reward_entry st x b)
  entry_after x addr o st st' w b =
      w x (ledger_key_reward b) ∙ rw (key_apart addr b, same_side_refl x) refl

  pub Writes-AreRewards :
      (h : ℕ) (x : Bool) (addr : Bytes) (o : Option SupplyItem) (st st' : s.State)
      → AreRewards h x st
      → IsEntry h addr o
      → Writes x (ledger_key_reward addr) o st st'
      → AreRewards h x st'
  Writes-AreRewards h x addr o st st' a e w b = elim (Bool-cases (bytes_eq addr b)) [
    | inl same ↦
        subst (IsEntry h b) (sym (entry_after x addr o st st' w b ∙ rw same refl))
          (subst (λ k. IsEntry h k o) (bytes_eq_sound addr b same) e)
    | inr other ↦ subst (IsEntry h b) (sym (entry_after x addr o st st' w b ∙ rw other refl)) (a b)
  ]

  pub Writes-cumulated_at :
      (x : Bool) (addr : Bytes) (rwd : Reward) (st st' : s.State)
      → Writes x (ledger_key_reward addr) (some (reward_item rwd)) st st'
      → (b : Bytes)
      → cumulated_at st' x b ≡ (if bytes_eq addr b then rwd.cumulated else cumulated_at st x b)
  Writes-cumulated_at x addr rwd st st' w b = elim (Bool-cases (bytes_eq addr b)) [
    | inl same ↦
        ap (λ o. (reward_in b o).cumulated) (entry_after x addr (some (reward_item rwd)) st st' w b)
        ∙ rw same refl
    | inr other ↦
        ap (λ o. (reward_in b o).cumulated) (entry_after x addr (some (reward_item rwd)) st st' w b)
        ∙ rw other refl
  ]

  -- Nothing but rewards of the side for execution has changed.
  abbrev pub OnlyRewards : s.State → s.State → Type 0
  OnlyRewards st st' =
      ((j : Bytes) → M.view st' false j ≡ M.view st false j)
      × ((j : Bytes)
          → ((b : Bytes) → bytes_eq (ledger_key_reward b) j ≡ false)
          → M.view st' true j ≡ M.view st true j)

  -- The rewards have grown by those of a list.
  abbrev pub Grows : List MintedReward → s.State → s.State → Type 0
  Grows ns st st' =
      (b : Bytes) → cumulated_at st' true b ≡ cumulated_at st true b + amounts_for b ns

  -- No address gets more than its amount can hold.
  abbrev pub HasRoom : List MintedReward → s.State → Type 0
  HasRoom ns st = (b : Bytes) → cumulated_at st true b + amounts_for b ns < 2 ^ 256

  -- One reward distributed, as a step of the whole.
  one-IsEntry :
      (h : ℕ) (addr : Bytes) (amt old : ℕ) (rwd : Reward)
      → h < 2 ^ 63
      → rwd.address ≡ addr
      → rwd.height ≡ h
      → rwd.cumulated ≡ add256 old amt
      → IsEntry h addr (some (reward_item rwd))
  one-IsEntry h addr amt old rwd hh a e c =
      (a, omega (arith, e), rw e (ground arith), omega (arith, c))

  one_step :
      (ns : List MintedReward) (n : MintedReward) (rwd : Reward) (st st1 : s.State)
      → HasRoom (n ∷ ns) st
      → rwd.cumulated ≡ add256 (cumulated_at st true n.0) n.1
      → Writes true (ledger_key_reward n.0) (some (reward_item rwd)) st st1
      → (b : Bytes)
      → (cumulated_at st1 true b + amounts_for b ns
          ≡ cumulated_at st true b + amounts_for b (n ∷ ns))
        × (cumulated_at st1 true b + amounts_for b ns < 2 ^ 256)
  one_step ns n rwd st st1 room c w b =
      pays_in (bytes_eq n.0 b) (cumulated_at st true b) n.1 (amounts_for b ns)
        (cumulated_at st1 true b) (room b) (Writes-cumulated_at true n.0 rwd st st1 w b ∙ here)
    where
      here :
          (if bytes_eq n.0 b then rwd.cumulated else cumulated_at st true b)
          ≡ (if bytes_eq n.0 b then add256 (cumulated_at st true b) n.1 else cumulated_at st true b)
      here = elim (Bool-cases (bytes_eq n.0 b)) [
        | inl same ↦
            rw same (c ∙ ap (λ k. add256 (cumulated_at st true k) n.1) (bytes_eq_sound n.0 b same))
        | inr other ↦ rw other refl
      ]

  Writes-OnlyRewards :
      (addr : Bytes) (o : Option SupplyItem) (st st1 : s.State)
      → Writes true (ledger_key_reward addr) o st st1
      → OnlyRewards st st1
  Writes-OnlyRewards addr o st st1 w = (w false, λ j out. w true j ∙ rw (out addr) refl)

  pub dist_reward_lem :
      (ns : List MintedReward) (h : ℕ) (st : s.State)
      → h < 2 ^ 63
      → M.IsValid st
      → AreRewards h true st
      → HasRoom ns st
      → (st' : s.State) × (dist_reward_to_state s ns h st ≡ (ok tt, st'))
        × M.IsValid st'
        × AreRewards h true st'
        × Grows ns st st'
        × OnlyRewards st st'
  unfolding dist_reward_to_state
  dist_reward_lem [] h st hh v a room =
      (st, refl, v, a, λ b. omega arith, (λ j. refl, λ j out. refl))
  dist_reward_lem (n ∷ ns) h st hh v a room =
      let (rwd, st1, e1, v1, adr, hgt, cum, w) = dist_one_lem h n st hh v a in
      let entry = one-IsEntry h n.0 n.1 (cumulated_at st true n.0) rwd hh adr hgt cum in
      let a1 = Writes-AreRewards h true n.0 (some (reward_item rwd)) st st1 a entry w in
      let step = one_step ns n rwd st st1 room cum w in
      let o1 = Writes-OnlyRewards n.0 (some (reward_item rwd)) st st1 w in
      let (st2, e2, v2, a2, g2, o2) = dist_reward_lem ns h st1 hh v1 a1 (λ b. (step b).1) in
      (
        st2,
        rw e1 e2,
        v2,
        a2,
        λ b. g2 b ∙ (step b).0,
        (λ j. (o2.0 j) ∙ o1.0 j, λ j out. (o2.1 j out) ∙ o1.1 j out),
      )
