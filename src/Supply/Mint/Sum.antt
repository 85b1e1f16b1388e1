-- ===== src/Supply/Mint/Sum.antt =====
-- ctrlers/supply/ctrler_mint.go: the sum of the amounts that the computation shares out.
use beatoz_go.Base.{
  ℕ, ◌+◌, ◌%◌, ◌<◌, ◌^◌, ◌≡◌, ap, ◌∙◌, subst, Bool, true, false, List, [], ◌∷◌, Result, ok,
  ordinary, fail_if, ◌>>◌, chain_succeeds, arith,
}
use beatoz_go.Base.Words.{add256}
use beatoz_go.Base.Bytes.{Bytes}
use beatoz_go.Supply.Mint.{
  Decimals, MintedReward, ReqMint, RespMint, MintParams, Beneficiary, Weights, Shares, share_of,
  share_rewards, compute_issuance_and_reward,
}

abbrev pub sum_of : List MintedReward → ℕ
sum_of [] = 0
sum_of (n ∷ ns) = n.1 + sum_of ns

abbrev pub AreFit : List MintedReward → Type 0
AreFit [] = Unit
AreFit (n ∷ ns) = (n.1 < 2 ^ 256) × AreFit ns

-- A response is in order: its sum is that of its amounts, which are words.
pub record IsSummed (m : RespMint) : Type 0 where
  pub sum_is : m.sum_minted_amt ≡ sum_of m.rewards % 2 ^ 256
  pub are_fit : AreFit m.rewards

-- The response to amounts that are added to a running sum.
abbrev Adds : ℕ → RespMint → Type 0
Adds sum m = (m.sum_minted_amt ≡ (sum + sum_of m.rewards) % 2 ^ 256) × AreFit m.rewards

zero_add : (n : ℕ) → 0 + n ≡ n
zero_add n = omega arith

returned : {A : Type 0} (P : A → Type 0) (a b : A) → ◌≡◌ {A = Result A} (ok a) (ok b) → P a → P b
returned P a b e h = subst P same h
  where
    same : a ≡ b
    same = cc

first-Adds :
    (sum amt : ℕ) (addr : Bytes) (m : RespMint)
    → amt < 2 ^ 256
    → Adds (add256 sum amt) m
    → Adds sum (record m { rewards = (addr, amt) ∷ m.rewards })
first-Adds sum amt addr m h (s, fit) = (s ∙ omega arith, (h, fit))

module _ (d : Decimals) (fits : (x : d.Decimal) (n : ℕ) → d.to_uint256 x ≡ ok n → n < 2 ^ 256) where
  share_rewards_lem :
      (t : Shares d) (bs : List (Beneficiary d)) (remainder : d.Decimal) (sum : ℕ) (m : RespMint)
      → sum < 2 ^ 256
      → share_rewards d t bs remainder sum ≡ ok m
      → Adds sum m
  unfolding share_rewards
  share_rewards_lem t [] remainder sum m h e = returned (Adds sum) _ m e (omega (arith, h), tt)
  share_rewards_lem t (b ∷ bs) remainder sum m h e =
      let (rwd, e1, f1) = chain_succeeds (share_of d t b remainder) _ m e in
      let (amt, e2, f2) = chain_succeeds (d.to_uint256 rwd) _ m e1 in
      let (rest, e3, f3) =
        chain_succeeds (share_rewards d t bs (d.sub rwd (d.floor rwd)) (add256 sum amt)) _ m e2 in
      let later = share_rewards_lem t bs _ (add256 sum amt) rest (omega arith) f3 in
      returned (Adds sum) _ m e3 (first-Adds sum amt b.address rest (fits rwd amt f2) later)

  -- What the routine answers is in order: its sum is that of the amounts it shares out, modulo
  -- 2 ^ 256, and each amount is a word, whatever the weights and the arithmetic on decimals.
  pub compute-IsSummed :
      (weigh : ReqMint → Result (Weights d)) (g : MintParams) (req : ReqMint) (m : RespMint)
      → compute_issuance_and_reward d weigh g req ≡ ok m
      → IsSummed m
  unfolding compute_issuance_and_reward
  compute-IsSummed weigh g req m e =
      let (w, e1, f1) = chain_succeeds (weigh req) _ m e in
      let (s, fit) =
        share_rewards_lem _ w.beneficiaries (d.of_int 0) 0 m (omega arith) (shared _ _ m e1) in
      record { sum_is = s ∙ ap (λ n. n % 2 ^ 256) (zero_add (sum_of m.rewards)); are_fit = fit }
    where
      shared :
          (wrong : Bool) (r : Result RespMint) (m : RespMint)
          → (fail_if wrong ordinary >> r) ≡ ok m
          → r ≡ ok m
      shared true r m e = cc
      shared false r m e = e
