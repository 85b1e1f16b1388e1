-- ===== src/Supply/Ctrler/Withdrawal/Settled.antt =====
-- ctrlers/supply/{ctrler,ctrler_reward}.go: a withdrawal that ValidateTrx accepts, executed.
use beatoz_go.Base.{
  ℕ, ◌+◌, ◌<◌, ◌^◌, ◌≡◌, refl, sym, ap, ◌∙◌, subst, Bool, true, false, ◌&&◌, Option, some, ok, ◌==◌,
  ltb, if◌then◌else◌, arith,
}
use beatoz_go.Base.Words.{neg256}
use beatoz_go.Base.Bytes.{Bytes, bytes_eq, bytes_eq_refl}
use beatoz_go.Ledger.Keys.{ledger_key_reward}
use beatoz_go.Ledger.Map.{Store, IsMap, same_side}
use beatoz_go.Types.Account.{Account}
use beatoz_go.Types.Trx
use beatoz_go.Types.Trx.{Trx, Payload, trx_withdraw}
use beatoz_go.Account.Books.{account_at, balance_at, IsBook}
use beatoz_go.Account.{reward, or_new, account_keyed}
use beatoz_go.Account.EndBlock.{Credits}
use beatoz_go.Account.Rewarding.{reward_lem}
use beatoz_go.Supply.Reward
use beatoz_go.Supply.Reward.{Reward}
use beatoz_go.Supply.Ctrler.{
  SupplyItem, reward_item, SupplyCtrler, validate_trx, put_reward, withdraw_reward, execute_trx,
  supply_keyed,
}
use beatoz_go.Supply.Ctrler.Distribution.{
  IsEntry, AreRewards, Writes, cumulated_at, reward_entry, reward_in, Writes-AreRewards,
  entry_after, same_side_refl,
}
use beatoz_go.Supply.Ctrler.Withdrawal.{
  withdraw_lem, left_entry, put_reward_lem, left_at, held, left-IsEntry, validate_lem,
}

module _ (s : Store SupplyItem) (M : IsMap s) (a : Store Account) (N : IsMap a) where
  -- What a withdrawal of an amount leaves of both ledgers.
  pub record IsWithdrawn (h : ℕ) (x : Bool) (addr : Bytes) (amt : ℕ) (c c2 : SupplyCtrler s)
      (st st2 : a.State) : Type 0 where
    pub valid : M.IsValid c2.supply_state
    pub are_rewards : AreRewards s M h x c2.supply_state
    pub book : IsBook a N st2
    pub reward_less :
        cumulated_at s M c2.supply_state x addr + amt ≡ cumulated_at s M c.supply_state x addr
    pub balance_more : balance_at a N st2 x addr ≡ balance_at a N st x addr + amt
    pub other_rewards :
        (b : Bytes)
        → bytes_eq addr b ≡ false
        → reward_entry s M c2.supply_state x b ≡ reward_entry s M c.supply_state x b
    pub other_accounts :
        (b : Bytes) → bytes_eq addr b ≡ false → account_at a N st2 x b ≡ account_at a N st x b
    pub other_side :
        (y : Bool)
        → same_side x y ≡ false
        → ((j : Bytes) → M.view c2.supply_state y j ≡ M.view c.supply_state y j)
          × ((b : Bytes) → account_at a N st2 y b ≡ account_at a N st y b)
    pub same_total : c2.last_total_supply ≡ c.last_total_supply

  withdraw_run :
      (rwd rwd1 : Reward) (amt h : ℕ) (x : Bool) (addr : Bytes) (c : SupplyCtrler s) (st : a.State)
      (stp : s.State) (st2 : a.State)
      → Reward.withdraw amt h rwd ≡ ok rwd1
      → put_reward s rwd1 x c.supply_state ≡ (ok tt, stp)
      → rwd1.address ≡ addr
      → reward a addr amt x st ≡ (ok tt, st2)
      → withdraw_reward s a rwd amt h x (c, st)
        ≡ (ok tt, (record { supply_state = stp; last_total_supply = c.last_total_supply }, st2))
  unfolding withdraw_reward
  withdraw_run rwd rwd1 amt h x addr c st stp st2 e1 e2 ad e3 = rw (e1, e2, ad, e3) refl

  paid :
      (addr : Bytes) (amt : ℕ) (x : Bool) (st st2 : a.State)
      → Credits a N x addr amt st st2
      → balance_at a N st x addr + amt < 2 ^ 256
      → balance_at a N st2 x addr ≡ balance_at a N st x addr + amt
  paid addr amt x st st2 w room =
      ap (λ o. (or_new addr o).balance) (w x addr)
      ∙ rw (same_side_refl x, bytes_eq_refl addr) (omega arith)

  unpaid :
      (x q : Bool) (o p : Option Account) → q ≡ false → (if same_side x x && q then o else p) ≡ p
  unpaid true q o p e = rw e refl
  unpaid false q o p e = rw e refl

  withdraw_reward_lem :
      (rwd : Reward) (amt h : ℕ) (x : Bool) (addr : Bytes) (c : SupplyCtrler s) (st : a.State)
      (acct : Account)
      → h < 2 ^ 63
      → M.IsValid c.supply_state
      → AreRewards s M h x c.supply_state
      → IsBook a N st
      → reward_entry s M c.supply_state x addr ≡ some (reward_item rwd)
      → ltb rwd.cumulated amt ≡ false
      → neg256 amt ≡ false
      → account_at a N st x addr ≡ some acct
      → balance_at a N st x addr + amt < 2 ^ 256
      → (c2 : SupplyCtrler s) × (st2 : a.State) × (withdraw_reward s a rwd amt h x (c, st)
          ≡ (ok tt, (c2, st2)))
        × IsWithdrawn h x addr amt c c2 st st2
  withdraw_reward_lem rwd amt h x addr c st acct hh v rs bk there enough small has room =
      let (adr, wide, late, fits) = subst (IsEntry h addr) there (rs addr) in
      let (rwd1, e1, a1, h1, c1) = withdraw_lem amt h rwd (omega arith) wide late fits enough in
      let (stp, e2, v2, w2) = put_reward_lem s M rwd1 x c.supply_state v in
      let (st2, e3, b3, w3) = reward_lem a N addr amt x st acct bk small has in
      let w : Writes s M x (ledger_key_reward addr) (left_entry rwd1) c.supply_state stp =
        subst (λ k. Writes s M x (ledger_key_reward k) (left_entry rwd1) c.supply_state stp)
          (a1 ∙ adr) w2 in
      let entry : IsEntry h addr (some (reward_item rwd1)) =
        (a1 ∙ adr, omega (arith, h1), rw h1 (ground arith), omega (arith, c1, fits)) in
      let less : cumulated_at s M stp x addr + amt ≡ cumulated_at s M c.supply_state x addr =
        ap (λ n. n + amt) (left_at s M x addr rwd1 c.supply_state stp w)
        ∙ c1
        ∙ sym (held s M addr rwd there) in
      (
        record { supply_state = stp; last_total_supply = c.last_total_supply },
        st2,
        withdraw_run rwd rwd1 amt h x addr c st stp st2 e1 e2 (a1 ∙ adr) e3,
        record {
          valid = v2;
          are_rewards =
              Writes-AreRewards s M h x addr (left_entry rwd1) c.supply_state stp rs
                (left-IsEntry s M h addr rwd1 entry) w;
          book = b3;
          reward_less = less;
          balance_more = paid addr amt x st st2 w3 room;
          other_rewards = λ b out.
              entry_after s M x addr (left_entry rwd1) c.supply_state stp w b ∙ rw out refl;
          other_accounts = λ b out. w3 x b ∙ unpaid x (bytes_eq addr b) _ _ out;
          other_side = λ y out. (λ j. w y j ∙ rw out refl, λ b. w3 y b ∙ rw out refl);
          same_total = refl;
        },
      )

  -- The same, from a state with the same entries.
  IsWithdrawn-from :
      (h : ℕ) (x : Bool) (addr : Bytes) (amt : ℕ) (c c1 c2 : SupplyCtrler s) (st st2 : a.State)
      → ((y : Bool) (j : Bytes) → M.view c1.supply_state y j ≡ M.view c.supply_state y j)
      → c1.last_total_supply ≡ c.last_total_supply
      → IsWithdrawn h x addr amt c1 c2 st st2
      → IsWithdrawn h x addr amt c c2 st st2
  IsWithdrawn-from h x addr amt c c1 c2 st st2 same total w = record {
    valid = w.valid;
    are_rewards = w.are_rewards;
    book = w.book;
    reward_less =
        w.reward_less ∙ ap (λ o. (reward_in addr o).cumulated) (same x (ledger_key_reward addr));
    balance_more = w.balance_more;
    other_rewards = λ b out. w.other_rewards b out ∙ same x (ledger_key_reward b);
    other_accounts = w.other_accounts;
    other_side = λ y out. let (rs, accts) = w.other_side y out in (λ j. rs j ∙ same y j, accts);
    same_total = w.same_total ∙ total;
  }

  execute_run :
      (rwd : Reward) (h amt : ℕ) (x : Bool) (tx : Trx) (c : SupplyCtrler s × a.State)
      → (tx.type == trx_withdraw) ≡ true
      → tx.payload ≡ some (Trx.withdraw amt)
      → execute_trx s a rwd h x tx c ≡ withdraw_reward s a rwd amt h x c
  unfolding execute_trx
  execute_run rwd h amt x tx c t p = rw (t, p) refl

  -- A withdrawal that ValidateTrx accepts, of a sender with an account, at a height that no reward
  -- is past, and of an amount below 2 ^ 255 that the account's balance can take: ExecuteTrx, with
  -- the reward that ValidateTrx found, succeeds. The sender's reward is less by the amount and its
  -- balance more by it, so that their sum is the same. The rewards and accounts of others, the other
  -- side, and the total supply are as they were.
  pub execute_trx-validate_trx :
      (x : Bool) (tx : Trx) (rwd : Reward) (h : ℕ) (c : SupplyCtrler s) (st : a.State)
      (acct : Account)
      → h < 2 ^ 63
      → M.IsValid c.supply_state
      → AreRewards s M h x c.supply_state
      → IsBook a N st
      → (validate_trx s x tx c).0 ≡ ok rwd
      → account_at a N st x tx.from ≡ some acct
      → ((amt : ℕ)
          → tx.payload ≡ some (Trx.withdraw amt)
          → (neg256 amt ≡ false) × (balance_at a N st x tx.from + amt < 2 ^ 256))
      → (amt : ℕ) × (c2 : SupplyCtrler s) × (st2 : a.State) × (tx.payload ≡ some (Trx.withdraw amt))
        × (execute_trx s a rwd h x tx ((validate_trx s x tx c).1, st) ≡ (ok tt, (c2, st2)))
        × IsWithdrawn h x tx.from amt c c2 st st2
  execute_trx-validate_trx x tx rwd h c st acct hh v rs bk done has fits =
      let c1 : SupplyCtrler s = (validate_trx s x tx c).1 in
      let f = validate_lem s M x tx rwd c v done in
      let (small, room) = fits f.amt f.payload_is in
      let (c2, st2, e, w) =
        withdraw_reward_lem rwd f.amt h x tx.from c1 st acct hh f.valid
          (λ b. subst (IsEntry h b) (sym (f.same x (ledger_key_reward b))) (rs b)) bk
          (f.same x (ledger_key_reward tx.from) ∙ f.entry_is) f.enough small has room in
      (
        f.amt,
        c2,
        st2,
        f.payload_is,
        execute_run rwd h f.amt x tx (c1, st) f.type_is f.payload_is ∙ e,
        IsWithdrawn-from h x tx.from f.amt c c1 c2 st st2 f.same f.total_same w,
      )
