-- ===== src/Account/Rewarding.antt =====
-- ctrlers/account/ctrler.go: Reward, which pays into an account that exists.
use beatoz_go.Base.{ℕ, ◌≡◌, refl, ◌∙◌, Bool, false, some, ok}
use beatoz_go.Base.Words.{neg256}
use beatoz_go.Base.Bytes.{Bytes}
use beatoz_go.Ledger.Map.{Store, IsMap}
use beatoz_go.Types.Account.{Account}
use beatoz_go.Account.{reward, add_balance, change, account_keyed}
use beatoz_go.Account.Lookup.{find_account_lem}
use beatoz_go.Account.Books.{account_at, IsBook}
use beatoz_go.Account.EndBlock.{Credits, add_balance_lem}

module _ (s : Store Account) (M : IsMap s) where
  reward-add_balance :
      (addr : Bytes) (amt : ℕ) (x : Bool) (st : s.State) (a : Account)
      → M.IsValid st
      → account_at s M st x addr ≡ some a
      → reward s addr amt x st ≡ add_balance s addr amt x st
  unfolding reward add_balance change
  reward-add_balance addr amt x st a v there =
      let (st0, e0, v0, w0) = find_account_lem s M addr x st v in rw (e0, there) refl

  -- Reward of an amount below 2 ^ 255 to an account that exists.
  pub reward_lem :
      (addr : Bytes) (amt : ℕ) (x : Bool) (st : s.State) (a : Account)
      → IsBook s M st
      → neg256 amt ≡ false
      → account_at s M st x addr ≡ some a
      → (st' : s.State) × (reward s addr amt x st ≡ (ok tt, st'))
        × IsBook s M st'
        × Credits s M x addr amt st st'
  reward_lem addr amt x st a b small there =
      let (st', e, b', w) = add_balance_lem s M addr amt x st b small in
      (st', reward-add_balance addr amt x st a b.valid there ∙ e, b', w)
