-- ===== src/Vpower/Freezing/Tests.antt =====
-- Frozen power in memory, and its refund.
use beatoz_go.Base.{
  ℕ, ◌+◌, ◌*◌, ◌<◌, ◌^◌, ◌≡◌, refl, Bool, true, false, [], ◌∷◌, ok, if◌then◌else◌, arith,
}
use beatoz_go.Base.Bytes.{Bytes, bytes_eq, has_prefix}
use beatoz_go.Ledger.Keys.{ledger_key_account, ledger_key_frozen_vpower, put_uint64}
use beatoz_go.Ledger.Map.{Store, IsMap}
use beatoz_go.Ledger.Map.Pair.{Pair}
use beatoz_go.Ledger.Map.Seek.{entry, entry_each}
use beatoz_go.Ledger.Map.Listing.{
  Lists, list_store, list_seeker, list_store-IsMap, list_store-IsListed, under,
}
use beatoz_go.Types.Unit.{power_to_amount}
use beatoz_go.Types.Account.{Account}
use beatoz_go.Account.Sample.{
  accounts_store, accounts_map, account_of, accounts_of, accounts_of-IsBook, owner_account,
  few_balance,
}
use beatoz_go.Account.Books.{IsBook}
use beatoz_go.Vpower.Chunks.{VpowerItem, frozen_item, FrozenVPower, vpower_keyed}
use beatoz_go.Vpower.Freezing.{unfreeze_power_chunk}
use beatoz_go.Vpower.Freezing.Refund.{IsFrozenEntry, HasOwner, HasRoom, Pays}
use beatoz_go.Vpower.Freezing.Refund.Release.{IsReleased, entries_at, unfreeze_power_chunk_exact}
use beatoz_go.Account.{account_keyed}

abbrev alice : Bytes
alice =
    1 ∷ 2 ∷ 3 ∷ 4 ∷ 5 ∷ 6 ∷ 7 ∷ 8 ∷ 9 ∷ 10 ∷ 11 ∷ 12 ∷ 13 ∷ 14 ∷ 15 ∷ 16 ∷ 17 ∷ 18 ∷ 19 ∷ 20 ∷ []

-- Five units of power of Alice's are frozen until height 7, on both sides.
abbrev frozen : FrozenVPower
frozen = record { refund_power = 5; power_chunks = [] }

abbrev key : Bytes
key = ledger_key_frozen_vpower 7 alice

abbrev lists : Lists VpowerItem
lists x = (key, frozen_item frozen) ∷ []

abbrev store : Store VpowerItem
store = list_store VpowerItem

abbrev is_map : IsMap store
is_map = list_store-IsMap VpowerItem

lists-IsValid : is_map.IsValid lists
unfolding entry has_prefix
lists-IsValid x = (refl, refl, tt)

is_frozen : IsFrozenEntry 7 key (frozen_item frozen)
unfolding power_to_amount
is_frozen = (alice, frozen, refl, refl, refl, refl)

has_owner :
    HasOwner store
      (list_seeker VpowerItem)
      accounts_store
      accounts_map
      (accounts_of alice)
      key
      (frozen_item frozen)
unfolding ledger_key_frozen_vpower put_uint64 ledger_key_account bytes_eq
has_owner = (account_of alice, owner_account alice true)

few : (p : Bool) (old : ℕ) → old < 101 → old + ((if p then 5 * 10 ^ 18 else 0) + 0) < 2 ^ 256
few true old h = omega arith
few false old h = omega arith

has_room :
    HasRoom store
      (list_seeker VpowerItem)
      accounts_store
      accounts_map
      (entries_at store
        (list_seeker VpowerItem)
        is_map
        (list_store-IsListed VpowerItem)
        accounts_store
        accounts_map
        7
        lists)
      (accounts_of alice)
unfolding under has_prefix ledger_key_frozen_vpower put_uint64 power_to_amount
has_room b = few (bytes_eq alice b) _ (few_balance alice b true)

unfreeze_power_chunk_exact_example :
    (st' : Lists VpowerItem) × (acct' : Pair Account) × (unfreeze_power_chunk store
        (list_seeker VpowerItem)
        accounts_store
        7
        (lists, accounts_of alice)
      ≡ (ok tt, (st', acct')))
    × IsReleased store
        (list_seeker VpowerItem)
        is_map
        (list_store-IsListed VpowerItem)
        accounts_store
        accounts_map
        7
        lists
        st'
    × IsBook accounts_store accounts_map acct'
    × Pays store
        (list_seeker VpowerItem)
        accounts_store
        accounts_map
        (entries_at store
          (list_seeker VpowerItem)
          is_map
          (list_store-IsListed VpowerItem)
          accounts_store
          accounts_map
          7
          lists)
        (accounts_of alice)
        acct'
unfreeze_power_chunk_exact_example =
    unfreeze_power_chunk_exact store (list_seeker VpowerItem) is_map
      (list_store-IsListed VpowerItem) accounts_store accounts_map 7 lists (accounts_of alice)
      lists-IsValid (accounts_of-IsBook alice)
      (λ j i p e. entry_each (IsFrozenEntry 7) (lists true) j i (is_frozen, tt) e)
      (λ j i p e.
        entry_each
          (HasOwner store (list_seeker VpowerItem) accounts_store accounts_map (accounts_of alice))
          (lists true) j i (has_owner, tt) e)
      has_room
