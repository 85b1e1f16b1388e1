-- ===== src/Vpower/Freezing/Refund.antt =====
-- ctrlers/vpower/ctrler_vpower.go: what unfreezePowerChunk pays.
pub mod Release
use beatoz_go.Base.{
  ℕ, ◌+◌, ◌<◌, ◌^◌, ◌≡◌, refl, sym, ap, ◌∙◌, true, false, ◌&&◌, none, some, List, [], ◌∷◌, ◌++◌, ok,
  length, take, drop, take-append, Bool-cases, inl, inr, if◌then◌else◌, arith,
}
use mathlib.Core.List.{append_assoc, append-nil}
use beatoz_go.Base.Words.{pays_in, neg256, add256}
use beatoz_go.Base.Bytes.{Bytes, bytes_eq, bytes_eq_sound, has_prefix}
use beatoz_go.Ledger.Keys.{ledger_key_frozen_vpower, put_uint64}
use beatoz_go.Ledger.Map.{Store, IsMap}
use beatoz_go.Ledger.Map.Removal.{listed, NotEmpty, del_all, del_all_lem}
use beatoz_go.Ledger.Map.Seek.{Seeker, IsListed, visit, entry, AreUnder, EachEntry, each_entry}
use beatoz_go.Types.Account.{Account}
use beatoz_go.Types.Unit.{power_to_amount}
use beatoz_go.Account.{reward, or_new, account_keyed}
use beatoz_go.Account.Books.{account_at, balance_at, IsBook}
use beatoz_go.Account.Lookup.{credit}
use beatoz_go.Account.EndBlock.{Credits}
use beatoz_go.Account.Rewarding.{reward_lem}
use beatoz_go.Vpower.Chunks.{FrozenVPower, VpowerItem, frozen_item, vpower_keyed}
use beatoz_go.Vpower.Freezing.{address_of, unfreeze_one, unfreeze_power_chunk}

abbrev pub from_of : Bytes → Bytes
from_of key = take 20 (drop 9 key)

take_all : (xs : Bytes) → take (length xs) xs ≡ xs
take_all xs = ap (take (length xs)) (sym (append-nil xs)) ∙ take-append xs []

address_of_lem :
    (h : ℕ) (from : Bytes)
    → length from ≡ 20
    → (address_of (ledger_key_frozen_vpower h from) ≡ ok from)
      × (from_of (ledger_key_frozen_vpower h from) ≡ from)
unfolding ledger_key_frozen_vpower put_uint64 address_of
address_of_lem h from e = (rw e (ap ok whole), whole)
  where
    whole : take 20 from ≡ from
    whole = ap (λ n. take n from) (sym e) ∙ take_all from

-- What an item refunds.
abbrev pub refund_of : VpowerItem → ℕ
refund_of (frozen_item f) = power_to_amount f.refund_power
refund_of _ = 0

-- What an address gets of a list of entries.
abbrev pub due : Bytes → List (Bytes × VpowerItem) → ℕ
due b [] = 0
due b (e ∷ es) = (if bytes_eq (from_of e.0) b then refund_of e.1 else 0) + due b es

abbrev pub keys_of : List (Bytes × VpowerItem) → List Bytes
keys_of [] = []
keys_of (e ∷ es) = e.0 ∷ keys_of es

-- An entry of a height: frozen power of an address of 20 bytes, worth less than 2 ^ 255.
abbrev pub IsFrozenEntry : ℕ → Bytes → VpowerItem → Type 0
IsFrozenEntry h key item =
    (from : Bytes) × (f : FrozenVPower) × (key ≡ ledger_key_frozen_vpower h from)
    × (length from ≡ 20)
    × (item ≡ frozen_item f)
    × (neg256 (refund_of item) ≡ false)

module _ (s : Store VpowerItem) (k : Seeker s) (a : Store Account) (N : IsMap a) where
  -- The owner of an entry has an account on the side for execution.
  abbrev pub HasOwner : a.State → Bytes → VpowerItem → Type 0
  HasOwner acct key item = (x : Account) × (account_at a N acct true (from_of key) ≡ some x)

  unfreeze_run :
      (key : Bytes) (item : VpowerItem) (removed : List Bytes) (acct acct' : a.State)
      (f : FrozenVPower) (from : Bytes)
      → item ≡ frozen_item f
      → address_of key ≡ ok from
      → reward a from (power_to_amount f.refund_power) true acct ≡ (ok tt, acct')
      → unfreeze_one s k a key item (removed, acct) ≡ (ok tt, (removed ++ (key ∷ []), acct'))
  unfolding unfreeze_one
  unfreeze_run key item removed acct acct' f from is found e = rw (is, found, e) refl

  paid :
      (key : Bytes) (item : VpowerItem) (acct acct' : a.State) (f : FrozenVPower)
      → item ≡ frozen_item f
      → reward a (from_of key) (refund_of item) true acct ≡ (ok tt, acct')
      → reward a (from_of key) (power_to_amount f.refund_power) true acct ≡ (ok tt, acct')
  paid key item acct acct' f is e =
      ap (λ i. reward a (from_of key) (refund_of i) true acct) (sym is) ∙ e

  unfreeze_one_lem :
      (h : ℕ) (key : Bytes) (item : VpowerItem) (removed : List Bytes) (acct : a.State)
      → IsFrozenEntry h key item
      → IsBook a N acct
      → HasOwner acct key item
      → (acct' : a.State) × (unfreeze_one s k a key item (removed, acct)
          ≡ (ok tt, (removed ++ (key ∷ []), acct')))
        × IsBook a N acct'
        × Credits a N true (from_of key) (refund_of item) acct acct'
  unfreeze_one_lem h key item removed acct (from, f, at, len, is, small) book (x, has) =
      let (found, whole) = address_of_lem h from len in
      let owner : from_of key ≡ from = ap from_of at ∙ whole in
      let (acct', e, book', w) =
        reward_lem a N (from_of key) (refund_of item) true acct x book small has in
      (
        acct',
        unfreeze_run key item removed acct acct' f (from_of key) is
            (ap address_of at ∙ found ∙ ap ok (sym owner)) (paid key item acct acct' f is e),
        book',
        w,
      )

  -- The last account that an entry's refund leaves is there, as are those before.
  owner_stays :
      (addr key : Bytes) (amt : ℕ) (item : VpowerItem) (acct acct' : a.State)
      → Credits a N true addr amt acct acct'
      → HasOwner acct key item
      → HasOwner acct' key item
  owner_stays addr key amt item acct acct' w (x, has) =
      elim (Bool-cases (bytes_eq addr (from_of key))) [
        | inl same ↦ (
          credit amt (or_new addr (account_at a N acct true addr)),
          w true (from_of key) ∙ rw same refl,
        )
        | inr other ↦ (x, w true (from_of key) ∙ rw other has)
      ]

  owners_stay :
      (addr : Bytes) (amt : ℕ) (es : List (Bytes × VpowerItem)) (acct acct' : a.State)
      → Credits a N true addr amt acct acct'
      → EachEntry (HasOwner acct) es
      → EachEntry (HasOwner acct') es
  owners_stay addr amt [] acct acct' w h = tt
  owners_stay addr amt (e ∷ es) acct acct' w (h, hs) =
      (owner_stays addr e.0 amt e.1 acct acct' w h, owners_stay addr amt es acct acct' w hs)

  -- The balances after the refunds of a list of entries.
  abbrev pub Pays : List (Bytes × VpowerItem) → a.State → a.State → Type 0
  Pays es acct acct' =
      ((b : Bytes) → balance_at a N acct' true b ≡ balance_at a N acct true b + due b es)
      × ((b : Bytes) → account_at a N acct' false b ≡ account_at a N acct false b)

  abbrev pub HasRoom : List (Bytes × VpowerItem) → a.State → Type 0
  HasRoom es acct = (b : Bytes) → balance_at a N acct true b + due b es < 2 ^ 256

  credited :
      (addr b : Bytes) (amt later : ℕ) (acct acct' : a.State)
      → Credits a N true addr amt acct acct'
      → balance_at a N acct true b + ((if bytes_eq addr b then amt else 0) + later) < 2 ^ 256
      → (balance_at a N acct' true b + later
          ≡ balance_at a N acct true b + ((if bytes_eq addr b then amt else 0) + later))
        × (balance_at a N acct' true b + later < 2 ^ 256)
  credited addr b amt later acct acct' w room =
      pays_in (bytes_eq addr b) (balance_at a N acct true b) amt later (balance_at a N acct' true b)
        room (ap (λ o. (or_new b o).balance) (w true b) ∙ now)
    where
      now :
          (or_new b (
            if true && bytes_eq addr b
            then some (credit amt (or_new addr (account_at a N acct true addr)))
            else account_at a N acct true b)).balance
          ≡ (if bytes_eq addr b
              then add256 (balance_at a N acct true b) amt
              else balance_at a N acct true b)
      now = elim (Bool-cases (bytes_eq addr b)) [
        | inl same ↦
            rw same (ap (λ x. add256 (balance_at a N acct true x) amt) (bytes_eq_sound addr b same))
        | inr other ↦ rw other refl
      ]

  pub visit-unfreeze_one :
      (h : ℕ) (es : List (Bytes × VpowerItem)) (removed : List Bytes) (acct : a.State)
      → EachEntry (IsFrozenEntry h) es
      → IsBook a N acct
      → EachEntry (HasOwner acct) es
      → HasRoom es acct
      → (acct' : a.State) × (visit (unfreeze_one s k a) es (removed, acct)
          ≡ (ok tt, (removed ++ keys_of es, acct')))
        × IsBook a N acct'
        × Pays es acct acct'
  unfolding visit
  visit-unfreeze_one h [] removed acct fz book own room =
      (acct, rw (append-nil removed) refl, book, (λ b. omega arith, λ b. refl))
  visit-unfreeze_one h (e ∷ es) removed acct (fz, fzs) book (own, owns) room =
      let (acct1, e1, book1, w1) = unfreeze_one_lem h e.0 e.1 removed acct fz book own in
      let (acct2, e2, book2, (p2, q2)) =
        visit-unfreeze_one h es (removed ++ (e.0 ∷ [])) acct1 fzs book1
          (owners_stay (from_of e.0) (refund_of e.1) es acct acct1 w1 owns)
          (λ b. (credited (from_of e.0) b (refund_of e.1) (due b es) acct acct1 w1 (room b)).1) in
      (
        acct2,
        rw (e1, e2, append_assoc removed (e.0 ∷ []) (keys_of es)) refl,
        book2,
        (
          λ b.
              p2 b ∙ (credited (from_of e.0) b (refund_of e.1) (due b es) acct acct1 w1 (room b)).0,
          λ b. q2 b ∙ w1 false b,
        ),
      )
