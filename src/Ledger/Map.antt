-- ===== src/Ledger/Map.antt =====
-- The state ledger as its clients, the controllers, use it: two maps from keys to items, one for
-- execution and one for checking. A client takes a `Store` and the laws `IsMap`.
pub mod Implementation
pub mod Pair
pub mod Seek
pub mod Listing
pub mod Walk
pub mod Removal
use beatoz_go.Base.{
  ◌≡◌, ◌≢◌, Bool, true, false, ◌&&◌, Option, none, some, [], Result, ok, err, Status,
  not_found_result, if◌then◌else◌,
}
use beatoz_go.Base.Bytes.{Bytes, bytes_eq}

-- IStateLedger of ledger/v1/types.go, in the methods that the controllers call on single keys.
pub record Store (Item : Type 0) : Type 1 where
  pub State : Type 0
  pub get : Bytes → Bool → State → Result Item × State
  pub set : Bytes → Item → Bool → State → Status × State
  pub del : Bytes → Bool → State → Status × State

abbrev pub same_side : Bool → Bool → Bool
same_side true x = x
same_side false true = false
same_side false false = true

-- What Get returns for an entry that is there, or not.
abbrev pub found_or_missing {ℓ} : {A : Type ℓ} → Option A → Result A
found_or_missing none = err not_found_result
found_or_missing (some a) = ok a

-- Which items a ledger holds under which keys: its decoder is given the key, and gives back the items
-- that belong there.
pub record Keyed (Item : Type 0) : Type 1 where
  pub fits : Bytes → Item → Type 0

-- A valid state is a pair of maps: Get reads one of them and changes neither, Set and Del change one
-- entry of one of them, Set to an item that belongs under the key.
pub record IsMap {Item : Type 0} ⦃K : Keyed Item⦄ (s : Store Item) : Type 1 where
  pub IsValid : s.State → Type 0
  pub view : s.State → Bool → Bytes → Option Item
  pub get_view :
      (k : Bytes) (x : Bool) (st : s.State)
      → k ≢ []
      → IsValid st
      → ((s.get k x st).0 ≡ found_or_missing (view st x k))
        × IsValid (s.get k x st).1
        × ((y : Bool) (j : Bytes) → view (s.get k x st).1 y j ≡ view st y j)
  pub set_view :
      (k : Bytes) (i : Item) (x : Bool) (st : s.State)
      → k ≢ []
      → K.fits k i
      → IsValid st
      → ((s.set k i x st).0 ≡ ok tt)
        × IsValid (s.set k i x st).1
        × ((y : Bool) (j : Bytes)
            → view (s.set k i x st).1 y j
              ≡ (if same_side x y && bytes_eq k j then some i else view st y j))
  pub del_view :
      (k : Bytes) (x : Bool) (st : s.State)
      → k ≢ []
      → IsValid st
      → ((s.del k x st).0 ≡ ok tt)
        × IsValid (s.del k x st).1
        × ((y : Bool) (j : Bytes)
            → view (s.del k x st).1 y j
              ≡ (if same_side x y && bytes_eq k j then none else view st y j))
