-- ===== src/Ledger/Iavl.antt =====
-- What ledger/v1 takes from outside: the IAVL tree of github.com/cosmos/iavl, and the items that
-- the controllers store (ILedgerItem and FuncNewItemFor of ledger/v1/types.go).
use beatoz_go.Base.{ℕ, ◌≡◌, Bool, true, false, Option, none, some, List, Result, ok, if◌then◌else◌}
use beatoz_go.Base.Bytes.{Bytes, bytes_eq}

-- A nil slice is `none`. `Immutable` is a pointer to an ImmutableTree, nil included.
pub record Iavl : Type 1 where
  pub Tree : Type 0
  pub Immutable : Type 0
  pub nil_tree : Immutable
  pub is_nil : Immutable → Bool
  pub get : Tree → Bytes → Result (Option Bytes)
  pub set : Tree → Bytes → Bytes → Result Tree
  pub remove : Tree → Bytes → Result (Option Bytes × Bool × Tree)
  pub save_version : Tree → Result (Bytes × ℕ × Tree)
  pub version : Tree → ℕ
  pub get_immutable : Tree → ℕ → Result Immutable
  pub get_at : Immutable → Bytes → Result (Option Bytes)
  pub iterator : Tree → Bytes → Bool → Result (List (Bytes × Bytes))
  pub iterator_at : Immutable → Bytes → Bool → Result (List (Bytes × Bytes))

-- `decode k v` is `item := newItemFor(k); item.Decode(k, v)`.
pub record Items : Type 1 where
  pub Item : Type 0
  pub encode : Item → Result Bytes
  pub decode : Bytes → Bytes → Result Item

-- The contents of a tree: what each key holds.
abbrev pub View : Type 0
View = Bytes → Option Bytes

abbrev pub is_some {ℓ} : {A : Type ℓ} → Option A → Bool
is_some none = false
is_some (some a) = true

-- A working tree that its database serves without an error: it maps keys to values, a write
-- replaces one value, a removal reports what it removed, and a saved version reads as it was saved. (A
-- read of a nil tree panics in Go: nothing is said of it.)
pub record IsHealthy (db : Iavl) : Type 0 where
  pub view : db.Tree → View
  pub view_at : db.Immutable → View
  pub get_view : (t : db.Tree) (k : Bytes) → db.get t k ≡ ok (view t k)
  pub get_at_view :
      (t : db.Immutable) (k : Bytes) → db.is_nil t ≡ false → db.get_at t k ≡ ok (view_at t k)
  pub set_view :
      (t : db.Tree) (k v : Bytes)
      → (t' : db.Tree) × (db.set t k v ≡ ok t')
        × ((j : Bytes) → view t' j ≡ (if bytes_eq k j then some v else view t j))
  pub remove_view :
      (t : db.Tree) (k : Bytes)
      → (t' : db.Tree) × (db.remove t k ≡ ok (view t k, is_some (view t k), t'))
        × ((j : Bytes) → view t' j ≡ (if bytes_eq k j then none else view t j))
  pub save_view :
      (t : db.Tree)
      → (h : Bytes) × (n : ℕ) × (t' : db.Tree) × (im : db.Immutable) × (db.save_version t
          ≡ ok (h, n, t'))
        × (db.get_immutable t' n ≡ ok im)
        × (db.is_nil im ≡ false)
        × ((j : Bytes) → view t' j ≡ view t j)
        × ((j : Bytes) → view_at im j ≡ view t j)

-- What an item is encoded to can be decoded again.
pub record IsDecodable (it : Items) : Type 0 where
  pub decode_encode :
      (k : Bytes) (i : it.Item) (b : Bytes)
      → it.encode i ≡ ok b
      → (i' : it.Item) × (it.decode k b ≡ ok i')
