-- ===== src/Ledger/Memory.antt =====
-- A tree and items in memory, which meet what ledger/v1 takes from outside.
use beatoz_go.Base.{ℕ, ◌+◌, ◌≡◌, refl, false, none, some, [], ok}
use beatoz_go.Base.Bytes.{Bytes}
use beatoz_go.Ledger.Iavl.{Iavl, Items, IsHealthy, IsDecodable, View, is_some}
use beatoz_go.Ledger.View.{update}
use beatoz_go.Ledger.Map.{Keyed}
use beatoz_go.Ledger.Map.Implementation.{IsFaithful}

abbrev pub memory_db : Iavl
memory_db = record {
  Tree = View × ℕ;
  Immutable = View;
  nil_tree = λ k. none;
  is_nil = λ t. false;
  get = λ t k. ok (t.0 k);
  set = λ t k v. ok (update t.0 k (some v), t.1);
  remove = λ t k. ok (t.0 k, is_some (t.0 k), (update t.0 k none, t.1));
  save_version = λ t. ok ([], t.1 + 1, (t.0, t.1 + 1));
  version = λ t. t.1;
  get_immutable = λ t n. ok t.0;
  get_at = λ t k. ok (t k);
  iterator = λ t p a. ok [];
  iterator_at = λ t p a. ok [];
}

abbrev pub memory_items : Items
memory_items = record { Item = Bytes; encode = λ i. ok i; decode = λ k v. ok v }

-- Items that an owner has, who is not encoded but is the key, as for voting powers.
abbrev pub owned_items : Items
owned_items = record { Item = Bytes × Bytes; encode = λ i. ok i.1; decode = λ k v. ok (k, v) }

-- An item belongs under the key that is its owner, where it is decoded to.
instance abbrev pub owned_keyed : Keyed (Bytes × Bytes)
owned_keyed = record { fits = λ k i. i.0 ≡ k }

owned_at :
    (k : Bytes) (i : Bytes × Bytes) (b : Bytes)
    → i.0 ≡ k
    → owned_items.encode i ≡ ok b
    → owned_items.decode k b ≡ ok i
owned_at k (o, v) b f e = cc (f, e)

pub owned_items-IsFaithful : IsFaithful owned_items
owned_items-IsFaithful = record { encodes = λ i. (i.1, refl); decode_encode = owned_at }

abbrev pub memory_db-IsHealthy : IsHealthy memory_db
memory_db-IsHealthy = record {
  view = λ t. t.0;
  view_at = λ t. t;
  get_view = λ t k. refl;
  get_at_view = λ t k e. refl;
  set_view = λ t k v. ((update t.0 k (some v), t.1), refl, λ j. refl);
  remove_view = λ t k. ((update t.0 k none, t.1), refl, λ j. refl);
  save_view = λ t. ([], t.1 + 1, (t.0, t.1 + 1), t.0, refl, refl, refl, λ j. refl, λ j. refl);
}

pub memory_items-IsDecodable : IsDecodable memory_items
memory_items-IsDecodable = record { decode_encode = λ k i b e. (b, refl) }
