-- ===== src/Ledger/Sorted.antt =====
-- A tree in memory that is a list in ascending order of the keys, which meets what ledger/v1 takes of
-- the tree and of its iterator.
use beatoz_go.Base.{
  ℕ, ◌+◌, ◌≡◌, refl, ap, ◌∙◌, subst, true, false, none, some, List, [], ◌∷◌, ok, if◌then◌else◌, inl,
  inr, Bool-cases, arith,
}
use beatoz_go.Base.Bytes.{Bytes, bytes_eq, bytes_eq_sound, bytes_eq_sym}
use beatoz_go.Ledger.Iavl.{Iavl, IsHealthy, is_some}
use beatoz_go.Ledger.Map.Seek.{entry, EachEntry}
use beatoz_go.Ledger.Map.Listing.{drop_entry, entry-drop_entry}
use beatoz_go.Ledger.Ordered.{bytes_lt, AreAbove, AreAscending, IsOrdered}

bytes_lt_trans : (a b c : Bytes) → bytes_lt a b ≡ true → bytes_lt b c ≡ true → bytes_lt a c ≡ true
unfolding bytes_lt
bytes_lt_trans a [] [] h k = cc
bytes_lt_trans [] [] (z ∷ zs) h k = cc
bytes_lt_trans (x ∷ xs) [] (z ∷ zs) h k = cc
bytes_lt_trans a (y ∷ ys) [] h k = cc
bytes_lt_trans [] (y ∷ ys) (z ∷ zs) h k = refl
bytes_lt_trans (x ∷ xs) (y ∷ ys) (z ∷ zs) h k =
    let ih = bytes_lt_trans xs ys zs in ground (arith, h, k, ih)

-- Of two keys that differ one is below the other.
bytes_lt_total : (a b : Bytes) → bytes_eq a b ≡ false → bytes_lt b a ≡ false → bytes_lt a b ≡ true
unfolding bytes_lt bytes_eq
bytes_lt_total [] [] h k = cc
bytes_lt_total [] (y ∷ ys) h k = refl
bytes_lt_total (x ∷ xs) [] h k = cc
bytes_lt_total (x ∷ xs) (y ∷ ys) h k = let ih = bytes_lt_total xs ys in ground (arith, h, k, ih)

abbrev pub Entries : Type 0
Entries = List (Bytes × Bytes)

unfoldable pub insert : Bytes → Bytes → Entries → Entries
insert k v [] = (k, v) ∷ []
insert k v (e ∷ es) =
    let later = e ∷ insert k v es in
    if bytes_eq e.0 k then (k, v) ∷ es else if bytes_lt k e.0 then (k, v) ∷ e ∷ es else later

unfoldable pub from : Bytes → Entries → Entries
from start [] = []
from start (e ∷ es) = let rest = from start es in if bytes_lt e.0 start then rest else e ∷ rest

apart : (a b c : Bytes) → bytes_eq a b ≡ true → bytes_eq a c ≡ false → bytes_eq c b ≡ false
apart a b c e f = bytes_eq_sym c b ∙ rw⁻¹ (bytes_eq_sound a b e) f

pub entry-insert :
    (k v : Bytes) (es : Entries) (j : Bytes)
    → entry j (insert k v es) ≡ (if bytes_eq k j then some v else entry j es)
unfolding entry insert
entry-insert k v [] j = refl
entry-insert k v (e ∷ es) j = elim (Bool-cases (bytes_eq e.0 k)) [
  | inl here ↦
      rw (here, bytes_eq_sound e.0 k here)
        (elim (Bool-cases (bytes_eq k j)) [ inl same ↦ rw same refl | inr other ↦ rw other refl ])
  | inr off ↦ elim (Bool-cases (bytes_lt k e.0)) [
    | inl before ↦ rw (off, before) refl
    | inr after ↦ elim (Bool-cases (bytes_eq e.0 j)) [
      | inl at ↦ rw (off, after, at, apart e.0 j k at off) refl
      | inr past ↦ rw (off, after, past) (entry-insert k v es j)
    ]
  ]
]

EachEntry-insert :
    (P : Bytes → Type 0) (k v : Bytes) (es : Entries)
    → P k
    → EachEntry (λ j b. P j) es
    → EachEntry (λ j b. P j) (insert k v es)
unfolding insert
EachEntry-insert P k v [] p h = (p, tt)
EachEntry-insert P k v (e ∷ es) p (q, h) = elim (Bool-cases (bytes_eq e.0 k)) [
  | inl here ↦ rw here (p, h)
  | inr off ↦ elim (Bool-cases (bytes_lt k e.0)) [
    | inl before ↦ rw (off, before) (p, (q, h))
    | inr after ↦ rw (off, after) (q, EachEntry-insert P k v es p h)
  ]
]

below_all : (k j : Bytes) (es : Entries) → bytes_lt k j ≡ true → AreAbove j es → AreAbove k es
below_all k j [] h a = tt
below_all k j (e ∷ es) h (b, a) = (bytes_lt_trans k j e.0 h b, below_all k j es h a)

pub insert-AreAscending :
    (k v : Bytes) (es : Entries) → AreAscending es → AreAscending (insert k v es)
unfolding insert
insert-AreAscending k v [] h = (tt, tt)
insert-AreAscending k v (e ∷ es) (a, h) = elim (Bool-cases (bytes_eq e.0 k)) [
  | inl here ↦ rw here (subst (λ x. AreAbove x es) (bytes_eq_sound e.0 k here) a, h)
  | inr off ↦ elim (Bool-cases (bytes_lt k e.0)) [
    | inl before ↦ rw (off, before) ((before, below_all k e.0 es before a), (a, h))
    | inr after ↦
        rw (off, after)
          (
            EachEntry-insert (λ j. bytes_lt e.0 j ≡ true) k v es (bytes_lt_total e.0 k off after) a,
            insert-AreAscending k v es h,
          )
  ]
]

EachEntry-drop_entry :
    (P : Bytes → Type 0) (k : Bytes) (es : Entries)
    → EachEntry (λ j b. P j) es
    → EachEntry (λ j b. P j) (drop_entry k es)
unfolding drop_entry
EachEntry-drop_entry P k [] h = tt
EachEntry-drop_entry P k (e ∷ es) (p, h) = elim (Bool-cases (bytes_eq e.0 k)) [
  | inl here ↦ rw here (EachEntry-drop_entry P k es h)
  | inr off ↦ rw off (p, EachEntry-drop_entry P k es h)
]

pub drop_entry-AreAscending :
    (k : Bytes) (es : Entries) → AreAscending es → AreAscending (drop_entry k es)
unfolding drop_entry
drop_entry-AreAscending k [] h = tt
drop_entry-AreAscending k (e ∷ es) (a, h) = elim (Bool-cases (bytes_eq e.0 k)) [
  | inl here ↦ rw here (drop_entry-AreAscending k es h)
  | inr off ↦
      rw off
        (EachEntry-drop_entry (λ j. bytes_lt e.0 j ≡ true) k es a, drop_entry-AreAscending k es h)
]

EachEntry-from :
    (P : Bytes → Type 0) (start : Bytes) (es : Entries)
    → EachEntry (λ j b. P j) es
    → EachEntry (λ j b. P j) (from start es)
unfolding from
EachEntry-from P start [] h = tt
EachEntry-from P start (e ∷ es) (p, h) = elim (Bool-cases (bytes_lt e.0 start)) [
  | inl below ↦ rw below (EachEntry-from P start es h)
  | inr on ↦ rw on (p, EachEntry-from P start es h)
]

pub from-AreAscending :
    (start : Bytes) (es : Entries) → AreAscending es → AreAscending (from start es)
unfolding from
from-AreAscending start [] h = tt
from-AreAscending start (e ∷ es) (a, h) = elim (Bool-cases (bytes_lt e.0 start)) [
  | inl below ↦ rw below (from-AreAscending start es h)
  | inr on ↦
      rw on (EachEntry-from (λ j. bytes_lt e.0 j ≡ true) start es a, from-AreAscending start es h)
]

pub entry-from :
    (start : Bytes) (es : Entries) (j : Bytes)
    → entry j (from start es) ≡ (if bytes_lt j start then none else entry j es)
unfolding entry from
entry-from start [] j = elim (Bool-cases (bytes_lt j start)) [
  | inl below ↦ rw below refl
  | inr on ↦ rw on refl
]
entry-from start (e ∷ es) j = elim (Bool-cases (bytes_eq e.0 j)) [
  | inl same ↦
      let is = bytes_eq_sound e.0 j same in
      elim (Bool-cases (bytes_lt j start)) [
        | inl below ↦
            rw (ap (λ x. bytes_lt x start) is ∙ below, below)
              (entry-from start es j ∙ rw below refl)
        | inr on ↦ rw (ap (λ x. bytes_lt x start) is ∙ on, on, same) refl
      ]
  | inr other ↦ elim (Bool-cases (bytes_lt e.0 start)) [
    | inl below ↦ rw (below, other) (entry-from start es j)
    | inr on ↦ rw (on, other) (entry-from start es j)
  ]
]

abbrev pub Sorted : Type 0
Sorted = (es : Entries) × AreAscending es

abbrev pub sorted_db : Iavl
sorted_db = record {
  Tree = Sorted × ℕ;
  Immutable = Sorted;
  nil_tree = ([], tt);
  is_nil = λ t. false;
  get = λ t k. ok (entry k t.0.0);
  set = λ t k v. ok ((insert k v t.0.0, insert-AreAscending k v t.0.0 t.0.1), t.1);
  remove = λ t k. ok (
    entry k t.0.0,
    is_some (entry k t.0.0),
    ((drop_entry k t.0.0, drop_entry-AreAscending k t.0.0 t.0.1), t.1),
  );
  save_version = λ t. ok ([], t.1 + 1, (t.0, t.1 + 1));
  version = λ t. t.1;
  get_immutable = λ t n. ok t.0;
  get_at = λ t k. ok (entry k t.0);
  iterator = λ t start a. ok (from start t.0.0);
  iterator_at = λ t start a. ok (from start t.0);
}

abbrev pub sorted_db-IsHealthy : IsHealthy sorted_db
sorted_db-IsHealthy = record {
  view = λ t k. entry k t.0.0;
  view_at = λ t k. entry k t.0;
  get_view = λ t k. refl;
  get_at_view = λ t k e. refl;
  set_view = λ t k v. (
    ((insert k v t.0.0, insert-AreAscending k v t.0.0 t.0.1), t.1),
    refl,
    entry-insert k v t.0.0,
  );
  remove_view = λ t k. (
    ((drop_entry k t.0.0, drop_entry-AreAscending k t.0.0 t.0.1), t.1),
    refl,
    entry-drop_entry k t.0.0,
  );
  save_view = λ t. ([], t.1 + 1, (t.0, t.1 + 1), t.0, refl, refl, refl, λ j. refl, λ j. refl);
}

abbrev pub sorted_db-IsOrdered : IsOrdered sorted_db sorted_db-IsHealthy
sorted_db-IsOrdered = record {
  entries_from = λ t start. from start t.0.0;
  iterates = λ t start. refl;
  ascending = λ t start. from-AreAscending start t.0.0 t.0.1;
  holds = λ t start j. entry-from start t.0.0 j;
}
