-- ===== src/Ledger/Ordered.antt =====
-- The order of the keys of a tree, bytes.Compare, and what the iterator of cosmos/iavl promises.
use beatoz_go.Base.{
  ◌≡◌, refl, ap, Bool, true, false, ◌&&◌, ◌||◌, ◌==◌, ltb, none, List, [], ◌∷◌, ok, if◌then◌else◌,
  inl, inr, Bool-cases, arith,
}
use beatoz_go.Base.Bytes.{Bytes, bytes_eq, has_prefix, bytes_eq_sound}
use beatoz_go.Ledger.Iavl.{Iavl, IsHealthy}
use beatoz_go.Ledger.Map.Seek.{entry, EachEntry, AreUnder}

-- `bytes.Compare(a, b) < 0`
unfoldable pub bytes_lt : Bytes → Bytes → Bool
bytes_lt [] [] = false
bytes_lt [] (y ∷ ys) = true
bytes_lt (x ∷ xs) [] = false
bytes_lt (x ∷ xs) (y ∷ ys) = ltb x y || ((x == y) && bytes_lt xs ys)

pub bytes_lt_irrefl : (k : Bytes) → bytes_lt k k ≡ false
unfolding bytes_lt
bytes_lt_irrefl [] = refl
bytes_lt_irrefl (x ∷ xs) = ground (arith, bytes_lt_irrefl xs)

-- A key with a prefix is not below it.
pub has_prefix-bytes_lt :
    (k prefix : Bytes) → has_prefix k prefix ≡ true → bytes_lt k prefix ≡ false
unfolding bytes_lt has_prefix
has_prefix-bytes_lt [] [] h = refl
has_prefix-bytes_lt (x ∷ xs) [] h = refl
has_prefix-bytes_lt [] (p ∷ ps) h = cc
has_prefix-bytes_lt (x ∷ xs) (p ∷ ps) h =
    let rest = has_prefix-bytes_lt xs ps (ground (arith, h)) in ground (arith, h, rest)

-- Keys between a prefix and a key with it have the prefix.
pub has_prefix-between :
    (prefix k j : Bytes)
    → bytes_lt k prefix ≡ false
    → bytes_lt k j ≡ true
    → has_prefix j prefix ≡ true
    → has_prefix k prefix ≡ true
unfolding bytes_lt has_prefix
has_prefix-between [] k j a b h = refl
has_prefix-between (p ∷ ps) k [] a b h = cc
has_prefix-between (p ∷ ps) [] (y ∷ ys) a b h = cc
has_prefix-between (p ∷ ps) (x ∷ xs) (y ∷ ys) a b h =
    let same : x ≡ p = ground (arith, a, b, h) in
    let rest =
      has_prefix-between ps xs ys (ground (arith, a, same)) (ground (arith, b, h, same))
        (ground (arith, h)) in
    ground (arith, same, rest)

module _ {A : Type 0} where
  abbrev pub AreAbove : Bytes → List (Bytes × A) → Type 0
  AreAbove k es = EachEntry (λ j a. bytes_lt k j ≡ true) es

  -- The keys ascend strictly.
  abbrev pub AreAscending : List (Bytes × A) → Type 0
  AreAscending [] = Unit {0}
  AreAscending (e ∷ es) = AreAbove e.0 es × AreAscending es

  pub entry-AreAbove : (k : Bytes) (es : List (Bytes × A)) → AreAbove k es → entry k es ≡ none
  unfolding entry
  entry-AreAbove k [] h = refl
  entry-AreAbove k (e ∷ es) (b, h) = elim (Bool-cases (bytes_eq e.0 k)) [
    | inl same ↦ cc (b, bytes_lt_irrefl k, ap (bytes_lt k) (bytes_eq_sound e.0 k same))
    | inr other ↦ rw other (entry-AreAbove k es h)
  ]

  -- In ascending order no key is there twice.
  pub AreAscending-AreUnder :
      (prefix : Bytes) (es : List (Bytes × A))
      → EachEntry (λ j a. has_prefix j prefix ≡ true) es
      → AreAscending es
      → AreUnder prefix es
  AreAscending-AreUnder prefix [] u h = tt
  AreAscending-AreUnder prefix (e ∷ es) (b, u) (a, h) =
      (b, entry-AreAbove e.0 es a, AreAscending-AreUnder prefix es u h)

-- The iterator from `start` on: the entries of the tree whose keys are not below `start`, in ascending
-- order.
pub record IsOrdered (db : Iavl) (H : IsHealthy db) : Type 0 where
  pub entries_from : db.Tree → Bytes → List (Bytes × Bytes)
  pub iterates :
      (t : db.Tree) (start : Bytes) → db.iterator t start true ≡ ok (entries_from t start)
  pub ascending : (t : db.Tree) (start : Bytes) → AreAscending (entries_from t start)
  pub holds :
      (t : db.Tree) (start j : Bytes)
      → entry j (entries_from t start) ≡ (if bytes_lt j start then none else H.view t j)
