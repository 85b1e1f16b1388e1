-- ===== src/Ledger/Map/Seek.antt =====
-- The walk over the entries under a prefix, Seek of IStateLedger, as the controllers use it.
use beatoz_go.Base.{
  ◌≡◌, refl, ap, subst, Bool-cases, inl, inr, Bool, true, false, Option, none, some, List, [], ◌∷◌,
  Status, ok, if◌then◌else◌,
}
use mathlib.Core.Option.{some-injective}
use beatoz_go.Base.Bytes.{Bytes, bytes_eq, has_prefix, bytes_eq_sound, bytes_eq_refl}
use beatoz_go.Ledger.Mutable.{Callback, attempt}
use beatoz_go.Ledger.Map.{Store, Keyed, IsMap}

-- Seek in ascending order; `C` is what the callback changes.
pub record Seeker {Item : Type 0} (s : Store Item) : Type 1 where
  pub seek : (C : Type 0) → Bytes → Callback Item C → Bool → s.State → C → Status × C

module _ {Item : Type 0} where
  -- The callback on each entry in turn, until it fails.
  unfoldable pub visit : {C : Type 0} → Callback Item C → List (Bytes × Item) → C → Status × C
  visit cb [] c = (ok tt, c)
  visit cb (e ∷ es) c = let (r, c') = cb e.0 e.1 c in attempt r c' λ _. visit cb es c'

  -- What a list of entries holds under a key.
  unfoldable pub entry : Bytes → List (Bytes × Item) → Option Item
  entry k [] = none
  entry k (e ∷ es) = let rest = entry k es in if bytes_eq e.0 k then some e.1 else rest

  -- The keys have the prefix, and none is there twice.
  abbrev pub AreUnder : Bytes → List (Bytes × Item) → Type 0
  AreUnder prefix [] = Unit {0}
  AreUnder prefix (e ∷ es) =
      (has_prefix e.0 prefix ≡ true) × (entry e.0 es ≡ none) × AreUnder prefix es

  -- Seek on the side that is executed visits the entries under the prefix, each once. (On the side
  -- for checking it does not see what was set since the last commit.)
  pub record IsListed ⦃K : Keyed Item⦄ {s : Store Item} (m : IsMap s) (k : Seeker s) : Type 1 where
    pub entries : s.State → Bytes → List (Bytes × Item)
    pub seek_entries :
        (C : Type 0) (prefix : Bytes) (cb : Callback Item C) (st : s.State) (c : C)
        → m.IsValid st
        → k.seek C prefix cb true st c ≡ visit cb (entries st prefix) c
    pub entries_view :
        (st : s.State) (prefix j : Bytes)
        → m.IsValid st
        → has_prefix j prefix ≡ true
        → m.view st true j ≡ entry j (entries st prefix)
    pub entries_under :
        (st : s.State) (prefix : Bytes) → m.IsValid st → AreUnder prefix (entries st prefix)

  -- Each entry of a list.
  abbrev pub EachEntry : (Bytes → Item → Type 0) → List (Bytes × Item) → Type 0
  EachEntry P [] = Unit {0}
  EachEntry P (e ∷ es) = P e.0 e.1 × EachEntry P es

  entry_later :
      (j : Bytes) (i : Item) (e : Bytes × Item) (es : List (Bytes × Item))
      → entry e.0 es ≡ none
      → entry j es ≡ some i
      → entry j (e ∷ es) ≡ some i
  unfolding entry
  entry_later j i e es h g = elim (Bool-cases (bytes_eq e.0 j)) [
    | inl same ↦ cc (h, g, ap (λ x. entry x es) (bytes_eq_sound e.0 j same))
    | inr other ↦ rw other g
  ]

  entry_here : (e : Bytes × Item) (es : List (Bytes × Item)) → entry e.0 (e ∷ es) ≡ some e.1
  unfolding entry
  entry_here e es = rw (bytes_eq_refl e.0) refl

  -- What holds of whatever is found under a key holds of each entry.
  pub each_entry :
      (P : Bytes → Item → Type 0) (prefix : Bytes) (es : List (Bytes × Item))
      → AreUnder prefix es
      → ((j : Bytes) (i : Item) → has_prefix j prefix ≡ true → entry j es ≡ some i → P j i)
      → EachEntry P es
  each_entry P prefix [] a h = tt
  each_entry P prefix (e ∷ es) (under, apart, a) h = (
    h e.0 e.1 under (entry_here e es),
    each_entry P prefix es a (λ j i u g. h j i u (entry_later j i e es apart g)),
  )

  pub entry_not_here :
      (e : Bytes × Item) (es : List (Bytes × Item)) (j : Bytes)
      → bytes_eq e.0 j ≡ false
      → entry j (e ∷ es) ≡ entry j es
  unfolding entry
  entry_not_here e es j h = rw h refl

  pub entry_is_here :
      (e : Bytes × Item) (es : List (Bytes × Item)) (j : Bytes)
      → bytes_eq e.0 j ≡ true
      → entry j (e ∷ es) ≡ some e.1
  unfolding entry
  entry_is_here e es j h = rw h refl

  -- What holds of each entry holds of whatever is found under a key.
  pub entry_each :
      (P : Bytes → Item → Type 0) (es : List (Bytes × Item)) (j : Bytes) (i : Item)
      → EachEntry P es
      → entry j es ≡ some i
      → P j i
  unfolding entry
  entry_each P [] j i a h = cc
  entry_each P (e ∷ es) j i (b, a) h = elim (Bool-cases (bytes_eq e.0 j)) [
    | inl here ↦
        subst (λ x. P x i) (bytes_eq_sound e.0 j here)
          (subst (P e.0) (some-injective e.1 i (rw here at h)) b)
    | inr later ↦ entry_each P es j i a (rw later at h)
  ]
