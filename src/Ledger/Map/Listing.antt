-- ===== src/Ledger/Map/Listing.antt =====
-- A pair of association lists in memory, which is a state ledger with Seek as its clients see it.
use beatoz_go.Base.{
  ◌≡◌, refl, sym, ap, ◌∙◌, Bool, true, false, ◌&&◌, Option, none, some, List, ◌∷◌, ok,
  if◌then◌else◌, Bool-cases, inl, inr, ◌⊎◌, [],
}
use beatoz_go.Base.Bytes.{Bytes, bytes_eq, has_prefix, bytes_eq_sound, bytes_eq_sym}
use beatoz_go.Ledger.Map.{Store, Keyed, IsMap, found_or_missing, same_side}
use beatoz_go.Ledger.Map.Seek.{Seeker, IsListed, visit, entry, AreUnder}

other_key : (a b c : Bytes) → bytes_eq a b ≡ true → bytes_eq a c ≡ false → bytes_eq b c ≡ false
other_key a b c e f = rw⁻¹ (bytes_eq_sound a b e) f

module _ {Item : Type 0} where
  twice :
      (b : Bool) (x o : Option Item)
      → (if b then none else o) ≡ (if b then none else if b then x else o)
  twice true x o = refl
  twice false x o = refl

  -- An entry is replaced where it stands; a new one goes last.
  unfoldable pub put_entry : Bytes → Item → List (Bytes × Item) → List (Bytes × Item)
  put_entry k i [] = (k, i) ∷ []
  put_entry k i (e ∷ es) =
      let rest = put_entry k i es in if bytes_eq e.0 k then (k, i) ∷ es else e ∷ rest

  unfoldable pub drop_entry : Bytes → List (Bytes × Item) → List (Bytes × Item)
  drop_entry k [] = []
  drop_entry k (e ∷ es) = let rest = drop_entry k es in if bytes_eq e.0 k then rest else e ∷ rest

  unfoldable pub under : Bytes → List (Bytes × Item) → List (Bytes × Item)
  under prefix [] = []
  under prefix (e ∷ es) =
      let rest = under prefix es in if has_prefix e.0 prefix then e ∷ rest else rest

  entry_cong :
      (j k : Bytes) (es : List (Bytes × Item)) → bytes_eq j k ≡ true → entry j es ≡ entry k es
  entry_cong j k es e = ap (λ x. entry x es) (bytes_eq_sound j k e)

  pub entry-put_entry :
      (k : Bytes) (i : Item) (es : List (Bytes × Item)) (j : Bytes)
      → entry j (put_entry k i es) ≡ (if bytes_eq k j then some i else entry j es)
  unfolding entry put_entry
  entry-put_entry k i [] j = refl
  entry-put_entry k i (e ∷ es) j = elim (Bool-cases (bytes_eq e.0 k)) [
    | inl here ↦
        rw (here, bytes_eq_sound e.0 k here)
          (elim (Bool-cases (bytes_eq k j)) [ inl same ↦ rw same refl | inr other ↦ rw other refl ])
    | inr later ↦ elim (Bool-cases (bytes_eq e.0 j)) [
      | inl at ↦ rw (later, at, bytes_eq_sym k j, other_key e.0 j k at later) refl
      | inr off ↦ rw (later, off) (entry-put_entry k i es j)
    ]
  ]

  pub entry-drop_entry :
      (k : Bytes) (es : List (Bytes × Item)) (j : Bytes)
      → entry j (drop_entry k es) ≡ (if bytes_eq k j then none else entry j es)
  unfolding entry drop_entry
  entry-drop_entry k [] j = elim (Bool-cases (bytes_eq k j)) [
    | inl same ↦ rw same refl
    | inr other ↦ rw other refl
  ]
  entry-drop_entry k (e ∷ es) j = elim (Bool-cases (bytes_eq e.0 k)) [
    | inl here ↦ rw here (
        entry-drop_entry k es j
        ∙ rw (bytes_eq_sound e.0 k here) (twice (bytes_eq k j) (some e.1) (entry j es)))
    | inr later ↦ elim (Bool-cases (bytes_eq e.0 j)) [
      | inl at ↦ rw (later, at, bytes_eq_sym k j, other_key e.0 j k at later) refl
      | inr off ↦ rw (later, off) (entry-drop_entry k es j)
    ]
  ]

  pub put_entry-AreUnder :
      (k : Bytes) (i : Item) (es : List (Bytes × Item))
      → AreUnder [] es
      → AreUnder [] (put_entry k i es)
  unfolding put_entry entry has_prefix
  put_entry-AreUnder k i [] a = (refl, refl, tt)
  put_entry-AreUnder k i (e ∷ es) (p, apart, a) = elim (Bool-cases (bytes_eq e.0 k)) [
    | inl here ↦ rw here (refl, rw⁻¹ (bytes_eq_sound e.0 k here) apart, a)
    | inr later ↦ rw later (
      p,
      entry-put_entry k i es e.0 ∙ rw (bytes_eq_sym k e.0, later) apart,
      put_entry-AreUnder k i es a,
    )
  ]

  pub drop_entry-AreUnder :
      (k : Bytes) (es : List (Bytes × Item)) → AreUnder [] es → AreUnder [] (drop_entry k es)
  unfolding drop_entry
  drop_entry-AreUnder k [] a = tt
  drop_entry-AreUnder k (e ∷ es) (p, apart, a) = elim (Bool-cases (bytes_eq e.0 k)) [
    | inl here ↦ rw here (drop_entry-AreUnder k es a)
    | inr later ↦ rw later (
      p,
      entry-drop_entry k es e.0 ∙ rw (bytes_eq_sym k e.0, later) apart,
      drop_entry-AreUnder k es a,
    )
  ]

  pub entry-under :
      (prefix j : Bytes) (es : List (Bytes × Item))
      → has_prefix j prefix ≡ true
      → entry j (under prefix es) ≡ entry j es
  unfolding entry under
  entry-under prefix j [] h = refl
  entry-under prefix j (e ∷ es) h = elim (Bool-cases (has_prefix e.0 prefix)) [
    | inl inside ↦
        rw inside (ap (λ o. if bytes_eq e.0 j then some e.1 else o) (entry-under prefix j es h))
    | inr outside ↦
        rw outside (entry-under prefix j es h ∙ rw (off (Bool-cases (bytes_eq e.0 j)) outside) refl)
  ]
    where
      off :
          ((bytes_eq e.0 j ≡ true) ⊎ (bytes_eq e.0 j ≡ false))
          → has_prefix e.0 prefix ≡ false
          → bytes_eq e.0 j ≡ false
      off (inl same) out = cc (h, rw (bytes_eq_sound e.0 j same) at out)
      off (inr other) out = other

  unlisted-under :
      (prefix j : Bytes) (es : List (Bytes × Item))
      → entry j es ≡ none
      → entry j (under prefix es) ≡ none
  unfolding entry under
  unlisted-under prefix j [] h = refl
  unlisted-under prefix j (e ∷ es) h = elim (Bool-cases (bytes_eq e.0 j)) [
    | inl same ↦ cc (rw same at h)
    | inr other ↦ elim (Bool-cases (has_prefix e.0 prefix)) [
      | inl inside ↦ rw (inside, other) (unlisted-under prefix j es (rw other at h))
      | inr outside ↦ rw outside (unlisted-under prefix j es (rw other at h))
    ]
  ]

  pub under-AreUnder :
      (prefix : Bytes) (es : List (Bytes × Item))
      → AreUnder [] es
      → AreUnder prefix (under prefix es)
  unfolding under
  under-AreUnder prefix [] a = tt
  under-AreUnder prefix (e ∷ es) (p, apart, a) = elim (Bool-cases (has_prefix e.0 prefix)) [
    | inl inside ↦
        rw inside (inside, unlisted-under prefix e.0 es apart, under-AreUnder prefix es a)
    | inr outside ↦ rw outside (under-AreUnder prefix es a)
  ]

abbrev pub Lists : Type 0 → Type 0
Lists Item = Bool → List (Bytes × Item)

abbrev pub on_side :
    {Item : Type 0} → (List (Bytes × Item) → List (Bytes × Item)) → Bool → Lists Item → Lists Item
on_side f x st y = if same_side x y then f (st y) else st y

abbrev pub list_store : (Item : Type 0) → Store Item
list_store Item = record {
  State = Lists Item;
  get = λ k x st. (found_or_missing (entry k (st x)), st);
  set = λ k i x st. (ok tt, on_side (put_entry k i) x st);
  del = λ k x st. (ok tt, on_side (drop_entry k) x st);
}

abbrev pub list_seeker : (Item : Type 0) → Seeker (list_store Item)
list_seeker Item = record { seek = λ C prefix cb x st c. visit cb (under prefix (st x)) c }

module _ {Item : Type 0} (f : List (Bytes × Item) → List (Bytes × Item)) (x : Bool)
    (st : Lists Item) where
  pub on_side-AreUnder :
      ((es : List (Bytes × Item)) → AreUnder [] es → AreUnder [] (f es))
      → ((y : Bool) → AreUnder [] (st y))
      → (y : Bool) → AreUnder [] (on_side f x st y)
  on_side-AreUnder keep v y = go (same_side x y)
    where
      go : (b : Bool) → AreUnder [] (if b then f (st y) else st y)
      go true = keep (st y) (v y)
      go false = v y

  pub on_side-entry :
      (k : Bytes) (o : Option Item)
      → ((es : List (Bytes × Item)) (j : Bytes)
          → entry j (f es) ≡ (if bytes_eq k j then o else entry j es))
      → (y : Bool) (j : Bytes)
      → entry j (on_side f x st y) ≡ (if same_side x y && bytes_eq k j then o else entry j (st y))
  on_side-entry k o is y j = go (same_side x y)
    where
      go :
          (b : Bool)
          → entry j (if b then f (st y) else st y)
            ≡ (if b && bytes_eq k j then o else entry j (st y))
      go true = is (st y) j
      go false = refl

abbrev pub list_store-IsMap : (Item : Type 0) ⦃K : Keyed Item⦄ → IsMap (list_store Item)
list_store-IsMap Item = record {
  IsValid = λ st. (x : Bool) → AreUnder [] (st x);
  view = λ st x k. entry k (st x);
  get_view = λ k x st h v. (refl, v, λ y j. refl);
  set_view = λ k i x st h f v. (
    refl,
    on_side-AreUnder (put_entry k i) x st (put_entry-AreUnder k i) v,
    on_side-entry (put_entry k i) x st k (some i) (entry-put_entry k i),
  );
  del_view = λ k x st h v. (
    refl,
    on_side-AreUnder (drop_entry k) x st (drop_entry-AreUnder k) v,
    on_side-entry (drop_entry k) x st k none (entry-drop_entry k),
  );
}

abbrev pub list_store-IsListed :
    (Item : Type 0) ⦃K : Keyed Item⦄ → IsListed (list_store-IsMap Item) (list_seeker Item)
list_store-IsListed Item = record {
  entries = λ st prefix. under prefix (st true);
  seek_entries = λ C prefix cb st c v. refl;
  entries_view = λ st prefix j v h. sym (entry-under prefix j (st true) h);
  entries_under = λ st prefix v. under-AreUnder prefix (st true) (v true);
}
