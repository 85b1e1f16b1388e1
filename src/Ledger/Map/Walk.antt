-- ===== src/Ledger/Map/Walk.antt =====
-- Seek of the state ledger on the side that is executed visits exactly the entries under the prefix:
-- the law that the controllers take of a ledger.
use beatoz_go.Base.{
  ◌≡◌, refl, sym, ap, ◌∙◌, subst, true, false, none, some, List, [], ◌∷◌, Result, ok, err, panic,
  Status, inl, inr, Bool-cases, if◌then◌else◌,
}
use beatoz_go.Base.Bytes.{Bytes, bytes_eq, has_prefix, bytes_eq_sound}
use beatoz_go.Ledger.Iavl.{Iavl, Items, IsHealthy}
use beatoz_go.Ledger.Ordered.{
  bytes_lt, has_prefix-bytes_lt, has_prefix-between, AreAbove, AreAscending, AreAscending-AreUnder,
  IsOrdered,
}
use beatoz_go.Ledger.Mutable
use beatoz_go.Ledger.Mutable.{Callback, attempt, seek_loop}
use beatoz_go.Ledger.Mutable.Restore.{Decodes}
use beatoz_go.Ledger.State
use beatoz_go.Ledger.State.{StateLedger}
use beatoz_go.Ledger.Map.{Keyed}
use beatoz_go.Ledger.Map.Seek.{Seeker, IsListed, visit, entry, AreUnder, EachEntry, each_entry}
use beatoz_go.Ledger.Map.Implementation.{
  IsFaithful, IsValid, state_store, state_ledger-IsMap, view, decoded, of_result,
}

module _ (it : Items) where
  -- An entry that decodes, before the rest.
  abbrev cons_decoded : Bytes → Result it.Item → List (Bytes × it.Item) → List (Bytes × it.Item)
  cons_decoded k (ok i) rest = (k, i) ∷ rest
  cons_decoded k (err x) rest = []
  cons_decoded k panic rest = []

  -- The entries up to the first whose key does not have the prefix, decoded.
  unfoldable pub listed : Bytes → List (Bytes × Bytes) → List (Bytes × it.Item)
  listed prefix [] = []
  listed prefix (e ∷ es) =
      let rest = cons_decoded e.0 (it.decode e.0 e.1) (listed prefix es) in
      if has_prefix e.0 prefix then rest else []

  -- From the prefix on, with a value that decodes.
  abbrev Walkable : Bytes → Bytes → Bytes → Type 0
  Walkable prefix k v = (bytes_lt k prefix ≡ false) × (i : it.Item) × (it.decode k v ≡ ok i)

  seek_loop-visit :
      {C : Type 0} (prefix : Bytes) (cb : Callback it.Item C) (es : List (Bytes × Bytes)) (c : C)
      → EachEntry (Walkable prefix) es
      → seek_loop it prefix cb es c ≡ visit cb (listed prefix es) c
  unfolding seek_loop visit listed
  seek_loop-visit prefix cb [] c h = refl
  seek_loop-visit {C = C} prefix cb (e ∷ es) c (w, h) = elim (Bool-cases (has_prefix e.0 prefix)) [
    | inl under ↦
        let (_, i, d) = w in
        rw (under, d, seek_loop) (after (λ c'. seek_loop-visit prefix cb es c' h) (cb e.0 i c))
    | inr past ↦ rw (past, seek_loop) refl
  ]
    where
      after :
          ((c' : C) → seek_loop it prefix cb es c' ≡ visit cb (listed prefix es) c')
          → (r : Status × C)
          → attempt r.0 r.1 (λ _. seek_loop it prefix cb es r.1)
            ≡ attempt r.0 r.1 (λ _. visit cb (listed prefix es) r.1)
      after next (ok u, c') = next c'
      after next (err x, c') = refl
      after next (panic, c') = refl

  listed-EachEntry :
      (P : Bytes → Type 0) (prefix : Bytes) (es : List (Bytes × Bytes))
      → EachEntry (λ k v. P k) es
      → EachEntry (λ k i. P k) (listed prefix es)
  unfolding listed
  listed-EachEntry P prefix [] h = tt
  listed-EachEntry P prefix (e ∷ es) (p, h) = elim (Bool-cases (has_prefix e.0 prefix)) [
    | inl under ↦ rw under (kept (listed-EachEntry P prefix es h) (it.decode e.0 e.1))
    | inr past ↦ rw past tt
  ]
    where
      kept :
          EachEntry (λ k i. P k) (listed prefix es)
          → (r : Result it.Item) → EachEntry (λ k i. P k) (cons_decoded e.0 r (listed prefix es))
      kept ih (ok i) = (p, ih)
      kept ih (err x) = tt
      kept ih panic = tt

  listed-AreAscending :
      (prefix : Bytes) (es : List (Bytes × Bytes))
      → AreAscending es
      → AreAscending (listed prefix es)
  unfolding listed
  listed-AreAscending prefix [] h = tt
  listed-AreAscending prefix (e ∷ es) (a, h) = elim (Bool-cases (has_prefix e.0 prefix)) [
    | inl under ↦ rw under (kept (listed-AreAscending prefix es h) (it.decode e.0 e.1))
    | inr past ↦ rw past tt
  ]
    where
      kept :
          AreAscending (listed prefix es)
          → (r : Result it.Item) → AreAscending (cons_decoded e.0 r (listed prefix es))
      kept ih (ok i) = (listed-EachEntry (λ k. bytes_lt e.0 k ≡ true) prefix es a, ih)
      kept ih (err x) = tt
      kept ih panic = tt

  listed-under :
      (prefix : Bytes) (es : List (Bytes × Bytes))
      → EachEntry (λ k i. has_prefix k prefix ≡ true) (listed prefix es)
  unfolding listed
  listed-under prefix [] = tt
  listed-under prefix (e ∷ es) = elim (Bool-cases (has_prefix e.0 prefix)) [
    | inl under ↦ rw under (kept (listed-under prefix es) under (it.decode e.0 e.1))
    | inr past ↦ rw past tt
  ]
    where
      kept :
          EachEntry (λ k i. has_prefix k prefix ≡ true) (listed prefix es)
          → has_prefix e.0 prefix ≡ true
          → (r : Result it.Item)
          → EachEntry (λ k i. has_prefix k prefix ≡ true) (cons_decoded e.0 r (listed prefix es))
      kept ih under (ok i) = (under, ih)
      kept ih under (err x) = tt
      kept ih under panic = tt

  -- Past the prefix no key has it.
  past_prefix :
      (prefix k j : Bytes) (es : List (Bytes × Bytes))
      → bytes_lt k prefix ≡ false
      → has_prefix k prefix ≡ false
      → AreAbove k es
      → has_prefix j prefix ≡ true
      → entry j es ≡ none
  unfolding entry
  past_prefix prefix k j [] b n a h = refl
  past_prefix prefix k j (e ∷ es) b n (above, a) h = elim (Bool-cases (bytes_eq e.0 j)) [
    | inl same ↦
        let is = subst (λ x. bytes_lt k x ≡ true) (bytes_eq_sound e.0 j same) above in
        cc (n, has_prefix-between prefix k j b is h)
    | inr other ↦ rw other (past_prefix prefix k j es b n a h)
  ]

  entry-listed :
      (prefix j : Bytes) (es : List (Bytes × Bytes))
      → EachEntry (Walkable prefix) es
      → AreAscending es
      → has_prefix j prefix ≡ true
      → decoded it j (entry j es) ≡ entry j (listed prefix es)
  unfolding entry listed
  entry-listed prefix j [] w a h = refl
  entry-listed prefix j (e ∷ es) ((b, i, d), w) (above, a) h =
      elim (Bool-cases (has_prefix e.0 prefix)) [
        | inl under ↦
            rw (under, d)
              (elim (Bool-cases (bytes_eq e.0 j)) [
                | inl same ↦ rw same (
                    ap of_result
                      (subst (λ x. it.decode x e.1 ≡ ok i) (bytes_eq_sound e.0 j same) d))
                | inr other ↦ rw other (entry-listed prefix j es w a h)
              ])
        | inr past ↦ elim (Bool-cases (bytes_eq e.0 j)) [
          | inl same ↦ cc (h, past, ap (λ x. has_prefix x prefix) (bytes_eq_sound e.0 j same))
          | inr other ↦
              rw (past, other) (ap (decoded it j) (past_prefix prefix e.0 j es b past above h))
        ]
      ]

module _ (db : Iavl) (it : Items) (H : IsHealthy db) (O : IsOrdered db H) where
  above_start :
      (t : db.Tree) (start j b : Bytes)
      → entry j (O.entries_from t start) ≡ some b
      → (bytes_lt j start ≡ false) × (H.view t j ≡ some b)
  above_start t start j b e = elim (Bool-cases (bytes_lt j start)) [
    | inl below ↦ cc (e, rw below at (O.holds t start j))
    | inr above ↦ (above, sym (rw above at (O.holds t start j)) ∙ e)
  ]

  unique_entries : (t : db.Tree) (start : Bytes) → AreUnder [] (O.entries_from t start)
  unfolding has_prefix
  unique_entries t start =
      AreAscending-AreUnder [] (O.entries_from t start) (all_under (O.entries_from t start))
        (O.ascending t start)
    where
      all_under : (es : List (Bytes × Bytes)) → EachEntry (λ j a. has_prefix j [] ≡ true) es
      all_under [] = tt
      all_under (e ∷ es) = (refl, all_under es)

  walkable :
      (t : db.Tree) (start : Bytes)
      → ((k : Bytes) → Decodes it k (H.view t k))
      → EachEntry (Walkable it start) (O.entries_from t start)
  walkable t start d =
      each_entry (Walkable it start) [] (O.entries_from t start) (unique_entries t start)
        (λ j b u e.
          let (above, is) = above_start t start j b e in
          let (i, decodes) = subst (Decodes it j) is (d j) in (above, i, decodes))

  -- The entries that Seek visits.
  abbrev pub entries : StateLedger db it → Bytes → List (Bytes × it.Item)
  entries st prefix = listed it prefix (O.entries_from st.commit_ledger.tree prefix)

  seek_entries :
      {C : Type 0} (prefix : Bytes) (cb : Callback it.Item C) (st : StateLedger db it) (c : C)
      → IsValid db it H st
      → State.seek db it prefix true cb true st c ≡ visit cb (entries st prefix) c
  unfolding State.seek Mutable.seek
  seek_entries prefix cb st c v =
      let t = st.commit_ledger.tree in
      rw (O.iterates t prefix)
        (seek_loop-visit it prefix cb (O.entries_from t prefix) c (walkable t prefix v.readable))

  entries_view :
      (st : StateLedger db it) (prefix j : Bytes)
      → IsValid db it H st
      → has_prefix j prefix ≡ true
      → view db it H st true j ≡ entry j (entries st prefix)
  entries_view st prefix j v h =
      let t = st.commit_ledger.tree in
      let from = rw (has_prefix-bytes_lt j prefix h) at (O.holds t prefix j) in
      ap (decoded it j) (sym from)
      ∙ entry-listed it prefix j (O.entries_from t prefix) (walkable t prefix v.readable)
          (O.ascending t prefix) h

  entries_under : (st : StateLedger db it) (prefix : Bytes) → AreUnder prefix (entries st prefix)
  entries_under st prefix =
      AreAscending-AreUnder prefix (entries st prefix)
        (listed-under it prefix (O.entries_from st.commit_ledger.tree prefix))
        (listed-AreAscending it prefix (O.entries_from st.commit_ledger.tree prefix)
          (O.ascending st.commit_ledger.tree prefix))

  not_listed :
      (prefix j : Bytes) (es : List (Bytes × it.Item))
      → AreUnder prefix es
      → has_prefix j prefix ≡ false
      → entry j es ≡ none
  unfolding entry
  not_listed prefix j [] u h = refl
  not_listed prefix j (e ∷ es) (b, _, u) h = elim (Bool-cases (bytes_eq e.0 j)) [
    | inl same ↦ cc (b, h, ap (λ x. has_prefix x prefix) (bytes_eq_sound e.0 j same))
    | inr other ↦ rw other (not_listed prefix j es u h)
  ]

  -- On an open state ledger whose entries decode and whose tree its database serves and iterates in
  -- order, Seek in ascending order for execution, with any callback, hands it the items under the
  -- prefix one after the other until it fails, and ends with the callback's error or with success: in
  -- strictly ascending order of their keys, exactly those that Get returns for a key with the prefix,
  -- and for no other key.
  pub seek_visits :
      {C : Type 0} (prefix : Bytes) (cb : Callback it.Item C) (st : StateLedger db it) (c : C)
      → IsValid db it H st
      → (es : List (Bytes × it.Item)) × (State.seek db it prefix true cb true st c ≡ visit cb es c)
        × AreAscending es
        × ((j : Bytes)
            → entry j es ≡ (if has_prefix j prefix then view db it H st true j else none))
  seek_visits prefix cb st c v = (
    entries st prefix,
    seek_entries prefix cb st c v,
    listed-AreAscending it prefix (O.entries_from st.commit_ledger.tree prefix)
        (O.ascending st.commit_ledger.tree prefix),
    λ j. elim (Bool-cases (has_prefix j prefix)) [
      | inl under ↦ rw under (sym (entries_view st prefix j v under))
      | inr off ↦ rw off (not_listed prefix j (entries st prefix) (entries_under st prefix) off)
    ],
  )

  abbrev pub state_seeker : Seeker (state_store db it)
  state_seeker = record { seek = λ C prefix cb x st c. State.seek db it prefix true cb x st c }

  -- The state ledger, where its items encode and decode under the keys where they belong, meets
  -- what the controllers
  -- take of Seek.
  pub state_ledger-IsListed :
      ⦃K : Keyed it.Item⦄ (F : IsFaithful it) → IsListed (state_ledger-IsMap db it H F) state_seeker
  state_ledger-IsListed F = record {
    entries = entries;
    seek_entries = λ C prefix cb st c v. seek_entries prefix cb st c v;
    entries_view = entries_view;
    entries_under = λ st prefix v. entries_under st prefix;
  }
