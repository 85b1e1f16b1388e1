-- ===== src/Ledger/Map/Implementation.antt =====
-- The state ledger over a healthy tree is a pair of maps, for items under keys under which their
-- encodings decode to them.
use beatoz_go.Base.{
  ◌≡◌, ◌≢◌, refl, sym, ap, ◌∙◌, subst, inl, inr, Bool, true, false, ◌&&◌, Option, none, some, [],
  Result, ok, err, panic, Status, Bool-cases, Option-cases, if◌then◌else◌,
}
use mathlib.Core.Option.{some-injective}
use beatoz_go.Base.Bytes.{Bytes, bytes_eq, bytes_eq_sound}
use beatoz_go.Ledger.Iavl.{Iavl, Items, IsHealthy}
use beatoz_go.Ledger.View.{update_all}
use beatoz_go.Ledger.Mutable
use beatoz_go.Ledger.Mutable.Restore.{Decodes}
use beatoz_go.Ledger.Mutable.Cache.{
  IsCoherent, Reads, set_ok, del_ok, set-IsCoherent, del-IsCoherent, get-Reads,
}
use beatoz_go.Ledger.Mutable.Exact.{IsExact, set-IsExact, del-IsExact, get_of_entry}
use beatoz_go.Ledger.Mem
use beatoz_go.Ledger.Mem.History.{set-Shows, del-Shows, find_raw_bytes_lem}
use beatoz_go.Ledger.Mem.History
use beatoz_go.Ledger.State
use beatoz_go.Ledger.State.{StateLedger}
use beatoz_go.Ledger.Map.{Store, Keyed, IsMap, found_or_missing, same_side}

-- Every item has an encoding, which decodes to it under the keys where it belongs.
pub record IsFaithful (it : Items) ⦃K : Keyed it.Item⦄ : Type 0 where
  pub encodes : (i : it.Item) → (b : Bytes) × (it.encode i ≡ ok b)
  pub decode_encode :
      (k : Bytes) (i : it.Item) (b : Bytes) → K.fits k i → it.encode i ≡ ok b → it.decode k b ≡ ok i

abbrev pub state_store : (db : Iavl) (it : Items) → Store it.Item
state_store db it = record {
  State = StateLedger db it;
  get = State.get db it;
  set = State.set db it;
  del = State.del db it;
}

abbrev pub of_result {ℓ} : {A : Type ℓ} → Result A → Option A
of_result (ok a) = some a
of_result (err e) = none
of_result panic = none

abbrev pub decoded : (it : Items) → Bytes → Option Bytes → Option it.Item
decoded it k none = none
decoded it k (some b) = of_result (it.decode k b)

module _ (db : Iavl) (it : Items) (H : IsHealthy db) where
  pub record IsValid (st : StateLedger db it) : Type 0 where
    pub coherent : IsCoherent db it H st.commit_ledger
    pub exact : IsExact db it H st.commit_ledger
    pub opened : History.IsOpened db it H st.imitable_ledger
    pub readable : (k : Bytes) → Decodes it k (H.view st.commit_ledger.tree k)
    pub checked : (k : Bytes) → Decodes it k (History.view db it H st.imitable_ledger k)

  abbrev pub view : StateLedger db it → Bool → Bytes → Option it.Item
  view st true k = decoded it k (H.view st.commit_ledger.tree k)
  view st false k = decoded it k (History.view db it H st.imitable_ledger k)

  -- An entry that is replaced by what `o` decodes to.
  decoded-update :
      (k j : Bytes) (o p q : Option Bytes) (a : Option it.Item)
      → q ≡ (if bytes_eq k j then o else p)
      → decoded it k o ≡ a
      → decoded it j q ≡ (if bytes_eq k j then a else decoded it j p)
  decoded-update k j o p q a e d = elim (Bool-cases (bytes_eq k j)) [
    | inl same ↦ rw same (
        ap (decoded it j) (rw same at e)
        ∙ subst (λ x. decoded it x o ≡ a) (bytes_eq_sound k j same) d)
    | inr other ↦ rw other (ap (decoded it j) (rw other at e))
  ]

  -- A read of the committed ledger changes its cache only.
  keep_commit :
      (st : StateLedger db it) (l : Mutable.Ledger db it)
      → IsValid st
      → l.tree ≡ st.commit_ledger.tree
      → IsCoherent db it H l
      → IsExact db it H l
      → IsValid (record st { commit_ledger = l })
        × ((y : Bool) (j : Bytes) → view (record st { commit_ledger = l }) y j ≡ view st y j)
  keep_commit st l v e c x = (
    record {
      coherent = c;
      exact = x;
      opened = v.opened;
      readable = λ k. subst (λ t. Decodes it k (H.view t k)) (sym e) (v.readable k);
      checked = v.checked;
    },
    same,
  )
    where
      same : (y : Bool) (j : Bytes) → view (record st { commit_ledger = l }) y j ≡ view st y j
      same true j = ap (λ t. decoded it j (H.view t j)) e
      same false j = refl

  item_at :
      (k : Bytes) (o : Option Bytes)
      → Decodes it k o
      → (b : Bytes) → o ≡ some b
      → (i : it.Item) × (it.decode k b ≡ ok i)
  item_at k none d b e = cc
  item_at k (some b') d b e =
      subst (λ x. (i : it.Item) × (it.decode k x ≡ ok i)) (some-injective _ _ e) d

  abbrev pub ReadsLike :
      StateLedger db it → Bool → Bytes → Result it.Item × StateLedger db it → Type 0
  ReadsLike st x k (r, st') =
      (r ≡ found_or_missing (view st x k))
      × IsValid st'
      × ((y : Bool) (j : Bytes) → view st' y j ≡ view st y j)

  get_true :
      (k : Bytes) (st : StateLedger db it)
      → k ≢ []
      → IsValid st
      → ReadsLike st true k (State.get db it k true st)
  unfolding State.get
  get_true k st ne v =
      let l : Mutable.Ledger db it = st.commit_ledger in
      let d = item_at k (H.view l.tree k) (v.readable k) in
      let reads = get-Reads db it H k l ne d v.coherent in
      let l' : Mutable.Ledger db it = (Mutable.get db it k l).1 in
      elim (Option-cases (H.view l.tree k)) [
        | inl absent ↦
            let (r, same) = subst (λ o. Reads db it H k o l (Mutable.get db it k l)) absent reads in
            let (valid, views) =
              keep_commit st l' v (ap (λ (m : Mutable.Ledger db it). m.tree) same)
                (subst (IsCoherent db it H) (sym same) v.coherent)
                (subst (IsExact db it H) (sym same) v.exact) in
            (r ∙ ap (λ o. found_or_missing (decoded it k o)) (sym absent), valid, views)
        | inr (b, present) ↦
            let (i, decodes) = d b present in
            let (r, x) = get_of_entry db it H k b i l ne present decodes v.exact in
            let (_, _, _, same, revs, c) =
              subst (λ o. Reads db it H k o l (Mutable.get db it k l)) present reads in
            let (valid, views) = keep_commit st l' v same c x in
            (
              r
                  ∙ ap (λ x. found_or_missing (of_result x)) (sym decodes)
                  ∙ ap (λ o. found_or_missing (decoded it k o)) (sym present),
              valid,
              views,
            )
      ]

  get_false :
      (k : Bytes) (st : StateLedger db it)
      → k ≢ []
      → IsValid st
      → ReadsLike st false k (State.get db it k false st)
  unfolding State.get Mem.get
  get_false k st ne v =
      let l : Mem.Ledger db it = st.imitable_ledger in
      let o = History.view db it H l k in
      elim (Option-cases (History.view db it H l k)) [
        | inl absent ↦
            (rw (find_raw_bytes_lem db it H k l v.opened ne, absent) refl, v, λ y j. refl)
        | inr (b, present) ↦
            let (i, d) = item_at k (History.view db it H l k) (v.checked k) b present in
            (rw (find_raw_bytes_lem db it H k l v.opened ne, present, d) refl, v, λ y j. refl)
      ]

  abbrev pub Updates :
      StateLedger db it → Bool → Bytes → Option it.Item → Status × StateLedger db it → Type 0
  Updates st x k a (r, st') =
      (r ≡ ok tt)
      × IsValid st'
      × ((y : Bool) (j : Bytes)
          → view st' y j ≡ (if same_side x y && bytes_eq k j then a else view st y j))

  update_commit :
      (k : Bytes) (o : Option Bytes) (a : Option it.Item) (st : StateLedger db it)
      (l : Mutable.Ledger db it)
      → IsValid st
      → IsCoherent db it H l
      → IsExact db it H l
      → Decodes it k o
      → decoded it k o ≡ a
      → ((j : Bytes)
          → H.view l.tree j ≡ (if bytes_eq k j then o else H.view st.commit_ledger.tree j))
      → Updates st true k a (ok tt, record st { commit_ledger = l })
  update_commit k o a st l v c x d e w = (
    refl,
    record {
      coherent = c;
      exact = x;
      opened = v.opened;
      readable = λ j.
          update_all (Decodes it) (H.view st.commit_ledger.tree) (H.view l.tree) k o j (w j) d
            (v.readable j);
      checked = v.checked;
    },
    views,
  )
    where
      views :
          (y : Bool) (j : Bytes)
          → view (record st { commit_ledger = l }) y j
            ≡ (if same_side true y && bytes_eq k j then a else view st y j)
      views true j =
          decoded-update k j o (H.view st.commit_ledger.tree j) (H.view l.tree j) a (w j) e
      views false j = refl

  update_imitable :
      (k : Bytes) (o : Option Bytes) (a : Option it.Item) (st : StateLedger db it)
      (l : Mem.Ledger db it)
      → IsValid st
      → l.immu_tree ≡ st.imitable_ledger.immu_tree
      → Decodes it k o
      → decoded it k o ≡ a
      → ((j : Bytes)
          → History.view db it H l j
            ≡ (if bytes_eq k j then o else History.view db it H st.imitable_ledger j))
      → Updates st false k a (ok tt, record st { imitable_ledger = l })
  update_imitable k o a st l v tree d e w = (
    refl,
    record {
      coherent = v.coherent;
      exact = v.exact;
      opened = ap db.is_nil tree ∙ v.opened;
      readable = v.readable;
      checked = λ j.
          update_all (Decodes it) (History.view db it H st.imitable_ledger) (History.view db it H l)
            k o j (w j) d (v.checked j);
    },
    views,
  )
    where
      views :
          (y : Bool) (j : Bytes)
          → view (record st { imitable_ledger = l }) y j
            ≡ (if same_side false y && bytes_eq k j then a else view st y j)
      views true j = refl
      views false j =
          decoded-update k j o (History.view db it H st.imitable_ledger j)
            (History.view db it H l j) a (w j) e

  pub set_lem :
      (k : Bytes) (i : it.Item) (x : Bool) (st : StateLedger db it) (b : Bytes)
      → k ≢ []
      → it.encode i ≡ ok b
      → it.decode k b ≡ ok i
      → IsValid st
      → Updates st x k (some i) (State.set db it k i x st)
  unfolding State.set
  set_lem k i true st b ne e d v =
      let (l, s, w) = set_ok db it H k i st.commit_ledger b ne e in
      let c =
        subst (IsCoherent db it H) (ap (λ r. r.1) s)
          (set-IsCoherent db it H k i st.commit_ledger b ne e v.coherent) in
      let exact =
        subst (IsExact db it H) (ap (λ r. r.1) s)
          (set-IsExact db it H k i st.commit_ledger b ne e d v.exact) in
      rw s (update_commit k (some b) (some i) st l v c exact (i, d) (ap of_result d) (w.0))
  set_lem k i false st b ne e d v =
      let (r, w, tree) = set-Shows db it H k i st.imitable_ledger b v.opened ne e in
      let l : Mem.Ledger db it = (Mem.set db it k i st.imitable_ledger).1 in
      let (_, valid, views) =
        update_imitable k (some b) (some i) st l v tree (i, d) (ap of_result d) w in
      (r, valid, views)

  pub del_lem :
      (k : Bytes) (x : Bool) (st : StateLedger db it)
      → k ≢ []
      → IsValid st
      → Updates st x k none (State.del db it k x st)
  unfolding State.del
  del_lem k true st ne v =
      let (l, s, w) = del_ok db it H k st.commit_ledger ne in
      let c =
        subst (IsCoherent db it H) (ap (λ r. r.1) s)
          (del-IsCoherent db it H k st.commit_ledger ne v.coherent) in
      let exact =
        subst (IsExact db it H) (ap (λ r. r.1) s)
          (del-IsExact db it H k st.commit_ledger ne v.exact) in
      rw s (update_commit k none none st l v c exact tt refl (w.0))
  del_lem k false st ne v =
      let (r, w, tree) = del-Shows db it H k st.imitable_ledger ne in
      let l : Mem.Ledger db it = (Mem.del db it k st.imitable_ledger).1 in
      let (_, valid, views) = update_imitable k none none st l v tree tt refl w in (r, valid, views)

  pub get_lem :
      (k : Bytes) (x : Bool) (st : StateLedger db it)
      → k ≢ []
      → IsValid st
      → ReadsLike st x k (State.get db it k x st)
  get_lem k true st ne v = get_true k st ne v
  get_lem k false st ne v = get_false k st ne v

  -- The state ledger is a pair of maps. From a ledger that is open for checking, whose entries decode
  -- and whose cached objects are what the tree's entries decode to, and whose tree its database
  -- serves, on either side and for a key of a byte or more: Get returns the entry, or the missing
  -- result, and changes neither map; Set of an item that encodes, and whose encoding decodes to it
  -- under that key, succeeds and changes that side's one entry to the item; Del succeeds and removes
  -- that side's one entry; each leaves a ledger of the same kind.
  pub state_ledger_is_map :
      (k : Bytes) (i : it.Item) (x : Bool) (st : StateLedger db it) (b : Bytes)
      → k ≢ []
      → it.encode i ≡ ok b
      → it.decode k b ≡ ok i
      → IsValid st
      → ReadsLike st x k (State.get db it k x st)
        × Updates st x k (some i) (State.set db it k i x st)
        × Updates st x k none (State.del db it k x st)
  state_ledger_is_map k i x st b ne e d v =
      (get_lem k x st ne v, set_lem k i x st b ne e d v, del_lem k x st ne v)

  abbrev pub state_ledger-IsMap : ⦃K : Keyed it.Item⦄ → IsFaithful it → IsMap (state_store db it)
  state_ledger-IsMap F = record {
    IsValid = IsValid;
    view = view;
    get_view = get_lem;
    set_view = λ k i x st ne f v.
        let (b, e) = F.encodes i in set_lem k i x st b ne e (F.decode_encode k i b f e) v;
    del_view = del_lem;
  }
