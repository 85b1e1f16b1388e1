-- ===== src/Ledger/Mutable/Cache.antt =====
-- The object cache of (*MutableLedger): what Get returns, and that it agrees with the tree.
use beatoz_go.Base.{
  ◌≡◌, ◌≢◌, refl, sym, ◌∙◌, subst, inl, inr, ◌⊎◌, Option, none, some, [], ◌∷◌, Result, ok, err,
  panic, ◌>>=◌, not_found_result, Bool-cases, Option-cases, if◌then◌else◌,
}
use mathlib.Core.Option.{some-injective}
use beatoz_go.Base.Bytes.{Bytes, bytes_eq, bytes_eq_sound, or_empty}
use beatoz_go.Ledger.Iavl.{Iavl, Items, IsHealthy, is_some}
use beatoz_go.Ledger.Revisions
use beatoz_go.Ledger.View.{update}
use beatoz_go.Ledger.Mutable.{Ledger, attempt, or_not_found, get_stored, get, set, del}

module _ (it : Items) where
  -- The tree's value `o` at `k` is the one that the object `i` was decoded from or encoded to.
  abbrev pub Backs : Bytes → it.Item → Option Bytes → Type 0
  Backs k i none = ⊥
  Backs k i (some b) = (it.encode i ≡ ok b) ⊎ (it.decode k b ≡ ok i)

module _ (db : Iavl) (it : Items) where
  -- The result of a read depends on what the tree holds, and not on the ledger around it.
  read_result :
      (k : Bytes) (o : Option Bytes) (l l' : Ledger db it)
      → (attempt
          (or_not_found o >>= it.decode k)
          l'
          (λ item. (ok item, record l' { cached = update l'.cached k (some item) }))).0
        ≡ (attempt
            (or_not_found o >>= it.decode k)
            l
            (λ item. (ok item, record l { cached = update l.cached k (some item) }))).0
  read_result k none l l' = refl
  read_result k (some b) l l' = of_decoded (it.decode k b)
    where
      of_decoded :
          (r : Result it.Item)
          → (attempt r l'
              (λ item. (ok item, record l' { cached = update l'.cached k (some item) }))).0
            ≡ (attempt r l
                (λ item. (ok item, record l { cached = update l.cached k (some item) }))).0
      of_decoded (ok i) = refl
      of_decoded (err e) = refl
      of_decoded panic = refl

module _ (db : Iavl) (it : Items) (H : IsHealthy db) where
  -- Every cached object is backed by the tree.
  pub record IsCoherent (l : Ledger db it) : Type 0 where
    pub at : (k : Bytes) (i : it.Item) → l.cached k ≡ some i → Backs it k i (H.view l.tree k)

  -- A write that puts `o` into the tree and `c` into the cache, both at `k`.
  pub update-IsCoherent :
      (k : Bytes) (o : Option Bytes) (c : Option it.Item) (l l' : Ledger db it)
      → IsCoherent l
      → ((j : Bytes) → H.view l'.tree j ≡ (if bytes_eq k j then o else H.view l.tree j))
      → ((j : Bytes) → l'.cached j ≡ update l.cached k c j)
      → ((i : it.Item) → c ≡ some i → Backs it k i o)
      → IsCoherent l'
  update-IsCoherent k o c l l' h w v b = record {
    at = λ j i e. elim (Bool-cases (bytes_eq k j)) [
      | inl same ↦
          subst (Backs it j i) (sym (rw same at (w j))) (
            subst (λ x. Backs it x i o) (bytes_eq_sound k j same)
              (b i (sym (rw same at (v j)) ∙ e)))
      | inr other ↦
          subst (Backs it j i) (sym (rw other at (w j))) (h.at j i (sym (rw other at (v j)) ∙ e))
    ];
  }

  abbrev Written : Bytes → Option it.Item → Option Bytes → Ledger db it → Ledger db it → Type 0
  Written k c o l l' =
      ((j : Bytes) → H.view l'.tree j ≡ (if bytes_eq k j then o else H.view l.tree j))
      × ((j : Bytes) → l'.cached j ≡ update l.cached k c j)

  pub set_ok :
      (k : Bytes) (i : it.Item) (l : Ledger db it) (b : Bytes)
      → k ≢ []
      → it.encode i ≡ ok b
      → (l' : Ledger db it) × (set db it k i l ≡ (ok tt, l')) × Written k (some i) (some b) l l'
  unfolding set
  set_ok [] i l b ne e = absurd (ne refl)
  set_ok (c ∷ cs) i l b ne e =
      let k : Bytes = c ∷ cs in
      let (t', s, w) = H.set_view l.tree k b in
      let quiet : Ledger db it = record {
        tree = t';
        revisions = l.revisions;
        cached = update l.cached k (some i);
      } in
      let logged : Ledger db it = record quiet {
        revisions = Revisions.push l.revisions k (H.view l.tree k);
      } in
      elim (Bool-cases (bytes_eq (or_empty (H.view l.tree k)) b)) [
        | inl same ↦ (quiet, rw (H.get_view l.tree (c ∷ cs), e, s, same) refl, (w, λ j. refl))
        | inr changed ↦
            (logged, rw (H.get_view l.tree (c ∷ cs), e, s, changed) refl, (w, λ j. refl))
      ]

  pub del_ok :
      (k : Bytes) (l : Ledger db it)
      → k ≢ []
      → (l' : Ledger db it) × (del db it k l ≡ (ok tt, l')) × Written k none none l l'
  unfolding del
  del_ok [] l ne = absurd (ne refl)
  del_ok (c ∷ cs) l ne =
      let k : Bytes = c ∷ cs in
      let (t', s, w) = H.remove_view l.tree k in
      let quiet : Ledger db it = record {
        tree = t';
        revisions = l.revisions;
        cached = update l.cached k none;
      } in
      let logged : Ledger db it = record quiet {
        revisions = Revisions.push l.revisions k (H.view l.tree k);
      } in
      elim (Bool-cases (is_some (H.view l.tree k))) [
        | inl present ↦ (logged, rw (s, present) refl, (w, λ j. refl))
        | inr absent ↦ (quiet, rw (s, absent) refl, (w, λ j. refl))
      ]

  -- On a healthy database Set of an item that encodes keeps the cache backed, and so does Del.
  pub set-IsCoherent :
      (k : Bytes) (i : it.Item) (l : Ledger db it) (b : Bytes)
      → k ≢ []
      → it.encode i ≡ ok b
      → IsCoherent l
      → IsCoherent (set db it k i l).1
  set-IsCoherent k i l b ne e h =
      let (l', s, w) = set_ok k i l b ne e in
      rw s (
        update-IsCoherent k (some b) (some i) l l' h w.0 w.1
          (λ i' p. inl (subst (λ x. it.encode x ≡ ok b) (some-injective _ _ p) e)))

  pub del-IsCoherent :
      (k : Bytes) (l : Ledger db it) → k ≢ [] → IsCoherent l → IsCoherent (del db it k l).1
  del-IsCoherent k l ne h =
      let (l', s, w) = del_ok k l ne in
      rw s (update-IsCoherent k none none l l' h w.0 w.1 (λ i p. cc))

  -- What a read of `k` returns, by what the tree holds there.
  abbrev pub Reads : Bytes → Option Bytes → Ledger db it → Result it.Item × Ledger db it → Type 0
  Reads k none l (r, l') = (r ≡ err not_found_result) × (l' ≡ l)
  Reads k (some b) l (r, l') =
      (i : it.Item) × (r ≡ ok i)
      × Backs it k i (some b)
      × (l'.tree ≡ l.tree)
      × (l'.revisions ≡ l.revisions)
      × IsCoherent l'

  stored_found :
      (k : Bytes) (l : Ledger db it) (b : Bytes) (i : it.Item)
      → H.view l.tree k ≡ some b
      → it.decode k b ≡ ok i
      → get_stored db it l k ≡ ok i
  unfolding get_stored
  stored_found k l b i e d = rw (H.get_view l.tree k, e) d

  read_decoded :
      (k : Bytes) (l : Ledger db it) (b : Bytes) (i : it.Item)
      → IsCoherent l
      → H.view l.tree k ≡ some b
      → it.decode k b ≡ ok i
      → IsCoherent (record l { cached = update l.cached k (some i) })
  read_decoded k l b i h e d = record {
    at = λ j i' p. elim (Bool-cases (bytes_eq k j)) [
      | inl same ↦
          subst (λ x. Backs it x i' (H.view l.tree x)) (bytes_eq_sound k j same)
            (subst (Backs it k i') (sym e)
              (inr (subst (λ x. it.decode k b ≡ ok x) (some-injective _ _ (rw same at p)) d)))
      | inr other ↦ h.at j i' (rw other at p)
    ];
  }

  uncached_of_absent :
      (k : Bytes) (l : Ledger db it) → IsCoherent l → H.view l.tree k ≡ none → l.cached k ≡ none
  uncached_of_absent k l h e = elim (Option-cases (l.cached k)) [
    | inl absent ↦ absent
    | inr (i, p) ↦ absurd (subst (Backs it k i) e (h.at k i p))
  ]

  -- From a ledger whose cache is backed and whose entries decode, Get of a key that the tree holds
  -- returns an object that is the entry's, and changes nothing but the cache, which stays backed;
  -- Get of a key that the tree does not hold fails with the missing result and changes nothing.
  pub get-Reads :
      (k : Bytes) (l : Ledger db it)
      → k ≢ []
      → ((b : Bytes) → H.view l.tree k ≡ some b → (i : it.Item) × (it.decode k b ≡ ok i))
      → IsCoherent l
      → Reads k (H.view l.tree k) l (get db it k l)
  unfolding get
  get-Reads [] l ne d h = absurd (ne refl)
  get-Reads (c ∷ cs) l ne d h = elim (Option-cases (H.view l.tree (c ∷ cs))) [
    | inl absent ↦ rw absent (
        rw (uncached_of_absent (c ∷ cs) l h absent, H.get_view l.tree (c ∷ cs), absent, get_stored)
          (refl, refl))
    | inr (b, present) ↦ elim (Option-cases (l.cached (c ∷ cs))) [
      | inl fresh ↦
          let (i, e) = d b present in
          rw present (
            rw (fresh, stored_found (c ∷ cs) l b i present e)
              (i, refl, inr e, refl, refl, read_decoded (c ∷ cs) l b i h present e))
      | inr (i, known) ↦ rw present (
          rw known
            (i, refl, subst (Backs it (c ∷ cs) i) present (h.at (c ∷ cs) i known), refl, refl, h))
    ]
  ]

  get_cached :
      (k : Bytes) (i : it.Item) (l : Ledger db it)
      → k ≢ []
      → l.cached k ≡ some i
      → (get db it k l).0 ≡ ok i
  unfolding get
  get_cached [] i l ne e = absurd (ne refl)
  get_cached (c ∷ cs) i l ne e = rw e refl

  get_absent :
      (k : Bytes) (l : Ledger db it)
      → k ≢ []
      → l.cached k ≡ none
      → H.view l.tree k ≡ none
      → (get db it k l).0 ≡ err not_found_result
  unfolding get
  get_absent [] l ne c e = absurd (ne refl)
  get_absent (c ∷ cs) l ne p e = rw (p, H.get_view l.tree (c ∷ cs), e, get_stored) refl

  -- Get reads nothing but the cache and the tree at its own key.
  get_local :
      (k : Bytes) (l l' : Ledger db it)
      → l'.cached k ≡ l.cached k
      → H.view l'.tree k ≡ H.view l.tree k
      → (get db it k l').0 ≡ (get db it k l).0
  unfolding get get_stored
  get_local [] l l' p q = refl
  get_local (c ∷ cs) l l' p q = elim (Option-cases (l.cached (c ∷ cs))) [
    | inl fresh ↦
        rw (p ∙ fresh, fresh, H.get_view l'.tree (c ∷ cs), H.get_view l.tree (c ∷ cs), q)
          (read_result db it (c ∷ cs) (H.view l.tree (c ∷ cs)) l l')
    | inr (i, known) ↦ rw (p ∙ known, known) refl
  ]

  -- After a Set of an item that encodes, Get of its key returns the very object that was set, and
  -- after a Del the missing result; Get of every other key returns what it returned before.
  pub get-set-del :
      (k j : Bytes) (i : it.Item) (l : Ledger db it) (b : Bytes)
      → k ≢ []
      → it.encode i ≡ ok b
      → ((get db it j (set db it k i l).1).0 ≡ (if bytes_eq k j then ok i else (get db it j l).0))
        × ((get db it j (del db it k l).1).0
            ≡ (if bytes_eq k j then err not_found_result else (get db it j l).0))
  get-set-del k j i l b ne e =
      let (l', s, w) = set_ok k i l b ne e in
      let (m, d, v) = del_ok k l ne in
      rw (s, d)
        (elim (Bool-cases (bytes_eq k j)) [
          | inl same ↦
              let f = bytes_eq_sound k j same in
              let ne' = subst (λ x. x ≢ []) f ne in
              rw same (
                get_cached j i l' ne' (rw same at (w.1 j)),
                get_absent j m ne' (rw same at (v.1 j)) (rw same at (v.0 j)),
              )
          | inr other ↦ rw other (
            get_local j l l' (rw other at (w.1 j)) (rw other at (w.0 j)),
            get_local j l m (rw other at (v.1 j)) (rw other at (v.0 j)),
          )
        ])
