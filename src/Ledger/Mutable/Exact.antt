-- ===== src/Ledger/Mutable/Exact.antt =====
-- The object cache of (*MutableLedger), where each object is what its entry decodes to.
use beatoz_go.Base.{
  ◌≡◌, ◌≢◌, refl, sym, ap, ◌∙◌, subst, inl, inr, Option, none, some, [], ◌∷◌, ok, Bool-cases,
  Option-cases, if◌then◌else◌,
}
use mathlib.Core.Option.{some-injective}
use beatoz_go.Base.Bytes.{Bytes, bytes_eq, bytes_eq_sound}
use beatoz_go.Ledger.Iavl.{Iavl, Items, IsHealthy}
use beatoz_go.Ledger.View.{update}
use beatoz_go.Ledger.Mutable.{Ledger, get_stored, get, set, del}
use beatoz_go.Ledger.Mutable.Cache.{set_ok, del_ok}

module _ (db : Iavl) (it : Items) (H : IsHealthy db) where
  -- A cached object is the one that the tree's value under its key decodes to.
  pub record IsExact (l : Ledger db it) : Type 0 where
    pub at :
        (k b : Bytes) (i : it.Item)
        → l.cached k ≡ some i
        → H.view l.tree k ≡ some b
        → it.decode k b ≡ ok i

  update-IsExact :
      (k : Bytes) (o : Option Bytes) (c : Option it.Item) (l l' : Ledger db it)
      → IsExact l
      → ((j : Bytes) → H.view l'.tree j ≡ (if bytes_eq k j then o else H.view l.tree j))
      → ((j : Bytes) → l'.cached j ≡ update l.cached k c j)
      → ((b : Bytes) (i : it.Item) → c ≡ some i → o ≡ some b → it.decode k b ≡ ok i)
      → IsExact l'
  update-IsExact k o c l l' x w v d = record {
    at = λ j b i e f. elim (Bool-cases (bytes_eq k j)) [
      | inl same ↦
          subst (λ y. it.decode y b ≡ ok i) (bytes_eq_sound k j same)
            (d b i (sym (rw same at (v j)) ∙ e) (sym (rw same at (w j)) ∙ f))
      | inr other ↦ x.at j b i (sym (rw other at (v j)) ∙ e) (sym (rw other at (w j)) ∙ f)
    ];
  }

  pub set-IsExact :
      (k : Bytes) (i : it.Item) (l : Ledger db it) (b : Bytes)
      → k ≢ []
      → it.encode i ≡ ok b
      → it.decode k b ≡ ok i
      → IsExact l
      → IsExact (set db it k i l).1
  set-IsExact k i l b ne e d x =
      let (l', s, w) = set_ok db it H k i l b ne e in
      rw s (
        update-IsExact k (some b) (some i) l l' x w.0 w.1 (λ b' i' p q.
          subst (λ y. it.decode k y ≡ ok i') (some-injective _ _ q)
            (d ∙ ap ok (some-injective _ _ p))))

  pub del-IsExact : (k : Bytes) (l : Ledger db it) → k ≢ [] → IsExact l → IsExact (del db it k l).1
  del-IsExact k l ne x =
      let (l', s, w) = del_ok db it H k l ne in
      rw s (update-IsExact k none none l l' x w.0 w.1 (λ b i p q. cc))

  -- Get of a key that the tree holds returns what the value decodes to, from the cache or not.
  pub get_of_entry :
      (k b : Bytes) (i : it.Item) (l : Ledger db it)
      → k ≢ []
      → H.view l.tree k ≡ some b
      → it.decode k b ≡ ok i
      → IsExact l
      → ((get db it k l).0 ≡ ok i) × IsExact (get db it k l).1
  unfolding get get_stored
  get_of_entry [] b i l ne e d x = absurd (ne refl)
  get_of_entry (c ∷ cs) b i l ne e d x = elim (Option-cases (l.cached (c ∷ cs))) [
    | inl fresh ↦
        rw (fresh, H.get_view l.tree (c ∷ cs), e, d) (refl, read-IsExact (c ∷ cs) b i l e d x)
    | inr (i', known) ↦ rw known (sym (x.at (c ∷ cs) b i' known e) ∙ d, x)
  ]
    where
      read-IsExact :
          (k b : Bytes) (i : it.Item) (l : Ledger db it)
          → H.view l.tree k ≡ some b
          → it.decode k b ≡ ok i
          → IsExact l
          → IsExact (record l { cached = update l.cached k (some i) })
      read-IsExact k b i l e d x = record {
        at = λ j b' i' p q. elim (Bool-cases (bytes_eq k j)) [
          | inl same ↦
              let here = bytes_eq_sound k j same in
              let v : some b ≡ some b' = sym e ∙ ap (H.view l.tree) here ∙ q in
              subst (λ y. it.decode y b' ≡ ok i') here
                (subst (λ y. it.decode k y ≡ ok i') (some-injective _ _ v)
                  (d ∙ ap ok (some-injective _ _ (rw same at p))))
          | inr other ↦ x.at j b' i' (rw other at p) q
        ];
      }
