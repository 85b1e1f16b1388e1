-- ===== src/Ledger/Map/Removal.antt =====
-- The deferred removals of the controllers: keys that a walk has collected are deleted afterwards,
-- on the side for execution, and what Del returns is dropped.
use beatoz_go.Base.{
  ◌≡◌, ◌≢◌, refl, ◌∙◌, Bool, true, false, ◌||◌, Option, none, List, [], ◌∷◌, if◌then◌else◌,
}
use beatoz_go.Base.Bytes.{Bytes, bytes_eq}
use beatoz_go.Ledger.Map.{Store, Keyed, IsMap}

abbrev pub listed : Bytes → List Bytes → Bool
listed j [] = false
listed j (k ∷ ks) = bytes_eq k j || listed j ks

abbrev pub NotEmpty : List Bytes → Type 0
NotEmpty [] = Unit {0}
NotEmpty (k ∷ ks) = (k ≢ []) × NotEmpty ks

module _ {Item : Type 0} where
  -- A view with keys removed.
  abbrev pub drop_view : List Bytes → (Bytes → Option Item) → Bytes → Option Item
  drop_view ks v j = if listed j ks then none else v j

  drop_one :
      (b c : Bool) (o : Option Item)
      → (if c then none else if b then none else o) ≡ (if b || c then none else o)
  drop_one true true o = refl
  drop_one true false o = refl
  drop_one false true o = refl
  drop_one false false o = refl

  module _ (s : Store Item) where
    abbrev pub del_all : List Bytes → s.State → s.State
    del_all [] st = st
    del_all (key ∷ keys) st = del_all keys (s.del key true st).1

    pub del_all_lem :
        ⦃K : Keyed Item⦄ (m : IsMap s) (ks : List Bytes) (st : s.State)
        → NotEmpty ks
        → m.IsValid st
        → m.IsValid (del_all ks st)
          × ((j : Bytes) → m.view (del_all ks st) true j ≡ drop_view ks (m.view st true) j)
          × ((j : Bytes) → m.view (del_all ks st) false j ≡ m.view st false j)
    del_all_lem m [] st ne v = (v, λ j. refl, λ j. refl)
    del_all_lem m (key ∷ ks) st (h, ne) v =
        let (done, v', seen) = m.del_view key true st h v in
        let (v'', on, off) = del_all_lem m ks (s.del key true st).1 ne v' in
        (
          v'',
          λ j. rw (on j, seen true j) (drop_one (bytes_eq key j) (listed j ks) (m.view st true j)),
          λ j. off j ∙ seen false j,
        )
