-- ===== src/Ledger/Map/Pair.antt =====
-- A pair of maps in memory, which is a state ledger as its clients see it.
use beatoz_go.Base.{refl, Bool, ◌&&◌, Option, none, some, ok, if◌then◌else◌}
use beatoz_go.Base.Bytes.{Bytes, bytes_eq}
use beatoz_go.Ledger.Map.{Store, Keyed, IsMap, found_or_missing, same_side}

abbrev pub Pair : Type 0 → Type 0
Pair Item = Bool → Bytes → Option Item

abbrev put_pair : {Item : Type 0} → Bytes → Option Item → Bool → Pair Item → Pair Item
put_pair k o x st y j = if same_side x y && bytes_eq k j then o else st y j

abbrev pub pair_store : (Item : Type 0) → Store Item
pair_store Item = record {
  State = Pair Item;
  get = λ k x st. (found_or_missing (st x k), st);
  set = λ k i x st. (ok tt, put_pair k (some i) x st);
  del = λ k x st. (ok tt, put_pair k none x st);
}

abbrev pub pair_store-IsMap : (Item : Type 0) ⦃K : Keyed Item⦄ → IsMap (pair_store Item)
pair_store-IsMap Item = record {
  IsValid = λ st. Unit {0};
  view = λ st. st;
  get_view = λ k x st h v. (refl, tt, λ y j. refl);
  set_view = λ k i x st h f v. (refl, tt, λ y j. refl);
  del_view = λ k x st h v. (refl, tt, λ y j. refl);
}
