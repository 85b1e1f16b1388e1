-- ===== src/Vpower/Valset.antt =====
-- ctrlers/vpower/ctrler_valset.go and the orders of delegatee.go: the selection of the validators
-- and the updates of their set. A power is an int64's bit pattern. A function that sorts its
-- argument in place returns the sorted list too.
use beatoz_go.Base.{
  ℕ, zero, suc, Bool, true, false, not, Option, none, some, List, [], ◌∷◌, ◌==◌, if◌then◌else◌,
}
use beatoz_go.Base.Words.{slt64}
use beatoz_go.Base.Bytes.{Bytes, bytes_eq, bytes_lt}
use beatoz_go.Vpower.Chunks.{Delegatee}

-- The arguments of abcitypes.UpdateValidator, a call of the consensus engine's library.
pub record ValidatorUpdate : Type 0 where
  pub pub_key : Bytes
  pub power : ℕ

abbrev pub removal_of : Delegatee → ValidatorUpdate
removal_of d = record { pub_key = d.pub_key; power = 0 }

abbrev pub update_of : Delegatee → ValidatorUpdate
update_of d = record { pub_key = d.pub_key; power = d.sum_power }

-- OrderByPowerDelegatees.Less, of two elements.
unfoldable pub less_by_power : Delegatee → Delegatee → Bool
less_by_power a b =
    if not (a.sum_power == b.sum_power)
    then slt64 b.sum_power a.sum_power
    else if not (a.self_power == b.self_power)
    then slt64 b.self_power a.self_power
    else bytes_lt a.pub_key b.pub_key

-- OrderByPubDelegatees.Less, of two elements.
unfoldable pub less_by_pub : Delegatee → Delegatee → Bool
less_by_pub a b = bytes_lt a.pub_key b.pub_key

-- sort.Sort of Go's library for an order. Where no two elements have one public key, both orders
-- above have one sorted list only, so that any sorting algorithm returns it.
unfoldable pub insert : (Delegatee → Delegatee → Bool) → Delegatee → List Delegatee → List Delegatee
insert less d [] = d ∷ []
insert less d (e ∷ es) = let rest = insert less d es in if less d e then d ∷ e ∷ es else e ∷ rest

unfoldable pub sort : (Delegatee → Delegatee → Bool) → List Delegatee → List Delegatee
sort less [] = []
sort less (d ∷ ds) = insert less d (sort less ds)

-- A copy of the first n elements, or of all where there are fewer.
unfoldable pub take : ℕ → List Delegatee → List Delegatee
take zero ds = []
take (suc n) [] = []
take (suc n) (d ∷ ds) = d ∷ take n ds

-- selectValidators: the validators selected and the delegatees, sorted.
unfoldable pub select_validators : List Delegatee → ℕ → List Delegatee × List Delegatee
select_validators delegatees max_vals =
    let sorted = sort less_by_power delegatees in (take max_vals sorted, sorted)

-- The loops of validatorUpdates, over two sorted lists.
unfoldable pub diff_validators : List Delegatee → List Delegatee → List ValidatorUpdate
diff_validators [] [] = []
diff_validators (l ∷ last) [] = removal_of l ∷ diff_validators last []
diff_validators [] (n ∷ new) = update_of n ∷ diff_validators [] new
diff_validators (l ∷ last) (n ∷ new) = elim (bytes_lt l.pub_key n.pub_key) [
  | true ↦ removal_of l ∷ diff_validators last (n ∷ new)
  | false ↦ elim (bytes_eq l.pub_key n.pub_key) [
    | true ↦ elim (l.sum_power == n.sum_power) [
      | true ↦ diff_validators last new
      | false ↦ update_of n ∷ diff_validators last new
    ]
    | false ↦ update_of n ∷ diff_validators (l ∷ last) new
  ]
]

-- validatorUpdates: the updates, and both lists, sorted.
unfoldable pub validator_updates :
    List Delegatee → List Delegatee → List ValidatorUpdate × List Delegatee × List Delegatee
validator_updates last_vals new_vals =
    let last = sort less_by_pub last_vals in
    let new = sort less_by_pub new_vals in (diff_validators last new, last, new)

-- updateValidators: the updates and the new validators, in the order validatorUpdates leaves.
unfoldable pub update_validators :
    List Delegatee → List Delegatee → ℕ → List ValidatorUpdate × List Delegatee
update_validators delegatees last max_vals =
    let (new_vals, sorted) = select_validators delegatees max_vals in
    let (ups, last', new) = validator_updates last new_vals in (ups, new)

-- What a list of validators says of a public key.
unfoldable pub power_of : Bytes → List Delegatee → Option ℕ
power_of k [] = none
power_of k (d ∷ ds) =
    let rest = power_of k ds in if bytes_eq k d.pub_key then some d.sum_power else rest

-- The consensus engine applies the updates one after the other; power 0 removes a validator.
unfoldable pub apply_updates : Bytes → List ValidatorUpdate → Option ℕ → Option ℕ
apply_updates k [] old = old
apply_updates k (u ∷ us) old =
    apply_updates k us
      (if bytes_eq k u.pub_key then (if u.power == 0 then none else some u.power) else old)
