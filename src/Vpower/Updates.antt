-- ===== src/Vpower/Updates.antt =====
-- ctrlers/vpower/ctrler_valset.go: what the updates of the validator set do to the last set.
use beatoz_go.Base.{
  ℕ, ◌≡◌, refl, sym, subst, true, false, Option, none, some, List, [], ◌∷◌, ◌==◌, Bool-cases, inl,
  inr, arith,
}
use beatoz_go.Base.Bytes.{Bytes, bytes_eq, bytes_lt, bytes_eq_sound}
use beatoz_go.Vpower.Chunks.{Delegatee}
use beatoz_go.Vpower.Valset.{removal_of, update_of, diff_validators, power_of, apply_updates}

bytes_lt_trans : (a b c : Bytes) → bytes_lt a b ≡ true → bytes_lt b c ≡ true → bytes_lt a c ≡ true
unfolding bytes_lt
bytes_lt_trans a [] c h g = cc
bytes_lt_trans a (y ∷ ys) [] h g = cc
bytes_lt_trans [] (y ∷ ys) (z ∷ zs) h g = refl
bytes_lt_trans (x ∷ xs) (y ∷ ys) (z ∷ zs) h g = ground (arith, bytes_lt_trans xs ys zs)

bytes_lt_neq : (a b : Bytes) → bytes_lt a b ≡ true → bytes_eq a b ≡ false
unfolding bytes_lt bytes_eq
bytes_lt_neq a [] h = cc
bytes_lt_neq [] (y ∷ ys) h = refl
bytes_lt_neq (x ∷ xs) (y ∷ ys) h = ground (arith, bytes_lt_neq xs ys)

pub bytes_lt_total :
    (a b : Bytes) → bytes_lt a b ≡ false → bytes_eq a b ≡ false → bytes_lt b a ≡ true
unfolding bytes_lt bytes_eq
bytes_lt_total [] [] h g = cc
bytes_lt_total (x ∷ xs) [] h g = refl
bytes_lt_total [] (y ∷ ys) h g = cc
bytes_lt_total (x ∷ xs) (y ∷ ys) h g = ground (arith, bytes_lt_total xs ys)

-- The public keys of a list are all above one.
abbrev pub Above : Bytes → List Delegatee → Type 0
Above k [] = Unit {0}
Above k (d ∷ ds) = (bytes_lt k d.pub_key ≡ true) × Above k ds

-- The list is in ascending order of public keys, none twice.
abbrev pub Sorted : List Delegatee → Type 0
Sorted [] = Unit {0}
Sorted (d ∷ ds) = Above d.pub_key ds × Sorted ds

abbrev pub Positive : List Delegatee → Type 0
Positive [] = Unit {0}
Positive (d ∷ ds) = ((d.sum_power == 0) ≡ false) × Positive ds

pub Above-below :
    (j k : Bytes) (ds : List Delegatee) → bytes_lt j k ≡ true → Above k ds → Above j ds
Above-below j k [] h a = tt
Above-below j k (d ∷ ds) h (b, a) = (bytes_lt_trans j k d.pub_key h b, Above-below j k ds h a)

power_of-Above : (k : Bytes) (ds : List Delegatee) → Above k ds → power_of k ds ≡ none
unfolding power_of
power_of-Above k [] a = refl
power_of-Above k (d ∷ ds) (b, a) = rw (bytes_lt_neq k d.pub_key b, power_of-Above k ds a) refl

untouched :
    (k : Bytes) (last new : List Delegatee) (old : Option ℕ)
    → Above k last
    → Above k new
    → apply_updates k (diff_validators last new) old ≡ old
unfolding diff_validators apply_updates
untouched k [] [] old a b = refl
untouched k (l ∷ last) [] old (h, a) b =
    rw (diff_validators, apply_updates, bytes_lt_neq k l.pub_key h) (untouched k last [] old a b)
untouched k [] (n ∷ new) old a (h, b) =
    rw (diff_validators, apply_updates, bytes_lt_neq k n.pub_key h) (untouched k [] new old a b)
untouched k (l ∷ last) (n ∷ new) old (h, a) (g, b) =
    elim (Bool-cases (bytes_lt l.pub_key n.pub_key)) [
      | inl less ↦
          rw (diff_validators, apply_updates, less, bytes_lt_neq k l.pub_key h)
            (untouched k last (n ∷ new) old a (g, b))
      | inr not_less ↦ elim (Bool-cases (bytes_eq l.pub_key n.pub_key)) [
        | inl same ↦ elim (Bool-cases (l.sum_power == n.sum_power)) [
          | inl kept ↦
              rw (diff_validators, apply_updates, not_less, same, kept)
                (untouched k last new old a b)
          | inr moved ↦
              rw (diff_validators, apply_updates, not_less, same, moved, bytes_lt_neq k n.pub_key g)
                (untouched k last new old a b)
        ]
        | inr other ↦
            rw (diff_validators, apply_updates, not_less, other, bytes_lt_neq k n.pub_key g)
              (untouched k (l ∷ last) new old (h, a) b)
      ]
    ]

Above-same : (j k : Bytes) (ds : List Delegatee) → bytes_eq k j ≡ true → Above j ds → Above k ds
Above-same j k ds e a = subst (λ x. Above x ds) (sym (bytes_eq_sound k j e)) a

settled :
    (k : Bytes) (last new : List Delegatee)
    → Above k last
    → Above k new
    → apply_updates k (diff_validators last new) none ≡ power_of k new
settled k last new a b = rw (power_of-Above k new b) (untouched k last new none a b)

removed :
    (k : Bytes) (l : Delegatee) (last new : List Delegatee)
    → Above l.pub_key last
    → Above l.pub_key new
    → apply_updates k (diff_validators last new) (power_of k last) ≡ power_of k new
    → apply_updates k (removal_of l ∷ diff_validators last new) (power_of k (l ∷ last))
      ≡ power_of k new
unfolding apply_updates power_of
removed k l last new a b ih = elim (Bool-cases (bytes_eq k l.pub_key)) [
  | inl here ↦
      rw (apply_updates, power_of, here)
        (settled k last new (Above-same l.pub_key k last here a)
          (Above-same l.pub_key k new here b))
  | inr absent ↦ rw (apply_updates, power_of, absent) ih
]

added :
    (k : Bytes) (n : Delegatee) (last new : List Delegatee)
    → Above n.pub_key last
    → Above n.pub_key new
    → (n.sum_power == 0) ≡ false
    → apply_updates k (diff_validators last new) (power_of k last) ≡ power_of k new
    → apply_updates k (update_of n ∷ diff_validators last new) (power_of k last)
      ≡ power_of k (n ∷ new)
unfolding apply_updates power_of
added k n last new a b q ih = elim (Bool-cases (bytes_eq k n.pub_key)) [
  | inl here ↦
      rw (apply_updates, power_of, here, q)
        (untouched k last new (some n.sum_power) (Above-same n.pub_key k last here a)
          (Above-same n.pub_key k new here b))
  | inr absent ↦ rw (apply_updates, power_of, absent) ih
]

-- Two entries with one public key, whether the power is sent again or not.
changed :
    (k : Bytes) (l n : Delegatee) (last new : List Delegatee)
    → bytes_eq l.pub_key n.pub_key ≡ true
    → Above l.pub_key last
    → Above n.pub_key new
    → (n.sum_power == 0) ≡ false
    → apply_updates k (diff_validators last new) (power_of k last) ≡ power_of k new
    → apply_updates k (update_of n ∷ diff_validators last new) (power_of k (l ∷ last))
      ≡ power_of k (n ∷ new)
unfolding apply_updates power_of
changed k l n last new e a b q ih = elim (Bool-cases (bytes_eq k n.pub_key)) [
  | inl here ↦
      rw (apply_updates, power_of, here, q)
        (untouched k last new (some n.sum_power)
          (Above-same l.pub_key k last (rw (bytes_eq_sound l.pub_key n.pub_key e) here) a)
          (Above-same n.pub_key k new here b))
  | inr absent ↦ rw (apply_updates, power_of, bytes_eq_sound l.pub_key n.pub_key e, absent) ih
]

kept :
    (k : Bytes) (l n : Delegatee) (last new : List Delegatee)
    → bytes_eq l.pub_key n.pub_key ≡ true
    → l.sum_power ≡ n.sum_power
    → Above l.pub_key last
    → Above n.pub_key new
    → apply_updates k (diff_validators last new) (power_of k last) ≡ power_of k new
    → apply_updates k (diff_validators last new) (power_of k (l ∷ last)) ≡ power_of k (n ∷ new)
unfolding apply_updates power_of
kept k l n last new e same a b ih = elim (Bool-cases (bytes_eq k n.pub_key)) [
  | inl here ↦
      rw (power_of, bytes_eq_sound l.pub_key n.pub_key e, here, same)
        (untouched k last new (some n.sum_power)
          (Above-same l.pub_key k last (rw (bytes_eq_sound l.pub_key n.pub_key e) here) a)
          (Above-same n.pub_key k new here b))
  | inr absent ↦ rw (power_of, bytes_eq_sound l.pub_key n.pub_key e, absent) ih
]

-- For two lists of validators in ascending order of public keys, none twice, the new ones with a
-- power that is not 0, applying the updates to the last list gives the new one: of every public key.
pub apply_updates-diff_validators :
    (k : Bytes) (last new : List Delegatee)
    → Sorted last
    → Sorted new
    → Positive new
    → apply_updates k (diff_validators last new) (power_of k last) ≡ power_of k new
unfolding diff_validators apply_updates power_of
apply_updates-diff_validators k [] [] s t p = refl
apply_updates-diff_validators k (l ∷ last) [] (a, s) t p =
    removed k l last [] a tt (apply_updates-diff_validators k last [] s t p)
apply_updates-diff_validators k [] (n ∷ new) s (b, t) (q, p) =
    added k n [] new tt b q (apply_updates-diff_validators k [] new s t p)
apply_updates-diff_validators k (l ∷ last) (n ∷ new) (a, s) (b, t) (q, p) =
    elim (Bool-cases (bytes_lt l.pub_key n.pub_key)) [
      | inl less ↦
          rw (diff_validators, less)
            (removed k l last (n ∷ new) a (less, Above-below l.pub_key n.pub_key new less b)
              (apply_updates-diff_validators k last (n ∷ new) s (b, t) (q, p)))
      | inr not_less ↦ elim (Bool-cases (bytes_eq l.pub_key n.pub_key)) [
        | inl same ↦
            let ih = apply_updates-diff_validators k last new s t p in
            elim (Bool-cases (l.sum_power == n.sum_power)) [
              | inl still ↦
                  rw (diff_validators, not_less, same, still)
                    (kept k l n last new same (ground (arith, still)) a b ih)
              | inr moved ↦
                  rw (diff_validators, not_less, same, moved) (changed k l n last new same a b q ih)
            ]
        | inr other ↦
            let greater = bytes_lt_total l.pub_key n.pub_key not_less other in
            rw (diff_validators, not_less, other)
              (added k n (l ∷ last) new (greater, Above-below n.pub_key l.pub_key last greater a) b
                q (apply_updates-diff_validators k (l ∷ last) new (a, s) t p))
      ]
    ]
