-- ===== src/Vpower/Selection.antt =====
-- ctrlers/vpower/ctrler_valset.go: sorted lists of delegatees, and the validators that
-- updateValidators announces.
use beatoz_go.Base.{
  ℕ, zero, suc, ◌≡◌, refl, ◌∙◌, Bool, true, false, none, List, [], ◌∷◌, ◌==◌, Bool-cases, inl, inr,
}
use beatoz_go.Base.Bytes.{Bytes, bytes_eq, bytes_lt, bytes_eq_sound, bytes_eq_sym}
use beatoz_go.Vpower.Chunks.{Delegatee}
use beatoz_go.Vpower.Valset.{
  power_of, insert, sort, take, less_by_power, less_by_pub, select_validators, validator_updates,
  update_validators, apply_updates,
}
use beatoz_go.Vpower.Updates.{
  Above, Sorted, Positive, bytes_lt_total, Above-below, apply_updates-diff_validators,
}

-- No public key is listed twice.
abbrev pub Distinct : List Delegatee → Type 0
Distinct [] = Unit {0}
Distinct (d ∷ ds) = (power_of d.pub_key ds ≡ none) × Distinct ds

pub unlisted :
    (k : Bytes) (e : Delegatee) (es : List Delegatee)
    → power_of k (e ∷ es) ≡ none
    → (bytes_eq k e.pub_key ≡ false) × (power_of k es ≡ none)
unfolding power_of
unlisted k e es h = elim (Bool-cases (bytes_eq k e.pub_key)) [
  | inl here ↦ cc (rw here at h)
  | inr absent ↦ (absent, rw absent at h)
]

unlisted_cons :
    (k : Bytes) (e : Delegatee) (es : List Delegatee)
    → bytes_eq k e.pub_key ≡ false
    → power_of k es ≡ none
    → power_of k (e ∷ es) ≡ none
unfolding power_of
unlisted_cons k e es h g = rw (h, g) refl

power_of-insert :
    (less : Delegatee → Delegatee → Bool) (k : Bytes) (d : Delegatee) (ds : List Delegatee)
    → power_of d.pub_key ds ≡ none
    → power_of k (insert less d ds) ≡ power_of k (d ∷ ds)
unfolding insert power_of
power_of-insert less k d [] h = refl
power_of-insert less k d (e ∷ es) h =
    let (apart, later) = unlisted d.pub_key e es h in
    elim (Bool-cases (less d e)) [
      | inl first ↦ rw first refl
      | inr after ↦ elim (Bool-cases (bytes_eq k e.pub_key)) [
        | inl here ↦
            rw
              (
                after,
                here,
                bytes_eq_sound k e.pub_key here,
                bytes_eq_sym e.pub_key d.pub_key,
                apart,
              )
              refl
        | inr absent ↦ rw (after, absent) (power_of-insert less k d es later)
      ]
    ]

power_of-tail :
    (k : Bytes) (d : Delegatee) (ds es : List Delegatee)
    → power_of k ds ≡ power_of k es
    → power_of k (d ∷ ds) ≡ power_of k (d ∷ es)
unfolding power_of
power_of-tail k d ds es e = rw e refl

Distinct-insert :
    (less : Delegatee → Delegatee → Bool) (d : Delegatee) (ds : List Delegatee)
    → power_of d.pub_key ds ≡ none
    → Distinct ds
    → Distinct (insert less d ds)
unfolding insert
Distinct-insert less d [] h a = (h, tt)
Distinct-insert less d (e ∷ es) h (b, a) =
    let (apart, later) = unlisted d.pub_key e es h in
    elim (Bool-cases (less d e)) [
      | inl first ↦ rw first (h, (b, a))
      | inr after ↦ rw after (
        rw (power_of-insert less e.pub_key d es later)
            (unlisted_cons e.pub_key d es (rw (bytes_eq_sym e.pub_key d.pub_key) apart) b),
        Distinct-insert less d es later a,
      )
    ]

-- Sorting keeps what a list of distinct public keys says of each, and keeps them distinct.
pub power_of-sort :
    (less : Delegatee → Delegatee → Bool) (ds : List Delegatee)
    → Distinct ds
    → Distinct (sort less ds) × ((k : Bytes) → power_of k (sort less ds) ≡ power_of k ds)
unfolding sort
power_of-sort less [] a = (tt, λ k. refl)
power_of-sort less (d ∷ ds) (h, a) =
    let (b, same) = power_of-sort less ds a in
    let h' : power_of d.pub_key (sort less ds) ≡ none = rw (same d.pub_key) h in
    (
      Distinct-insert less d (sort less ds) h' b,
      λ k.
          power_of-insert less k d (sort less ds) h' ∙ power_of-tail k d (sort less ds) ds (same k),
    )

Positive-insert :
    (less : Delegatee → Delegatee → Bool) (d : Delegatee) (ds : List Delegatee)
    → (d.sum_power == 0) ≡ false
    → Positive ds
    → Positive (insert less d ds)
unfolding insert
Positive-insert less d [] h p = (h, tt)
Positive-insert less d (e ∷ es) h (q, p) = elim (Bool-cases (less d e)) [
  | inl first ↦ rw first (h, (q, p))
  | inr after ↦ rw after (q, Positive-insert less d es h p)
]

Positive-sort :
    (less : Delegatee → Delegatee → Bool) (ds : List Delegatee)
    → Positive ds
    → Positive (sort less ds)
unfolding sort
Positive-sort less [] p = tt
Positive-sort less (d ∷ ds) (q, p) =
    Positive-insert less d (sort less ds) q (Positive-sort less ds p)

Above-insert :
    (k : Bytes) (d : Delegatee) (ds : List Delegatee)
    → bytes_lt k d.pub_key ≡ true
    → Above k ds
    → Above k (insert less_by_pub d ds)
unfolding insert
Above-insert k d [] h a = (h, tt)
Above-insert k d (e ∷ es) h (g, a) = elim (Bool-cases (less_by_pub d e)) [
  | inl first ↦ rw first (h, (g, a))
  | inr after ↦ rw after (g, Above-insert k d es h a)
]

Sorted-insert :
    (d : Delegatee) (ds : List Delegatee)
    → power_of d.pub_key ds ≡ none
    → Sorted ds
    → Sorted (insert less_by_pub d ds)
unfolding insert less_by_pub
Sorted-insert d [] h s = (tt, tt)
Sorted-insert d (e ∷ es) h (a, s) =
    let (apart, later) = unlisted d.pub_key e es h in
    elim (Bool-cases (bytes_lt d.pub_key e.pub_key)) [
      | inl first ↦ rw first ((first, Above-below d.pub_key e.pub_key es first a), (a, s))
      | inr after ↦ rw after (
        Above-insert e.pub_key d es (bytes_lt_total d.pub_key e.pub_key after apart) a,
        Sorted-insert d es later s,
      )
    ]

Sorted-sort : (ds : List Delegatee) → Distinct ds → Sorted (sort less_by_pub ds)
unfolding sort
Sorted-sort [] a = tt
Sorted-sort (d ∷ ds) (h, a) =
    let (b, same) = power_of-sort less_by_pub ds a in
    Sorted-insert d (sort less_by_pub ds) (rw (same d.pub_key) h) (Sorted-sort ds a)

unlisted-take :
    (k : Bytes) (n : ℕ) (ds : List Delegatee) → power_of k ds ≡ none → power_of k (take n ds) ≡ none
unfolding take power_of
unlisted-take k zero ds h = refl
unlisted-take k (suc n) [] h = refl
unlisted-take k (suc n) (d ∷ ds) h =
    let (apart, later) = unlisted k d ds h in rw (apart, unlisted-take k n ds later) refl

Distinct-take : (n : ℕ) (ds : List Delegatee) → Distinct ds → Distinct (take n ds)
unfolding take
Distinct-take zero ds a = tt
Distinct-take (suc n) [] a = tt
Distinct-take (suc n) (d ∷ ds) (h, a) = (unlisted-take d.pub_key n ds h, Distinct-take n ds a)

Positive-take : (n : ℕ) (ds : List Delegatee) → Positive ds → Positive (take n ds)
unfolding take
Positive-take zero ds a = tt
Positive-take (suc n) [] a = tt
Positive-take (suc n) (d ∷ ds) (h, a) = (h, Positive-take n ds a)

-- For delegatees and last validators in any order, no public key listed twice in either, and no
-- delegatee with power 0: of every public key, applying the updates of updateValidators to the last
-- validators, in their order and with power 0 as a removal, gives what the new validators say.
pub apply_updates-update_validators :
    (k : Bytes) (delegatees last : List Delegatee) (max_vals : ℕ)
    → Distinct delegatees
    → Positive delegatees
    → Distinct last
    → apply_updates k (update_validators delegatees last max_vals).0 (power_of k last)
      ≡ power_of k (update_validators delegatees last max_vals).1
unfolding update_validators validator_updates select_validators
apply_updates-update_validators k delegatees last max_vals distinct positive last_distinct =
    let by_power = sort less_by_power delegatees in
    let selected = take max_vals by_power in
    let selected_distinct =
      Distinct-take max_vals by_power (power_of-sort less_by_power delegatees distinct).0 in
    rw⁻¹ ((power_of-sort less_by_pub last last_distinct).1 k) (
      apply_updates-diff_validators k (sort less_by_pub last) (sort less_by_pub selected)
        (Sorted-sort last last_distinct) (Sorted-sort selected selected_distinct)
        (Positive-sort less_by_pub selected
          (Positive-take max_vals by_power (Positive-sort less_by_power delegatees positive))))
