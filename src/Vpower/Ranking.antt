-- ===== src/Vpower/Ranking.antt =====
-- ctrlers/vpower/ctrler_valset.go: the validators that selectValidators takes are those of most power.
use beatoz_go.Base.{
  ℕ, zero, suc, ◌≡◌, ◌∙◌, subst, true, false, none, some, List, [], ◌∷◌, Bool-cases, inl, inr,
  arith,
}
use mathlib.Core.Option.{some-injective}
use beatoz_go.Base.Words.{slt64}
use beatoz_go.Base.Bytes.{Bytes, bytes_eq}
use beatoz_go.Vpower.Chunks.{Delegatee}
use beatoz_go.Vpower.Valset.{power_of, insert, sort, take, less_by_power, select_validators}
use beatoz_go.Vpower.Selection.{Distinct, unlisted, power_of-sort}

-- No power in the list is above the given one.
abbrev pub AtMost : ℕ → List Delegatee → Type 0
AtMost p [] = Unit {0}
AtMost p (d ∷ ds) = (slt64 p d.sum_power ≡ false) × AtMost p ds

abbrev pub Descending : List Delegatee → Type 0
Descending [] = Unit {0}
Descending (d ∷ ds) = AtMost d.sum_power ds × Descending ds

slt64_trans : (a b c : ℕ) → slt64 a b ≡ false → slt64 b c ≡ false → slt64 a c ≡ false
slt64_trans a b c h g = ground arith

first_power : (d e : Delegatee) → less_by_power d e ≡ true → slt64 d.sum_power e.sum_power ≡ false
unfolding less_by_power
first_power d e h = ground arith

after_power : (d e : Delegatee) → less_by_power d e ≡ false → slt64 e.sum_power d.sum_power ≡ false
unfolding less_by_power
after_power d e h = ground arith

AtMost-trans : (p q : ℕ) (ds : List Delegatee) → slt64 p q ≡ false → AtMost q ds → AtMost p ds
AtMost-trans p q [] h a = tt
AtMost-trans p q (d ∷ ds) h (b, a) = (slt64_trans p q d.sum_power h b, AtMost-trans p q ds h a)

AtMost-insert :
    (p : ℕ) (d : Delegatee) (ds : List Delegatee)
    → slt64 p d.sum_power ≡ false
    → AtMost p ds
    → AtMost p (insert less_by_power d ds)
unfolding insert
AtMost-insert p d [] h a = (h, tt)
AtMost-insert p d (e ∷ es) h (g, a) = elim (Bool-cases (less_by_power d e)) [
  | inl first ↦ rw first (h, (g, a))
  | inr after ↦ rw after (g, AtMost-insert p d es h a)
]

Descending-insert :
    (d : Delegatee) (ds : List Delegatee) → Descending ds → Descending (insert less_by_power d ds)
unfolding insert
Descending-insert d [] s = (tt, tt)
Descending-insert d (e ∷ es) (a, s) = elim (Bool-cases (less_by_power d e)) [
  | inl first ↦
      let above = first_power d e first in
      rw first ((above, AtMost-trans d.sum_power e.sum_power es above a), (a, s))
  | inr after ↦
      rw after (AtMost-insert e.sum_power d es (after_power d e after) a, Descending-insert d es s)
]

Descending-sort : (ds : List Delegatee) → Descending (sort less_by_power ds)
unfolding sort
Descending-sort [] = tt
Descending-sort (d ∷ ds) = Descending-insert d (sort less_by_power ds) (Descending-sort ds)

AtMost-power_of :
    (p : ℕ) (k : Bytes) (q : ℕ) (ds : List Delegatee)
    → AtMost p ds
    → power_of k ds ≡ some q
    → slt64 p q ≡ false
unfolding power_of
AtMost-power_of p k q [] a h = cc
AtMost-power_of p k q (d ∷ ds) (b, a) h = elim (Bool-cases (bytes_eq k d.pub_key)) [
  | inl here ↦ subst (λ x. slt64 p x ≡ false) (some-injective d.sum_power q (rw here at h)) b
  | inr absent ↦ AtMost-power_of p k q ds a (rw absent at h)
]

take_top :
    (j k : Bytes) (p q n : ℕ) (ds : List Delegatee)
    → Descending ds
    → power_of j (take n ds) ≡ some p
    → power_of k ds ≡ some q
    → power_of k (take n ds) ≡ none
    → slt64 p q ≡ false
unfolding take power_of
take_top j k p q zero ds s h g out = cc
take_top j k p q (suc n) [] s h g out = cc
take_top j k p q (suc n) (d ∷ ds) (a, s) h g out =
    let (apart, out') = unlisted k d (take n ds) out in
    let g' : power_of k ds ≡ some q = rw apart at g in
    elim (Bool-cases (bytes_eq j d.pub_key)) [
      | inl here ↦
          subst (λ x. slt64 x q ≡ false) (some-injective d.sum_power p (rw here at h))
            (AtMost-power_of d.sum_power k q ds a g')
      | inr absent ↦ take_top j k p q n ds s (rw absent at h) g' out'
    ]

-- Where no two delegatees have one public key, a delegatee that selectValidators leaves out has
-- no more power, as a signed number, than any validator it selects.
pub select_validators_lem :
    (j k : Bytes) (p q max_vals : ℕ) (delegatees : List Delegatee)
    → Distinct delegatees
    → power_of j (select_validators delegatees max_vals).0 ≡ some p
    → power_of k delegatees ≡ some q
    → power_of k (select_validators delegatees max_vals).0 ≡ none
    → slt64 p q ≡ false
unfolding select_validators
select_validators_lem j k p q max_vals delegatees distinct inside listed out =
    take_top j k p q max_vals (sort less_by_power delegatees) (Descending-sort delegatees) inside
      ((power_of-sort less_by_power delegatees distinct).1 k ∙ listed) out
