-- ===== src/Gov/Tally.antt =====
-- ctrlers/gov/proposal: the votes of an option, and the recount of its voters.
use beatoz_go.Base.{
  ℕ, zero, suc, ◌<◌, ◌^◌, ◌≡◌, refl, ap, ◌∙◌, false, ◌&&◌, Option, none, some, List, [], ◌∷◌, ok,
  ◌==◌, if◌then◌else◌, Bool-cases, inl, inr, arith, length,
}
use mathlib.Core.Option.{some-injective}
use beatoz_go.Base.Words.{add64}
use beatoz_go.Base.Bytes.{Bytes, bytes_eq}
use beatoz_go.Gov.Proposal.{Voter, VoteOption, is_choice, find_voter, put_voter, at_option}

-- What a voter counts for option `i`.
abbrev pub count : ℕ → Voter → ℕ
count i v = if is_choice v.choice && (v.choice == i) then v.power else 0

-- The recount of option `i`.
unfoldable pub votes_for : ℕ → List Voter → ℕ
votes_for i [] = 0
votes_for i (v ∷ vs) = add64 (count i v) (votes_for i vs)

-- The votes of option `i`.
unfoldable pub votes_at : ℕ → List VoteOption → Option ℕ
votes_at i [] = none
votes_at zero (o ∷ os) = some o.votes
votes_at (suc i) (o ∷ os) = votes_at i os

abbrev pub changed : (ℕ → ℕ) → Option ℕ → Option ℕ
changed g none = none
changed g (some n) = some (g n)

-- The voters but the first with the address.
unfoldable pub others : Bytes → List Voter → List Voter
others addr [] = []
others addr (v ∷ vs) = let rest = others addr vs in if bytes_eq v.address addr then vs else v ∷ rest

abbrev pub FitAll : List Voter → Type 0
FitAll [] = Unit {0}
FitAll (v ∷ vs) = (v.power < 2 ^ 64) × FitAll vs

pub votes_for_fits : (i : ℕ) (vs : List Voter) → votes_for i vs < 2 ^ 64
unfolding votes_for
votes_for_fits i [] = omega arith
votes_for_fits i (v ∷ vs) = omega arith

swap : (a b c : ℕ) → add64 a (add64 b c) ≡ add64 b (add64 a c)
swap a b c = omega arith

-- A found voter's count stands apart from the others'.
pub votes_for-find_voter :
    (i : ℕ) (addr : Bytes) (v : Voter) (vs : List Voter)
    → find_voter addr vs ≡ some v
    → votes_for i vs ≡ add64 (count i v) (votes_for i (others addr vs))
unfolding votes_for find_voter others
votes_for-find_voter i addr v [] e = cc
votes_for-find_voter i addr v (w ∷ vs) e = elim (Bool-cases (bytes_eq w.address addr)) [
  | inl here ↦
      rw here (ap (λ x. add64 (count i x) (votes_for i vs)) (some-injective w v (rw here at e)))
  | inr later ↦
      rw (later, votes_for-find_voter i addr v vs (rw later at e))
        (swap (count i w) (count i v) (votes_for i (others addr vs)))
]

pub votes_for-put_voter :
    (i : ℕ) (addr : Bytes) (v v' : Voter) (vs : List Voter)
    → find_voter addr vs ≡ some v
    → votes_for i (put_voter addr v' vs) ≡ add64 (count i v') (votes_for i (others addr vs))
unfolding votes_for find_voter others put_voter
votes_for-put_voter i addr v v' [] e = cc
votes_for-put_voter i addr v v' (w ∷ vs) e = elim (Bool-cases (bytes_eq w.address addr)) [
  | inl here ↦ rw here refl
  | inr later ↦
      rw (later, votes_for-put_voter i addr v v' vs (rw later at e))
        (swap (count i w) (count i v') (votes_for i (others addr vs)))
]

zero_apart : (i : ℕ) → (zero == suc i) ≡ false
zero_apart i = ground arith

suc_apart : (i : ℕ) → (suc i == zero) ≡ false
suc_apart i = ground arith

suc_same : (k i : ℕ) → (suc k == suc i) ≡ (k == i)
suc_same k i = ground arith

-- A method on one option changes that option's votes.
pub votes_at-at_option :
    (k : ℕ) (f : VoteOption → VoteOption) (g : ℕ → ℕ) (os : List VoteOption)
    → ((o : VoteOption) → (f o).votes ≡ g o.votes)
    → k < length os
    → (os' : List VoteOption) × (at_option k f os ≡ ok os')
      × (length os' ≡ length os)
      × ((i : ℕ) → votes_at i os' ≡ (if k == i then changed g (votes_at i os) else votes_at i os))
unfolding votes_at at_option
votes_at-at_option k f g [] e h = elim (none_below k h) [ ]
  where
    none_below : (k : ℕ) → k < 0 → ⊥
    none_below k h = omega arith
votes_at-at_option zero f g (o ∷ os) e h = (f o ∷ os, refl, refl, at)
  where
    at :
        (i : ℕ)
        → votes_at i (f o ∷ os)
          ≡ (if zero == i then changed g (votes_at i (o ∷ os)) else votes_at i (o ∷ os))
    at zero = ap some (e o)
    at (suc i) = rw (zero_apart i) refl
votes_at-at_option (suc k) f g (o ∷ os) e h =
    let (os', ran, same, moved) = votes_at-at_option k f g os e (omega arith) in
    (o ∷ os', rw (ran, at_option) refl, ap suc same, at os' moved)
  where
    at :
        (os' : List VoteOption)
        → ((i : ℕ) → votes_at i os' ≡ (if k == i then changed g (votes_at i os) else votes_at i os))
        → (i : ℕ)
        → votes_at i (o ∷ os')
          ≡ (if suc k == i then changed g (votes_at i (o ∷ os)) else votes_at i (o ∷ os))
    at os' moved zero = rw (suc_apart k) refl
    at os' moved (suc i) = moved i ∙ rw (suc_same k i) refl
