-- ===== src/Gov/Settle.antt =====
-- ctrlers/gov/proposal: the tallies of a proposal through the parts of DoSlash.
use beatoz_go.Base.{
  ℕ, ◌-◌, ◌*◌, ◌/◌, ◌≤◌, ◌<◌, ◌^◌, ◌≡◌, refl, sym, ap, ◌∙◌, Bool, true, false, ◌||◌, Option, none,
  some, List, [], ◌∷◌, Result, ok, ◌==◌, if◌then◌else◌, Bool-cases, inl, inr, arith, length,
}
use native.Mathlib.Nat.{mul-le-mul_left}
use beatoz_go.Base.Words.{add64, mul64, div64_exact, from_int32, sle64}
use beatoz_go.Base.Bytes.{Bytes, bytes_eq}
use beatoz_go.Gov.Proposal.{
  Voter, VoteOption, is_choice, find_voter, is_voter, put_voter, remove_voter, slash_of,
  settle_voter, majority_of,
}
use beatoz_go.Gov.Tally.{
  others, changed, votes_at, count, votes_for, votes_for-put_voter, votes_for_fits,
}
use beatoz_go.Gov.Voting.{IsRecount, IsWithout, do_vote_of-IsRecount}
use beatoz_go.Gov.Invariant.{All, All-put_voter, find_voter-put_voter}

-- The power that a slash takes, where no product wraps.
abbrev pub slashed : ℕ → ℕ → ℕ
slashed power rate = if power * rate / 100 == 0 then power else power * rate / 100

pub slash_exact :
    (power rate : ℕ)
    → 0 < power
    → power < 2 ^ 56
    → rate ≤ 100
    → (slash_of power rate ≡ ok (slashed power rate)) × (slashed power rate ≤ power)
unfolding slash_of
slash_exact power rate pos h hr =
    let small = mul-le-mul_left power hr in
    let product : mul64 power (from_int32 rate) ≡ power * rate = product_exact small in
    let divided =
      div64_exact (power * rate) 100 (omega (arith, small)) (omega arith) (omega arith) in
    (
      rw (product, divided) (ap ok (whole_or_part (power * rate / 100) (omega (arith, small)))),
      ground (arith, small),
    )
  where
    plain : from_int32 rate ≡ rate
    plain = ground arith

    product_exact : power * rate ≤ power * 100 → mul64 power (from_int32 rate) ≡ power * rate
    product_exact small = rw plain (omega arith)

    whole_or_part :
        (s : ℕ) → s ≤ power → (if sle64 s 0 then power else s) ≡ (if s == 0 then power else s)
    whole_or_part s le = ground arith

pub majority_exact : (total : ℕ) → total < 2 ^ 62 → majority_of total ≡ ok (total * 2 / 3)
majority_exact total h =
    let doubled : mul64 total 2 ≡ total * 2 = omega arith in
    rw (doubled, div64_exact (total * 2) 3 (omega arith) (omega arith) (omega arith)) refl

All-others :
    (P : Voter → Type 0) (addr : Bytes) (vs : List Voter) → All P vs → All P (others addr vs)
unfolding others
All-others P addr [] a = tt
All-others P addr (w ∷ vs) (a, rest) = elim (Bool-cases (bytes_eq w.address addr)) [
  | inl here ↦ rw here rest
  | inr later ↦ rw later (a, All-others P addr vs rest)
]

neither : (p q : Bool) → (p || q) ≡ false → (p ≡ false) × (q ≡ false)
neither p q h = ground arith

is_voter-put_voter :
    (addr : Bytes) (v v' : Voter) (vs : List Voter)
    → find_voter addr vs ≡ some v
    → bytes_eq v'.address addr ≡ true
    → is_voter addr (put_voter addr v' vs) ≡ true
unfolding find_voter put_voter is_voter
is_voter-put_voter addr v v' [] e h = cc
is_voter-put_voter addr v v' (w ∷ vs) e h = elim (Bool-cases (bytes_eq w.address addr)) [
  | inl here ↦ rw (here, h) refl
  | inr later ↦ rw (later, later, is_voter-put_voter addr v v' vs (rw later at e) h) refl
]

-- Where no other voter has the address, the removal of the voter that was put leaves the others.
remove_voter-absent :
    (addr : Bytes) (vs : List Voter) → is_voter addr vs ≡ false → remove_voter addr vs ≡ vs
unfolding remove_voter is_voter
remove_voter-absent addr [] h = refl
remove_voter-absent addr (w ∷ vs) h =
    let (here, later) = neither (bytes_eq w.address addr) (is_voter addr vs) h in
    rw (here, later, remove_voter-absent addr vs later) refl

remove_voter-put_voter :
    (addr : Bytes) (v v' : Voter) (vs : List Voter)
    → find_voter addr vs ≡ some v
    → bytes_eq v'.address addr ≡ true
    → is_voter addr (others addr vs) ≡ false
    → remove_voter addr (put_voter addr v' vs) ≡ others addr vs
unfolding remove_voter is_voter find_voter put_voter others
remove_voter-put_voter addr v v' [] e h absent = cc
remove_voter-put_voter addr v v' (w ∷ vs) e h absent = elim (Bool-cases (bytes_eq w.address addr)) [
  | inl here ↦ rw (here, rw here at absent, h) refl
  | inr later ↦
      let (_, gone) =
        neither (bytes_eq w.address addr) (is_voter addr (others addr vs)) (rw later at absent) in
      rw
        (
          later,
          is_voter-put_voter addr v v' vs (rw later at e) h,
          remove_voter-put_voter addr v v' vs (rw later at e) h gone,
        )
        refl
]

not_counted :
    (addr : Bytes) (v v' : Voter) (vs : List Voter) (os : List VoteOption)
    → find_voter addr vs ≡ some v
    → is_choice v'.choice ≡ false
    → IsWithout addr vs os
    → IsRecount (put_voter addr v' vs) os
not_counted addr v v' vs os found unset without i =
    without i
    ∙ ap (λ n. changed (λ _. n) (votes_at i os))
        (sym (votes_for-put_voter i addr v v' vs found ∙ plain))
  where
    plain : add64 (count i v') (votes_for i (others addr vs)) ≡ votes_for i (others addr vs)
    plain = rw unset (omega (arith, votes_for_fits i (others addr vs)))

-- What is left of a voter that is slashed by all of its power, or by part of it.
abbrev pub left_over : Voter → ℕ → Option Voter
left_over v slash = if v.power == slash then none else some (record v { power = v.power - slash })

find_voter-absent :
    (addr : Bytes) (vs : List Voter) → is_voter addr vs ≡ false → find_voter addr vs ≡ none
unfolding find_voter is_voter
find_voter-absent addr [] h = refl
find_voter-absent addr (w ∷ vs) h =
    let (here, later) = neither (bytes_eq w.address addr) (is_voter addr vs) h in
    rw (here, find_voter-absent addr vs later) refl

others-absent : (addr : Bytes) (vs : List Voter) → is_voter addr vs ≡ false → others addr vs ≡ vs
unfolding others is_voter
others-absent addr [] h = refl
others-absent addr (w ∷ vs) h =
    let (here, later) = neither (bytes_eq w.address addr) (is_voter addr vs) h in
    rw (here, others-absent addr vs later) refl

abbrev pub Holds : (Voter → Type 0) → Option Voter → Type 0
Holds P none = Unit {0}
Holds P (some v) = P v

-- What settle_voter ends with: `o` is what is left of the voter.
abbrev pub Settles :
    Bytes
    → Option Voter
    → List Voter
    → List VoteOption
    → Result (List Voter × List VoteOption)
    → Type 1
Settles addr o vs os r =
    (vs' : List Voter) × (os' : List VoteOption) × (r ≡ ok (vs', os'))
    × (length os' ≡ length os)
    × IsRecount vs' os'
    × (find_voter addr vs' ≡ o)
    × (others addr vs' ≡ others addr vs)
    × ((P : Voter → Type 0) → All P vs → Holds P o → All P vs')

pub settle_removed :
    (addr : Bytes) (v v' : Voter) (vs : List Voter) (os : List VoteOption)
    → find_voter addr vs ≡ some v
    → bytes_eq v'.address addr ≡ true
    → is_voter addr (others addr vs) ≡ false
    → sle64 v'.power 0 ≡ true
    → IsWithout addr vs os
    → Settles addr none vs os (settle_voter addr v.choice v' os vs)
unfolding settle_voter
settle_removed addr v v' vs os found at_addr absent empty without = (
  others addr vs,
  os,
  rw (empty, remove_voter-put_voter addr v v' vs found at_addr absent) refl,
  refl,
  without,
  find_voter-absent addr (others addr vs) absent,
  others-absent addr (others addr vs) absent,
  λ P a _. All-others P addr vs a,
)

pub settle_chosen :
    (addr : Bytes) (v v' : Voter) (vs : List Voter) (os : List VoteOption)
    → find_voter addr vs ≡ some v
    → bytes_eq v'.address addr ≡ true
    → sle64 v'.power 0 ≡ false
    → is_choice v.choice ≡ true
    → v.choice < length os
    → IsWithout addr vs os
    → Settles addr
        (some (record v' { choice = v.choice }))
        vs
        os
        (settle_voter addr v.choice v' os vs)
unfolding settle_voter
settle_chosen addr v v' vs os found at_addr some_left chosen h without =
    let (os', voted, same, recounted) =
      do_vote_of-IsRecount addr v v' v.choice vs os found chosen h without in
    let fin : Voter = record v' { choice = v.choice } in
    let (found', kept) = find_voter-put_voter addr v fin vs found at_addr in
    (
      put_voter addr fin vs,
      os',
      rw (some_left, chosen, voted) refl,
      same,
      recounted,
      found',
      kept,
      λ P a b. All-put_voter P addr fin vs b a,
    )

pub settle_unset :
    (addr : Bytes) (v v' : Voter) (vs : List Voter) (os : List VoteOption)
    → find_voter addr vs ≡ some v
    → bytes_eq v'.address addr ≡ true
    → sle64 v'.power 0 ≡ false
    → is_choice v.choice ≡ false
    → is_choice v'.choice ≡ false
    → IsWithout addr vs os
    → Settles addr (some v') vs os (settle_voter addr v.choice v' os vs)
unfolding settle_voter
settle_unset addr v v' vs os found at_addr some_left unset unset' without =
    let (found', kept) = find_voter-put_voter addr v v' vs found at_addr in
    (
      put_voter addr v' vs,
      os,
      rw (some_left, unset) refl,
      refl,
      not_counted addr v v' vs os found unset' without,
      found',
      kept,
      λ P a b. All-put_voter P addr v' vs b a,
    )
