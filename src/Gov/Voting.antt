-- ===== src/Gov/Voting.antt =====
-- ctrlers/gov/proposal: votes and slashes keep each option's votes equal to the recount.
use beatoz_go.Base.{
  ℕ, ◌<◌, ◌^◌, ◌≡◌, refl, ap, subst, Bool, true, false, ◌&&◌, Option, none, some, List, ok, ◌==◌,
  if◌then◌else◌, Bool-cases, inl, inr, arith, length,
}
use mathlib.Core.Option.{some-injective}
use beatoz_go.Base.Words.{add64, sub64}
use beatoz_go.Base.Bytes.{Bytes}
use beatoz_go.Gov.Proposal.{
  Voter, VoteOption, not_choice, is_choice, find_voter, put_voter, vote_for, cancel_vote_for,
  cancel_vote, do_vote_of,
}
use beatoz_go.Gov.Tally.{
  votes_for, votes_at, others, changed, votes_for_fits, votes_for-find_voter, votes_for-put_voter,
  votes_at-at_option,
}

-- The options' votes are the recount of the voters.
abbrev pub IsRecount : List Voter → List VoteOption → Type 0
IsRecount vs os = (i : ℕ) → votes_at i os ≡ changed (λ n. votes_for i vs) (votes_at i os)

-- The recount of all but one voter, who counts nothing.
abbrev pub IsWithout : Bytes → List Voter → List VoteOption → Type 0
IsWithout addr vs os = IsRecount (others addr vs) os

-- What was chosen is one of `n` options.
abbrev pub InRange : ℕ → ℕ → Type 0
InRange n c = if is_choice c then (c < n) else Unit {0}

-- One option's votes, as a vote is taken back and as one is cast.
taken_back :
    (o o' : Option ℕ) (all rest p : ℕ) (same : Bool)
    → o ≡ changed (λ n. all) o
    → o' ≡ (if same then changed (λ n. sub64 n p) o else o)
    → all ≡ add64 (if same then p else 0) rest
    → rest < 2 ^ 64
    → p < 2 ^ 64
    → o' ≡ changed (λ n. rest) o'
taken_back none o' all rest p true a b c h k = rw b refl
taken_back none o' all rest p false a b c h k = rw b refl
taken_back (some n) o' all rest p true a b c h k = rw b (ap some (exact (some-injective n all a)))
  where
    exact : n ≡ all → sub64 n p ≡ rest
    exact e = omega (arith, e, c)
taken_back (some n) o' all rest p false a b c h k = rw b (ap some (exact (some-injective n all a)))
  where
    exact : n ≡ all → n ≡ rest
    exact e = omega (arith, e, c)

cast :
    (o o' : Option ℕ) (all rest p : ℕ) (same : Bool)
    → o ≡ changed (λ n. rest) o
    → o' ≡ (if same then changed (λ n. add64 n p) o else o)
    → all ≡ add64 (if same then p else 0) rest
    → rest < 2 ^ 64
    → o' ≡ changed (λ n. all) o'
cast none o' all rest p true a b c h = rw b refl
cast none o' all rest p false a b c h = rw b refl
cast (some n) o' all rest p true a b c h = rw b (ap some (exact (some-injective n rest a)))
  where
    exact : n ≡ rest → add64 n p ≡ all
    exact e = omega (arith, e, c)
cast (some n) o' all rest p false a b c h = rw b (ap some (exact (some-injective n rest a)))
  where
    exact : n ≡ rest → n ≡ all
    exact e = omega (arith, e, c)

pub cancel_vote-IsWithout :
    (addr : Bytes) (v : Voter) (vs : List Voter) (os : List VoteOption)
    → find_voter addr vs ≡ some v
    → v.power < 2 ^ 64
    → InRange (length os) v.choice
    → IsRecount vs os
    → (os' : List VoteOption) × (cancel_vote v os
        ≡ ok ((if is_choice v.choice then record v { choice = not_choice } else v), os'))
      × (length os' ≡ length os)
      × IsWithout addr vs os'
unfolding cancel_vote
cancel_vote-IsWithout addr v vs os found h in_range recount =
    elim (Bool-cases (is_choice v.choice)) [
      | inl chosen ↦
          let (os', ran, same, moved) =
            votes_at-at_option v.choice (cancel_vote_for v.power) (λ n. sub64 n v.power) os
              (λ o. refl) (rw chosen at in_range) in
          (
            os',
            rw (chosen, ran, cancel_vote) refl,
            same,
            λ i.
                taken_back (votes_at i os) (votes_at i os') (votes_for i vs)
                  (votes_for i (others addr vs)) v.power (v.choice == i) (recount i) (moved i)
                  (subst
                    (λ b.
                      votes_for i vs
                      ≡ add64 (if b && (v.choice == i) then v.power else 0)
                          (votes_for i (others addr vs)))
                    chosen (votes_for-find_voter i addr v vs found))
                  (votes_for_fits i (others addr vs)) h,
          )
      | inr not_chosen ↦ (
        os,
        rw (not_chosen, cancel_vote) refl,
        refl,
        λ i.
            taken_back (votes_at i os) (votes_at i os) (votes_for i vs)
              (votes_for i (others addr vs)) 0 false (recount i) refl
              (subst
                (λ b.
                  votes_for i vs
                  ≡ add64 (if b && (v.choice == i) then v.power else 0)
                      (votes_for i (others addr vs)))
                not_chosen (votes_for-find_voter i addr v vs found))
              (votes_for_fits i (others addr vs)) (omega arith),
      )
    ]

pub do_vote_of-IsRecount :
    (addr : Bytes) (v v' : Voter) (choice : ℕ) (vs : List Voter) (os : List VoteOption)
    → find_voter addr vs ≡ some v
    → is_choice choice ≡ true
    → choice < length os
    → IsWithout addr vs os
    → (os' : List VoteOption) × (do_vote_of v' choice os ≡ ok (record v' { choice = choice }, os'))
      × (length os' ≡ length os)
      × IsRecount (put_voter addr (record v' { choice = choice }) vs) os'
unfolding do_vote_of
do_vote_of-IsRecount addr v v' choice vs os found chosen h without =
    let (os', ran, same, moved) =
      votes_at-at_option choice (vote_for v'.power) (λ n. add64 n v'.power) os (λ o. refl) h in
    (
      os',
      rw (chosen, ran, do_vote_of) refl,
      same,
      λ i.
          cast (votes_at i os) (votes_at i os')
            (votes_for i (put_voter addr (record v' { choice = choice }) vs))
            (votes_for i (others addr vs)) v'.power (choice == i) (without i) (moved i)
            (subst
              (λ b.
                votes_for i (put_voter addr (record v' { choice = choice }) vs)
                ≡ add64 (if b && (choice == i) then v'.power else 0) (votes_for i (others addr vs)))
              chosen (votes_for-put_voter i addr v (record v' { choice = choice }) vs found))
            (votes_for_fits i (others addr vs)),
    )
