-- ===== src/Gov/Invariant.antt =====
-- ctrlers/gov/proposal: the tallies of a proposal through DoVote.
use beatoz_go.Base.{
  ℕ, ◌<◌, ◌^◌, ◌≡◌, refl, sym, ap, ◌∙◌, subst, true, some, List, [], ◌∷◌, ok, ◌==◌, ==_iff,
  if◌then◌else◌, Bool-cases, inl, inr, arith, length,
}
use mathlib.Core.Option.{some-injective}
use beatoz_go.Base.Bytes.{Bytes, bytes_eq}
use beatoz_go.Gov.Proposal.{
  Voter, Proposal, not_choice, is_choice, find_voter, put_voter, do_vote, with_voters,
}
use beatoz_go.Gov.Tally.{others}
use beatoz_go.Gov.Voting.{IsRecount, InRange, cancel_vote-IsWithout, do_vote_of-IsRecount}

abbrev pub All : (Voter → Type 0) → List Voter → Type 0
All P [] = Unit {0}
All P (v ∷ vs) = P v × All P vs

pub All-find_voter :
    (P : Voter → Type 0) (addr : Bytes) (v : Voter) (vs : List Voter)
    → find_voter addr vs ≡ some v
    → All P vs
    → P v
unfolding find_voter
All-find_voter P addr v [] e a = cc
All-find_voter P addr v (w ∷ vs) e (a, rest) = elim (Bool-cases (bytes_eq w.address addr)) [
  | inl here ↦ subst P (some-injective w v (rw here at e)) a
  | inr later ↦ All-find_voter P addr v vs (rw later at e) rest
]

pub All-put_voter :
    (P : Voter → Type 0) (addr : Bytes) (v : Voter) (vs : List Voter)
    → P v
    → All P vs
    → All P (put_voter addr v vs)
unfolding put_voter
All-put_voter P addr v [] h a = tt
All-put_voter P addr v (w ∷ vs) h (a, rest) = elim (Bool-cases (bytes_eq w.address addr)) [
  | inl here ↦ rw here (h, rest)
  | inr later ↦ rw later (a, All-put_voter P addr v vs h rest)
]

pub find_voter-address :
    (addr : Bytes) (v : Voter) (vs : List Voter)
    → find_voter addr vs ≡ some v
    → bytes_eq v.address addr ≡ true
unfolding find_voter
find_voter-address addr v [] e = cc
find_voter-address addr v (w ∷ vs) e = elim (Bool-cases (bytes_eq w.address addr)) [
  | inl here ↦
      subst (λ (x : Voter). bytes_eq x.address addr ≡ true) (some-injective w v (rw here at e)) here
  | inr later ↦ find_voter-address addr v vs (rw later at e)
]

-- A voter that is put in place of the one found is found there, and the others stay.
pub find_voter-put_voter :
    (addr : Bytes) (v v' : Voter) (vs : List Voter)
    → find_voter addr vs ≡ some v
    → bytes_eq v'.address addr ≡ true
    → (find_voter addr (put_voter addr v' vs) ≡ some v')
      × (others addr (put_voter addr v' vs) ≡ others addr vs)
unfolding find_voter put_voter others
find_voter-put_voter addr v v' [] e h = cc
find_voter-put_voter addr v v' (w ∷ vs) e h = elim (Bool-cases (bytes_eq w.address addr)) [
  | inl here ↦ rw (here, h) (refl, refl)
  | inr later ↦
      let (found, rest) = find_voter-put_voter addr v v' vs (rw later at e) h in
      rw (later, later, found, rest) (refl, refl)
]

-- A proposal whose options' votes are the recount of its voters, whose powers are int64 words, and
-- whose choices are options.
pub record IsTallied (p : Proposal) : Type 0 where
  pub recounted : IsRecount p.header.voters p.options
  pub powers_fit : All (λ v. v.power < 2 ^ 64) p.header.voters
  pub choices_fit : All (λ v. InRange (length p.options) v.choice) p.header.voters

chosen_anew :
    (v : Voter) (choice : ℕ)
    → record (if is_choice v.choice then record v { choice = not_choice } else v) {
      choice = choice;
    }
      ≡ record v { choice = choice }
chosen_anew v choice = elim (Bool-cases (is_choice v.choice)) [
  | inl set ↦ rw set refl
  | inr unset ↦ rw unset refl
]

-- DoVote by a voter for an option that is there succeeds, whatever was chosen before: the voter has
-- the choice, the other voters and the rest of the header are as they were, and the options' votes
-- are the recount again. So a voter's power counts for one option at a time, however often it votes.
pub do_vote-IsTallied :
    (addr : Bytes) (choice : ℕ) (p : Proposal) (v : Voter)
    → IsTallied p
    → find_voter addr p.header.voters ≡ some v
    → is_choice choice ≡ true
    → choice < length p.options
    → (p' : Proposal) × (do_vote addr choice p ≡ ok p')
      × IsTallied p'
      × (find_voter addr p'.header.voters ≡ some (record v { choice = choice }))
      × (others addr p'.header.voters ≡ others addr p.header.voters)
      × (length p'.options ≡ length p.options)
      × (p'.header ≡ record p.header { voters = p'.header.voters })
unfolding do_vote
do_vote-IsTallied addr choice p v t found chosen h = elim (Bool-cases (v.choice == choice)) [
  | inl same ↦ (
    p,
    rw (found, same, do_vote) refl,
    t,
    found ∙ ap (λ c. some (record v { choice = c })) ((==_iff v.choice choice).0 same),
    refl,
    refl,
    refl,
  )
  | inr other ↦
      let vs = p.header.voters in
      let (os1, cancelled, same1, without) =
        cancel_vote-IsWithout addr v vs p.options found
          (All-find_voter (λ v. v.power < 2 ^ 64) addr v vs found t.powers_fit)
          (All-find_voter (λ v. InRange (length p.options) v.choice) addr v vs found t.choices_fit)
          t.recounted in
      let v1 : Voter = if is_choice v.choice then record v { choice = not_choice } else v in
      let (os2, voted, same2, recounted) =
        do_vote_of-IsRecount addr v v1 choice vs os1 found chosen (omega (arith, same1, h))
          without in
      let v2 : Voter = record v1 { choice = choice } in
      let is_v2 : v2 ≡ record v { choice = choice } = chosen_anew v choice in
      let at_addr =
        subst (λ (x : Voter). bytes_eq x.address addr ≡ true) (sym is_v2)
          (find_voter-address addr v vs found) in
      let (found2, kept) = find_voter-put_voter addr v v2 vs found at_addr in
      let same : length os2 ≡ length p.options = same2 ∙ same1 in
      (
        record (with_voters (put_voter addr v2 vs) p) { options = os2 },
        rw (found, other, cancelled, voted, do_vote) refl,
        record {
          recounted = recounted;
          powers_fit =
              All-put_voter (λ v. v.power < 2 ^ 64) addr v2 vs
                (subst (λ (x : Voter). x.power < 2 ^ 64) (sym is_v2)
                  (All-find_voter (λ v. v.power < 2 ^ 64) addr v vs found t.powers_fit))
                t.powers_fit;
          choices_fit =
              subst (λ n. All (λ v. InRange n v.choice) (put_voter addr v2 vs)) (sym same)
                (All-put_voter (λ v. InRange (length p.options) v.choice) addr v2 vs (rw chosen h)
                  t.choices_fit);
        },
        found2 ∙ ap some is_v2,
        kept,
        same,
        refl,
      )
]
