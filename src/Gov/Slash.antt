-- ===== src/Gov/Slash.antt =====
-- ctrlers/gov/proposal: the tallies of a proposal through DoSlash.
use beatoz_go.Base.{
  ℕ, ◌-◌, ◌*◌, ◌/◌, ◌≤◌, ◌<◌, ◌^◌, ◌≡◌, refl, sym, ◌∙◌, subst, true, false, some, List, ok, ◌==◌,
  if◌then◌else◌, Bool-cases, inl, inr, arith, length,
}
use beatoz_go.Base.Words.{sub64, sle64}
use beatoz_go.Base.Bytes.{Bytes, bytes_eq}
use beatoz_go.Gov.Proposal.{
  Voter, VoteOption, Proposal, not_choice, is_choice, find_voter, is_voter, cancel_vote, do_slash,
  slash_of, settle_voter, majority_of,
}
use beatoz_go.Gov.Tally.{others}
use beatoz_go.Gov.Voting.{IsWithout, InRange, cancel_vote-IsWithout}
use beatoz_go.Gov.Invariant.{All, All-find_voter, IsTallied, find_voter-address}
use beatoz_go.Gov.Settle.{
  Settles, Holds, left_over, slashed, slash_exact, majority_exact, settle_removed, settle_chosen,
  settle_unset,
}

-- After a slash: the slash is the rate's part of the power, or all of it where that part is nothing;
-- what is left of the voter keeps its choice; and the totals, the tallies and the others agree.
pub record IsSlashed (addr : Bytes) (v : Voter) (slash : ℕ) (p p' : Proposal) : Type 0 where
  pub tallied : IsTallied p'
  pub left : find_voter addr p'.header.voters ≡ left_over v slash
  pub others_kept : others addr p'.header.voters ≡ others addr p.header.voters
  pub total_lowered : p'.header.total_voting_power ≡ p.header.total_voting_power - slash
  pub majority_lowered : p'.header.majority_power ≡ (p.header.total_voting_power - slash) * 2 / 3

-- The voter once its vote is taken back, and once it is slashed.
abbrev unset : Voter → Voter
unset v = if is_choice v.choice then record v { choice = not_choice } else v

abbrev cut : Voter → ℕ → Voter
cut v slash = record (unset v) { power = sub64 (unset v).power slash }

power-unset : (v : Voter) → (unset v).power ≡ v.power
power-unset v = elim (Bool-cases (is_choice v.choice)) [
  | inl set ↦ rw set refl
  | inr open_ ↦ rw open_ refl
]

address-unset : (v : Voter) → (unset v).address ≡ v.address
address-unset v = elim (Bool-cases (is_choice v.choice)) [
  | inl set ↦ rw set refl
  | inr open_ ↦ rw open_ refl
]

power-cut :
    (v : Voter) (slash : ℕ)
    → slash ≤ v.power
    → v.power < 2 ^ 56
    → (cut v slash).power ≡ v.power - slash
power-cut v slash le h = omega (arith, power-unset v)

chosen_again :
    (v : Voter) (slash : ℕ)
    → slash ≤ v.power
    → v.power < 2 ^ 56
    → record (cut v slash) { choice = v.choice } ≡ record v { power = v.power - slash }
chosen_again v slash le h i = record {
  address = address-unset v i;
  power = power-cut v slash le h i;
  choice = v.choice;
}

unset_again :
    (v : Voter) (slash : ℕ)
    → slash ≤ v.power
    → v.power < 2 ^ 56
    → is_choice v.choice ≡ false
    → cut v slash ≡ record v { power = v.power - slash }
unset_again v slash le h open_ i = record {
  address = address-unset v i;
  power = power-cut v slash le h i;
  choice = same i;
}
  where
    same : (unset v).choice ≡ v.choice
    same = rw open_ refl

settled :
    (addr : Bytes) (v : Voter) (slash : ℕ) (vs : List Voter) (os : List VoteOption)
    → find_voter addr vs ≡ some v
    → is_voter addr (others addr vs) ≡ false
    → slash ≤ v.power
    → v.power < 2 ^ 56
    → InRange (length os) v.choice
    → IsWithout addr vs os
    → Settles addr (left_over v slash) vs os (settle_voter addr v.choice (cut v slash) os vs)
settled addr v slash vs os found absent le h in_range without =
    elim (Bool-cases (v.power == slash)) [
      | inl all ↦
          rw all
            (settle_removed addr v (cut v slash) vs os found at_addr absent (nothing all) without)
      | inr part ↦ elim (Bool-cases (is_choice v.choice)) [
        | inl chosen ↦ rw part (
            subst
              (λ x. Settles addr (some x) vs os (settle_voter addr v.choice (cut v slash) os vs))
              (chosen_again v slash le h)
              (settle_chosen addr v (cut v slash) vs os found at_addr (something part) chosen
                (rw chosen at in_range) without))
        | inr open_ ↦ rw part (
            subst
              (λ x. Settles addr (some x) vs os (settle_voter addr v.choice (cut v slash) os vs))
              (unset_again v slash le h open_)
              (settle_unset addr v (cut v slash) vs os found at_addr (something part) open_
                (subst (λ (x : Voter). is_choice x.choice ≡ false)
                  (sym (unset_again v slash le h open_)) open_)
                without))
      ]
    ]
  where
    at_addr : bytes_eq (cut v slash).address addr ≡ true
    at_addr = rw (address-unset v) (find_voter-address addr v vs found)

    nothing : (v.power == slash) ≡ true → sle64 (cut v slash).power 0 ≡ true
    nothing all = rw (power-cut v slash le h) (ground (arith, all))

    something : (v.power == slash) ≡ false → sle64 (cut v slash).power 0 ≡ false
    something part = rw (power-cut v slash le h) (ground (arith, part))

slash_run :
    (addr : Bytes) (rate : ℕ) (p : Proposal) (v v1 : Voter) (os1 os2 : List VoteOption) (slash : ℕ)
    (vs : List Voter) (total majority : ℕ)
    → find_voter addr p.header.voters ≡ some v
    → cancel_vote v p.options ≡ ok (v1, os1)
    → slash_of v1.power rate ≡ ok slash
    → settle_voter addr v.choice (record v1 { power = sub64 v1.power slash }) os1 p.header.voters
      ≡ ok (vs, os2)
    → sub64 p.header.total_voting_power slash ≡ total
    → majority_of total ≡ ok majority
    → do_slash addr rate p
      ≡ ok (
        slash,
        record p {
          options = os2;
          header = record p.header {
            voters = vs;
            total_voting_power = total;
            majority_power = majority;
          };
        },
      )
unfolding do_slash
slash_run addr rate p v v1 os1 os2 slash vs total majority found cancelled cut_by ran lowered
      halved =
    rw (found, cancelled, cut_by, ran, lowered, halved, do_slash) refl

-- DoSlash of a voter with a power below 2 ^ 56, at a rate of at most 100 percent, in a proposal whose
-- votes are the recount, whose voters have different addresses, and whose total power is below
-- 2 ^ 62 and covers the voter's, succeeds. It takes the rate's part of the voter's power, rounded
-- down, or all of it if that part is nothing; a voter with nothing left is removed, and another
-- keeps its choice. The votes are the recount again, the total is down by the slash and the majority
-- is two thirds of the new total.
pub do_slash-IsTallied :
    (addr : Bytes) (rate : ℕ) (p : Proposal) (v : Voter)
    → IsTallied p
    → find_voter addr p.header.voters ≡ some v
    → is_voter addr (others addr p.header.voters) ≡ false
    → 0 < v.power
    → v.power < 2 ^ 56
    → rate ≤ 100
    → v.power ≤ p.header.total_voting_power
    → p.header.total_voting_power < 2 ^ 62
    → (p' : Proposal) × (do_slash addr rate p ≡ ok (slashed v.power rate, p'))
      × IsSlashed addr v (slashed v.power rate) p p'
do_slash-IsTallied addr rate p v t found absent pos h hr covers ht =
    let s : ℕ = slashed v.power rate in
    let vs = p.header.voters in
    let (slash_is, le) = slash_exact v.power rate pos h hr in
    let (os1, cancelled, same1, without) =
      cancel_vote-IsWithout addr v vs p.options found (omega arith)
        (All-find_voter (λ v. InRange (length p.options) v.choice) addr v vs found t.choices_fit)
        t.recounted in
    let in_range =
      subst (λ n. InRange n v.choice) (sym same1)
        (All-find_voter (λ v. InRange (length p.options) v.choice) addr v vs found t.choices_fit) in
    let (vs', os', ran, same, recounted, left, kept, all) =
      settled addr v s vs os1 found absent le h in_range without in
    let total : sub64 p.header.total_voting_power s ≡ p.header.total_voting_power - s =
      omega (arith, le) in
    let majority = majority_exact (p.header.total_voting_power - s) (omega (arith, le)) in
    (
      record p {
        options = os';
        header = record p.header {
          voters = vs';
          total_voting_power = p.header.total_voting_power - s;
          majority_power = (p.header.total_voting_power - s) * 2 / 3;
        };
      },
      slash_run addr rate p v (unset v) os1 os' s vs' (p.header.total_voting_power - s)
          ((p.header.total_voting_power - s) * 2 / 3) found cancelled (rw (power-unset v) slash_is)
          ran total majority,
      record {
        tallied = record {
          recounted = recounted;
          powers_fit =
              all (λ v. v.power < 2 ^ 64) t.powers_fit
                (left_fits (λ v. v.power < 2 ^ 64) (omega (arith, h)));
          choices_fit =
              subst (λ n. All (λ v. InRange n v.choice) vs') (sym (same ∙ same1))
                (all (λ v. InRange (length p.options) v.choice) t.choices_fit
                  (left_fits (λ v. InRange (length p.options) v.choice)
                    (All-find_voter (λ v. InRange (length p.options) v.choice) addr v vs found
                      t.choices_fit)));
        };
        left = left;
        others_kept = kept;
        total_lowered = refl;
        majority_lowered = refl;
      },
    )
  where
    left_fits :
        (P : Voter → Type 0)
        → P (record v { power = v.power - slashed v.power rate })
        → Holds P (left_over v (slashed v.power rate))
    left_fits P a = elim (Bool-cases (v.power == slashed v.power rate)) [
      | inl all ↦ rw all tt
      | inr part ↦ rw part a
    ]
