-- ===== src/Gov/Ctrler/Opening.antt =====
-- ctrlers/gov/ctrler.go: the voters and the options that a new proposal gets.
use beatoz_go.Base.{
  ℕ, zero, suc, ◌<◌, ◌^◌, ◌≡◌, refl, sym, ap, ◌∙◌, Bool, true, false, Option, none, some, List, [],
  ◌∷◌, ◌++◌, if◌then◌else◌, Bool-cases, Option-cases, inl, inr,
}
use mathlib.Core.List.{append_assoc, append-nil}
use beatoz_go.Base.Bytes.{Bytes, bytes_eq, bytes_eq_sound}
use beatoz_go.Gov.Proposal.{
  Proposal, Voter, VoteOption, not_choice, add_option, add_voter, find_voter, with_voters,
}
use beatoz_go.Gov.Tally.{votes_for, votes_at, changed}
use beatoz_go.Gov.Invariant.{All}
use beatoz_go.Gov.Ctrler.{add_voters, add_options}

-- A voter as a new proposal lists a validator.
abbrev pub fresh_voter : Bytes → ℕ → Voter
fresh_voter addr power = record { address = addr; power = power; choice = not_choice }

-- The first validator with an address, as a voter.
unfoldable pub as_voter : Bytes → List (Bytes × ℕ) → Option Voter
as_voter addr [] = none
as_voter addr (v ∷ vs) =
    let rest = as_voter addr vs in if bytes_eq v.0 addr then some (fresh_voter v.0 v.1) else rest

abbrev or_else : Option Voter → Option Voter → Option Voter
or_else none o = o
or_else (some v) o = some v

find_voter-append :
    (addr : Bytes) (vs : List Voter) (w : Voter)
    → find_voter addr (vs ++ (w ∷ []))
      ≡ or_else (find_voter addr vs) (if bytes_eq w.address addr then some w else none)
unfolding find_voter
find_voter-append addr [] w = refl
find_voter-append addr (v ∷ vs) w = elim (Bool-cases (bytes_eq v.address addr)) [
  | inl here ↦ rw here refl
  | inr later ↦ rw later (find_voter-append addr vs w)
]

find_same :
    (a b : Bytes) (vs : List Voter) → bytes_eq a b ≡ true → find_voter a vs ≡ find_voter b vs
find_same a b vs e = ap (λ x. find_voter x vs) (bytes_eq_sound a b e)

or_else_assoc : (o p q : Option Voter) → or_else (or_else o p) q ≡ or_else o (or_else p q)
or_else_assoc none p q = refl
or_else_assoc (some v) p q = refl

add_voter-new :
    (a : Bytes) (power : ℕ) (vs : List Voter)
    → find_voter a vs ≡ none
    → add_voter a power vs ≡ vs ++ (fresh_voter a power ∷ [])
unfolding add_voter
add_voter-new a power vs e = rw (e, add_voter) refl

add_voter-old :
    (a : Bytes) (power : ℕ) (vs : List Voter) (v : Voter)
    → find_voter a vs ≡ some v
    → add_voter a power vs ≡ vs
unfolding add_voter
add_voter-old a power vs v e = rw (e, add_voter) refl

find_voter-add_voter :
    (addr a : Bytes) (power : ℕ) (vs : List Voter) (q : Option Voter)
    → or_else (find_voter addr (add_voter a power vs)) q
      ≡ or_else (find_voter addr vs) (if bytes_eq a addr then some (fresh_voter a power) else q)
find_voter-add_voter addr a power vs q = elim (Option-cases (find_voter a vs)) [
  | inl missing ↦
      ap (λ l. or_else (find_voter addr l) q) (add_voter-new a power vs missing)
      ∙ ap (λ o. or_else o q) (find_voter-append addr vs (fresh_voter a power))
      ∙ or_else_assoc (find_voter addr vs)
          (if bytes_eq a addr then some (fresh_voter a power) else none) q
      ∙ ap (or_else (find_voter addr vs)) (taken (bytes_eq a addr))
  | inr (v, found) ↦
      ap (λ l. or_else (find_voter addr l) q) (add_voter-old a power vs v found)
      ∙ (elim (Bool-cases (bytes_eq a addr)) [
        | inl same ↦ rw (same, sym (find_same a addr vs same) ∙ found) refl
        | inr other ↦ rw other refl
      ])
]
  where
    taken :
        (b : Bool)
        → or_else (if b then some (fresh_voter a power) else none) q
          ≡ (if b then some (fresh_voter a power) else q)
    taken true = refl
    taken false = refl

-- Every validator is a voter, with the power of its first entry, and nobody else is.
pub find_voter-add_voters :
    (addr : Bytes) (vals : List (Bytes × ℕ)) (p : Proposal)
    → find_voter addr (add_voters vals p).header.voters
      ≡ or_else (find_voter addr p.header.voters) (as_voter addr vals)
unfolding as_voter
find_voter-add_voters addr [] p = or_else_none (find_voter addr p.header.voters)
  where
    or_else_none : (o : Option Voter) → o ≡ or_else o none
    or_else_none none = refl
    or_else_none (some v) = refl
find_voter-add_voters addr (v ∷ vals) p =
    find_voter-add_voters addr vals (with_voters (add_voter v.0 v.1 p.header.voters) p)
    ∙ find_voter-add_voter addr v.0 v.1 p.header.voters (as_voter addr vals)

-- A voter of a new proposal has not chosen yet, and its power is an int64 word.
abbrev pub IsFresh : Voter → Type 0
IsFresh v = (v.choice ≡ not_choice) × (v.power < 2 ^ 64)

All-append :
    (vs : List Voter) (w : Voter) → All IsFresh vs → IsFresh w → All IsFresh (vs ++ (w ∷ []))
All-append [] w a h = (h, tt)
All-append (v ∷ vs) w (b, a) h = (b, All-append vs w a h)

abbrev pub PowersFit : List (Bytes × ℕ) → Type 0
PowersFit [] = Unit {0}
PowersFit (v ∷ vs) = (v.1 < 2 ^ 64) × PowersFit vs

pub All-add_voters :
    (vals : List (Bytes × ℕ)) (p : Proposal)
    → PowersFit vals
    → All IsFresh p.header.voters
    → All IsFresh (add_voters vals p).header.voters
All-add_voters [] p f a = a
All-add_voters (v ∷ vals) p (h, f) a =
    All-add_voters vals (with_voters (add_voter v.0 v.1 p.header.voters) p) f
      (elim (Option-cases (find_voter v.0 p.header.voters)) [
        | inl missing ↦
            rw (add_voter-new v.0 v.1 p.header.voters missing)
              (All-append p.header.voters (fresh_voter v.0 v.1) a (refl, h))
        | inr (w, found) ↦ rw (add_voter-old v.0 v.1 p.header.voters w found) a
      ])

pub votes_for-fresh : (i : ℕ) (vs : List Voter) → All IsFresh vs → votes_for i vs ≡ 0
unfolding votes_for
votes_for-fresh i [] a = refl
votes_for-fresh i (v ∷ vs) ((unset, h), a) = rw (unset, votes_for-fresh i vs a) refl

-- No option has votes yet.
abbrev NoVotes : List VoteOption → Type 0
NoVotes [] = Unit {0}
NoVotes (o ∷ os) = (o.votes ≡ 0) × NoVotes os

pub NoVotes-votes_at :
    (i : ℕ) (os : List VoteOption) → NoVotes os → votes_at i os ≡ changed (λ n. 0) (votes_at i os)
unfolding votes_at
NoVotes-votes_at i [] a = refl
NoVotes-votes_at zero (o ∷ os) (h, a) = ap some h
NoVotes-votes_at (suc i) (o ∷ os) (h, a) = NoVotes-votes_at i os a

abbrev pub fresh_options : List Bytes → List VoteOption
fresh_options [] = []
fresh_options (o ∷ os) = record { option = o; votes = 0 } ∷ fresh_options os

pub NoVotes-fresh : (os : List Bytes) → NoVotes (fresh_options os)
NoVotes-fresh [] = tt
NoVotes-fresh (o ∷ os) = (refl, NoVotes-fresh os)

pub add_options_lem :
    (os : List Bytes) (p : Proposal)
    → add_options os p ≡ record p { options = p.options ++ fresh_options os }
unfolding add_option
add_options_lem [] p = ap (λ l. record p { options = l }) (sym (append-nil p.options))
add_options_lem (o ∷ os) p =
    add_options_lem os (add_option o p)
    ∙ ap (λ l. record p { options = l })
        (append_assoc p.options (record { option = o; votes = 0 } ∷ []) (fresh_options os))

pub add_voters_lem :
    (vals : List (Bytes × ℕ)) (p : Proposal)
    → add_voters vals p ≡ with_voters (add_voters vals p).header.voters p
add_voters_lem [] p = refl
add_voters_lem (v ∷ vals) p =
    add_voters_lem vals (with_voters (add_voter v.0 v.1 p.header.voters) p)
