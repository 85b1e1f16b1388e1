-- ===== src/Gov/Majority/Choice.antt =====
-- ctrlers/gov/proposal: which option UpdateMajorOption chooses.
use beatoz_go.Base.{
  ℕ, ◌≡◌, ◌≢◌, ◌⊎◌, refl, true, false, some, List, [], ◌∷◌, ok, Bool-cases, inl, inr, arith,
}
use beatoz_go.Base.Words.{slt64, sle64}
use beatoz_go.Gov.Proposal.{VoteOption, Proposal}
use beatoz_go.Gov.Majority.{
  more_votes, insert_option, sort_options, choose_first, update_major_option,
}

-- Each option of a list; and one of them.
abbrev pub Each : (VoteOption → Type 0) → List VoteOption → Type 0
Each P [] = Unit {0}
Each P (o ∷ os) = P o × Each P os

abbrev pub Among : VoteOption → List VoteOption → Type 0
Among o [] = ⊥
Among o (p ∷ ps) = (o ≡ p) ⊎ Among o ps

-- No option after another has more votes.
abbrev Falling : List VoteOption → Type 0
Falling [] = Unit {0}
Falling (o ∷ os) = Each (λ p. slt64 o.votes p.votes ≡ false) os × Falling os

slt64_trans : (a b c : ℕ) → slt64 a b ≡ false → slt64 b c ≡ false → slt64 a c ≡ false
slt64_trans a b c h g = ground arith

slt64_asym : (a b : ℕ) → slt64 a b ≡ true → slt64 b a ≡ false
slt64_asym a b h = ground arith

Each-mono :
    (P Q : VoteOption → Type 0) (os : List VoteOption)
    → ((o : VoteOption) → P o → Q o)
    → Each P os
    → Each Q os
Each-mono P Q [] f a = tt
Each-mono P Q (o ∷ os) f (h, a) = (f o h, Each-mono P Q os f a)

Each-insert_option :
    (P : VoteOption → Type 0) (o : VoteOption) (os : List VoteOption)
    → P o
    → Each P os
    → Each P (insert_option o os)
unfolding insert_option
Each-insert_option P o [] h a = (h, tt)
Each-insert_option P o (p ∷ ps) h (g, a) = elim (Bool-cases (more_votes p o)) [
  | inl later ↦ rw later (g, Each-insert_option P o ps h a)
  | inr first ↦ rw first (h, (g, a))
]

Each-of_insert_option :
    (P : VoteOption → Type 0) (o : VoteOption) (os : List VoteOption)
    → Each P (insert_option o os)
    → P o × Each P os
unfolding insert_option
Each-of_insert_option P o [] a = a
Each-of_insert_option P o (p ∷ ps) a = elim (Bool-cases (more_votes p o)) [
  | inl later ↦
      let (g, b) : P p × Each P (insert_option o ps) = rw later at a in
      let (h, c) = Each-of_insert_option P o ps b in (h, (g, c))
  | inr first ↦ rw first at a
]

Falling-insert_option :
    (o : VoteOption) (os : List VoteOption) → Falling os → Falling (insert_option o os)
unfolding insert_option
Falling-insert_option o [] s = (tt, tt)
Falling-insert_option o (p ∷ ps) (a, s) = elim (Bool-cases (more_votes p o)) [
  | inl later ↦ rw later (
    Each-insert_option (λ q. slt64 p.votes q.votes ≡ false) o ps (slt64_asym o.votes p.votes later)
        a,
    Falling-insert_option o ps s,
  )
  | inr first ↦ rw first (
    (
      first,
      Each-mono (λ q. slt64 p.votes q.votes ≡ false) (λ q. slt64 o.votes q.votes ≡ false) ps
          (λ q h. slt64_trans o.votes p.votes q.votes first h) a,
    ),
    (a, s),
  )
]

Falling-sort_options : (os : List VoteOption) → Falling (sort_options os)
unfolding sort_options
Falling-sort_options [] = tt
Falling-sort_options (o ∷ os) = Falling-insert_option o (sort_options os) (Falling-sort_options os)

Each-of_sort_options :
    (P : VoteOption → Type 0) (os : List VoteOption) → Each P (sort_options os) → Each P os
unfolding sort_options
Each-of_sort_options P [] a = tt
Each-of_sort_options P (o ∷ os) a =
    let (h, b) = Each-of_insert_option P o (sort_options os) a in (h, Each-of_sort_options P os b)

Each-sort_options :
    (P : VoteOption → Type 0) (os : List VoteOption) → Each P os → Each P (sort_options os)
unfolding sort_options
Each-sort_options P [] a = tt
Each-sort_options P (o ∷ os) (h, a) =
    Each-insert_option P o (sort_options os) h (Each-sort_options P os a)

Each-Among : (os : List VoteOption) → Each (λ o. Among o os) os
Each-Among [] = tt
Each-Among (o ∷ os) = (
  inl refl,
  Each-mono (λ p. Among p os) (λ p. Among p (o ∷ os)) os (λ p h. inr h) (Each-Among os),
)

-- What the choice leaves: the options in another order, and as the major option either one with the
-- most votes, which reach the majority, or what was there, where no option's votes reach it.
pub record IsChosen (p p' : Proposal) : Type 1 where
  pub same_header : p'.header ≡ p.header
  pub options_kept : Each (λ o. Among o p.options) p'.options
  pub options_there : (P : VoteOption → Type 0) → Each P p'.options → Each P p.options
  pub choice :
      ((o : VoteOption) × (p'.major_option ≡ some o)
        × Among o p.options
        × (sle64 p.header.majority_power o.votes ≡ true)
        × Each (λ q. slt64 o.votes q.votes ≡ false) p.options)
      ⊎ ((p'.major_option ≡ p.major_option)
          × Each (λ q. sle64 p.header.majority_power q.votes ≡ false) p.options)

not_reached : (m a b : ℕ) → sle64 m a ≡ false → slt64 a b ≡ false → sle64 m b ≡ false
not_reached m a b h g = ground arith

-- Votes that are not below themselves.
slt64_irrefl : (a : ℕ) → slt64 a a ≡ false
slt64_irrefl a = ground arith

module _ (p : Proposal) where
  choose_first_lem :
      (sorted : List VoteOption)
      → sorted ≢ []
      → Falling sorted
      → Each (λ o. Among o p.options) sorted
      → ((P : VoteOption → Type 0) → Each P sorted → Each P p.options)
      → (p' : Proposal) × (choose_first p sorted ≡ ok p') × IsChosen p p'
  choose_first_lem [] some_there f a b = absurd (some_there refl)
  choose_first_lem (o ∷ os) some_there (f, rest) (here, a) b =
      elim (Bool-cases (sle64 p.header.majority_power o.votes)) [
        | inl reached ↦ (
          record p { options = o ∷ os; major_option = some o },
          rw reached refl,
          record {
            same_header = refl;
            options_kept = (here, a);
            options_there = b;
            choice = inl (
              o,
              refl,
              here,
              reached,
              b (λ q. slt64 o.votes q.votes ≡ false) (slt64_irrefl o.votes, f),
            );
          },
        )
        | inr missed ↦ (
          record p { options = o ∷ os },
          rw missed refl,
          record {
            same_header = refl;
            options_kept = (here, a);
            options_there = b;
            choice = inr (
              refl,
              b (λ q. sle64 p.header.majority_power q.votes ≡ false)
                  (
                    missed,
                    Each-mono (λ q. slt64 o.votes q.votes ≡ false)
                        (λ q. sle64 p.header.majority_power q.votes ≡ false) os
                        (λ q h. not_reached p.header.majority_power o.votes q.votes missed h) f,
                  ),
            );
          },
        )
      ]

insert_option-ne-nil : (o : VoteOption) (os : List VoteOption) → insert_option o os ≢ []
unfolding insert_option
insert_option-ne-nil o [] e = cc
insert_option-ne-nil o (p ∷ ps) e = elim (Bool-cases (more_votes p o)) [
  | inl later ↦ cc (rw later at e)
  | inr first ↦ cc (rw first at e)
]

sort_options-ne-nil : (os : List VoteOption) → os ≢ [] → sort_options os ≢ []
unfolding sort_options
sort_options-ne-nil [] h e = h refl
sort_options-ne-nil (o ∷ os) h e = insert_option-ne-nil o (sort_options os) e

-- UpdateMajorOption of a proposal with options succeeds. The major option becomes one with the
-- most votes if these reach the majority power, and stays what it was if no option's votes do; the
-- options are the same, and the header.
pub update_major_option_exact :
    (p : Proposal)
    → p.options ≢ []
    → (p' : Proposal) × (update_major_option p ≡ ok p') × IsChosen p p'
unfolding update_major_option
update_major_option_exact p some_there =
    choose_first_lem p (sort_options p.options) (sort_options-ne-nil p.options some_there)
      (Falling-sort_options p.options)
      (Each-sort_options (λ o. Among o p.options) p.options (Each-Among p.options))
      (λ P. Each-of_sort_options P p.options)
