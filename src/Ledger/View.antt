-- ===== src/Ledger/View.antt =====
-- What the stored views become when logged revisions are undone, newest first.
use beatoz_go.Base.{
  ℕ, ◌≡◌, ◌≢◌, refl, sym, ap, ◌∙◌, subst, inl, inr, true, Option, none, some, [], ◌∷◌, ◌++◌,
  Bool-cases, if◌then◌else◌,
}
use beatoz_go.Base.Bytes.{Bytes, bytes_eq, bytes_eq_sound, bytes_eq_refl, or_empty}
use beatoz_go.Ledger.Iavl.{View}
use beatoz_go.Ledger.Revisions.{RevisionList}

abbrev pub update {ℓ} : {A : Type ℓ} → (Bytes → A) → Bytes → A → Bytes → A
update f k a j = if bytes_eq k j then a else f j

-- The first revision is the oldest, so it is put back last.
abbrev pub undo : RevisionList → View → View
undo [] v = v
undo (r ∷ rs) v = update (undo rs v) r.0 r.1

pub undo-append :
    (xs ys : RevisionList) (v : View) (j : Bytes) → undo (xs ++ ys) v j ≡ undo xs (undo ys v) j
undo-append [] ys v j = refl
undo-append (r ∷ xs) ys v j = rw (undo-append xs ys v j) refl

pub undo_cong :
    (xs : RevisionList) (v w : View)
    → ((j : Bytes) → v j ≡ w j)
    → (j : Bytes) → undo xs v j ≡ undo xs w j
undo_cong [] v w h j = h j
undo_cong (r ∷ xs) v w h j = rw (undo_cong xs v w h j) refl

pub update_cong {ℓ} :
    {A : Type ℓ} (f g : Bytes → A) (k : Bytes) (a : A) (j : Bytes)
    → f j ≡ g j
    → update f k a j ≡ update g k a j
update_cong f g k a j e = rw e refl

-- One overwritten value put back.
pub undo_one :
    (v v' : View) (k : Bytes) (o : Option Bytes) (j : Bytes)
    → v' j ≡ (if bytes_eq k j then o else v j)
    → update v' k (v k) j ≡ v j
undo_one v v' k o j h = elim (Bool-cases (bytes_eq k j)) [
  | inl same ↦ rw same (ap v (bytes_eq_sound k j same))
  | inr other ↦ rw other (rw other at h)
]

some_of_or_empty : (o : Option Bytes) (b : ℕ) (bs : Bytes) → or_empty o ≡ b ∷ bs → o ≡ some (b ∷ bs)
some_of_or_empty none b bs h = cc
some_of_or_empty (some v) b bs h = ap some h

-- A write of the bytes that are there changes nothing.
pub put_same :
    (v v' : View) (k : Bytes) (b : ℕ) (bs : Bytes) (j : Bytes)
    → v' j ≡ (if bytes_eq k j then some (b ∷ bs) else v j)
    → bytes_eq (or_empty (v k)) (b ∷ bs) ≡ true
    → v' j ≡ v j
put_same v v' k b bs j h e = elim (Bool-cases (bytes_eq k j)) [
  | inl same ↦
      (rw same at h)
      ∙ sym (some_of_or_empty (v k) b bs (bytes_eq_sound (or_empty (v k)) (b ∷ bs) e))
      ∙ ap v (bytes_eq_sound k j same)
  | inr other ↦ rw other at h
]

-- A property of every entry survives an update.
pub update_all {ℓ} :
    (P : Bytes → Option Bytes → Type ℓ) (v v' : View) (k : Bytes) (o : Option Bytes) (j : Bytes)
    → v' j ≡ (if bytes_eq k j then o else v j)
    → P k o
    → P j (v j)
    → P j (v' j)
update_all P v v' k o j h new old = elim (Bool-cases (bytes_eq k j)) [
  | inl same ↦
      subst (λ x. P j x) (sym (rw same at h)) (subst (λ i. P i o) (bytes_eq_sound k j same) new)
  | inr other ↦ rw (rw other at h) old
]

-- The removal of what is not there changes nothing.
pub erase_absent :
    (v v' : View) (k j : Bytes)
    → v' j ≡ (if bytes_eq k j then none else v j)
    → v k ≡ none
    → v' j ≡ v j
erase_absent v v' k j h e = elim (Bool-cases (bytes_eq k j)) [
  | inl same ↦ (rw same at h) ∙ sym e ∙ ap v (bytes_eq_sound k j same)
  | inr other ↦ rw other at h
]

pub at_self {ℓ} : {A : Type ℓ} (k : Bytes) (o x : A) → (if bytes_eq k k then o else x) ≡ o
at_self k o x = rw (bytes_eq_refl k) refl

pub at_other {ℓ} :
    {A : Type ℓ} (k j : Bytes) (o x : A) → k ≢ j → (if bytes_eq k j then o else x) ≡ x
at_other k j o x ne = elim (Bool-cases (bytes_eq k j)) [
  | inl same ↦ absurd (ne (bytes_eq_sound k j same))
  | inr other ↦ rw other refl
]
