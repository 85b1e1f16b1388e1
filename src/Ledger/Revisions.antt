-- ===== src/Ledger/Revisions.antt =====
-- ledger/v1/revision_list.go: the log of overwritten values, oldest first. A nil value is `none`.
use beatoz_go.Base.{
  ℕ, ◌≡◌, refl, ap, false, Option, List, [], ◌∷◌, ◌++◌, Result, ok, panic, length, take, ltb,
  take-append, length-append, arith, if◌then◌else◌,
}
use beatoz_go.Base.Bytes.{Bytes}

-- kvPair
abbrev pub KvPair : Type 0
KvPair = Bytes × Option Bytes

abbrev pub RevisionList : Type 0
RevisionList = List KvPair

-- newSnapshotList
abbrev pub new_snapshot_list : RevisionList
new_snapshot_list = []

-- (*revisionList).set
abbrev pub push : RevisionList → Bytes → Option Bytes → RevisionList
push revs key val = revs ++ (key, val) ∷ []

abbrev pub snapshot : RevisionList → ℕ
snapshot revs = length revs

-- `revs[:snap]`, a slice past the end is a panic.
abbrev pub revert : RevisionList → ℕ → Result RevisionList
revert revs snap = if ltb (length revs) snap then panic else ok (take snap revs)

-- The receiver is a copy, so the caller's list keeps its revisions.
abbrev pub reset : RevisionList → RevisionList
reset revs = revs

pub not_past_end :
    (base extra revs : RevisionList)
    → revs ≡ base ++ extra
    → ltb (length revs) (length base) ≡ false
not_past_end base extra revs e = ground (arith, ap length e, length-append base extra)

pub revert-append : (base extra : RevisionList) → revert (base ++ extra) (length base) ≡ ok base
revert-append base extra =
    rw (not_past_end base extra (base ++ extra) refl) (ap ok (take-append base extra))
