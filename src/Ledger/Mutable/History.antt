-- ===== src/Ledger/Mutable/History.antt =====
-- Any writes to (*MutableLedger) after Snapshot are undone by RevertToSnapshot.
use beatoz_go.Base.{
  ℕ, ◌≡◌, ◌≢◌, subst, refl, sym, ap, ◌∙◌, inl, inr, Option, none, some, List, [], ◌∷◌, ◌++◌, ok,
  Status, Bool-cases, Option-cases, if◌then◌else◌,
}
use beatoz_go.Base.Bytes.{Bytes, bytes_eq, or_empty}
use beatoz_go.Ledger.Iavl.{Iavl, Items, IsHealthy, IsDecodable, is_some}
use beatoz_go.Ledger.View.{
  update, undo, undo-append, undo_cong, undo_one, put_same, erase_absent, update_all,
}
use beatoz_go.Ledger.Revisions
use beatoz_go.Ledger.Revisions.{RevisionList}
use beatoz_go.Ledger.Mutable.{Action, Ledger, attempt, get, set, del, snapshot, revert_to_snapshot}
use beatoz_go.Ledger.Mutable.Restore.{Decodes, Restorable, revert_lem}
use beatoz_go.Ledger.Mutable.Cache.{IsCoherent, Reads, set-IsCoherent, del-IsCoherent, get-Reads}
use mathlib.Core.List.{append-nil, append_assoc}

-- A write between the snapshot and the revert.
pub data Write (Item : Type 0) : Type 0 where
  put : Bytes → Item → Write Item
  erase : Bytes → Write Item

-- Keys and encodings have a byte at least, as the keys and the items of the controllers do.
abbrev pub IsStorable : (it : Items) → Write it.Item → Type 0
IsStorable it (put k i) = (k ≢ []) × ((b : ℕ) × (bs : Bytes) × (it.encode i ≡ ok (b ∷ bs)))
IsStorable it (erase k) = k ≢ []

abbrev pub AreStorable : (it : Items) → List (Write it.Item) → Type 0
AreStorable it [] = Unit
AreStorable it (w ∷ ws) = IsStorable it w × AreStorable it ws

Restorable-append :
    (it : Items) (xs ys : RevisionList)
    → Restorable it xs
    → Restorable it ys
    → Restorable it (xs ++ ys)
Restorable-append it [] ys h k = k
Restorable-append it (x ∷ xs) ys h k = (h.0, h.1, Restorable-append it xs ys h.2 k)

module _ (db : Iavl) (it : Items) where
  unfoldable pub write : Write it.Item → Action (Ledger db it) (Unit {0})
  unfolding set del
  write (put k i) l = set db it k i l
  write (erase k) l = del db it k l

  unfoldable pub write_all : List (Write it.Item) → Action (Ledger db it) (Unit {0})
  unfolding write
  write_all [] l = (ok tt, l)
  write_all (w ∷ ws) l = let (r, l') = write w l in attempt r l' (λ _. write_all ws l')

module _ (db : Iavl) (it : Items) (H : IsHealthy db) where
  -- Everything that the tree holds can be decoded.
  abbrev pub Readable : db.Tree → Type 0
  Readable t = (k : Bytes) → Decodes it k (H.view t k)

  -- From `l` to `l'` the log grew by `extra`, which undoes the change.
  pub record IsLogged (l l' : Ledger db it) : Type 0 where
    pub extra : RevisionList
    pub appended : l'.revisions ≡ l.revisions ++ extra
    pub undone : (j : Bytes) → undo extra (H.view l'.tree) j ≡ H.view l.tree j
    pub restorable : Restorable it extra
    pub readable : Readable l'.tree

  IsLogged-refl : (l : Ledger db it) → Readable l.tree → IsLogged l l
  IsLogged-refl l h = record {
    extra = [];
    appended = sym (append-nil l.revisions);
    undone = λ j. refl;
    restorable = tt;
    readable = h;
  }

  IsLogged-trans : (k l m : Ledger db it) → IsLogged k l → IsLogged l m → IsLogged k m
  IsLogged-trans k l m p q = record {
    extra = p.extra ++ q.extra;
    appended =
        q.appended
        ∙ ap (λ revs. revs ++ q.extra) p.appended
        ∙ append_assoc k.revisions p.extra q.extra;
    undone = λ j.
        undo-append p.extra q.extra (H.view m.tree) j
        ∙ undo_cong p.extra (undo q.extra (H.view m.tree)) (H.view l.tree) q.undone j
        ∙ p.undone j;
    restorable = Restorable-append it p.extra q.extra p.restorable q.restorable;
    readable = q.readable;
  }

  -- Writing `o` at `k`, with the old value logged, or not logged when it stays the same.
  module _ (k : Bytes) (o : Option Bytes) (l l' : Ledger db it) where
    abbrev Updates : Type 0
    Updates = (j : Bytes) → H.view l'.tree j ≡ (if bytes_eq k j then o else H.view l.tree j)

    update-Readable : Updates → Decodes it k o → Readable l.tree → Readable l'.tree
    update-Readable w d r j =
        update_all (Decodes it) (H.view l.tree) (H.view l'.tree) k o j (w j) d (r j)

    IsLogged-update :
        k ≢ []
        → Updates
        → Decodes it k o
        → Readable l.tree
        → l'.revisions ≡ Revisions.push l.revisions k (H.view l.tree k)
        → IsLogged l l'
    IsLogged-update ne w d r e = record {
      extra = (k, H.view l.tree k) ∷ [];
      appended = e;
      undone = λ j. undo_one (H.view l.tree) (H.view l'.tree) k o j (w j);
      restorable = (ne, r k, tt);
      readable = update-Readable w d r;
    }

    IsLogged-update_same :
        Updates
        → Decodes it k o
        → Readable l.tree
        → l'.revisions ≡ l.revisions
        → ((j : Bytes) → H.view l'.tree j ≡ H.view l.tree j)
        → IsLogged l l'
    IsLogged-update_same w d r e same = record {
      extra = [];
      appended = e ∙ sym (append-nil l.revisions);
      undone = same;
      restorable = tt;
      readable = update-Readable w d r;
    }

  abbrev pub Wrote : (Ledger db it → Status × Ledger db it) → Ledger db it → Type 0
  Wrote f l = (l' : Ledger db it) × (f l ≡ (ok tt, l')) × IsLogged l l'

  set_lem :
      (k : Bytes) (i : it.Item) (l : Ledger db it)
      → IsDecodable it
      → IsStorable it (put k i)
      → Readable l.tree
      → Wrote (set db it k i) l
  unfolding set
  set_lem [] i l D h r = absurd (h.0 refl)
  set_lem (c ∷ cs) i l D h r =
      let (b, bs, enc) = h.1 in
      let (t', e, w) = H.set_view l.tree (c ∷ cs) (b ∷ bs) in
      let d = D.decode_encode (c ∷ cs) i (b ∷ bs) enc in
      let new_cached = update l.cached (c ∷ cs) (some i) in
      let quiet : Ledger db it = record {
        tree = t';
        revisions = l.revisions;
        cached = new_cached;
      } in
      let logged : Ledger db it = record quiet {
        revisions = Revisions.push l.revisions (c ∷ cs) (H.view l.tree (c ∷ cs));
      } in
      elim (Bool-cases (bytes_eq (or_empty (H.view l.tree (c ∷ cs))) (b ∷ bs))) [
        | inl same ↦ (
          quiet,
          rw (H.get_view l.tree (c ∷ cs), enc, e, same) refl,
          IsLogged-update_same (c ∷ cs) (some (b ∷ bs)) l quiet w d r refl
              (λ j. put_same (H.view l.tree) (H.view t') (c ∷ cs) b bs j (w j) same),
        )
        | inr changed ↦ (
          logged,
          rw (H.get_view l.tree (c ∷ cs), enc, e, changed) refl,
          IsLogged-update (c ∷ cs) (some (b ∷ bs)) l logged h.0 w d r refl,
        )
      ]

  del_lem : (k : Bytes) (l : Ledger db it) → k ≢ [] → Readable l.tree → Wrote (del db it k) l
  unfolding del
  del_lem [] l ne r = absurd (ne refl)
  del_lem (c ∷ cs) l ne r =
      let (t', e, w) = H.remove_view l.tree (c ∷ cs) in
      let new_cached = update l.cached (c ∷ cs) none in
      let quiet : Ledger db it = record {
        tree = t';
        revisions = l.revisions;
        cached = new_cached;
      } in
      let logged : Ledger db it = record quiet {
        revisions = Revisions.push l.revisions (c ∷ cs) (H.view l.tree (c ∷ cs));
      } in
      elim (Option-cases (H.view l.tree (c ∷ cs))) [
        | inl absent ↦ (
          quiet,
          rw (e, ap is_some absent) refl,
          IsLogged-update_same (c ∷ cs) none l quiet w tt r refl
              (λ j. erase_absent (H.view l.tree) (H.view t') (c ∷ cs) j (w j) absent),
        )
        | inr (v, present) ↦ (
          logged,
          rw (e, ap is_some present) refl,
          IsLogged-update (c ∷ cs) none l logged ne w tt r refl,
        )
      ]

  write_lem :
      (w : Write it.Item) (l : Ledger db it)
      → IsDecodable it
      → IsStorable it w
      → Readable l.tree
      → Wrote (write db it w) l
  unfolding write
  write_lem (put k i) l D h r = set_lem k i l D h r
  write_lem (erase k) l D h r = del_lem k l h r

  pub write_all_lem :
      (ws : List (Write it.Item)) (l : Ledger db it)
      → IsDecodable it
      → AreStorable it ws
      → Readable l.tree
      → Wrote (write_all db it ws) l
  unfolding write_all
  write_all_lem [] l D h r = (l, refl, IsLogged-refl l r)
  write_all_lem (w ∷ ws) l D h r =
      let (m, e, p) = write_lem w l D h.0 r in
      let (l', e', q) = write_all_lem ws m D h.1 p.readable in
      (l', rw e e', IsLogged-trans l m l' p q)

  write-IsCoherent :
      (w : Write it.Item) (l : Ledger db it)
      → IsStorable it w
      → IsCoherent db it H l
      → IsCoherent db it H (write db it w l).1
  unfolding write
  write-IsCoherent (put k i) l h c =
      let (b, bs, e) = h.1 in set-IsCoherent db it H k i l (b ∷ bs) h.0 e c
  write-IsCoherent (erase k) l h c = del-IsCoherent db it H k l h c

  write_all-IsCoherent :
      (ws : List (Write it.Item)) (l : Ledger db it)
      → IsDecodable it
      → AreStorable it ws
      → Readable l.tree
      → IsCoherent db it H l
      → IsCoherent db it H (write_all db it ws l).1
  unfolding write_all
  write_all-IsCoherent [] l D h r c = c
  write_all-IsCoherent (w ∷ ws) l D h r c =
      let (m, e, p) = write_lem w l D h.0 r in
      let c' = subst (IsCoherent db it H) (ap (λ q. q.1) e) (write-IsCoherent w l h.0 c) in
      rw e (write_all-IsCoherent ws m D h.1 p.readable c')

  -- Get of a key that the tree holds as before.
  get_as_before :
      (k : Bytes) (l l' : Ledger db it)
      → H.view l'.tree k ≡ H.view l.tree k
      → Decodes it k (H.view l.tree k)
      → IsCoherent db it H l'
      → k ≢ []
      → Reads db it H k (H.view l.tree k) l' (get db it k l')
  get_as_before k l l' same d c ne =
      subst (λ o. Reads db it H k o l' (get db it k l')) same
        (get-Reads db it H k l' ne (λ b e. subst (Decodes it k) (sym same ∙ e) d) c)

  -- On a tree whose database serves it, whatever is written after a snapshot (items that encode to
  -- a byte or more, under keys of a byte or more, in a ledger whose entries decode), every write
  -- succeeds, and so does the revert: it leaves each key with the value, or the absence, that it
  -- had, and the log of revisions as it was. The cached objects were backed by the tree, and
  -- are so again: Get of a key of a byte or more then returns an object that the value from before the snapshot encodes or
  -- decodes to, or the missing result where there was none.
  pub revert_to_snapshot-write_all :
      (ws : List (Write it.Item)) (l : Ledger db it) (k : Bytes)
      → IsDecodable it
      → AreStorable it ws
      → Readable l.tree
      → IsCoherent db it H l
      → k ≢ []
      → (m : Ledger db it) × (l' : Ledger db it) × (write_all db it ws l ≡ (ok tt, m))
        × (revert_to_snapshot db it (snapshot db it l) m ≡ (ok tt, l'))
        × ((j : Bytes) → H.view l'.tree j ≡ H.view l.tree j)
        × (l'.revisions ≡ l.revisions)
        × Reads db it H k (H.view l.tree k) l' (get db it k l')
  unfolding snapshot
  revert_to_snapshot-write_all ws l k D h r c ne =
      let (m, e, p) = write_all_lem ws l D h r in
      let (l', e', w, f, keep) = revert_lem db it H l.revisions p.extra m p.appended p.restorable in
      let backed =
        keep (subst (IsCoherent db it H) (ap (λ q. q.1) e) (write_all-IsCoherent ws l D h r c)) in
      let back : (j : Bytes) → H.view l'.tree j ≡ H.view l.tree j = λ j. w j ∙ p.undone j in
      (m, l', e, e', back, f, get_as_before k l l' (back k) (r k) backed ne)
