-- ===== src/Ledger/State/Commit.antt =====
-- Commit: what it publishes to the ledger for checking, and what it leaves in the log.
use beatoz_go.Base.{ℕ, ◌<◌, ◌≡◌, refl, ◌∙◌, true, false, List, none, [], ok, lt→ltb}
use beatoz_go.Base.Bytes.{Bytes}
use beatoz_go.Ledger.Iavl.{Iavl, Items, IsHealthy, IsDecodable}
use beatoz_go.Ledger.View.{undo, undo_cong}
use beatoz_go.Ledger.Revisions.{RevisionList}
use beatoz_go.Ledger.Mutable
use beatoz_go.Ledger.Mutable.{attempt}
use beatoz_go.Ledger.Mutable.Restore.{revert_lem}
use beatoz_go.Ledger.Mutable.History.{Write, AreStorable, write_all, Readable, write_all_lem}
use beatoz_go.Ledger.Mem.History
use beatoz_go.Ledger.State.{StateLedger, commit, snapshot}

module _ (db : Iavl) (it : Items) (H : IsHealthy db) where
  -- Versions count from 1.
  abbrev pub NumbersVersions : Type 0
  NumbersVersions =
      (t : db.Tree) (h : Bytes) (n : ℕ) (t' : db.Tree) → db.save_version t ≡ ok (h, n, t') → 0 < n

  -- On a database that serves its trees and numbers versions from 1, Commit succeeds. It leaves the
  -- committed contents as they were, empties the object cache, and opens a ledger for checking that
  -- shows exactly the committed contents, over a saved version, and has nothing to revert. The log of the committed ledger
  -- is not emptied: its snapshot number is the one from before.
  pub commit_publishes :
      (s : StateLedger db it)
      → NumbersVersions
      → (r : Bytes × ℕ) × (s' : StateLedger db it) × (commit db it s ≡ (ok r, s'))
        × ((j : Bytes) → H.view s'.commit_ledger.tree j ≡ H.view s.commit_ledger.tree j)
        × ((j : Bytes) → History.view db it H s'.imitable_ledger j ≡ H.view s.commit_ledger.tree j)
        × (db.is_nil s'.imitable_ledger.immu_tree ≡ false)
        × ((j : Bytes) → s'.commit_ledger.cached j ≡ none)
        × (snapshot db it false s' ≡ 0)
        × (snapshot db it true s' ≡ snapshot db it true s)
  unfolding commit snapshot Mutable.get_read_only_tree
  commit_publishes s pos =
      let (h, n, t', im, e, g, o, w, v) = H.save_view s.commit_ledger.tree in
      (
        (h, n),
        record {
          commit_ledger = record {
            tree = t';
            revisions = s.commit_ledger.revisions;
            cached = λ k. none;
          };
          imitable_ledger = record { immu_tree = im; mem_storage = λ k. none; revisions = [] };
        },
        rw (e, lt→ltb 0 n (pos s.commit_ledger.tree h n t' e), g) refl,
        w,
        v,
        o,
        λ j. refl,
        refl,
        refl,
      )

  undo_view :
      (extra : RevisionList) (t u : db.Tree)
      → ((j : Bytes) → H.view u j ≡ H.view t j)
      → (j : Bytes) → undo extra (H.view u) j ≡ undo extra (H.view t) j
  undo_view extra t u w j = undo_cong extra (H.view u) (H.view t) w j

  -- Since Commit keeps the log, a snapshot taken before it can be reverted to after it: the writes
  -- that were committed in between are undone in the working tree. (On a database that serves its
  -- trees, for items that encode to a byte or more under keys of a byte or more, in a ledger whose
  -- entries decode.)
  pub revert_to_snapshot-commit :
      (ws : List (Write it.Item)) (l : Mutable.Ledger db it)
      → IsDecodable it
      → AreStorable it ws
      → Readable db it H l.tree
      → (m : Mutable.Ledger db it) × (r : Bytes × ℕ) × (c : Mutable.Ledger db it)
        × (l' : Mutable.Ledger db it) × (write_all db it ws l ≡ (ok tt, m))
        × (Mutable.commit db it m ≡ (ok r, c))
        × ((j : Bytes) → H.view c.tree j ≡ H.view m.tree j)
        × (Mutable.revert_to_snapshot db it (Mutable.snapshot db it l) c ≡ (ok tt, l'))
        × ((j : Bytes) → H.view l'.tree j ≡ H.view l.tree j)
  unfolding Mutable.commit Mutable.snapshot
  revert_to_snapshot-commit ws l D h d =
      let (m, e, p) = write_all_lem db it H ws l D h d in
      let (hash, n, t', im, s, g, o, w, v) = H.save_view m.tree in
      let c : Mutable.Ledger db it = record {
        tree = t';
        revisions = m.revisions;
        cached = λ k. none;
      } in
      let (l', e', w', f, keep) =
        revert_lem db it H l.revisions p.extra c p.appended p.restorable in
      (
        m,
        (hash, n),
        c,
        l',
        e,
        rw s refl,
        w,
        e',
        λ j. w' j ∙ undo_view p.extra m.tree t' w j ∙ p.undone j,
      )
