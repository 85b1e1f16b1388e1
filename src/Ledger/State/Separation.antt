-- ===== src/Ledger/State/Separation.antt =====
-- Checking does not touch what is executed, and the other way round.
use beatoz_go.Base.{ℕ, ◌≡◌, refl, sym, ap, ◌∙◌, Bool, true, false, List, [], ◌∷◌}
use beatoz_go.Base.Bytes.{Bytes}
use beatoz_go.Ledger.Iavl.{Iavl, Items}
use beatoz_go.Ledger.Mutable
use beatoz_go.Ledger.Mem
use beatoz_go.Ledger.State.{StateLedger, get, set, del, revert_to_snapshot}

-- One call on a StateLedger, with its `exec`.
pub data Call (Item : Type 0) : Type 0 where
  read : Bytes → Call Item
  put : Bytes → Item → Call Item
  erase : Bytes → Call Item
  revert : ℕ → Call Item

module _ (db : Iavl) (it : Items) where
  unfoldable pub call : Call it.Item → Bool → StateLedger db it → StateLedger db it
  call (read k) exec s = (get db it k exec s).1
  call (put k i) exec s = (set db it k i exec s).1
  call (erase k) exec s = (del db it k exec s).1
  call (revert n) exec s = (revert_to_snapshot db it n exec s).1

  -- A history of calls, each with its `exec`; a call that fails ends only itself.
  unfoldable pub calls : List (Call it.Item × Bool) → StateLedger db it → StateLedger db it
  unfolding call
  calls [] s = s
  calls (c ∷ cs) s = calls cs (call c.0 c.1 s)

  abbrev pub of_exec : Bool → List (Call it.Item × Bool) → List (Call it.Item × Bool)
  of_exec exec [] = []
  of_exec true ((c, true) ∷ cs) = (c, true) ∷ of_exec true cs
  of_exec true ((c, false) ∷ cs) = of_exec true cs
  of_exec false ((c, true) ∷ cs) = of_exec false cs
  of_exec false ((c, false) ∷ cs) = (c, false) ∷ of_exec false cs

  commit_step : Call it.Item → Mutable.Ledger db it → Mutable.Ledger db it
  commit_step (read k) l = (Mutable.get db it k l).1
  commit_step (put k i) l = (Mutable.set db it k i l).1
  commit_step (erase k) l = (Mutable.del db it k l).1
  commit_step (revert n) l = (Mutable.revert_to_snapshot db it n l).1

  imitable_step : Call it.Item → Mem.Ledger db it → Mem.Ledger db it
  imitable_step (read k) l = l
  imitable_step (put k i) l = (Mem.set db it k i l).1
  imitable_step (erase k) l = (Mem.del db it k l).1
  imitable_step (revert n) l = (Mem.revert_to_snapshot db it n l).1

  call-true :
      (c : Call it.Item) (s : StateLedger db it)
      → ((call c true s).commit_ledger ≡ commit_step c s.commit_ledger)
        × ((call c true s).imitable_ledger ≡ s.imitable_ledger)
  unfolding call commit_step get set del revert_to_snapshot
  call-true (read k) s = (refl, refl)
  call-true (put k i) s = (refl, refl)
  call-true (erase k) s = (refl, refl)
  call-true (revert n) s = (refl, refl)

  call-false :
      (c : Call it.Item) (s : StateLedger db it)
      → ((call c false s).imitable_ledger ≡ imitable_step c s.imitable_ledger)
        × ((call c false s).commit_ledger ≡ s.commit_ledger)
  unfolding call imitable_step get set del revert_to_snapshot
  call-false (read k) s = (refl, refl)
  call-false (put k i) s = (refl, refl)
  call-false (erase k) s = (refl, refl)
  call-false (revert n) s = (refl, refl)

  calls_commit :
      (cs : List (Call it.Item × Bool)) (s t : StateLedger db it)
      → s.commit_ledger ≡ t.commit_ledger
      → (calls cs s).commit_ledger ≡ (calls (of_exec true cs) t).commit_ledger
  unfolding calls
  calls_commit [] s t e = e
  calls_commit ((c, true) ∷ cs) s t e =
      calls_commit cs (call c true s) (call c true t)
        ((call-true c s).0 ∙ ap (commit_step c) e ∙ sym ((call-true c t).0))
  calls_commit ((c, false) ∷ cs) s t e = calls_commit cs (call c false s) t ((call-false c s).1 ∙ e)

  calls_imitable :
      (cs : List (Call it.Item × Bool)) (s t : StateLedger db it)
      → s.imitable_ledger ≡ t.imitable_ledger
      → (calls cs s).imitable_ledger ≡ (calls (of_exec false cs) t).imitable_ledger
  unfolding calls
  calls_imitable [] s t e = e
  calls_imitable ((c, false) ∷ cs) s t e =
      calls_imitable cs (call c false s) (call c false t)
        ((call-false c s).0 ∙ ap (imitable_step c) e ∙ sym ((call-false c t).0))
  calls_imitable ((c, true) ∷ cs) s t e =
      calls_imitable cs (call c true s) t ((call-true c s).1 ∙ e)

  -- Between two commits, whatever the calls, their interleaving and their failures: the ledger that
  -- is committed ends as if only the calls with `exec` had been made, and the ledger for checking as
  -- if only the others had.
  pub calls_separate :
      (cs : List (Call it.Item × Bool)) (s : StateLedger db it)
      → ((calls cs s).commit_ledger ≡ (calls (of_exec true cs) s).commit_ledger)
        × ((calls cs s).imitable_ledger ≡ (calls (of_exec false cs) s).imitable_ledger)
  calls_separate cs s = (calls_commit cs s s refl, calls_imitable cs s s refl)
