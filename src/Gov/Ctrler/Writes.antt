-- ===== src/Gov/Ctrler/Writes.antt =====
-- ctrlers/gov/ctrler.go: what the deferred writes and removals leave in the ledger.
use beatoz_go.Base.{◌≡◌, ◌≢◌, refl, ◌∙◌, true, false, Option, some, List, [], ◌∷◌, if◌then◌else◌}
use beatoz_go.Base.Bytes.{Bytes, bytes_eq}
use beatoz_go.Ledger.Map.{Store, IsMap}
use beatoz_go.Ledger.Map.Seek.{Seeker}
use beatoz_go.Gov.Proposal.{Proposal}
use beatoz_go.Gov.Ctrler.{GovItem, proposal_item, gov_keyed, GovFits}
use beatoz_go.Gov.Ctrler.Blocks.{set_all}

abbrev pub View : Type 0
View = Bytes → Option GovItem

-- The view with the proposals written under their keys, and with keys removed.
abbrev pub put_view : (Proposal → Bytes) → List Proposal → View → View
put_view key [] v = v
put_view key (p ∷ ps) v =
    put_view key ps (λ j. if bytes_eq (key p) j then some (proposal_item p) else v j)

pub put_view_cong :
    (key : Proposal → Bytes) (ps : List Proposal) (v w : View)
    → ((j : Bytes) → v j ≡ w j)
    → (j : Bytes) → put_view key ps v j ≡ put_view key ps w j
put_view_cong key [] v w h j = h j
put_view_cong key (p ∷ ps) v w h j =
    put_view_cong key ps (λ j. if bytes_eq (key p) j then some (proposal_item p) else v j)
      (λ j. if bytes_eq (key p) j then some (proposal_item p) else w j) (λ j. rw (h j) refl) j

module _ (s : Store GovItem) (k : Seeker s) (m : IsMap s) where
  -- Of the side for execution; the other side stays.
  pub set_all_lem :
      (key : Proposal → Bytes) (ps : List Proposal) (st : s.State)
      → ((p : Proposal) → key p ≢ [])
      → ((p : Proposal) → GovFits (key p) (proposal_item p))
      → m.IsValid st
      → m.IsValid (set_all s key ps st)
        × ((j : Bytes) → m.view (set_all s key ps st) true j ≡ put_view key ps (m.view st true) j)
        × ((j : Bytes) → m.view (set_all s key ps st) false j ≡ m.view st false j)
  set_all_lem key [] st ne fit v = (v, λ j. refl, λ j. refl)
  set_all_lem key (p ∷ ps) st ne fit v =
      let (done, v', seen) = m.set_view (key p) (proposal_item p) true st (ne p) (fit p) v in
      let (v'', on, off) =
        set_all_lem key ps (s.set (key p) (proposal_item p) true st).1 ne fit v' in
      (
        v'',
        λ j.
            on j
            ∙ put_view_cong key ps (m.view (s.set (key p) (proposal_item p) true st).1 true)
                (λ j. if bytes_eq (key p) j then some (proposal_item p) else m.view st true j)
                (λ j. seen true j) j,
        λ j. off j ∙ seen false j,
      )
