-- ===== src/Vpower/Freezing/Refund/Release.antt =====
-- ctrlers/vpower/ctrler_vpower.go: what unfreezePowerChunk pays and what it leaves frozen.
use beatoz_go.Base.{
  ℕ, ◌≡◌, refl, ap, ◌∙◌, true, false, none, some, List, [], ◌∷◌, ok, Bool-cases, inl, inr,
}
use beatoz_go.Base.Bytes.{Bytes, bytes_eq, bytes_eq_sound, has_prefix}
use beatoz_go.Ledger.Keys.{ledger_key_frozen_vpower}
use beatoz_go.Ledger.Map.{Store, IsMap}
use beatoz_go.Ledger.Map.Removal.{listed, NotEmpty, del_all, del_all_lem}
use beatoz_go.Ledger.Map.Seek.{Seeker, IsListed, entry, AreUnder, EachEntry, each_entry}
use beatoz_go.Types.Account.{Account}
use beatoz_go.Account.Books.{IsBook}
use beatoz_go.Vpower.Chunks.{VpowerItem, vpower_keyed}
use beatoz_go.Vpower.Freezing.{unfreeze_one, unfreeze_power_chunk}
use beatoz_go.Vpower.Freezing.Refund.{
  keys_of, IsFrozenEntry, HasOwner, Pays, HasRoom, visit-unfreeze_one,
}
use beatoz_go.Account.{account_keyed}

listed-entry :
    (es : List (Bytes × VpowerItem)) (j : Bytes) → listed j (keys_of es) ≡ false → entry j es ≡ none
unfolding entry
listed-entry [] j e = refl
listed-entry (x ∷ es) j e = elim (Bool-cases (bytes_eq x.0 j)) [
  | inl here ↦ cc (rw here at e)
  | inr later ↦ rw later (listed-entry es j (rw later at e))
]

unlisted :
    (prefix : Bytes) (es : List (Bytes × VpowerItem)) (j : Bytes)
    → AreUnder prefix es
    → has_prefix j prefix ≡ false
    → listed j (keys_of es) ≡ false
unlisted prefix [] j u e = refl
unlisted prefix (x ∷ es) j (under, apart, u) e = elim (Bool-cases (bytes_eq x.0 j)) [
  | inl here ↦ cc (under, e, ap (λ q. has_prefix q prefix) (bytes_eq_sound x.0 j here))
  | inr later ↦ rw later (unlisted prefix es j u e)
]

keys-NotEmpty :
    (h : ℕ) (es : List (Bytes × VpowerItem))
    → EachEntry (IsFrozenEntry h) es
    → NotEmpty (keys_of es)
unfolding ledger_key_frozen_vpower
keys-NotEmpty h [] f = tt
keys-NotEmpty h (e ∷ es) ((from, f, at, len, is, small), fs) = (λ empty. cc, keys-NotEmpty h es fs)

module _ (s : Store VpowerItem) (k : Seeker s) (M : IsMap s) (L : IsListed M k) (a : Store Account)
    (N : IsMap a) where
  abbrev pub prefix_of : ℕ → Bytes
  prefix_of h = ledger_key_frozen_vpower h []

  abbrev pub entries_at : ℕ → s.State → List (Bytes × VpowerItem)
  entries_at h st = L.entries st (prefix_of h)

  -- Whatever the side for execution holds under the prefix of a height.
  abbrev pub Under : ℕ → (Bytes → VpowerItem → Type 0) → s.State → Type 0
  Under h P st =
      (j : Bytes) (i : VpowerItem)
      → has_prefix j (prefix_of h) ≡ true
      → M.view st true j ≡ some i
      → P j i

  Under-EachEntry :
      (h : ℕ) (P : Bytes → VpowerItem → Type 0) (st : s.State)
      → M.IsValid st
      → Under h P st
      → EachEntry P (entries_at h st)
  Under-EachEntry h P st v u =
      each_entry P (prefix_of h) (entries_at h st) (L.entries_under st (prefix_of h) v)
        (λ j i p e. u j i p (L.entries_view st (prefix_of h) j v p ∙ e))

  -- What is left of the ledger: nothing under the prefix, and all else.
  pub record IsReleased (h : ℕ) (st st' : s.State) : Type 0 where
    pub valid : M.IsValid st'
    pub gone : (j : Bytes) → has_prefix j (prefix_of h) ≡ true → M.view st' true j ≡ none
    pub kept :
        (j : Bytes) → has_prefix j (prefix_of h) ≡ false → M.view st' true j ≡ M.view st true j
    pub other_side : (j : Bytes) → M.view st' false j ≡ M.view st false j

  del_all-IsReleased :
      (h : ℕ) (st : s.State)
      → M.IsValid st
      → Under h (IsFrozenEntry h) st
      → IsReleased h st (del_all s (keys_of (entries_at h st)) st)
  del_all-IsReleased h st v u =
      let fz = Under-EachEntry h (IsFrozenEntry h) st v u in
      let es = entries_at h st in
      let (v', on, off) = del_all_lem s M (keys_of es) st (keys-NotEmpty h es fz) v in
      record {
        valid = v';
        gone = λ j p. on j ∙ elim (Bool-cases (listed j (keys_of es))) [
          | inl here ↦ rw here refl
          | inr not_here ↦
              rw not_here (L.entries_view st (prefix_of h) j v p ∙ listed-entry es j not_here)
        ];
        kept = λ j p.
            on j ∙ rw (unlisted (prefix_of h) es j (L.entries_under st (prefix_of h) v) p) refl;
        other_side = off;
      }

  -- At a height whose frozen entries are powers of addresses with accounts, each worth less than
  -- 2 ^ 255, and where no balance would exceed 2 ^ 256: unfreezePowerChunk succeeds. Each balance is
  -- up by exactly what is frozen of its address at the height, nothing is frozen there any more, and
  -- what is frozen at other heights, all other entries and the side for checking are as they were.
  pub unfreeze_power_chunk_exact :
      (h : ℕ) (st : s.State) (acct : a.State)
      → M.IsValid st
      → IsBook a N acct
      → Under h (IsFrozenEntry h) st
      → Under h (HasOwner s k a N acct) st
      → HasRoom s k a N (entries_at h st) acct
      → (st' : s.State) × (acct' : a.State) × (unfreeze_power_chunk s k a h (st, acct)
          ≡ (ok tt, (st', acct')))
        × IsReleased h st st'
        × IsBook a N acct'
        × Pays s k a N (entries_at h st) acct acct'
  unfolding unfreeze_power_chunk
  unfreeze_power_chunk_exact h st acct v book u own room =
      let fz = Under-EachEntry h (IsFrozenEntry h) st v u in
      let owns = Under-EachEntry h (HasOwner s k a N acct) st v own in
      let (acct', e, book', p) =
        visit-unfreeze_one s k a N h (entries_at h st) [] acct fz book owns room in
      (
        del_all s (keys_of (entries_at h st)) st,
        acct',
        rw
            (
              L.seek_entries (List Bytes × a.State) (prefix_of h) (unfreeze_one s k a) st ([], acct)
                  v,
              e,
            )
            refl,
        del_all-IsReleased h st v u,
        book',
        p,
      )
