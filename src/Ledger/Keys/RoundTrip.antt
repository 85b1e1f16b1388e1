-- ===== src/Ledger/Keys/RoundTrip.antt =====
-- Each key determines what it stands for.
use mathlib.Core.List.{append-nil}
use mathlib.Core.Option.{some-injective}
use beatoz_go.Base.{
  ℕ, ◌↔◌, subst, ◌+◌, ◌*◌, ◌^◌, ◌<◌, ◌≡◌, refl, sym, ap, ◌∙◌, Option, true, none, some, [], ◌∷◌,
  ◌++◌, ◌==◌, length, take, drop, take-append, drop-append, arith, if◌then◌else◌,
}
use beatoz_go.Base.Bytes.{Bytes, has_prefix}
use beatoz_go.Ledger.Keys.{
  Entry, account, gov_params, proposal, frozen_prop, delegatee, vpower, frozen_vpower,
  missed_block_count, total_supply, reward, put_uint64, key_of, ledger_key_vpower,
  ledger_key_frozen_vpower, key_prefix_proposal, key_prefix_frozen_prop,
}

-- binary.BigEndian.Uint64
get_uint64 : Bytes → ℕ
get_uint64 bz = from 0 bz
  where
    from : ℕ → Bytes → ℕ
    from acc [] = acc
    from acc (b ∷ bs) = from (acc * 256 + b) bs

get_uint64-put_uint64 : (h : ℕ) → h < 2 ^ 64 → get_uint64 (put_uint64 h) ≡ h
unfolding get_uint64 put_uint64
get_uint64-put_uint64 h lt = omega arith

-- The entry that a key stands for, read off the prefix; addresses have 20 bytes.
pub entry_of : Bytes → Option Entry
entry_of [] = none
entry_of (p ∷ rest) =
    if p == 0x00
    then some (account rest)
    else if p == 0x10
    then some gov_params
    else if p == 0x11
    then some (proposal rest)
    else if p == 0x12
    then some (frozen_prop rest)
    else if p == 0x20
    then some (delegatee rest)
    else if p == 0x21
    then some (vpower (take 20 rest) (drop 20 rest))
    else if p == 0x22
    then some (frozen_vpower (get_uint64 (take 8 rest)) (drop 8 rest))
    else if p == 0x23
    then some (missed_block_count rest)
    else if p == 0x30
    then some total_supply
    else if p == 0x32
    then some (reward rest)
    else none

abbrev pub IsWellFormed : Entry → Type 0
IsWellFormed (vpower from to) = length from ≡ 20
IsWellFormed (frozen_vpower h from) = h < 2 ^ 64
IsWellFormed _ = Unit

entry_of-key_of : (e : Entry) → IsWellFormed e → entry_of (key_of e) ≡ some e
unfolding entry_of key_of put_uint64
entry_of-key_of (vpower from to) h =
    rw
      (
        subst (λ n. take n (from ++ to) ≡ from) h (take-append from to),
        subst (λ n. drop n (from ++ to) ≡ to) h (drop-append from to),
      )
      refl
entry_of-key_of (frozen_vpower n from) h =
    ap (λ k. some (frozen_vpower k from)) (unfold put_uint64 in get_uint64-put_uint64 n h)
entry_of-key_of (account a) h = refl
entry_of-key_of gov_params h = refl
entry_of-key_of (proposal a) h = refl
entry_of-key_of (frozen_prop a) h = refl
entry_of-key_of (delegatee a) h = refl
entry_of-key_of (missed_block_count a) h = refl
entry_of-key_of total_supply h = refl
entry_of-key_of (reward a) h = refl

-- Two entries have the same key only if they are the same entry. Addresses have 20 bytes where two
-- of them are joined, and heights fit in 64 bits.
pub key_of-injective : (e f : Entry) → IsWellFormed e → IsWellFormed f → key_of e ≡ key_of f → e ≡ f
key_of-injective e f we wf h =
    some-injective _ _ (sym (entry_of-key_of e we) ∙ ap entry_of h ∙ entry_of-key_of f wf)

after_prefix :
    (k prefix : Bytes) → has_prefix k prefix ≡ true → (rest : Bytes) × (k ≡ prefix ++ rest)
unfolding has_prefix
after_prefix k [] h = (k, refl)
after_prefix [] (p ∷ ps) h = cc
after_prefix (b ∷ k) (p ∷ ps) h =
    let (rest, e) = after_prefix k ps (ground (arith, h)) in
    let same : b ≡ p = ground (arith, h) in (rest, ap (λ x. x ∷ k) same ∙ ap (λ xs. p ∷ xs) e)

has_prefix-append : (xs ys : Bytes) → has_prefix (xs ++ ys) xs ≡ true
unfolding has_prefix
has_prefix-append [] ys = refl
has_prefix-append (x ∷ xs) ys = ground (arith, has_prefix-append xs ys)

-- Where the keys of the entries `f rest` are a prefix and `rest`, the keys with the prefix are theirs.
under_prefix :
    (e : Entry) (prefix : Bytes) (f : Bytes → Entry)
    → IsWellFormed e
    → ((rest : Bytes) → IsWellFormed (f rest))
    → ((rest : Bytes) → key_of (f rest) ≡ prefix ++ rest)
    → (has_prefix (key_of e) prefix ≡ true) ↔ ((rest : Bytes) × (e ≡ f rest))
under_prefix e prefix f we wf is = (
  λ h.
      let (rest, k) = after_prefix (key_of e) prefix h in
      (rest, key_of-injective e (f rest) we (wf rest) (k ∙ sym (is rest))),
  λ h. rw (h.1, is (h.0)) (has_prefix-append prefix (h.0)),
)

-- The keys of the entries of all kinds, with addresses of 20 bytes where two are joined and heights
-- of 64 bits: two entries have one key exactly if they are the same entry. A key starts with the
-- prefix that a walk uses exactly if its entry is one that the walk is for: a voting power that
-- `from` gave, a power frozen until the height, an open proposal, or a frozen one.
pub seek_prefixes :
    (e f : Entry) (from : Bytes) (h : ℕ)
    → IsWellFormed e
    → IsWellFormed f
    → length from ≡ 20
    → h < 2 ^ 64
    → ((key_of e ≡ key_of f) ↔ (e ≡ f))
      × ((has_prefix (key_of e) (ledger_key_vpower from []) ≡ true)
          ↔ ((to : Bytes) × (e ≡ vpower from to)))
      × ((has_prefix (key_of e) (ledger_key_frozen_vpower h []) ≡ true)
          ↔ ((by : Bytes) × (e ≡ frozen_vpower h by)))
      × ((has_prefix (key_of e) (key_prefix_proposal ∷ []) ≡ true)
          ↔ ((hash : Bytes) × (e ≡ proposal hash)))
      × ((has_prefix (key_of e) (key_prefix_frozen_prop ∷ []) ≡ true)
          ↔ ((hash : Bytes) × (e ≡ frozen_prop hash)))
unfolding key_of ledger_key_vpower ledger_key_frozen_vpower
seek_prefixes e f from h we wf l w = (
  (key_of-injective e f we wf, ap key_of),
  under_prefix e (ledger_key_vpower from []) (vpower from) we (λ to. l) (λ to. rw append-nil refl),
  under_prefix e (ledger_key_frozen_vpower h []) (frozen_vpower h) we (λ by. w)
      (λ by. rw append-nil refl),
  under_prefix e (key_prefix_proposal ∷ []) proposal we (λ hash. tt) (λ hash. refl),
  under_prefix e (key_prefix_frozen_prop ∷ []) frozen_prop we (λ hash. tt) (λ hash. refl),
)
