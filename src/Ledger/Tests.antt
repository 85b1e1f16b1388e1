-- ===== src/Ledger/Tests.antt =====
-- Runs of the ledgers on a tree in memory, and the theorems at concrete ledgers.
use beatoz_go.Base.{
  ℕ, ◌+◌, ◌≡◌, ◌≢◌, refl, true, false, Option, none, some, List, [], ◌∷◌, ◌++◌, ok, err,
  not_found_result, ◌↔◌, if◌then◌else◌, arith,
}
use beatoz_go.Base.Bytes.{Bytes, bytes_eq, has_prefix}
use beatoz_go.Ledger.Memory.{
  memory_db, memory_items, owned_items, owned_keyed, owned_items-IsFaithful, memory_db-IsHealthy,
  memory_items-IsDecodable,
}
use beatoz_go.Ledger.View.{update}
use beatoz_go.Ledger.Ordered.{bytes_lt, AreAscending}
use beatoz_go.Ledger.Sorted.{Entries, from, sorted_db, sorted_db-IsHealthy, sorted_db-IsOrdered}
use beatoz_go.Ledger.Map.Seek.{entry, visit, IsListed}
use beatoz_go.Ledger.Map.Walk.{seek_visits, state_seeker, state_ledger-IsListed}
use beatoz_go.Ledger.Mutable.{Callback, seek_loop}
use beatoz_go.Ledger.Mutable
use beatoz_go.Ledger.Mutable.History.{
  Write, AreStorable, put, erase, write_all, revert_to_snapshot-write_all,
}
use beatoz_go.Ledger.Mutable.Restore.{Decodes}
use beatoz_go.Ledger.Mutable.Cache.{IsCoherent, Reads, get-set-del}
use beatoz_go.Ledger.Mem
use beatoz_go.Ledger.Mem.History
use beatoz_go.Ledger.Map.Implementation
use beatoz_go.Ledger.Map.Implementation.{state_ledger-IsMap}
use beatoz_go.Ledger.State
use beatoz_go.Ledger.State.{StateLedger, commit, snapshot}
use beatoz_go.Ledger.State.Separation.{Call, calls, calls_separate}
use beatoz_go.Ledger.State.Commit.{NumbersVersions, commit_publishes, revert_to_snapshot-commit}
use beatoz_go.Ledger.Keys.{
  Entry, vpower, frozen_vpower, proposal, frozen_prop, key_of, ledger_key_vpower,
  ledger_key_frozen_vpower,
}
use beatoz_go.Ledger.Keys.RoundTrip.{seek_prefixes}

abbrev alice : Bytes
alice = 0 ∷ 1 ∷ []

abbrev bob : Bytes
bob = 0 ∷ 2 ∷ []

-- Alice's entry is there, Bob's is not.
abbrev contents : Bytes → Option Bytes
contents = update (λ k. none) alice (some (7 ∷ []))

abbrev ledger : Mutable.Ledger memory_db memory_items
ledger = record { tree = (contents, 1); revisions = []; cached = λ k. none }

abbrev checking : Mem.Ledger memory_db memory_items
checking = record { immu_tree = contents; mem_storage = λ k. none; revisions = [] }

abbrev both : StateLedger memory_db memory_items
both = record { commit_ledger = ledger; imitable_ledger = checking }

abbrev writes : List (Write Bytes)
writes = put bob (5 ∷ []) ∷ erase alice ∷ put bob (6 ∷ []) ∷ []

writes_run :
    ((Mutable.get memory_db memory_items bob (write_all memory_db memory_items writes ledger).1).0
      ≡ ok (6 ∷ []))
    × ((Mutable.get memory_db memory_items alice
          (write_all memory_db memory_items writes ledger).1).0
        ≡ err not_found_result)
unfolding Mutable.get write_all bytes_eq
writes_run = (refl, refl)

readable : (o : Option Bytes) (k : Bytes) → Decodes memory_items k o
readable none k = tt
readable (some v) k = (v, refl)

alice_key : alice ≢ []
alice_key e = cc

bob_key : bob ≢ []
bob_key e = cc

abbrev writes_storable : AreStorable memory_items writes
writes_storable = ((bob_key, (5, [], refl)), (alice_key, ((bob_key, (6, [], refl)), tt)))

empty-IsCoherent : IsCoherent memory_db memory_items memory_db-IsHealthy ledger
empty-IsCoherent = record { at = λ k i e. cc }

revert_to_snapshot-write_all_example :
    (m : Mutable.Ledger memory_db memory_items) × (l' : Mutable.Ledger memory_db memory_items)
    × (write_all memory_db memory_items writes ledger ≡ (ok tt, m))
    × (Mutable.revert_to_snapshot memory_db memory_items
          (Mutable.snapshot memory_db memory_items ledger)
          m
        ≡ (ok tt, l'))
    × ((j : Bytes) → l'.tree.0 j ≡ contents j)
    × (l'.revisions ≡ [])
    × Reads memory_db memory_items memory_db-IsHealthy alice
        (contents alice)
        l'
        (Mutable.get memory_db memory_items alice l')
revert_to_snapshot-write_all_example =
    revert_to_snapshot-write_all memory_db memory_items memory_db-IsHealthy writes ledger alice
      memory_items-IsDecodable writes_storable (λ k. readable (contents k) k) empty-IsCoherent
      alice_key

abbrev decodes_any :
    (b : Bytes) → contents alice ≡ some b → (i : Bytes) × (memory_items.decode alice b ≡ ok i)
decodes_any b e = (b, refl)

get-set-del_example :
    ((Mutable.get memory_db memory_items alice
        (Mutable.set memory_db memory_items bob (9 ∷ []) ledger).1).0
      ≡ (if bytes_eq bob alice
          then ok (9 ∷ [])
          else (Mutable.get memory_db memory_items alice ledger).0))
    × ((Mutable.get memory_db memory_items alice
          (Mutable.del memory_db memory_items bob ledger).1).0
        ≡ (if bytes_eq bob alice
            then err not_found_result
            else (Mutable.get memory_db memory_items alice ledger).0))
get-set-del_example =
    get-set-del memory_db memory_items memory_db-IsHealthy bob alice (9 ∷ []) ledger (9 ∷ [])
      bob_key refl

revert_to_snapshot-set_all_example :
    (m : Mem.Ledger memory_db memory_items) × (l' : Mem.Ledger memory_db memory_items)
    × (Mem.History.set_all memory_db memory_items ((alice, 5 ∷ []) ∷ []) checking ≡ (ok tt, m))
    × (Mem.revert_to_snapshot memory_db memory_items
          (Mem.snapshot memory_db memory_items checking)
          m
        ≡ (ok tt, l'))
    × ((j : Bytes)
        → Mem.History.view memory_db memory_items memory_db-IsHealthy l' j
          ≡ Mem.History.view memory_db memory_items memory_db-IsHealthy checking j)
    × (l'.revisions ≡ [])
revert_to_snapshot-set_all_example =
    Mem.History.revert_to_snapshot-set_all memory_db memory_items memory_db-IsHealthy
      ((alice, 5 ∷ []) ∷ []) checking refl (alice_key, (5, [], refl), tt)

-- Alice's entry is in the saved version only.
revert_to_snapshot-del_lost_example :
    (m : Mem.Ledger memory_db memory_items) × (l' : Mem.Ledger memory_db memory_items) × (Mem.del
        memory_db memory_items alice checking
      ≡ (ok tt, m))
    × (Mem.revert_to_snapshot memory_db memory_items
          (Mem.snapshot memory_db memory_items checking)
          m
        ≡ (ok tt, l'))
    × (Mem.find_raw_bytes memory_db memory_items checking alice ≡ ok (7 ∷ []))
    × (Mem.get memory_db memory_items alice l' ≡ err not_found_result)
unfolding bytes_eq
revert_to_snapshot-del_lost_example =
    Mem.History.revert_to_snapshot-del_lost memory_db memory_items memory_db-IsHealthy alice
      (7 ∷ []) checking refl alice_key refl refl

calls_separate_example :
    ((calls memory_db memory_items
        ((Call.erase alice, false) ∷ (Call.put bob [], true) ∷ [])
        both).commit_ledger
      ≡ (calls memory_db memory_items ((Call.put bob [], true) ∷ []) both).commit_ledger)
    × ((calls memory_db memory_items
          ((Call.erase alice, false) ∷ (Call.put bob [], true) ∷ [])
          both).imitable_ledger
        ≡ (calls memory_db memory_items ((Call.erase alice, false) ∷ []) both).imitable_ledger)
calls_separate_example =
    calls_separate memory_db memory_items ((Call.erase alice, false) ∷ (Call.put bob [], true) ∷ [])
      both

memory_db_numbers : NumbersVersions memory_db memory_items memory_db-IsHealthy
memory_db_numbers t h n t' e = rw (← version_of e) (omega arith)
  where
    version_of : memory_db.save_version t ≡ ok (h, n, t') → t.1 + 1 ≡ n
    version_of e = cc

commit_publishes_example :
    (r : Bytes × ℕ) × (s' : StateLedger memory_db memory_items) × (commit memory_db memory_items
        both
      ≡ (ok r, s'))
    × ((j : Bytes) → s'.commit_ledger.tree.0 j ≡ contents j)
    × ((j : Bytes)
        → Mem.History.view memory_db memory_items memory_db-IsHealthy s'.imitable_ledger j
          ≡ contents j)
    × (memory_db.is_nil s'.imitable_ledger.immu_tree ≡ false)
    × ((j : Bytes) → s'.commit_ledger.cached j ≡ none)
    × (snapshot memory_db memory_items false s' ≡ 0)
    × (snapshot memory_db memory_items true s' ≡ snapshot memory_db memory_items true both)
commit_publishes_example =
    commit_publishes memory_db memory_items memory_db-IsHealthy both memory_db_numbers

revert_to_snapshot-commit_example :
    (m : Mutable.Ledger memory_db memory_items) × (r : Bytes × ℕ) × (c : Mutable.Ledger memory_db
      memory_items)
    × (l' : Mutable.Ledger memory_db memory_items) × (write_all memory_db memory_items writes ledger
        ≡ (ok tt, m))
    × (Mutable.commit memory_db memory_items m ≡ (ok r, c))
    × ((j : Bytes) → c.tree.0 j ≡ m.tree.0 j)
    × (Mutable.revert_to_snapshot memory_db memory_items
          (Mutable.snapshot memory_db memory_items ledger)
          c
        ≡ (ok tt, l'))
    × ((j : Bytes) → l'.tree.0 j ≡ contents j)
revert_to_snapshot-commit_example =
    revert_to_snapshot-commit memory_db memory_items memory_db-IsHealthy writes ledger
      memory_items-IsDecodable writes_storable (λ k. readable (contents k) k)

abbrev addr : Bytes
addr = 1 ∷ 2 ∷ 3 ∷ 4 ∷ 5 ∷ 6 ∷ 7 ∷ 8 ∷ 9 ∷ 10 ∷ 11 ∷ 12 ∷ 13 ∷ 14 ∷ 15 ∷ 16 ∷ 17 ∷ 18 ∷ 19 ∷ 20 ∷ []

abbrev given : Entry
given = vpower addr bob

seek_prefixes_example :
    ((key_of given ≡ key_of (frozen_vpower 5 addr)) ↔ (given ≡ frozen_vpower 5 addr))
    × ((has_prefix (key_of given) (ledger_key_vpower addr []) ≡ true)
        ↔ ((to : Bytes) × (given ≡ vpower addr to)))
    × ((has_prefix (key_of given) (ledger_key_frozen_vpower 300 []) ≡ true)
        ↔ ((by : Bytes) × (given ≡ frozen_vpower 300 by)))
    × ((has_prefix (key_of given) (17 ∷ []) ≡ true) ↔ ((hash : Bytes) × (given ≡ proposal hash)))
    × ((has_prefix (key_of given) (18 ∷ []) ≡ true) ↔ ((hash : Bytes) × (given ≡ frozen_prop hash)))
seek_prefixes_example =
    seek_prefixes given (frozen_vpower 5 addr) addr 300 refl (omega arith) refl (omega arith)

abbrev owned : StateLedger memory_db owned_items
owned = record {
  commit_ledger = record { tree = (contents, 1); revisions = []; cached = λ k. none };
  imitable_ledger = record { immu_tree = contents; mem_storage = λ k. none; revisions = [] };
}

owned_readable : (o : Option Bytes) (k : Bytes) → Decodes owned_items k o
owned_readable none k = tt
owned_readable (some v) k = ((k, v), refl)

owned-IsValid : Implementation.IsValid memory_db owned_items memory_db-IsHealthy owned
owned-IsValid = record {
  coherent = record { at = λ k i e. cc };
  exact = record { at = λ k b i e f. cc };
  opened = refl;
  readable = λ k. owned_readable (contents k) k;
  checked = λ k. owned_readable (contents k) k;
}

state_ledger_is_map_example :
    Implementation.ReadsLike memory_db owned_items memory_db-IsHealthy owned true alice
      (State.get memory_db owned_items alice true owned)
    × Implementation.Updates memory_db owned_items memory_db-IsHealthy owned true alice
        (some (alice, 1 ∷ []))
        (State.set memory_db owned_items alice (alice, 1 ∷ []) true owned)
    × Implementation.Updates memory_db owned_items memory_db-IsHealthy owned true alice none
        (State.del memory_db owned_items alice true owned)
state_ledger_is_map_example =
    Implementation.state_ledger_is_map memory_db owned_items memory_db-IsHealthy alice
      (alice, 1 ∷ []) true owned (1 ∷ []) alice_key refl refl owned-IsValid

-- Three owners in ascending order; the prefix is of the first two.
abbrev listed_entries : Entries
listed_entries = (0 ∷ 1 ∷ [], 7 ∷ []) ∷ (0 ∷ 2 ∷ [], 8 ∷ []) ∷ (3 ∷ 1 ∷ [], 9 ∷ []) ∷ []

listed_entries-AreAscending : AreAscending listed_entries
unfolding bytes_lt
listed_entries-AreAscending = ((refl, (refl, tt)), ((refl, tt), (tt, tt)))

abbrev listed : StateLedger sorted_db owned_items
listed = record {
  commit_ledger = record {
    tree = ((listed_entries, listed_entries-AreAscending), 1);
    revisions = [];
    cached = λ k. none;
  };
  imitable_ledger = record {
    immu_tree = (listed_entries, listed_entries-AreAscending);
    mem_storage = λ k. none;
    revisions = [];
  };
}

listed-IsValid : Implementation.IsValid sorted_db owned_items sorted_db-IsHealthy listed
listed-IsValid = record {
  coherent = record { at = λ k i e. cc };
  exact = record { at = λ k b i e f. cc };
  opened = refl;
  readable = λ k. owned_readable (entry k listed_entries) k;
  checked = λ k. owned_readable (entry k listed_entries) k;
}

-- A callback that gathers the values and refuses the key of Bob.
abbrev gather : Callback (Bytes × Bytes) Bytes
gather k i got = if bytes_eq k bob then (err not_found_result, got) else (ok tt, got ++ i.1)

gather_run :
    State.seek sorted_db owned_items (0 ∷ []) true gather true listed []
    ≡ (err not_found_result, 7 ∷ [])
unfolding State.seek Mutable.seek seek_loop from bytes_lt has_prefix bytes_eq
gather_run = refl

seek_visits_example :
    (es : List (Bytes × (Bytes × Bytes))) × (State.seek sorted_db owned_items
        (0 ∷ [])
        true
        gather
        true
        listed
        []
      ≡ visit gather es [])
    × AreAscending es
    × ((j : Bytes)
        → entry j es ≡ (
            if has_prefix j (0 ∷ [])
            then Implementation.view sorted_db owned_items sorted_db-IsHealthy listed true j
            else none))
seek_visits_example =
    seek_visits sorted_db owned_items sorted_db-IsHealthy sorted_db-IsOrdered (0 ∷ []) gather listed
      [] listed-IsValid

-- The laws that the controllers take, met by the state ledger on the sorted tree.
owned-IsListed :
    IsListed
      (state_ledger-IsMap sorted_db owned_items sorted_db-IsHealthy owned_items-IsFaithful)
      (state_seeker sorted_db owned_items sorted_db-IsHealthy sorted_db-IsOrdered)
owned-IsListed =
    state_ledger-IsListed sorted_db owned_items sorted_db-IsHealthy sorted_db-IsOrdered
      owned_items-IsFaithful
