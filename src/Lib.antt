-- ===== src/Lib.antt =====
-- Verification of the core of beatoz-go, a blockchain application that runs
-- on a Byzantine-fault-tolerant consensus engine.
--
-- The program. A block's transactions reach the application (node/app.go),
-- which builds a context for each (ctrlers/types/trx_ctx.go) and runs it
-- through the executor (node/trx_executor.go): the common checks, the checks
-- of the controller its type belongs to, the controller's execution between
-- a snapshot and a possible revert, and the settlement of fee and nonce.
-- The controllers keep their state in a ledger (ledger/v1), which has two
-- sides, one for the consensus and one that imitates it for the checks of
-- pending transactions. After the block each controller's end-of-block step
-- runs and the ledgers are committed.
--
-- Files and the code they model.
--   Base        helpers: lists, options, the result of a fallible call with
--               its two failures (a panic and an error), machine words, bytes.
--   Ledger      ledger/v1. Iavl is the interface of the versioned tree that
--               the ledgers call; View, Revisions, Mutable, Mem, State and Keys
--               are types.go, revision_list.go, mutable_ledger.go,
--               mem_ledger.go, state_ledger.go and ledger_keys.go. Map
--               is the interface of a ledger that clients take as a parameter,
--               Map/Implementation and Map/Pair are two implementations: the
--               state ledger and a pair of maps. Map/Seek adds
--               the visit of all entries under a prefix, on the side that is
--               executed; Map/Walk is its implementation by the state ledger,
--               Map/Listing one over an association list. Ordered is the order
--               of keys and of the iterator. Memory is a tree that is a
--               function and Sorted one that is a sorted list: the tests run
--               on them.
--   Types       types/unit.go and, of ctrlers/types, account.go, trx.go and
--               its payloads, and block_ctx.go. Counter is the gas pool that
--               block_ctx.go calls.
--   Account     ctrlers/account: FindAccount, transfers, SetDoc, EndBlock.
--   Node        node/trx_executor.go.
--   Gov         ctrlers/gov: Proposal is ctrlers/gov/proposal,
--               Majority its choice of the option that wins, Params the
--               parameters and their merge (ctrlers/types/gov_params.go), and
--               Ctrler the controller over its ledger (ctrler.go,
--               ctrler_block.go, ctrler_punish.go).
--   Vpower      ctrlers/vpower: the limiter of a block's changes,
--               power chunks and the delegations they belong to, the
--               selection of validators and the updates of their set, the
--               ledger's accesses, frozen power and its refund, missed blocks,
--               slashes, and the controller (ctrler.go, ctrler_block.go).
--   Supply      ctrlers/supply: rewards (reward.go), the total supply
--               (supply.go), the computation of what is issued
--               (ctrler_mint.go), and the controller over its ledger.
-- In each, the parent file or the first-named files hold the definitions and
-- the others what is proved of them (of a controller, Blocks and Execution hold
-- definitions too); the Tests files run them, on the data of the Sample files.
--
-- How the code is read.
--   A method on a pointer receiver is a function from the receiver's state to
--   its result and the new state. An error that the code returns is `err`, a
--   run-time panic is `panic`; the state that a failed call leaves behind is
--   kept, as the code keeps it.
--   int64, uint64 and int32 are their bit patterns in ℕ, and uint256.Int is a
--   natural number below 2 ^ 256; each addition, subtraction and product
--   wraps around, and signed comparisons and divisions look at the sign bit.
--   A cached ledger item is a pointer in the code and a value in the model: the
--   caller writes back what it changes, as the modelled callers do. The
--   accounts of one transaction context, where sender, receiver and payer may
--   be one object, are a heap: a function from addresses of objects to
--   accounts.
--   A ledger call with an empty key panics. When Commit of the state ledger
--   fails to open the new version for the imitable side, the model keeps the
--   imitable side it had.
--   sort.Sort is insertion sort: where public keys differ, the orders of the
--   validators have one sorted list only. The options of a proposal are
--   sorted by votes alone, and what is proved of the one chosen holds of any
--   order among equals.
--   A ledger item of another type than the one asserted is nil in the code, and
--   a panic in the model where the code uses it without a test. The writes
--   that a controller defers until after Seek follow it, on every branch.
--   The request for minting that BeginBlock sends to a goroutine and the
--   response that EndBlock waits for are values.
--   No definition uses fuel: every loop of the modelled code goes over a list
--   or over the entries of an iterator, and is recursion on that list.
--
-- Parameters, each with the documented behaviour that the proofs rely on.
--   The tree (cosmos/iavl) is a record of operations. IsHealthy says that no call fails, that a
--   read after a write or a removal sees it and that a saved version is not nil and reads as it was
--   saved; nothing is said of a read of a nil tree, which panics. IsOrdered says that an iterator
--   from a key on gives the entries that are not below it, in ascending order. Item codecs are a
--   record with an encoder and a decoder. The decoder is given the key too: it chooses the type of
--   the item by the key's prefix, and a voting power takes its owners from the key. So Map/IsMap,
--   which the controllers take, lets them Set only an item that belongs under the key (Keyed):
--   GovFits, SupplyFits and VpowerFits say which, and each controller's writes meet them; an
--   account belongs under any key. Map/Implementation and Map/Walk show that the state ledger
--   meets these laws where an item's encoding decodes to it under the keys where it belongs. Of the
--   voting power ledger that takes, besides, that the owners in an item are those of its key.
--   The gas pool, the decoders of payloads, the address check, the parser of
--   governance parameters (a JSON decoder), the decimal and fixed-point numbers
--   of minting and the weights of its beneficiaries (shopspring/decimal and
--   libs/fxnum; an integer taken from a decimal fits 256 bits), the validators that the
--   voting power controller lists, the block's parameters and the handlers of controllers
--   outside Account are arguments.
--
-- Not modelled: mutexes, logging, metrics and events; the order of Seek
-- with ascending false; node/app.go, which calls the controllers in turn, and
-- the construction of transaction contexts (ctrlers/types/trx_ctx.go); the
-- weights of voting power, which approximate over third-party numbers; the EVM,
-- which is go-ethereum's; RPC, queries, keys and signatures, configuration and genesis,
-- which are input and output or third-party code; ledger/v0, which
-- ledger/v1 replaces.
pub mod Base
pub mod Ledger
pub mod Types
pub mod Account
pub mod Node
pub mod Gov
pub mod Vpower
pub mod Supply
