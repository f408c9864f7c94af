-- ===== src/Lib.antt =====
-- A verification library for pyrxd (the Python SDK of the Radiant chain): the cross-chain swap engine
-- of `pyrxd/gravity` and the Bitcoin proofs of `pyrxd/spv`.
--
-- The program. Two parties swap an asset on Radiant (RXD) against a counter leg on Bitcoin (BTC) or
-- Ethereum (ETH) by hash locks with two timeouts, `t_btc` and the shorter `t_rxd`. The state machine
-- and the records of a swap are in `pyrxd/gravity/swap_state.py`; the margins between the two clocks
-- and the gate that says when the taker may claim are in `pyrxd/gravity/swap_coordinator.py`,
-- `finality.py` and `eth_rxd_timelock.py`; the watchtower in `pyrxd/gravity/watch` polls both chains
-- and turns a record and its observations into a decision by `decide`, which calls the gate; its reconciler
-- does so for each swap and hands what is to be told to an alerter, which drops repetitions. The
-- coordinator drives a swap for one party: each of its methods checks the record, calls the legs of the two
-- chains, advances the state machine and writes the record. The SPV package proves that a Bitcoin
-- transaction was mined and pays, from headers and a Merkle branch; its proof builder runs all the checks.
--
-- Files, and the code that each is about:
--   Common             numbers, lists, results (exceptions as values), ratios, hex texts, byte strings
--   Gravity/Machine    `swap_state.py`: states, events, the table, `advance`; Advance and Traces: proofs
--   Gravity/Timelock   `btc_wallet/taproot.py`: `Timelock`; Encoding (BIP68), Normalize (units)
--   Gravity/CrossClock `eth_rxd_timelock.py`; Ordering: the order of the two deadlines
--   Gravity/Finality   `finality.py`: verdicts and `FinalityStallTracker`; Stall: what a stall means
--   Gravity/Margin     `swap_coordinator.py`: `MarginPolicy`, `assess_claim_finality` and their helpers;
--                      Burial, Policy, Gate: proofs
--   Gravity/Terms      `swap_state.py`: `NegotiatedTerms`; Valid: its constructor; Wire: its JSON form
--   Gravity/Record     `swap_state.py`: `SwapRecord`; Wire: its JSON form; Updates: its `with_` methods
--   Gravity/Record/Locators  the locators of `btc_wallet/taproot.py` and `eth_wallet/locator.py`; Codec: their
--                      round trips
--   Gravity/Coordinator  `swap_coordinator.py`: what `SwapCoordinator` keeps and is wired to; Gates
--                      (`pre_btc_lock_check`, with `ref_authenticity.py`), Provenance (the outpoints of
--                      a claim, `btc_wallet/taproot.py`), Secrets, Parts and Steps (its methods), Setup
--                      (its constructor); Moves: what it is allowed to do, as a relation; Histories: its
--                      runs, and those of several that share a seen-store; Interleaved: those of several at
--                      the same time; Shows: what a claim must show; the others: proofs
--   Gravity/Fees         `capped_fee_source.py`, and `FeeInput` of `htlc_spend.py`; Dispense: proofs
--   Gravity/Watch      `watch/decide.py`; Decide/Sound and Safety: the autonomy flags; Faithful and
--                      Branches: what is shown to the operator; Total: no exception
--   Gravity/Watch/Alerts  `watch/alerts.py`: `DedupAlerter`; Paging, Delivered: proofs
--   Gravity/Watch/Reconciler  `watch/reconciler.py`, on Decide and Alerts; Ticks, Pages: proofs
--   Spv/Pow            `spv/pow.py` and `Nbits` of `security/types.py`; Compare, Target: proofs
--   Spv/Merkle         `spv/merkle.py`; Branch, Tree, Binding, Inclusion: proofs
--   Spv/Chain          `spv/chain.py`; Linked: proofs
--   Spv/Payment        `spv/payment.py`; Script, Output: proofs
--   Spv/Witness        `spv/witness.py`; Cursor, Skip, Strip: proofs
--   Spv/Proof          `spv/proof.py`: `CovenantParams` and `build`; Outputs: the walks over a transaction;
--                      Sound and Boundaries: proofs
--   Gravity/Tests, Spv/Tests  runs, and each theorem below at a concrete input
-- A function has its name of the source, without a leading underscore; `__post_init__` of a class is
-- `make_` and the class's name (`make_terms`, `make_policy`, `make_record`). The names of a class's
-- fields and of enum members are those of the source.
--
-- How the code is read. An exception is `err` of a component's error type, one constructor for each
-- `raise`. Python integers that the code checks or takes as not negative are natural numbers, and a
-- comparison after a subtraction is written with the subtrahend on the other side. A float (a block
-- interval, the safety factor) is an exact ratio with a positive denominator; rounding errors of
-- floating point are not modelled. `bytes` are lists of numbers, with a hypothesis that they are below
-- 256 where it matters; hexadecimal texts are lists of ASCII codes, and `bytes.fromhex` skips white
-- space as Python's does. Checks by `isinstance` hold by the types. A message or a reason text is one
-- constructor. JSON objects are records of their keys. Loops are structural recursion on a list or on
-- a count that the data gives, so no fuel is needed; all functions are total.
--
-- A method of the coordinator is an action on a state, which comes back after a raise too: the record in
-- memory, the reserved hashlocks, the records that the durable hook wrote, and the calls of the legs. What
-- the world answers is a record, `Env`, given anew to each call of a method, so that a theorem on a history
-- holds for every sequence of answers. The methods of one coordinator run one after the other, as its lock
-- has it. Several that share a store are interleaved: `taker_funds_btc` is cut in three stages there, up to
-- its gate, the atomic reservation, and from the call of `fund` on.
--
-- In the watchtower a swap's identifier is a number, and the answers of its observer, executor and channel
-- come with each swap of a tick.
--
-- Parameters. SHA-256 is a function argument; where its result matters it has 32 bytes, and collisions
-- are stated, never excluded. What a private key of the fee source owns is one too.
-- The codecs of the two locator classes are an interface, `LocatorCodec`, which Gravity/Record/Locators fills;
-- elsewhere what a locator holds does not matter and is a type parameter. The two legs, the indexer, the credential resolver, the seen-store's
-- failures and the durable hook are fields of `Env`, without laws; theorems that need an answer name it.
--
-- Not modelled: a cancellation inside a method of the coordinator, wiping a secret from memory and logging;
-- the watchtower's executors, acknowledgement file, daemon and network adapters, scripts and transactions,
-- tokens, wallets, the agent and the command line.
pub mod Common
pub mod Gravity
pub mod Spv
