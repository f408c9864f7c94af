-- ===== src/Gravity/Coordinator.antt =====
-- src/pyrxd/gravity/swap_coordinator.py: what `SwapCoordinator` is wired to and the state it keeps. A
-- method is an action on that state, which comes back after a raise too. The chain legs, the indexer,
-- the clock and the durable hook answer through `Env`, with an exception as an answer. A step of the
-- coordinator holds its lock, so its record is its own; other coordinators are in Interleaved.
pub mod Gates
pub mod Provenance
pub mod Secrets
pub mod Parts
pub mod Steps
pub mod Moves
pub mod Rules
pub mod Verified
pub mod Revalidates
pub mod Refines
pub mod Histories
pub mod Tracks
pub mod Once
pub mod Interleaved
pub mod Located
pub mod Recovery
pub mod Shows
pub mod Claims
pub mod Refused
pub mod Opens
pub mod Clock
pub mod Finishing
pub mod Locking
pub mod Setup
use pyrxd.Common.{
  ℕ, ◌≡◌, Bool, true, false, not, ◌||◌, bytes_eq, length, ◌==◌, if◌then◌else◌, List, [], ◌∷◌,
  Option, none, some, Result, ok, err, map_err,
}
use pyrxd.Gravity.Timelock.{Timelock}
use pyrxd.Gravity.CrossClock.{CrossClockError}
use pyrxd.Gravity.Finality.{CounterClaimFinality}
use pyrxd.Gravity.Machine.{SwapState, SwapEvent, MachineError, advance}
use pyrxd.Gravity.Margin.{MarginPolicy, MarginError}
use pyrxd.Gravity.Terms.{NegotiatedTerms}
use pyrxd.Gravity.Record.{Locator, SwapRecord, RecordError, with_state}
use Prim.Native.String.{String}

-- An exception of a leg, of the indexer or of the hook: a `ValidationError` or any other.
pub data Raised : Type 0 where
  validation_error other_error : Raised

-- `ResolvedRef`; the payload hash is not compared by the coordinator.
pub record ResolvedRef : Type 0 where
  pub genesis_outpoint : List ℕ
  pub has_gly_marker : Bool
  pub confirmations : ℕ

-- `CoordinatorConfig`; its checks are of types and of signs.
pub record CoordinatorConfig : Type 0 where
  pub margin_policy : MarginPolicy
  pub maker_stall_safety_window_blocks : ℕ
  pub min_ref_confirmations : ℕ
  pub accept_nondurable_seen : Bool
  pub accept_estimated_eth_margins : Bool
  pub min_credential_confirmations : ℕ

-- What a secret is scraped from: the bytes of a BTC transaction, or the candidates of an ETH one.
pub data Evidence : Type 0 where
  raw_tx : List ℕ → Evidence
  artifacts : List (List ℕ) → Evidence

-- A call of a leg that acts on a chain, and what it was given.
pub data Call (B E : Type 0) : Type 0 where
  call_fund : NegotiatedTerms → Call B E
  call_claim : Locator B E → List ℕ → Call B E
  call_refund : Locator B E → Timelock → Call B E
  call_claim_asset : SwapRecord B E → List ℕ → Call B E
  call_refund_asset : SwapRecord B E → Call B E

-- What the coordinator is given: its configuration, and the answers of the things it calls.
pub record Env (B E : Type 0) : Type 0 where
  pub config : CoordinatorConfig
  pub derive_funding_scriptpubkey : NegotiatedTerms → Result Raised (List ℕ)
  pub promised_funding_scriptpubkey : NegotiatedTerms → Result Raised (List ℕ)
  pub fund : NegotiatedTerms → Result Raised (Locator B E)
  pub locked_amount : Locator B E → Result Raised ℕ
  pub claim : Locator B E → List ℕ → Result Raised (Unit {0})
  pub refund : Locator B E → Timelock → Result Raised (Unit {0})
  pub scrape_secret : Evidence → List ℕ → Result Raised (List ℕ)
  pub confirmations_of_claim : List ℕ → Result Raised ℕ
  -- Absent on a BTC leg; the last argument says whether the read is pinned to `finalized`.
  pub verify_counterparty_funded : Option (List ℕ → NegotiatedTerms → Bool → Result Raised E)
  pub fetch_claim_artifacts : List ℕ → Result Raised (List (List ℕ))
  pub assert_claim_provenance : List ℕ → List ℕ → List ℕ → Result Raised (Unit {0})
  pub claim_finality_verdict : List ℕ → Result Raised CounterClaimFinality
  pub expected_covenant_scriptpubkey : NegotiatedTerms → Result Raised (List ℕ)
  pub covenant_outpoint : NegotiatedTerms → Result Raised (List ℕ)
  pub claim_asset : SwapRecord B E → List ℕ → Result Raised (Unit {0})
  pub refund_asset : SwapRecord B E → Result Raised (Unit {0})
  pub resolve_ref : List ℕ → Result Raised (Option ResolvedRef)
  -- From the credential, the depth asked for, the variant and the reference: the payout hash of its owner.
  pub resolve_credential : Option (List ℕ → ℕ → String → List ℕ → Result Raised (Option (List ℕ)))
  pub store_down : Bool
  pub persist : Option (SwapRecord B E → Result Raised (Unit {0}))
  -- `locator.contract_address` and `locator.funding_outpoint.prevout_bytes()`.
  pub contract_address : E → List ℕ
  pub prevout_bytes : B → List ℕ

pub data RefError : Type 0 where
  unknown_variant ref_on_rxd ref_missing indexer_failed no_token outpoint_differs : RefError
  no_marker too_shallow : RefError

pub data OrderError : Type 0 where
  clock_missing eth_timeout_missing margin_missing : OrderError
  margin : MarginError → OrderError
  cross_clock : CrossClockError → OrderError

-- The reasons of `PreBtcLockGate(ok=False)`.
pub data GateRefusal : Type 0 where
  ref_not_authentic : RefError → GateRefusal
  no_resolver credential_unknown not_the_recipient credential_failed : GateRefusal
  hashlock_reused store_unavailable : GateRefusal
  margin_failed : OrderError → GateRefusal
  spk_not_derived spk_differs : GateRefusal

pub data TxError : Type 0 where
  truncated bad_input_count script_too_long : TxError

pub data CoordError : Type 0 where
  wrong_state : SwapState → CoordError
  gate_refused : GateRefusal → CoordError
  seen_store_unavailable already_reserved not_a_locator wrong_amount : CoordError
  spk_not_recomputed never_verified no_verifier not_eth no_locator_on_record : CoordError
  wrong_preimage other_tx : CoordError
  unparsable_tx : TxError → CoordError
  order : OrderError → CoordError
  gate : MarginError → CoordError
  machine : MachineError → CoordError
  bad_record : RecordError → CoordError
  raised : Raised → CoordError

-- `except ValidationError` catches all of the program's own errors here.
abbrev pub is_validation : CoordError → Bool
is_validation (raised other_error) = false
is_validation _ = true

-- Byte strings in a list.
unfoldable pub has : List (List ℕ) → List ℕ → Bool
has [] h = false
has (x ∷ xs) h = bytes_eq x h || has xs h

module _ (B E : Type 0) where
  -- The record in memory, the hashlocks of the seen-store, what the hook wrote and what the legs were
  -- called with, the latest first.
  pub record World : Type 0 where
    pub current : SwapRecord B E
    pub seen : List (List ℕ)
    pub durable : List (SwapRecord B E)
    pub calls : List (Call B E)

  abbrev pub Action : Type 0 → Type 0
  Action A = World → Result CoordError A × World

module _ {B E : Type 0} where
  -- What follows a call that returned; after a raise nothing does.
  unfoldable pub then_do :
      {A C : Type 0}
      → Result CoordError A × World B E
      → (A → Action B E C)
      → Result CoordError C × World B E
  then_do (ok a, w) f = f a w
  then_do (err e, w) f = (err e, w)

  -- The monad is shut: proofs use its rules.
  infixl 5 ◌>>=◌ ◌>>◌
  unfoldable pub ◌>>=◌ : {A C : Type 0} → Action B E A → (A → Action B E C) → Action B E C
  unfolding then_do
  ◌>>=◌ m f w = then_do (m w) f

  unfoldable pub ◌>>◌ : {C : Type 0} → Action B E (Unit {0}) → Action B E C → Action B E C
  unfolding ◌>>=◌
  m >> k = m >>= λ _. k

  -- A check or a read, which leaves the state alone.
  unfoldable pub lift : {A : Type 0} → Result CoordError A → Action B E A
  lift r w = (r, w)

  -- `if bad: raise e`.
  unfoldable pub raise_if : Bool → CoordError → Action B E (Unit {0})
  raise_if bad e w = (if bad then err e else ok tt, w)

  unfoldable pub get_record : Action B E (SwapRecord B E)
  get_record w = (ok w.current, w)

  unfoldable pub get_seen : Action B E (List (List ℕ))
  get_seen w = (ok w.seen, w)

  -- `self.record = …`, of an update that the constructor may refuse.
  unfoldable pub put_record : Result RecordError (SwapRecord B E) → Action B E (Unit {0})
  put_record r w = elim r [
    | err e ↦ (err (bad_record e), w)
    | ok r' ↦ (ok tt, record w { current = r' })
  ]

  -- A call that acts on a chain; it is noted whether it returns or raises.
  unfoldable pub invoke : {A : Type 0} → Call B E → Result Raised A → Action B E A
  invoke c r w = (map_err raised r, record w { calls = c ∷ w.calls })

  -- `SwapCoordinator._advance`.
  unfoldable pub advance_by : SwapEvent → Action B E (Unit {0})
  unfolding ◌>>=◌ lift get_record put_record
  advance_by event = do
    r ← get_record
    new_state ← lift (map_err machine (advance r.state event))
    put_record (with_state new_state r)

  -- `SwapCoordinator._persist_record` of the record in memory.
  unfoldable pub note_write : Result Raised (Unit {0}) → Action B E (Unit {0})
  note_write (ok written) w = (ok tt, record w { durable = w.current ∷ w.durable })
  note_write (err e) w = (err (raised e), w)

  unfoldable pub persist_by :
      Option (SwapRecord B E → Result Raised (Unit {0})) → Action B E (Unit {0})
  unfolding note_write
  persist_by none w = (ok tt, w)
  persist_by (some hook) w = note_write (hook w.current) w

  unfoldable pub persist_record : Env B E → Action B E (Unit {0})
  unfolding persist_by
  persist_record env w = persist_by env.persist w

  -- `seen_store.reserve`, as `DurableSeenStore` does it: an atomic test-and-set. The store raises, has
  -- the hashlock, or takes it in.
  unfoldable pub reserve_if : Bool → Bool → List ℕ → Action B E Bool
  reserve_if true old h w = (err seen_store_unavailable, w)
  reserve_if false true h w = (ok false, w)
  reserve_if false false h w = (ok true, record w { seen = h ∷ w.seen })

  unfoldable pub reserve : Env B E → List ℕ → Action B E Bool
  unfolding reserve_if
  reserve env h w = reserve_if (env.store_down || not (length h == 32)) (has w.seen h) h w
