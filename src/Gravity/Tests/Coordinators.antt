-- ===== src/Gravity/Tests/Coordinators.antt =====
-- Runs of the swap coordinator on a swap of the asset for bitcoin.
use pyrxd.Common.{
  ℕ, ◌≤◌, ◌≡◌, ◌↔◌, refl, arith, true, false, inl, bytes_eq, List, replicate, ◌++◌, [], ◌∷◌, none,
  some, ok, err, ap,
}
use pyrxd.Common.Ratio.{ceil_div, IsPositive}
use pyrxd.Gravity.Timelock.{to_blocks, normalize_to}
use pyrxd.Gravity.Finality.{from_btc_depth}
use pyrxd.Gravity.Machine.{
  SwapState, negotiated, btc_locked, both_locked, secret_revealed, aborted, mutual_refund,
  completed, advance, state_eq,
}
use pyrxd.Gravity.Margin.{
  blocks_of, reserve_to_blocks, value_scaled_burial_blocks, assess_claim_finality,
  assert_timelock_margin, required_burial,
}
use pyrxd.Gravity.Record.{
  Locator, no_locator, btc_locator, SwapRecord, check_spk, check_locator, make_record,
  with_counter_lock, with_radiant_lock, with_state,
}
use pyrxd.Common.Hex.{to_hex, from_hex}
use pyrxd.Gravity.Coordinator.Gates.{
  pre_btc_lock_check, verify_ref_authenticity, check_credential, check_fresh, assert_ordering,
  or_fail,
}
use pyrxd.Gravity.Coordinator.Provenance.{
  btc_input_outpoints_from_raw, take_bytes, take_compact, take_prevouts,
}
use pyrxd.Gravity.Coordinator.Secrets.{btc_secret, btc_finality, assert_claim_tx_spends_our_htlc}
use pyrxd.Gravity.Tests.Swaps.{btc_terms}
use pyrxd.Gravity.Tests.Gates.{policy}
use pyrxd.Gravity.Coordinator.{
  validation_error, other_error, CoordinatorConfig, Env, CoordError, World, has, ◌>>=◌, ◌>>◌,
  then_do, lift, raise_if, get_record, get_seen, put_record, invoke, advance_by, persist_record,
  persist_by, note_write, reserve, reserve_if,
}
use pyrxd.Gravity.Coordinator.Steps.{
  op_fund, op_revalidate, op_scrape, op_refund, op_unwind, perform, taker_funds, check_funding,
  reserve_hashlock, fund_reserved, post_asset_lock_revalidate, taker_scrape_and_claim_asset,
  lock_seen, act_on, claim_with,
}
use pyrxd.Gravity.Coordinator.Parts.{secret_of, finality_of, is_btc, finish, only_from}
use pyrxd.Gravity.Coordinator.Moves.{Moves}
use pyrxd.Gravity.Coordinator.Histories.{History, Shared}
use pyrxd.Gravity.Coordinator.Tracks.{AllOnTrack, History-run}
use pyrxd.Gravity.Coordinator.Once.{fundings}
use pyrxd.Gravity.Coordinator.Interleaved.{checked, reserved, Interleaved, Interleaved-fundings}
use pyrxd.Gravity.Coordinator.Located.{IsSound, History-IsSound}
use pyrxd.Gravity.Coordinator.Recovery.{taker_refund_btc-returns, refund_both-returns}
use pyrxd.Gravity.Coordinator.Claims.{Claimed, MayClaim, scrape_iff}
use pyrxd.Gravity.Coordinator.Refused.{Shared-refuses}
use pyrxd.Gravity.Coordinator.Opens.{AllFit, History-AllFit}
use pyrxd.Gravity.Coordinator.Locking.{IsLocked, revalidate-locks}
use pyrxd.Gravity.Coordinator.Clock.{RefundsInTime}

-- In place of the hash: a secret is its own hash.
abbrev sha256 : List ℕ → List ℕ
sha256 bytes = bytes

abbrev key : List ℕ
key = btc_terms.hashlock

abbrev outpoint : List ℕ
outpoint = replicate 36 1

-- A transaction that spends the outpoint.
abbrev claim_tx : List ℕ
claim_tx = 2 ∷ 0 ∷ 0 ∷ 0 ∷ 1 ∷ outpoint ++ (0 ∷ 0xff ∷ 0xff ∷ 0xff ∷ 0xff ∷ [])

abbrev pub config : CoordinatorConfig
config = record {
  margin_policy = record policy { value_at_risk_photons = some 250 };
  maker_stall_safety_window_blocks = 12;
  min_ref_confirmations = 6;
  accept_nondurable_seen = false;
  accept_estimated_eth_margins = false;
  min_credential_confirmations = 6;
}

-- A world in which every call is answered; a locator is a number.
abbrev env : Env ℕ ℕ
env = record {
  config = config;
  derive_funding_scriptpubkey = λ t. ok (0x51 ∷ []);
  promised_funding_scriptpubkey = λ t. ok (0x51 ∷ []);
  fund = λ t. ok (btc_locator 7);
  locked_amount = λ l. ok 50000;
  claim = λ l p. ok tt;
  refund = λ l t. ok tt;
  scrape_secret = λ e h. ok h;
  confirmations_of_claim = λ tx. ok 3;
  verify_counterparty_funded = none;
  fetch_claim_artifacts = λ h. err other_error;
  assert_claim_provenance = λ h c p. err other_error;
  claim_finality_verdict = λ h. err other_error;
  expected_covenant_scriptpubkey = λ t. ok (0x76 ∷ []);
  covenant_outpoint = λ t. ok key;
  claim_asset = λ r p. ok tt;
  refund_asset = λ r. ok tt;
  resolve_ref = λ ref. ok none;
  resolve_credential = none;
  store_down = false;
  persist = some (λ r. ok tt);
  contract_address = λ e. [];
  prevout_bytes = λ b. outpoint;
}

-- A broadcast that fails.
abbrev failing : Env ℕ ℕ
failing = record env { fund = λ t. err validation_error }

abbrev at : SwapState → Locator ℕ ℕ → World ℕ ℕ
at s l = record {
  current = record {
    state = s;
    terms = btc_terms;
    counterchain_locator = l;
    radiant_covenant_outpoint = none;
    radiant_covenant_spk_hex = none;
  };
  seen = [];
  durable = [];
  calls = [];
}

abbrev start : World ℕ ℕ
start = at negotiated no_locator

start-IsSound : IsSound start.current
unfolding check_spk
start-IsSound = record {
  well_formed = record { on_chain = tt; spk = refl };
  has_locator = λ h. cc h;
}

-- After the funding, and after the covenant was seen.
abbrev funded : World ℕ ℕ
funded = (perform sha256 env (op_fund btc_terms none) start).1

abbrev both : World ℕ ℕ
both = (perform sha256 env (op_revalidate (0x76 ∷ []) none) funded).1

abbrev two_steps : History sha256 start both
two_steps =
    History.does env (op_revalidate (0x76 ∷ []) none)
      (History.does env (op_fund btc_terms none) History.begin)

History-run_example : AllOnTrack negotiated btc_terms (both.current ∷ both.durable)
History-run_example = History-run sha256 refl two_steps

-- A funding whose broadcast fails, and then another coordinator on the same hashlock.
abbrev retried : World ℕ ℕ
retried =
    (perform sha256 env (op_fund btc_terms none)
      (record (perform sha256 failing (op_fund btc_terms none) start).1 {
        current = start.current;
        durable = [];
      })).1

abbrev retrying : Shared sha256 start retried
retrying =
    Shared.does env (op_fund btc_terms none)
      (Shared.turn start.current [] (Shared.does failing (op_fund btc_terms none) Shared.begin))

-- Two coordinators on one hashlock: both pass the gate before either reserves, then one gets the reservation
-- and the other is refused, and the first funds.
abbrev both_gated : World ℕ ℕ
both_gated =
    (check_funding sha256 env btc_terms none
      (record (check_funding sha256 env btc_terms none start).1 {
        current = start.current;
        durable = [];
      })).1

abbrev both_reserved : World ℕ ℕ
both_reserved = (reserve_hashlock sha256 env key (reserve_hashlock sha256 env key both_gated).1).1

abbrev raced : World ℕ ℕ
raced =
    (fund_reserved sha256 env btc_terms start.current
      (record both_reserved { current = start.current; durable = [] })).1

racing : Interleaved sha256 start raced []
unfolding check_funding reserve_hashlock fund_reserved only_from ◌>>=◌ ◌>>◌ then_do lift raise_if
    get_record get_seen persist_record persist_by note_write reserve reserve_if has bytes_eq
    pre_btc_lock_check verify_ref_authenticity check_credential check_fresh assert_ordering or_fail
    assert_timelock_margin blocks_of to_blocks normalize_to state_eq ceil_div
racing = Interleaved.funds env btc_terms start.current [] [] [] (
    Interleaved.reserves env btc_terms start.current (reserved env btc_terms start.current ∷ []) []
      (Interleaved.reserves env btc_terms start.current []
        (checked env btc_terms start.current ∷ [])
        (Interleaved.checks env btc_terms none (
          Interleaved.turn start.current []
            (Interleaved.checks env btc_terms none Interleaved.begin)))))

Interleaved-fundings_example :
    (fundings key raced.calls ≤ 1) × (has raced.seen key ≡ false → fundings key raced.calls ≡ 0)
Interleaved-fundings_example = Interleaved-fundings sha256 key refl racing

abbrev revealed : World ℕ ℕ
revealed = at secret_revealed (btc_locator 7)

History-IsSound_example : IsSound both.current
History-IsSound_example = History-IsSound sha256 start-IsSound two_steps

scrape_iff_example :
    Claimed sha256 env revealed claim_tx key 1010 1000
    ↔ MayClaim sha256 env revealed claim_tx key 1010 1000
scrape_iff_example = scrape_iff sha256 env revealed claim_tx key 1010 1000

History-AllFit_example : AllFit sha256 btc_terms both.calls
History-AllFit_example = History-AllFit sha256 refl two_steps

key_seen : has (key ∷ []) key ≡ true
unfolding has bytes_eq
key_seen = refl

Shared-refuses_example :
    (e : CoordError) × (perform sha256 env
        (op_fund btc_terms none)
        (record start { seen = key ∷ [] })
      ≡ (err e, record start { seen = key ∷ [] }))
Shared-refuses_example = Shared-refuses sha256 env btc_terms none key_seen Shared.begin

-- The funding, the lock of the covenant, and the claim once the secret is out.
swap_runs :
    (funded.current
      ≡ record start.current { state = btc_locked; counterchain_locator = btc_locator 7 })
    × ((perform sha256 env (op_revalidate (0x76 ∷ []) none) funded).0 ≡ ok both.current)
    × (both.current.state ≡ both_locked)
    × ((perform sha256 env (op_scrape claim_tx 1010 1000) revealed).1.current.state ≡ completed)
unfolding perform taker_funds post_asset_lock_revalidate taker_scrape_and_claim_asset lock_seen
    act_on claim_with finish only_from ◌>>=◌ ◌>>◌ then_do lift raise_if get_record get_seen
    put_record invoke advance_by persist_record persist_by note_write reserve reserve_if has
    bytes_eq pre_btc_lock_check verify_ref_authenticity check_credential check_fresh assert_ordering
    or_fail assert_timelock_margin blocks_of to_blocks normalize_to with_counter_lock
    with_radiant_lock with_state make_record check_locator check_spk from_hex to_hex advance
    state_eq secret_of finality_of btc_secret btc_finality assert_claim_tx_spends_our_htlc
    btc_input_outpoints_from_raw take_bytes take_compact take_prevouts assess_claim_finality
    required_burial reserve_to_blocks value_scaled_burial_blocks from_btc_depth ceil_div
swap_runs = (refl, refl, refl, refl)

taker_refund_btc-returns_example :
    (perform sha256 env op_refund funded).0 ≡ ok (record funded.current { state = aborted })
taker_refund_btc-returns_example =
    taker_refund_btc-returns sha256 env start-IsSound
      (History.does env (op_fund btc_terms none) History.begin) refl (λ r. refl)
      (inl (ap (λ (r : SwapRecord ℕ ℕ). r.state) swap_runs.0))

refund_both-returns_example :
    (perform sha256 env op_unwind both).0 ≡ ok (record both.current { state = mutual_refund })
refund_both-returns_example =
    refund_both-returns sha256 env start-IsSound two_steps refl (λ r. refl) swap_runs.2 refl

policy-IsPositive : IsPositive config.margin_policy.rxd_block_interval_s
policy-IsPositive = record { num_pos = omega arith; den_pos = omega arith }

revalidate-locks_example :
    IsLocked sha256 env (0x76 ∷ []) none both.current
    × (is_btc both.current.terms ≡ false
        → RefundsInTime config.margin_policy both.current.terms none)
revalidate-locks_example =
    revalidate-locks sha256 env funded (0x76 ∷ []) none both.current policy-IsPositive swap_runs.1
      swap_runs.2
