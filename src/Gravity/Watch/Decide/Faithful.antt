-- ===== src/Gravity/Watch/Decide/Faithful.antt =====
-- What the single branches of `decide` tell the operator.
use pyrxd.Common.{
  ℕ, ◌≡◌, ◌≢◌, ◌⊎◌, inl, inr, Bool, true, false, ◌||◌, if◌then◌else◌, Option, none, some, Result,
  ok, err, Ensures, Bool-cases, Result-cases,
}
use pyrxd.Gravity.Machine.{SwapState, secret_revealed, state_eq}
use pyrxd.Gravity.Finality.{CounterClaimState, CounterClaimFinality, from_btc_depth, without_depth}
use pyrxd.Gravity.Margin.{
  MarginPolicy, MarginError, ClaimFinality, safe, wait, squeezed, assess_claim_finality,
}
use pyrxd.Gravity.Terms.{NegotiatedTerms}
use pyrxd.Gravity.Watch.Decide.{
  Intent, page_claim, Observations, Decision, page, btc_refund_matured, value_at_risk_photons,
  required_btc_depth_blocks, refund_opens_at, claim_page, both_locked_page, btc_locked_page,
  stall_page, unassessed, Reason, Action, watch, retire,
}
use text.Mathlib.Text.{◌==◌ as str_eq}

-- The verdict on the maker's counter-leg claim that the observations give.
pub data IsVerdict (t : NegotiatedTerms) (o : Observations) (p : MarginPolicy)
    : CounterClaimFinality → Type 0 where
  of_depth :
      (c depth : ℕ)
      → str_eq t.counter_chain "btc" ≡ true
      → o.btc_claim_confirmations ≡ some c
      → required_btc_depth_blocks p ≡ ok depth
      → IsVerdict t o p (from_btc_depth c depth)
  of_checkpoint :
      (f : CounterClaimState)
      → str_eq t.counter_chain "eth" ≡ true
      → o.eth_claim_finality ≡ some f
      → IsVerdict t o p (without_depth f)

-- The reorg-finality gate gives this answer on what was observed.
pub record GateSays (t : NegotiatedTerms) (o : Observations) (p : MarginPolicy)
    (answer : ClaimFinality) : Type 0 where
  pub verdict : CounterClaimFinality
  pub observed : IsVerdict t o p verdict
  pub lock : ℕ
  pub lock_seen : o.asset_locked_at_height ≡ some lock
  pub says :
      assess_claim_finality verdict o.now_rxd_height lock t.t_rxd p (value_at_risk_photons t)
      ≡ ok answer

-- The secret is out, by the chain or by the record.
abbrev pub is_revealed : SwapState → NegotiatedTerms → Observations → Bool
is_revealed s t o =
    (if str_eq t.counter_chain "eth" then o.eth_claim_detected else o.maker_has_claimed_btc)
    || state_eq s secret_revealed

-- A decision on a swap that is not over.
pub record IsFaithful (s : SwapState) (t : NegotiatedTerms) (o : Observations) (p : MarginPolicy)
    (d : Decision) : Type 0 where
  pub goes_on : d.intent ≢ retire
  pub claims : d.intent ≡ page_claim → GateSays t o p safe
  pub watches : d.intent ≡ watch → (GateSays t o p wait) ⊎ (is_revealed s t o ≡ false)
  pub deadline :
      (n : ℕ)
      → d.deadline_rxd_height ≡ some n
      → (lock : ℕ) × (o.asset_locked_at_height ≡ some lock) × (refund_opens_at p t lock ≡ ok n)

module _ (s : SwapState) (t : NegotiatedTerms) (o : Observations) (p : MarginPolicy) where
  pub unassessed-IsFaithful : IsFaithful s t o p (unassessed o.low_corroboration)
  unassessed-IsFaithful = record {
    goes_on = λ h. cc;
    claims = λ h. cc;
    watches = λ h. cc;
    deadline = λ n h. cc;
  }

  -- A page without a deadline, on a secret not yet revealed.
  pub silent-IsFaithful :
      (i : Intent) (r : Reason) (a : Option Action) (c : Bool)
      → i ≢ retire
      → i ≢ page_claim
      → is_revealed s t o ≡ false
      → IsFaithful s t o p (page i r a none c)
  silent-IsFaithful i r a c k l silent = record {
    goes_on = k;
    claims = λ h. absurd (l h);
    watches = λ h. inr silent;
    deadline = λ n h. cc;
  }

  module _ (v : CounterClaimFinality) (observed : IsVerdict t o p v) (lock deadline : ℕ)
      (seen : o.asset_locked_at_height ≡ some lock)
      (opens : refund_opens_at p t lock ≡ ok deadline) where
    at_deadline :
        (n : ℕ)
        → some deadline ≡ some n
        → (lock : ℕ) × (o.asset_locked_at_height ≡ some lock) × (refund_opens_at p t lock ≡ ok n)
    at_deadline n h = (lock, seen, cc (opens, h))

    pub claim_page-IsFaithful :
        (arm : Bool) (r : Result MarginError ClaimFinality) (c : Bool)
        → assess_claim_finality v o.now_rxd_height lock t.t_rxd p (value_at_risk_photons t) ≡ r
        → IsFaithful s t o p (claim_page arm r deadline c)
    unfolding claim_page
    claim_page-IsFaithful arm (err e) c says = record {
      goes_on = λ h. cc;
      claims = λ h. cc;
      watches = λ h. cc;
      deadline = at_deadline;
    }
    claim_page-IsFaithful arm (ok safe) c says = record {
      goes_on = λ h. cc;
      claims = λ h. record {
        verdict = v;
        observed = observed;
        lock = lock;
        lock_seen = seen;
        says = says;
      };
      watches = λ h. cc;
      deadline = at_deadline;
    }
    claim_page-IsFaithful arm (ok wait) c says = record {
      goes_on = λ h. cc;
      claims = λ h. cc;
      watches = λ h.
          inl (record {
            verdict = v;
            observed = observed;
            lock = lock;
            lock_seen = seen;
            says = says;
          });
      deadline = at_deadline;
    }
    claim_page-IsFaithful arm (ok squeezed) c says = record {
      goes_on = λ h. cc;
      claims = λ h. cc;
      watches = λ h. cc;
      deadline = at_deadline;
    }

  module _ (silent : is_revealed s t o ≡ false) where
    stall_page-IsFaithful :
        (r : Result MarginError Bool) (n : ℕ) (c : Bool) (lock : ℕ)
        → o.asset_locked_at_height ≡ some lock
        → refund_opens_at p t lock ≡ ok n
        → IsFaithful s t o p (stall_page r n c)
    unfolding stall_page
    stall_page-IsFaithful (err e) n c lock seen opens = record {
      goes_on = λ h. cc;
      claims = λ h. cc;
      watches = λ h. cc;
      deadline = λ m h. (lock, seen, cc (opens, h));
    }
    stall_page-IsFaithful (ok true) n c lock seen opens = record {
      goes_on = λ h. cc;
      claims = λ h. cc;
      watches = λ h. cc;
      deadline = λ m h. (lock, seen, cc (opens, h));
    }
    stall_page-IsFaithful (ok false) n c lock seen opens = record {
      goes_on = λ h. cc;
      claims = λ h. cc;
      watches = λ h. inr silent;
      deadline = λ m h. (lock, seen, cc (opens, h));
    }

    pub both_locked_page-IsFaithful :
        (window : ℕ) (lock : Option ℕ)
        → o.asset_locked_at_height ≡ lock
        → Ensures (IsFaithful s t o p) (both_locked_page t o p window lock)
    unfolding both_locked_page
    both_locked_page-IsFaithful window none seen =
        silent-IsFaithful _ _ _ _ (λ h. cc) (λ h. cc) silent
    both_locked_page-IsFaithful window (some lock) seen =
        elim (Result-cases (refund_opens_at p t lock)) [
          | inr (e, bad) ↦ rw bad tt
          | inl (deadline, opens) ↦
              rw opens (stall_page-IsFaithful _ deadline o.low_corroboration lock seen opens)
        ]

    pub btc_locked_page-IsFaithful :
        (lock : Option ℕ) → IsFaithful s t o p (btc_locked_page t o lock)
    unfolding btc_locked_page
    btc_locked_page-IsFaithful (some lock) = silent-IsFaithful _ _ _ _ (λ h. cc) (λ h. cc) silent
    btc_locked_page-IsFaithful none = elim (Bool-cases (btc_refund_matured t o)) [
      | inr early ↦ rw early (silent-IsFaithful _ _ _ _ (λ h. cc) (λ h. cc) silent)
      | inl mature ↦
          rw mature (record {
            goes_on = λ h. cc;
            claims = λ h. cc;
            watches = λ h. cc;
            deadline = λ n h. cc;
          })
    ]
