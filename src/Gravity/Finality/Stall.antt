-- ===== src/Gravity/Finality/Stall.antt =====
-- What a declared finality stall says of the samples that the tracker has seen.
use pyrxd.Common.{
  ap, ◌∙◌, ◌≢◌, ◌&&◌, Ensures->>=, Ensures-ok, ℕ, ◌+◌, ◌≤◌, ◌<◌, ◌≡◌, refl, arith, Bool, true,
  false, List, [], ◌∷◌, Option, none, some, Result, ok, Ensures, Bool-cases, ◌==◌, ==_iff, ◌>>=◌,
  inl, inr, ltb,
}
use mathlib.Core.Path.{subst}
use pyrxd.Gravity.Finality.{
  CounterClaimFinality, final, counter_chain_not_finalizing, FinalityStallTracker, StallError,
  make_tracker, observe, verdict, progressed, without_depth,
}

-- A sample is a head block and a finalized block; the newest sample comes first.
abbrev pub Sample : Type 0
Sample = ℕ × ℕ

-- The tracker after a list of samples.
unfoldable pub after : FinalityStallTracker → List Sample → Result StallError FinalityStallTracker
after t [] = ok t
after t ((head, finalized) ∷ older) = do
  t' ← after t older
  (t'', _) ← observe t' head finalized
  ok t''

-- The newest samples all show `finalized`, and the first of them showed the head block `start`.
pub data Frozen (finalized start : ℕ) : List Sample → Type 0 where
  first : {older : List Sample} → Frozen finalized start ((start, finalized) ∷ older)
  again :
      {head : ℕ} {older : List Sample}
      → Frozen finalized start older
      → Frozen finalized start ((head, finalized) ∷ older)

-- What the tracker's attributes say of the samples so far.
abbrev Tells : Option ℕ → Option ℕ → List Sample → Type 0
Tells none none samples = Unit
Tells none (some h) samples = ⊥
Tells (some f) none samples = ⊥
Tells (some f) (some h) samples = Frozen f h samples

record Tracks (patience lag : ℕ) (t : FinalityStallTracker) (samples : List Sample) : Type 0 where
  same_patience : t.patience_slots ≡ patience
  same_lag : t.max_normal_lag_slots ≡ lag
  tells : Tells t.stuck_finalized t.head_at_run_start samples

module _ (patience lag head finalized : ℕ) (older : List Sample) where
  -- The tracker after one more sample.
  abbrev Next : FinalityStallTracker × Bool → Type 0
  Next r = Tracks patience lag r.0 ((head, finalized) ∷ older)

  observe_at :
      (stuck start : Option ℕ)
      → Tells stuck start older
      → Ensures Next (
          observe
            (record {
              patience_slots = patience;
              max_normal_lag_slots = lag;
              stuck_finalized = stuck;
              head_at_run_start = start;
            })
            head
            finalized)
  unfolding observe
  observe_at none none s = elim (Bool-cases (ltb head finalized)) [
    | inl bad ↦ rw bad tt
    | inr fine ↦ rw fine (record { same_patience = refl; same_lag = refl; tells = first })
  ]
  observe_at none (some h) s = absurd s
  observe_at (some f) none s = absurd s
  observe_at (some f) (some h) s = elim (Bool-cases (ltb head finalized)) [
    | inl bad ↦ rw bad tt
    | inr fine ↦ elim (Bool-cases (f == finalized)) [
      | inl same ↦
          rw (fine, same)
            (record {
              same_patience = refl;
              same_lag = refl;
              tells =
                  subst (λ g. Frozen f h ((head, g) ∷ older)) ((==_iff f finalized).0 same)
                    (again s);
            })
      | inr new ↦ rw (fine, new) (record { same_patience = refl; same_lag = refl; tells = first })
    ]
  ]

  observe-Tracks :
      (t : FinalityStallTracker)
      → Tracks patience lag t older
      → Ensures Next (observe t head finalized)
  observe-Tracks t k =
      subst (λ u. Ensures Next (observe u head finalized))
        (ground (arith, k.same_patience, k.same_lag))
        (observe_at t.stuck_finalized t.head_at_run_start k.tells)

module _ (patience lag : ℕ) where
  make_tracker-Tracks : Ensures (λ t. Tracks patience lag t []) (make_tracker patience lag)
  unfolding make_tracker
  make_tracker-Tracks = elim (Bool-cases (ltb patience 1)) [
    | inl bad ↦ rw bad tt
    | inr fine ↦ elim (Bool-cases (ltb lag 1)) [
      | inl bad ↦ rw (fine, bad) tt
      | inr fine' ↦ rw (fine, fine') (record { same_patience = refl; same_lag = refl; tells = tt })
    ]
  ]

  after-Tracks :
      (t : FinalityStallTracker) (samples : List Sample)
      → Tracks patience lag t []
      → Ensures (λ u. Tracks patience lag u samples) (after t samples)
  unfolding after
  after-Tracks t [] k = k
  after-Tracks t ((head, finalized) ∷ older) k =
      Ensures->>= (λ u. Tracks patience lag u older)
        (λ u. Tracks patience lag u ((head, finalized) ∷ older)) (after t older)
        (λ u. observe u head finalized >>= λ r. ok r.0) (after-Tracks t older k)
        (λ u k'.
          Ensures->>= (Next patience lag head finalized older)
            (λ u. Tracks patience lag u ((head, finalized) ∷ older)) (observe u head finalized)
            (λ r. ok r.0) (observe-Tracks patience lag head finalized older u k') (λ r n. n))

  declared :
      (stuck start : Option ℕ) (head finalized : ℕ) (older : List Sample) (u : FinalityStallTracker)
      → Tells stuck start older
      → observe
          (record {
            patience_slots = patience;
            max_normal_lag_slots = lag;
            stuck_finalized = stuck;
            head_at_run_start = start;
          })
          head
          finalized
        ≡ ok (u, true)
      → (h0 : ℕ) × Frozen finalized h0 older × (h0 + patience ≤ head) × (finalized + lag < head)
  unfolding observe
  declared none none head finalized older u k h = absurd (ground arith)
  declared none (some x) head finalized older u k h = absurd k
  declared (some f) none head finalized older u k h = absurd k
  declared (some f) (some x) head finalized older u k h =
      let e : f ≡ finalized = ground arith in
      (x, subst (λ g. Frozen g x older) e k, ground arith, ground arith)

-- A stall is declared only on a frozen checkpoint: if a fresh tracker has seen `older` and `observe`
-- then declares a stall at `(head, finalized)`, the newest of the earlier samples all showed that
-- same finalized block, the first of them at a head `h0` at least `patience` blocks below `head`, and
-- the gap to the head exceeds the normal lag.
pub observe-stalled :
    (patience lag : ℕ) (fresh t u : FinalityStallTracker) (older : List Sample) (head finalized : ℕ)
    → make_tracker patience lag ≡ ok fresh
    → after fresh older ≡ ok t
    → observe t head finalized ≡ ok (u, true)
    → (h0 : ℕ) × Frozen finalized h0 older × (h0 + patience ≤ head) × (finalized + lag < head)
observe-stalled patience lag fresh t u older head finalized made seen stalled =
    let k0 = Ensures-ok (λ v. Tracks patience lag v []) _ (make_tracker-Tracks patience lag) made in
    let k =
      Ensures-ok (λ v. Tracks patience lag v older) _ (after-Tracks patience lag fresh older k0)
        seen in
    declared patience lag t.stuck_finalized t.head_at_run_start head finalized older u k.tells
      (ap (λ v. observe v head finalized) (ground (arith, k.same_patience, k.same_lag)) ∙ stalled)

-- Samples that all show the finalized block `f`.
abbrev pub AllAt : ℕ → List Sample → Type 0
AllAt f [] = Unit
AllAt f ((head, finalized) ∷ older) = (finalized ≡ f) × (f ≤ head) × AllAt f older

observe_same :
    (t : FinalityStallTracker) (f head : ℕ)
    → t.stuck_finalized ≡ some f
    → f ≤ head
    → (b : Bool) × (observe t head f ≡ ok (t, b))
unfolding observe
observe_same t f head e h = (
  progressed t.head_at_run_start t.patience_slots head && ltb (f + t.max_normal_lag_slots) head,
  ground arith,
)

after_same :
    (t : FinalityStallTracker) (f : ℕ) (samples : List Sample)
    → t.stuck_finalized ≡ some f
    → AllAt f samples
    → after t samples ≡ ok t
unfolding after
after_same t f [] e a = refl
after_same t f ((head, finalized) ∷ older) e (same, below, rest) =
    let (b, o) = observe_same t f head e below in rw (after_same t f older e rest, same, o)

-- And it is declared: once the checkpoint has stayed at `f` since the head `h0`, whatever heads were
-- seen in between, `observe` declares a stall at the first head that is `patience` blocks past `h0`
-- and more than the normal lag past `f`.
pub after-observe_declares :
    (t : FinalityStallTracker) (f h0 head : ℕ) (samples : List Sample)
    → t.stuck_finalized ≡ some f
    → t.head_at_run_start ≡ some h0
    → AllAt f samples
    → h0 + t.patience_slots ≤ head
    → f + t.max_normal_lag_slots < head
    → (after t samples >>= λ t'. observe t' head f) ≡ ok (t, true)
unfolding observe
after-observe_declares t f h0 head samples e s a p l =
    rw (after_same t f samples e a) (ground arith)

-- `verdict` never changes a final verdict or the tracker under it. On any other it answers with
-- `counter_chain_not_finalizing` if `observe` declares a stall and with the given verdict if not, and
-- it raises when `observe` raises.
pub verdict_lem :
    (t : FinalityStallTracker) (v : CounterClaimFinality) (head finalized : ℕ)
    → (v.state ≡ final → verdict t v head finalized ≡ ok (t, v))
      × ((u : FinalityStallTracker)
          → v.state ≢ final
          → observe t head finalized ≡ ok (u, true)
          → verdict t v head finalized ≡ ok (u, without_depth counter_chain_not_finalizing))
      × ((u : FinalityStallTracker)
          → v.state ≢ final
          → observe t head finalized ≡ ok (u, false)
          → verdict t v head finalized ≡ ok (u, v))
verdict_lem t v head finalized = (
  λ e. unfold verdict in ground arith,
  λ u e o. unfold verdict in ground arith,
  λ u e o. unfold verdict in ground arith,
)
