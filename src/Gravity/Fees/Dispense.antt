-- ===== src/Gravity/Fees/Dispense.antt =====
-- What a capped source hands out: a prefix of its pool, once, below the cap, and as much as it announces.
use pyrxd.Common.{
  ℕ, zero, suc, ◌+◌, ◌≤◌, ◌≡◌, refl, sym, ap, ◌∙◌, arith, true, false, ltb, length, List, [], ◌∷◌,
  get_elem?, take, drop, Option, none, some, Result, ok, err, Bool-cases, Option-cases, inl, inr,
  >>-eq-ok, refuse-eq-ok, ◌==◌, ==_iff, bytes_eq_iff,
}
use mathlib.Core.Path.{subst}
use pyrxd.Gravity.Fees.{
  FeeInput, FeeError, pool_empty, duplicate_outpoint, cap_not_positive, pool_exhausted, cap_reached,
  CappedFeeWalletSource, same_outpoint, is_in, has_duplicate, total, check_max, check_owned,
  make_source, remaining_inputs, spendable, remaining_photons, dispense_input, next_fee_input,
  collect, dispense,
}

get_elem?-drop :
    {x : FeeInput} (xs : List FeeInput) (i : ℕ)
    → get_elem? xs i ≡ some x
    → drop i xs ≡ x ∷ drop (suc i) xs
get_elem?-drop [] i h = cc
get_elem?-drop (y ∷ ys) zero h = cc h
get_elem?-drop (y ∷ ys) (suc i) h = get_elem?-drop ys i h

drop_all : (xs : List FeeInput) (i : ℕ) → get_elem? xs i ≡ none → drop i xs ≡ []
drop_all [] zero h = refl
drop_all [] (suc i) h = refl
drop_all (y ∷ ys) zero h = cc
drop_all (y ∷ ys) (suc i) h = drop_all ys i h

get_elem?-lt :
    {x : FeeInput} (xs : List FeeInput) (i : ℕ) → get_elem? xs i ≡ some x → suc i ≤ length xs
get_elem?-lt [] i h = cc
get_elem?-lt (y ∷ ys) zero h = omega arith
get_elem?-lt (y ∷ ys) (suc i) h = omega (arith, get_elem?-lt ys i h)

-- The source after it handed out `x`.
abbrev after : CappedFeeWalletSource → FeeInput → CappedFeeWalletSource
after s x = record s { cursor = suc s.cursor; dispensed_photons = s.dispensed_photons + x.value }

-- The three answers of `next_fee_input`.
data Answers (s : CappedFeeWalletSource)
    : Result FeeError FeeInput × CappedFeeWalletSource → Type 0 where
  exhausted : get_elem? s.pool s.cursor ≡ none → Answers s (err pool_exhausted, s)
  capped :
      (x : FeeInput)
      → get_elem? s.pool s.cursor ≡ some x
      → ltb s.cap (s.dispensed_photons + x.value) ≡ true
      → Answers s (err cap_reached, s)
  hands :
      (x : FeeInput)
      → get_elem? s.pool s.cursor ≡ some x
      → ltb s.cap (s.dispensed_photons + x.value) ≡ false
      → Answers s (ok x, after s x)

next_fee_input-Answers : (s : CappedFeeWalletSource) → Answers s (next_fee_input s)
unfolding next_fee_input dispense_input
next_fee_input-Answers s = elim (Option-cases (get_elem? s.pool s.cursor)) [
  | inl none_left ↦
      subst (λ o. Answers s (dispense_input s o)) (sym none_left) (exhausted none_left)
  | inr (x, there) ↦ elim (Bool-cases (ltb s.cap (s.dispensed_photons + x.value))) [
    | inl over ↦ rw (there, over) (capped x there over)
    | inr fits ↦ rw (there, fits) (hands x there fits)
  ]
]

-- What a source went through.
record Follows (s s' : CappedFeeWalletSource) (out : List FeeInput) : Type 0 where
  inputs : out ≡ take (length out) (drop s.cursor s.pool)
  photons : s'.dispensed_photons ≡ s.dispensed_photons + total out
  within : s.dispensed_photons ≤ s.cap → s.dispensed_photons + total out ≤ s.cap

collect-Follows :
    (n : ℕ) (s : CappedFeeWalletSource)
    → ((t : CappedFeeWalletSource) → Follows t (dispense n t).1 (dispense n t).0)
    → (a : Result FeeError FeeInput × CappedFeeWalletSource) → Answers s a
    → Follows s (collect a.0 (dispense n a.1)).1 (collect a.0 (dispense n a.1)).0
unfolding collect
collect-Follows n s ih _ (exhausted none_left) = ih s
collect-Follows n s ih _ (capped x there over) = ih s
collect-Follows n s ih _ (hands x there fits) =
    let k = ih (after s x) in
    record {
      inputs =
          ap (λ xs. x ∷ xs) k.inputs
          ∙ ap (take (suc (length (dispense n (after s x)).0)))
              (sym (get_elem?-drop s.pool s.cursor there));
      photons = omega (arith, k.photons);
      within = λ h. omega (arith, k.within (ground arith));
    }

dispense-Follows : (n : ℕ) (s : CappedFeeWalletSource) → Follows s (dispense n s).1 (dispense n s).0
unfolding dispense
dispense-Follows zero s = record { inputs = refl; photons = omega arith; within = λ h. omega arith }
dispense-Follows (suc n) s =
    collect-Follows n s (dispense-Follows n) (next_fee_input s) (next_fee_input-Answers s)

-- No two of the inputs name the same output by the same text.
abbrev pub IsApart : FeeInput → List FeeInput → Type 0
IsApart x [] = Unit {0}
IsApart x (y ∷ ys) = ((x.txid ≡ y.txid) × (x.vout ≡ y.vout) → ⊥) × IsApart x ys

abbrev pub AllApart : List FeeInput → Type 0
AllApart [] = Unit {0}
AllApart (x ∷ xs) = IsApart x xs × AllApart xs

same_outpoint-of : (x y : FeeInput) → x.txid ≡ y.txid → x.vout ≡ y.vout → same_outpoint x y ≡ true
unfolding same_outpoint
same_outpoint-of x y a b = rw ((bytes_eq_iff x.txid y.txid).1 a, (==_iff x.vout y.vout).1 b) refl

is_in-IsApart : (x : FeeInput) (ys : List FeeInput) → is_in x ys ≡ false → IsApart x ys
unfolding is_in
is_in-IsApart x [] h = tt
is_in-IsApart x (y ∷ ys) h = (
  λ same. absurd (ground (arith, h, same_outpoint-of x y same.0 same.1)),
  is_in-IsApart x ys (ground (arith, h)),
)

has_duplicate-AllApart : (xs : List FeeInput) → has_duplicate xs ≡ false → AllApart xs
unfolding has_duplicate
has_duplicate-AllApart [] h = tt
has_duplicate-AllApart (x ∷ xs) h =
    (is_in-IsApart x xs (ground (arith, h)), has_duplicate-AllApart xs (ground (arith, h)))

IsApart-take : (k : ℕ) (x : FeeInput) (ys : List FeeInput) → IsApart x ys → IsApart x (take k ys)
IsApart-take zero x ys h = tt
IsApart-take (suc k) x [] h = tt
IsApart-take (suc k) x (y ∷ ys) h = (h.0, IsApart-take k x ys h.1)

AllApart-take : (k : ℕ) (xs : List FeeInput) → AllApart xs → AllApart (take k xs)
AllApart-take zero xs h = tt
AllApart-take (suc k) [] h = tt
AllApart-take (suc k) (x ∷ xs) h = (IsApart-take k x xs h.0, AllApart-take k xs h.1)

module _ (owner_of : List ℕ → Option (List ℕ)) where
  made :
      (pool : List FeeInput) (cap : ℕ) (max_per_input : Option ℕ) (s : CappedFeeWalletSource)
      → make_source owner_of pool cap max_per_input ≡ ok s
      → (has_duplicate pool ≡ false)
        × (s ≡ record { pool = pool; cursor = 0; cap = cap; dispensed_photons = 0 })
  unfolding make_source
  made pool cap max_per_input s h =
      let (some_, h1) = refuse-eq-ok (length pool == 0) pool_empty _ h in
      let (distinct, h2) = refuse-eq-ok (has_duplicate pool) duplicate_outpoint _ h1 in
      let (positive, h3) = refuse-eq-ok (cap == 0) cap_not_positive _ h2 in
      let (small, h4) = >>-eq-ok (check_max max_per_input pool) _ h3 in
      let (owned, h5) = >>-eq-ok (check_owned owner_of pool) _ h4 in (distinct, cc h5)

  -- Of a source that was constructed, whatever number of calls of `next_fee_input` was made: the inputs that
  -- it handed out are the first of its pool, in order; no two of them have the same text of a txid and the same
  -- index; and they are worth what `dispensed_photons` says, which is at most the cap.
  pub dispense-capped :
      (pool : List FeeInput) (cap : ℕ) (max_per_input : Option ℕ) (s : CappedFeeWalletSource)
      (n : ℕ)
      → make_source owner_of pool cap max_per_input ≡ ok s
      → ((dispense n s).0 ≡ take (length (dispense n s).0) pool)
        × AllApart (dispense n s).0
        × ((dispense n s).1.dispensed_photons ≡ total (dispense n s).0)
        × (total (dispense n s).0 ≤ cap)
  dispense-capped pool cap max_per_input s n h =
      let (distinct, same) = made pool cap max_per_input s h in
      let k = dispense-Follows n s in
      let first : (dispense n s).0 ≡ take (length (dispense n s).0) pool =
        k.inputs
        ∙ ap (λ (t : CappedFeeWalletSource). take (length (dispense n s).0) (drop t.cursor t.pool))
            same in
      let fresh : s.dispensed_photons ≡ 0 =
        ap (λ (t : CappedFeeWalletSource). t.dispensed_photons) same in
      let limit : s.cap ≡ cap = ap (λ (t : CappedFeeWalletSource). t.cap) same in
      (
        first,
        subst AllApart (sym first)
            (AllApart-take (length (dispense n s).0) pool (has_duplicate-AllApart pool distinct)),
        omega (arith, k.photons, fresh),
        omega (arith, k.within (omega (arith, fresh)), fresh, limit),
      )

-- A source that refuses keeps refusing.
refuses :
    (n : ℕ) (s : CappedFeeWalletSource) (e : FeeError)
    → next_fee_input s ≡ (err e, s)
    → dispense n s ≡ ([], s)
unfolding dispense collect
refuses zero s e h = refl
refuses (suc n) s e h = rw (h, refuses n s e h) refl

spendable-none : (cap running : ℕ) (xs : List FeeInput) → xs ≡ [] → spendable cap running xs ≡ 0
unfolding spendable
spendable-none cap running xs none_left = rw none_left refl

-- The announcement, and what calls give, on each answer.
collect-remaining :
    (n : ℕ) (s : CappedFeeWalletSource)
    → ((t : CappedFeeWalletSource)
        → remaining_inputs t ≤ n
        → total (dispense n t).0 ≡ remaining_photons t)
    → remaining_inputs s ≤ suc n
    → (a : Result FeeError FeeInput × CappedFeeWalletSource) → next_fee_input s ≡ a
    → Answers s a
    → total (collect a.0 (dispense n a.1)).0 ≡ remaining_photons s
unfolding collect remaining_photons remaining_inputs spendable
collect-remaining n s ih enough _ is (exhausted none_left) =
    ap (λ (p : List FeeInput × CappedFeeWalletSource). total p.0) (refuses n s pool_exhausted is)
    ∙ sym (
        spendable-none s.cap s.dispensed_photons (drop s.cursor s.pool)
          (drop_all s.pool s.cursor none_left))
collect-remaining n s ih enough _ is (capped x there over) =
    ap (λ (p : List FeeInput × CappedFeeWalletSource). total p.0) (refuses n s cap_reached is)
    ∙ rw (get_elem?-drop s.pool s.cursor there, over) refl
collect-remaining n s ih enough _ is (hands x there fits) =
    ap (λ k. x.value + k) (ih (after s x) (omega (arith, get_elem?-lt s.pool s.cursor there)))
    ∙ rw (get_elem?-drop s.pool s.cursor there, fits) refl

remaining_photons-none :
    (s : CappedFeeWalletSource) → remaining_inputs s ≤ 0 → 0 ≡ remaining_photons s
unfolding remaining_inputs remaining_photons
remaining_photons-none s h = elim (Option-cases (get_elem? s.pool s.cursor)) [
  | inl none_left ↦ sym (
      spendable-none s.cap s.dispensed_photons (drop s.cursor s.pool)
        (drop_all s.pool s.cursor none_left))
  | inr (x, there) ↦ absurd (omega (arith, get_elem?-lt s.pool s.cursor there))
]

-- `remaining_photons` is what `next_fee_input` will hand out: of any source, calls for all its remaining
-- inputs, or more, return inputs that are worth just that.
pub remaining_photons-dispense :
    (n : ℕ) (s : CappedFeeWalletSource)
    → remaining_inputs s ≤ n
    → total (dispense n s).0 ≡ remaining_photons s
unfolding dispense
remaining_photons-dispense zero s enough = remaining_photons-none s enough
remaining_photons-dispense (suc n) s enough =
    collect-remaining n s (remaining_photons-dispense n) enough (next_fee_input s) refl
      (next_fee_input-Answers s)
