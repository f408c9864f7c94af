-- ===== src/Gravity/Terms/Valid.antt =====
-- What holds of terms that were constructed, and that construction keeps such terms as they are.
use pyrxd.Common.{
  ℕ, ◌<◌, ◌≡◌, refl, arith, true, false, ◌||◌, ◌⊎◌, inl, inr, bytes_eq_iff, length, List, Option,
  none, some, ok, Bool-cases, ok_value,
}
use pyrxd.Gravity.Timelock.{blocks}
use pyrxd.Gravity.Terms.{
  NegotiatedTerms, b32, zero32, resolve_value, check_timeout, check_keys, check_order, check_asset,
  make_terms,
}
use Prim.Native.String.{String}
use text.Mathlib.TextEquality.{eq_iff}
use text.Mathlib.Text.{◌==◌ as str_eq}

-- The counter leg of a BTC swap and of an ETH swap.
pub record IsBtcLeg (t : NegotiatedTerms) : Type 0 where
  pub chain : str_eq t.counter_chain "btc" ≡ true
  pub mirrored : t.value_amount ≡ t.btc_sats
  pub no_timeout : t.eth_timeout_unix_s ≡ none

pub record IsEthLeg (t : NegotiatedTerms) : Type 0 where
  pub chain : str_eq t.counter_chain "eth" ≡ true
  pub not_btc : str_eq t.counter_chain "btc" ≡ false
  pub amount : 0 < t.value_amount
  pub timeout : (s : ℕ) × (t.eth_timeout_unix_s ≡ some s) × (0 < s)
  pub no_claim_key : t.btc_claim_pubkey_xonly ≡ zero32
  pub no_refund_key : t.btc_refund_pubkey_xonly ≡ zero32

pub record IsValid (t : NegotiatedTerms) : Type 0 where
  pub hashlock_32 : length t.hashlock ≡ 32
  pub sats : 0 < t.btc_sats
  pub amount : 0 < t.radiant_amount
  pub leg : IsBtcLeg t ⊎ IsEthLeg t
  pub short_leg : t.t_rxd.unit ≡ blocks
  pub asset : check_asset t.asset_variant t.genesis_ref ≡ ok tt
  pub taker_32 : length t.taker_dest_hash ≡ 32
  pub maker_32 : length t.maker_dest_hash ≡ 32
  pub credential : (length t.credential_ref ≡ 0) ⊎ (length t.credential_ref ≡ 36)
  pub claim_32 : length t.btc_claim_pubkey_xonly ≡ 32
  pub refund_32 : length t.btc_refund_pubkey_xonly ≡ 32
  pub order : t.t_btc.unit ≡ blocks → t.t_rxd.value < t.t_btc.value

b32_lem : (v : List ℕ) → b32 v ≡ ok tt → length v ≡ 32
unfolding b32
b32_lem v h = ground arith

-- What the body of `__post_init__` has seen pass.
record Passed (t : NegotiatedTerms) (value : ℕ) : Type 0 where
  hashlock : b32 t.hashlock ≡ ok tt
  sats : 0 < t.btc_sats
  amount : 0 < t.radiant_amount
  chain : (str_eq t.counter_chain "btc" || str_eq t.counter_chain "eth") ≡ true
  resolved : resolve_value t.counter_chain t.btc_sats t.value_amount ≡ ok value
  positive : 0 < value
  timeout : check_timeout t.counter_chain t.eth_timeout_unix_s ≡ ok tt
  short_leg : t.t_rxd.unit ≡ blocks
  asset : check_asset t.asset_variant t.genesis_ref ≡ ok tt
  taker : b32 t.taker_dest_hash ≡ ok tt
  maker : b32 t.maker_dest_hash ≡ ok tt
  credential : (length t.credential_ref ≡ 0) ⊎ (length t.credential_ref ≡ 36)
  keys : check_keys t.counter_chain t.btc_claim_pubkey_xonly t.btc_refund_pubkey_xonly ≡ ok tt
  order : check_order t.t_btc t.t_rxd ≡ ok tt

passed :
    (t u : NegotiatedTerms)
    → make_terms t ≡ ok u
    → (value : ℕ) × Passed t value × (u ≡ record t { value_amount = value })
unfolding make_terms
passed t u h =
    let (value, resolved) =
      ok_value (resolve_value t.counter_chain t.btc_sats t.value_amount) (λ e bad. ground arith) in
    (value, ground arith, ground arith)

keys_lem :
    (chain : String) (claim refund : List ℕ)
    → check_keys chain claim refund ≡ ok tt
    → (length claim ≡ 32)
      × (length refund ≡ 32)
      × (str_eq chain "btc" ≡ false → (claim ≡ zero32) × (refund ≡ zero32))
unfolding check_keys
keys_lem chain claim refund h =
    ground (arith, bytes_eq_iff claim zero32, bytes_eq_iff refund zero32)

-- A chain is not both.
pub btc_not_eth : (c : String) → str_eq c "btc" ≡ true → str_eq c "eth" ≡ false
btc_not_eth c h = rw ((eq_iff c "btc").0 h) refl

timeout_lem :
    (chain : String) (timeout : Option ℕ)
    → str_eq chain "eth" ≡ true
    → check_timeout chain timeout ≡ ok tt
    → (s : ℕ) × (timeout ≡ some s) × (0 < s)
unfolding check_timeout
timeout_lem chain none e h = absurd (ground arith)
timeout_lem chain (some s) e h = (s, refl, ground arith)

leg_lem :
    (t : NegotiatedTerms) (value : ℕ)
    → Passed t value
    → IsBtcLeg (record t { value_amount = value }) ⊎ IsEthLeg (record t { value_amount = value })
unfolding resolve_value check_timeout
leg_lem t value p = elim (Bool-cases (str_eq t.counter_chain "btc")) [
  | inl btc ↦ inl (record {
    chain = btc;
    mirrored = ground (arith, p.resolved);
    no_timeout = ground (arith, p.timeout, btc_not_eth _ btc);
  })
  | inr other ↦ inr (record {
    chain = ground (arith, p.chain);
    not_btc = other;
    amount = p.positive;
    timeout = timeout_lem _ _ (ground (arith, p.chain, other)) p.timeout;
    no_claim_key = ((keys_lem _ _ _ p.keys).2 other).0;
    no_refund_key = ((keys_lem _ _ _ p.keys).2 other).1;
  })
]

-- Terms that were constructed are valid.
pub make_terms-IsValid : (t u : NegotiatedTerms) → make_terms t ≡ ok u → IsValid u
make_terms-IsValid t u h =
    let (value, p, e) = passed t u h in
    let keys = keys_lem _ _ _ p.keys in
    rw e (record {
      hashlock_32 = b32_lem _ p.hashlock;
      sats = p.sats;
      amount = p.amount;
      leg = leg_lem t value p;
      short_leg = p.short_leg;
      asset = p.asset;
      taker_32 = b32_lem _ p.taker;
      maker_32 = b32_lem _ p.maker;
      credential = p.credential;
      claim_32 = keys.0;
      refund_32 = keys.1;
      order = unfold check_order in λ b. ground (arith, p.order, p.short_leg);
    })

pass :
    (t : NegotiatedTerms) (value : ℕ)
    → Passed t value
    → make_terms t ≡ ok (record t { value_amount = value })
unfolding make_terms
pass t value p = ground (
  arith, p.hashlock, p.sats, p.amount, p.chain, p.resolved, p.positive, p.timeout, p.short_leg,
  p.asset, p.taker, p.maker, p.credential, p.keys, p.order,
)

keys_pass :
    (t : NegotiatedTerms)
    → IsValid t
    → check_keys t.counter_chain t.btc_claim_pubkey_xonly t.btc_refund_pubkey_xonly ≡ ok tt
unfolding check_keys
keys_pass t v = elim v.leg [
  | inl btc ↦ ground (arith, btc.chain, v.claim_32, v.refund_32)
  | inr eth ↦ ground (
    arith,
    (bytes_eq_iff _ zero32).1 eth.no_claim_key,
    (bytes_eq_iff _ zero32).1 eth.no_refund_key,
    v.claim_32,
    v.refund_32,
  )
]

timeout_pass :
    (t : NegotiatedTerms) → IsValid t → check_timeout t.counter_chain t.eth_timeout_unix_s ≡ ok tt
unfolding check_timeout
timeout_pass t v = elim v.leg [
  | inl btc ↦ ground (arith, btc_not_eth _ btc.chain, btc.no_timeout)
  | inr eth ↦ let (s, e, pos) = eth.timeout in ground (arith, eth.chain)
]

chain_lem :
    (t : NegotiatedTerms)
    → IsValid t
    → (str_eq t.counter_chain "btc" || str_eq t.counter_chain "eth") ≡ true
chain_lem t v = elim v.leg [ inl btc ↦ rw btc.chain | inr eth ↦ rw (eth.not_btc, eth.chain) ]

amount_pos : (t : NegotiatedTerms) → IsValid t → 0 < t.value_amount
amount_pos t v = elim v.leg [ inl btc ↦ omega (arith, btc.mirrored, v.sats) | inr eth ↦ eth.amount ]

resolve_valid :
    (t : NegotiatedTerms)
    → IsValid t
    → resolve_value t.counter_chain t.btc_sats t.value_amount ≡ ok t.value_amount
unfolding resolve_value
resolve_valid t v = elim v.leg [
  | inl btc ↦ ground (arith, btc.chain, btc.mirrored)
  | inr eth ↦ ground (arith, eth.not_btc, eth.amount)
]

-- Construction gives back valid terms, from whatever amount resolves to theirs.
pub make_terms-resolve_value :
    (t : NegotiatedTerms) (raw : ℕ)
    → IsValid t
    → resolve_value t.counter_chain t.btc_sats raw ≡ ok t.value_amount
    → make_terms (record t { value_amount = raw }) ≡ ok t
make_terms-resolve_value t raw v r =
    pass (record t { value_amount = raw }) t.value_amount
      (record {
        hashlock = unfold b32 in ground arith;
        sats = v.sats;
        amount = v.amount;
        chain = chain_lem t v;
        resolved = r;
        positive = amount_pos t v;
        timeout = timeout_pass t v;
        short_leg = v.short_leg;
        asset = v.asset;
        taker = unfold b32 in ground arith;
        maker = unfold b32 in ground arith;
        credential = v.credential;
        keys = keys_pass t v;
        order = unfold check_order in ground (arith, v.order, v.short_leg);
      })

-- And construction keeps valid terms as they are: validation is idempotent.
pub make_terms_of_IsValid : (t : NegotiatedTerms) → IsValid t → make_terms t ≡ ok t
make_terms_of_IsValid t v = make_terms-resolve_value t t.value_amount v (resolve_valid t v)
