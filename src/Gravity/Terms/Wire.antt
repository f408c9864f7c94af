-- ===== src/Gravity/Terms/Wire.antt =====
-- The terms' JSON form and back.
use pyrxd.Common.{
  ℕ, ◌*◌, ◌≡◌, ◌≢◌, refl, sym, ◌∙◌, arith, false, ◌==◌, inl, inr, length, List, [], ◌∷◌, ok, err,
  Bool-cases,
}
use pyrxd.Common.Hex.{IsBytes, to_hex, from_hex-to_hex, length-to_hex}
use pyrxd.Gravity.Timelock.{TimeUnit, blocks, seconds, Timelock, make_timelock}
use pyrxd.Gravity.Timelock
use pyrxd.Gravity.Terms.{
  NegotiatedTerms, value_missing, b32, resolve_value, make_terms, to_dict, from_dict, read_hex,
  read_credential, timelock_to_dict, timelock_from_dict, some_unless, get_or,
}
use pyrxd.Gravity.Terms.Valid.{IsValid, IsEthLeg, make_terms-resolve_value}
use Prim.Native.String.{String}
use text.Mathlib.TextEquality.{eq_iff}
use text.Mathlib.Text.{◌==◌ as str_eq}

-- The terms can be built at all: their byte strings hold bytes, their timelocks were constructed.
pub record IsWellTyped (t : NegotiatedTerms) : Type 0 where
  pub hashlock : IsBytes t.hashlock
  pub genesis : IsBytes t.genesis_ref
  pub taker : IsBytes t.taker_dest_hash
  pub maker : IsBytes t.maker_dest_hash
  pub claim : IsBytes t.btc_claim_pubkey_xonly
  pub refund : IsBytes t.btc_refund_pubkey_xonly
  pub credential : IsBytes t.credential_ref
  pub long_lock : Timelock.IsValid t.t_btc
  pub short_lock : Timelock.IsValid t.t_rxd

read_hex-to_hex : (bs : List ℕ) → IsBytes bs → read_hex (to_hex bs) ≡ ok bs
unfolding read_hex
read_hex-to_hex bs h = rw (from_hex-to_hex bs h, read_hex)

at_unit :
    (v : ℕ) (u : TimeUnit)
    → Timelock.IsValid (record { value = v; unit = u })
    → timelock_from_dict (timelock_to_dict (record { value = v; unit = u }))
      ≡ ok (record { value = v; unit = u })
unfolding timelock_to_dict timelock_from_dict make_timelock
at_unit v blocks h = ground arith
at_unit v seconds h = ground arith

timelock_round_trip :
    (t : Timelock) → Timelock.IsValid t → timelock_from_dict (timelock_to_dict t) ≡ ok t
timelock_round_trip t v = at_unit t.value t.unit v

credential_round_trip :
    (bs : List ℕ) → IsBytes bs → read_credential (some_unless (length bs == 0) (to_hex bs)) ≡ ok bs
unfolding read_credential
credential_round_trip [] h = refl
credential_round_trip (b ∷ bs) h =
    written (to_hex (b ∷ bs)) (length-to_hex (b ∷ bs)) (read_hex-to_hex (b ∷ bs) h)
  where
    written :
        (text : List ℕ)
        → length text ≡ 2 * length (b ∷ bs)
        → read_hex text ≡ ok (b ∷ bs)
        → read_credential (some_unless (length (b ∷ bs) == 0) text) ≡ ok (b ∷ bs)
    written [] l e = absurd (omega arith)
    written (c ∷ text) l e = ground arith

-- The amount that the reader starts from: `to_dict` leaves out an amount that equals `btc_sats`.
abbrev pub raw_amount : NegotiatedTerms → ℕ
raw_amount t = get_or (some_unless (t.value_amount == t.btc_sats) t.value_amount) 0

chain_round_trip : (c : String) → get_or (some_unless (str_eq c "btc") c) "btc" ≡ c
chain_round_trip c = elim (Bool-cases (str_eq c "btc")) [
  | inl btc ↦ rw btc (sym ((eq_iff c "btc").0 btc))
  | inr other ↦ rw other
]

from_dict-to_dict_raw :
    (t : NegotiatedTerms)
    → IsWellTyped t
    → from_dict (to_dict t) ≡ make_terms (record t { value_amount = raw_amount t })
unfolding from_dict to_dict
from_dict-to_dict_raw t w = rw (
  read_hex-to_hex _ w.hashlock,
  timelock_round_trip t.t_btc w.long_lock,
  timelock_round_trip t.t_rxd w.short_lock,
  read_hex-to_hex _ w.genesis,
  read_hex-to_hex _ w.taker,
  read_hex-to_hex _ w.maker,
  read_hex-to_hex _ w.claim,
  read_hex-to_hex _ w.refund,
  credential_round_trip _ w.credential,
  chain_round_trip t.counter_chain,
)

resolved :
    (t : NegotiatedTerms)
    → IsValid t
    → (str_eq t.counter_chain "btc" ≡ false → t.value_amount ≢ t.btc_sats)
    → resolve_value t.counter_chain t.btc_sats (raw_amount t) ≡ ok t.value_amount
unfolding resolve_value
resolved t v apart = elim v.leg [
  | inl btc ↦ ground (arith, btc.chain, btc.mirrored)
  | inr eth ↦ ground (arith, eth.not_btc, eth.amount, apart eth.not_btc)
]

-- The wire form is read back: for valid terms whose byte strings hold bytes and whose timelocks were
-- constructed, `from_dict` of `to_dict` gives the terms again, provided that on an ETH swap the amount
-- of wei is not the number `btc_sats`.
pub from_dict-to_dict :
    (t : NegotiatedTerms)
    → IsWellTyped t
    → IsValid t
    → (str_eq t.counter_chain "btc" ≡ false → t.value_amount ≢ t.btc_sats)
    → from_dict (to_dict t) ≡ ok t
from_dict-to_dict t w v apart =
    from_dict-to_dict_raw t w ∙ make_terms-resolve_value t (raw_amount t) v (resolved t v apart)

-- That proviso is needed: valid terms of an ETH swap whose amount of wei is the number `btc_sats` are
-- written without the amount and are refused when read back.
pub from_dict-to_dict_refused :
    (t : NegotiatedTerms)
    → IsWellTyped t
    → IsValid t
    → IsEthLeg t
    → t.value_amount ≡ t.btc_sats
    → from_dict (to_dict t) ≡ err value_missing
from_dict-to_dict_refused t w v eth same = from_dict-to_dict_raw t w ∙ refused
  where
    refused : make_terms (record t { value_amount = raw_amount t }) ≡ err value_missing
    refused =
        unfold make_terms b32 resolve_value in
        ground (arith, eth.chain, eth.not_btc, v.hashlock_32, v.sats, v.amount)
