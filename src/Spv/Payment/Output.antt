-- ===== src/Spv/Payment/Output.antt =====
-- What an accepted payment shows: the whole output, and its value.
use pyrxd.Common.{
  ℕ, ◌+◌, ◌^◌, ◌≤◌, ◌<◌, ◌≡◌, ◌≢◌, ◌↔◌, refl, arith, Bool, true, false, ltb, leb, ◌==◌, ==_iff,
  length, length-take, length-drop, List, drop, get_or, Result, ok, ◌>>◌, refuse,
}
use pyrxd.Common.Bytes.{slice, le_value}
use pyrxd.Spv.Payment.{
  OutputType, p2pkh, p2wpkh, p2sh, p2tr, unknown, PaymentError, is_known, unknown_type, truncated,
  value_too_large, value_zero, value_too_small, script_length, script_truncated, op_return,
  script_length_of, hash_length_of, verify_script, verify_payment,
}
use pyrxd.Spv.Payment.Script.{script_for, verify_script_iff}

-- The output at this offset pays the hash an amount within bounds.
pub record IsPaid (raw : List ℕ) (offset : ℕ) (h : List ℕ) (t : OutputType) (min_satoshis : ℕ)
    : Type 0 where
  pub known : t ≢ unknown
  pub fits : offset + 9 + script_length_of t ≤ length raw
  pub positive : 0 < le_value (slice offset 8 raw)
  pub enough : min_satoshis ≤ le_value (slice offset 8 raw)
  pub signed : le_value (slice offset 8 raw) < 2 ^ 63
  pub prefixed : get_or raw (offset + 8) 0 ≡ script_length_of t
  pub hash_length : length h ≡ hash_length_of t
  pub script : slice (offset + 9) (script_length_of t) raw ≡ script_for t h

is_known_lem : (t : OutputType) → is_known t ≡ true → t ≢ unknown
is_known_lem t k e = ground arith

is_known_of : (t : OutputType) → t ≢ unknown → is_known t ≡ true
is_known_of p2pkh k = refl
is_known_of p2wpkh k = refl
is_known_of p2sh k = refl
is_known_of p2tr k = refl
is_known_of unknown k = absurd (k refl)

not_return :
    (t : OutputType) (h : List ℕ) → t ≢ unknown → (get_or (script_for t h) 0 0 == 0x6a) ≡ false
not_return p2pkh h k = refl
not_return p2wpkh h k = refl
not_return p2sh h k = refl
not_return p2tr h k = refl
not_return unknown h k = absurd (k refl)

-- The checks of `verify_payment` one by one.
staged :
    (a b c d e f g i : Bool) (m : Result PaymentError (Unit {0}))
    → (refuse a unknown_type
        >> (refuse b truncated
            >> (refuse c value_too_large
                >> (refuse d value_zero
                    >> (refuse e value_too_small
                        >> (refuse f script_length
                            >> (refuse g script_truncated >> (refuse i op_return >> m))))))))
      ≡ ok tt
    → (a ≡ false)
      × (b ≡ false)
      × (c ≡ false)
      × (d ≡ false)
      × (e ≡ false)
      × (f ≡ false)
      × (g ≡ false)
      × (i ≡ false)
      × (m ≡ ok tt)
staged true b c d e f g i m h = cc
staged false true c d e f g i m h = cc
staged false false true d e f g i m h = cc
staged false false false true e f g i m h = cc
staged false false false false true f g i m h = cc
staged false false false false false true g i m h = cc
staged false false false false false false true i m h = cc
staged false false false false false false false true m h = cc
staged false false false false false false false false m h =
    (refl, refl, refl, refl, refl, refl, refl, refl, h)

module _ (raw : List ℕ) (offset : ℕ) (h : List ℕ) (t : OutputType) (min_satoshis : ℕ) where
  verify_payment-IsPaid :
      verify_payment raw offset h t min_satoshis ≡ ok tt → IsPaid raw offset h t min_satoshis
  unfolding verify_payment
  verify_payment-IsPaid accepted =
      let (known, fits, signed, positive, enough, prefixed, full, no_return, paid) =
        staged _ _ _ _ _ _ _ _ (verify_script (slice (offset + 9) (script_length_of t) raw) h t)
          accepted in
      let known_ = is_known_lem t (ground arith) in
      let (sized, script) = (verify_script_iff h _ t known_ (ground arith)).0 paid in
      record {
        known = known_;
        fits = ground arith;
        positive = ground arith;
        enough = ground arith;
        signed = ground arith;
        prefixed = ground arith;
        hash_length = sized;
        script = script;
      }

  verify_payment_of :
      IsPaid raw offset h t min_satoshis → verify_payment raw offset h t min_satoshis ≡ ok tt
  unfolding verify_payment
  verify_payment_of k =
      let no_return = not_return t h k.known in
      let full : length (slice (offset + 9) (script_length_of t) raw) ≡ script_length_of t = omega (
        arith,
        length-take (script_length_of t) (drop (offset + 9) raw),
        length-drop (offset + 9) raw,
        k.fits,
      ) in
      let paid = (verify_script_iff h _ t k.known full).1 (k.hash_length, k.script) in
      let known : is_known t ≡ true = is_known_of t k.known in
      let fits : ltb (length raw) (offset + (8 + 1 + script_length_of t)) ≡ false =
        ground (arith, k.fits) in
      let signed : leb (2 ^ 63) (le_value (slice offset 8 raw)) ≡ false =
        ground (arith, k.signed) in
      let positive : (le_value (slice offset 8 raw) == 0) ≡ false = ground (arith, k.positive) in
      let enough : ltb (le_value (slice offset 8 raw)) min_satoshis ≡ false =
        ground (arith, k.enough) in
      rw
        (
          known,
          fits,
          signed,
          positive,
          enough,
          (==_iff _ _).1 k.prefixed,
          (==_iff _ _).1 full,
          k.script,
          no_return,
        )
        (rw (← k.script) paid)

  -- An output is accepted exactly when it lies within the transaction, its amount is positive, at
  -- least the minimum and below 2^63, and its script, with the length byte before it, is the whole
  -- script of its type that pays the hash.
  pub verify_payment_iff :
      (verify_payment raw offset h t min_satoshis ≡ ok tt) ↔ IsPaid raw offset h t min_satoshis
  verify_payment_iff = (verify_payment-IsPaid, verify_payment_of)
