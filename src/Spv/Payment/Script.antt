-- ===== src/Spv/Payment/Script.antt =====
-- What an accepted script is: the whole script that pays the hash.
use pyrxd.Common.{
  ℕ, zero, suc, ◌+◌, ◌≡◌, ◌≢◌, ◌↔◌, refl, sym, ap, ◌∙◌, arith, true, bytes_eq, bytes_eq_iff, length,
  take-append-drop, List, [], ◌∷◌, ◌++◌, take, drop, ok,
}
use pyrxd.Common.Bytes.{slice, take-append, drop-append}
use pyrxd.Spv.Payment.{
  OutputType, p2pkh, p2wpkh, p2sh, p2tr, unknown, script_length_of, prefix_of, suffix_of,
  hash_length_of, verify_script,
}
use native.Mathlib.Nat.{zero-add, suc-add}

pub drop-drop : (m n : ℕ) (xs : List ℕ) → drop n (drop m xs) ≡ drop (m + n) xs
drop-drop zero n xs = ap (λ k. drop k xs) (sym (zero-add n))
drop-drop (suc m) zero [] = ap (λ k. drop k []) (sym (suc-add m zero))
drop-drop (suc m) (suc n) [] = ap (λ k. drop k []) (sym (suc-add m (suc n)))
drop-drop (suc m) n (x ∷ xs) = drop-drop m n xs ∙ ap (λ k. drop k (x ∷ xs)) (sym (suc-add m n))

-- The script that pays this hash.
abbrev pub script_for : OutputType → List ℕ → List ℕ
script_for t h = prefix_of t ++ (h ++ suffix_of t)

drop-length : (xs : List ℕ) (n : ℕ) → length xs ≡ n → drop n xs ≡ []
drop-length [] zero h = refl
drop-length [] (suc n) h = refl
drop-length (x ∷ xs) zero h = absurd (omega arith)
drop-length (x ∷ xs) (suc n) h = drop-length xs n (omega arith)

-- A list of three parts, from the parts.
in_parts :
    (k n : ℕ) (s a h z : List ℕ)
    → take k s ≡ a
    → slice k n s ≡ h
    → drop (k + n) s ≡ z
    → s ≡ a ++ (h ++ z)
in_parts k n s a h z ea eh ez =
    sym (take-append-drop k s)
    ∙ ap (λ x. take k s ++ x) (sym (take-append-drop n (drop k s)))
    ∙ rw (ea, eh, drop-drop k n s, ez) refl

parts_of :
    (k n : ℕ) (a h z : List ℕ)
    → length a ≡ k
    → length h ≡ n
    → (take k (a ++ (h ++ z)) ≡ a)
      × (slice k n (a ++ (h ++ z)) ≡ h)
      × (drop (k + n) (a ++ (h ++ z)) ≡ z)
parts_of k n a h z la lh = (
  take-append k a (h ++ z) la,
  ap (take n) (drop-append k a (h ++ z) la) ∙ take-append n h z lh,
  sym (drop-drop k n (a ++ (h ++ z)))
      ∙ ap (drop n) (drop-append k a (h ++ z) la)
      ∙ drop-append n h z lh,
)

module _ (h s : List ℕ) where
  -- The checks of `verify_script`, as equations.
  abbrev Checks : OutputType → Type 0
  Checks t =
      (length h ≡ hash_length_of t)
      × (bytes_eq (take (length (prefix_of t)) s) (prefix_of t) ≡ true)
      × (bytes_eq (slice (length (prefix_of t)) (hash_length_of t) s) h ≡ true)
      × (bytes_eq (drop (length (prefix_of t) + hash_length_of t) s) (suffix_of t) ≡ true)

  no_suffix : (n : ℕ) → length s ≡ n → bytes_eq (drop n s) [] ≡ true
  no_suffix n l = (bytes_eq_iff (drop n s) []).1 (drop-length s n l)

  verify_script-Checks :
      (t : OutputType)
      → t ≢ unknown
      → length s ≡ script_length_of t
      → (verify_script s h t ≡ ok tt) ↔ Checks t
  unfolding verify_script
  verify_script-Checks p2pkh k l = ground arith
  verify_script-Checks p2wpkh k l = ground (arith, no_suffix 22 l)
  verify_script-Checks p2sh k l = ground arith
  verify_script-Checks p2tr k l = ground (arith, no_suffix 34 l)
  verify_script-Checks unknown k l = absurd (k refl)

  Checks_iff : (t : OutputType) → Checks t ↔ ((length h ≡ hash_length_of t) × (s ≡ script_for t h))
  Checks_iff t = (
    λ k. (
      k.0,
      in_parts (length (prefix_of t)) (hash_length_of t) s (prefix_of t) h (suffix_of t)
          ((bytes_eq_iff (take (length (prefix_of t)) s) (prefix_of t)).0 k.1)
          ((bytes_eq_iff (slice (length (prefix_of t)) (hash_length_of t) s) h).0 k.2)
          ((bytes_eq_iff (drop (length (prefix_of t) + hash_length_of t) s) (suffix_of t)).0 k.3),
    ),
    λ k.
        let parts =
          parts_of (length (prefix_of t)) (hash_length_of t) (prefix_of t) h (suffix_of t) refl
            k.0 in
        (
          k.0,
          (bytes_eq_iff (take (length (prefix_of t)) s) (prefix_of t)).1 (rw k.1 parts.0),
          (bytes_eq_iff (slice (length (prefix_of t)) (hash_length_of t) s) h).1 (rw k.1 parts.1),
          (bytes_eq_iff (drop (length (prefix_of t) + hash_length_of t) s) (suffix_of t)).1
              (rw k.1 parts.2),
        ),
  )

  -- A script of its type's length is accepted exactly when it is the script that pays the hash.
  pub verify_script_iff :
      (t : OutputType)
      → t ≢ unknown
      → length s ≡ script_length_of t
      → (verify_script s h t ≡ ok tt) ↔ ((length h ≡ hash_length_of t) × (s ≡ script_for t h))
  verify_script_iff t k l =
      let a = verify_script-Checks t k l in
      let b = Checks_iff t in (λ x. b.0 (a.0 x), λ x. a.1 (b.1 x))
