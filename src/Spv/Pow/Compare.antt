-- ===== src/Spv/Pow/Compare.antt =====
-- The comparison of two hashes by chunks of four bytes is the comparison of the numbers they write.
use pyrxd.Common.{
  ℕ, zero, suc, ◌+◌, ◌-◌, ◌*◌, ◌^◌, ◌≤◌, ◌<◌, ◌≡◌, ◌↔◌, ◌⊎◌, inl, inr, refl, sym, ap, ◌∙◌, arith,
  ltb, ltb→lt, if◌then◌else◌, length, length-append, length-drop, take-append-drop, List, [], ◌∷◌,
  ◌++◌, take, drop, replicate, Result, ok, err, Bool-cases,
}
use pyrxd.Common.Hex.{IsBytes}
use pyrxd.Common.Bytes.{reverse, le_value, be_value, IsBytes-drop}
use pyrxd.Spv.Pow.{PowError, hash_not_below, compare_chunks}
use mathlib.Core.Path.{subst}
use native.Mathlib.Nat.{
  pow-suc, mul_assoc, add-mul, mul-le-mul_right, suc-mul, mul_right_comm, suc-add, zero-add,
  mul_left_comm,
}

pub be_value-lt : (bs : List ℕ) → IsBytes bs → be_value bs < 256 ^ length bs
be_value-lt [] h = omega arith
be_value-lt (b ∷ bs) (hb, hbs) =
    bounded (256 ^ length bs) (be_value-lt bs hbs) (pow-suc 256 (length bs))
  where
    bounded :
        (m : ℕ)
        → be_value bs < m
        → 256 ^ suc (length bs) ≡ m * 256
        → b * m + be_value bs < 256 ^ suc (length bs)
    bounded m low e = omega (arith, mul-le-mul_right m hb, suc-mul b m, e, low)

pow256-add : (m n : ℕ) → 256 ^ (m + n) ≡ 256 ^ m * 256 ^ n
pow256-add zero n = ap (λ k. 256 ^ k) (zero-add n) ∙ omega arith
pow256-add (suc m) n =
    ap (λ k. 256 ^ k) (suc-add m n)
    ∙ pow-suc 256 (m + n)
    ∙ rw (pow-suc 256 m) (omega (arith, pow256-add m n, mul_right_comm (256 ^ m) 256 (256 ^ n)))

be_value-append :
    (xs ys : List ℕ) → be_value (xs ++ ys) ≡ be_value xs * 256 ^ length ys + be_value ys
be_value-append [] ys = omega (arith)
be_value-append (x ∷ xs) ys =
    rw (length-append xs ys, pow256-add (length xs) (length ys), be_value-append xs ys)
      (omega (
        arith,
        add-mul (x * 256 ^ length xs) (be_value xs) (256 ^ length ys),
        mul_assoc x (256 ^ length xs) (256 ^ length ys),
      ))

pub be_value-reverse : (bs : List ℕ) → be_value (reverse bs) ≡ le_value bs
be_value-reverse [] = refl
be_value-reverse (b ∷ bs) =
    be_value-append (reverse bs) (b ∷ []) ∙ omega (arith, be_value-reverse bs)

pub le_value-append :
    (xs ys : List ℕ) → le_value (xs ++ ys) ≡ le_value xs + 256 ^ length xs * le_value ys
le_value-append [] ys = omega arith
le_value-append (x ∷ xs) ys = rw (pow-suc 256 (length xs)) (
    omega (
      arith,
      le_value-append xs ys,
      mul_assoc (256 ^ length xs) 256 (le_value ys),
      mul_left_comm (256 ^ length xs) 256 (le_value ys),
    ))

pub le_value-replicate : (n : ℕ) → le_value (replicate n 0) ≡ 0
le_value-replicate zero = refl
le_value-replicate (suc n) = omega (arith, le_value-replicate n)

-- Two numbers written as a high part over a low one, in base `m`, compare by the high parts first.
high_low :
    (m a b u v : ℕ) → u < m → v < m → ((a * m + u < b * m + v) ↔ ((a < b) ⊎ ((a ≡ b) × (u < v))))
high_low m a b u v lu lv = (
  λ h. elim (Bool-cases (ltb a b)) [
    | inl below ↦ inl (ground arith)
    | inr above ↦ inr (level h (ground arith))
  ],
  λ k. elim k [
    | inl below ↦ omega (arith, mul-le-mul_right m below, suc-mul a m)
    | inr (same, low) ↦ rw same (omega arith)
  ],
)
  where
    level : a * m + u < b * m + v → b ≤ a → (a ≡ b) × (u < v)
    level h above = elim (Bool-cases (ltb b a)) [
      | inl over ↦ absurd (omega (arith, mul-le-mul_right m (ltb→lt b a over), suc-mul b m))
      | inr under ↦ equal (ground arith) h
    ]
      where
        equal : a ≡ b → a * m + u < b * m + v → (a ≡ b) × (u < v)
        equal same h = (same, lower (rw same at h))
          where
            lower : b * m + u < b * m + v → u < v
            lower k = omega arith

be_value-split :
    (n : ℕ) (xs : List ℕ)
    → n ≤ length xs
    → be_value xs ≡ be_value (take n xs) * 256 ^ (length xs - n) + be_value (drop n xs)
be_value-split n xs h =
    ap be_value (sym (take-append-drop n xs))
    ∙ be_value-append (take n xs) (drop n xs)
    ∙ rw (length-drop n xs) refl

chunk_step :
    (m a b u v : ℕ) (rest : Result PowError (Unit {0}))
    → u < m
    → v < m
    → (rest ≡ ok tt) ↔ (u < v)
    → ((if ltb a b then ok tt else if ltb b a then err hash_not_below else rest) ≡ ok tt)
      ↔ (a * m + u < b * m + v)
chunk_step m a b u v rest lu lv tail =
    let order = high_low m a b u v lu lv in (λ h. order.1 (first h), λ k. second (order.0 k))
  where
    first :
        (if ltb a b then ok tt else if ltb b a then err hash_not_below else rest) ≡ ok tt
        → (a < b) ⊎ ((a ≡ b) × (u < v))
    first h = ground (arith, tail.0)

    second :
        (a < b) ⊎ ((a ≡ b) × (u < v))
        → (if ltb a b then ok tt else if ltb b a then err hash_not_below else rest) ≡ ok tt
    second k = ground (arith, tail.1)

high_part :
    (n : ℕ) (h : List ℕ)
    → length h ≡ suc n * 4
    → be_value h ≡ be_value (take 4 h) * 256 ^ (n * 4) + be_value (drop 4 h)
high_part n h l =
    be_value-split 4 h (omega arith)
    ∙ ap (λ k. be_value (take 4 h) * 256 ^ k + be_value (drop 4 h)) (omega (arith, l))

low_part :
    (n : ℕ) (h : List ℕ) → IsBytes h → length h ≡ suc n * 4 → be_value (drop 4 h) < 256 ^ (n * 4)
low_part n h b l =
    subst (λ k. be_value (drop 4 h) < 256 ^ k) (omega (arith, length-drop 4 h, l))
      (be_value-lt (drop 4 h) (IsBytes-drop 4 h b))

-- The comparison by chunks compares the two numbers.
pub compare_chunks_iff :
    (n : ℕ) (h t : List ℕ)
    → IsBytes h
    → IsBytes t
    → length h ≡ n * 4
    → length t ≡ n * 4
    → (compare_chunks n h t ≡ ok tt) ↔ (be_value h < be_value t)
unfolding compare_chunks
compare_chunks_iff zero [] [] bh bt lh lt = (λ bad. cc, λ bad. absurd (omega arith))
compare_chunks_iff zero (x ∷ h) t bh bt lh lt = absurd (omega arith)
compare_chunks_iff zero [] (x ∷ t) bh bt lh lt = absurd (omega arith)
compare_chunks_iff (suc n) h t bh bt lh lt =
    rw (high_part n h lh, high_part n t lt)
      (chunk_step (256 ^ (n * 4)) _ _ _ _ (compare_chunks n (drop 4 h) (drop 4 t))
        (low_part n h bh lh) (low_part n t bt lt)
        (compare_chunks_iff n (drop 4 h) (drop 4 t) (IsBytes-drop 4 h bh) (IsBytes-drop 4 t bt)
          (omega (arith, length-drop 4 h)) (omega (arith, length-drop 4 t))))
