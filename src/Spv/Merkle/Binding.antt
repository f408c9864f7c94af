-- ===== src/Spv/Merkle/Binding.antt =====
-- What an accepted inclusion proof shows, and that a header admits no second transaction at the same
-- place unless SHA-256 has a collision.
use pyrxd.Common.{
  ℕ, zero, suc, ◌*◌, ◌≤◌, ◌≡◌, ◌≢◌, ◌⊎◌, inl, inr, refl, arith, Bool, true, false, ◌==◌,
  if◌then◌else◌, bytes_eq, bytes_eq_iff, length, length-take, length-drop, List, [], ◌∷◌, ◌++◌,
  drop, get_or, Bool-cases,
}
use pyrxd.Common.Bytes.{slice}
use pyrxd.Spv.Pow.{hash256}
use pyrxd.Spv.Merkle.{walk, parent}

append_inj :
    {A : Type 0} (xs ys us vs : List A)
    → length xs ≡ length us
    → xs ++ ys ≡ us ++ vs
    → (xs ≡ us) × (ys ≡ vs)
append_inj [] ys [] vs l h = (refl, h)
append_inj [] ys (u ∷ us) vs l h = absurd (omega arith)
append_inj (x ∷ xs) ys [] vs l h = absurd (omega arith)
append_inj (x ∷ xs) ys (u ∷ us) vs l h =
    let (heads, tails) = append_inj xs ys us vs (omega arith) (cc h) in (cc (h, heads), tails)

module _ (sha256 : List ℕ → List ℕ) where
  -- Two byte strings with one double hash.
  abbrev pub Collision : Type 0
  Collision = (a : List ℕ) × (b : List ℕ) × (a ≢ b) × (hash256 sha256 a ≡ hash256 sha256 b)

  pub eq_or_Collision : (a b : List ℕ) → hash256 sha256 a ≡ hash256 sha256 b → (a ≡ b) ⊎ Collision
  eq_or_Collision a b same = elim (Bool-cases (bytes_eq a b)) [
    | inl eq ↦ inl ((bytes_eq_iff a b).0 eq)
    | inr ne ↦ inr (a, b, λ e. cc (ne, (bytes_eq_iff a b).1 e), same)
  ]

  -- The two branches turn the same way at every step.
  abbrev pub SameTurns : ℕ → List ℕ → List ℕ → Type 0
  SameTurns zero b c = Unit
  SameTurns (suc n) b c =
      ((get_or b 0 0 == 0) ≡ (get_or c 0 0 == 0)) × SameTurns n (drop 33 b) (drop 33 c)

  turned :
      (p q : Bool) (s r x y : List ℕ)
      → p ≡ q
      → length x ≡ length y
      → length s ≡ length r
      → (if p then hash256 sha256 (x ++ s) else hash256 sha256 (s ++ x))
        ≡ (if q then hash256 sha256 (y ++ r) else hash256 sha256 (r ++ y))
      → (x ≡ y) ⊎ Collision
  turned true true s r x y turn lxy lsr same = elim (eq_or_Collision (x ++ s) (y ++ r) same) [
    | inl e ↦ inl (append_inj x s y r lxy e).0
    | inr c ↦ inr c
  ]
  turned false false s r x y turn lxy lsr same = elim (eq_or_Collision (s ++ x) (r ++ y) same) [
    | inl e ↦ inl (append_inj s x r y lsr e).1
    | inr c ↦ inr c
  ]
  turned true false s r x y turn lxy lsr same = absurd (ground arith)
  turned false true s r x y turn lxy lsr same = absurd (ground arith)

  length-parent :
      ((d : List ℕ) → length (sha256 d) ≡ 32) → (b x : List ℕ) → length (parent sha256 b x) ≡ 32
  length-parent size b x = elim (Bool-cases (get_or b 0 0 == 0)) [
    | inl left ↦ rw left (size _)
    | inr right ↦ rw right (size _)
  ]

  length-sibling : (b : List ℕ) → 33 ≤ length b → length (slice 1 32 b) ≡ 32
  length-sibling b long = omega (arith, length-take 32 (drop 1 b), length-drop 1 b)

  -- The Merkle root binds the leaf: two leaves of one length, on branches of one depth that turn the
  -- same way, have one root only if they are equal or SHA-256 has a collision.
  pub walk-binds :
      (n : ℕ) (b c x y : List ℕ)
      → ((d : List ℕ) → length (sha256 d) ≡ 32)
      → length x ≡ length y
      → length b ≡ n * 33
      → length c ≡ n * 33
      → SameTurns n b c
      → walk sha256 n b x ≡ walk sha256 n c y
      → (x ≡ y) ⊎ Collision
  unfolding walk
  walk-binds zero b c x y size lxy lb lc turns same = inl same
  walk-binds (suc n) b c x y size lxy lb lc (turn, turns) same =
      elim (walk-binds n (drop 33 b) (drop 33 c) _ _ size
        (omega (arith, length-parent size b x, length-parent size c y))
        (omega (arith, length-drop 33 b)) (omega (arith, length-drop 33 c)) turns same) [
          | inr collision ↦ inr collision
          | inl e ↦
              turned _ _ (slice 1 32 b) (slice 1 32 c) x y turn lxy
                (omega (arith, length-sibling b (omega arith), length-sibling c (omega arith))) e
        ]
