-- ===== src/Spv/Merkle/Tree.antt =====
-- The Merkle tree itself: the branch of any leaf of a perfect tree leads to its root.
use pyrxd.Common.{
  ℕ, suc, ◌+◌, ◌/◌, ◌%◌, ◌^◌, ◌<◌, ◌≡◌, refl, sym, ap, ◌∙◌, arith, length, length-append, List, [],
  ◌∷◌, ◌++◌, map, ok,
}
use pyrxd.Spv.Pow.{hash256}
use pyrxd.Spv.Merkle.{build_branch, compute_root}
use pyrxd.Spv.Merkle.Branch.{IsHash, AllHashes, display, climb, compute_root-build_branch}
use native.Mathlib.Nat.{pow-suc}

pub data Tree : Type 0 where
  leaf : List ℕ → Tree
  node : Tree → Tree → Tree

module _ (sha256 : List ℕ → List ℕ) where
  unfoldable pub root : Tree → List ℕ
  root (leaf h) = h
  root (node l r) = hash256 sha256 (root l ++ root r)

  -- `IsPath t d pos h ss`: `t` is perfect of depth `d`, `h` is its leaf number `pos`, and `ss` are the
  -- siblings from that leaf up.
  pub data IsPath : Tree → ℕ → ℕ → List ℕ → List (List ℕ) → Type 0 where
    here : (h : List ℕ) → IsPath (leaf h) 0 0 h []
    left :
        (l r : Tree) (d pos : ℕ) (h : List ℕ) (ss : List (List ℕ))
        → IsPath l d pos h ss
        → IsPath (node l r) (suc d) pos h (ss ++ (root r ∷ []))
    right :
        (l r : Tree) (d pos : ℕ) (h : List ℕ) (ss : List (List ℕ))
        → IsPath r d pos h ss
        → IsPath (node l r) (suc d) (pos + 2 ^ d) h (ss ++ (root l ∷ []))

  IsPath-length :
      {t : Tree} {d pos : ℕ} {h : List ℕ} {ss : List (List ℕ)}
      → IsPath t d pos h ss
      → (length ss ≡ d) × (pos < 2 ^ d)
  IsPath-length (here h) = omega arith
  IsPath-length (left l r d pos h ss p) =
      omega (arith, length-append ss (root r ∷ []), IsPath-length p, pow-suc 2 d)
  IsPath-length (right l r d pos h ss p) =
      omega (arith, length-append ss (root l ∷ []), IsPath-length p, pow-suc 2 d)

  climb_left :
      (ss : List (List ℕ)) (pos : ℕ) (s h : List ℕ)
      → pos < 2 ^ length ss
      → climb sha256 pos (ss ++ (s ∷ [])) h ≡ hash256 sha256 (climb sha256 pos ss h ++ s)
  unfolding climb
  climb_left [] pos s h low = rw (zero_of pos low)
    where
      zero_of : (pos : ℕ) → pos < 1 → pos ≡ 0
      zero_of pos low = omega arith
  climb_left (x ∷ ss) pos s h low =
      climb_left ss (pos / 2) s _ (omega (arith, pow-suc 2 (length ss)))

  climb_right :
      (ss : List (List ℕ)) (pos : ℕ) (s h : List ℕ)
      → pos < 2 ^ length ss
      → climb sha256 (pos + 2 ^ length ss) (ss ++ (s ∷ [])) h
        ≡ hash256 sha256 (s ++ climb sha256 pos ss h)
  unfolding climb
  climb_right [] pos s h low = rw (one_of pos low)
    where
      one_of : (pos : ℕ) → pos < 1 → pos ≡ 0
      one_of pos low = omega arith
  climb_right (x ∷ ss) pos s h low =
      rw (parity, half, climb) (climb_right ss (pos / 2) s _ (omega (arith, pow-suc 2 (length ss))))
    where
      parity : (pos + 2 ^ suc (length ss)) % 2 ≡ pos % 2
      parity = omega (arith, pow-suc 2 (length ss))

      half : (pos + 2 ^ suc (length ss)) / 2 ≡ pos / 2 + 2 ^ length ss
      half = omega (arith, pow-suc 2 (length ss))

  climb-root :
      {t : Tree} {d pos : ℕ} {h : List ℕ} {ss : List (List ℕ)}
      → IsPath t d pos h ss
      → climb sha256 pos ss h ≡ root t
  unfolding root climb
  climb-root (here h) = refl
  climb-root (left l r d pos h ss p) =
      let (depth, low) = IsPath-length p in
      climb_left ss pos (root r) h (rw depth low)
      ∙ ap (λ x. hash256 sha256 (x ++ root r)) (climb-root p)
  climb-root (right l r d pos h ss p) =
      let (depth, low) = IsPath-length p in
      ap (λ n. climb sha256 (pos + 2 ^ n) (ss ++ (root l ∷ [])) h) (sym depth)
      ∙ climb_right ss pos (root l) h (rw depth low)
      ∙ ap (λ x. hash256 sha256 (root l ++ x)) (climb-root p)

  -- Completeness of inclusion proofs: for a leaf of a perfect tree, whose hashes have 32 bytes, the
  -- branch built from its siblings and its position leads `compute_root` to the root of the tree.
  pub compute_root-IsPath :
      (t : Tree) (d pos : ℕ) (h : List ℕ) (ss : List (List ℕ))
      → IsPath t d pos h ss
      → IsHash h
      → AllHashes ss
      → (branch : List ℕ) × (build_branch (map display ss) pos ≡ ok branch)
        × (compute_root sha256 (display h) branch ≡ ok (root t))
  compute_root-IsPath t d pos h ss p v vs =
      let (depth, low) = IsPath-length p in
      let (branch, built, rooted) = compute_root-build_branch sha256 pos ss h vs v (rw depth low) in
      (branch, built, rooted ∙ ap ok (climb-root p))
