-- ===== src/Spv/Merkle/Branch.antt =====
-- A branch that was built: its length, and that walking it is climbing by the bits of the position.
use pyrxd.Common.{
  ℕ, ◌*◌, ◌/◌, ◌%◌, ◌^◌, ◌<◌, ◌≡◌, refl, arith, ◌==◌, if◌then◌else◌, length, length-append,
  length-map, List, [], ◌∷◌, ◌++◌, map, ok,
}
use pyrxd.Common.Hex.{IsBytes, to_hex, from_hex-to_hex, length-to_hex}
use pyrxd.Common.Bytes.{
  reverse, reverse_involutive, length-reverse, take-append, drop-append, IsBytes-reverse,
}
use pyrxd.Spv.Pow.{hash256}
use pyrxd.Spv.Merkle.{
  MerkleError, read_hex, sibling_not_hex, txid_not_hex, entries, build_branch, walk, compute_root,
}
use native.Mathlib.Nat.{mul-div_cancel, mul-mod_left, div-eq_of_lt}

-- A hash of 32 bytes.
pub record IsHash (h : List ℕ) : Type 0 where
  pub size : length h ≡ 32
  pub bytes : IsBytes h

abbrev pub AllHashes : List (List ℕ) → Type 0
AllHashes [] = Unit
AllHashes (s ∷ ss) = IsHash s × AllHashes ss

-- A hash in the display order of block explorers.
abbrev pub display : List ℕ → List ℕ
display h = to_hex (reverse h)

pub read_hex-display :
    (e : MerkleError) (h : List ℕ) → IsHash h → read_hex e (display h) ≡ ok (reverse h)
unfolding read_hex
read_hex-display e h v = rw (from_hex-to_hex (reverse h) (IsBytes-reverse h v.bytes), read_hex)

pub length-display : (h : List ℕ) → IsHash h → length (display h) ≡ 64
length-display h v = omega (arith, length-to_hex (reverse h), length-reverse h, v.size)

-- The branch of these siblings at this position.
abbrev pub layout : ℕ → List (List ℕ) → List ℕ
layout pos [] = []
layout pos (s ∷ ss) = pos % 2 ∷ (s ++ layout (pos / 2) ss)

pub length-layout :
    (pos : ℕ) (ss : List (List ℕ)) → AllHashes ss → length (layout pos ss) ≡ length ss * 33
length-layout pos [] h = refl
length-layout pos (s ∷ ss) (h, hs) =
    omega (arith, length-append s (layout (pos / 2) ss), length-layout (pos / 2) ss hs, h.size)

entries-layout :
    (pos : ℕ) (ss : List (List ℕ))
    → AllHashes ss
    → entries pos (map display ss) ≡ ok (layout pos ss)
unfolding entries
entries-layout pos [] h = refl
entries-layout pos (s ∷ ss) (h, hs) = rw (
  length-display s h,
  read_hex-display sibling_not_hex s h,
  entries-layout (pos / 2) ss hs,
  reverse_involutive s,
)

module _ (sha256 : List ℕ → List ℕ) where
  -- Climbing from a leaf: the bits of the position say on which side the sibling is.
  unfoldable pub climb : ℕ → List (List ℕ) → List ℕ → List ℕ
  climb pos [] h = h
  climb pos (s ∷ ss) h =
      climb (pos / 2) ss (if pos % 2 == 0 then hash256 sha256 (h ++ s) else hash256 sha256 (s ++ h))

  walk-layout :
      (pos : ℕ) (ss : List (List ℕ)) (h : List ℕ)
      → AllHashes ss
      → walk sha256 (length ss) (layout pos ss) h ≡ climb pos ss h
  unfolding walk climb
  walk-layout pos [] h v = refl
  walk-layout pos (s ∷ ss) h (v, vs) =
      rw
        (
          take-append 32 s (layout (pos / 2) ss) v.size,
          drop-append 32 s (layout (pos / 2) ss) v.size,
          walk,
          climb,
        )
        (walk-layout (pos / 2) ss _ vs)

  -- `build_branch` then `compute_root`, on siblings and a leaf in display order, climbs from the leaf
  -- by the bits of the position, for every position within the depth.
  pub compute_root-build_branch :
      (pos : ℕ) (ss : List (List ℕ)) (h : List ℕ)
      → AllHashes ss
      → IsHash h
      → pos < 2 ^ length ss
      → (branch : List ℕ) × (build_branch (map display ss) pos ≡ ok branch)
        × (compute_root sha256 (display h) branch ≡ ok (climb pos ss h))
  unfolding build_branch compute_root
  compute_root-build_branch pos ss h vs v within = (
    layout pos ss,
    rw (length-map ss display, div-eq_of_lt within) (entries-layout pos ss vs),
    rw (
      length-layout pos ss vs,
      mul-mod_left (length ss) 33,
      length-display h v,
      read_hex-display txid_not_hex h v,
      mul-div_cancel (length ss) {n = 33} (omega arith),
      reverse_involutive h,
      walk-layout pos ss h vs,
    ),
  )
