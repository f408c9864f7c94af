-- ===== src/Spv/Chain/Linked.antt =====
-- What an accepted chain of headers shows.
use pyrxd.Common.{
  ℕ, ◌≡◌, ◌↔◌, inl, inr, refl, sym, ap, ◌∙◌, arith, Bool, true, false, not, ◌==◌, ==_iff, length,
  List, [], ◌∷◌, map, Option, some, Result, ok, err, ◌>>◌, refuse, map_err, Result-cases,
}
use mathlib.Core.Path.{subst}
use pyrxd.Common.Hex.{IsBytes}
use pyrxd.Spv.Pow.{PowError, hash256, verify_header_pow}
use pyrxd.Spv.Pow.Target.{IsMined, verify_header_pow_iff}
use pyrxd.Spv.Chain.{
  ChainError, no_headers, anchor_not_32, nbits_not_4, nbits_next_not_4, header_not_80,
  nbits_mismatch, pow, link_broken, anchor_mismatch, prev_hash_of, nbits_of, Pin, pinned, pin_of,
  is_allowed, follows, check_header, check_headers, verify_chain,
}

abbrev pub AllBytes : List (List ℕ) → Type 0
AllBytes [] = Unit
AllBytes (h ∷ hs) = IsBytes h × AllBytes hs

staged :
    (l a f : Bool) (e : ChainError) (m : Result PowError (List ℕ)) (h : List ℕ)
    → (refuse (not l) header_not_80
        >> (refuse (not a) nbits_mismatch >> (refuse (not f) e >> map_err pow m)))
      ≡ ok h
    → (l ≡ true) × (a ≡ true) × (f ≡ true) × (m ≡ ok h)
staged false a f e m h k = cc
staged true false f e m h k = cc
staged true true false e m h k = cc
staged true true true e (err x) h k = cc
staged true true true e (ok y) h k = (refl, refl, refl, cc k)

last_of :
    (a b c d : Bool) (m : Result ChainError (List (List ℕ))) {h : List (List ℕ)}
    → (refuse a no_headers
        >> (refuse b anchor_not_32 >> (refuse c nbits_not_4 >> (refuse d nbits_next_not_4 >> m))))
      ≡ ok h
    → m ≡ ok h
last_of true b c d m k = cc
last_of false true c d m k = cc
last_of false false true d m k = cc
last_of false false false true m k = cc
last_of false false false false m k = k

module _ (sha256 : List ℕ → List ℕ) where
  -- Each header is mined at an allowed difficulty, and names the hash before it.
  pub data IsLinked (pin : Pin) : Option (List ℕ) → List (List ℕ) → Type 0 where
    last : (expected : Option (List ℕ)) → IsLinked pin expected []
    link :
        (expected : Option (List ℕ)) (header : List ℕ) (headers : List (List ℕ))
        → IsMined sha256 header
        → is_allowed pin (nbits_of header) ≡ true
        → follows expected (prev_hash_of header) ≡ true
        → IsLinked pin (some (hash256 sha256 header)) headers
        → IsLinked pin expected (header ∷ headers)

module _ (sha256 : List ℕ → List ℕ) (size : (d : List ℕ) → length (sha256 d) ≡ 32)
    (bytes : (d : List ℕ) → IsBytes (sha256 d)) where
  -- A header is accepted in its place exactly when it is mined, at an allowed difficulty, and follows.
  check_header_iff :
      (pin : Pin) (expected : Option (List ℕ)) (e : ChainError) (header h : List ℕ)
      → IsBytes header
      → (check_header sha256 pin expected e header ≡ ok h) ↔ (
          IsMined sha256 header
          × (is_allowed pin (nbits_of header) ≡ true)
          × (follows expected (prev_hash_of header) ≡ true)
          × (h ≡ hash256 sha256 header))
  unfolding check_header
  check_header_iff pin expected e header h hb =
      let pow_ = verify_header_pow_iff sha256 header size bytes hb in
      (
        λ accepted.
            let (long, allowed, follow, mined) =
              staged _ _ _ e (verify_header_pow sha256 header) h accepted in
            let (mined_, same) = (pow_ h).0 mined in (mined_, allowed, follow, same),
        λ k. rw (
          (==_iff (length header) 80).1 k.0.size,
          k.1,
          k.2,
          (pow_ (hash256 sha256 header)).1 (k.0, refl),
          k.3,
        ),
      )

  check_headers-IsLinked :
      (pin : Pin) (expected : Option (List ℕ)) (e : ChainError) (headers hashes : List (List ℕ))
      → AllBytes headers
      → check_headers sha256 pin expected e headers ≡ ok hashes
      → IsLinked sha256 pin expected headers × (hashes ≡ map (hash256 sha256) headers)
  unfolding check_headers
  check_headers-IsLinked pin expected e [] hashes b h = (last expected, cc h)
  check_headers-IsLinked pin expected e (x ∷ xs) hashes (bx, bxs) h =
      elim (Result-cases (check_header sha256 pin expected e x)) [
        | inr (f, bad) ↦ absurd (ground arith)
        | inl (hx, ex) ↦ elim (Result-cases (check_headers sha256 pin (some hx) link_broken xs)) [
          | inr (f, bad) ↦ absurd (ground arith)
          | inl (hxs, exs) ↦
              joined hx ex hxs (ground arith)
                (check_headers-IsLinked pin (some hx) link_broken xs hxs bxs exs)
        ]
      ]
    where
      joined :
          (hx : List ℕ)
          → check_header sha256 pin expected e x ≡ ok hx
          → (hxs : List (List ℕ)) → hashes ≡ hx ∷ hxs
          → IsLinked sha256 pin (some hx) xs × (hxs ≡ map (hash256 sha256) xs)
          → IsLinked sha256 pin expected (x ∷ xs) × (hashes ≡ map (hash256 sha256) (x ∷ xs))
      joined hx ex hxs eq (linked, tails) =
          let (mined, allowed, follow, same) = (check_header_iff pin expected e x hx bx).0 ex in
          (
            link expected x xs mined allowed follow
                (subst (λ y. IsLinked sha256 pin (some y) xs) same linked),
            cc (eq, same, tails),
          )

  check_headers_of :
      (pin : Pin) (expected : Option (List ℕ)) (e : ChainError) (headers : List (List ℕ))
      → AllBytes headers
      → IsLinked sha256 pin expected headers
      → check_headers sha256 pin expected e headers ≡ ok (map (hash256 sha256) headers)
  unfolding check_headers
  check_headers_of pin expected e [] b k = refl
  check_headers_of pin expected e (x ∷ xs) (bx, bxs) (link _ _ _ mined allowed follow linked) = rw (
    (check_header_iff pin expected e x (hash256 sha256 x) bx).1 (mined, allowed, follow, refl),
    check_headers_of pin (some (hash256 sha256 x)) link_broken xs bxs linked,
  )

  -- `verify_chain` on headers of bytes, with an anchor of 32 bytes and a pin of 4, accepts exactly the
  -- chains, not empty, in which every header is mined at an allowed difficulty and names the hash of
  -- the one before it, the first one the anchor; the result is the hashes of the headers.
  pub verify_chain_iff :
      (header : List ℕ) (headers hashes : List (List ℕ)) (anchor nbits next : List ℕ)
      → AllBytes (header ∷ headers)
      → length anchor ≡ 32
      → length nbits ≡ 4
      → length next ≡ 4
      → (verify_chain sha256 (header ∷ headers) (some anchor) (some nbits) (some next) ≡ ok hashes)
        ↔ (IsLinked sha256 (pinned nbits next) (some anchor) (header ∷ headers)
            × (hashes ≡ map (hash256 sha256) (header ∷ headers)))
  unfolding verify_chain pin_of
  verify_chain_iff header headers hashes anchor nbits next b la ln lx = (
    λ h. check_headers-IsLinked _ _ anchor_mismatch _ _ b (opened h),
    λ k.
        rw
          (
            (==_iff (length anchor) 32).1 la,
            (==_iff (length nbits) 4).1 ln,
            (==_iff (length next) 4).1 lx,
          )
          (check_headers_of _ _ anchor_mismatch _ b k.0 ∙ ap ok (sym k.1)),
  )
    where
      tested : (raw : List ℕ) (n : ℕ) → length raw ≡ n → (length raw == n) ≡ true
      tested raw n same = (==_iff (length raw) n).1 same

      opened :
          verify_chain sha256 (header ∷ headers) (some anchor) (some nbits) (some next) ≡ ok hashes
          → check_headers sha256
              (pinned nbits next)
              (some anchor)
              anchor_mismatch
              (header ∷ headers)
            ≡ ok hashes
      opened h = rw (tested anchor 32 la, tested nbits 4 ln, tested next 4 lx) at h

  -- Whatever is pinned: an accepted chain is linked, from the anchor on.
  pub verify_chain-IsLinked :
      (headers hashes : List (List ℕ)) (anchor nbits next : Option (List ℕ))
      → AllBytes headers
      → verify_chain sha256 headers anchor nbits next ≡ ok hashes
      → IsLinked sha256 (pin_of nbits next) anchor headers
  unfolding verify_chain
  verify_chain-IsLinked headers hashes anchor nbits next b h =
      (check_headers-IsLinked (pin_of nbits next) anchor anchor_mismatch headers hashes b
        (last_of _ _ _ _ _ h)).0
