-- ===== src/Bridge/Pieces/Reference.antt =====
-- What it means that content has the given pieces, by recursion on the list of their digests, and
-- that `verify_pieces` decides it.
use np2ptp.Prelude.{
  ℕ, zero, suc, ◌+◌, ◌-◌, ◌/◌, ◌≤◌, ◌<◌, ◌≡◌, refl, sym, ap, ◌∙◌, List, [], ◌∷◌, take, drop, length,
  length-drop, ◌==◌, ◌&&◌, Bool, true, false, ltb, ltb→lt, Bool-cases, if◌then◌else◌, inl, inr,
  Bytes, eq_bytes, arith,
}
use np2ptp.Bridge.Pieces.{div_ceil, chunks_from, concatenate, digests_match, verify_pieces}
use native.Mathlib.Nat.{add-div_right, div-eq_of_lt}

module _ (sha1 : Bytes → Bytes) where
  -- Whether the content falls into pieces of `n` bytes, the last perhaps shorter, of just these
  -- digests.
  unfoldable pub has_pieces : ℕ → List Bytes → Bytes → Bool
  has_pieces n [] [] = true
  has_pieces n [] (b ∷ bs) = false
  has_pieces n (h ∷ hs) [] = false
  has_pieces n (h ∷ hs) (b ∷ bs) =
      eq_bytes (sha1 (take n (b ∷ bs))) h && has_pieces n hs (drop n (b ∷ bs))

pred-suc : (n : ℕ) → suc n - 1 ≡ n
pred-suc n = omega arith

div_ceil-suc : (a n : ℕ) → div_ceil a (suc n) ≡ (a + n) / suc n
unfolding div_ceil
div_ceil-suc a n = ap (λ k. (a + k) / suc n) (pred-suc n)

div_below : (n a : ℕ) → a < n → a / n ≡ 0
div_below n a h = div-eq_of_lt h

none_needed : (n : ℕ) → div_ceil 0 (suc n) ≡ 0
none_needed n = div_ceil-suc 0 n ∙ div_below (suc n) (0 + n) (omega arith)

shifted : (n a : ℕ) → suc a + n ≡ a + suc n
shifted n a = omega arith

-- The pieces behind the first, counted from what the first leaves.
behind : (n a : ℕ) → a / suc n ≡ ((a - n) + n) / suc n
behind n a = elim (Bool-cases (ltb a n)) [
  | inl below ↦
      div_below (suc n) a (omega (arith, ltb→lt a n below))
      ∙ sym (div_below (suc n) ((a - n) + n) (omega (arith, ltb→lt a n below)))
  | inr above ↦ ap (λ k. k / suc n) (ground arith)
]

one_more : (n a : ℕ) → div_ceil (suc a) (suc n) ≡ suc (div_ceil (a - n) (suc n))
one_more n a =
    let split : (a + suc n) / suc n ≡ a / suc n + 1 = add-div_right a (omega arith) in
    div_ceil-suc (suc a) n
    ∙ ap (λ k. k / suc n) (shifted n a)
    ∙ omega (arith, split, behind n a, div_ceil-suc (a - n) n)

no_chunks : (fuel n : ℕ) → chunks_from fuel n [] ≡ []
unfolding chunks_from
no_chunks zero n = refl
no_chunks (suc fuel) n = refl

module _ (sha1 : Bytes → Bytes) where
  -- `verify_pieces` counts the pieces first and compares the digests after that.
  counted-match :
      (n fuel : ℕ) (content : Bytes) (hs : List Bytes)
      → length content ≤ fuel
      → (if div_ceil (length content) (suc n) == length hs
          then digests_match sha1 (chunks_from fuel (suc n) content) hs
          else false)
        ≡ has_pieces sha1 (suc n) hs content
  unfolding chunks_from digests_match has_pieces
  counted-match n fuel [] [] h = rw (none_needed n, no_chunks fuel (suc n))
  counted-match n fuel [] (h ∷ hs) le = rw (none_needed n) (ground arith)
  counted-match n fuel (b ∷ bs) [] le = rw (one_more n (length bs)) (ground arith)
  counted-match n zero (b ∷ bs) (h ∷ hs) le = absurd (omega arith)
  counted-match n (suc fuel) (b ∷ bs) (h ∷ hs) le =
      let rest = counted-match n fuel (drop n bs) hs (omega (arith, length-drop n bs)) in
      rw (one_more n (length bs), ← length-drop n bs, ← rest) (ground arith)

  -- For pieces of one byte or more `verify_pieces` answers whether the files' bytes, joined in
  -- order, fall into pieces with the listed digests, one for each.
  pub verify_pieces-has_pieces :
      (files : List (Bytes × Bytes)) (n : ℕ) (piece_hashes : List Bytes)
      → 0 < n
      → verify_pieces sha1 files n piece_hashes ≡ has_pieces sha1 n piece_hashes (concatenate files)
  unfolding verify_pieces
  verify_pieces-has_pieces files zero hs h = absurd (omega arith)
  verify_pieces-has_pieces files (suc n) hs h =
      counted-match n _ (concatenate files) hs (omega arith)
