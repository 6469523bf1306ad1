-- ===== src/Core/Toy.antt =====
-- Stand-ins for third-party code in the tests.
use native.Mathlib.Nat.{zero-add}
use np2ptp.Prelude.{
  ℕ, zero, suc, ◌+◌, ◌-◌, ◌*◌, ◌%◌, ◌≤◌, ◌<◌, ◌≡◌, refl, List, [], ◌∷◌, inl, inr, Bool-cases, ◌==◌,
  leb, if◌then◌else◌, All, arith, Bytes,
}
use np2ptp.Prelude
use np2ptp.Core.Hash.{IsHash}
use np2ptp.Core.Chunk.{Cut, Cdc, Tiles}

-- BLAKE3: a checksum in 32 bytes.
abbrev replicate : ℕ → List ℕ
replicate zero = []
replicate (suc n) = 0 ∷ replicate n

abbrev checksum : Bytes → ℕ
checksum [] = 7
checksum (b ∷ bs) = (b + 31 * checksum bs) % 65521

abbrev pub toy_blake3 : Bytes → Bytes
toy_blake3 content = checksum content ∷ replicate 31

pub toy_digest : (content : Bytes) → IsHash (toy_blake3 content)
toy_digest content = refl

-- A stand-in for FastCDC: chunks of the largest size, and the rest.
unfoldable pub fixed : ℕ → ℕ → ℕ → ℕ → List Cut
fixed zero offset left max = []
fixed (suc fuel) offset left max =
    let rest =
      record { offset = offset; length = max } ∷ fixed fuel (offset + max) (left - max) max in
    if left == 0
    then []
    else if leb left max
    then record { offset = offset; length = left } ∷ []
    else rest

pub fixed-Tiles :
    (fuel offset left max : ℕ)
    → left ≤ fuel
    → 0 < max
    → Tiles offset (fixed fuel offset left max) (offset + left)
unfolding fixed
fixed-Tiles zero offset left max h k = omega arith
fixed-Tiles (suc fuel) offset left max h k = elim (Bool-cases (left == 0)) [
  | inl none_left ↦ rw none_left (ground arith)
  | inr some_left ↦ elim (Bool-cases (leb left max)) [
    | inl last ↦ rw (some_left, last) (refl, refl)
    | inr more ↦
        let total : offset + max + (left - max) ≡ offset + left = ground arith in
        rw (some_left, more)
          (refl, (rw total at (fixed-Tiles fuel (offset + max) (left - max) max (ground arith) k)))
  ]
]

pub fixed-bounded :
    (fuel offset left max : ℕ)
    → 0 < max
    → All (λ (c : Cut). (0 < c.length) × (c.length ≤ max)) (fixed fuel offset left max)
unfolding fixed
fixed-bounded zero offset left max k = tt
fixed-bounded (suc fuel) offset left max k = elim (Bool-cases (left == 0)) [
  | inl none_left ↦ rw none_left tt
  | inr some_left ↦ elim (Bool-cases (leb left max)) [
    | inl last ↦ rw (some_left, last) ((ground arith, ground arith), tt)
    | inr more ↦
        rw (some_left, more)
          ((k, omega arith), fixed-bounded fuel (offset + max) (left - max) max k)
  ]
]

abbrev pub toy_cdc : Cdc
toy_cdc = record {
  cuts = λ content min avg max. fixed (Prelude.length content) 0 (Prelude.length content) max;
  tiles = λ content min avg max h k.
      rw zero-add at
        (fixed-Tiles (Prelude.length content) 0 (Prelude.length content) max (omega arith) h);
  bounded = λ content min avg max h k.
      fixed-bounded (Prelude.length content) 0 (Prelude.length content) max h;
}
