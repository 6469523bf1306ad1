-- ===== src/Rep/Receipt/Tests.antt =====
-- A stand-in for Ed25519, and the properties at concrete inputs.
use np2ptp.Prelude.{
  ℕ, zero, suc, ◌+◌, ◌≡◌, refl, [], ◌∷◌, true, false, Bytes, eq_bytes, eq_bytes_refl, arith,
}
use np2ptp.Rep.Receipt.{Ed25519, le_bytes, canonical, peer_verify, issue, verify}
use np2ptp.Rep.Receipt.Canonical.{verify-issue, canonical-injective}

abbrev zeros : ℕ → Bytes
zeros zero = []
zeros (suc n) = 0 ∷ zeros n

abbrev sum : Bytes → ℕ
sum [] = 1
sum (b ∷ bs) = b + sum bs

-- The key is the sum of the seed, and the signature that and the sum of the message.
abbrev pub key_of : Bytes → Bytes
key_of seed = sum seed ∷ zeros 31

abbrev sign_with : Bytes → Bytes → Bytes
sign_with key message = (sum key + sum message) ∷ zeros 63

abbrev pub toy_ed25519 : Ed25519
toy_ed25519 = record {
  parses = λ key. true;
  public_key = key_of;
  sign = λ seed message. sign_with (key_of seed) message;
  verify_strict = λ key message sig. eq_bytes sig (sign_with key message);
  length-public_key = λ seed. refl;
  length-sign = λ seed message. refl;
  parses-public_key = λ seed. refl;
  honest = λ seed message. eq_bytes_refl (sign_with (key_of seed) message);
}

abbrev amount : ℕ
amount = 7

abbrev round : ℕ
round = 1

-- A receipt with another amount in it than was signed does not verify.
tampered :
    verify toy_ed25519 (record (issue toy_ed25519 (1 ∷ []) (key_of (2 ∷ [])) 7 1) { bytes = 8 })
    ≡ false
unfolding verify issue peer_verify canonical le_bytes eq_bytes
tampered = refl

verify-issue_test : verify toy_ed25519 (issue toy_ed25519 (1 ∷ []) (key_of (2 ∷ [])) 7 1) ≡ true
verify-issue_test = verify-issue toy_ed25519 (1 ∷ []) (key_of (2 ∷ [])) 7 1

canonical-injective_example :
    (key_of (2 ∷ []) ≡ key_of (2 ∷ []))
    × (key_of (1 ∷ []) ≡ key_of (1 ∷ []))
    × (amount ≡ amount)
    × (round ≡ round)
canonical-injective_example =
    canonical-injective (key_of (2 ∷ [])) (key_of (1 ∷ [])) (key_of (2 ∷ [])) (key_of (1 ∷ [])) 7 1
      7 1 refl refl refl refl (omega arith) (omega arith) (omega arith) (omega arith) refl
