-- ===== src/Core/Hash/Sibling.antt =====
-- `idx ^ 1`, the sibling's index in `merkle_proof`, digit by digit.
use Prim.Native.Nat.{bit_xor, digits, differ, bit_xor-bitwise}
use np2ptp.Prelude.{ℕ, zero, suc, ◌+◌, ◌-◌, ◌*◌, ◌/◌, ◌%◌, ◌≤◌, ◌≡◌, refl, ◌∙◌, arith}

differ-zero : (x : ℕ) → differ x 0 ≡ x
differ-zero zero = refl
differ-zero (suc x) = refl

differ-one : (x : ℕ) → x ≤ 1 → differ x 1 ≡ 1 - x
differ-one zero h = refl
differ-one (suc zero) h = refl
differ-one (suc (suc x)) h = absurd (omega arith)

abbrev xor_digits : ℕ → ℕ → ℕ → ℕ
xor_digits n a b = digits (λ b. b) differ n a b

xor_digits-zero : (n a : ℕ) → a ≤ n → xor_digits n a 0 ≡ a
xor_digits-zero zero zero h = refl
xor_digits-zero zero (suc a) h = absurd (omega arith)
xor_digits-zero (suc n) zero h = refl
xor_digits-zero (suc n) (suc a) h =
    omega (arith, xor_digits-zero n (suc a / 2) (omega arith), differ-zero (suc a % 2))

-- The number with its lowest binary digit flipped.
pub bit_xor-one : (i : ℕ) → bit_xor i 1 ≡ i / 2 * 2 + (1 - i % 2)
bit_xor-one zero = refl
bit_xor-one (suc a) =
    (λ k. bit_xor-bitwise (suc a) 1 k)
    ∙ omega
        (arith, xor_digits-zero a (suc a / 2) (omega arith), differ-one (suc a % 2) (omega arith))

-- Two steps to the right take the sibling two steps along.
pub bit_xor-one_suc-suc : (i : ℕ) → bit_xor (suc (suc i)) 1 ≡ suc (suc (bit_xor i 1))
bit_xor-one_suc-suc i = omega (arith, bit_xor-one i, bit_xor-one (suc (suc i)))
