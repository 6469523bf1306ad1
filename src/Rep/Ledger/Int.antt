-- ===== src/Rep/Ledger/Int.antt =====
-- Integers over the native numbers, as `i128` and `i64` are used.
use np2ptp.Prelude.{
  ℕ, ◌-◌, ◌^◌, ◌≡◌, refl, min, leb, ◌==◌, Bool, true, false, if◌then◌else◌, ◌⊎◌, inl, inr, arith,
}

pub data ℤ : Type 0 where
  pos : ℕ → ℤ
  negsuc : ℕ → ℤ

infixl 6 ◌-ℤ◌
-- The difference of two natural numbers.
abbrev pub ◌-ℤ◌ : ℕ → ℕ → ℤ
a -ℤ b = if leb b a then pos (a - b) else negsuc (b - a - 1)

abbrev pub leb_int : ℤ → ℤ → Bool
leb_int (pos a) (pos b) = leb a b
leb_int (pos a) (negsuc b) = false
leb_int (negsuc a) (pos b) = true
leb_int (negsuc a) (negsuc b) = leb b a

abbrev pub eq_int : ℤ → ℤ → Bool
eq_int (pos a) (pos b) = a == b
eq_int (negsuc a) (negsuc b) = a == b
eq_int _ _ = false

-- `clamp(i64::MIN, i64::MAX)`
abbrev pub clamp_i64 : ℤ → ℤ
clamp_i64 (pos a) = pos (min a (2 ^ 63 - 1))
clamp_i64 (negsuc a) = negsuc (min a (2 ^ 63 - 1))

pub leb_int_total : (x y : ℤ) → (leb_int x y ≡ true) ⊎ (leb_int y x ≡ true)
leb_int_total (pos a) (pos b) = ground arith
leb_int_total (pos a) (negsuc b) = inr refl
leb_int_total (negsuc a) (pos b) = inl refl
leb_int_total (negsuc a) (negsuc b) = ground arith

pub leb_int_trans : (x y z : ℤ) → leb_int x y ≡ true → leb_int y z ≡ true → leb_int x z ≡ true
leb_int_trans (pos a) (pos b) (pos c) h k = ground arith
leb_int_trans (pos a) (pos b) (negsuc c) h k = cc k
leb_int_trans (pos a) (negsuc b) z h k = cc h
leb_int_trans (negsuc a) (pos b) (pos c) h k = refl
leb_int_trans (negsuc a) (pos b) (negsuc c) h k = cc k
leb_int_trans (negsuc a) (negsuc b) (pos c) h k = refl
leb_int_trans (negsuc a) (negsuc b) (negsuc c) h k = ground arith

pub eq_int-eq : (x y : ℤ) → eq_int x y ≡ true → x ≡ y
eq_int-eq (pos a) (pos b) h = ground arith
eq_int-eq (pos a) (negsuc b) h = cc h
eq_int-eq (negsuc a) (pos b) h = cc h
eq_int-eq (negsuc a) (negsuc b) h = ground arith

pub eq_int_refl : (x : ℤ) → eq_int x x ≡ true
eq_int_refl (pos a) = ground arith
eq_int_refl (negsuc a) = ground arith

pub leb_int_antisymm : (x y : ℤ) → leb_int x y ≡ true → leb_int y x ≡ true → x ≡ y
leb_int_antisymm (pos a) (pos b) h k = ground arith
leb_int_antisymm (pos a) (negsuc b) h k = cc h
leb_int_antisymm (negsuc a) (pos b) h k = cc k
leb_int_antisymm (negsuc a) (negsuc b) h k = ground arith
