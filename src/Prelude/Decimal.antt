-- ===== src/Prelude/Decimal.antt =====
-- Decimal text of unsigned integers: `to_string` and `parse` of the standard library.
use Prim.Native.Nat.{ℕ, zero, suc, ◌+◌, ◌-◌, ◌*◌, ◌/◌, ◌%◌, ◌^◌, ◌≤◌, ◌<◌}
use mathlib.Core.Path.{◌≡◌, refl, ap, ◌∙◌}
use mathlib.Core.Bool.{Bool, ◌&&◌}
use mathlib.Core.Option.{Option, none, some}
use mathlib.Core.List.{[], ◌∷◌, ◌++◌}
use mathlib.Core.Logic.{inl, inr}
use native.Mathlib.Omega.{arith}
use native.Mathlib.Nat.{pow-suc}
use np2ptp.Prelude.Tests.{ltb, leb, ltb→lt, ◌==◌, if◌then◌else◌, Bool-cases}
use np2ptp.Prelude.Lists.{All, All-append, length, length-append}
use np2ptp.Prelude.Octets.{Bytes}

abbrev pub is_digit : ℕ → Bool
is_digit c = leb 48 c && leb c 57

-- One more digit on `n`, unless it is no digit or the number gets above `max`.
abbrev pub push_digit : ℕ → Option ℕ → ℕ → Option ℕ
push_digit max none c = none
push_digit max (some n) c =
    if is_digit c
    then (if ltb max (n * 10 + (c - 48)) then none else some (n * 10 + (c - 48)))
    else none

unfoldable pub scan : ℕ → Option ℕ → Bytes → Option ℕ
scan max n [] = n
scan max n (c ∷ s) = scan max (push_digit max n c) s

-- `str::parse` to an unsigned integer type whose greatest number is `max`: a sign `+` may stand in
-- front.
unfoldable pub parse_uint : ℕ → Bytes → Option ℕ
parse_uint max [] = none
parse_uint max (c ∷ []) = scan max (some 0) (c ∷ [])
parse_uint max (c ∷ d ∷ s) =
    if c == 43 then scan max (some 0) (d ∷ s) else scan max (some 0) (c ∷ d ∷ s)

-- The digits of a number below `10 ^ fuel`.
unfoldable pub digits : ℕ → ℕ → Bytes
digits zero n = []
digits (suc fuel) n =
    let front = digits fuel (n / 10) in
    if ltb n 10 then (48 + n) ∷ [] else front ++ (48 + n % 10) ∷ []

-- `to_string`: no 64-bit number has more than twenty digits.
unfoldable pub to_string : ℕ → Bytes
to_string n = digits 20 n

abbrev pub IsDigit : ℕ → Type 0
IsDigit c = (48 ≤ c) × (c ≤ 57)

pub digits-IsDigit : (fuel n : ℕ) → All IsDigit (digits fuel n)
unfolding digits
digits-IsDigit zero n = tt
digits-IsDigit (suc fuel) n = elim (Bool-cases (ltb n 10)) [
  | inl e ↦ rw e ((omega arith, omega (arith, ltb→lt n 10 e)), tt)
  | inr e ↦ rw e (
      All-append IsDigit (digits fuel (n / 10)) ((48 + n % 10) ∷ []) (digits-IsDigit fuel (n / 10))
        ((omega arith, omega arith), tt))
]

scan-append :
    (max : ℕ) (n : Option ℕ) (s t : Bytes) → scan max n (s ++ t) ≡ scan max (scan max n s) t
unfolding scan
scan-append max n [] t = refl
scan-append max n (c ∷ s) t = scan-append max (push_digit max n c) s t

push_digit-some :
    (max n d : ℕ) → d < 10 → n * 10 + d ≤ max → push_digit max (some n) (48 + d) ≡ some (n * 10 + d)
push_digit-some max n d h k = ground arith

scan-digits :
    (max fuel n : ℕ) → n < 10 ^ fuel → n ≤ max → scan max (some 0) (digits fuel n) ≡ some n
unfolding digits scan
scan-digits max zero n h k = ap some (omega arith)
scan-digits max (suc fuel) n h k =
    let bound : n < 10 ^ fuel * 10 = rw pow-suc at h in
    elim (Bool-cases (ltb n 10)) [
      | inl e ↦ rw e (push_digit-some max 0 n (ltb→lt n 10 e) (omega arith) ∙ ap some (omega arith))
      | inr e ↦ rw e (
          scan-append max (some 0) (digits fuel (n / 10)) ((48 + n % 10) ∷ [])
          ∙ ap (λ o. push_digit max o (48 + n % 10))
              (scan-digits max fuel (n / 10) (omega arith) (omega arith))
          ∙ push_digit-some max (n / 10) (n % 10) (omega arith) (omega arith)
          ∙ ap some (omega arith))
    ]

pub parse_uint-scan :
    (max : ℕ) (s : Bytes) → 0 < length s → All IsDigit s → parse_uint max s ≡ scan max (some 0) s
unfolding parse_uint
parse_uint-scan max [] p h = absurd (omega arith)
parse_uint-scan max (c ∷ []) p h = refl
parse_uint-scan max (c ∷ d ∷ s) p ((low, high), h) = ground arith

pub length-digits_pos : (fuel n : ℕ) → 0 < length (digits (suc fuel) n)
unfolding digits
length-digits_pos fuel n = elim (Bool-cases (ltb n 10)) [
  | inl e ↦ rw e (omega arith)
  | inr e ↦ rw e (omega (arith, length-append (digits fuel (n / 10)) ((48 + n % 10) ∷ [])))
]

-- What `to_string` writes of a number that fits is read back as that number.
pub parse_uint-to_string :
    (max n : ℕ) → n ≤ max → n < 10 ^ 20 → parse_uint max (to_string n) ≡ some n
unfolding to_string
parse_uint-to_string max n h k =
    parse_uint-scan max (digits 20 n) (length-digits_pos 19 n) (digits-IsDigit 20 n)
    ∙ scan-digits max 20 n k h

pub to_string-IsDigit : (n : ℕ) → All IsDigit (to_string n)
unfolding to_string
to_string-IsDigit n = digits-IsDigit 20 n
