-- ===== src/Prelude/Utf8.antt =====
-- Which byte strings `read_to_string` and `from_utf8` take for UTF-8.
use Prim.Native.Nat.{ℕ, ◌<◌}
use mathlib.Core.Path.{◌≡◌, refl, ap, ◌∙◌}
use mathlib.Core.Bool.{Bool, true, false, ◌&&◌}
use mathlib.Core.List.{List, [], ◌∷◌, ◌++◌}
use mathlib.Core.Logic.{inl, inr}
use native.Mathlib.Omega.{arith}
use np2ptp.Prelude.Tests.{leb, ltb, if◌then◌else◌, Bool-cases, ◌==◌}
use np2ptp.Prelude.Lists.{All}
use np2ptp.Prelude.Octets.{Bytes}

-- The bytes that must follow a first byte, each by its range; none follow an ASCII character. A byte
-- that begins no character is answered by a range that holds nothing.
abbrev pub followers : ℕ → List (ℕ × ℕ)
followers b =
    if ltb b 128
    then []
    else if ltb b 194
    then (1, 0) ∷ []
    else if ltb b 224
    then (128, 191) ∷ []
    else if b == 224
    then (160, 191) ∷ (128, 191) ∷ []
    else if b == 237
    then (128, 159) ∷ (128, 191) ∷ []
    else if ltb b 240
    then (128, 191) ∷ (128, 191) ∷ []
    else if b == 240
    then (144, 191) ∷ (128, 191) ∷ (128, 191) ∷ []
    else if ltb b 244
    then (128, 191) ∷ (128, 191) ∷ (128, 191) ∷ []
    else if b == 244
    then (128, 143) ∷ (128, 191) ∷ (128, 191) ∷ []
    else (1, 0) ∷ []

unfoldable pub utf8_from : List (ℕ × ℕ) → Bytes → Bool
utf8_from [] [] = true
utf8_from ((low, high) ∷ due) [] = false
utf8_from [] (b ∷ bs) = utf8_from (followers b) bs
utf8_from ((low, high) ∷ due) (b ∷ bs) =
    let rest = utf8_from due bs in if leb low b && leb b high then rest else false

abbrev pub is_utf8 : Bytes → Bool
is_utf8 text = utf8_from [] text

utf8_from-append :
    (due : List (ℕ × ℕ)) (xs ys : Bytes)
    → utf8_from due xs ≡ true
    → utf8_from due (xs ++ ys) ≡ utf8_from [] ys
unfolding utf8_from
utf8_from-append [] [] ys h = refl
utf8_from-append ((low, high) ∷ due) [] ys h = cc h
utf8_from-append [] (b ∷ bs) ys h = utf8_from-append (followers b) bs ys h
utf8_from-append ((low, high) ∷ due) (b ∷ bs) ys h = elim (Bool-cases (leb low b && leb b high)) [
  | inl e ↦ rw e (utf8_from-append due bs ys (rw e at h))
  | inr e ↦ cc (rw e at h)
]

-- Text in front of other text is UTF-8 by itself or not at all.
pub is_utf8-append : (xs ys : Bytes) → is_utf8 xs ≡ true → is_utf8 (xs ++ ys) ≡ is_utf8 ys
is_utf8-append xs ys h = utf8_from-append [] xs ys h

followers-ascii : (b : ℕ) → b < 128 → followers b ≡ []
followers-ascii b h = ground arith

pub is_utf8-ascii : (xs : Bytes) → All (λ b. b < 128) xs → is_utf8 xs ≡ true
unfolding utf8_from
is_utf8-ascii [] h = refl
is_utf8-ascii (b ∷ bs) (small, h) =
    ap (λ due. utf8_from due bs) (followers-ascii b small) ∙ is_utf8-ascii bs h

-- `String::from_utf8_lossy`: each longest part that begins a character and goes wrong becomes U+FFFD.
abbrev pub replacement : Bytes
replacement = 239 ∷ 191 ∷ 189 ∷ []

-- What is put out at the byte `b`, which ranges are due then, and the bytes of the character so far.
abbrev pub lossy_step : List (ℕ × ℕ) → Bytes → ℕ → Bytes × (List (ℕ × ℕ) × Bytes)
lossy_step [] part b = (part, (followers b, b ∷ []))
lossy_step ((low, high) ∷ due) part b =
    if leb low b && leb b high
    then ([], (due, part ++ b ∷ []))
    else (replacement, (followers b, b ∷ []))

unfoldable pub lossy_from : List (ℕ × ℕ) → Bytes → Bytes → Bytes
lossy_from [] part [] = part
lossy_from (range ∷ due) part [] = replacement
lossy_from due part (b ∷ bs) =
    let (out, (due', part')) = lossy_step due part b in out ++ lossy_from due' part' bs

abbrev pub from_utf8_lossy : Bytes → Bytes
from_utf8_lossy text = lossy_from [] [] text
