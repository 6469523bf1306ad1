-- ===== src/Core/Path.antt =====
-- crates/np2ptp-core/src/path.rs: the check on paths that come from peers. A path is UTF-8 text as
-- bytes; `Path::components` is modelled as it works on Unix.
pub mod Confined
pub mod Pushed
mod Tests
use np2ptp.Prelude.{
  ℕ, zero, suc, ◌-◌, List, [], ◌∷◌, ◌++◌, map, leb, ◌==◌, Bool, true, false, not, ◌&&◌, ◌||◌,
  if◌then◌else◌, Bytes, codes, eq_bytes, Result, ok, err, ◌>>=◌, ◌>>◌, guard,
}

-- The messages of `validate_relative_path`; that of text which is not UTF-8 cannot occur.
pub data PathFlaw : Type 0 where
  empty_path backslash colon trailing_dot_or_space reserved_device not_relative no_file : PathFlaw

-- `std::path::Component`, without the prefixes of Windows.
pub data Component : Type 0 where
  root_dir : Component
  cur_dir : Component
  parent_dir : Component
  normal : Bytes → Component

abbrev pub slash : ℕ
slash = 47

-- `str::split`: the pieces between separators, one more than there are separators.
abbrev pub cons_first : ℕ → List Bytes → List Bytes
cons_first b [] = (b ∷ []) ∷ []
cons_first b (piece ∷ pieces) = (b ∷ piece) ∷ pieces

unfoldable pub split_on : ℕ → Bytes → List Bytes
split_on sep [] = [] ∷ []
split_on sep (b ∷ bs) =
    let rest = split_on sep bs in if b == sep then [] ∷ rest else cons_first b rest

-- The component of a piece that is not the first of a relative path; empty pieces and `.` are
-- skipped.
unfoldable pub body : List Bytes → List Component
body [] = []
body (piece ∷ pieces) =
    let rest = body pieces in
    if eq_bytes piece [] || eq_bytes piece (codes ".")
    then rest
    else if eq_bytes piece (codes "..")
    then parent_dir ∷ rest
    else normal piece ∷ rest

unfoldable pub front : List Bytes → List Component
front [] = []
front (piece ∷ pieces) =
    let rest = body pieces in
    if eq_bytes piece (codes ".") then cur_dir ∷ rest else body (piece ∷ pieces)

unfoldable pub components : Bytes → List Component
components [] = []
components (b ∷ bs) =
    if b == slash then root_dir ∷ body (split_on slash bs) else front (split_on slash (b ∷ bs))

unfoldable pub contains_byte : ℕ → Bytes → Bool
contains_byte c [] = false
contains_byte c (b ∷ bs) = let rest = contains_byte c bs in (b == c) || rest

unfoldable pub ends_with : ℕ → Bytes → Bool
ends_with c [] = false
ends_with c (b ∷ []) = b == c
ends_with c (b ∷ d ∷ bs) = ends_with c (d ∷ bs)

abbrev pub to_upper : ℕ → ℕ
to_upper b = if leb 97 b && leb b 122 then b - 32 else b

unfoldable pub first_piece : List Bytes → Bytes
first_piece [] = []
first_piece (piece ∷ pieces) = piece

unfoldable pub one_of : Bytes → List Bytes → Bool
one_of name [] = false
one_of name (d ∷ devices) = let rest = one_of name devices in eq_bytes name d || rest

abbrev pub devices : List Bytes
devices =
    codes "CON"
    ∷ codes "PRN"
    ∷ codes "AUX"
    ∷ codes "NUL"
    ∷ codes "COM1"
    ∷ codes "COM2"
    ∷ codes "COM3"
    ∷ codes "COM4"
    ∷ codes "COM5"
    ∷ codes "COM6"
    ∷ codes "COM7"
    ∷ codes "COM8"
    ∷ codes "COM9"
    ∷ codes "LPT1"
    ∷ codes "LPT2"
    ∷ codes "LPT3"
    ∷ codes "LPT4"
    ∷ codes "LPT5"
    ∷ codes "LPT6"
    ∷ codes "LPT7"
    ∷ codes "LPT8"
    ∷ codes "LPT9"
    ∷ codes "$MFT"
    ∷ codes "$MFTMIRR"
    ∷ codes "$LOGFILE"
    ∷ codes "$VOLUME"
    ∷ codes "$ATTRDEF"
    ∷ codes "$BITMAP"
    ∷ codes "$BOOT"
    ∷ codes "$BADCLUS"
    ∷ codes "$SECURE"
    ∷ codes "$UPCASE"
    ∷ codes "$EXTEND"
    ∷ codes "$QUOTA"
    ∷ codes "$OBJID"
    ∷ codes "$REPARSE"
    ∷ []

unfoldable pub is_windows_reserved_device : Bytes → Bool
is_windows_reserved_device name = one_of (map to_upper (first_piece (split_on 46 name))) devices

unfoldable pub check_component : Component → Result PathFlaw (Unit {0})
check_component (normal name) = do
  guard (not (contains_byte 58 name)) colon
  guard (not (ends_with 46 name || ends_with 32 name)) trailing_dot_or_space
  guard (not (is_windows_reserved_device name)) reserved_device
check_component root_dir = err not_relative
check_component cur_dir = err not_relative
check_component parent_dir = err not_relative

-- The loop over the components, with the number of normal ones so far.
unfoldable pub check_components : ℕ → List Component → Result PathFlaw ℕ
check_components count [] = ok count
check_components count (c ∷ cs) = check_component c >> check_components (suc count) cs

unfoldable pub validate_relative_path : Bytes → Result PathFlaw (Unit {0})
validate_relative_path path = do
  guard (not (eq_bytes path [])) empty_path
  guard (not (contains_byte 92 path)) backslash
  count ← check_components 0 (components path)
  guard (not (count == 0)) no_file
