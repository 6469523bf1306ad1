-- ===== src/Core/Path/Tests.antt =====
-- The path check at concrete inputs.
use np2ptp.Prelude.{
  ◌≡◌, ◌<◌, refl, List, [], ◌∷◌, ◌++◌, length, All, Bytes, codes, eq_bytes, ok, err,
}
use np2ptp.Core.Path.{
  not_relative, reserved_device, split_on, body, front, components, contains_byte, ends_with,
  first_piece, one_of, is_windows_reserved_device, check_component, check_components,
  validate_relative_path,
}
use np2ptp.Core.Path.Confined.{join, Ordinary, validate_relative_path_confined}

ordinary_path : validate_relative_path (codes "dir/file.txt") ≡ ok tt
unfolding validate_relative_path components front body split_on check_components check_component
    contains_byte ends_with is_windows_reserved_device first_piece one_of eq_bytes
ordinary_path = refl

climbing_path : validate_relative_path (codes "a/../b") ≡ err not_relative
unfolding validate_relative_path components front body split_on check_components check_component
    contains_byte ends_with is_windows_reserved_device first_piece one_of eq_bytes
climbing_path = refl

absolute_path : validate_relative_path (codes "/etc") ≡ err not_relative
unfolding validate_relative_path components body split_on check_components check_component
    contains_byte eq_bytes
absolute_path = refl

device_path : validate_relative_path (codes "nul.txt") ≡ err reserved_device
unfolding validate_relative_path components front body split_on check_components check_component
    contains_byte ends_with is_windows_reserved_device first_piece one_of eq_bytes
device_path = refl

-- `.` inside a path is skipped by `components`.
inner_dot : validate_relative_path (codes "a/./b") ≡ ok tt
unfolding validate_relative_path components front body split_on check_components check_component
    contains_byte ends_with is_windows_reserved_device first_piece one_of eq_bytes
inner_dot = refl

validate_relative_path_confined_test :
    (names : List Bytes) × (join (codes "out" ∷ []) (codes "dir/file.txt")
      ≡ (codes "out" ∷ []) ++ names)
    × (0 < length names)
    × All Ordinary names
validate_relative_path_confined_test =
    validate_relative_path_confined (codes "dir/file.txt") (codes "out" ∷ []) ordinary_path
