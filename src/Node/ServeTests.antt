-- ===== src/Node/ServeTests.antt =====
-- The served set at a concrete input.
use mathlib.Core.List.{Mem}
use np2ptp.Prelude.{◌≡◌, refl, true, List, [], ◌∷◌, ◌++◌, Bytes, codes, eq_bytes, Result, ok, err}
use np2ptp.Core.Manifest.{Manifest}
use np2ptp.Core.Manifest.Container.Tests.{toy_bincode, empty, empty_file, to_nptp_run}
use np2ptp.Store.{IoError, not_found}
use np2ptp.Node.ServeSet.{
  Entry, has_extension, collect_serve_manifests, all_listed, collect_serve_manifests-registered,
}

abbrev no_file : Bytes → Result IoError Bytes
no_file path = err not_found

-- A file that is gone, and one that does not decode.
abbrev gone : List Entry
gone = (codes "a.nptp", err not_found) ∷ []

abbrev broken : List Entry
broken = (codes "c.nptp", ok (codes "x")) ∷ []

abbrev own_name : Bytes
own_name = codes "b.nptp"

own_name-named : has_extension own_name ≡ true
unfolding has_extension eq_bytes
own_name-named = refl

collect_serve_manifests-registered_test :
    (ms : List Manifest) × (collect_serve_manifests toy_bincode no_file [] true
        (ok (all_listed toy_bincode (gone ++ (own_name, ok empty_file) ∷ broken)))
      ≡ ok ms)
    × Mem empty ms
collect_serve_manifests-registered_test =
    collect_serve_manifests-registered toy_bincode no_file empty empty_file own_name gone broken
      to_nptp_run own_name-named
