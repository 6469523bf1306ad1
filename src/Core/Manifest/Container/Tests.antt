-- ===== src/Core/Manifest/Container/Tests.antt =====
-- The container and the link at concrete inputs.
use np2ptp.Prelude.{
  ℕ, ◌<◌, ◌≡◌, ◌≢◌, take, refl, ◌⊎◌, Option, none, some, List, [], ◌∷◌, ◌++◌, Bytes, Result, ok,
  err, ◌==◌, if◌then◌else◌,
}
use np2ptp.Prelude
use np2ptp.Core.Hash.{Hash}
use np2ptp.Core.Manifest.{ChunkRef, FileEntry, Manifest, bad_magic, unsupported_version}
use np2ptp.Core.Manifest.Container.{
  Bincode, Hex, nptp_magic, nptp_version, to_nptp, from_nptp, from_serialized, uri, root_from_uri,
  from_nptp-to_nptp, from_nptp-cases, root_from_uri-uri,
}
use np2ptp.Core.Toy.{toy_blake3, toy_digest}

-- A codec for manifests of nothing: it writes the number of bytes and the root.
abbrev pub write_empty : Hash → ℕ → List ChunkRef → List FileEntry → Option Bytes → Option Bytes
write_empty root size [] [] none = some (size ∷ root)
write_empty root size _ _ _ = none

abbrev pub read_empty : Bytes → Option Manifest
read_empty [] = none
read_empty (size ∷ root) =
    some (record { root = root; total_size = size; chunks = []; files = []; name = none })

abbrev pub empty : Manifest
empty = record { root = toy_blake3 (2 ∷ []); total_size = 0; chunks = []; files = []; name = none }

pub read_empty-write_empty :
    (root : Hash) (size : ℕ) (chunks : List ChunkRef) (files : List FileEntry) (name : Option Bytes)
    (body : Bytes)
    → write_empty root size chunks files name ≡ some body
    → read_empty body
      ≡ some
          (record { root = root; total_size = size; chunks = chunks; files = files; name = name })
read_empty-write_empty root size [] [] none [] h = cc
read_empty-write_empty root size [] [] none (b ∷ bs) h = cc
read_empty-write_empty root size _ _ _ body h = cc

abbrev pub toy_bincode : Bincode
toy_bincode = record {
  serialize = λ m. write_empty m.root m.total_size m.chunks m.files m.name;
  deserialize = read_empty;
  deserialize-serialize = λ m. read_empty-write_empty m.root m.total_size m.chunks m.files m.name;
}

abbrev toy_hex : Hex
toy_hex = record { encode = λ h. h; decode = some; decode-encode = λ h k. refl }

abbrev pub empty_file : Bytes
empty_file = nptp_magic ++ nptp_version ∷ 0 ∷ toy_blake3 (2 ∷ [])

pub to_nptp_run : to_nptp toy_bincode empty ≡ ok empty_file
unfolding to_nptp
to_nptp_run = refl

from_nptp-to_nptp_test : from_nptp toy_bincode empty_file ≡ ok empty
from_nptp-to_nptp_test = from_nptp-to_nptp toy_bincode empty empty_file to_nptp_run

from_nptp-cases_test :
    (((Prelude.length empty_file < 5) ⊎ (take 4 empty_file ≢ nptp_magic))
      × (from_nptp toy_bincode empty_file ≡ err bad_magic))
    ⊎ ((version : ℕ) × (body : Bytes) × (empty_file ≡ nptp_magic ++ version ∷ body)
        × (from_nptp toy_bincode empty_file ≡ (
            if version == nptp_version
            then from_serialized toy_bincode body
            else err (unsupported_version version))))
from_nptp-cases_test = from_nptp-cases toy_bincode empty_file

link_read : root_from_uri toy_hex (uri toy_hex empty) ≡ ok empty.root
link_read = root_from_uri-uri toy_hex empty (toy_digest (2 ∷ []))
