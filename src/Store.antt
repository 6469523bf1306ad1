-- ===== src/Store.antt =====
-- crates/np2ptp-store/src/lib.rs: the chunk store. A handle is the in-memory part of `Store`, and
-- the world is a handle together with the disk, which other handles may change between its calls.
-- Failures of the disk itself, such as a full disk, are not modelled: the errors are those of files
-- that are missing, too short or not UTF-8.
pub mod Text
pub mod Intact
pub mod Put
pub mod Sound
pub mod Open
pub mod Tree
pub mod Toy
mod Tests
use mathlib.Core.List.{foldl}
use np2ptp.Prelude.{
  ℕ, zero, suc, ◌+◌, ◌-◌, ◌*◌, ◌^◌, ◌%◌, Option, none, some, List, [], ◌∷◌, ◌++◌, take, drop,
  length, ◌==◌, leb, Bool, true, false, ◌&&◌, ◌||◌, if◌then◌else◌, Bytes, eq_bytes, Result, ok, err,
}
use np2ptp.Prelude.Runs.{Run, pure, lift, ◌>>=◌, ◌>>◌}
use np2ptp.Prelude.Maps.{Map, lookup, insert, contains}
use np2ptp.Prelude.Utf8.{is_utf8}
use np2ptp.Core.Hash.{Hash}
use np2ptp.Core.Manifest.{ManifestError}
use np2ptp.Core.Manifest.Container.{Hex}
use np2ptp.Store.Text.{
  PackLoc, RefLoc, newline, lines, complete_lines, parse_pack_index_line, parse_ref_line,
  pack_index_line, ref_line,
}

pub data IoError : Type 0 where
  not_found unexpected_eof invalid_data : IoError

pub data StoreError : Type 0 where
  io : IoError → StoreError
  manifest : ManifestError → StoreError
  missing : Hash → StoreError
  corrupt : Hash → StoreError
  unsafe_path : Bytes → StoreError

-- The directory of the store, and the files elsewhere that references name. A text file that is not
-- there is read like one that is empty.
pub record Disk : Type 0 where
  pub packs : Map ℕ Bytes
  pub index : Bytes
  pub refs : Bytes
  pub objects : Map Hash Bytes
  pub sources : Map Bytes Bytes

-- The fields of `Store` and of its `PackState`.
pub record Handle : Type 0 where
  pub pack_index : Map Hash PackLoc
  pub pack_index_pos : ℕ
  pub refs : Map Hash RefLoc
  pub refs_pos : ℕ
  pub current_id : ℕ
  pub current_size : ℕ

pub record World : Type 0 where
  pub disk : Disk
  pub handle : Handle

abbrev pub pack_rotate_size : ℕ
pack_rotate_size = 256 * 1024 * 1024

-- `seek` and `read_exact`
unfoldable pub read_range : Bytes → ℕ → ℕ → Result StoreError Bytes
read_range file offset size =
    let got = take size (drop offset file) in
    if length got == size then ok got else err (io unexpected_eof)

abbrev pub file_of : Option Bytes → Result StoreError Bytes
file_of none = err (io not_found)
file_of (some file) = ok file

abbrev pub existing : Option Bytes → Bytes
existing none = []
existing (some file) = file

-- A file that is opened with `create` and `append`, and the bytes that are written to it.
abbrev pub append_to : Map ℕ Bytes → ℕ → Bytes → Map ℕ Bytes
append_to packs id bytes = insert ◌==◌ packs id (existing (lookup ◌==◌ packs id) ++ bytes)

abbrev pub read_from_pack : Disk → PackLoc → Result StoreError Bytes
read_from_pack d (id, offset, size) =
    np2ptp.Prelude.◌>>=◌ (file_of (lookup ◌==◌ d.packs id)) λ file. read_range file offset size

-- `PackState::write`: the rotation, and the bytes at the real end of the file.
abbrev pub write_id : Handle → ℕ
write_id s =
    if leb pack_rotate_size s.current_size then (s.current_id + 1) % 2 ^ 32 else s.current_id

abbrev pub end_of : Disk → ℕ → ℕ
end_of d id = length (existing (lookup ◌==◌ d.packs id))

unfoldable pub pack_write : Bytes → World → PackLoc × World
pack_write bytes w =
    let id = write_id w.handle in
    let offset = end_of w.disk id in
    (
      (id, offset, length bytes % 2 ^ 32),
      record {
        disk = record (w.disk) { packs = append_to w.disk.packs id bytes };
        handle = record (w.handle) { current_id = id; current_size = offset + length bytes };
      },
    )

module _ (hex : Hex) where
  abbrev pub insert_pack : Map Hash PackLoc → Option (Hash × PackLoc) → Map Hash PackLoc
  insert_pack m none = m
  insert_pack m (some (h, loc)) = insert eq_bytes m h loc

  abbrev pub insert_ref : Map Hash RefLoc → Option (Hash × RefLoc) → Map Hash RefLoc
  insert_ref m none = m
  insert_ref m (some (h, loc)) = insert eq_bytes m h loc

  -- The loops over `lines()`.
  unfoldable pub index_lines : Map Hash PackLoc → List Bytes → Map Hash PackLoc
  index_lines m [] = m
  index_lines m (line ∷ rest) = index_lines (insert_pack m (parse_pack_index_line hex line)) rest

  unfoldable pub index_refs : Map Hash RefLoc → List Bytes → Map Hash RefLoc
  index_refs m [] = m
  index_refs m (line ∷ rest) = index_refs (insert_ref m (parse_ref_line hex line)) rest

  -- `read_to_string`
  abbrev pub read_text : Bytes → Result StoreError Bytes
  read_text text = if is_utf8 text then ok text else err (io invalid_data)

  unfoldable pub refresh_pack_index : Run World StoreError (Unit {0})
  refresh_pack_index w =
      let tail = drop w.handle.pack_index_pos w.disk.index in
      let complete = complete_lines tail in
      let after : Handle = record (w.handle) {
        pack_index = index_lines w.handle.pack_index (lines complete);
        pack_index_pos = w.handle.pack_index_pos + length complete;
      } in
      if leb (length w.disk.index) w.handle.pack_index_pos
      then (ok tt, w)
      else if is_utf8 tail
      then (ok tt, record w { handle = after })
      else (err (io invalid_data), w)

  unfoldable pub refresh_refs : Run World StoreError (Unit {0})
  refresh_refs w =
      let tail = drop w.handle.refs_pos w.disk.refs in
      let complete = complete_lines tail in
      let after : Handle = record (w.handle) {
        refs = index_refs w.handle.refs (lines complete);
        refs_pos = w.handle.refs_pos + length complete;
      } in
      if leb (length w.disk.refs) w.handle.refs_pos
      then (ok tt, w)
      else if is_utf8 tail
      then (ok tt, record w { handle = after })
      else (err (io invalid_data), w)

  -- `let _ = …`
  abbrev pub ignoring : Run World StoreError (Unit {0}) → World → World
  ignoring m w = (m w).1

  abbrev pub in_packs : World → Hash → Bool
  in_packs w h = contains eq_bytes w.handle.pack_index h

  abbrev pub known : World → Hash → Bool
  known w h =
      in_packs w h || (contains eq_bytes w.disk.objects h || contains eq_bytes w.handle.refs h)

  unfoldable pub has : Hash → World → Bool × World
  has h w =
      let refreshed = ignoring refresh_pack_index w in
      if known w h then (true, w) else (in_packs refreshed h, refreshed)

  unfoldable pub add_reference : Hash → RefLoc → World → World
  add_reference h loc w = record {
    disk = record (w.disk) { refs = w.disk.refs ++ (ref_line hex h loc ++ newline ∷ []) };
    handle = record (w.handle) { refs = insert eq_bytes w.handle.refs h loc };
  }

  -- `append_pack_index_line`, the entry in memory, and the cursor moved past the line.
  unfoldable pub record_line : Hash → PackLoc → World → World
  record_line h loc w =
      let line = pack_index_line hex h loc ++ newline ∷ [] in
      record {
        disk = record (w.disk) { index = w.disk.index ++ line };
        handle = record (w.handle) {
          pack_index = insert eq_bytes w.handle.pack_index h loc;
          pack_index_pos = w.handle.pack_index_pos + length line;
        };
      }

  module _ (blake3 : Bytes → Bytes) where
    -- The part of `put` under the lock, behind the second check.
    unfoldable pub store_new : Hash → Bytes → World → World
    store_new h bytes w = let (loc, w') = pack_write bytes w in record_line h loc w'

    abbrev pub put_fresh : Hash → Bytes → World → (Hash × Bool) × World
    put_fresh h bytes w = if known w h then ((h, false), w) else ((h, true), store_new h bytes w)

    unfoldable pub put : Bytes → World → (Hash × Bool) × World
    put bytes w =
        let h = blake3 bytes in
        let (held, w') = has h w in
        if held
        then ((h, false), w')
        else put_fresh h bytes (ignoring refresh_refs (ignoring refresh_pack_index w'))

    -- `if Hash::of(&bytes) != *h { … }`
    abbrev pub checked : Hash → Bytes → Result StoreError (Option Bytes)
    checked h bytes = if eq_bytes (blake3 bytes) h then ok (some bytes) else err (corrupt h)

    abbrev pub read_checked : Hash → Result StoreError Bytes → Result StoreError (Option Bytes)
    read_checked h (ok bytes) = checked h bytes
    read_checked h (err e) = err e

    abbrev pub from_pack : Disk → Hash → Option PackLoc → Result StoreError (Option Bytes)
    from_pack d h none = ok none
    from_pack d h (some loc) = read_checked h (read_from_pack d loc)

    unfoldable pub get_from_pack_index : Hash → World → Result StoreError (Option Bytes)
    get_from_pack_index h w = from_pack w.disk h (lookup eq_bytes w.handle.pack_index h)

    abbrev pub from_object : Hash → Option Bytes → Result StoreError (Option Bytes)
    from_object h none = ok none
    from_object h (some bytes) = checked h bytes

    -- A source file that is gone is no error.
    abbrev pub from_source : Hash → ℕ → ℕ → Option Bytes → Result StoreError (Option Bytes)
    from_source h offset size none = ok none
    from_source h offset size (some file) = read_checked h (read_range file offset size)

    abbrev pub from_ref : Disk → Hash → Option RefLoc → Result StoreError (Option Bytes)
    from_ref d h none = ok none
    from_ref d h (some (path, offset, size)) =
        from_source h offset size (lookup eq_bytes d.sources path)

    unfoldable pub get_reference : Hash → World → Result StoreError (Option Bytes)
    get_reference h w = from_ref w.disk h (lookup eq_bytes w.handle.refs h)

    -- The first of two places that has the chunk.
    abbrev pub or_else :
        Result StoreError (Option Bytes)
        → Run World StoreError (Option Bytes)
        → Run World StoreError (Option Bytes)
    or_else (ok (some bytes)) next w = (ok (some bytes), w)
    or_else (ok none) next w = next w
    or_else (err e) next w = (err e, w)

    unfoldable pub get_refreshed : Hash → Run World StoreError (Option Bytes)
    get_refreshed h = do refresh_pack_index; λ w. (get_from_pack_index h w, w)

    unfoldable pub get : Hash → Run World StoreError (Option Bytes)
    get h w =
        or_else (get_from_pack_index h w)
          (or_else (from_object h (lookup eq_bytes w.disk.objects h))
            (or_else (get_reference h w) (get_refreshed h)))
          w

    -- Packed chunks, and what is left of the old layout.
    unfoldable pub object_count : Run World StoreError ℕ
    object_count = do
      refresh_pack_index
      λ w. (ok (length w.handle.pack_index + length w.disk.objects), w)
