-- ===== src/Store/Tree.antt =====
-- Trees of files: how they are brought into a store, and how they are written out again. A progress
-- callback is not modelled: it sees counters only.
pub mod Confined
mod Tests
use mathlib.Core.List.{foldl}
use np2ptp.Prelude.{
  ℕ, zero, suc, ◌+◌, ◌-◌, ◌%◌, ◌^◌, Option, none, some, List, [], ◌∷◌, ◌++◌, map, take, drop,
  length, get_elem?, Bool, true, false, not, if◌then◌else◌, Bytes, eq_bytes, Result, ok, err, guard,
  ok_or,
}
use np2ptp.Prelude.Runs.{Run, pure, lift, ◌>>=◌, ◌>>◌}
use np2ptp.Prelude.Maps.{lookup}
use np2ptp.Core.Hash.{Hash, hash_of, merkle_root}
use np2ptp.Core.Chunk.{Cdc, Cut, slice, min_chunk, avg_chunk, max_chunk}
use np2ptp.Core.Manifest.{
  ChunkRef, FileEntry, Manifest, ManifestError, hashes, root_is_consistent, chunk_hash_ok,
}
use np2ptp.Core.Manifest.Build.{from_files, from_bytes}
use np2ptp.Core.Manifest.Container.{Hex}
use np2ptp.Core.Manifest.Reconstruct.{reconstruct, reconstruct_files}
use np2ptp.Core.Path.{PathFlaw, split_on, slash, validate_relative_path}
use np2ptp.Core.Path.Confined.{join}
use np2ptp.Store.{
  Disk, World, StoreError, io, not_found, manifest, missing, corrupt, unsafe_path, file_of, has,
  add_reference, put, get,
}

-- The name of a file that was created, as the names on the way to it, and what was written to it.
abbrev pub Written : Type 0
Written = List (List Bytes × Bytes)

-- `write_all` to the file that was created last.
unfoldable pub write_last : Written → Bytes → Written
write_last [] bytes = []
write_last ((dest, content) ∷ []) bytes = (dest, content ++ bytes) ∷ []
write_last (file ∷ next ∷ files) bytes = file ∷ write_last (next ∷ files) bytes

-- What the closure of `export` works on: the store, and `store_err`.
abbrev pub Fetching : Type 0
Fetching = World × Option StoreError

abbrev pub note_error :
    World → Option StoreError → Result StoreError (Option Bytes) → Option Bytes × Fetching
note_error w before (ok answer) = (answer, (w, before))
note_error w before (err e) = (none, (w, some e))

-- The end of `export`: an error of the store goes before one of the manifest.
abbrev pub finish_export {ℓ} :
    {A : Type ℓ} → Result ManifestError A × Fetching → Result StoreError A × World
finish_export (result, (w, some e)) = (err e, w)
finish_export (ok a, (w, none)) = (ok a, w)
finish_export (err e, (w, none)) = (err (manifest e), w)

-- A step of the store beside what is written out.
abbrev pub on_store {ℓ κ} :
    {A : Type ℓ} {X : Type κ} → Run World StoreError A → Run (World × X) StoreError A
on_store m (w, x) = let (r, w') = m w in (r, (w', x))

module _ (hex : Hex) (blake3 : Bytes → Bytes) where
  -- The loop of `ingest`. The slices are within the data, since the chunks of its manifest tile it.
  unfoldable pub put_slices : Bytes → List ChunkRef → World → World
  put_slices content [] w = w
  put_slices content (c ∷ cs) w =
      put_slices content cs (put hex blake3 (slice content c.offset c.length) w).1

  -- The inner loop of `ingest_tree`, over the chunks of one file.
  unfoldable pub put_file : Bytes → ℕ → List ChunkRef → World → World
  put_file content start [] w = w
  put_file content start (c ∷ cs) w =
      put_file content (start + c.length) cs (put hex blake3 (slice content start c.length) w).1

  -- The outer loop, over `manifest.files.iter().zip(files)`.
  unfoldable pub put_files : Manifest → List FileEntry → List (Bytes × Bytes) → World → World
  put_files m (e ∷ es) ((path, content) ∷ files) w =
      put_files m es files (put_file content 0 (take e.chunk_count (drop e.chunk_start m.chunks)) w)
  put_files m [] files w = w
  put_files m (e ∷ es) [] w = w

  module _ (cdc : Cdc) where
    unfoldable pub ingest : Bytes → Option Bytes → World → Manifest × World
    ingest content name w =
        let m = from_bytes blake3 cdc content name in (m, put_slices content m.chunks w)

    unfoldable pub ingest_tree : List (Bytes × Bytes) → Option Bytes → World → Manifest × World
    ingest_tree files name w =
        let m = from_files blake3 cdc files name in (m, put_files m m.files files w)

  -- The closure of `export` and of `export_tree`.
  unfoldable pub fetch_stored : Hash → Fetching → Option Bytes × Fetching
  fetch_stored h (w, before) = let (r, w') = get hex blake3 h w in note_error w' before r

  unfoldable pub export : Manifest → Run World StoreError Bytes
  export m w = finish_export (reconstruct blake3 fetch_stored m (w, none))

  unfoldable pub export_tree : Manifest → Run World StoreError (List (Bytes × Bytes))
  export_tree m w = finish_export (reconstruct_files blake3 fetch_stored m (w, none))

  -- `get`, the chunk that has to be there, and its check.
  unfoldable pub get_checked : Manifest → ℕ → ChunkRef → Run World StoreError Bytes
  get_checked m index c = do
    found ← get hex blake3 c.hash
    bytes ← lift (ok_or found (missing c.hash))
    lift (guard (chunk_hash_ok blake3 m index bytes) (corrupt c.hash))
    pure bytes

  abbrev pub write_bytes : Bytes → Run (World × Bytes) StoreError (Unit {0})
  write_bytes bytes (w, out) = (ok tt, (w, out ++ bytes))

  -- The loop of `export_to`, with the bytes that were written so far.
  unfoldable pub write_chunks :
      Manifest → ℕ → List ChunkRef → Run (World × Bytes) StoreError (Unit {0})
  write_chunks m index [] = pure tt
  write_chunks m index (c ∷ cs) = do
    bytes ← on_store (get_checked m index c)
    write_bytes bytes
    write_chunks m (suc index) cs

  unfoldable pub export_to : Manifest → Run (World × Bytes) StoreError (Unit {0})
  export_to m = do
    lift (guard (root_is_consistent blake3 m) (corrupt m.root))
    write_chunks m 0 m.chunks

  abbrev pub create_file : List Bytes → Run (World × Written) StoreError (Unit {0})
  create_file dest (w, out) = (ok tt, (w, out ++ (dest, []) ∷ []))

  abbrev pub append_last : Bytes → Run (World × Written) StoreError (Unit {0})
  append_last bytes (w, out) = (ok tt, (w, write_last out bytes))

  -- The length of `chunk_start..chunk_start + chunk_count`. Nothing has checked the manifest, and the
  -- sum wraps around as it is compiled for release; a range that ends before it starts is empty.
  abbrev pub range_length : FileEntry → ℕ
  range_length e = (e.chunk_start + e.chunk_count) % 2 ^ 64 - e.chunk_start

  -- The inner loop of `export_tree_to_dir`: `count` more chunks from `ci` on.
  unfoldable pub write_range : Manifest → ℕ → ℕ → Run (World × Written) StoreError (Unit {0})
  write_range m ci zero = pure tt
  write_range m ci (suc count) = do
    c ← lift (ok_or (get_elem? m.chunks ci) (corrupt m.root))
    bytes ← on_store (get_checked m ci c)
    append_last bytes
    write_range m (suc ci) count

  -- `dest.push(comp)` for each piece between the slashes
  abbrev pub dest_of : List Bytes → Bytes → List Bytes
  dest_of out_dir path = foldl join out_dir (split_on slash path)

  abbrev pub or_unsafe : Bytes → Result PathFlaw (Unit {0}) → Result StoreError (Unit {0})
  or_unsafe path (ok u) = ok tt
  or_unsafe path (err flaw) = err (unsafe_path path)

  abbrev pub check_path : Bytes → Result StoreError (Unit {0})
  check_path path = or_unsafe path (validate_relative_path path)

  unfoldable pub write_files :
      Manifest → List Bytes → List FileEntry → Run (World × Written) StoreError (Unit {0})
  write_files m out_dir [] = pure tt
  write_files m out_dir (e ∷ es) = do
    lift (check_path e.path)
    create_file (dest_of out_dir e.path)
    write_range m e.chunk_start (range_length e)
    write_files m out_dir es

  unfoldable pub export_tree_to_dir :
      Manifest → List Bytes → Run (World × Written) StoreError (Unit {0})
  export_tree_to_dir m out_dir = do
    lift (guard (root_is_consistent blake3 m) (corrupt m.root))
    write_files m out_dir m.files

  -- `stream_cdc` is StreamCDC of the fastcdc crate, and `canonicalize` that of the operating system:
  -- a source file's contents stand under its canonical path.
  module _ (stream_cdc : Cdc) (canonicalize : Bytes → Bytes) where
    -- A chunk's hash, and the store after the chunk was referenced or put.
    abbrev pub take_in : Bool → Bytes → ℕ → Bytes → World → Hash × World
    take_in true path offset content w =
        let h = hash_of blake3 content in
        let (held, w') = has hex h w in
        (h, add_reference hex h (canonicalize path, offset, length content % 2 ^ 32) w')
    take_in false path offset content w = let ((h, new), w') = put hex blake3 content w in (h, w')

    -- The loop of `ingest_file_streaming_impl`.
    unfoldable pub stream_chunks :
        Bool → Bytes → ℕ → List Bytes → World → (List ChunkRef × ℕ) × World
    stream_chunks no_copy path offset [] w = (([], offset), w)
    stream_chunks no_copy path offset (content ∷ rest) w =
        let (h, w') = take_in no_copy path offset content w in
        let size = length content % 2 ^ 32 in
        let ((refs, total), w'') = stream_chunks no_copy path ((offset + size) % 2 ^ 64) rest w' in
        ((record { hash = h; offset = offset; length = size } ∷ refs, total), w'')

    abbrev pub pieces_of : Bytes → List Bytes
    pieces_of [] = []
    pieces_of (b ∷ bs) =
        map (λ (c : Cut). slice (b ∷ bs) c.offset c.length)
          (stream_cdc.cuts (b ∷ bs) min_chunk avg_chunk max_chunk)

    abbrev pub of_file : Bool → Bytes → Option Bytes → Run World StoreError (List ChunkRef × ℕ)
    of_file no_copy path none w = (err (io not_found), w)
    of_file no_copy path (some content) w =
        let (answer, w') = stream_chunks no_copy path 0 (pieces_of content) w in (ok answer, w')

    unfoldable pub ingest_file_streaming_impl :
        Bool → Bytes → Run World StoreError (List ChunkRef × ℕ)
    ingest_file_streaming_impl no_copy path w =
        of_file no_copy path (lookup eq_bytes w.disk.sources (canonicalize path)) w

    -- The chunks, the entries and `global` of the loop of `ingest_tree_files_impl`, whose sums wrap
    -- around.
    abbrev pub Streamed : Type 0
    Streamed = List ChunkRef × List FileEntry × ℕ

    abbrev pub add_streamed : Bytes → List ChunkRef × ℕ → Streamed → Streamed
    add_streamed rel (refs, size) (chunks, entries, global) = (
      chunks
          ++ map
              (λ (r : ChunkRef). record {
                hash = r.hash;
                offset = (global + r.offset) % 2 ^ 64;
                length = r.length;
              })
              refs,
      entries
          ++ record {
            path = rel;
            size = size;
            chunk_start = length chunks;
            chunk_count = length refs;
          }
            ∷ [],
      (global + size) % 2 ^ 64,
    )

    unfoldable pub stream_files :
        Bool → List (Bytes × Bytes) → Streamed → Run World StoreError Streamed
    stream_files no_copy [] done = pure done
    stream_files no_copy ((rel, disk) ∷ files) done = do
      got ← ingest_file_streaming_impl no_copy disk
      stream_files no_copy files (add_streamed rel got done)

    abbrev pub streamed_manifest : Option Bytes → Streamed → Manifest
    streamed_manifest name (chunks, entries, global) = record {
      root = merkle_root blake3 (hashes chunks);
      total_size = global;
      chunks = chunks;
      files = entries;
      name = name;
    }

    unfoldable pub ingest_tree_files_impl :
        Bool → List (Bytes × Bytes) → Option Bytes → Run World StoreError Manifest
    ingest_tree_files_impl no_copy files name = do
      done ← stream_files no_copy files ([], [], 0)
      pure (streamed_manifest name done)
