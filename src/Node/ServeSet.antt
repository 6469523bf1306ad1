-- ===== src/Node/ServeSet.antt =====
-- crates/np2ptp-node/src/serve_set.rs: the manifests that a node serves, given as paths or registered in
-- the store. `read` is `fs::read`, and `entries` is what `read_dir` lists, in any order. The messages of
-- errors and what is printed are left out.
use mathlib.Core.List.{Mem}
use mathlib.Core.List as List
use np2ptp.Prelude.{
  ◌+◌, ◌-◌, ◌<◌, arith, length-append, lt→ltb, drop-append_length, ◌≡◌, refl, List, [], ◌∷◌, ◌++◌,
  drop, length, ltb, Bool, true, false, Bool-cases, not, ◌&&◌, if◌then◌else◌, inl, inr, Bytes,
  codes, eq_bytes, eq_bytes_refl, Result, ok, err, ◌>>=◌,
}
use np2ptp.Core.Manifest.{Manifest, ManifestError}
use np2ptp.Core.Manifest.Container.{Hex, Bincode, to_nptp, from_nptp, from_nptp-to_nptp}
use np2ptp.Prelude.{some, ◌≢◌}
use np2ptp.Prelude.Maps.{lookup}
use np2ptp.Rep.Saved.{Files, perform_all, save_steps}
use np2ptp.Rep.Saved.Crash.{lookup-save_steps}
use np2ptp.Store.{IoError}
use np2ptp.Node.{NodeError}

abbrev pub of_io {ℓ} : {A : Type ℓ} → Result IoError A → Result NodeError A
of_io (ok a) = ok a
of_io (err e) = err (NodeError.io e)

abbrev pub of_manifest {ℓ} : {A : Type ℓ} → Result ManifestError A → Result NodeError A
of_manifest (ok a) = ok a
of_manifest (err e) = err (NodeError.manifest e)

abbrev pub extension : Bytes
extension = codes ".nptp"

-- `extension() == Some("nptp")`: the name ends with it behind a stem.
unfoldable pub has_extension : Bytes → Bool
has_extension name = ltb 5 (length name) && eq_bytes (drop (length name - 5) name) extension

-- An entry's name, and what reading the file gives.
abbrev pub Entry : Type 0
Entry = Bytes × Result IoError Bytes

-- The name under which a manifest is registered.
unfoldable pub registered_name : Hex → Manifest → Bytes
registered_name hex m = hex.encode m.root ++ extension

module _ (bincode : Bincode) where
  -- The loop over the paths.
  unfoldable pub read_manifests :
      (Bytes → Result IoError Bytes) → List Bytes → Result NodeError (List Manifest)
  read_manifests read [] = ok []
  read_manifests read (p ∷ paths) = do
    bytes ← of_io (read p)
    m ← of_manifest (from_nptp bincode bytes)
    rest ← read_manifests read paths
    ok (m ∷ rest)

  -- A file that cannot be read or decoded is skipped.
  abbrev pub with_decoded : Result ManifestError Manifest → List Manifest → List Manifest
  with_decoded (ok m) rest = m ∷ rest
  with_decoded (err e) rest = rest

  abbrev pub with_file : Result IoError Bytes → List Manifest → List Manifest
  with_file (ok bytes) rest = with_decoded (from_nptp bincode bytes) rest
  with_file (err e) rest = rest

  abbrev pub with_entry : Entry → List Manifest → List Manifest
  with_entry (name, file) rest = if has_extension name then with_file file rest else rest

  -- The loop over the directory; an entry that cannot be listed ends it.
  unfoldable pub registered : List (Result IoError Entry) → Result NodeError (List Manifest)
  registered [] = ok []
  registered (entry ∷ entries) = do
    e ← of_io entry
    rest ← registered entries
    ok (with_entry e rest)

  abbrev pub not_empty : List Manifest → Result NodeError (List Manifest)
  not_empty [] = err NodeError.invalid_usage
  not_empty (m ∷ ms) = ok (m ∷ ms)

  abbrev pub listed :
      Result IoError (List (Result IoError Entry)) → Result NodeError (List Manifest)
  listed (ok entries) = registered entries
  listed (err e) = ok []

  abbrev pub is_empty : List Bytes → Bool
  is_empty [] = true
  is_empty (p ∷ paths) = false

  unfoldable pub collect_serve_manifests :
      (Bytes → Result IoError Bytes)
      → List Bytes
      → Bool
      → Result IoError (List (Result IoError Entry))
      → Result NodeError (List Manifest)
  collect_serve_manifests read paths all entries =
      if all && not (is_empty paths)
      then err NodeError.invalid_usage
      else if not all
      then (if is_empty paths then err NodeError.invalid_usage else read_manifests read paths)
      else listed entries >>= not_empty

  -- The entries that can be listed are what is left of the directory.
  abbrev pub all_listed : List Entry → List (Result IoError Entry)
  all_listed [] = []
  all_listed (e ∷ es) = ok e ∷ all_listed es

  abbrev pub decodable : List Entry → List Manifest
  decodable [] = []
  decodable (e ∷ es) = with_entry e (decodable es)

  registered-all_listed : (es : List Entry) → registered (all_listed es) ≡ ok (decodable es)
  unfolding registered
  registered-all_listed [] = refl
  registered-all_listed (e ∷ es) = rw (registered-all_listed es) refl

  with_entry-Mem :
      (m : Manifest) (e : Entry) (rest : List Manifest) → Mem m rest → Mem m (with_entry e rest)
  with_entry-Mem m (name, file) rest there = elim (Bool-cases (has_extension name)) [
    | inl e ↦ rw e (of_file file)
    | inr e ↦ rw e there
  ]
    where
      of_decoded : (r : Result ManifestError Manifest) → Mem m (with_decoded r rest)
      of_decoded (ok n) = List.mem-cons_of_mem n there
      of_decoded (err e) = there

      of_file : (r : Result IoError Bytes) → Mem m (with_file r rest)
      of_file (ok bytes) = of_decoded (from_nptp bincode bytes)
      of_file (err e) = there

  decodable-Mem :
      (m : Manifest) (file name : Bytes) (front back : List Entry)
      → to_nptp bincode m ≡ ok file
      → has_extension name ≡ true
      → Mem m (decodable (front ++ (name, ok file) ∷ back))
  decodable-Mem m file name [] back written named =
      rw (named, from_nptp-to_nptp bincode m file written)
        (List.mem-cons_self {a = m} {l = decodable back})
  decodable-Mem m file name (e ∷ front) back written named =
      with_entry-Mem m e (decodable (front ++ (name, ok file) ∷ back))
        (decodable-Mem m file name front back written named)

  some_left : (m : Manifest) (ms : List Manifest) → Mem m ms → not_empty ms ≡ ok ms
  some_left m [] there = absurd (List.not-mem-nil there)
  some_left m (n ∷ ms) there = refl

  -- With `--all`, a manifest whose container stands in the directory under a name with the extension is
  -- among those that are served, whatever other entries there are before and behind it, with files that
  -- cannot be read or decoded among them.
  pub collect_serve_manifests-registered :
      (read : Bytes → Result IoError Bytes) (m : Manifest) (file name : Bytes)
      (front back : List Entry)
      → to_nptp bincode m ≡ ok file
      → has_extension name ≡ true
      → (ms : List Manifest) × (collect_serve_manifests read [] true
            (ok (all_listed (front ++ (name, ok file) ∷ back)))
          ≡ ok ms)
        × Mem m ms
  unfolding collect_serve_manifests
  collect_serve_manifests-registered read m file name front back written named =
      let entries = front ++ (name, ok file) ∷ back in
      let there = decodable-Mem m file name front back written named in
      (
        decodable entries,
        rw (registered-all_listed entries) (some_left m (decodable entries) there),
        there,
      )

-- The name that `register_manifest` gives has the extension.
pub registered_name-has_extension :
    (hex : Hex) (m : Manifest)
    → 0 < length (hex.encode m.root)
    → has_extension (registered_name hex m) ≡ true
unfolding has_extension registered_name
registered_name-has_extension hex m some_digits =
    let stem = hex.encode m.root in
    let total : length (stem ++ extension) ≡ length stem + 5 = length-append stem extension in
    let cut : length (stem ++ extension) - 5 ≡ length stem = omega (arith, total) in
    let long : ltb 5 (length (stem ++ extension)) ≡ true =
      lt→ltb 5 (length (stem ++ extension)) (omega (arith, total, some_digits)) in
    let rest : drop (length (stem ++ extension) - 5) (stem ++ extension) ≡ extension =
      rw cut (drop-append_length (length stem) stem extension refl) in
    rw (long, rest) (eq_bytes_refl extension)

module _ (hex : Hex) (bincode : Bincode) where
  abbrev pub write_registered :
      Bytes → Manifest → Files → Result ManifestError Bytes → Result NodeError (Unit {0}) × Files
  write_registered tmp m files (err e) = (err (NodeError.manifest e), files)
  write_registered tmp m files (ok file) =
      (ok tt, perform_all (save_steps tmp (registered_name hex m) file) files)

  -- The names of `files` are those in the registry's directory, and `tmp` is that of the temporary file.
  unfoldable pub register_manifest : Bytes → Manifest → Files → Result NodeError (Unit {0}) × Files
  register_manifest tmp m files = write_registered tmp m files (to_nptp bincode m)

  -- A manifest that is registered stands as a whole under its name.
  pub register_manifest_lem :
      (tmp : Bytes) (m : Manifest) (file : Bytes) (files : Files)
      → tmp ≢ registered_name hex m
      → to_nptp bincode m ≡ ok file
      → lookup eq_bytes (register_manifest tmp m files).1 (registered_name hex m)
        ≡ some (file, true)
  unfolding register_manifest
  register_manifest_lem tmp m file files apart written =
      rw written (lookup-save_steps tmp (registered_name hex m) file apart files)
