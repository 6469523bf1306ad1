-- ===== src/Store/Tree/Confined.antt =====
-- What `export_tree_to_dir` writes stays under the output directory.
use np2ptp.Prelude.{
  ℕ, zero, suc, ◌<◌, ◌≡◌, refl, ◌∙◌, List, [], ◌∷◌, ◌++◌, length, get_elem?, All, All-append, Bytes,
  Result, ok, err, guard, ok_or,
}
use np2ptp.Prelude.Runs.{Run, lift, carry, ◌>>=◌}
use np2ptp.Core.Path.{PathFlaw, validate_relative_path}
use np2ptp.Core.Path.Confined.{Ordinary, validate_relative_path_confined}
use np2ptp.Core.Path.Pushed.{join-validate_relative_path}
use np2ptp.Core.Manifest.{FileEntry, Manifest, root_is_consistent}
use np2ptp.Core.Manifest.Container.{Hex}
use np2ptp.Store.{World, corrupt}
use np2ptp.Store.Tree.{
  Written, write_last, on_store, get_checked, create_file, append_last, range_length, write_range,
  dest_of, or_unsafe, check_path, write_files, export_tree_to_dir,
}

-- The place is under the directory, behind one ordinary name or more.
abbrev pub Below : List Bytes → List Bytes × Bytes → Type 0
Below dir file =
    (names : List Bytes) × (file.0 ≡ dir ++ names) × (0 < length names) × All Ordinary names

module _ {X E : Type 0} (P : X → Type 0) where
  -- However the run ends, it keeps the property of what was written.
  abbrev Keeps {ℓ} : {A : Type ℓ} → Run (World × X) E A → Type 0
  Keeps m = (s : World × X) → P s.1 → P (m s).1.1

  carry-Keeps {ℓ κ} :
      {A : Type ℓ} {B : Type κ} (r : Result E A) (f : A → Run (World × X) E B) (s : World × X)
      → ((a : A) → r ≡ ok a → Keeps (f a))
      → P s.1
      → P (carry r f s).1.1
  carry-Keeps (ok a) f s keeps p = keeps a refl s p
  carry-Keeps (err e) f s keeps p = p

  bind-Keeps {ℓ κ} :
      {A : Type ℓ} {B : Type κ} (m : Run (World × X) E A) (f : A → Run (World × X) E B)
      → Keeps m
      → ((a : A) → Keeps (f a))
      → Keeps (m >>= f)
  bind-Keeps m f first next s p = carry-Keeps (m s).0 f (m s).1 (λ a _. next a) (first s p)

write_last-All :
    (dir : List Bytes) (out : Written) (bytes : Bytes)
    → All (Below dir) out
    → All (Below dir) (write_last out bytes)
unfolding write_last
write_last-All dir [] bytes h = tt
write_last-All dir ((dest, content) ∷ []) bytes h = h
write_last-All dir (file ∷ next ∷ files) bytes (p, h) =
    (p, write_last-All dir (next ∷ files) bytes h)

or_unsafe-ok :
    (hex : Hex) (blake3 : Bytes → Bytes) (path : Bytes) (r : Result PathFlaw (Unit {0}))
    → or_unsafe hex blake3 path r ≡ ok tt
    → r ≡ ok tt
or_unsafe-ok hex blake3 path (ok u) h = refl
or_unsafe-ok hex blake3 path (err flaw) h = cc h

module _ (hex : Hex) (blake3 : Bytes → Bytes) (m : Manifest) (dir : List Bytes) where
  write_range-Below :
      (ci count : ℕ) (s : World × Written)
      → All (Below dir) s.1
      → All (Below dir) (write_range hex blake3 m ci count s).1.1
  unfolding write_range
  write_range-Below ci zero s h = h
  write_range-Below ci (suc count) s h =
      bind-Keeps (All (Below dir)) (lift (ok_or (get_elem? m.chunks ci) (corrupt m.root))) _
        (λ _ p. p)
        (λ c.
          bind-Keeps (All (Below dir)) (on_store (get_checked hex blake3 m ci c)) _ (λ _ p. p)
            (λ bytes.
              bind-Keeps (All (Below dir)) (append_last hex blake3 bytes)
                (λ _. write_range hex blake3 m (suc ci) count)
                (λ s p. write_last-All dir s.1 bytes p)
                (λ _ s p. write_range-Below (suc ci) count s p)))
        s h

  write_files-Below :
      (es : List FileEntry) (s : World × Written)
      → All (Below dir) s.1
      → All (Below dir) (write_files hex blake3 m dir es s).1.1
  unfolding write_files
  write_files-Below [] s h = h
  write_files-Below (e ∷ es) s h =
      carry-Keeps (All (Below dir)) (check_path hex blake3 e.path) _ s
        (λ u checked s p.
          let valid = or_unsafe-ok hex blake3 e.path (validate_relative_path e.path) checked in
          let (names, joined, some_name, ordinary) =
            validate_relative_path_confined e.path dir valid in
          bind-Keeps (All (Below dir)) (create_file hex blake3 (dest_of hex blake3 dir e.path))
            (λ _. write_range hex blake3 m e.chunk_start (range_length hex blake3 e) >>= λ _.
              write_files hex blake3 m dir es)
            (λ s p. All-append (Below dir) s.1 _ p (
              (names, join-validate_relative_path e.path dir valid ∙ joined, some_name, ordinary),
              tt,
            ))
            (λ _.
              bind-Keeps (All (Below dir))
                (write_range hex blake3 m e.chunk_start (range_length hex blake3 e))
                (λ _. write_files hex blake3 m dir es)
                (write_range-Below e.chunk_start (range_length hex blake3 e))
                (λ _ s p. write_files-Below es s p))
            s p)
        h

  -- Every file that an export of a tree creates, whether the export succeeds or fails, and whatever
  -- the manifest says, is in the output directory or below it: its place is that directory followed by
  -- one name or more, each without a colon, not ending with a dot or a space, and no reserved device
  -- name.
  pub export_tree_to_dir_confined :
      (w : World) → All (Below dir) (export_tree_to_dir hex blake3 m dir (w, [])).1.1
  unfolding export_tree_to_dir
  export_tree_to_dir_confined w =
      bind-Keeps (All (Below dir)) (lift (guard (root_is_consistent blake3 m) (corrupt m.root)))
        (λ _. write_files hex blake3 m dir m.files) (λ _ p. p)
        (λ _ s p. write_files-Below m.files s p) (w, []) tt
