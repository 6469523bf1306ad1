-- ===== src/Rep/Saved/Crash.antt =====
-- What a crash in the middle of a save leaves behind.
use np2ptp.Prelude.{
  ℕ, zero, suc, ◌≡◌, ◌≢◌, refl, sym, ◌∙◌, Option, none, some, [], take, take-nil, Bool, true, false,
  Bool-cases, ◌⊎◌, inl, inr, Bytes, eq_bytes, eq_bytes_iff,
}
use np2ptp.Prelude.Maps.{lookup, insert, remove, lookup-insert, lookup-insert_other}
use np2ptp.Rep.Saved.{
  Codec, Files, perform, perform_all, save_steps, save, read_file, read_value, open_saved,
}

-- After a crash, files that are not there are still not there, and files that were flushed are as they
-- were; those that were not may hold anything.
abbrev pub Survives : Files → Files → Type 0
Survives files after =
    ((path : Bytes) → lookup eq_bytes files path ≡ none → lookup eq_bytes after path ≡ none)
    × ((path content : Bytes)
        → lookup eq_bytes files path ≡ some (content, true)
        → lookup eq_bytes after path ≡ some (content, true))

-- The file was flushed, or there is none.
abbrev pub OnDisk : Files → Bytes → Type 0
OnDisk files path =
    (lookup eq_bytes files path ≡ none)
    ⊎ ((content : Bytes) × (lookup eq_bytes files path ≡ some (content, true)))

differ_test : (a b : Bytes) → a ≢ b → eq_bytes a b ≡ false
differ_test a b differ = elim (Bool-cases (eq_bytes a b)) [
  | inl e ↦ absurd (differ ((eq_bytes_iff a b).0 e))
  | inr e ↦ e
]

module _ (tmp path body : Bytes) (apart : tmp ≢ path) (files : Files) where
  -- The files after the first one, two, three and all four steps.
  abbrev after_create : Files
  after_create = insert eq_bytes files tmp ([], false)

  abbrev after_write : Files
  after_write = insert eq_bytes after_create tmp (body, false)

  abbrev after_sync : Files
  after_sync = insert eq_bytes after_write tmp (body, true)

  abbrev after_rename : Files
  after_rename = insert eq_bytes (remove eq_bytes after_sync tmp) path (body, true)

  own_file :
      (fs : Files) (file : Bytes × Bool)
      → lookup eq_bytes (insert eq_bytes fs tmp file) tmp ≡ some file
  own_file fs file = lookup-insert eq_bytes eq_bytes_iff fs tmp file

  other_file :
      (fs : Files) (file : Bytes × Bool)
      → lookup eq_bytes (insert eq_bytes fs tmp file) path ≡ lookup eq_bytes fs path
  other_file fs file =
      lookup-insert_other eq_bytes eq_bytes_iff fs tmp path file (differ_test tmp path apart)

  -- Before the renaming the file itself is as it was; after it, it is the new one.
  stage :
      (k : ℕ)
      → (lookup eq_bytes (perform_all (take k (save_steps tmp path body)) files) path
          ≡ lookup eq_bytes files path)
        ⊎ (lookup eq_bytes (perform_all (take k (save_steps tmp path body)) files) path
            ≡ some (body, true))
  unfolding perform_all perform save_steps
  stage zero = inl refl
  stage (suc zero) = inl (other_file files ([], false))
  stage (suc (suc zero)) = inl (
      rw (own_file files ([], false))
        (other_file after_create (body, false) ∙ other_file files ([], false)))
  stage (suc (suc (suc zero))) = inl (
      rw (own_file files ([], false), own_file after_create (body, false))
        (other_file after_write (body, true)
          ∙ other_file after_create (body, false)
          ∙ other_file files ([], false)))
  stage (suc (suc (suc (suc k)))) = inr (
      rw
        (
          own_file files ([], false),
          own_file after_create (body, false),
          own_file after_write (body, true),
          take-nil k,
        )
        (lookup-insert eq_bytes eq_bytes_iff (remove eq_bytes after_sync tmp) path (body, true)))

  -- Without a crash the new file is there.
  pub lookup-save_steps :
      lookup eq_bytes (perform_all (save_steps tmp path body) files) path ≡ some (body, true)
  unfolding perform_all perform save_steps
  lookup-save_steps =
      rw
        (
          own_file files ([], false),
          own_file after_create (body, false),
          own_file after_write (body, true),
        )
        (lookup-insert eq_bytes eq_bytes_iff (remove eq_bytes after_sync tmp) path (body, true))

module _ {V : Type 0} (bincode : Codec V) (nothing : V) where
  same_file :
      (aside path : Bytes) (files after : Files)
      → lookup eq_bytes after path ≡ lookup eq_bytes files path
      → (open_saved bincode nothing aside path after).0
        ≡ (open_saved bincode nothing aside path files).0
  unfolding open_saved
  same_file aside path files after e = (rw e (either (lookup eq_bytes files path)))
    where
      value :
          (o : Option V)
          → (read_value bincode nothing aside path after o).0
            ≡ (read_value bincode nothing aside path files o).0
      value none = refl
      value (some v) = refl

      either :
          (o : Option (Bytes × Bool))
          → (read_file bincode nothing aside path after o).0
            ≡ (read_file bincode nothing aside path files o).0
      either none = refl
      either (some (content, synced)) = value (bincode.deserialize content)

  survived :
      (path : Bytes) (files between after : Files)
      → OnDisk files path
      → lookup eq_bytes between path ≡ lookup eq_bytes files path
      → Survives between after
      → lookup eq_bytes after path ≡ lookup eq_bytes files path
  survived path files between after on_disk same (absent, kept) = elim on_disk [
    | inl none_there ↦ absent path (same ∙ none_there) ∙ sym none_there
    | inr (content, there) ↦ kept path content (same ∙ there) ∙ sym there
  ]

  -- Whenever the machine crashes while a value is saved, after any number of the calls, and whatever then
  -- is in the files that were not flushed: opening the file gives the value that opening it gave before, or
  -- the new one. The file that was there has to be flushed, and the temporary file has another name.
  pub open_saved-crash :
      (aside tmp path body : Bytes) (v : V) (k : ℕ) (files after : Files)
      → tmp ≢ path
      → bincode.serialize v ≡ some body
      → OnDisk files path
      → Survives (perform_all (take k (save_steps tmp path body)) files) after
      → ((open_saved bincode nothing aside path after).0
          ≡ (open_saved bincode nothing aside path files).0)
        ⊎ ((open_saved bincode nothing aside path after).0 ≡ v)
  unfolding open_saved
  open_saved-crash aside tmp path body v k files after apart written on_disk crash =
      elim (stage tmp path body apart files k) [
        | inl same ↦ inl (
            same_file aside path files after (
              survived path files (perform_all (take k (save_steps tmp path body)) files) after
                on_disk same crash))
        | inr new ↦
            let there = crash.1 path body new in
            inr (rw (there, bincode.deserialize-serialize v body written) refl)
      ]

  -- A value that is saved without a crash is read back, and the file is then flushed.
  pub open_saved-save :
      (aside tmp path body : Bytes) (v : V) (files : Files)
      → tmp ≢ path
      → bincode.serialize v ≡ some body
      → ((open_saved bincode nothing aside path (save bincode nothing tmp (some path) v files).1).0
          ≡ v)
        × OnDisk (save bincode nothing tmp (some path) v files).1 path
  unfolding open_saved save
  open_saved-save aside tmp path body v files apart written =
      let there = lookup-save_steps tmp path body apart files in
      (
        rw (written, there, bincode.deserialize-serialize v body written) refl,
        rw written (inr (body, there)),
      )
