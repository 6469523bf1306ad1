-- ===== src/Node/ReadTree.antt =====
-- crates/np2ptp-node/src/lib.rs: `read_dir_tree` and `read_dir_paths`, which list the files below a
-- directory by their paths. A directory is what its iterator gives; the warning that a file is
-- skipped is not modelled.
pub mod Paths
pub mod Same
pub mod Found
pub mod Distinct
pub mod Complete
pub mod Order
mod Tests
use np2ptp.Prelude.{List, [], ◌∷◌, ◌++◌, map, Bool, Bytes, Result, ok, err, ◌>>=◌}
use np2ptp.Prelude.Sort.{sort}
use np2ptp.Prelude.Lexicographic.{leb_bytes}
use np2ptp.Prelude.Utf8.{from_utf8_lossy}
use np2ptp.Core.Path.{slash}
use np2ptp.Store.{IoError}
use np2ptp.Node.{NodeError}

-- `fs::DirEntry` by its file type: a file with what `fs::read` gives, a directory, anything else, or
-- an entry whose type cannot be read. A listing that cannot be opened or read on ends in an error.
mutual
  pub data DirEntry : Type 0 where
    file : Result IoError Bytes → DirEntry
    dir : Listing → DirEntry
    special : DirEntry
    untyped : IoError → DirEntry

  pub data Listing : Type 0 where
    no_entries : Listing
    unreadable : IoError → Listing
    entry : Bytes → DirEntry → Listing → Listing

-- `join("/")`
unfoldable pub join_slash : List Bytes → Bytes
join_slash [] = []
join_slash (name ∷ []) = name
join_slash (name ∷ name₂ ∷ names) = name ++ slash ∷ join_slash (name₂ ∷ names)

-- `rel_str`, of the names from the base on.
abbrev pub rel_str : List Bytes → Bytes
rel_str rel = join_slash (map from_utf8_lossy rel)

abbrev pub of_io {ℓ} : {A : Type ℓ} → Result IoError A → Result NodeError A
of_io (ok a) = ok a
of_io (err e) = err (NodeError.io e)

abbrev pub by_path : {V : Type 0} → Bytes × V → Bytes × V → Bool
by_path a b = leb_bytes a.0 b.0

abbrev pub sorted :
    {V : Type 0} → Result NodeError (List (Bytes × V)) → Result NodeError (List (Bytes × V))
sorted (ok out) = ok (sort by_path out)
sorted (err e) = err e

-- The two functions differ in what they keep of a file, from its names and what reading it gives.
module _ {V : Type 0} (keep : List Bytes → Result IoError Bytes → Result IoError V) where
  unfoldable mutual
    pub walk : List Bytes → Listing → List (Bytes × V) → Result NodeError (List (Bytes × V))
    walk rel no_entries out = ok out
    walk rel (unreadable e) out = err (NodeError.io e)
    walk rel (entry name e listing) out =
        walk_entry (rel ++ name ∷ []) e out >>= λ out'. walk rel listing out'

    pub walk_entry : List Bytes → DirEntry → List (Bytes × V) → Result NodeError (List (Bytes × V))
    walk_entry rel (file content) out =
        of_io (keep rel content) >>= λ kept. ok (out ++ (rel_str rel, kept) ∷ [])
    walk_entry rel (dir listing) out = walk rel listing out
    walk_entry rel special out = ok out
    walk_entry rel (untyped e) out = err (NodeError.io e)

abbrev pub read_content : List Bytes → Result IoError Bytes → Result IoError Bytes
read_content rel content = content

abbrev pub disk_path : List Bytes → List Bytes → Result IoError Bytes → Result IoError (List Bytes)
disk_path root rel content = ok (root ++ rel)

unfoldable pub read_dir_tree : Listing → Result NodeError (List (Bytes × Bytes))
read_dir_tree root = sorted (walk read_content [] root [])

unfoldable pub read_dir_paths : List Bytes → Listing → Result NodeError (List (Bytes × List Bytes))
read_dir_paths base root = sorted (walk (disk_path base) [] root [])
