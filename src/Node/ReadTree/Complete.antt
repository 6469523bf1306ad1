-- ===== src/Node/ReadTree/Complete.antt =====
-- crates/np2ptp-node/src/lib.rs: the files that `read_dir_tree` lists, and those that there are.
use mathlib.Core.Path.{subst}
use mathlib.Core.List.{Mem, mem-append_left, mem-append_right, mem-cons_self}
use mathlib.Core.List.Perm
use np2ptp.Prelude.{
  ◌≡◌, refl, sym, ap, ◌∙◌, List, [], ◌∷◌, ◌++◌, append_assoc, append-nil, All, All-append, All-map,
  Bytes, Result, ok, err,
}
use np2ptp.Prelude.Sort.{sort-Perm, All-sort}
use np2ptp.Store.{IoError}
use np2ptp.Node.ReadTree.{
  DirEntry, Listing, file, dir, special, untyped, no_entries, unreadable, entry, rel_str, by_path,
  sorted, walk, read_content, read_dir_tree,
}
use np2ptp.Node.ReadTree.Found.{files, files_of, Quiet, QuietEntry, walk-files, sorted-eq-ok}

-- A regular file below a directory by the names that lead to it, with what reading it gives.
mutual
  pub data FileAt : Listing → List Bytes → Result IoError Bytes → Type 0 where
    this_entry :
        {name : Bytes} {e : DirEntry} {listing : Listing} {names : List Bytes}
        {content : Result IoError Bytes}
        → EntryAt e names content
        → FileAt (entry name e listing) (name ∷ names) content
    further :
        {name : Bytes} {e : DirEntry} {listing : Listing} {names : List Bytes}
        {content : Result IoError Bytes}
        → FileAt listing names content
        → FileAt (entry name e listing) names content

  pub data EntryAt : DirEntry → List Bytes → Result IoError Bytes → Type 0 where
    itself : {content : Result IoError Bytes} → EntryAt (file content) [] content
    inside :
        {listing : Listing} {names : List Bytes} {content : Result IoError Bytes}
        → FileAt listing names content
        → EntryAt (dir listing) names content

-- Where a listed file stands, below the names `rel`.
abbrev pub Stands : List Bytes → Listing → Bytes × Bytes → Type 0
Stands rel listing f =
    (names : List Bytes) × FileAt listing names (ok f.1) × (f.0 ≡ rel_str (rel ++ names))

abbrev StandsIn : List Bytes → DirEntry → Bytes × Bytes → Type 0
StandsIn rel e f = (names : List Bytes) × EntryAt e names (ok f.1) × (f.0 ≡ rel_str (rel ++ names))

one_further :
    (rel : List Bytes) (name : Bytes) (e : DirEntry) (listing : Listing) (f : Bytes × Bytes)
    → StandsIn (rel ++ name ∷ []) e f
    → Stands rel (entry name e listing) f
one_further rel name e listing f (names, at, path) =
    (name ∷ names, this_entry at, path ∙ ap rel_str (append_assoc rel (name ∷ []) names))

mutual
  unfolding files

  files-Stands :
      (rel : List Bytes) (listing : Listing)
      → All (Stands rel listing) (files read_content rel listing)
  files-Stands rel no_entries = tt
  files-Stands rel (unreadable e) = tt
  files-Stands rel (entry name e listing) =
      All-append _ (files_of read_content (rel ++ name ∷ []) e) _
        (All-map _ _ (files_of read_content (rel ++ name ∷ []) e) (one_further rel name e listing)
          (files_of-Stands (rel ++ name ∷ []) e))
        (All-map _ _ (files read_content rel listing)
          (λ f (names, at, path). (names, further at, path)) (files-Stands rel listing))

  files_of-Stands :
      (rel : List Bytes) (e : DirEntry) → All (StandsIn rel e) (files_of read_content rel e)
  files_of-Stands rel (file (ok content)) = (([], itself, ap rel_str (sym (append-nil rel))), tt)
  files_of-Stands rel (file (err e)) = tt
  files_of-Stands rel (dir listing) =
      All-map _ _ (files read_content rel listing) (λ f (names, at, path). (names, inside at, path))
        (files-Stands rel listing)
  files_of-Stands rel special = tt
  files_of-Stands rel (untyped e) = tt

-- A file that is there was read, and is listed.
abbrev pub Listed : List Bytes → List (Bytes × Bytes) → Result IoError Bytes → Type 0
Listed names out content = (bytes : Bytes) × (content ≡ ok bytes) × Mem (rel_str names, bytes) out

own_Listed :
    (rel : List Bytes) (content : Result IoError Bytes)
    → QuietEntry read_content rel (file content)
    → Listed (rel ++ []) (files_of read_content rel (file content)) content
unfolding files
own_Listed rel (ok bytes) q = (
  bytes,
  refl,
  subst (λ path. Mem {A = Bytes × Bytes} (rel_str path, bytes) ((rel_str rel, bytes) ∷ []))
      (sym (append-nil rel)) mem-cons_self,
)
own_Listed rel (err e) q = absurd q

mutual
  unfolding files

  files-Listed :
      {listing : Listing} {names : List Bytes} {content : Result IoError Bytes} (rel : List Bytes)
      → FileAt listing names content
      → Quiet read_content rel listing
      → Listed (rel ++ names) (files read_content rel listing) content
  files-Listed rel (this_entry {name} {e} {listing} {names} {content} at) (q, _) =
      let (bytes, is_ok, there) = files_of-Listed (rel ++ name ∷ []) at q in
      (
        bytes,
        is_ok,
        mem-append_left (files read_content rel listing) (
            subst (λ path. Mem (rel_str path, bytes) (files_of read_content (rel ++ name ∷ []) e))
              (append_assoc rel (name ∷ []) names) there),
      )
  files-Listed rel (further {name} {e} at) (_, qs) =
      let (bytes, is_ok, there) = files-Listed rel at qs in
      (bytes, is_ok, mem-append_right (files_of read_content (rel ++ name ∷ []) e) there)

  files_of-Listed :
      {e : DirEntry} {names : List Bytes} {content : Result IoError Bytes} (rel : List Bytes)
      → EntryAt e names content
      → QuietEntry read_content rel e
      → Listed (rel ++ names) (files_of read_content rel e) content
  files_of-Listed rel (itself {content}) q = own_Listed rel content q
  files_of-Listed rel (inside at) q = files-Listed rel at q

pub walk-Stands :
    (root : Listing) (out : List (Bytes × Bytes))
    → sorted (walk read_content [] root []) ≡ ok out
    → All (Stands [] root) out
walk-Stands root out h =
    let (found, walked, is_out) = sorted-eq-ok (walk read_content [] root []) out h in
    let (_, is_found) = walk-files read_content [] root [] found walked in
    subst (All (Stands [] root)) is_out (
      All-sort by_path (Stands [] root) found
        (subst (All (Stands [] root)) (sym is_found) (files-Stands [] root)))

-- When `read_dir_tree` succeeds, every regular file below the directory, by whatever names, was read,
-- and its content is in the list under its names as text, joined by slashes.
pub read_dir_tree-Listed :
    (root : Listing) (out : List (Bytes × Bytes)) (names : List Bytes)
    (content : Result IoError Bytes)
    → read_dir_tree root ≡ ok out
    → FileAt root names content
    → Listed names out content
unfolding read_dir_tree
read_dir_tree-Listed root out names content h at =
    let (found, walked, is_out) = sorted-eq-ok (walk read_content [] root []) out h in
    let (quiet, is_found) = walk-files read_content [] root [] found walked in
    let (bytes, is_ok, there) = files-Listed [] at quiet in
    (
      bytes,
      is_ok,
      subst (Mem (rel_str names, bytes)) is_out (
          (Perm.mem_iff (sort-Perm by_path found)).1
            (subst (Mem (rel_str names, bytes)) (sym is_found) there)),
    )
