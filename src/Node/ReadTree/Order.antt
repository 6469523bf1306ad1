-- ===== src/Node/ReadTree/Order.antt =====
-- crates/np2ptp-node/src/lib.rs: `read_dir_tree` and `read_dir_paths` whatever the order in which the
-- file system lists a directory.
use mathlib.Core.Path.{subst}
use np2ptp.Prelude.{
  All, ◌≡◌, sym, ap, ◌∙◌, List, [], true, false, ◌⊎◌, Bool-cases, inl, inr, Bytes, Result, ok,
}
use np2ptp.Prelude.Sort.{sort, Sorted, sort-Sorted}
use np2ptp.Prelude.Rearranged.{sort-Permᴰ}
use np2ptp.Prelude.Lexicographic.{leb_bytes_total, leb_bytes_trans, leb_bytes_antisymm}
use np2ptp.Store.{IoError}
use np2ptp.Node.ReadTree.{
  Listing, by_path, sorted, walk, read_content, disk_path, read_dir_tree, read_dir_paths,
}
use np2ptp.Node.ReadTree.Same.{SameTree, Named}
use np2ptp.Node.ReadTree.Found.{
  sorted-eq-ok, files, walk-files, walk-Quiet, Quiet-SameTree, files-SameTree,
}
use np2ptp.Node.ReadTree.Complete.{Stands, walk-Stands}
use np2ptp.Node.ReadTree.Distinct.{Differ, files-apart}

module _ {V : Type 0} where
  Differ-symm : (f g : Bytes × V) → Differ f g → Differ g f
  Differ-symm f g differ same = differ (sym same)

  by_path_total : (f g : Bytes × V) → (by_path f g ≡ true) ⊎ (by_path g f ≡ true)
  by_path_total f g = leb_bytes_total f.0 g.0

  by_path_trans : (f g h : Bytes × V) → by_path f g ≡ true → by_path g h ≡ true → by_path f h ≡ true
  by_path_trans f g h = leb_bytes_trans f.0 g.0 h.0

  by_path_apart : (f g : Bytes × V) → Differ f g → by_path f g ≡ true → by_path g f ≡ false
  by_path_apart f g differ below = elim (Bool-cases (by_path g f)) [
    | inl e ↦ absurd (differ (leb_bytes_antisymm f.0 g.0 below e))
    | inr e ↦ e
  ]

module _ {V : Type 0} (keep : List Bytes → Result IoError Bytes → Result IoError V) where
  walk_any_order :
      (xs ys : Listing) (out : List (Bytes × V))
      → SameTree xs ys
      → Named xs
      → sorted (walk keep [] xs []) ≡ ok out
      → (sorted (walk keep [] ys []) ≡ ok out) × Sorted by_path out
  walk_any_order xs ys out same named h =
      let (found, walked, is_out) = sorted-eq-ok (walk keep [] xs []) out h in
      let (quiet, is_found) = walk-files keep [] xs [] found walked in
      let rearranged : sort by_path (files keep [] xs) ≡ sort by_path (files keep [] ys) =
        sort-Permᴰ Differ Differ-symm by_path by_path_total by_path_trans by_path_apart
          (files-SameTree keep [] same) (files-apart keep [] xs tt named) in
      (
        ap sorted (walk-Quiet keep [] ys [] (Quiet-SameTree keep [] same quiet))
            ∙ ap ok (sym rearranged ∙ ap (sort by_path) (sym is_found) ∙ is_out),
        subst (Sorted by_path) is_out (sort-Sorted by_path by_path_total by_path_trans found),
      )

-- If reading a directory tree succeeds, where the names of each directory, read as text, have no
-- slash and differ, then it gives the same list however the file system orders the entries of each
-- directory; the list is sorted by path, and each pair in it is the path and the content of a regular
-- file that is there.
pub read_dir_tree_any_order :
    (xs ys : Listing) (out : List (Bytes × Bytes))
    → SameTree xs ys
    → Named xs
    → read_dir_tree xs ≡ ok out
    → (read_dir_tree ys ≡ ok out) × Sorted by_path out × All (Stands [] xs) out
unfolding read_dir_tree
read_dir_tree_any_order xs ys out same named h =
    let (again, ordered) = walk_any_order read_content xs ys out same named h in
    (again, ordered, walk-Stands xs out h)

-- Of the paths on the disk: the same list in the same order.
read_dir_paths_any_order :
    (base : List Bytes) (xs ys : Listing) (out : List (Bytes × List Bytes))
    → SameTree xs ys
    → Named xs
    → read_dir_paths base xs ≡ ok out
    → (read_dir_paths base ys ≡ ok out) × Sorted by_path out
unfolding read_dir_paths
read_dir_paths_any_order base = walk_any_order (disk_path base)
