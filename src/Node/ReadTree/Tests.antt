-- ===== src/Node/ReadTree/Tests.antt =====
-- Reading directories at concrete inputs.
use np2ptp.Prelude.{◌≡◌, ◌≢◌, refl, List, [], ◌∷◌, All, Bytes, codes, ok, err, arith}
use np2ptp.Prelude.Sort.{sort, insert, Sorted}
use np2ptp.Prelude.Lexicographic.{leb_bytes}
use np2ptp.Prelude.Utf8.{lossy_from}
use np2ptp.Store.{not_found}
use np2ptp.Node.ReadTree.{
  DirEntry, Listing, file, dir, special, no_entries, entry, join_slash, by_path, walk,
  read_dir_tree,
}
use np2ptp.Node.ReadTree.Same.{
  SameTree, no_more, then_entry, swapped, through, as_it_is, relisted, Named,
}
use np2ptp.Node.ReadTree.Complete.{
  this_entry, further, itself, inside, Stands, Listed, read_dir_tree-Listed,
}
use np2ptp.Node.ReadTree.Order.{read_dir_tree_any_order}

abbrev holds : Bytes → DirEntry
holds content = file (ok content)

-- A directory with two files, beside a link and a file.
abbrev folder : Listing
folder = entry (codes "y") (holds (2 ∷ [])) (entry (codes "x") (holds (1 ∷ [])) no_entries)

abbrev folder_again : Listing
folder_again = entry (codes "x") (holds (1 ∷ [])) (entry (codes "y") (holds (2 ∷ [])) no_entries)

abbrev link : Listing
link = entry (codes "l") special no_entries

abbrev root : Listing
root = entry (codes "b") (holds (3 ∷ [])) (entry (codes "a") (dir folder) link)

abbrev root_again : Listing
root_again = entry (codes "a") (dir folder_again) (entry (codes "b") (holds (3 ∷ [])) link)

abbrev found_files : List (Bytes × Bytes)
found_files = (codes "a/x", 1 ∷ []) ∷ (codes "a/y", 2 ∷ []) ∷ (codes "b", 3 ∷ []) ∷ []

root_again-SameTree : SameTree root root_again
root_again-SameTree = through (swapped (codes "b") (codes "a") (holds (3 ∷ [])) (dir folder) link) (
    then_entry (codes "a")
      (relisted (swapped (codes "y") (codes "x") (holds (2 ∷ [])) (holds (1 ∷ [])) no_entries))
      (then_entry (codes "b") (as_it_is (holds (3 ∷ [])))
        (then_entry (codes "l") (as_it_is special) no_more)))

root-Named : Named root
unfolding lossy_from
root-Named = ground arith

root_run : read_dir_tree root ≡ ok found_files
unfolding read_dir_tree walk join_slash lossy_from sort insert leb_bytes
root_run = refl

read_dir_tree_any_order_example :
    (read_dir_tree root_again ≡ ok found_files)
    × Sorted by_path found_files
    × All (Stands [] root) found_files
read_dir_tree_any_order_example =
    read_dir_tree_any_order root root_again found_files root_again-SameTree root-Named root_run

read_dir_tree-Listed_example : Listed (codes "a" ∷ codes "x" ∷ []) found_files (ok (1 ∷ []))
read_dir_tree-Listed_example =
    read_dir_tree-Listed root found_files (codes "a" ∷ codes "x" ∷ []) (ok (1 ∷ [])) root_run
      (further (this_entry (inside (further (this_entry itself)))))

-- Two names that are not UTF-8 and read alike: the order of the entries shows in the result.
abbrev unreadable_names : Listing
unreadable_names = entry (255 ∷ []) (holds (1 ∷ [])) (entry (254 ∷ []) (holds (2 ∷ [])) no_entries)

abbrev unreadable_names_again : Listing
unreadable_names_again =
    entry (254 ∷ []) (holds (2 ∷ [])) (entry (255 ∷ []) (holds (1 ∷ [])) no_entries)

order_shows_test : read_dir_tree unreadable_names ≢ read_dir_tree unreadable_names_again
unfolding read_dir_tree walk join_slash lossy_from sort insert leb_bytes
order_shows_test e = cc e

-- A file that cannot be read fails the whole.
gone_test : read_dir_tree (entry (codes "g") (file (err not_found)) root) ≢ ok found_files
unfolding read_dir_tree walk join_slash lossy_from sort insert leb_bytes
gone_test e = cc e
