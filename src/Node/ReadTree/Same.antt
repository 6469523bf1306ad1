-- ===== src/Node/ReadTree/Same.antt =====
-- crates/np2ptp-node/src/lib.rs: what does not change of a directory when its listings are in another
-- order.
use np2ptp.Prelude.{◌≢◌, Bytes}
use np2ptp.Prelude.Utf8.{from_utf8_lossy}
use np2ptp.Core.Path.Pushed.{SlashFree}
use np2ptp.Store.{IoError}
use np2ptp.Node.ReadTree.{
  DirEntry, Listing, file, dir, special, untyped, no_entries, unreadable, entry,
}

-- One tree, whose directories are listed in any order.
mutual
  pub data SameTree : Listing → Listing → Type 0 where
    no_more : SameTree no_entries no_entries
    fails : (e : IoError) → SameTree (unreadable e) (unreadable e)
    then_entry :
        (name : Bytes) {a b : DirEntry} {xs ys : Listing}
        → SameEntry a b
        → SameTree xs ys
        → SameTree (entry name a xs) (entry name b ys)
    swapped :
        (n k : Bytes) (a b : DirEntry) (xs : Listing)
        → SameTree (entry n a (entry k b xs)) (entry k b (entry n a xs))
    through : {xs ys zs : Listing} → SameTree xs ys → SameTree ys zs → SameTree xs zs

  pub data SameEntry : DirEntry → DirEntry → Type 0 where
    as_it_is : (a : DirEntry) → SameEntry a a
    relisted : {xs ys : Listing} → SameTree xs ys → SameEntry (dir xs) (dir ys)

abbrev pub NotListed : Bytes → Listing → Type 0
NotListed text no_entries = Unit
NotListed text (unreadable e) = Unit
NotListed text (entry name e listing) = (text ≢ from_utf8_lossy name) × NotListed text listing

-- The names of each directory, read as text, have no slash and differ from each other.
abbrev mutual
  pub Named : Listing → Type 0
  Named no_entries = Unit
  Named (unreadable e) = Unit
  Named (entry name e listing) =
      SlashFree (from_utf8_lossy name)
      × NotListed (from_utf8_lossy name) listing
      × NamedEntry e
      × Named listing

  pub NamedEntry : DirEntry → Type 0
  NamedEntry (file content) = Unit
  NamedEntry (dir listing) = Named listing
  NamedEntry special = Unit
  NamedEntry (untyped e) = Unit
