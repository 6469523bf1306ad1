-- ===== src/Node/ReadTree/Distinct.antt =====
-- crates/np2ptp-node/src/lib.rs: the paths of `read_dir_tree` differ where the names of a directory
-- do.
use mathlib.Core.Path.{subst}
use mathlib.Core.List.{map-append}
use np2ptp.Prelude.{
  ◌≡◌, ◌≢◌, sym, ap, ◌∙◌, List, [], ◌∷◌, ◌++◌, map, append_assoc, append-nil, All, All-append,
  All-map, Bytes, Result, ok, err,
}
use np2ptp.Prelude.Rearranged.{PairwiseApart, PairwiseApart-append}
use np2ptp.Prelude.Utf8.{from_utf8_lossy}
use np2ptp.Core.Path.Pushed.{SlashFree}
use np2ptp.Store.{IoError}
use np2ptp.Node.ReadTree.{
  DirEntry, Listing, file, dir, special, untyped, no_entries, unreadable, entry, join_slash,
  rel_str,
}
use np2ptp.Node.ReadTree.Paths.{join_slash-apart}
use np2ptp.Node.ReadTree.Same.{NotListed, Named, NamedEntry}
use np2ptp.Node.ReadTree.Found.{kept_of, files, files_of}

abbrev pub Differ : {V : Type 0} → Bytes × V → Bytes × V → Type 0
Differ f g = f.0 ≢ g.0

-- The names on the way to a file, as text.
abbrev pub texts : List Bytes → List Bytes
texts rel = map from_utf8_lossy rel

texts_then :
    (rel : List Bytes) (name : Bytes)
    → texts (rel ++ name ∷ []) ≡ texts rel ++ from_utf8_lossy name ∷ []
texts_then rel name = map-append from_utf8_lossy rel (name ∷ [])

module _ {V : Type 0} where
  -- The path of a file goes on from these names.
  abbrev pub Below : List Bytes → Bytes × V → Type 0
  Below names f = (more : List Bytes) × (f.0 ≡ join_slash (names ++ more)) × All SlashFree more

  -- The file is below another name than this one.
  abbrev pub Elsewhere : List Bytes → Bytes → Bytes × V → Type 0
  Elsewhere names n f = (k : Bytes) × (n ≢ k) × SlashFree k × Below (names ++ k ∷ []) f

  up :
      (names : List Bytes) (k : Bytes) (f : Bytes × V)
      → SlashFree k
      → Below (names ++ k ∷ []) f
      → Below names f
  up names k f hk (more, e, h) =
      (k ∷ more, e ∙ ap join_slash (append_assoc names (k ∷ []) more), (hk, h))

  down :
      (rel : List Bytes) (name : Bytes) (f : Bytes × V)
      → Below (texts (rel ++ name ∷ [])) f
      → Below (texts rel ++ from_utf8_lossy name ∷ []) f
  down rel name f b = subst (λ names. Below names f) (texts_then rel name) b

  Elsewhere-Differ :
      (names : List Bytes) (n : Bytes) (f g : Bytes × V)
      → All SlashFree names
      → SlashFree n
      → Below (names ++ n ∷ []) f
      → Elsewhere names n g
      → Differ f g
  Elsewhere-Differ names n f g hs hn (more, e, hm) (k, apart, hk, (others, e', ho)) same =
      join_slash-apart names n k more others hs hn hm hk ho apart (
        ap join_slash (sym (append_assoc names (n ∷ []) more))
        ∙ sym e
        ∙ same
        ∙ e'
        ∙ ap join_slash (append_assoc names (k ∷ []) others))

module _ {V : Type 0} (keep : List Bytes → Result IoError Bytes → Result IoError V) where
  kept_Below :
      (rel : List Bytes) (r : Result IoError V)
      → All (Below (texts rel)) (kept_of keep (rel_str rel) r)
  kept_Below rel (ok v) = (([], ap join_slash (sym (append-nil (texts rel))), tt), tt)
  kept_Below rel (err e) = tt

  mutual
    unfolding files

    files-Below :
        (rel : List Bytes) (listing : Listing)
        → Named listing
        → All (Below (texts rel)) (files keep rel listing)
    files-Below rel no_entries _ = tt
    files-Below rel (unreadable e) _ = tt
    files-Below rel (entry name e listing) (hn, _, he, h) =
        All-append _ (files_of keep (rel ++ name ∷ []) e) _
          (All-map _ _ (files_of keep (rel ++ name ∷ []) e)
            (λ f b. up (texts rel) (from_utf8_lossy name) f hn (down rel name f b))
            (files_of-Below (rel ++ name ∷ []) e he))
          (files-Below rel listing h)

    files_of-Below :
        (rel : List Bytes) (e : DirEntry)
        → NamedEntry e
        → All (Below (texts rel)) (files_of keep rel e)
    files_of-Below rel (file content) _ = kept_Below rel (keep rel content)
    files_of-Below rel (dir listing) h = files-Below rel listing h
    files_of-Below rel special _ = tt
    files_of-Below rel (untyped e) _ = tt

  files-Elsewhere :
      (rel : List Bytes) (n : Bytes) (listing : Listing)
      → Named listing
      → NotListed n listing
      → All (Elsewhere (texts rel) n) (files keep rel listing)
  unfolding files
  files-Elsewhere rel n no_entries _ _ = tt
  files-Elsewhere rel n (unreadable e) _ _ = tt
  files-Elsewhere rel n (entry name e listing) (hn, _, he, h) (apart, hs) =
      All-append _ (files_of keep (rel ++ name ∷ []) e) _
        (All-map _ _ (files_of keep (rel ++ name ∷ []) e)
          (λ f b. (from_utf8_lossy name, apart, hn, down rel name f b))
          (files_of-Below (rel ++ name ∷ []) e he))
        (files-Elsewhere rel n listing h hs)

  kept-apart : (path : Bytes) (r : Result IoError V) → PairwiseApart Differ (kept_of keep path r)
  kept-apart path (ok v) = (tt, tt)
  kept-apart path (err e) = tt

  mutual
    unfolding files

    pub files-apart :
        (rel : List Bytes) (listing : Listing)
        → All SlashFree (texts rel)
        → Named listing
        → PairwiseApart Differ (files keep rel listing)
    files-apart rel no_entries _ _ = tt
    files-apart rel (unreadable e) _ _ = tt
    files-apart rel (entry name e listing) hs (hn, fresh, he, h) =
        PairwiseApart-append Differ (files_of keep (rel ++ name ∷ []) e) (files keep rel listing)
          (files_of-apart (rel ++ name ∷ []) e
            (subst (All SlashFree) (sym (texts_then rel name))
              (All-append _ (texts rel) _ hs (hn, tt)))
            he)
          (files-apart rel listing hs h)
          (All-map _ _ (files_of keep (rel ++ name ∷ []) e)
            (λ f b.
              All-map _ _ (files keep rel listing)
                (λ g.
                  Elsewhere-Differ (texts rel) (from_utf8_lossy name) f g hs hn (down rel name f b))
                (files-Elsewhere rel (from_utf8_lossy name) listing h fresh))
            (files_of-Below (rel ++ name ∷ []) e he))

    files_of-apart :
        (rel : List Bytes) (e : DirEntry)
        → All SlashFree (texts rel)
        → NamedEntry e
        → PairwiseApart Differ (files_of keep rel e)
    files_of-apart rel (file content) _ _ = kept-apart (rel_str rel) (keep rel content)
    files_of-apart rel (dir listing) hs h = files-apart rel listing hs h
    files_of-apart rel special _ _ = tt
    files_of-apart rel (untyped e) _ _ = tt
