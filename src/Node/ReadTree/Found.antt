-- ===== src/Node/ReadTree/Found.antt =====
-- crates/np2ptp-node/src/lib.rs: what the walk of `read_dir_tree` finds.
use mathlib.Core.List.{Permᴰ}
use mathlib.Core.List.Permᴰ
use mathlib.Core.Path.{subst}
use np2ptp.Prelude.{
  ◌≡◌, refl, ap, ◌∙◌, List, [], ◌∷◌, ◌++◌, append_assoc, append-nil, Bytes, Result, ok, err, ◌>>=◌,
  bind-eq-ok,
}
use np2ptp.Store.{IoError}
use np2ptp.Node.{NodeError}
use np2ptp.Prelude.Sort.{sort}
use np2ptp.Node.ReadTree.{
  by_path, sorted, DirEntry, Listing, file, dir, special, untyped, no_entries, unreadable, entry,
  rel_str, of_io, walk, walk_entry,
}
use np2ptp.Node.ReadTree.Same.{
  SameTree, SameEntry, no_more, fails, then_entry, swapped, through, as_it_is, relisted,
}

module _ {V : Type 0} where
  pub sorted-eq-ok :
      (r : Result NodeError (List (Bytes × V))) (out : List (Bytes × V))
      → sorted r ≡ ok out
      → (found : List (Bytes × V)) × (r ≡ ok found) × (sort by_path found ≡ out)
  sorted-eq-ok (ok found) out h = (found, cc, cc)
  sorted-eq-ok (err e) out h = cc

module _ {V : Type 0} (keep : List Bytes → Result IoError Bytes → Result IoError V) where
  abbrev pub Out : Type 0
  Out = List (Bytes × V)

  abbrev pub kept_of : Bytes → Result IoError V → Out
  kept_of path (ok v) = (path, v) ∷ []
  kept_of path (err e) = []

  abbrev pub Succeeds : Result IoError V → Type 0
  Succeeds (ok v) = Unit
  Succeeds (err e) = ⊥

  unfoldable mutual
    pub files : List Bytes → Listing → Out
    files rel no_entries = []
    files rel (unreadable e) = []
    files rel (entry name e listing) = files_of (rel ++ name ∷ []) e ++ files rel listing

    pub files_of : List Bytes → DirEntry → Out
    files_of rel (file content) = kept_of (rel_str rel) (keep rel content)
    files_of rel (dir listing) = files rel listing
    files_of rel special = []
    files_of rel (untyped e) = []

  -- Nothing fails below the directory.
  abbrev mutual
    pub Quiet : List Bytes → Listing → Type 0
    Quiet rel no_entries = Unit
    Quiet rel (unreadable e) = ⊥
    Quiet rel (entry name e listing) = QuietEntry (rel ++ name ∷ []) e × Quiet rel listing

    pub QuietEntry : List Bytes → DirEntry → Type 0
    QuietEntry rel (file content) = Succeeds (keep rel content)
    QuietEntry rel (dir listing) = Quiet rel listing
    QuietEntry rel special = Unit
    QuietEntry rel (untyped e) = ⊥

  keep_lem :
      (path : Bytes) (r : Result IoError V) (out found : Out)
      → (of_io r >>= λ v. ok (out ++ (path, v) ∷ [])) ≡ ok found
      → Succeeds r × (found ≡ out ++ kept_of path r)
  keep_lem path (ok v) out found h = (tt, cc)
  keep_lem path (err e) out found h = cc

  mutual
    unfolding walk files

    pub walk-files :
        (rel : List Bytes) (listing : Listing) (out found : Out)
        → walk keep rel listing out ≡ ok found
        → Quiet rel listing × (found ≡ out ++ files rel listing)
    walk-files rel no_entries out found h = (tt, rw append-nil cc)
    walk-files rel (unreadable e) out found h = cc
    walk-files rel (entry name e listing) out found h =
        let (mid, first, next) = bind-eq-ok (walk_entry keep (rel ++ name ∷ []) e out) _ h in
        let (q, is_mid) = walk_entry-files_of (rel ++ name ∷ []) e out mid first in
        let (qs, is_found) = walk-files rel listing mid found next in
        (
          (q, qs),
          is_found
              ∙ ap (λ z. z ++ files rel listing) is_mid
              ∙ append_assoc out (files_of (rel ++ name ∷ []) e) (files rel listing),
        )

    walk_entry-files_of :
        (rel : List Bytes) (e : DirEntry) (out found : Out)
        → walk_entry keep rel e out ≡ ok found
        → QuietEntry rel e × (found ≡ out ++ files_of rel e)
    walk_entry-files_of rel (file content) out found h =
        keep_lem (rel_str rel) (keep rel content) out found h
    walk_entry-files_of rel (dir listing) out found h = walk-files rel listing out found h
    walk_entry-files_of rel special out found h = (tt, rw append-nil cc)
    walk_entry-files_of rel (untyped e) out found h = cc

  keep_ok :
      (path : Bytes) (r : Result IoError V) (out : Out)
      → Succeeds r
      → (of_io r >>= λ v. ok (out ++ (path, v) ∷ [])) ≡ ok (out ++ kept_of path r)
  keep_ok path (ok v) out q = refl
  keep_ok path (err e) out q = absurd q

  mutual
    unfolding walk files

    pub walk-Quiet :
        (rel : List Bytes) (listing : Listing) (out : Out)
        → Quiet rel listing
        → walk keep rel listing out ≡ ok (out ++ files rel listing)
    walk-Quiet rel no_entries out q = rw append-nil refl
    walk-Quiet rel (unreadable e) out q = absurd q
    walk-Quiet rel (entry name e listing) out (q, qs) =
        ap (λ r. r >>= walk keep rel listing) (walk_entry-Quiet (rel ++ name ∷ []) e out q)
        ∙ walk-Quiet rel listing (out ++ files_of (rel ++ name ∷ []) e) qs
        ∙ ap ok (append_assoc out (files_of (rel ++ name ∷ []) e) (files rel listing))

    walk_entry-Quiet :
        (rel : List Bytes) (e : DirEntry) (out : Out)
        → QuietEntry rel e
        → walk_entry keep rel e out ≡ ok (out ++ files_of rel e)
    walk_entry-Quiet rel (file content) out q = keep_ok (rel_str rel) (keep rel content) out q
    walk_entry-Quiet rel (dir listing) out q = walk-Quiet rel listing out q
    walk_entry-Quiet rel special out q = rw append-nil refl
    walk_entry-Quiet rel (untyped e) out q = absurd q

  mutual
    pub Quiet-SameTree :
        {xs ys : Listing} (rel : List Bytes) → SameTree xs ys → Quiet rel xs → Quiet rel ys
    Quiet-SameTree rel no_more q = q
    Quiet-SameTree rel (fails e) q = q
    Quiet-SameTree rel (then_entry name s t) (q, qs) =
        (QuietEntry-SameEntry (rel ++ name ∷ []) s q, Quiet-SameTree rel t qs)
    Quiet-SameTree rel (swapped n k a b xs) (qa, (qb, qs)) = (qb, (qa, qs))
    Quiet-SameTree rel (through s t) q = Quiet-SameTree rel t (Quiet-SameTree rel s q)

    QuietEntry-SameEntry :
        {a b : DirEntry} (rel : List Bytes) → SameEntry a b → QuietEntry rel a → QuietEntry rel b
    QuietEntry-SameEntry rel (as_it_is a) q = q
    QuietEntry-SameEntry rel (relisted s) q = Quiet-SameTree rel s q

  moved : (xs ys zs : Out) → Permᴰ (xs ++ (ys ++ zs)) (ys ++ (xs ++ zs))
  moved xs ys zs =
      subst (λ l. Permᴰ l (ys ++ (xs ++ zs))) (append_assoc xs ys zs)
        (subst (Permᴰ ((xs ++ ys) ++ zs)) (append_assoc ys xs zs)
          (Permᴰ.append_right zs (Permᴰ.append_comm xs ys)))

  mutual
    unfolding files

    pub files-SameTree :
        {xs ys : Listing} (rel : List Bytes) → SameTree xs ys → Permᴰ (files rel xs) (files rel ys)
    files-SameTree rel no_more = Permᴰ.nil
    files-SameTree rel (fails e) = Permᴰ.nil
    files-SameTree rel (then_entry name {b = b} {xs = xs} s t) =
        Permᴰ.trans (Permᴰ.append_right (files rel xs) (files_of-SameEntry (rel ++ name ∷ []) s))
          (Permᴰ.append_left (files_of (rel ++ name ∷ []) b) (files-SameTree rel t))
    files-SameTree rel (swapped n k a b xs) =
        moved (files_of (rel ++ n ∷ []) a) (files_of (rel ++ k ∷ []) b) (files rel xs)
    files-SameTree rel (through s t) = Permᴰ.trans (files-SameTree rel s) (files-SameTree rel t)

    files_of-SameEntry :
        {a b : DirEntry} (rel : List Bytes)
        → SameEntry a b
        → Permᴰ (files_of rel a) (files_of rel b)
    files_of-SameEntry rel (as_it_is a) = Permᴰ.refl (files_of rel a)
    files_of-SameEntry rel (relisted s) = files-SameTree rel s
