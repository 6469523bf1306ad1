-- ===== src/Node/ReadTree/Paths.antt =====
-- crates/np2ptp-node/src/lib.rs: the paths that `read_dir_tree` joins from names.
use np2ptp.Prelude.{
  ◌≡◌, ◌≢◌, refl, sym, ap, ◌∙◌, List, [], ◌∷◌, ◌++◌, ==_iff, inl, inr, Bool-cases, All, All-append,
  ◌==◌, Bytes,
}
use np2ptp.Core.Path.{slash, split_on}
use np2ptp.Core.Path.Pushed.{SlashFree, split_on_whole}
use np2ptp.Node.ReadTree.{join_slash}

split_on-append :
    (name s : Bytes) → SlashFree name → split_on slash (name ++ slash ∷ s) ≡ name ∷ split_on slash s
unfolding split_on
split_on-append [] s h = refl
split_on-append (b ∷ bs) s (other, h) = elim (Bool-cases (b == slash)) [
  | inl e ↦ absurd (other ((==_iff b slash).0 e))
  | inr e ↦ rw (e, split_on-append bs s h)
]

-- Names without slashes are found again in the path that is joined from them.
split_on-join_slash :
    (name : Bytes) (names : List Bytes)
    → SlashFree name
    → All SlashFree names
    → split_on slash (join_slash (name ∷ names)) ≡ name ∷ names
unfolding join_slash
split_on-join_slash name [] h _ = split_on_whole name h
split_on-join_slash name (name₂ ∷ names) h (h₂, hs) =
    split_on-append name _ h ∙ ap (λ r. name ∷ r) (split_on-join_slash name₂ names h₂ hs)

split_on-rel :
    (rel : List Bytes) (name : Bytes) (more : List Bytes)
    → All SlashFree rel
    → SlashFree name
    → All SlashFree more
    → split_on slash (join_slash (rel ++ name ∷ more)) ≡ rel ++ name ∷ more
split_on-rel [] name more _ h hs = split_on-join_slash name more h hs
split_on-rel (r ∷ rel) name more (hr, hrel) h hs =
    split_on-join_slash r (rel ++ name ∷ more) hr (All-append _ rel (name ∷ more) hrel (h, hs))

same_name :
    (rel : List Bytes) (n k : Bytes) (more others : List Bytes)
    → rel ++ n ∷ more ≡ rel ++ k ∷ others
    → n ≡ k
same_name [] n k more others e = cc
same_name (r ∷ rel) n k more others e = same_name rel n k more others (cc)

-- Below two names of one directory there is no common path.
pub join_slash-apart :
    (rel : List Bytes) (n k : Bytes) (more others : List Bytes)
    → All SlashFree rel
    → SlashFree n
    → All SlashFree more
    → SlashFree k
    → All SlashFree others
    → n ≢ k
    → join_slash (rel ++ n ∷ more) ≢ join_slash (rel ++ k ∷ others)
join_slash-apart rel n k more others hrel hn hm hk ho differ same = differ (
    same_name rel n k more others (
      sym (split_on-rel rel n more hrel hn hm)
      ∙ ap (split_on slash) same
      ∙ split_on-rel rel k others hrel hk ho))
