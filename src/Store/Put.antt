-- ===== src/Store/Put.antt =====
-- What `put` writes can be read back, and nothing that could be read before is lost.
use np2ptp.Prelude.{
  ℕ, zero, suc, ◌+◌, ◌≤◌, ◌≡◌, refl, sym, ap, ◌∙◌, some, List, [], ◌∷◌, ◌++◌, take, drop, length,
  length-take, length-drop, drop-append_length, take-of_length, ◌==◌, ==_iff, Bool-cases,
  Option-cases, inl, inr, Bytes, ok, arith,
}
use np2ptp.Prelude.Maps.{lookup, lookup-insert, lookup-insert_other}
use np2ptp.Core.Hash.{Hash}
use np2ptp.Store.Text.{PackLoc}
use np2ptp.Store.{Disk, read_range, existing, append_to, read_from_pack}

drop-append_le {ℓ} :
    {A : Type ℓ} (n : ℕ) (xs ys : List A) → n ≤ length xs → drop n (xs ++ ys) ≡ drop n xs ++ ys
drop-append_le zero xs ys h = refl
drop-append_le (suc n) [] ys h = absurd (omega arith)
drop-append_le (suc n) (x ∷ xs) ys h = drop-append_le n xs ys (omega arith)

take-append_le {ℓ} :
    {A : Type ℓ} (n : ℕ) (xs ys : List A) → n ≤ length xs → take n (xs ++ ys) ≡ take n xs
take-append_le zero xs ys h = refl
take-append_le (suc n) [] ys h = absurd (omega arith)
take-append_le (suc n) (x ∷ xs) ys h = ap (λ l. x ∷ l) (take-append_le n xs ys (omega arith))

range-append :
    (file more : Bytes) (offset size : ℕ)
    → length (take size (drop offset file)) ≡ size
    → take size (drop offset (file ++ more)) ≡ take size (drop offset file)
range-append file more offset zero h = refl
range-append file more offset (suc size) h =
    let inside : offset + suc size ≤ length file =
      omega (arith, length-take (suc size) (drop offset file), length-drop offset file) in
    rw (drop-append_le offset file more (omega arith))
      (take-append_le (suc size) (drop offset file) more (omega (arith, length-drop offset file)))

-- A range that could be read can be read when the file has grown.
pub read_range-append :
    (file more : Bytes) (offset size : ℕ) (bytes : Bytes)
    → read_range file offset size ≡ ok bytes
    → read_range (file ++ more) offset size ≡ ok bytes
unfolding read_range
read_range-append file more offset size bytes h =
    elim (Bool-cases (length (take size (drop offset file)) == size)) [
      | inl e ↦ rw (range-append file more offset size ((==_iff _ size).0 e)) h
      | inr e ↦ cc (rw e at h)
    ]

-- What was appended is read back.
pub read_range-appended :
    (file bytes : Bytes) → read_range (file ++ bytes) (length file) (length bytes) ≡ ok bytes
unfolding read_range
read_range-appended file bytes = rw (
  drop-append_length (length file) file bytes refl,
  take-of_length (length bytes) bytes (omega arith),
  (==_iff (length bytes) (length bytes)).1 refl,
)

module _ (blake3 : Bytes → Bytes) where
  -- The pack file has bytes of this hash at this place.
  abbrev pub Backed : Disk → Hash × PackLoc → Type 0
  Backed d (h, loc) = (bytes : Bytes) × (read_from_pack d loc ≡ ok bytes) × (blake3 bytes ≡ h)

  pub Backed-append_to :
      (d : Disk) (id : ℕ) (more : Bytes) (entry : Hash × PackLoc)
      → Backed d entry
      → Backed (record d { packs = append_to d.packs id more }) entry
  Backed-append_to d id more (h, (id', offset, size)) (bytes, got, hashed) =
      elim (Option-cases (lookup ◌==◌ d.packs id')) [
        | inl gone ↦ cc (rw gone at got)
        | inr (file, there) ↦ elim (Bool-cases (id == id')) [
          | inl e ↦
              let same : id ≡ id' = (==_iff id id').0 e in
              let grown : lookup ◌==◌ (append_to d.packs id more) id' ≡ some (file ++ more) =
                ap (λ k. lookup ◌==◌ (append_to d.packs id more) k) (sym same)
                ∙ lookup-insert ◌==◌ ==_iff d.packs id _
                ∙ ap (λ k. some (existing (lookup ◌==◌ d.packs k) ++ more)) same
                ∙ ap (λ o. some (existing o ++ more)) there in
              (
                bytes,
                rw grown (read_range-append file more offset size bytes (rw there at got)),
                hashed,
              )
          | inr e ↦ (bytes, rw (lookup-insert_other ◌==◌ ==_iff d.packs id id' _ e) got, hashed)
        ]
      ]
