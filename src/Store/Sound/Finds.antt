-- ===== src/Store/Sound/Finds.antt =====
-- `get` finds what the store holds, and gives out nothing else.
use np2ptp.Prelude.{
  ℕ, ◌≡◌, refl, sym, ap, ◌∙◌, Option, none, some, Bool, true, false, Bool-cases, Option-cases, ◌||◌,
  ◌⊎◌, inl, inr, All, Bytes, eq_bytes, eq_bytes_iff, Result, ok, err,
}
use np2ptp.Prelude.Runs.{Run, bind-eq-ok}
use np2ptp.Prelude.Maps.{Map, lookup, contains, All-lookup}
use np2ptp.Core.Hash.{Hash, IsHash}
use np2ptp.Core.Hash.Binding.{Collision, same_or_collide}
use np2ptp.Core.Manifest.Container.{Hex}
use np2ptp.Store.Text.{PackLoc, RefLoc}
use np2ptp.Store.Text.RoundTrip.{Word}
use np2ptp.Store.Intact.{loaded, synced}
use np2ptp.Store.Put.{Backed}
use np2ptp.Store.Sound.{
  Sound, RefBacked, holds, in_packs-synced, Sound-synced, refresh_pack_index-Sound,
}
use np2ptp.Store.Sound.Adds.{Fits, put_lem}
use np2ptp.Store.{
  Disk, World, StoreError, read_range, read_from_pack, refresh_pack_index, checked, read_checked,
  from_pack, get_from_pack_index, from_object, from_source, from_ref, get_reference, or_else,
  get_refreshed, get, put,
}

module _ (hex : Hex) (blake3 : Bytes → Bytes) where
  checked_same :
      (h : Hash) (bytes : Bytes) → blake3 bytes ≡ h → checked hex blake3 h bytes ≡ ok (some bytes)
  checked_same h bytes e = rw ((eq_bytes_iff (blake3 bytes) h).1 e)

  from_pack-Backed :
      (d : Disk) (h : Hash) (loc : PackLoc)
      → Backed blake3 d (h, loc)
      → (bytes : Bytes) × (from_pack hex blake3 d h (some loc) ≡ ok (some bytes))
        × (blake3 bytes ≡ h)
  from_pack-Backed d h loc (bytes, got, hashed) =
      (bytes, rw got (checked_same h bytes hashed), hashed)

  from_ref-RefBacked :
      (d : Disk) (h : Hash) (loc : RefLoc)
      → RefBacked hex blake3 d (h, loc)
      → (bytes : Bytes) × (from_ref hex blake3 d h (some loc) ≡ ok (some bytes))
        × (blake3 bytes ≡ h)
  from_ref-RefBacked d h (path, offset, size) (file, there, bytes, got, hashed) =
      (bytes, rw (there, got) (checked_same h bytes hashed), hashed)

  -- What is found for a key among entries that all lead to their bytes.
  found_Backed :
      (d : Disk) (m : Map Hash PackLoc) (k : Hash) (loc : PackLoc)
      → lookup eq_bytes m k ≡ some loc
      → All (Backed blake3 d) m
      → Backed blake3 d (k, loc)
  found_Backed d m k loc e h =
      All-lookup eq_bytes (Backed blake3 d) m k loc
        (λ key same (bytes, got, hashed). (bytes, got, hashed ∙ (eq_bytes_iff key k).0 same)) e h

  abbrev pub Found : World → Hash → Type 0
  Found w k =
      (bytes : Bytes) × (w' : World) × (get hex blake3 k w ≡ (ok (some bytes), w'))
      × (blake3 bytes ≡ k)
      × Sound hex blake3 w'

  or_elsewhere :
      (w : World) (k : Hash)
      → Sound hex blake3 w
      → lookup eq_bytes w.handle.pack_index k ≡ none
      → lookup eq_bytes w.disk.objects k ≡ none
      → lookup eq_bytes w.handle.refs k ≡ none
      → ((holds hex blake3 w k ≡ true) × Found w k)
        ⊎ ((holds hex blake3 w k ≡ false) × (get hex blake3 k w ≡ (ok none, synced hex w)))
  unfolding get get_from_pack_index get_reference get_refreshed
  or_elsewhere w k s e o r =
      let again = refresh_pack_index-Sound hex blake3 w s in
      elim (Option-cases (lookup eq_bytes (loaded hex w.disk.index) k)) [
        | inl gone ↦ inr (rw (gone, o, r), rw (e, o, r, again, gone))
        | inr (loc, there) ↦
            let (bytes, got, hashed) =
              from_pack-Backed w.disk k loc
                (found_Backed w.disk (loaded hex w.disk.index) k loc there s.indexed) in
            inl (
              rw there,
              (
                bytes,
                synced hex w,
                rw (e, o, r, again, there, got),
                hashed,
                Sound-synced hex blake3 w s,
              ),
            )
      ]

  anywhere : (a b c : Bool) → (b ≡ true) ⊎ (c ≡ true) → (a || (b || c)) ≡ true
  anywhere true b c h = refl
  anywhere false true c h = refl
  anywhere false false true h = refl
  anywhere false false false h = elim h [ inl e ↦ e | inr e ↦ e ]

  -- On an undamaged store `get` finds bytes of the hash if and only if the store holds the chunk, and
  -- it answers None without an error if not; the store is undamaged after it.
  pub get_lem :
      (w : World) (k : Hash)
      → Sound hex blake3 w
      → ((holds hex blake3 w k ≡ true) × Found w k)
        ⊎ ((holds hex blake3 w k ≡ false)
            × (get hex blake3 k w ≡ (ok none, synced hex w))
            × Sound hex blake3 (synced hex w))
  unfolding get get_from_pack_index get_reference
  get_lem w k s = elim (Option-cases (lookup eq_bytes w.handle.pack_index k)) [
    | inr (loc, e) ↦
        let (bytes, got, hashed) =
          from_pack-Backed w.disk k loc
            (found_Backed w.disk w.handle.pack_index k loc e s.entries) in
        let listed = in_packs-synced hex blake3 w k s (rw e) in
        inl (rw listed, (bytes, w, rw (e, got), hashed, s))
    | inl e ↦ elim (Option-cases (lookup eq_bytes w.disk.objects k)) [
      | inr (bytes, o) ↦
          let hashed =
            All-lookup eq_bytes (λ ((h, bytes) : Hash × Bytes). blake3 bytes ≡ h) w.disk.objects k
              bytes (λ key same p. p ∙ (eq_bytes_iff key k).0 same) o s.objects in
          let there : contains eq_bytes w.disk.objects k ≡ true = rw o in
          inl (
            anywhere _ _ _ (inl there),
            (bytes, w, rw (e, o, checked_same k bytes hashed), hashed, s),
          )
      | inl o ↦ elim (Option-cases (lookup eq_bytes w.handle.refs k)) [
        | inr (loc, r) ↦
            let backed =
              All-lookup eq_bytes (RefBacked hex blake3 w.disk) w.handle.refs k loc
                (λ key same (file, there, bytes, got, hashed).
                  (file, there, bytes, got, hashed ∙ (eq_bytes_iff key k).0 same))
                r s.refs in
            let (bytes, got, hashed) = from_ref-RefBacked w.disk k loc backed in
            let there : contains eq_bytes w.handle.refs k ≡ true = rw r in
            inl (anywhere _ _ _ (inr there), (bytes, w, rw (e, o, r, got), hashed, s))
        | inl r ↦ elim (or_elsewhere w k s e o r) [
          | inl found ↦ inl found
          | inr (unheld, answer) ↦ inr (unheld, answer, Sound-synced hex blake3 w s)
        ]
      ]
    ]
  ]

  checked-ok :
      (h : Hash) (got bytes : Bytes) → checked hex blake3 h got ≡ ok (some bytes) → blake3 bytes ≡ h
  checked-ok h got bytes e = elim (Bool-cases (eq_bytes (blake3 got) h)) [
    | inl t ↦
        let same : got ≡ bytes = cc (rw t at e) in
        ap blake3 (sym same) ∙ (eq_bytes_iff (blake3 got) h).0 t
    | inr t ↦ cc (rw t at e)
  ]

  read_checked-ok :
      (h : Hash) (r : Result StoreError Bytes) (bytes : Bytes)
      → read_checked hex blake3 h r ≡ ok (some bytes)
      → blake3 bytes ≡ h
  read_checked-ok h (ok got) bytes e = checked-ok h got bytes e
  read_checked-ok h (err x) bytes e = cc e

  from_pack-ok :
      (d : Disk) (h : Hash) (loc : Option PackLoc) (bytes : Bytes)
      → from_pack hex blake3 d h loc ≡ ok (some bytes)
      → blake3 bytes ≡ h
  from_pack-ok d h none bytes e = cc e
  from_pack-ok d h (some loc) bytes e = read_checked-ok h (read_from_pack d loc) bytes e

  from_object-ok :
      (h : Hash) (object : Option Bytes) (bytes : Bytes)
      → from_object hex blake3 h object ≡ ok (some bytes)
      → blake3 bytes ≡ h
  from_object-ok h none bytes e = cc e
  from_object-ok h (some got) bytes e = checked-ok h got bytes e

  from_source-ok :
      (h : Hash) (offset size : ℕ) (source : Option Bytes) (bytes : Bytes)
      → from_source hex blake3 h offset size source ≡ ok (some bytes)
      → blake3 bytes ≡ h
  from_source-ok h offset size none bytes e = cc e
  from_source-ok h offset size (some file) bytes e =
      read_checked-ok h (read_range file offset size) bytes e

  from_ref-ok :
      (d : Disk) (h : Hash) (loc : Option RefLoc) (bytes : Bytes)
      → from_ref hex blake3 d h loc ≡ ok (some bytes)
      → blake3 bytes ≡ h
  from_ref-ok d h none bytes e = cc e
  from_ref-ok d h (some (path, offset, size)) bytes e =
      from_source-ok h offset size (lookup eq_bytes d.sources path) bytes e

  or_else-ok :
      (first : Result StoreError (Option Bytes)) (next : Run World StoreError (Option Bytes))
      (w : World) (bytes : Bytes)
      → (or_else hex blake3 first next w).0 ≡ ok (some bytes)
      → (first ≡ ok (some bytes)) ⊎ ((next w).0 ≡ ok (some bytes))
  or_else-ok (ok (some got)) next w bytes e = inl e
  or_else-ok (ok none) next w bytes e = inr e
  or_else-ok (err x) next w bytes e = cc e

  -- Bytes that `get` returns have the hash that was asked for, in every state of the store, damaged or
  -- not, and whatever other handles did to it.
  pub get_sound :
      (w : World) (k : Hash) (bytes : Bytes)
      → (get hex blake3 k w).0 ≡ ok (some bytes)
      → blake3 bytes ≡ k
  unfolding get get_from_pack_index get_reference get_refreshed
  get_sound w k bytes e =
      let object = from_object hex blake3 k (lookup eq_bytes w.disk.objects k) in
      let reference = get_reference hex blake3 k w in
      let later : Run World StoreError (Option Bytes) = get_refreshed hex blake3 k in
      let other : Run World StoreError (Option Bytes) = or_else hex blake3 reference later in
      let unpacked : Run World StoreError (Option Bytes) = or_else hex blake3 object other in
      elim (or_else-ok (get_from_pack_index hex blake3 k w) unpacked w bytes e) [
        | inl packed ↦ from_pack-ok w.disk k (lookup eq_bytes w.handle.pack_index k) bytes packed
        | inr e₁ ↦ elim (or_else-ok object other w bytes e₁) [
          | inl found ↦ from_object-ok k (lookup eq_bytes w.disk.objects k) bytes found
          | inr e₂ ↦ elim (or_else-ok reference later w bytes e₂) [
            | inl found ↦ from_ref-ok w.disk k (lookup eq_bytes w.handle.refs k) bytes found
            | inr e₃ ↦
                let w' = (refresh_pack_index hex w).1 in
                let (_, _, packed) =
                  bind-eq-ok (refresh_pack_index hex)
                    (λ _ v. (get_from_pack_index hex blake3 k v, v)) w (some bytes) e₃ in
                from_pack-ok w'.disk k (lookup eq_bytes w'.handle.pack_index k) bytes packed
          ]
        ]
      ]

module _ (hex : Hex) (plain : (h : Hash) → Word (hex.encode h)) (blake3 : Bytes → Bytes)
    (digest : (content : Bytes) → IsHash (blake3 content)) where
  -- After `put` on an undamaged store, where the chunk, its place and its pack's number fit the fields
  -- of the index, `get` returns the bytes under their hash, or a collision of BLAKE3 is exhibited; and
  -- the store holds just what it held before and this chunk.
  pub get-put :
      (w : World) (bytes : Bytes) (k : Hash)
      → Sound hex blake3 w
      → Fits w bytes
      → (((get hex blake3 (blake3 bytes) (put hex blake3 bytes w).1).0 ≡ ok (some bytes))
          ⊎ Collision blake3)
        × (holds hex blake3 (put hex blake3 bytes w).1 k
            ≡ (eq_bytes (blake3 bytes) k || holds hex blake3 w k))
  get-put w bytes k s fits =
      let h = blake3 bytes in
      let (_, answer, _, held) = put_lem hex plain blake3 digest w bytes k s fits in
      let (w', answer', sound, held') = put_lem hex plain blake3 digest w bytes h s fits in
      let here : holds hex blake3 w' h ≡ true = held' ∙ rw ((eq_bytes_iff h h).1 refl) in
      (
        elim (get_lem hex blake3 w' h sound) [
          | inl (_, (got, _, found, hashed, _)) ↦
              elim (same_or_collide blake3 digest got bytes hashed) [
                | inl same ↦ inl (rw (answer', found, same))
                | inr collision ↦ inr collision
              ]
          | inr (unheld, _, _) ↦ cc (here, unheld)
        ],
        rw answer held,
      )
