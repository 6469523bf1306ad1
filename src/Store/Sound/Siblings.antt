-- ===== src/Store/Sound/Siblings.antt =====
-- Two handles on one directory: what one of them puts, the other one finds.
use np2ptp.Prelude.{
  ◌^◌, ◌%◌, ◌≡◌, refl, sym, ap, ◌∙◌, some, [], ◌∷◌, ◌++◌, append_assoc, length, true, Bool-cases,
  All-map, ◌||◌, ◌⊎◌, inl, inr, Bytes, eq_bytes, eq_bytes_iff, ok,
}
use np2ptp.Prelude.Maps.{contains}
use np2ptp.Core.Hash.{Hash, IsHash}
use np2ptp.Core.Hash.Binding.{Collision, same_or_collide}
use np2ptp.Core.Manifest.Container.{Hex}
use np2ptp.Store.Text.{newline, pack_index_line}
use np2ptp.Store.Text.RoundTrip.{Word}
use np2ptp.Store.Intact.{loaded, synced}
use np2ptp.Store.Put.{Backed-append_to}
use np2ptp.Store.Sound.{Sound, holds, Sound-synced}
use np2ptp.Store.Sound.Adds.{Fits, put-cases, store_new-Sound, holds-store_new}
use np2ptp.Store.Sound.Finds.{get_lem}
use np2ptp.Store.{Handle, World, write_id, end_of, pack_write, record_line, store_new, put, get}

-- The same disk, seen through another handle.
abbrev pub through : Handle → World → World
through a w = record w { handle = a }

module _ (hex : Hex) (plain : (h : Hash) → Word (hex.encode h)) (blake3 : Bytes → Bytes)
    (digest : (content : Bytes) → IsHash (blake3 content)) where
  store_new-through :
      (w : World) (a : Handle) (bytes : Bytes)
      → Sound hex blake3 w
      → Sound hex blake3 (through a w)
      → Fits w bytes
      → Sound hex blake3 (through a (store_new hex blake3 (blake3 bytes) bytes (synced hex w)))
  unfolding store_new pack_write record_line
  store_new-through w a bytes s t fits =
      let s' =
        store_new-Sound hex plain blake3 digest (synced hex w) bytes (Sound-synced hex blake3 w s)
          fits refl in
      let c = t.cursor in
      let line : Bytes =
        pack_index_line hex (blake3 bytes)
          (write_id w.handle, end_of w.disk (write_id w.handle), length bytes % 2 ^ 32)
        ++ newline ∷ [] in
      record {
        complete = s'.complete;
        utf8 = s'.utf8;
        cursor = record {
          front = c.front;
          back = c.back ++ line;
          parts = ap (λ l. l ++ line) c.parts ∙ append_assoc c.front c.back line;
          here = c.here;
          line_end = c.line_end;
          front_utf8 = c.front_utf8;
          read = c.read;
        };
        entries =
            All-map _ _ a.pack_index (Backed-append_to blake3 w.disk (write_id w.handle) bytes)
              t.entries;
        indexed = s'.indexed;
        objects = s'.objects;
        refs = t.refs;
        refs_read = t.refs_read;
      }

  absorbed :
      (v : World) (h k : Hash)
      → holds hex blake3 v h ≡ true
      → holds hex blake3 v k ≡ (eq_bytes h k || holds hex blake3 v k)
  absorbed v h k held = elim (Bool-cases (eq_bytes h k)) [
    | inl e ↦ rw e (ap (λ x. holds hex blake3 v x) (sym ((eq_bytes_iff h k).0 e)) ∙ held)
    | inr e ↦ rw e
  ]

  -- Handles that know the same references hold the same chunks.
  holds-through :
      (w : World) (a : Handle) (k : Hash)
      → w.handle.refs ≡ a.refs
      → holds hex blake3 w k ≡ holds hex blake3 (through a w) k
  holds-through w a k same =
      ap
        (λ m.
          contains eq_bytes (loaded hex w.disk.index) k
          || (contains eq_bytes w.disk.objects k || contains eq_bytes m k))
        same

  store_new-refs :
      (w : World) (bytes : Bytes)
      → (store_new hex blake3 (blake3 bytes) bytes (synced hex w)).handle.refs ≡ w.handle.refs
  unfolding store_new pack_write record_line
  store_new-refs w bytes = refl

  put-through :
      (w : World) (a : Handle) (bytes : Bytes) (k : Hash)
      → Sound hex blake3 w
      → Sound hex blake3 (through a w)
      → w.handle.refs ≡ a.refs
      → Fits w bytes
      → Sound hex blake3 (through a (put hex blake3 bytes w).1)
        × (holds hex blake3 (through a (put hex blake3 bytes w).1) k
            ≡ (eq_bytes (blake3 bytes) k || holds hex blake3 (through a w) k))
  put-through w a bytes k s t same fits =
      let h = blake3 bytes in
      elim (put-cases hex plain blake3 digest w bytes s) [
        | inl (held, e) ↦
            (rw e (t, absorbed (through a w) h k (sym (holds-through w a h same) ∙ held)))
        | inr later ↦ elim later [
          | inl (held, e) ↦
              (rw e (t, absorbed (through a w) h k (sym (holds-through w a h same) ∙ held)))
          | inr (_, e) ↦
              let w' = store_new hex blake3 h bytes (synced hex w) in
              (rw e (
                store_new-through w a bytes s t fits,
                sym (holds-through w' a k (store_new-refs w bytes ∙ same))
                    ∙ holds-store_new hex plain blake3 digest (synced hex w) bytes k
                        (Sound-synced hex blake3 w s) fits
                    ∙ ap (λ b. eq_bytes h k || b) (holds-through w a k same),
              ))
        ]
      ]

  -- Of two undamaged handles on one directory that know the same references, when one puts bytes the
  -- other one is undamaged after it and returns the bytes under their hash, or a collision of BLAKE3
  -- is exhibited. The new chunk, its place and its pack's number have to fit the fields of the index.
  pub get-put_sibling :
      (w : World) (a : Handle) (bytes : Bytes)
      → Sound hex blake3 w
      → Sound hex blake3 (through a w)
      → w.handle.refs ≡ a.refs
      → Fits w bytes
      → Sound hex blake3 (through a (put hex blake3 bytes w).1)
        × (((get hex blake3 (blake3 bytes) (through a (put hex blake3 bytes w).1)).0
              ≡ ok (some bytes))
            ⊎ Collision blake3)
  get-put_sibling w a bytes s t same fits =
      let h = blake3 bytes in
      let (sound, held) = put-through w a bytes h s t same fits in
      let here : holds hex blake3 (through a (put hex blake3 bytes w).1) h ≡ true =
        held ∙ rw ((eq_bytes_iff h h).1 refl) in
      (
        sound,
        elim (get_lem hex blake3 (through a (put hex blake3 bytes w).1) h sound) [
          | inl (_, (got, _, found, hashed, _)) ↦
              elim (same_or_collide blake3 digest got bytes hashed) [
                | inl e ↦ inl (ap (λ p. p.0) found ∙ ap (λ b. ok (some b)) e)
                | inr collision ↦ inr collision
              ]
          | inr (unheld, _, _) ↦ cc (here, unheld)
        ],
      )
