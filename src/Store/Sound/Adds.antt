-- ===== src/Store/Sound/Adds.antt =====
-- `put` keeps the invariant and adds just its chunk.
use np2ptp.Prelude.{
  ℕ, ◌+◌, ◌^◌, ◌%◌, ◌≤◌, ◌≡◌, refl, sym, ap, ◌∙◌, [], ◌∷◌, ◌++◌, append-nil, length, length-append,
  ◌==◌, ==_iff, leb, Bool, true, false, not, ◌⊎◌, Bool-cases, ◌||◌, inl, inr, All, All-map, Bytes,
  eq_bytes, eq_bytes_iff, ok, u64_max, arith,
}
use np2ptp.Prelude.Maps.{Map, lookup, insert, contains-insert, lookup-insert, All-insert}
use np2ptp.Prelude.Utf8.{is_utf8, is_utf8-append, is_utf8-ascii}
use np2ptp.Core.Hash.{Hash, IsHash}
use np2ptp.Core.Manifest.Container.{Hex}
use np2ptp.Store.Text.{PackLoc, u32_max, newline, lines, pack_index_line}
use np2ptp.Store.Text.Tail.{Complete, complete_lines-append, append_newline-Complete, lines-append}
use np2ptp.Store.Text.RoundTrip.{
  Word, lines-line, parse_pack_index_line-pack_index_line, OneLine-pack_index_line,
  Ascii-pack_index_line,
}
use np2ptp.Store.Intact.{loaded, synced, index_lines-append}
use np2ptp.Store.Put.{Backed, Backed-append_to, read_range-appended}
use np2ptp.Store.Sound.{Sound, holds, Sound-synced, refresh_pack_index-Sound, has-holds}
use np2ptp.Store.{
  World, existing, append_to, insert_pack, index_lines, refresh_pack_index, refresh_refs, ignoring,
  write_id, end_of, pack_write, record_line, store_new, put_fresh, put,
}

-- The chunk, the place that it is written to and the pack's number fit the index's fields.
abbrev pub Fits : World → Bytes → Type 0
Fits w bytes =
    (length bytes ≤ u32_max)
    × (end_of w.disk (write_id w.handle) ≤ u64_max)
    × (write_id w.handle ≤ u32_max)

module _ (hex : Hex) (plain : (h : Hash) → Word (hex.encode h)) (blake3 : Bytes → Bytes)
    (digest : (content : Bytes) → IsHash (blake3 content)) where
  abbrev new_loc : World → Bytes → PackLoc
  new_loc w bytes = (write_id w.handle, end_of w.disk (write_id w.handle), length bytes % 2 ^ 32)

  -- The index with the line of one more chunk loads to one more entry.
  loaded-line :
      (text : Bytes) (h : Hash) (id offset size : ℕ)
      → Complete text
      → IsHash h
      → id ≤ u32_max
      → offset ≤ u64_max
      → size ≤ u32_max
      → loaded hex (text ++ (pack_index_line hex h (id, offset, size) ++ newline ∷ []))
        ≡ insert eq_bytes (loaded hex text) h (id, offset, size)
  unfolding index_lines lines
  loaded-line text h id offset size complete p q r s =
      let line = pack_index_line hex h (id, offset, size) in
      ap (λ l. index_lines hex [] l)
        (lines-append text (line ++ newline ∷ []) complete
          ∙ ap (λ l. lines text ++ l) (lines-line line [] (OneLine-pack_index_line hex plain h _)))
      ∙ index_lines-append hex [] (lines text) (line ∷ [])
      ∙ ap (insert_pack hex (loaded hex text))
          (parse_pack_index_line-pack_index_line hex plain h id offset size p q r s)

  line_utf8 :
      (text : Bytes) (h : Hash) (loc : PackLoc)
      → is_utf8 text ≡ true
      → is_utf8 (text ++ (pack_index_line hex h loc ++ newline ∷ [])) ≡ true
  line_utf8 text h loc e =
      is_utf8-append text _ e
      ∙ is_utf8-append (pack_index_line hex h loc) (newline ∷ [])
          (is_utf8-ascii _ (Ascii-pack_index_line hex plain h loc))
      ∙ is_utf8-ascii (newline ∷ []) (omega arith, tt)

  -- Where the new bytes stand.
  Backed-new :
      (w : World) (bytes : Bytes)
      → length bytes ≤ u32_max
      → Backed blake3
          (record (w.disk) { packs = append_to w.disk.packs (write_id w.handle) bytes })
          (blake3 bytes, new_loc w bytes)
  Backed-new w bytes small =
      let id = write_id w.handle in
      let old = existing (lookup ◌==◌ w.disk.packs id) in
      let size : length bytes % 2 ^ 32 ≡ length bytes = omega arith in
      (
        bytes,
        rw (lookup-insert ◌==◌ ==_iff w.disk.packs id (old ++ bytes), size)
            (read_range-appended old bytes),
        refl,
      )

  -- The entries that were backed, and the new one.
  All-new :
      (w : World) (bytes : Bytes)
      → length bytes ≤ u32_max
      → (m : Map Hash PackLoc) → All (Backed blake3 w.disk) m
      → All
          (Backed blake3
            (record (w.disk) { packs = append_to w.disk.packs (write_id w.handle) bytes }))
          (insert eq_bytes m (blake3 bytes) (new_loc w bytes))
  All-new w bytes small m h =
      let (got, there, hashed) = Backed-new w bytes small in
      All-insert eq_bytes _ m (blake3 bytes) (new_loc w bytes)
        (λ k e. (got, there, hashed ∙ sym ((eq_bytes_iff k (blake3 bytes)).0 e)))
        (got, there, hashed)
        (All-map _ _ m (Backed-append_to blake3 w.disk (write_id w.handle) bytes) h)

  pub store_new-Sound :
      (w : World) (bytes : Bytes)
      → Sound hex blake3 w
      → Fits w bytes
      → w ≡ synced hex w
      → Sound hex blake3 (store_new hex blake3 (blake3 bytes) bytes w)
  unfolding store_new pack_write record_line
  store_new-Sound w bytes s (small, reach, id_fits) is_synced =
      let h = blake3 bytes in
      let id = write_id w.handle in
      let loc = new_loc w bytes in
      let line = pack_index_line hex h loc ++ newline ∷ [] in
      let longer =
        loaded-line w.disk.index h id (end_of w.disk id) (length bytes % 2 ^ 32) s.complete
          (digest bytes) id_fits reach (omega arith) in
      record {
        complete =
            complete_lines-append w.disk.index line s.complete
            ∙ ap (λ l. w.disk.index ++ l) (append_newline-Complete (pack_index_line hex h loc));
        utf8 = line_utf8 w.disk.index h loc s.utf8;
        cursor = record {
          front = w.disk.index ++ line;
          back = [];
          parts = sym (append-nil (w.disk.index ++ line));
          here =
              length-append w.disk.index line
              ∙ ap (λ v. v.handle.pack_index_pos + length line) (sym is_synced);
          line_end =
              complete_lines-append w.disk.index line s.complete
              ∙ ap (λ l. w.disk.index ++ l) (append_newline-Complete (pack_index_line hex h loc));
          front_utf8 = line_utf8 w.disk.index h loc s.utf8;
          read =
              ap (λ m. insert eq_bytes m h loc) (ap (λ v. v.handle.pack_index) is_synced)
              ∙ sym longer;
        };
        entries = All-new w bytes small w.handle.pack_index s.entries;
        indexed = rw longer (All-new w bytes small (loaded hex w.disk.index) s.indexed);
        objects = s.objects;
        refs = s.refs;
        refs_read = s.refs_read;
      }

  pub holds-store_new :
      (w : World) (bytes : Bytes) (k : Hash)
      → Sound hex blake3 w
      → Fits w bytes
      → holds hex blake3 (store_new hex blake3 (blake3 bytes) bytes w) k
        ≡ (eq_bytes (blake3 bytes) k || holds hex blake3 w k)
  unfolding store_new pack_write record_line
  holds-store_new w bytes k s (small, reach, id_fits) =
      let longer =
        loaded-line w.disk.index (blake3 bytes) (write_id w.handle)
          (end_of w.disk (write_id w.handle)) (length bytes % 2 ^ 32) s.complete (digest bytes)
          id_fits reach (omega arith) in
      rw
        (
          longer,
          contains-insert eq_bytes eq_bytes_iff (loaded hex w.disk.index) (blake3 bytes) k
              (new_loc w bytes),
        )
        (regroup (eq_bytes (blake3 bytes) k) _ _)
    where
      regroup : (a b c : Bool) → ((a || b) || c) ≡ (a || (b || c))
      regroup true b c = refl
      regroup false b c = refl

  refresh_refs_idle :
      (w : World) → length w.disk.refs ≤ w.handle.refs_pos → refresh_refs hex w ≡ (ok tt, w)
  unfolding refresh_refs
  refresh_refs_idle w h = elim (Bool-cases (leb (length w.disk.refs) w.handle.refs_pos)) [
    | inl e ↦ rw e
    | inr e ↦ absurd (ground (arith, h))
  ]

  refreshes :
      (w : World)
      → Sound hex blake3 w
      → ignoring hex (refresh_refs hex) (ignoring hex (refresh_pack_index hex) (synced hex w))
        ≡ synced hex w
  refreshes w s =
      let t = Sound-synced hex blake3 w s in
      ap (λ p. (refresh_refs hex p.1).1) (refresh_pack_index-Sound hex blake3 (synced hex w) t)
      ∙ ap (λ p. p.1) (refresh_refs_idle (synced hex w) s.refs_read)

  -- The three ways that `put` may go on an undamaged store.
  pub put-cases :
      (w : World) (bytes : Bytes)
      → Sound hex blake3 w
      → ((holds hex blake3 w (blake3 bytes) ≡ true)
          × (put hex blake3 bytes w ≡ ((blake3 bytes, false), w)))
        ⊎ (((holds hex blake3 w (blake3 bytes) ≡ true)
              × (put hex blake3 bytes w ≡ ((blake3 bytes, false), synced hex w)))
            ⊎ ((holds hex blake3 w (blake3 bytes) ≡ false)
                × (put hex blake3 bytes w ≡ (
                  (blake3 bytes, true),
                  store_new hex blake3 (blake3 bytes) bytes (synced hex w),
                ))))
  unfolding put
  put-cases w bytes s = elim (has-holds hex blake3 w (blake3 bytes) s) [
    | inl (_, answered, held) ↦ inl (held, rw answered)
    | inr (unknown, answered) ↦ elim (Bool-cases (holds hex blake3 w (blake3 bytes))) [
      | inl held ↦ inr (inl (held, rw (answered, held)))
      | inr fresh ↦ inr (
          inr (
            fresh,
            rw (answered, fresh)
                (ap (put_fresh hex blake3 (blake3 bytes) bytes) (refreshes w s) ∙ rw fresh),
          ))
    ]
  ]

  -- What `put` does to an undamaged store. It answers with the hash of the bytes and with whether the
  -- store did not hold them. The store is undamaged after it, and holds just the chunks that it held
  -- and this one. The new chunk, where it ends up and the number of its pack have to fit the fields of
  -- the index.
  pub put_lem :
      (w : World) (bytes : Bytes) (k : Hash)
      → Sound hex blake3 w
      → Fits w bytes
      → (w' : World) × (put hex blake3 bytes w
          ≡ ((blake3 bytes, not (holds hex blake3 w (blake3 bytes))), w'))
        × Sound hex blake3 w'
        × (holds hex blake3 w' k ≡ (eq_bytes (blake3 bytes) k || holds hex blake3 w k))
  put_lem w bytes k s fits = elim (put-cases w bytes s) [
    | inl (held, e) ↦ (w, rw (e, held), s, absorbed w k held)
    | inr later ↦ elim later [
      | inl (held, e) ↦ (synced hex w, rw (e, held), Sound-synced hex blake3 w s, absorbed w k held)
      | inr (fresh, e) ↦ (
        store_new hex blake3 (blake3 bytes) bytes (synced hex w),
        rw (e, fresh),
        store_new-Sound (synced hex w) bytes (Sound-synced hex blake3 w s) fits refl,
        holds-store_new (synced hex w) bytes k (Sound-synced hex blake3 w s) fits,
      )
    ]
  ]
    where
      absorbed :
          (v : World) (k : Hash)
          → holds hex blake3 v (blake3 bytes) ≡ true
          → holds hex blake3 v k ≡ (eq_bytes (blake3 bytes) k || holds hex blake3 v k)
      absorbed v k held = elim (Bool-cases (eq_bytes (blake3 bytes) k)) [
        | inl e ↦
            rw e (ap (λ h. holds hex blake3 v h) (sym ((eq_bytes_iff (blake3 bytes) k).0 e)) ∙ held)
        | inr e ↦ rw e
      ]
