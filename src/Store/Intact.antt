-- ===== src/Store/Intact.antt =====
-- What is true of a store that nobody has damaged, and what reading on in the index does to it.
use np2ptp.Prelude.{
  ◌+◌, ◌≤◌, ◌≡◌, refl, sym, ap, ◌∙◌, List, [], ◌∷◌, ◌++◌, append-nil, drop, length, length-append,
  drop-append_length, leb, leb→le, true, Bool-cases, inl, inr, Bytes, ok, arith,
}
use np2ptp.Prelude.Maps.{Map}
use np2ptp.Prelude.Utf8.{is_utf8, is_utf8-append}
use np2ptp.Core.Hash.{Hash}
use np2ptp.Core.Manifest.Container.{Hex}
use np2ptp.Store.Text.{PackLoc, lines, complete_lines, parse_pack_index_line}
use np2ptp.Store.Text.Tail.{Complete, complete_lines-append, lines-append}
use np2ptp.Store.{Handle, World, insert_pack, index_lines, refresh_pack_index}

module _ (hex : Hex) where
  -- The entries of a whole index text.
  abbrev pub loaded : Bytes → Map Hash PackLoc
  loaded text = index_lines hex [] (lines text)

  pub index_lines-append :
      (m : Map Hash PackLoc) (xs ys : List Bytes)
      → index_lines hex m (xs ++ ys) ≡ index_lines hex (index_lines hex m xs) ys
  unfolding index_lines
  index_lines-append m [] ys = refl
  index_lines-append m (x ∷ xs) ys =
      index_lines-append (insert_pack hex m (parse_pack_index_line hex x)) xs ys

  -- Where the handle has read to: the text up to there, with the entries that are in memory.
  pub record Cursor (text : Bytes) (s : Handle) : Type 0 where
    pub front : Bytes
    pub back : Bytes
    pub parts : text ≡ front ++ back
    pub here : length front ≡ s.pack_index_pos
    pub line_end : Complete front
    pub front_utf8 : is_utf8 front ≡ true
    pub read : s.pack_index ≡ loaded front

  -- The world whose handle has read the whole index.
  abbrev pub synced : World → World
  synced w = record w {
    handle = record (w.handle) {
      pack_index = loaded w.disk.index;
      pack_index_pos = length w.disk.index;
    };
  }

  same_world :
      (w : World)
      → w.handle.pack_index ≡ loaded w.disk.index
      → w.handle.pack_index_pos ≡ length w.disk.index
      → w ≡ synced w
  same_world w e k =
      λ i. record w { handle = record (w.handle) { pack_index = e i; pack_index_pos = k i } }

  cancel : (xs ys zs : Bytes) → xs ++ ys ≡ xs ++ zs → ys ≡ zs
  cancel [] ys zs e = e
  cancel (x ∷ xs) ys zs e = cancel xs ys zs (cc e)

  nothing : (xs : Bytes) → length xs ≡ 0 → xs ≡ []
  nothing [] e = refl
  nothing (x ∷ xs) e = absurd (omega arith)

  module _ (text : Bytes) (s : Handle) (c : Cursor text s) where
    tail-back : drop s.pack_index_pos text ≡ c.back
    tail-back =
        ap (λ t. drop s.pack_index_pos t) c.parts
        ∙ drop-append_length s.pack_index_pos c.front c.back c.here

    tail_utf8 : is_utf8 text ≡ true → is_utf8 (drop s.pack_index_pos text) ≡ true
    tail_utf8 h =
        ap is_utf8 tail-back
        ∙ sym (is_utf8-append c.front c.back c.front_utf8)
        ∙ ap is_utf8 (sym c.parts)
        ∙ h

    kept_tail : Complete text → complete_lines (drop s.pack_index_pos text) ≡ c.back
    kept_tail h =
        ap complete_lines tail-back
        ∙ cancel c.front (complete_lines c.back) c.back (
            sym (complete_lines-append c.front c.back c.line_end)
            ∙ ap complete_lines (sym c.parts)
            ∙ h
            ∙ c.parts)

    pub read_on : index_lines hex s.pack_index (lines c.back) ≡ loaded text
    read_on =
        ap (λ m. index_lines hex m (lines c.back)) c.read
        ∙ sym (index_lines-append [] (lines c.front) (lines c.back))
        ∙ ap (λ l. index_lines hex [] l) (sym (lines-append c.front c.back c.line_end))
        ∙ ap loaded (sym c.parts)

    moved : s.pack_index_pos + length c.back ≡ length text
    moved = omega (arith, c.here, ap length c.parts, length-append c.front c.back)

    at_end : length text ≤ s.pack_index_pos → s.pack_index ≡ loaded text
    at_end h =
        let empty : c.back ≡ [] = nothing c.back (omega (arith, moved)) in
        c.read
        ∙ ap loaded (sym (append-nil c.front) ∙ ap (λ b. c.front ++ b) (sym empty) ∙ sym c.parts)

  -- On an index of complete lines, reading on from a line's end makes of the entries in memory what
  -- loading the whole index would make, and moves the cursor to the end.
  pub refresh_pack_index-loaded :
      (w : World)
      → Complete w.disk.index
      → is_utf8 w.disk.index ≡ true
      → Cursor w.disk.index w.handle
      → refresh_pack_index hex w ≡ (ok tt, synced w)
  unfolding refresh_pack_index
  refresh_pack_index-loaded w complete utf8 c =
      let text = w.disk.index in
      let s = w.handle in
      let kept = kept_tail text s c complete in
      elim (Bool-cases (leb (length text) s.pack_index_pos)) [
        | inl e ↦ rw e (
            ap (λ v. (ok tt, v))
              (same_world w (at_end text s c (leb→le _ _ e))
                (omega (arith, leb→le _ _ e, moved text s c))))
        | inr e ↦
            rw (e, tail_utf8 text s c utf8)
              (λ i. (
                ok tt,
                record w {
                  handle = record (w.handle) {
                    pack_index =
                        (ap (λ b. index_lines hex s.pack_index (lines b)) kept ∙ read_on text s c)
                          i;
                    pack_index_pos =
                        (ap (λ b. s.pack_index_pos + length b) kept ∙ moved text s c) i;
                  };
                },
              ))
      ]
