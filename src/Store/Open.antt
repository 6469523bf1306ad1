-- ===== src/Store/Open.antt =====
-- `Store::open`: the torn last lines are cut off, and both text files are loaded.
use np2ptp.Prelude.{
  ℕ, zero, suc, ◌≡◌, refl, sym, ap, ◌∙◌, Option, none, some, List, [], ◌∷◌, ◌++◌, append-nil, take,
  length, ◌==◌, ==_iff, leb, true, Bool-cases, ◌||◌, if◌then◌else◌, inl, inr, All, Bytes, eq_bytes,
  Result, ok, ◌>>=◌, arith,
}
use np2ptp.Prelude.Maps.{Map, lookup, contains}
use np2ptp.Prelude.Utf8.{is_utf8, is_utf8-append, is_utf8-ascii}
use np2ptp.Core.Hash.{Hash}
use np2ptp.Core.Manifest.Container.{Hex}
use np2ptp.Store.Text.{PackLoc, RefLoc, newline, lines, complete_lines, pack_index_line}
use np2ptp.Store.Text.Tail.{Complete, complete_lines-append}
use np2ptp.Store.Text.RoundTrip.{Word, OneLine, OneLine-pack_index_line, Ascii-pack_index_line}
use np2ptp.Store.Intact.{loaded}
use np2ptp.Store.Put.{Backed, Backed-append_to}
use np2ptp.Store.Sound.{Sound, holds, Cursor-synced}
use np2ptp.Store.{
  Disk, Handle, World, StoreError, io, invalid_data, append_to, end_of, read_text, index_lines,
  index_refs,
}

-- The last of the packs' numbers.
abbrev pub larger : ℕ → Option ℕ → ℕ
larger id none = id
larger id (some other) = if leb other id then id else other

unfoldable pub max_id : Map ℕ Bytes → Option ℕ
max_id [] = none
max_id ((id, file) ∷ packs) = some (larger id (max_id packs))

-- `unwrap_or(0)`
abbrev pub or_zero : Option ℕ → ℕ
or_zero none = 0
or_zero (some id) = id

-- `PackState::open`, which makes the pack's file where there is none.
abbrev pub pack_open : Map ℕ Bytes → (ℕ × ℕ) × Map ℕ Bytes
pack_open packs =
    let id = or_zero (max_id packs) in
    let made = append_to packs id [] in
    ((id, length (np2ptp.Store.existing (lookup ◌==◌ made id))), made)

module _ (hex : Hex) where
  -- `truncate_partial_line_locked`, as the text of the file afterwards.
  unfoldable pub truncate_partial_line : Bytes → Result StoreError Bytes
  truncate_partial_line text = do text ← read_text hex text; ok (complete_lines text)

  unfoldable pub load_pack_index : Bytes → Result StoreError (Map Hash PackLoc × ℕ)
  load_pack_index text = do
    text ← read_text hex text
    ok (index_lines hex [] (lines text), length text)

  unfoldable pub load_refs : Bytes → Result StoreError (Map Hash RefLoc × ℕ)
  load_refs text = do text ← read_text hex text; ok (index_refs hex [] (lines text), length text)

  abbrev pub opened : Disk → Bytes → Bytes → Map Hash PackLoc × ℕ → Map Hash RefLoc × ℕ → World
  opened d index refs (pack_index, pack_index_pos) (ref_entries, refs_pos) =
      let ((id, size), packs) = pack_open d.packs in
      record {
        disk = record d { packs = packs; index = index; refs = refs };
        handle = record {
          pack_index = pack_index;
          pack_index_pos = pack_index_pos;
          refs = ref_entries;
          refs_pos = refs_pos;
          current_id = id;
          current_size = size;
        };
      }

  unfoldable pub open_store : Disk → Result StoreError World
  open_store d = do
    index ← truncate_partial_line d.index
    refs ← truncate_partial_line d.refs
    packed ← load_pack_index index
    referenced ← load_refs refs
    ok (opened d index refs packed referenced)

  -- The handle has the references that the file lists, and the file ends with a whole line.
  pub record Settled (w : World) : Type 0 where
    pub complete : Complete w.disk.refs
    pub utf8 : is_utf8 w.disk.refs ≡ true
    pub read : w.handle.refs ≡ index_refs hex [] (lines w.disk.refs)

  -- What a crash in the middle of `put` leaves on the disk: a pack has got more bytes, and the index
  -- has a part of a line.
  abbrev pub torn : World → ℕ → Bytes → Hash → PackLoc → ℕ → Disk
  torn w id more h loc n = record (w.disk) {
    packs = append_to w.disk.packs id more;
    index = w.disk.index ++ take n (pack_index_line hex h loc);
  }

  -- The world that is opened from an index and references that are whole.
  abbrev pub reopened : World → Map ℕ Bytes → World
  reopened w packs =
      opened (record (w.disk) { packs = packs }) w.disk.index w.disk.refs
        (loaded hex w.disk.index, length w.disk.index)
        (index_refs hex [] (lines w.disk.refs), length w.disk.refs)

All-take {ℓ κ} : {A : Type ℓ} (P : A → Type κ) (n : ℕ) (xs : List A) → All P xs → All P (take n xs)
All-take P zero xs h = tt
All-take P (suc n) [] h = tt
All-take P (suc n) (x ∷ xs) (p, h) = (p, All-take P n xs h)

-- Nothing is kept of a line that has no end.
complete_lines-unended : (s : Bytes) → OneLine s → complete_lines s ≡ []
unfolding complete_lines
complete_lines-unended [] h = refl
complete_lines-unended (c ∷ s) ((other, _), h) = elim (Bool-cases (c == newline)) [
  | inl e ↦ absurd (other ((==_iff c newline).0 e))
  | inr e ↦ rw (complete_lines-unended s h, e)
]

module _ (hex : Hex) (plain : (h : Hash) → Word (hex.encode h)) (blake3 : Bytes → Bytes) where
  truncate-torn :
      (text : Bytes) (h : Hash) (loc : PackLoc) (n : ℕ)
      → Complete text
      → is_utf8 text ≡ true
      → truncate_partial_line hex (text ++ take n (pack_index_line hex h loc)) ≡ ok text
  unfolding truncate_partial_line
  truncate-torn text h loc n complete utf8 =
      let part = take n (pack_index_line hex h loc) in
      let readable : is_utf8 (text ++ part) ≡ true =
        is_utf8-append text part utf8
        ∙ is_utf8-ascii part (All-take _ n _ (Ascii-pack_index_line hex plain h loc)) in
      rw (
        readable,
        complete_lines-append text part complete,
        complete_lines-unended part (All-take _ n _ (OneLine-pack_index_line hex plain h loc)),
        append-nil text,
      )

  truncate-whole :
      (text : Bytes)
      → Complete text
      → is_utf8 text ≡ true
      → truncate_partial_line hex text ≡ ok text
  unfolding truncate_partial_line
  truncate-whole text complete utf8 = rw (utf8, complete)

  open_store-torn :
      (w : World) (id : ℕ) (more : Bytes) (h : Hash) (loc : PackLoc) (n : ℕ)
      → Sound hex blake3 w
      → Settled hex w
      → open_store hex (torn hex w id more h loc n)
        ≡ ok (reopened hex w (append_to w.disk.packs id more))
  unfolding open_store load_pack_index load_refs
  open_store-torn w id more h loc n s t = rw (
    truncate-torn w.disk.index h loc n s.complete s.utf8,
    truncate-whole w.disk.refs t.complete t.utf8,
    s.utf8,
    t.utf8,
  )

  All-appended :
      (d : Disk) (id : ℕ) (more : Bytes) (m : Map Hash PackLoc)
      → All (Backed blake3 d) m
      → All (Backed blake3 (record d { packs = append_to d.packs id more })) m
  All-appended d id more [] h = tt
  All-appended d id more (entry ∷ m) (p, h) =
      (Backed-append_to blake3 d id more entry p, All-appended d id more m h)

  reopened-Sound :
      (w : World) (id : ℕ) (more : Bytes)
      → Sound hex blake3 w
      → Settled hex w
      → Sound hex blake3 (reopened hex w (append_to w.disk.packs id more))
  reopened-Sound w id more s t =
      let packs = append_to w.disk.packs id more in
      let grown =
        All-appended (record (w.disk) { packs = packs }) (or_zero (max_id packs)) []
          (loaded hex w.disk.index)
          (All-appended w.disk id more (loaded hex w.disk.index) s.indexed) in
      record {
        complete = s.complete;
        utf8 = s.utf8;
        cursor = Cursor-synced hex blake3 (reopened hex w packs) s.complete s.utf8;
        entries = grown;
        indexed = grown;
        objects = s.objects;
        refs = (rw t.read at s.refs);
        refs_read = omega arith;
      }

  -- A crash in the middle of a `put` into an undamaged store, after which the pack has any more bytes and the index has a part
  -- of a line that does not end, is mended when the store is opened again: opening succeeds, the
  -- index is as it was before, and the new handle is undamaged and holds just the chunks that the
  -- store held. It holds where the file of references ends with a whole
  -- line, is UTF-8, and lists just what the old handle knew.
  pub open_store-crash :
      (w : World) (id : ℕ) (more : Bytes) (h : Hash) (loc : PackLoc) (n : ℕ) (k : Hash)
      → Sound hex blake3 w
      → Settled hex w
      → (w' : World) × (open_store hex (torn hex w id more h loc n) ≡ ok w')
        × Sound hex blake3 w'
        × (w'.disk.index ≡ w.disk.index)
        × (holds hex blake3 w' k ≡ holds hex blake3 w k)
  open_store-crash w id more h loc n k s t = (
    reopened hex w (append_to w.disk.packs id more),
    open_store-torn w id more h loc n s t,
    reopened-Sound w id more s t,
    refl,
    ap
        (λ m.
          contains eq_bytes (loaded hex w.disk.index) k
          || (contains eq_bytes w.disk.objects k || contains eq_bytes m k))
        (sym t.read),
  )
