-- ===== src/Store/Sound.antt =====
-- The invariant of a store, which its operations keep, and the set of the chunks that it holds.
pub mod Adds
pub mod Finds
pub mod Room
pub mod Siblings
use np2ptp.Prelude.{
  ℕ, zero, suc, ◌+◌, ◌≤◌, ◌<◌, ◌≡◌, refl, sym, ap, ◌∙◌, Option, none, some, List, [], ◌∷◌, ◌++◌,
  append-nil, length, length-append, leb, Bool, true, false, Bool-cases, ◌||◌, if◌then◌else◌, ◌⊎◌,
  inl, inr, All, Bytes, eq_bytes, eq_bytes_iff, Result, ok, err, arith,
}
use np2ptp.Prelude.Maps.{Map, lookup, insert, contains, contains-insert}
use np2ptp.Prelude.Utf8.{is_utf8}
use np2ptp.Core.Hash.{Hash}
use np2ptp.Core.Manifest.Container.{Hex}
use np2ptp.Store.Text.{PackLoc, RefLoc, lines, parse_pack_index_line}
use np2ptp.Store.Text.Tail.{Complete}
use np2ptp.Store.Intact.{
  Cursor, loaded, synced, read_on, index_lines-append, refresh_pack_index-loaded,
}
use np2ptp.Store.Put.{Backed}
use np2ptp.Store.{
  Disk, Handle, World, read_range, insert_pack, index_lines, refresh_pack_index, in_packs, known,
  has,
}

or_mono : (a c b : Bool) → (a ≡ true → c ≡ true) → (a || b) ≡ true → (c || b) ≡ true
or_mono true c b f h = rw (f refl)
or_mono false true b f h = refl
or_mono false false b f h = h

or_none : (a c b : Bool) → (a || b) ≡ false → c ≡ (c || b)
or_none true c b h = cc h
or_none false true b h = refl
or_none false false b h = sym h

module _ (hex : Hex) (blake3 : Bytes → Bytes) where
  -- The file that a reference names is there and has bytes of this hash at this place.
  abbrev pub RefBacked : Disk → Hash × RefLoc → Type 0
  RefBacked d (h, (path, offset, size)) =
      (file : Bytes) × (lookup eq_bytes d.sources path ≡ some file)
      × (bytes : Bytes) × (read_range file offset size ≡ ok bytes)
      × (blake3 bytes ≡ h)

  -- Each entry, in memory, in the index's text, among the old objects and the references, leads to
  -- bytes of its hash; the index ends with a whole line, and the handle has read up to the end of
  -- some line; no other handle has added references that this one has not read.
  pub record Sound (w : World) : Type 0 where
    pub complete : Complete w.disk.index
    pub utf8 : is_utf8 w.disk.index ≡ true
    pub cursor : Cursor hex w.disk.index w.handle
    pub entries : All (Backed blake3 w.disk) w.handle.pack_index
    pub indexed : All (Backed blake3 w.disk) (loaded hex w.disk.index)
    pub objects : All (λ ((h, bytes) : Hash × Bytes). blake3 bytes ≡ h) w.disk.objects
    pub refs : All (RefBacked w.disk) w.handle.refs
    pub refs_read : length w.disk.refs ≤ w.handle.refs_pos

  -- The chunks that the store has, by the index's text, the old objects and the references.
  abbrev pub holds : World → Hash → Bool
  holds w k =
      contains eq_bytes (loaded hex w.disk.index) k
      || (contains eq_bytes w.disk.objects k || contains eq_bytes w.handle.refs k)

  pub Cursor-synced :
      (w : World)
      → Complete w.disk.index
      → is_utf8 w.disk.index ≡ true
      → Cursor hex w.disk.index (synced hex w).handle
  Cursor-synced w complete utf8 = record {
    front = w.disk.index;
    back = [];
    parts = sym (append-nil w.disk.index);
    here = refl;
    line_end = complete;
    front_utf8 = utf8;
    read = refl;
  }

  pub Sound-synced : (w : World) → Sound w → Sound (synced hex w)
  Sound-synced w s = record {
    complete = s.complete;
    utf8 = s.utf8;
    cursor = Cursor-synced w s.complete s.utf8;
    entries = s.indexed;
    indexed = s.indexed;
    objects = s.objects;
    refs = s.refs;
    refs_read = s.refs_read;
  }

  pub refresh_pack_index-Sound :
      (w : World) → Sound w → refresh_pack_index hex w ≡ (ok tt, synced hex w)
  refresh_pack_index-Sound w s = refresh_pack_index-loaded hex w s.complete s.utf8 s.cursor

  contains-index_lines :
      (m : Map Hash PackLoc) (xs : List Bytes) (k : Hash)
      → contains eq_bytes m k ≡ true
      → contains eq_bytes (index_lines hex m xs) k ≡ true
  unfolding index_lines
  contains-index_lines m [] k h = h
  contains-index_lines m (x ∷ xs) k h =
      contains-index_lines (insert_pack hex m (parse_pack_index_line hex x)) xs k
        (kept (parse_pack_index_line hex x))
    where
      kept :
          (entry : Option (Hash × PackLoc)) → contains eq_bytes (insert_pack hex m entry) k ≡ true
      kept none = h
      kept (some (key, loc)) = contains-insert eq_bytes eq_bytes_iff m key k loc ∙ ground (arith, h)

  pub in_packs-synced :
      (w : World) (k : Hash)
      → Sound w
      → in_packs hex w k ≡ true
      → in_packs hex (synced hex w) k ≡ true
  in_packs-synced w k s h =
      ap (λ m. contains eq_bytes m k) (sym (read_on hex w.disk.index w.handle s.cursor))
      ∙ contains-index_lines w.handle.pack_index (lines s.cursor.back) k h

  -- `has` answers whether the store holds the chunk, and at most reads on in the index.
  pub has-holds :
      (w : World) (k : Hash)
      → Sound w
      → ((known hex w k ≡ true) × (has hex k w ≡ (true, w)) × (holds w k ≡ true))
        ⊎ ((known hex w k ≡ false) × (has hex k w ≡ (holds w k, synced hex w)))
  unfolding has
  has-holds w k s =
      let elsewhere = contains eq_bytes w.disk.objects k || contains eq_bytes w.handle.refs k in
      elim (Bool-cases (known hex w k)) [
        | inl e ↦ inl (
          e,
          rw e,
          or_mono (in_packs hex w k) (in_packs hex (synced hex w) k) elsewhere
              (in_packs-synced w k s) e,
        )
        | inr e ↦ inr (
          e,
          rw e (
              ap (λ v. (in_packs hex v k, v)) (ap (λ p. p.1) (refresh_pack_index-Sound w s))
              ∙ ap (λ b. (b, synced hex w))
                  (or_none (in_packs hex w k) (in_packs hex (synced hex w) k) elsewhere e)),
        )
      ]
