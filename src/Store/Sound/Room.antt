-- ===== src/Store/Sound/Room.antt =====
-- How much may still be put into a store before a field of its index would overflow.
use np2ptp.Prelude.{
  ℕ, suc, ◌+◌, ◌*◌, ◌≤◌, ◌≡◌, sym, ap, ◌∙◌, some, ◌++◌, length, length-append, ◌==◌, ==_iff, leb,
  Bool-cases, inl, inr, Bytes, u64_max, arith,
}
use np2ptp.Prelude.Maps.{lookup, lookup-insert, lookup-insert_other}
use np2ptp.Core.Hash.{Hash, IsHash}
use np2ptp.Core.Manifest.Container.{Hex}
use np2ptp.Store.Text.{u32_max}
use np2ptp.Store.Text.RoundTrip.{Word}
use np2ptp.Store.Intact.{synced}
use np2ptp.Store.Sound.{Sound}
use np2ptp.Store.Sound.Adds.{Fits, put-cases}
use np2ptp.Store.{
  Disk, Handle, World, existing, append_to, write_id, end_of, pack_write, record_line, store_new,
  put, pack_rotate_size,
}

-- Room for `count` more chunks of any size that a pack index entry can have.
abbrev pub Room : ℕ → World → Type 0
Room count w =
    (w.handle.current_id + count ≤ u32_max)
    × ((id : ℕ) → end_of w.disk id + count * u32_max ≤ u64_max)

write_id_le : (s : Handle) → write_id s ≤ suc s.current_id
write_id_le s = elim (Bool-cases (leb pack_rotate_size s.current_size)) [
  | inl e ↦ rw e (omega arith)
  | inr e ↦ rw e (omega arith)
]

pub Room-Fits :
    (count : ℕ) (w : World) (bytes : Bytes)
    → length bytes ≤ u32_max
    → Room (suc count) w
    → Fits w bytes
Room-Fits count w bytes small (ids, ends) =
    (small, omega (arith, ends (write_id w.handle)), omega (arith, write_id_le w.handle, ids))

pub Room-less : (count : ℕ) (w : World) → Room (suc count) w → Room count w
Room-less count w (ids, ends) = (omega (arith, ids), λ id. omega (arith, ends id))

end_of-append_to :
    (d : Disk) (id other : ℕ) (bytes : Bytes)
    → end_of (record d { packs = append_to d.packs id bytes }) other ≤ end_of d other + length bytes
end_of-append_to d id other bytes = elim (Bool-cases (id == other)) [
  | inl e ↦
      let same : id ≡ other = (==_iff id other).0 e in
      let grown : lookup ◌==◌ (append_to d.packs id bytes) other
          ≡ some (existing (lookup ◌==◌ d.packs other) ++ bytes) =
        ap (λ k. lookup ◌==◌ (append_to d.packs id bytes) k) (sym same)
        ∙ lookup-insert ◌==◌ ==_iff d.packs id _
        ∙ ap (λ k. some (existing (lookup ◌==◌ d.packs k) ++ bytes)) same in
      rw grown (omega (arith, length-append (existing (lookup ◌==◌ d.packs other)) bytes))
  | inr e ↦
      rw
        (lookup-insert_other ◌==◌ ==_iff d.packs id other
          (existing (lookup ◌==◌ d.packs id) ++ bytes) e)
        (omega arith)
]

module _ (hex : Hex) (plain : (h : Hash) → Word (hex.encode h)) (blake3 : Bytes → Bytes)
    (digest : (content : Bytes) → IsHash (blake3 content)) where
  store_new-Room :
      (count : ℕ) (h : Hash) (bytes : Bytes) (w : World)
      → length bytes ≤ u32_max
      → Room (suc count) w
      → Room count (store_new hex blake3 h bytes w)
  unfolding store_new pack_write record_line
  store_new-Room count h bytes w small (ids, ends) = (
    omega (arith, write_id_le w.handle, ids),
    λ id. omega (arith, ends id, end_of-append_to w.disk (write_id w.handle) id bytes),
  )

  -- An undamaged store with room for one more chunk has it for one less after `put`.
  pub put-Room :
      (count : ℕ) (w : World) (bytes : Bytes)
      → Sound hex blake3 w
      → length bytes ≤ u32_max
      → Room (suc count) w
      → Room count (put hex blake3 bytes w).1
  put-Room count w bytes s small room = elim (put-cases hex plain blake3 digest w bytes s) [
    | inl (_, e) ↦ (rw e (Room-less count w room))
    | inr later ↦ elim later [
      | inl (_, e) ↦ (rw e (Room-less count w room))
      | inr (_, e) ↦ (rw e (store_new-Room count (blake3 bytes) bytes (synced hex w) small room))
    ]
  ]
