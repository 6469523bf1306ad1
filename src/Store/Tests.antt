-- ===== src/Store/Tests.antt =====
-- The store at concrete inputs.
use np2ptp.Prelude.{
  ◌≡◌, refl, none, some, [], ◌∷◌, ◌++◌, true, false, not, ◌||◌, ◌⊎◌, Bytes, eq_bytes, ok,
}
use np2ptp.Prelude.Maps.{lookup, insert, contains}
use np2ptp.Prelude.Utf8.{utf8_from}
use np2ptp.Core.Hash.Binding.{Collision}
use np2ptp.Prelude.Decimal.{to_string, digits, parse_uint, scan}
use np2ptp.Core.Toy.{toy_blake3, toy_digest}
use np2ptp.Store.Text.{
  newline, lines, complete_lines, pack_index_line, parse_pack_index_line, pack_fields, splitn,
}
use np2ptp.Store.Intact.{loaded, synced}
use np2ptp.Store.Sound.{Sound, holds}
use np2ptp.Store.Sound.Adds.{put_lem}
use np2ptp.Store.Sound.Finds.{Found, get_lem, get_sound, get-put}
use np2ptp.Store.Open.{open_store, torn, open_store-crash}
use np2ptp.Store.Sound.Siblings.{through, get-put_sibling}
use np2ptp.Store.Toy.{
  empty_handle, unary, written, counted, plain, toy_hex, empty_disk, empty_store, empty_store-Sound,
  empty_store-Settled, two_bytes, two_bytes-Fits, old_store,
}
use np2ptp.Store.{
  World, index_lines, refresh_pack_index, record_line, get, put, get_from_pack_index,
}

put_lem_example :
    (w' : World) × (put toy_hex toy_blake3 two_bytes empty_store ≡ (
      (toy_blake3 two_bytes, not (holds toy_hex toy_blake3 empty_store (toy_blake3 two_bytes))),
      w',
    ))
    × Sound toy_hex toy_blake3 w'
    × (holds toy_hex toy_blake3 w' (toy_blake3 []) ≡ (
        eq_bytes (toy_blake3 two_bytes) (toy_blake3 [])
        || holds toy_hex toy_blake3 empty_store (toy_blake3 [])))
put_lem_example =
    put_lem toy_hex plain toy_blake3 toy_digest empty_store two_bytes (toy_blake3 [])
      empty_store-Sound two_bytes-Fits

get-put_example :
    (((get toy_hex toy_blake3
          (toy_blake3 two_bytes)
          (put toy_hex toy_blake3 two_bytes empty_store).1).0
        ≡ ok (some two_bytes))
      ⊎ Collision toy_blake3)
    × (holds toy_hex toy_blake3 (put toy_hex toy_blake3 two_bytes empty_store).1 (toy_blake3 []) ≡ (
        eq_bytes (toy_blake3 two_bytes) (toy_blake3 [])
        || holds toy_hex toy_blake3 empty_store (toy_blake3 [])))
get-put_example =
    get-put toy_hex plain toy_blake3 toy_digest empty_store two_bytes (toy_blake3 [])
      empty_store-Sound two_bytes-Fits

old_store-get : (get toy_hex toy_blake3 (toy_blake3 two_bytes) old_store).0 ≡ ok (some two_bytes)
unfolding get get_from_pack_index lookup eq_bytes
old_store-get = refl

get_sound_example : toy_blake3 two_bytes ≡ toy_blake3 two_bytes
get_sound_example =
    get_sound toy_hex toy_blake3 old_store (toy_blake3 two_bytes) two_bytes old_store-get

open_store-crash_example :
    (w' : World) × (open_store toy_hex
        (torn toy_hex empty_store 0 two_bytes (toy_blake3 two_bytes) (0, 0, 2) 40)
      ≡ ok w')
    × Sound toy_hex toy_blake3 w'
    × (w'.disk.index ≡ [])
    × (holds toy_hex toy_blake3 w' [] ≡ holds toy_hex toy_blake3 empty_store [])
open_store-crash_example =
    open_store-crash toy_hex plain toy_blake3 empty_store 0 two_bytes (toy_blake3 two_bytes)
      (0, 0, 2) 40 [] empty_store-Sound empty_store-Settled

get_lem_test :
    ((holds toy_hex toy_blake3 empty_store [] ≡ true) × Found toy_hex toy_blake3 empty_store [])
    ⊎ ((holds toy_hex toy_blake3 empty_store [] ≡ false)
        × (get toy_hex toy_blake3 [] empty_store ≡ (ok none, synced toy_hex empty_store))
        × Sound toy_hex toy_blake3 (synced toy_hex empty_store))
get_lem_test = get_lem toy_hex toy_blake3 empty_store [] empty_store-Sound

-- A handle that has read nothing, whose index on the disk another handle has written a line to
-- before this one writes its own: its cursor then stands behind the line of
-- the other handle by mistake, and what it reads on is its own line.
abbrev other_line : Bytes
other_line = pack_index_line toy_hex (0 ∷ 1 ∷ []) (0, 0, 2) ++ newline ∷ []

abbrev raced : World
raced =
    record_line toy_hex (1 ∷ 0 ∷ []) (0, 2, 2)
      (record empty_store { disk = record empty_disk { index = other_line } })

raced-misses :
    contains eq_bytes (refresh_pack_index toy_hex raced).1.handle.pack_index (0 ∷ 1 ∷ []) ≡ false
unfolding record_line refresh_pack_index complete_lines utf8_from lookup index_lines lines
    pack_index_line written unary to_string digits parse_pack_index_line pack_fields splitn
    parse_uint scan insert eq_bytes counted
raced-misses = refl

-- The line of the other handle is in the file.
raced-listed : contains eq_bytes (loaded toy_hex raced.disk.index) (0 ∷ 1 ∷ []) ≡ true
unfolding record_line lookup index_lines lines pack_index_line written unary to_string digits
    parse_pack_index_line pack_fields splitn parse_uint scan insert eq_bytes counted
raced-listed = refl

-- Two handles that were just opened on an empty directory.
get-put_sibling_example :
    Sound toy_hex toy_blake3 (through empty_handle (put toy_hex toy_blake3 two_bytes empty_store).1)
    × (((get toy_hex toy_blake3
            (toy_blake3 two_bytes)
            (through empty_handle (put toy_hex toy_blake3 two_bytes empty_store).1)).0
          ≡ ok (some two_bytes))
        ⊎ Collision toy_blake3)
get-put_sibling_example =
    get-put_sibling toy_hex plain toy_blake3 toy_digest empty_store empty_handle two_bytes
      empty_store-Sound empty_store-Sound refl two_bytes-Fits
