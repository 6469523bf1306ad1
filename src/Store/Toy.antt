-- ===== src/Store/Toy.antt =====
-- Stand-ins and small stores for the tests.
use np2ptp.Prelude.{
  ℕ, zero, suc, ◌+◌, ◌≡◌, refl, ap, ◌∙◌, some, [], ◌∷◌, ◌++◌, ◌==◌, if◌then◌else◌, Bytes, arith,
}
use np2ptp.Prelude.Maps.{lookup}
use np2ptp.Prelude.Utf8.{utf8_from}
use np2ptp.Core.Hash.{Hash}
use np2ptp.Core.Manifest.Container.{Hex}
use np2ptp.Core.Toy.{toy_blake3}
use np2ptp.Store.Text.{lines, complete_lines}
use np2ptp.Store.Text.RoundTrip.{Word}
use np2ptp.Store.Intact.{Cursor}
use np2ptp.Store.Sound.{Sound}
use np2ptp.Store.Sound.Adds.{Fits}
use np2ptp.Store.Open.{Settled}
use np2ptp.Store.{Disk, Handle, World, index_lines, index_refs}

-- A stand-in for the hexadecimal form: each byte in unary, ended by a `b`.
unfoldable pub unary : ℕ → Bytes
unary zero = b'b' ∷ []
unary (suc n) = b'a' ∷ unary n

unfoldable pub written : Hash → Bytes
written [] = []
written (n ∷ h) = unary n ++ written h

unfoldable pub counted : ℕ → Bytes → Hash
counted n [] = []
counted n (c ∷ s) =
    let next = counted 0 s in let more = counted (suc n) s in if c == b'b' then n ∷ next else more

counted-unary : (m n : ℕ) (rest : Bytes) → counted m (unary n ++ rest) ≡ (m + n) ∷ counted 0 rest
unfolding counted unary
counted-unary m zero rest = ap (λ k. k ∷ counted 0 rest) (omega arith)
counted-unary m (suc n) rest =
    counted-unary (suc m) n rest ∙ ap (λ k. k ∷ counted 0 rest) (omega arith)

pub counted-written : (h : Hash) → counted 0 (written h) ≡ h
unfolding written counted
counted-written [] = refl
counted-written (n ∷ h) =
    let zero_add : 0 + n ≡ n = omega arith in
    counted-unary 0 n (written h)
    ∙ ap (λ k. k ∷ counted 0 (written h)) zero_add
    ∙ ap (λ t. n ∷ t) (counted-written h)

abbrev pub toy_hex : Hex
toy_hex = record {
  encode = written;
  decode = λ s. some (counted 0 s);
  decode-encode = λ h _. ap some (counted-written h);
}

Word-unary : (n : ℕ) (rest : Bytes) → Word rest → Word (unary n ++ rest)
unfolding unary
Word-unary zero rest h = ((omega arith, omega arith), h)
Word-unary (suc n) rest h = ((omega arith, omega arith), Word-unary n rest h)

pub plain : (h : Hash) → Word (written h)
unfolding written
plain [] = tt
plain (n ∷ h) = Word-unary n (written h) (plain h)

abbrev pub empty_disk : Disk
empty_disk = record { packs = []; index = []; refs = []; objects = []; sources = [] }

abbrev pub empty_handle : Handle
empty_handle = record {
  pack_index = [];
  pack_index_pos = 0;
  refs = [];
  refs_pos = 0;
  current_id = 0;
  current_size = 0;
}

abbrev pub empty_store : World
empty_store = record { disk = empty_disk; handle = empty_handle }

pub nothing_read : Cursor toy_hex [] empty_handle
unfolding complete_lines utf8_from index_lines lines
nothing_read = record {
  front = [];
  back = [];
  parts = refl;
  here = refl;
  line_end = refl;
  front_utf8 = refl;
  read = refl;
}

pub empty_store-Sound : Sound toy_hex toy_blake3 empty_store
unfolding complete_lines utf8_from index_lines lines
empty_store-Sound = record {
  complete = refl;
  utf8 = refl;
  cursor = nothing_read;
  entries = tt;
  indexed = tt;
  objects = tt;
  refs = tt;
  refs_read = omega arith;
}

pub empty_store-Settled : Settled toy_hex empty_store
unfolding complete_lines utf8_from index_refs lines
empty_store-Settled = record { complete = refl; utf8 = refl; read = refl }

abbrev pub two_bytes : Bytes
two_bytes = 104 ∷ 105 ∷ []

pub two_bytes-Fits : Fits empty_store two_bytes
unfolding lookup
two_bytes-Fits = (omega arith, omega arith, omega arith)

-- A store of the old layout.
abbrev pub old_store : World
old_store = record empty_store {
  disk = record empty_disk { objects = (toy_blake3 two_bytes, two_bytes) ∷ [] };
}

pub old_store-Sound : Sound toy_hex toy_blake3 old_store
unfolding complete_lines utf8_from index_lines lines
old_store-Sound = record {
  complete = refl;
  utf8 = refl;
  cursor = nothing_read;
  entries = tt;
  indexed = tt;
  objects = (refl, tt);
  refs = tt;
  refs_read = omega arith;
}
