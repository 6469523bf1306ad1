-- ===== src/Store/Text.antt =====
-- crates/np2ptp-store/src/lib.rs: the text of `packs/index` and `refs.tsv`, one line for a chunk.
pub mod Tail
pub mod RoundTrip
use np2ptp.Prelude.{
  ℕ, zero, suc, ◌-◌, ◌^◌, Option, none, some, List, [], ◌∷◌, ◌++◌, ◌==◌, Bool, true, false, ◌&&◌,
  if◌then◌else◌, Bytes, u64_max,
}
use np2ptp.Prelude.Decimal.{parse_uint, to_string}
use np2ptp.Prelude.Options.{◌>>=◌}
use np2ptp.Core.Hash.{Hash}
use np2ptp.Core.Manifest.Container.{Hex}

-- A pack's id, and a range in it.
abbrev pub PackLoc : Type 0
PackLoc = ℕ × ℕ × ℕ

-- A file's path, and a range in it.
abbrev pub RefLoc : Type 0
RefLoc = Bytes × ℕ × ℕ

abbrev pub u32_max : ℕ
u32_max = 2 ^ 32 - 1

abbrev pub tab : ℕ
tab = 9

abbrev pub newline : ℕ
newline = 10

abbrev pub cons_first : ℕ → List Bytes → List Bytes
cons_first c [] = (c ∷ []) ∷ []
cons_first c (line ∷ lines) = (c ∷ line) ∷ lines

-- `str::splitn`: at most `n` pieces.
unfoldable pub splitn : ℕ → ℕ → Bytes → List Bytes
splitn zero sep s = []
splitn (suc zero) sep s = s ∷ []
splitn (suc (suc n)) sep [] = [] ∷ []
splitn (suc (suc n)) sep (c ∷ s) =
    let next = splitn (suc n) sep s in
    let more = splitn (suc (suc n)) sep s in if c == sep then [] ∷ next else cons_first c more

abbrev pub starts_line : Bytes → Bool
starts_line [] = false
starts_line (c ∷ s) = c == newline

-- `str::lines`: the line ends are `\n` and `\r\n`.
unfoldable pub lines : Bytes → List Bytes
lines [] = []
lines (c ∷ s) =
    let rest = lines s in
    if c == newline
    then [] ∷ rest
    else if (c == 13) && starts_line s
    then rest
    else cons_first c rest

-- `&text[..=pos]` for the last newline's position, and nothing where there is no newline.
abbrev pub keep_byte : ℕ → Bytes → Bytes
keep_byte c [] = if c == newline then c ∷ [] else []
keep_byte c (d ∷ rest) = c ∷ d ∷ rest

unfoldable pub complete_lines : Bytes → Bytes
complete_lines [] = []
complete_lines (c ∷ s) = keep_byte c (complete_lines s)

module _ (hex : Hex) where
  unfoldable pub pack_fields : List Bytes → Option (Hash × PackLoc)
  pack_fields (h ∷ id ∷ offset ∷ size ∷ []) = hex.decode h >>= λ h. parse_uint u32_max id >>= λ id.
      parse_uint u64_max offset >>= λ offset.
      parse_uint u32_max size >>= λ size. some (h, (id, offset, size))
  pack_fields _ = none

  unfoldable pub parse_pack_index_line : Bytes → Option (Hash × PackLoc)
  parse_pack_index_line line = pack_fields (splitn 4 tab line)

  unfoldable pub ref_fields : List Bytes → Option (Hash × RefLoc)
  ref_fields (h ∷ offset ∷ size ∷ path ∷ []) = hex.decode h >>= λ h.
      parse_uint u64_max offset >>= λ offset.
      parse_uint u32_max size >>= λ size. some (h, (path, offset, size))
  ref_fields _ = none

  unfoldable pub parse_ref_line : Bytes → Option (Hash × RefLoc)
  parse_ref_line line = ref_fields (splitn 4 tab line)

  -- The line of `append_pack_index_line`, without its newline.
  unfoldable pub pack_index_line : Hash → PackLoc → Bytes
  pack_index_line h (id, offset, size) =
      hex.encode h ++ (tab ∷ (to_string id ++ (tab ∷ (to_string offset ++ (tab ∷ to_string size)))))

  -- The line of `add_reference`, without its newline.
  unfoldable pub ref_line : Hash → RefLoc → Bytes
  ref_line h (path, offset, size) =
      hex.encode h ++ (tab ∷ (to_string offset ++ (tab ∷ (to_string size ++ (tab ∷ path)))))
