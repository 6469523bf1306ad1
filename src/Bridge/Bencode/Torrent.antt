-- ===== src/Bridge/Bencode/Torrent.antt =====
-- `parse_torrent_file`: what a torrent file says, and its info hash. SHA-1 is the parameter `sha1`.
use np2ptp.Prelude.{
  ℕ, zero, suc, ◌-◌, ◌*◌, ◌^◌, ◌%◌, Option, none, some, List, [], ◌∷◌, ◌++◌, take, drop, length,
  ltb, ◌==◌, not, ◌||◌, if◌then◌else◌, Bytes, codes, eq_bytes, Result, ok, err, ◌>>=◌, ◌>>◌, guard,
  ok_or,
}
use np2ptp.Prelude.Options
use np2ptp.Prelude.Utf8.{from_utf8_lossy}
use np2ptp.Core.Path.{Component, root_dir, cur_dir, parent_dir, normal, components}
use np2ptp.Bridge.Pieces.{TorrentFile, TorrentMeta, chunks_from}
use np2ptp.Bridge.Bencode.{
  ℤ, pos, negsuc, Value, Values, no_values, value, as_bytes, as_int, as_list, dict_get,
  BencodeError, expected_top_dict, no_info, unterminated_dict, empty_path, path_escapes,
  name_missing, piece_length_missing, piece_length_range, piece_length_bad, pieces_missing,
  pieces_not_20, files_not_list, file_length_missing, file_length_range, file_path_missing,
  segment_not_bytes, length_missing, length_range, max_depth, strip_byte, decode_byte_string,
  decode,
}

-- `decode(input, 0)`
abbrev pub decode_top : Bytes → Result BencodeError (Value × Bytes)
decode_top input = decode (suc max_depth) input

-- The loop of `find_info_offset`; each round takes a byte or more.
unfoldable pub find_info : ℕ → ℕ → Bytes → Result BencodeError ℕ
find_info fuel total [] = err unterminated_dict
find_info zero total (b ∷ bs) = err unterminated_dict
find_info (suc fuel) total (b ∷ bs) =
    let more = decode_byte_string (b ∷ bs) >>= λ (key, r).
    let next = decode_top r >>= λ (v, r₂). find_info fuel total r₂ in
    if eq_bytes key (codes "info") then ok (total - length r) else next in
    if b == b'e' then err no_info else more

unfoldable pub find_info_offset : Bytes → Result BencodeError ℕ
find_info_offset input = do
  rest ← ok_or (strip_byte b'd' input) expected_top_dict
  find_info (length rest) (length input) rest

unfoldable pub check_normal : List Component → Result BencodeError (Unit {0})
check_normal [] = ok tt
check_normal (normal name ∷ cs) = check_normal cs
check_normal (root_dir ∷ cs) = err path_escapes
check_normal (cur_dir ∷ cs) = err path_escapes
check_normal (parent_dir ∷ cs) = err path_escapes

-- `validate_relative_path` of this file, which is not that of np2ptp-core.
unfoldable pub validate_file_path : Bytes → Result BencodeError (Unit {0})
validate_file_path path = do
  guard (not (eq_bytes path [])) empty_path
  check_normal (components path)

-- `u32::try_from` and `u64::try_from`
abbrev pub to_u32 : ℤ → Option ℕ
to_u32 (pos n) = if ltb n (2 ^ 32) then some n else none
to_u32 (negsuc n) = none

abbrev pub to_u64 : ℤ → Option ℕ
to_u64 (pos n) = some n
to_u64 (negsuc n) = none

abbrev pub get_bytes : Bytes → Value → Option Bytes
get_bytes key v = Options.◌>>=◌ (dict_get key v) as_bytes

abbrev pub get_int : Bytes → Value → Option ℤ
get_int key v = Options.◌>>=◌ (dict_get key v) as_int

abbrev pub get_list : Bytes → Value → Option Values
get_list key v = Options.◌>>=◌ (dict_get key v) as_list

-- `segments.join("/")`
unfoldable pub join_segments : List Bytes → Bytes
join_segments [] = []
join_segments (s ∷ []) = s
join_segments (s ∷ t ∷ segments) = s ++ b'/' ∷ join_segments (t ∷ segments)

unfoldable pub path_segments : Values → Result BencodeError (List Bytes)
path_segments no_values = ok []
path_segments (value v vs) = do
  b ← ok_or (as_bytes v) segment_not_bytes
  segments ← path_segments vs
  ok (from_utf8_lossy b ∷ segments)

unfoldable pub read_file : Value → Result BencodeError TorrentFile
read_file v = do
  n ← ok_or (get_int (codes "length") v) file_length_missing
  length ← ok_or (to_u64 n) file_length_range
  list ← ok_or (get_list (codes "path") v) file_path_missing
  segments ← path_segments list
  validate_file_path (join_segments segments)
  ok (record { path = join_segments segments; length = length })

unfoldable pub read_files : Values → Result BencodeError (List TorrentFile)
read_files no_values = ok []
read_files (value v vs) = do file ← read_file v; files ← read_files vs; ok (file ∷ files)

unfoldable pub single_file : Bytes → Value → Result BencodeError (List TorrentFile)
single_file name info = do
  n ← ok_or (get_int (codes "length") info) length_missing
  length ← ok_or (to_u64 n) length_range
  validate_file_path name
  ok (record { path = name; length = length } ∷ [])

abbrev pub files_of : Bytes → Value → Option Value → Result BencodeError (List TorrentFile)
files_of name info (some listed) = do list ← ok_or (as_list listed) files_not_list; read_files list
files_of name info none = single_file name info

abbrev pub max_piece_length : ℕ
max_piece_length = 64 * 1024 * 1024

-- What `parse_torrent_file` does once it has the info dict and the hash.
unfoldable pub read_info : Bytes → Value → Result BencodeError TorrentMeta
read_info infohash info = do
  raw ← ok_or (get_bytes (codes "name") info) name_missing
  n ← ok_or (get_int (codes "piece length") info) piece_length_missing
  piece_length ← ok_or (to_u32 n) piece_length_range
  guard (not ((piece_length == 0) || ltb max_piece_length piece_length)) piece_length_bad
  pieces ← ok_or (get_bytes (codes "pieces") info) pieces_missing
  guard (length pieces % 20 == 0) pieces_not_20
  files ← files_of (from_utf8_lossy raw) info (dict_get (codes "files") info)
  ok (record {
    infohash = infohash;
    name = from_utf8_lossy raw;
    files = files;
    piece_length = piece_length;
    piece_hashes = chunks_from (length pieces) 20 pieces;
  })

module _ (sha1 : Bytes → Bytes) where
  unfoldable pub parse_torrent_file : Bytes → Result BencodeError TorrentMeta
  parse_torrent_file input = do
    info_offset ← find_info_offset input
    (info, rest) ← decode_top (drop info_offset input)
    read_info (sha1 (take (length (drop info_offset input) - length rest) (drop info_offset input)))
        info
