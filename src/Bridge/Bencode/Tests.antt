-- ===== src/Bridge/Bencode/Tests.antt =====
-- The decoder and the torrent parser at concrete inputs.
use np2ptp.Prelude.{drop, length, ◌-◌, ◌≡◌, refl, [], ◌∷◌, Bytes, codes, eq_bytes, ok, err, arith}
use np2ptp.Prelude.Decimal.{parse_uint, scan}
use np2ptp.Prelude.Utf8.{utf8_from, lossy_from, from_utf8_lossy}
use np2ptp.Core.Path.{components, front, body, split_on}
use np2ptp.Bridge.Pieces.{TorrentMeta, chunks_from}
use np2ptp.Bridge.Bencode.{
  pos, negsuc, Value, int, list, dict, no_values, value, no_entries, entry, too_deep, find_key,
  break_at, parse_int, decode_int, decode_byte_string, decode_values, decode_list, decode_entries,
  decode_dict, decode_first, decode,
}
use np2ptp.Bridge.Bencode.Print.{encode, Encodable}
use np2ptp.Bridge.Bencode.RoundTrip.{decode-encode}
use np2ptp.Bridge.Bencode.Torrent.{
  find_info, find_info_offset, check_normal, validate_file_path, single_file, read_info,
  parse_torrent_file,
}
use np2ptp.Bridge.Bencode.Meta.{Hashed, Checked, parse_torrent_file_sound}

-- `li-3ed1:ai7eee`
abbrev nested : Value
nested =
    list
      (value (int (negsuc 2)) (value (dict (entry (codes "a") (int (pos 7)) no_entries)) no_values))

nested-Encodable : Encodable 33 nested
unfolding Encodable
nested-Encodable =
    let small : Encodable 31 (int (pos 7)) = (omega arith, omega arith) in
    (
      omega arith,
      ((omega arith, omega arith), ((omega arith, (omega arith, small, omega arith)), omega arith)),
    )

decode-encode_example : decode 33 (encode nested (codes "rest")) ≡ ok (nested, codes "rest")
decode-encode_example = decode-encode 33 nested (codes "rest") nested-Encodable

decode_nested : decode 33 (codes "li-3ed1:ai7eeerest") ≡ ok (nested, codes "rest")
unfolding decode decode_first decode_list decode_values decode_dict decode_entries decode_int
    decode_byte_string break_at parse_int parse_uint scan utf8_from
decode_nested = refl

decode_too_deep : decode 1 (codes "lle") ≡ err too_deep
unfolding decode decode_first decode_list decode_values
decode_too_deep = refl

lossy_bad_start :
    from_utf8_lossy (97 ∷ 255 ∷ 98 ∷ 226 ∷ 130 ∷ [])
    ≡ 97 ∷ 239 ∷ 191 ∷ 189 ∷ 98 ∷ 239 ∷ 191 ∷ 189 ∷ []
unfolding lossy_from
lossy_bad_start = refl

-- A torrent of one file of three bytes.
abbrev small_torrent : Bytes
small_torrent =
    codes "d4:infod6:lengthi3e4:name1:a12:piece lengthi4e6:pieces20:ABCDEFGHIJKLMNOPQRSTee"

-- A stand-in for SHA-1: the last byte.
abbrev toy_sha1 : Bytes → Bytes
toy_sha1 content = drop (length content - 1) content

abbrev small_meta : TorrentMeta
small_meta = record {
  infohash = codes "e";
  name = codes "a";
  files = record { path = codes "a"; length = 3 } ∷ [];
  piece_length = 4;
  piece_hashes = codes "ABCDEFGHIJKLMNOPQRST" ∷ [];
}

small_torrent-parsed : parse_torrent_file toy_sha1 small_torrent ≡ ok small_meta
unfolding parse_torrent_file find_info_offset find_info read_info single_file validate_file_path
    check_normal chunks_from components front body split_on lossy_from find_key eq_bytes decode
    decode_first decode_list decode_values decode_dict decode_entries decode_int decode_byte_string
    break_at parse_int parse_uint scan utf8_from
small_torrent-parsed = refl

parse_torrent_file_sound_example :
    Hashed toy_sha1 small_torrent (codes "e") × Checked (codes "downloads" ∷ []) small_meta
parse_torrent_file_sound_example =
    parse_torrent_file_sound toy_sha1 (codes "downloads" ∷ []) small_torrent small_meta
      small_torrent-parsed
