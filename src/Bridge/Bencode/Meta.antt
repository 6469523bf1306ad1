-- ===== src/Bridge/Bencode/Meta.antt =====
-- What is true of the metadata that `parse_torrent_file` accepts.
use mathlib.Core.List.{foldl}
use np2ptp.Prelude.{
  ℕ, zero, suc, ◌-◌, ◌^◌, ◌%◌, ◌<◌, ◌≤◌, ◌≡◌, refl, sym, ap, ◌∙◌, Option, none, some, List, [], ◌∷◌,
  ◌++◌, append_assoc, append-nil, take, drop, length, length-append, length-take, length-drop,
  take-append_length, drop-append_length, ltb, ◌==◌, ==_iff, true, not, ◌||◌, Bool-cases, inl, inr,
  All, Bytes, codes, eq_bytes, eq_bytes_iff, ok, bind-eq-ok, guard-eq-ok, ok_or, arith,
}
use np2ptp.Prelude.Utf8.{from_utf8_lossy}
use np2ptp.Core.Path.{Component, root_dir, cur_dir, parent_dir, normal, components}
use np2ptp.Core.Path.Confined.{enter, join}
use np2ptp.Bridge.Pieces.{TorrentFile, TorrentMeta, chunks_from}
use np2ptp.Bridge.Bencode.{
  ℤ, pos, negsuc, Value, Values, no_values, value, as_list, dict_get, decode_byte_string,
  strip_byte, expected_top_dict, empty_path, name_missing, piece_length_missing, piece_length_range,
  piece_length_bad, pieces_missing, pieces_not_20, files_not_list, file_length_missing,
  file_length_range, file_path_missing, length_missing, length_range,
}
use np2ptp.Bridge.Bencode.Suffix.{
  ok_or-ok, strip_byte-Consumed, decode_byte_string-Consumed, decode-Consumed,
}
use np2ptp.Bridge.Bencode.Torrent.{
  decode_top, find_info, find_info_offset, check_normal, validate_file_path, to_u32, to_u64,
  get_bytes, get_int, get_list, join_segments, path_segments, read_file, read_files, single_file,
  files_of, max_piece_length, read_info, parse_torrent_file,
}

-- The key `info` and its value stand in the input with `r` behind the key.
abbrev InfoAt : Bytes → Bytes → Type 0
InfoAt input r =
    (front key : Bytes) × (input ≡ front ++ (key ++ r))
    × (decode_byte_string (key ++ r) ≡ ok (codes "info", r))

moved_on :
    (input front s used r used₂ r₂ : Bytes)
    → input ≡ front ++ s
    → s ≡ used ++ r
    → r ≡ used₂ ++ r₂
    → input ≡ (front ++ (used ++ used₂)) ++ r₂
moved_on input front s used r used₂ r₂ e parts parts₂ =
    e
    ∙ ap (λ k. front ++ k) (parts ∙ ap (λ k. used ++ k) parts₂ ∙ sym (append_assoc used used₂ r₂))
    ∙ sym (append_assoc front (used ++ used₂) r₂)

find_info-InfoAt :
    (fuel : ℕ) (input front s : Bytes) (offset : ℕ)
    → input ≡ front ++ s
    → find_info fuel (length input) s ≡ ok offset
    → (r : Bytes) × InfoAt input r × (offset ≡ length input - length r)
unfolding find_info
find_info-InfoAt zero input front [] offset e h = cc h
find_info-InfoAt (suc fuel) input front [] offset e h = cc h
find_info-InfoAt zero input front (b ∷ bs) offset e h = cc h
find_info-InfoAt (suc fuel) input front (b ∷ bs) offset e h = elim (Bool-cases (b == b'e')) [
  | inl t ↦ cc (rw t at h)
  | inr t ↦
      let ((key, r), named, h₁) = bind-eq-ok (decode_byte_string (b ∷ bs)) _ (rw t at h) in
      let (used, parts, _) = decode_byte_string-Consumed (b ∷ bs) key r named in
      elim (Bool-cases (eq_bytes key (codes "info"))) [
        | inl i ↦ (
          r,
          (
            front,
            used,
            e ∙ ap (λ k. front ++ k) parts,
            ap decode_byte_string (sym parts)
                ∙ named
                ∙ ap (λ k. ok (k, r)) ((eq_bytes_iff key (codes "info")).0 i),
          ),
          cc (rw i at h₁),
        )
        | inr i ↦
            let ((v, r₂), skipped, h₂) = bind-eq-ok (decode_top r) _ (rw i at h₁) in
            let (used₂, parts₂, _) = decode-Consumed 33 r r₂ v skipped in
            find_info-InfoAt fuel input (front ++ (used ++ used₂)) r₂ offset
              (moved_on input front (b ∷ bs) used r used₂ r₂ e parts parts₂) h₂
      ]
]

find_info_offset-InfoAt :
    (input : Bytes) (offset : ℕ)
    → find_info_offset input ≡ ok offset
    → (r : Bytes) × InfoAt input r × (drop offset input ≡ r)
unfolding find_info_offset
find_info_offset-InfoAt input offset h =
    let (rest, stripped, h₁) = bind-eq-ok (ok_or (strip_byte b'd' input) expected_top_dict) _ h in
    let (used, parts, _) =
      strip_byte-Consumed b'd' input rest (ok_or-ok _ expected_top_dict _ stripped) in
    let (r, (front, key, whole, named), at_key) =
      find_info-InfoAt (length rest) input used rest offset parts h₁ in
    let all : input ≡ (front ++ key) ++ r = whole ∙ sym (append_assoc front key r) in
    let here : length (front ++ key) ≡ offset =
      omega (arith, at_key, ap length all, length-append (front ++ key) r) in
    (
      r,
      (front, key, whole, named),
      ap (λ k. drop offset k) all ∙ drop-append_length offset (front ++ key) r here,
    )

check_normal-join :
    (cs : List Component) (dir : List Bytes)
    → check_normal cs ≡ ok tt
    → (names : List Bytes) × (foldl enter dir cs ≡ dir ++ names)
unfolding check_normal
check_normal-join [] dir h = ([], sym (append-nil dir))
check_normal-join (normal name ∷ cs) dir h =
    let (names, joined) = check_normal-join cs (dir ++ name ∷ []) h in
    (name ∷ names, joined ∙ append_assoc dir (name ∷ []) names)
check_normal-join (root_dir ∷ cs) dir h = cc h
check_normal-join (cur_dir ∷ cs) dir h = cc h
check_normal-join (parent_dir ∷ cs) dir h = cc h

-- The path leads to a place under the directory.
abbrev pub Under : List Bytes → TorrentFile → Type 0
Under dir file = (names : List Bytes) × (join dir file.path ≡ dir ++ names)

validate_file_path-join :
    (path : Bytes) (dir : List Bytes)
    → validate_file_path path ≡ ok tt
    → (names : List Bytes) × (join dir path ≡ dir ++ names)
unfolding validate_file_path
validate_file_path-join path dir h =
    let (_, checked) =
      guard-eq-ok (not (eq_bytes path [])) empty_path (check_normal (components path)) h in
    check_normal-join (components path) dir checked

read_file-Under :
    (dir : List Bytes) (v : Value) (file : TorrentFile) → read_file v ≡ ok file → Under dir file
unfolding read_file
read_file-Under dir v file h =
    let (n, _, h₁) = bind-eq-ok (ok_or (get_int (codes "length") v) file_length_missing) _ h in
    let (size, _, h₂) = bind-eq-ok (ok_or (to_u64 n) file_length_range) _ h₁ in
    let (list, _, h₃) = bind-eq-ok (ok_or (get_list (codes "path") v) file_path_missing) _ h₂ in
    let (segments, _, h₄) = bind-eq-ok (path_segments list) _ h₃ in
    let (_, checked, h₅) = bind-eq-ok (validate_file_path (join_segments segments)) _ h₄ in
    let (names, joined) = validate_file_path-join (join_segments segments) dir checked in
    let same : join_segments segments ≡ file.path = cc h₅ in
    (names, ap (join dir) (sym same) ∙ joined)

read_files-Under :
    (dir : List Bytes) (vs : Values) (files : List TorrentFile)
    → read_files vs ≡ ok files
    → All (Under dir) files
unfolding read_files
read_files-Under dir no_values files h = let same : [] ≡ files = cc h in (rw (sym same) tt)
read_files-Under dir (value v vs) files h =
    let (file, first, h₁) = bind-eq-ok (read_file v) _ h in
    let (others, rest, h₂) = bind-eq-ok (read_files vs) _ h₁ in
    let same : file ∷ others ≡ files = cc h₂ in
    (rw (sym same) (read_file-Under dir v file first, read_files-Under dir vs others rest))

files_of-Under :
    (dir : List Bytes) (name : Bytes) (info : Value) (listed : Option Value)
    (files : List TorrentFile)
    → files_of name info listed ≡ ok files
    → All (Under dir) files
unfolding single_file
files_of-Under dir name info (some listed) files h =
    let (list, _, h₁) = bind-eq-ok (ok_or (as_list listed) files_not_list) _ h in
    read_files-Under dir list files h₁
files_of-Under dir name info none files h =
    let (n, _, h₁) = bind-eq-ok (ok_or (get_int (codes "length") info) length_missing) _ h in
    let (size, _, h₂) = bind-eq-ok (ok_or (to_u64 n) length_range) _ h₁ in
    let (_, checked, h₃) = bind-eq-ok (validate_file_path name) _ h₂ in
    let same : record { path = name; length = size } ∷ [] ≡ files = cc h₃ in
    (rw (sym same) (validate_file_path-join name dir checked, tt))

chunks_from-20 :
    (fuel : ℕ) (pieces : Bytes)
    → length pieces % 20 ≡ 0
    → All (λ hash. length hash ≡ 20) (chunks_from fuel 20 pieces)
unfolding chunks_from
chunks_from-20 zero pieces h = tt
chunks_from-20 (suc fuel) [] h = tt
chunks_from-20 (suc fuel) (b ∷ bs) h =
    let s : Bytes = b ∷ bs in
    (
      omega (arith, length-take 20 s, h),
      chunks_from-20 fuel (drop 20 s) (omega (arith, length-drop 20 s, h)),
    )

-- The lengths that `parse_torrent_file` accepts, and where its files are.
abbrev pub Checked : List Bytes → TorrentMeta → Type 0
Checked dir meta =
    (0 < meta.piece_length)
    × (meta.piece_length ≤ max_piece_length)
    × All (λ hash. length hash ≡ 20) meta.piece_hashes
    × All (Under dir) meta.files

to_u32-ok : (n : ℤ) (m : ℕ) → to_u32 n ≡ some m → m < 2 ^ 32
to_u32-ok (pos n) m h = elim (Bool-cases (ltb n (2 ^ 32))) [
  | inl e ↦ let same : n ≡ m = cc (rw e at h) in ground (arith, same, e)
  | inr e ↦ cc (rw e at h)
]
to_u32-ok (negsuc n) m h = cc h

in_bounds :
    (n : ℕ) → not ((n == 0) || ltb max_piece_length n) ≡ true → (0 < n) × (n ≤ max_piece_length)
in_bounds n h = (ground (arith, h), ground (arith, h))

read_info-Checked :
    (dir : List Bytes) (infohash : Bytes) (info : Value) (meta : TorrentMeta)
    → read_info infohash info ≡ ok meta
    → (meta.infohash ≡ infohash) × Checked dir meta
unfolding read_info
read_info-Checked dir infohash info meta h =
    let (raw, _, h₁) = bind-eq-ok (ok_or (get_bytes (codes "name") info) name_missing) _ h in
    let (n, _, h₂) =
      bind-eq-ok (ok_or (get_int (codes "piece length") info) piece_length_missing) _ h₁ in
    let (piece_length, _, h₃) = bind-eq-ok (ok_or (to_u32 n) piece_length_range) _ h₂ in
    let (bounded, h₄) =
      guard-eq-ok (not ((piece_length == 0) || ltb max_piece_length piece_length)) piece_length_bad
        _ h₃ in
    let (pieces, _, h₅) =
      bind-eq-ok (ok_or (get_bytes (codes "pieces") info) pieces_missing) _ h₄ in
    let (whole, h₆) = guard-eq-ok (length pieces % 20 == 0) pieces_not_20 _ h₅ in
    let (files, listed, h₇) =
      bind-eq-ok (files_of (from_utf8_lossy raw) info (dict_get (codes "files") info)) _ h₆ in
    let same : record {
      infohash = infohash;
      name = from_utf8_lossy raw;
      files = files;
      piece_length = piece_length;
      piece_hashes = chunks_from (length pieces) 20 pieces;
    }
        ≡ meta =
      cc h₇ in
    let (low, high) = in_bounds piece_length bounded in
    rw (sym same) (
      refl,
      (
        low,
        high,
        chunks_from-20 (length pieces) pieces ((==_iff (length pieces % 20) 0).0 whole),
        files_of-Under dir (from_utf8_lossy raw) info (dict_get (codes "files") info) files listed,
      ),
    )

module _ (sha1 : Bytes → Bytes) where
  -- The input has a value behind a key `info`, and the hash is that of the value's own bytes.
  abbrev pub Hashed : Bytes → Bytes → Type 0
  Hashed input infohash =
      (front key info back : Bytes) × (input ≡ front ++ (key ++ (info ++ back)))
      × (decode_byte_string (key ++ (info ++ back)) ≡ ok (codes "info", info ++ back))
      × (v : Value) × (decode_top (info ++ back) ≡ ok (v, back))
      × (infohash ≡ sha1 info)

  -- If a torrent file is accepted, its info hash is the SHA-1 of just the bytes in the input from
  -- which the value behind a key `info` was decoded, the piece length is between 1 and 64 MiB, each
  -- piece's hash has 20 bytes, and each file's path, joined to any directory, leads to a place under
  -- that directory.
  pub parse_torrent_file_sound :
      (dir : List Bytes) (input : Bytes) (meta : TorrentMeta)
      → parse_torrent_file sha1 input ≡ ok meta
      → Hashed input meta.infohash × Checked dir meta
  unfolding parse_torrent_file
  parse_torrent_file_sound dir input meta h =
      let (offset, found, h₁) = bind-eq-ok (find_info_offset input) _ h in
      let ((v, back), decoded, h₂) = bind-eq-ok (decode_top (drop offset input)) _ h₁ in
      let s = drop offset input in
      let (hashed, checked) =
        read_info-Checked dir (sha1 (take (length s - length back) s)) v meta h₂ in
      let (r, (front, key, whole, named), here) = find_info_offset-InfoAt input offset found in
      let (info, parts, _) = decode-Consumed 33 s back v decoded in
      let r_parts : r ≡ info ++ back = sym here ∙ parts in
      let size : length s - length back ≡ length info =
        omega (arith, ap length parts, length-append info back) in
      (
        (
          front,
          key,
          info,
          back,
          whole ∙ ap (λ k. front ++ (key ++ k)) r_parts,
          ap (λ k. decode_byte_string (key ++ k)) (sym r_parts)
              ∙ named
              ∙ ap (λ k. ok (codes "info", k)) r_parts,
          v,
          ap decode_top (sym parts) ∙ decoded,
          hashed
              ∙ ap sha1 (
                  ap (λ k. take k s) size
                  ∙ ap (take (length info)) parts
                  ∙ take-append_length (length info) info back refl),
        ),
        checked,
      )
