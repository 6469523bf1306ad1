-- ===== src/Core/Manifest/Container.antt =====
-- The `.nptp` container, the `np2ptp:<hex>` link, and their round trips. `bincode` and `hex` are
-- third-party code: the interfaces `Bincode` and `Hex`.
pub mod Tests
use np2ptp.Prelude.{
  ℕ, ◌+◌, ◌<◌, ◌≡◌, ◌≢◌, refl, ap, sym, ◌∙◌, ◌⊎◌, inl, inr, Bool, true, false, not, ◌||◌, Option,
  none, some, List, [], ◌∷◌, ◌++◌, take, drop, ltb, ◌==◌, if◌then◌else◌, arith, Bytes, codes,
  eq_bytes, eq_bytes_iff, eq_bytes_refl, Bool-cases, take-append-drop, take-append_length,
  drop-append_length, Result, ok, err, ◌>>=◌, ok_or, Option-cases, length-append,
}
use np2ptp.Prelude
use np2ptp.Core.Hash.{Hash, IsHash}
use np2ptp.Core.Manifest.{
  Manifest, ManifestError, codec, bad_uri, hex, bad_magic, unsupported_version,
}

-- `bincode::serialize` and `deserialize` at the type of manifests: what was written reads back.
pub record Bincode : Type 0 where
  pub serialize : Manifest → Option Bytes
  pub deserialize : Bytes → Option Manifest
  pub deserialize-serialize :
      (m : Manifest) (body : Bytes) → serialize m ≡ some body → deserialize body ≡ some m

-- `hex::encode` and `decode_to_slice` at 32 bytes.
pub record Hex : Type 0 where
  pub encode : Hash → Bytes
  pub decode : Bytes → Option Hash
  pub decode-encode : (h : Hash) → IsHash h → decode (encode h) ≡ some h

abbrev pub uri_scheme : Bytes
uri_scheme = codes "np2ptp"

abbrev pub nptp_magic : Bytes
nptp_magic = codes "NPTP"

abbrev pub nptp_version : ℕ
nptp_version = 1

-- `s.strip_prefix(prefix)`
unfoldable pub strip_prefix : Bytes → Bytes → Option Bytes
strip_prefix prefix s =
    if eq_bytes (take (Prelude.length prefix) s) prefix
    then some (drop (Prelude.length prefix) s)
    else none

module _ (bincode : Bincode) where
  unfoldable pub to_bytes : Manifest → Result ManifestError Bytes
  to_bytes m = ok_or (bincode.serialize m) codec

  unfoldable pub from_serialized : Bytes → Result ManifestError Manifest
  from_serialized bytes = ok_or (bincode.deserialize bytes) codec

  unfoldable pub to_nptp : Manifest → Result ManifestError Bytes
  unfolding to_bytes
  to_nptp m = do body ← to_bytes m; ok (nptp_magic ++ nptp_version ∷ body)

  -- `bytes[4]` and `bytes[5..]`, given `bytes[4..]`. The first clause is out of reach: `from_nptp`
  -- has seen five bytes.
  abbrev pub at_version : Bytes → Result ManifestError Manifest
  at_version [] = err bad_magic
  at_version (version ∷ body) =
      if version == nptp_version then from_serialized body else err (unsupported_version version)

  unfoldable pub from_nptp : Bytes → Result ManifestError Manifest
  from_nptp bytes =
      if ltb (Prelude.length bytes) 5 || not (eq_bytes (take 4 bytes) nptp_magic)
      then err bad_magic
      else at_version (drop 4 bytes)

  from_nptp_header :
      (version : ℕ) (body : Bytes)
      → from_nptp (nptp_magic ++ version ∷ body) ≡ at_version (version ∷ body)
  unfolding from_nptp eq_bytes
  from_nptp_header version body = ground arith

  -- A container that `to_nptp` wrote reads back as the same manifest.
  pub from_nptp-to_nptp :
      (m : Manifest) (file : Bytes) → to_nptp m ≡ ok file → from_nptp file ≡ ok m
  unfolding to_nptp from_serialized
  from_nptp-to_nptp m file h = elim (Option-cases (bincode.serialize m)) [
    | inl e ↦ cc (e, h)
    | inr (body, e) ↦
        let written : file ≡ nptp_magic ++ nptp_version ∷ body = ground (arith, e, h) in
        rw (written, from_nptp_header nptp_version body, bincode.deserialize-serialize m body e)
  ]

  -- Every byte string is of one of two kinds. It has fewer than five bytes or begins with another
  -- four than the magic, and then it is refused as `BadMagic`. Or it is magic, version and body, and then the result is that of
  -- decoding the body if the version is 1, and the version is reported if it is another.
  pub from_nptp-cases :
      (bytes : Bytes)
      → (((Prelude.length bytes < 5) ⊎ (take 4 bytes ≢ nptp_magic))
          × (from_nptp bytes ≡ err bad_magic))
        ⊎ ((version : ℕ) × (body : Bytes) × (bytes ≡ nptp_magic ++ version ∷ body)
            × (from_nptp bytes ≡ (
                if version == nptp_version
                then from_serialized body
                else err (unsupported_version version))))
  from_nptp-cases [] = inl (inl (omega arith), unfold from_nptp in ground arith)
  from_nptp-cases (p ∷ []) = inl (inl (omega arith), unfold from_nptp in ground arith)
  from_nptp-cases (p ∷ q ∷ []) = inl (inl (omega arith), unfold from_nptp in ground arith)
  from_nptp-cases (p ∷ q ∷ r ∷ []) = inl (inl (omega arith), unfold from_nptp in ground arith)
  from_nptp-cases (p ∷ q ∷ r ∷ t ∷ []) = inl (inl (omega arith), unfold from_nptp in ground arith)
  from_nptp-cases (p ∷ q ∷ r ∷ t ∷ version ∷ body) =
      let header = p ∷ q ∷ r ∷ t ∷ [] in
      elim (Bool-cases (eq_bytes header nptp_magic)) [
        | inl same ↦
            let whole : p ∷ q ∷ r ∷ t ∷ version ∷ body ≡ nptp_magic ++ version ∷ body =
              ap (λ h. h ++ version ∷ body) ((eq_bytes_iff header nptp_magic).0 same) in
            inr (version, body, whole, ap from_nptp whole ∙ from_nptp_header version body)
        | inr other ↦ inl (
          inr (λ e. cc (other, (eq_bytes_iff header nptp_magic).1 e)),
          unfold from_nptp in ground (arith, other),
        )
      ]

module _ (hex_codec : Hex) where
  unfoldable pub uri : Manifest → Bytes
  uri m = uri_scheme ++ b':' ∷ hex_codec.encode m.root

  -- `Manifest::root_from_uri`
  unfoldable pub root_from_uri : Bytes → Result ManifestError Hash
  root_from_uri link = do
    rest ← ok_or (strip_prefix uri_scheme link) bad_uri
    digits ← ok_or (strip_prefix (codes ":") rest) bad_uri
    ok_or (hex_codec.decode digits) hex

  strip_prefix-append : (prefix s : Bytes) → strip_prefix prefix (prefix ++ s) ≡ some s
  unfolding strip_prefix
  strip_prefix-append prefix s = rw (
    take-append_length (Prelude.length prefix) prefix s refl,
    drop-append_length (Prelude.length prefix) prefix s refl,
    eq_bytes_refl prefix,
  )

  -- A manifest's link leads back to its root.
  pub root_from_uri-uri : (m : Manifest) → IsHash m.root → root_from_uri (uri m) ≡ ok m.root
  unfolding root_from_uri uri
  root_from_uri-uri m h = rw (strip_prefix-append uri_scheme (b':' ∷ hex_codec.encode m.root)) (
      rw (strip_prefix-append (codes ":") (hex_codec.encode m.root))
        (rw (hex_codec.decode-encode m.root h)))
