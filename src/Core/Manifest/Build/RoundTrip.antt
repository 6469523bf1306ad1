-- ===== src/Core/Manifest/Build/RoundTrip.antt =====
-- What `from_files` took apart, `reconstruct_files` puts together again.
use np2ptp.Prelude.{
  ℕ, suc, ◌+◌, ◌≤◌, ◌≡◌, refl, ap, sym, ◌∙◌, List, [], ◌∷◌, ◌++◌, append_assoc, append-nil,
  length-append, length-map, arith, Bytes, u64_max, ok, Option, some, true, ◌&&◌, get_elem?,
  get_elem?-append_length, eq_bytes_refl, ==_iff, All,
}
use np2ptp.Prelude
use np2ptp.Prelude.Runs.{pure, bind-of_ok}
use np2ptp.Core.Hash.{Hash}
use np2ptp.Core.Chunk.{Cdc, ChunkSpan, chunk, slice}
use np2ptp.Core.Chunk.Cover.{chunk-Covers, joined_spans, IsHashed}
use np2ptp.Core.Manifest.{ChunkRef, Manifest, u64, root_is_consistent, chunk_hash_ok, verify_chunk}
use np2ptp.Core.Manifest.Checks.{verify_chunk_cheap}
use np2ptp.Core.Manifest.Build.{rebase, from_files}
use np2ptp.Core.Manifest.Build.Shape.{
  total_length, rebased, chunks_of, entries_of, from_files-parts,
}
use np2ptp.Core.Manifest.Build.Valid.{validate-from_files}
use np2ptp.Core.Manifest.Reconstruct.{accept, pull, gather_range, gather_files, reconstruct_files}

module _ (blake3 : Bytes → Bytes) (cdc : Cdc) {S : Type 0}
    (fetch : Hash → S → Option Bytes × S) where
  -- In every state `fetch` has the bytes of a span under the span's digest.
  abbrev pub Serves : Bytes → ChunkSpan → Type 0
  Serves content span =
      (s : S) → (fetch span.hash s).0 ≡ some (slice content span.offset span.length)

  -- `fetch` has every chunk of the files.
  abbrev pub ServesAll : List (Bytes × Bytes) → Type 0
  ServesAll = All (λ f. All (Serves f.1) (chunk blake3 cdc f.1))

  pull-accepts :
      (m : Manifest) (index : ℕ) (c : ChunkRef) (bytes : Bytes) (s : S)
      → root_is_consistent blake3 m ≡ true
      → get_elem? m.chunks index ≡ some c
      → c.hash ≡ blake3 bytes
      → (fetch c.hash s).0 ≡ some bytes
      → pull blake3 fetch m index c s ≡ (ok bytes, (fetch c.hash s).1)
  unfolding pull accept chunk_hash_ok
  pull-accepts m index c bytes s root e hash f =
      let verified : verify_chunk blake3 m index bytes ≡ true =
        verify_chunk_cheap blake3 m index bytes ∙ ground (arith, eq_bytes_refl (blake3 bytes)) in
      rw f (rw verified refl)

  gather_range-accepts :
      (m : Manifest) (content : Bytes) (g index : ℕ) (before after : List ChunkRef)
      (spans : List ChunkSpan) (out : Bytes) (s : S)
      → root_is_consistent blake3 m ≡ true
      → m.chunks ≡ before ++ (rebased g spans ++ after)
      → Prelude.length before ≡ index
      → All (IsHashed blake3 content) spans
      → All (Serves content) spans
      → (s' : S) × (gather_range blake3 fetch m index (Prelude.length spans) out s
          ≡ (ok (out ++ joined_spans content spans), s'))
  unfolding gather_range
  gather_range-accepts m content g index before after [] out s root e k hs fs =
      (s, rw (append-nil out))
  gather_range-accepts m content g index before after (span ∷ spans) out s root e k (h, hs)
        (f, fs) =
      let c = rebase g span in
      let found : get_elem? m.chunks index ≡ some c =
        rw (e, ← k) (get_elem?-append_length before c (rebased g spans ++ after)) in
      let bytes = slice content span.offset span.length in
      let (s', rest) =
        gather_range-accepts m content g (suc index) (before ++ c ∷ []) after spans (out ++ bytes)
          (fetch span.hash s).1 root
          (e ∙ sym (append_assoc before (c ∷ []) (rebased g spans ++ after)))
          (omega (arith, length-append before (c ∷ []))) hs fs in
      (
        s',
        rw (
          found,
          pull-accepts m index c bytes s root found h (f s),
          rest,
          append_assoc out bytes (joined_spans content spans),
        ),
      )

  gather_files-accepts :
      (m : Manifest) (g start : ℕ) (before : List ChunkRef) (files : List (Bytes × Bytes)) (s : S)
      → root_is_consistent blake3 m ≡ true
      → m.chunks ≡ before ++ chunks_of blake3 cdc g files
      → Prelude.length before ≡ start
      → ServesAll files
      → (gather_files blake3 fetch m (entries_of blake3 cdc start files) s).0 ≡ ok files
  unfolding gather_files
  gather_files-accepts m g start before [] s root e k fs = refl
  gather_files-accepts m g start before ((path, content) ∷ files) s root e k (f, fs) =
      let spans = chunk blake3 cdc content in
      let cover = chunk-Covers blake3 cdc content in
      let (s', got) =
        gather_range-accepts m content g start before
          (chunks_of blake3 cdc (u64 (g + Prelude.length content)) files) spans [] s root e k
          cover.hashed f in
      let later =
        gather_files-accepts m (u64 (g + Prelude.length content)) (start + Prelude.length spans)
          (before ++ rebased g spans) files s' root
          (e
            ∙ sym (
                append_assoc before (rebased g spans)
                  (chunks_of blake3 cdc (u64 (g + Prelude.length content)) files)))
          (omega (arith, length-append before (rebased g spans), length-map spans (rebase g))) fs in
      rw (got, cover.whole)
        (rw ((==_iff (Prelude.length content) (Prelude.length content)).1 refl) (
          bind-of_ok
            (gather_files blake3 fetch m
              (entries_of blake3 cdc (start + Prelude.length spans) files))
            (λ fs. pure ((path, content) ∷ fs)) s' files later))

  -- Files of fewer than 2 ^ 64 bytes in all come back unchanged, with their paths and in their
  -- order, from the manifest that `from_files` makes of them, if the source of chunks has every
  -- one of them.
  pub reconstruct_files-from_files :
      (files : List (Bytes × Bytes)) (name : Option Bytes) (s : S)
      → total_length files ≤ u64_max
      → ServesAll files
      → (reconstruct_files blake3 fetch (from_files blake3 cdc files name) s).0 ≡ ok files
  unfolding reconstruct_files
  reconstruct_files-from_files files name s h fs =
      let (chunks, entries, _, root) = from_files-parts blake3 cdc files name h in
      let m = from_files blake3 cdc files name in
      simp ((validate-from_files blake3 cdc files name h).0, entries)
        (gather_files-accepts m 0 0 [] files s root chunks refl fs)
