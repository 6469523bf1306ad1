-- ===== src/Bridge/Pieces/Tests.antt =====
-- Runs of the two verifiers, with a checksum for SHA-1, and the properties at concrete inputs.
use np2ptp.Prelude.{
  ℕ, ◌+◌, ◌*◌, ◌≡◌, refl, List, [], ◌∷◌, if◌then◌else◌, Bytes, codes, eq_bytes, Result, ok, err,
  arith,
}
use np2ptp.Bridge.Pieces.{piece_verification_failed, source, verify_pieces, concatenate}
use np2ptp.Bridge.Pieces.Streaming.{
  new, hash_and_check, feed_round, feed_rounds, feed, feed_reads, feed_files, finish,
  verify_pieces_streaming,
}
use np2ptp.Bridge.Pieces.Reference.{has_pieces, verify_pieces-has_pieces}
use np2ptp.Bridge.Pieces.Agreement.{read_all, load, verify_pieces_streaming-verify_pieces}

abbrev sum : Bytes → ℕ
sum [] = 1
sum (b ∷ bs) = b + 3 * sum bs

abbrev digest : Bytes → Bytes
digest content = sum content ∷ []

-- Two files of five bytes in windows, in pieces of four bytes.
abbrev opened : List (Bytes × Result Bytes (List (Result Bytes Bytes)))
opened =
    (codes "a", ok (ok (codes "he") ∷ ok (codes "llo") ∷ ok [] ∷ []))
    ∷ (codes "b", ok (ok (codes "world") ∷ []))
    ∷ []

abbrev read : List (Bytes × Bytes)
read = (codes "a", codes "hello") ∷ (codes "b", codes "world") ∷ []

abbrev pieces : List Bytes
pieces = digest (codes "hell") ∷ digest (codes "owor") ∷ digest (codes "ld") ∷ []

streamed :
    verify_pieces_streaming {NetError = Bytes} {StoreError = Bytes} digest opened 4 pieces ≡ ok tt
unfolding verify_pieces_streaming feed_files feed_reads feed feed_rounds feed_round hash_and_check
    finish new eq_bytes
streamed = refl

too_few :
    verify_pieces_streaming {NetError = Bytes} {StoreError = Bytes} digest opened 4
      (digest (codes "hell") ∷ [])
    ≡ err piece_verification_failed
unfolding verify_pieces_streaming feed_files feed_reads feed feed_rounds feed_round hash_and_check
    finish new eq_bytes
too_few = refl

unreadable :
    verify_pieces_streaming {NetError = Bytes} {StoreError = Bytes} digest
      ((codes "a", err (codes "denied")) ∷ opened)
      4
      pieces
    ≡ err (source (codes "a: denied"))
unfolding verify_pieces_streaming feed_files
unreadable = refl

verify_pieces_streaming-verify_pieces_example :
    verify_pieces_streaming {NetError = Bytes} {StoreError = Bytes} digest opened 4 pieces
    ≡ (if verify_pieces digest read 4 pieces then ok tt else err piece_verification_failed)
unfolding load read_all
verify_pieces_streaming-verify_pieces_example =
    verify_pieces_streaming-verify_pieces Bytes Bytes digest opened read 4 pieces refl

verify_pieces-has_pieces_example :
    verify_pieces digest read 4 pieces ≡ has_pieces digest 4 pieces (concatenate read)
verify_pieces-has_pieces_example = verify_pieces-has_pieces digest read 4 pieces (omega arith)
