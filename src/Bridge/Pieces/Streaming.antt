-- ===== src/Bridge/Pieces/Streaming.antt =====
-- crates/np2ptp-bridge/src/streaming.rs: the verifier that is fed a file's bytes window by window. A
-- file is what `File::open` and the `read`s after it return; an empty read is the end of the file.
use np2ptp.Prelude.{
  ℕ, zero, suc, ◌-◌, min, List, [], ◌∷◌, ◌++◌, take, drop, length, get_elem?, ok_or, ◌==◌,
  if◌then◌else◌, Bytes, codes, eq_bytes, Result, ok, err, ◌>>=◌,
}
use np2ptp.Bridge.Pieces.{BridgeError, piece_verification_failed, source}

pub record StreamingPieceVerifier : Type 0 where
  pub piece_length : ℕ
  pub piece_hashes : List Bytes
  pub buf : Bytes
  pub next_piece : ℕ

unfoldable pub new : ℕ → List Bytes → StreamingPieceVerifier
new piece_length piece_hashes = record {
  piece_length = piece_length;
  piece_hashes = piece_hashes;
  buf = [];
  next_piece = 0;
}

-- `format!("{name}: {e}")`
abbrev pub message : Bytes → Bytes → Bytes
message name e = name ++ codes ": " ++ e

module _ {NetError StoreError : Type 0} (sha1 : Bytes → Bytes) where
  unfoldable pub hash_and_check :
      StreamingPieceVerifier → Result (BridgeError NetError StoreError) StreamingPieceVerifier
  hash_and_check v = do
    expected ← ok_or (get_elem? v.piece_hashes v.next_piece) piece_verification_failed
    if eq_bytes (sha1 v.buf) expected
        then ok (record v { buf = []; next_piece = suc v.next_piece })
        else err piece_verification_failed

  -- One round of the loop of `feed`: what is left of the data, and the verifier after it.
  unfoldable pub feed_round :
      StreamingPieceVerifier
      → Bytes
      → Result (BridgeError NetError StoreError) (StreamingPieceVerifier × Bytes)
  feed_round v content =
      let need = v.piece_length - length v.buf in
      let taken = min need (length content) in
      let filled : StreamingPieceVerifier = record v { buf = v.buf ++ take taken content } in
      let rest = drop taken content in
      if length filled.buf == v.piece_length
      then (hash_and_check filled >>= λ v'. ok (v', rest))
      else ok (filled, rest)

  -- The loop of `feed`, on fuel.
  unfoldable pub feed_rounds :
      ℕ
      → StreamingPieceVerifier
      → Bytes
      → Result (BridgeError NetError StoreError) StreamingPieceVerifier
  feed_rounds fuel v [] = ok v
  feed_rounds zero v (b ∷ bs) = ok v
  feed_rounds (suc fuel) v (b ∷ bs) =
      feed_round v (b ∷ bs) >>= λ (v', rest). feed_rounds fuel v' rest

  -- While the buffer holds less than a piece each round takes a byte or more.
  unfoldable pub feed :
      StreamingPieceVerifier
      → Bytes
      → Result (BridgeError NetError StoreError) StreamingPieceVerifier
  feed v content = feed_rounds (length content) v content

  abbrev pub flush :
      StreamingPieceVerifier → Result (BridgeError NetError StoreError) StreamingPieceVerifier
  flush v = if length v.buf == 0 then ok v else hash_and_check v

  unfoldable pub finish :
      StreamingPieceVerifier → Result (BridgeError NetError StoreError) (Unit {0})
  finish v = do
    v' ← flush v
    if v'.next_piece == length v'.piece_hashes then ok tt else err piece_verification_failed

  -- The loop over the `read`s of one open file.
  unfoldable pub feed_reads :
      Bytes
      → StreamingPieceVerifier
      → List (Result Bytes Bytes)
      → Result (BridgeError NetError StoreError) StreamingPieceVerifier
  feed_reads name v [] = ok v
  feed_reads name v (err e ∷ reads) = err (source (message name e))
  feed_reads name v (ok [] ∷ reads) = ok v
  feed_reads name v (ok (b ∷ bs) ∷ reads) = do v' ← feed v (b ∷ bs); feed_reads name v' reads

  -- The loop over the files, each opened as it is reached.
  unfoldable pub feed_files :
      StreamingPieceVerifier
      → List (Bytes × Result Bytes (List (Result Bytes Bytes)))
      → Result (BridgeError NetError StoreError) StreamingPieceVerifier
  feed_files v [] = ok v
  feed_files v ((name, err e) ∷ files) = err (source (message name e))
  feed_files v ((name, ok reads) ∷ files) = do v' ← feed_reads name v reads; feed_files v' files

  unfoldable pub verify_pieces_streaming :
      List (Bytes × Result Bytes (List (Result Bytes Bytes)))
      → ℕ
      → List Bytes
      → Result (BridgeError NetError StoreError) (Unit {0})
  verify_pieces_streaming files zero piece_hashes = err piece_verification_failed
  verify_pieces_streaming files (suc n) piece_hashes = do
    v ← feed_files (new (suc n) piece_hashes) files
    finish v
