-- ===== src/Bridge/Pieces/Agreement.antt =====
-- The streaming verifier answers as the one that has all bytes in memory.
use np2ptp.Prelude.{
  ℕ, zero, suc, ◌+◌, ◌-◌, ◌≤◌, ◌<◌, ◌≡◌, refl, sym, ap, ◌∙◌, min, none, some, List, [], ◌∷◌, ◌++◌,
  append_assoc, append-nil, take, drop, length, get_elem?, length-append, length-take, get_elem?-lt,
  take-of_length, drop-of_length, length-drop, take-append-drop, take-append_length,
  drop-append_length, ◌==◌, ◌&&◌, Bool, false, Bool-cases, Option-cases, if◌then◌else◌, inl, inr,
  Bytes, eq_bytes, Result, ok, err, ◌>>=◌, bind-eq-ok, arith,
}
use np2ptp.Bridge.Pieces.{BridgeError, piece_verification_failed, concatenate, verify_pieces}
use np2ptp.Bridge.Pieces.Reference.{has_pieces, verify_pieces-has_pieces}
use np2ptp.Bridge.Pieces.Streaming.{
  StreamingPieceVerifier, new, hash_and_check, feed_round, feed_rounds, feed, finish, feed_reads,
  feed_files, verify_pieces_streaming,
}

-- All bytes of an open file, or its first error.
unfoldable pub read_all : List (Result Bytes Bytes) → Result Bytes Bytes
read_all [] = ok []
read_all (err e ∷ reads) = err e
read_all (ok [] ∷ reads) = ok []
read_all (ok (b ∷ bs) ∷ reads) = do rest ← read_all reads; ok ((b ∷ bs) ++ rest)

-- The files as the in-memory code has them.
unfoldable pub load :
    List (Bytes × Result Bytes (List (Result Bytes Bytes))) → Result Bytes (List (Bytes × Bytes))
load [] = ok []
load ((name, opened) ∷ files) = do
  reads ← opened
  bytes ← read_all reads
  rest ← load files
  ok ((name, bytes) ∷ rest)

abbrev the_empty {ℓ} : {A : Type ℓ} → Result Bytes (List A)
the_empty = ok []

filled : (n : ℕ) → (suc n == 0) ≡ false
filled n = ground arith

module _ (sha1 : Bytes → Bytes) where
  -- Whether the pieces from `next_piece` on are those of the buffer and the bytes still to come.
  unfoldable pub verdict : StreamingPieceVerifier → Bytes → Bool
  verdict v rest = has_pieces sha1 v.piece_length (drop v.next_piece v.piece_hashes) (v.buf ++ rest)

  abbrev Ready : StreamingPieceVerifier → Type 0
  Ready v = (length v.buf < v.piece_length) × (v.next_piece ≤ length v.piece_hashes)

  get_elem?-bound :
      (hs : List Bytes) (i : ℕ) (h : Bytes) → get_elem? hs i ≡ some h → suc i ≤ length hs
  get_elem?-bound hs i h e = omega (arith, get_elem?-lt hs i h e)

  drop-get_elem? :
      (hs : List Bytes) (i : ℕ) (h : Bytes)
      → get_elem? hs i ≡ some h
      → drop i hs ≡ h ∷ drop (suc i) hs
  drop-get_elem? [] i h e = cc
  drop-get_elem? (x ∷ hs) zero h e = cc
  drop-get_elem? (x ∷ hs) (suc i) h e = drop-get_elem? hs i h e

  drop-none : (hs : List Bytes) (i : ℕ) → get_elem? hs i ≡ none → drop i hs ≡ []
  drop-none [] zero e = refl
  drop-none [] (suc i) e = refl
  drop-none (x ∷ hs) zero e = cc
  drop-none (x ∷ hs) (suc i) e = drop-none hs i e

  has_pieces-full :
      (n : ℕ) (h : Bytes) (hs : List Bytes) (buf rest : Bytes)
      → length buf ≡ n
      → 0 < n
      → has_pieces sha1 n (h ∷ hs) (buf ++ rest)
        ≡ (eq_bytes (sha1 buf) h && has_pieces sha1 n hs rest)
  unfolding has_pieces
  has_pieces-full n h hs [] rest e p = absurd (omega arith)
  has_pieces-full n h hs (b ∷ bs) rest e p =
      rw (take-append_length n (b ∷ bs) rest e, drop-append_length n (b ∷ bs) rest e)

  has_pieces-none :
      (n : ℕ) (buf rest : Bytes) → 0 < length buf → has_pieces sha1 n [] (buf ++ rest) ≡ false
  unfolding has_pieces
  has_pieces-none n [] rest p = absurd (omega arith)
  has_pieces-none n (b ∷ bs) rest p = refl

  has_pieces-last :
      (n : ℕ) (h : Bytes) (hs : List Bytes) (buf : Bytes)
      → 0 < length buf
      → length buf < n
      → has_pieces sha1 n (h ∷ hs) (buf ++ []) ≡ (eq_bytes (sha1 buf) h && has_pieces sha1 n hs [])
  unfolding has_pieces
  has_pieces-last n h hs [] p q = absurd (omega arith)
  has_pieces-last n h hs (b ∷ bs) p q = rw (
    append-nil bs,
    take-of_length n (b ∷ bs) (omega arith),
    drop-of_length n (b ∷ bs) (omega arith),
  )

  -- With no byte left the verdict is that no piece is left.
  has_pieces-end :
      (n i : ℕ) (hs : List Bytes)
      → i ≤ length hs
      → has_pieces sha1 n (drop i hs) [] ≡ (i == length hs)
  unfolding has_pieces
  has_pieces-end n zero [] le = refl
  has_pieces-end n (suc i) [] le = absurd (omega arith)
  has_pieces-end n zero (h ∷ hs) le = ground arith
  has_pieces-end n (suc i) (h ∷ hs) le = ground (arith, has_pieces-end n i hs (omega arith))

  module _ (NetError StoreError : Type 0) where
    -- A step took the verifier with the verdict `before` on, or failed and the verdict is no.
    abbrev Follows :
        Bool → Bytes → Result (BridgeError NetError StoreError) StreamingPieceVerifier → Type 0
    Follows before rest (ok v) = Ready v × (before ≡ verdict v rest)
    Follows before rest (err e) = (e ≡ piece_verification_failed) × (before ≡ false)

    abbrev FollowsRound :
        Bool
        → Bytes
        → ℕ
        → Result (BridgeError NetError StoreError) (StreamingPieceVerifier × Bytes)
        → Type 0
    FollowsRound before rest n (ok (v, left)) =
        Ready v × (length left < n) × (before ≡ verdict v (left ++ rest))
    FollowsRound before rest n (err e) = (e ≡ piece_verification_failed) × (before ≡ false)

    hash_and_check-Follows :
        (v : StreamingPieceVerifier) (rest : Bytes)
        → length v.buf ≡ v.piece_length
        → 0 < v.piece_length
        → Follows (verdict v rest) rest (hash_and_check sha1 v)
    unfolding hash_and_check verdict
    hash_and_check-Follows v rest full p =
        elim (Option-cases (get_elem? v.piece_hashes v.next_piece)) [
          | inl e ↦
              rw (e, drop-none v.piece_hashes v.next_piece e)
                (refl, has_pieces-none v.piece_length v.buf rest (omega arith))
          | inr (h, e) ↦
              rw
                (
                  e,
                  drop-get_elem? v.piece_hashes v.next_piece h e,
                  has_pieces-full v.piece_length h (drop (suc v.next_piece) v.piece_hashes) v.buf
                      rest full p,
                )
                (elim (Bool-cases (eq_bytes (sha1 v.buf) h)) [
                  | inl same ↦ rw same ((p, get_elem?-bound v.piece_hashes v.next_piece h e), refl)
                  | inr other ↦ rw other (refl, refl)
                ])
        ]

    moved : StreamingPieceVerifier → ℕ → Bytes → StreamingPieceVerifier
    moved v k content = record v { buf = v.buf ++ take k content }

    verdict-moved :
        (v : StreamingPieceVerifier) (k : ℕ) (content rest : Bytes)
        → verdict v (content ++ rest) ≡ verdict (moved v k content) (drop k content ++ rest)
    unfolding verdict moved
    verdict-moved v k content rest =
        ap (λ b. has_pieces sha1 v.piece_length (drop v.next_piece v.piece_hashes) b)
          (ap (λ c. v.buf ++ (c ++ rest)) (sym (take-append-drop k content))
            ∙ regroup v.buf (take k content) (drop k content) rest)
      where
        regroup : (a b c d : Bytes) → a ++ ((b ++ c) ++ d) ≡ (a ++ b) ++ (c ++ d)
        regroup a b c d = simp append_assoc

    round_of :
        (before : Bool) (left rest : Bytes) (n : ℕ)
        (r : Result (BridgeError NetError StoreError) StreamingPieceVerifier)
        → length left < n
        → Follows before (left ++ rest) r
        → FollowsRound before rest n (r >>= λ v'. ok (v', left))
    round_of before left rest n (ok v) less (ready, e) = (ready, less, e)
    round_of before left rest n (err e) less f = f

    feed_round-Follows :
        (v : StreamingPieceVerifier) (content rest : Bytes)
        → Ready v
        → 0 < length content
        → FollowsRound
            (verdict v (content ++ rest))
            rest
            (length content)
            (feed_round sha1 v content)
    unfolding feed_round moved
    feed_round-Follows v content rest ready p =
        let k = min (v.piece_length - length v.buf) (length content) in
        let size : length (v.buf ++ take k content) ≡ length v.buf + k =
          omega (arith, length-append v.buf (take k content), length-take k content) in
        let less : length (drop k content) < length content =
          omega (arith, length-drop k content) in
        rw (verdict-moved v k content rest)
          (elim (Bool-cases (length (v.buf ++ take k content) == v.piece_length)) [
            | inl full ↦ rw full (
                round_of _ _ rest _ _ less (
                  hash_and_check-Follows (moved v k content) (drop k content ++ rest) (ground arith)
                    (omega arith)))
            | inr part ↦ rw part ((ground (arith, size), ready.1), less, refl)
          ])

    carry_round :
        (before : Bool) (rest : Bytes) (n : ℕ)
        (more : StreamingPieceVerifier
          → Bytes
          → Result (BridgeError NetError StoreError) StreamingPieceVerifier)
        → ((v : StreamingPieceVerifier) (left : Bytes)
            → length left < n
            → Ready v
            → Follows (verdict v (left ++ rest)) rest (more v left))
        → (r : Result (BridgeError NetError StoreError) (StreamingPieceVerifier × Bytes))
        → FollowsRound before rest n r
        → Follows before rest (r >>= λ (v, left). more v left)
    carry_round before rest n more next (ok (v, left)) (ready, less, e) =
        rw e (next v left less ready)
    carry_round before rest n more next (err e) f = f

    feed_rounds-Follows :
        (fuel : ℕ) (v : StreamingPieceVerifier) (content rest : Bytes)
        → length content ≤ fuel
        → Ready v
        → Follows (verdict v (content ++ rest)) rest (feed_rounds sha1 fuel v content)
    unfolding feed_rounds
    feed_rounds-Follows fuel v [] rest le ready = (ready, refl)
    feed_rounds-Follows zero v (b ∷ bs) rest le ready = absurd (omega arith)
    feed_rounds-Follows (suc fuel) v (b ∷ bs) rest le ready =
        carry_round _ rest (suc (length bs)) (feed_rounds sha1 fuel)
          (λ v' left less. feed_rounds-Follows fuel v' left rest (omega arith))
          (feed_round sha1 v (b ∷ bs)) (feed_round-Follows v (b ∷ bs) rest ready (omega arith))

    carry_on :
        (before : Bool) (mid rest : Bytes)
        (more : StreamingPieceVerifier
          → Result (BridgeError NetError StoreError) StreamingPieceVerifier)
        → ((v : StreamingPieceVerifier) → Ready v → Follows (verdict v mid) rest (more v))
        → (r : Result (BridgeError NetError StoreError) StreamingPieceVerifier)
        → Follows before mid r
        → Follows before rest (r >>= more)
    carry_on before mid rest more next (ok v) (ready, e) = rw e (next v ready)
    carry_on before mid rest more next (err e) f = f

    nothing_read :
        (v : StreamingPieceVerifier) (bytes rest : Bytes)
        → the_empty ≡ ok bytes
        → verdict v (bytes ++ rest) ≡ verdict v rest
    nothing_read v [] rest e = refl
    nothing_read v (b ∷ bs) rest e = cc e

    feed_reads-Follows :
        (name : Bytes) (v : StreamingPieceVerifier) (reads : List (Result Bytes Bytes))
        (bytes rest : Bytes)
        → read_all reads ≡ ok bytes
        → Ready v
        → Follows (verdict v (bytes ++ rest)) rest (feed_reads sha1 name v reads)
    unfolding feed_reads read_all feed
    feed_reads-Follows name v [] bytes rest e ready = (ready, nothing_read v bytes rest e)
    feed_reads-Follows name v (err x ∷ reads) bytes rest e ready = cc e
    feed_reads-Follows name v (ok [] ∷ reads) bytes rest e ready =
        (ready, nothing_read v bytes rest e)
    feed_reads-Follows name v (ok (b ∷ bs) ∷ reads) bytes rest e ready =
        let (later, e', last) = bind-eq-ok (read_all reads) _ e in
        let joined : bytes ≡ (b ∷ bs) ++ later = cc last in
        rw (joined, append_assoc (b ∷ bs) later rest)
          (carry_on _ (later ++ rest) rest (λ v'. feed_reads sha1 name v' reads)
            (λ v' ready'. feed_reads-Follows name v' reads later rest e' ready')
            (feed sha1 v (b ∷ bs))
            (feed_rounds-Follows _ v (b ∷ bs) (later ++ rest) (omega arith) ready))

    feed_files-Follows :
        (v : StreamingPieceVerifier)
        (files : List (Bytes × Result Bytes (List (Result Bytes Bytes))))
        (loaded : List (Bytes × Bytes))
        → load files ≡ ok loaded
        → Ready v
        → Follows (verdict v (concatenate loaded)) [] (feed_files sha1 v files)
    unfolding feed_files load concatenate
    feed_files-Follows v [] loaded e ready =
        (ready, ap (λ l. verdict v (concatenate l)) (no_file loaded e))
      where
        no_file : (l : List (Bytes × Bytes)) → the_empty ≡ ok l → l ≡ []
        no_file l p = cc
    feed_files-Follows v ((name, err x) ∷ files) loaded e ready = cc e
    feed_files-Follows v ((name, ok reads) ∷ files) loaded e ready =
        let (bytes, read, e') = bind-eq-ok (read_all reads) _ e in
        let (later, loads, last) = bind-eq-ok (load files) _ e' in
        let joined : loaded ≡ (name, bytes) ∷ later = cc last in
        rw joined (
          carry_on _ (concatenate later) [] (λ v'. feed_files sha1 v' files)
            (λ v' ready'. feed_files-Follows v' files later loads ready')
            (feed_reads sha1 name v reads)
            (feed_reads-Follows name v reads bytes (concatenate later) read ready))

    abbrev held : ℕ → List Bytes → Bytes → ℕ → StreamingPieceVerifier
    held n hs buf i = record { piece_length = n; piece_hashes = hs; buf = buf; next_piece = i }

    finish-held :
        (n : ℕ) (hs : List Bytes) (buf : Bytes) (i : ℕ)
        → length buf < n
        → i ≤ length hs
        → finish {NetError = NetError} {StoreError = StoreError} sha1 (held n hs buf i)
          ≡ (if verdict (held n hs buf i) [] then ok tt else err piece_verification_failed)
    unfolding finish verdict hash_and_check
    finish-held n hs [] i short within = rw (has_pieces-end n i hs within)
    finish-held n hs (b ∷ bs) i short within = elim (Option-cases (get_elem? hs i)) [
      | inl e ↦
          rw (filled (length bs), e, drop-none hs i e, has_pieces-none n (b ∷ bs) [] (omega arith))
      | inr (h, e) ↦
          rw
            (
              filled (length bs),
              e,
              drop-get_elem? hs i h e,
              has_pieces-last n h (drop (suc i) hs) (b ∷ bs) (omega arith) short,
              has_pieces-end n (suc i) hs (get_elem?-bound hs i h e),
            )
            (elim (Bool-cases (eq_bytes (sha1 (b ∷ bs)) h)) [
              | inl same ↦ rw same
              | inr other ↦ rw other
            ])
    ]

    finish-verdict :
        (v : StreamingPieceVerifier)
        → Ready v
        → finish {NetError = NetError} {StoreError = StoreError} sha1 v
          ≡ (if verdict v [] then ok tt else err piece_verification_failed)
    finish-verdict v (short, within) =
        finish-held v.piece_length v.piece_hashes v.buf v.next_piece short within

    closing :
        (before : Bool) (r : Result (BridgeError NetError StoreError) StreamingPieceVerifier)
        → Follows before [] r
        → (r >>= λ v. finish sha1 v) ≡ (if before then ok tt else err piece_verification_failed)
    closing before (ok v) (ready, e) = rw e (finish-verdict v ready)
    closing before (err e) (failed, refused) = rw (failed, refused)

-- For files that open and read without an error, `verify_pieces_streaming` returns Ok where
-- `verify_pieces` on the bytes read answers true, and PieceVerificationFailed where it answers
-- false, however the reads cut the files into windows and wherever a piece crosses from one file to
-- the next.
pub verify_pieces_streaming-verify_pieces :
    (NetError StoreError : Type 0) (sha1 : Bytes → Bytes)
    (files : List (Bytes × Result Bytes (List (Result Bytes Bytes))))
    (loaded : List (Bytes × Bytes)) (piece_length : ℕ) (piece_hashes : List Bytes)
    → load files ≡ ok loaded
    → verify_pieces_streaming {NetError = NetError} {StoreError = StoreError} sha1 files
        piece_length piece_hashes
      ≡ (if verify_pieces sha1 loaded piece_length piece_hashes
          then ok tt
          else err piece_verification_failed)
unfolding verify_pieces_streaming verify_pieces verdict new
verify_pieces_streaming-verify_pieces N S sha1 files loaded zero hashes e = refl
verify_pieces_streaming-verify_pieces N S sha1 files loaded (suc n) hashes e =
    rw (verify_pieces-has_pieces sha1 loaded (suc n) hashes (omega arith)) (
      closing sha1 N S _ (feed_files sha1 (new (suc n) hashes) files) (
        feed_files-Follows sha1 N S (new (suc n) hashes) files loaded e (omega arith, omega arith)))
