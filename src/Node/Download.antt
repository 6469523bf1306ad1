-- ===== src/Node/Download.antt =====
-- What a download does to the local store.
use np2ptp.Prelude.{
  ℕ, suc, ◌+◌, ◌≤◌, ◌≡◌, refl, sym, ap, ◌∙◌, Option, none, some, List, [], ◌∷◌, ◌++◌, append_assoc,
  length, length-append, get_elem?, get_elem?-append_length, true, Bool-cases, or_true, ◌⊎◌, inl,
  inr, All, Bytes, eq_bytes, eq_bytes_iff, Result, ok, err, arith,
}
use np2ptp.Prelude.Runs.{Run, lift, carry, ◌>>=◌}
use np2ptp.Core.Hash.{Hash, IsHash}
use np2ptp.Core.Manifest.{ChunkRef, Manifest, root_is_consistent, chunk_hash_ok}
use np2ptp.Core.Manifest.Container.{Hex}
use np2ptp.Store.Text.{u32_max}
use np2ptp.Store.Text.RoundTrip.{Word}
use np2ptp.Store.Intact.{synced}
use np2ptp.Store.Sound.{Sound, holds, Sound-synced, has-holds}
use np2ptp.Store.Sound.Adds.{put_lem}
use np2ptp.Store.Sound.Room.{Room, Room-Fits, Room-less, put-Room}
use np2ptp.Store.{World}
use np2ptp.Node.{
  NodeError, DownloadReport, ChunkSource, bad_chunk, accept_chunk, keep_chunk, fetch_chunk,
  download_chunk, download_chunks, download,
}

abbrev pub handled : DownloadReport → ℕ
handled report = report.fetched + report.deduped

module _ (blake3 : Bytes → Bytes) where
  pub chunk_hash_ok-hash :
      (m : Manifest) (front cs : List ChunkRef) (c : ChunkRef) (bytes : Bytes)
      → m.chunks ≡ front ++ c ∷ cs
      → chunk_hash_ok blake3 m (length front) bytes ≡ true
      → blake3 bytes ≡ c.hash
  unfolding chunk_hash_ok
  chunk_hash_ok-hash m front cs c bytes e h =
      let here : get_elem? m.chunks (length front) ≡ some c =
        ap (λ l. get_elem? l (length front)) e ∙ get_elem?-append_length front c cs in
      let same : chunk_hash_ok blake3 m (length front) bytes ≡ eq_bytes (blake3 bytes) c.hash =
        rw (here, chunk_hash_ok) in
      (eq_bytes_iff (blake3 bytes) c.hash).0 (sym same ∙ h)

module _ {X A B : Type 0} {E : Type 0} (P : Result E B × X → Type 0) (f : A → Run X E B) where
  carry_ok : (r : Result E A) (x : X) (a : A) → r ≡ ok a → P (f a x) → P (carry r f x)
  carry_ok (ok b) x a e h = let same : b ≡ a = cc e in rw same h
  carry_ok (err y) x a e h = cc e

  carry_err : (r : Result E A) (x : X) (y : E) → r ≡ err y → P (err y, x) → P (carry r f x)
  carry_err (ok b) x y e h = cc e
  carry_err (err z) x y e h = let same : z ≡ y = cc e in rw same h

module _ (hex : Hex) (plain : (h : Hash) → Word (hex.encode h)) (blake3 : Bytes → Bytes)
    (digest : (content : Bytes) → IsHash (blake3 content)) {S : Type 0} (fetch : ChunkSource S)
    (small : (h : Hash) (s : S) (bytes : Bytes)
      → (fetch h s).0 ≡ ok (some bytes)
      → length bytes ≤ u32_max) where
  -- The store is undamaged and has lost nothing.
  abbrev pub Kept : World → World → Type 0
  Kept w w' =
      Sound hex blake3 w'
      × ((k : Hash) → holds hex blake3 w k ≡ true → holds hex blake3 w' k ≡ true)

  -- The run succeeded with so many more chunks handled and these chunks held, or it failed.
  abbrev pub Held :
      List ChunkRef → DownloadReport → World → Result NodeError DownloadReport → Type 0
  Held cs before w r =
      ((report : DownloadReport) × (r ≡ ok report)
        × (handled report ≡ handled before + length cs)
        × All (λ (c : ChunkRef). holds hex blake3 w c.hash ≡ true) cs)
      ⊎ ((e : NodeError) × (r ≡ err e))

  -- One round, with room left for `count` more chunks.
  abbrev Round :
      ℕ → ChunkRef → DownloadReport → World → Result NodeError DownloadReport × (World × S) → Type 0
  Round count c before w (r, (w', s')) = Kept w w' × Room count w' × Held (c ∷ []) before w' r

  fetch_chunk-Round :
      (m : Manifest) (front cs : List ChunkRef) (c : ChunkRef) (report : DownloadReport) (count : ℕ)
      (w : World) (s : S)
      → m.chunks ≡ front ++ c ∷ cs
      → Sound hex blake3 w
      → Room (suc count) w
      → Round count c report w (fetch_chunk hex blake3 fetch m (length front) c report (w, s))
  unfolding fetch_chunk
  fetch_chunk-Round m front cs c report count w s e sound room = answered (fetch c.hash s).0 refl
    where
      failed : (x : NodeError) (s' : S) → Round count c report w (err x, (w, s'))
      failed x s' = ((sound, λ k h. h), Room-less count w room, inr (x, refl))

      kept :
          (bytes : Bytes) (s' : S)
          → length bytes ≤ u32_max
          → blake3 bytes ≡ c.hash
          → Round count c report w (keep_chunk hex blake3 fetch report bytes (w, s'))
      kept bytes s' fits hashed =
          let enough = Room-Fits count w bytes fits room in
          let (w', e, sound', held) = put_lem hex plain blake3 digest w bytes c.hash sound enough in
          let here : holds hex blake3 w' c.hash ≡ true =
            held ∙ rw ((eq_bytes_iff (blake3 bytes) c.hash).1 hashed) in
          (
            (
              rw e sound',
              λ k h.
                  let (v, e', _, held') = put_lem hex plain blake3 digest w bytes k sound enough in
                  rw e' (held' ∙ rw h (or_true (eq_bytes (blake3 bytes) k))),
            ),
            put-Room hex plain blake3 digest count w bytes sound fits room,
            inl (
              record report { fetched = suc report.fetched },
              refl,
              omega arith,
              (rw e here, tt),
            ),
          )

      answered :
          (answer : Result NodeError (Option Bytes))
          → (fetch c.hash s).0 ≡ answer
          → Round count c report w (
              carry answer
                (λ o.
                  lift (accept_chunk hex blake3 fetch m (length front) c.hash o)
                  >>= keep_chunk hex blake3 fetch report)
                (w, (fetch c.hash s).1))
      answered (err x) got = failed x (fetch c.hash s).1
      answered (ok none) got = failed (np2ptp.Node.missing_chunk c.hash) (fetch c.hash s).1
      answered (ok (some bytes)) got =
          elim (Bool-cases (chunk_hash_ok blake3 m (length front) bytes)) [
            | inl good ↦
                (rw good (
                  kept bytes (fetch c.hash s).1 (small c.hash s bytes got)
                    (chunk_hash_ok-hash blake3 m front cs c bytes e good)))
            | inr bad ↦ (rw bad (failed (bad_chunk (length front)) (fetch c.hash s).1))
          ]

  download_chunk-Round :
      (m : Manifest) (front cs : List ChunkRef) (c : ChunkRef) (report : DownloadReport) (count : ℕ)
      (w : World) (s : S)
      → m.chunks ≡ front ++ c ∷ cs
      → Sound hex blake3 w
      → Room (suc count) w
      → Round count c report w (download_chunk hex blake3 fetch m (length front) c report (w, s))
  unfolding download_chunk
  download_chunk-Round m front cs c report count w s e sound room =
      elim (has-holds hex blake3 w c.hash sound) [
        | inl (_, answered, held) ↦ (rw answered (found w sound (λ k h. h) room held))
        | inr (_, answered) ↦ elim (Bool-cases (holds hex blake3 w c.hash)) [
          | inl held ↦
              (rw (answered, held)
                (found (synced hex w) (Sound-synced hex blake3 w sound) (λ k h. h) room held))
          | inr fresh ↦
              (rw (answered, fresh)
                (fetch_chunk-Round m front cs c report count (synced hex w) s e
                  (Sound-synced hex blake3 w sound) room))
        ]
      ]
    where
      found :
          (v : World)
          → Sound hex blake3 v
          → ((k : Hash) → holds hex blake3 w k ≡ true → holds hex blake3 v k ≡ true)
          → Room (suc count) v
          → holds hex blake3 v c.hash ≡ true
          → Round count c report w (ok (record report { deduped = suc report.deduped }), (v, s))
      found v sound' mono room' held = (
        (sound', mono),
        Room-less count v room',
        inl (record report { deduped = suc report.deduped }, refl, omega arith, (held, tt)),
      )

  abbrev Done :
      List ChunkRef
      → DownloadReport
      → World
      → Result NodeError DownloadReport × (World × S)
      → Type 0
  Done cs before w (r, (w', s')) = Kept w w' × Held cs before w' r

  download_chunks-Done :
      (m : Manifest) (front cs : List ChunkRef) (index : ℕ) (report : DownloadReport) (w : World)
      (s : S)
      → m.chunks ≡ front ++ cs
      → length front ≡ index
      → Sound hex blake3 w
      → Room (length cs) w
      → Done cs report w (download_chunks hex blake3 fetch m index cs report (w, s))
  unfolding download_chunks
  download_chunks-Done m front [] index report w s e i sound room =
      ((sound, λ k h. h), inl (report, refl, omega arith, tt))
  download_chunks-Done m front (c ∷ cs) index report w s e i sound room =
      let step = download_chunk hex blake3 fetch m index c report (w, s) in
      let round : Round (length cs) c report w step =
        rw i at (download_chunk-Round m front cs c report (length cs) w s e sound room) in
      let ((sound', mono), room', held) = round in
      let go_on = download_chunks hex blake3 fetch m (suc index) cs in
      elim held [
        | inr (x, failed) ↦
            carry_err (Done (c ∷ cs) report w) go_on step.0 step.1 x failed
              ((sound', mono), inr (x, refl))
        | inl (report', done, sum, (there, _)) ↦
            let ((sound'', mono'), after) =
              download_chunks-Done m (front ++ c ∷ []) cs (suc index) report' step.1.0 step.1.1
                (e ∙ sym (append_assoc front (c ∷ []) cs))
                (omega (arith, i, length-append front (c ∷ []))) sound' room' in
            carry_ok (Done (c ∷ cs) report w) go_on step.0 step.1 report' done (
              (sound'', λ k h. mono' k (mono k h)),
              elim after [
                | inr (x, failed) ↦ inr (x, failed)
                | inl (report'', done', sum', all) ↦
                    inl (report'', done', omega (arith, sum, sum'), (mono' c.hash there, all))
              ],
            )
      ]

  -- A download into an undamaged store with room for the manifest's chunks, whatever the source
  -- answers in chunks of less than 4 GiB, leaves the store undamaged and without a loss. If it
  -- succeeds, the chunks that it counted as fetched or there already are as many as the manifest has,
  -- the store holds every one of them, and their hashes have the manifest's root; else it returns an
  -- error.
  pub download_lem :
      (m : Manifest) (w : World) (s : S)
      → Sound hex blake3 w
      → Room (length m.chunks) w
      → Kept w (download hex blake3 fetch m (w, s)).1.0
        × (((report : DownloadReport) × ((download hex blake3 fetch m (w, s)).0 ≡ ok report)
              × (handled report ≡ length m.chunks)
              × All
                  (λ (c : ChunkRef).
                    holds hex blake3 (download hex blake3 fetch m (w, s)).1.0 c.hash ≡ true)
                  m.chunks
              × (root_is_consistent blake3 m ≡ true))
            ⊎ ((e : NodeError) × ((download hex blake3 fetch m (w, s)).0 ≡ err e)))
  unfolding download
  download_lem m w s sound room = elim (Bool-cases (root_is_consistent blake3 m)) [
    | inr bad ↦ (rw bad ((sound, λ k h. h), inr (bad_chunk 0, refl)))
    | inl good ↦
        let none_yet : DownloadReport = record { fetched = 0; deduped = 0 } in
        let (kept, held) = download_chunks-Done m [] m.chunks 0 none_yet w s refl refl sound room in
        (rw good (
          kept,
          elim held [
            | inr failed ↦ inr failed
            | inl (report, done, sum, all) ↦ inl (report, done, omega (arith, sum), all, refl)
          ],
        ))
  ]
