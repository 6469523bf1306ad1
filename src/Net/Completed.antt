-- ===== src/Net/Completed.antt =====
-- What a download from several providers does to the local store.
use mathlib.Core.List.{Permᴰ}
use mathlib.Core.List.Permᴰ
use np2ptp.Prelude.{
  ℕ, suc, ◌≤◌, ◌≡◌, refl, sym, ap, ◌∙◌, Option, none, some, List, [], ◌∷◌, ◌++◌, append_assoc,
  length, length-append, true, Bool-cases, ◌||◌, ◌⊎◌, inl, inr, All, Bytes, eq_bytes, eq_bytes_iff,
  or_true, ok, err, arith,
}
use np2ptp.Prelude.Arranged.{All-Permᴰ, length-Permᴰ}
use np2ptp.Core.Hash.{Hash, IsHash}
use np2ptp.Core.Manifest.{ChunkRef, Manifest}
use np2ptp.Core.Manifest.Container.{Hex}
use np2ptp.Store.Text.{u32_max}
use np2ptp.Store.Text.RoundTrip.{Word}
use np2ptp.Store.Intact.{synced}
use np2ptp.Store.Sound.{Sound, holds, Sound-synced, has-holds}
use np2ptp.Store.Sound.Adds.{put_lem}
use np2ptp.Store.Sound.Room.{Room, Room-Fits, Room-less, put-Room}
use np2ptp.Store.{World}
use np2ptp.Node.Download.{chunk_hash_ok-hash}
use np2ptp.Net.{PeerId, NetError}
use np2ptp.Net.Multi.{
  Answers, Arrival, fetch_missing, Drained, or_first, missing_from, take_in, drain, outcome,
  download_chunks,
}
use np2ptp.Net.Gathered.{
  Small, Placed, Arrived, fetch_missing-Small, length-fetch_missing, fetch_missing-Arrived,
}

module _ (hex : Hex) (plain : (h : Hash) → Word (hex.encode h)) (blake3 : Bytes → Bytes)
    (digest : (content : Bytes) → IsHash (blake3 content)) where
  abbrev Has : World → Hash → Type 0
  Has w h = holds hex blake3 w h ≡ true

  -- The store is undamaged and has lost nothing.
  abbrev pub Kept : World → World → Type 0
  Kept w w' = Sound hex blake3 w' × ((k : Hash) → Has w k → Has w' k)

  drain_failed :
      (rs : List Arrival) (d : Drained) (e : NetError)
      → d.first_failure ≡ some e
      → (drain hex blake3 rs d).first_failure ≡ some e
  unfolding drain
  drain_failed [] d e h = h
  drain_failed (ok (bytes, from) ∷ rs) d e h =
      drain_failed rs (take_in hex blake3 (ok (bytes, from)) d) e h
  drain_failed (err x ∷ rs) d e h =
      drain_failed rs (take_in hex blake3 (err x) d) e (ap (λ o. or_first o x) h)

  or_first-some :
      (o : Option NetError) (e : NetError) → (first : NetError) × (or_first o e ≡ some first)
  or_first-some none e = (e, refl)
  or_first-some (some first) e = (first, refl)

  drain_lem :
      (rs : List Arrival) (d : Drained)
      → Sound hex blake3 d.store
      → Room (length rs) d.store
      → All Small rs
      → Kept d.store (drain hex blake3 rs d).store
        × (((drain hex blake3 rs d).first_failure ≡ d.first_failure)
              × All (Arrived blake3 (Has (drain hex blake3 rs d).store)) rs
            ⊎ ((e : NetError) × ((drain hex blake3 rs d).first_failure ≡ some e)))
  unfolding drain
  drain_lem [] d sound room small = ((sound, λ k h. h), inl (refl, tt))
  drain_lem (err e ∷ rs) d sound room (_, small) =
      let (first, failed) = or_first-some d.first_failure e in
      let d' = take_in hex blake3 (err e) d in
      let (kept, _) = drain_lem rs d' sound (Room-less (length rs) d.store room) small in
      (kept, inr (first, drain_failed rs d' first failed))
  drain_lem (ok (bytes, from) ∷ rs) d sound room (fits, small) =
      let enough = Room-Fits (length rs) d.store bytes fits room in
      let grown = λ (k : Hash). put_lem hex plain blake3 digest d.store bytes k sound enough in
      let d' = take_in hex blake3 (ok (bytes, from)) d in
      let sound' : Sound hex blake3 d'.store =
        (let (w, e, s, _) = grown (blake3 bytes) in rw e s) in
      let more : (k : Hash)
          → holds hex blake3 d'.store k
            ≡ (eq_bytes (blake3 bytes) k || holds hex blake3 d.store k) =
        λ k. (let (w, e, _, held) = grown k in rw e held) in
      let ((sound'', mono), result) =
        drain_lem rs d' sound'
          (put-Room hex plain blake3 digest (length rs) d.store bytes sound fits room) small in
      let here : Has d'.store (blake3 bytes) =
        more (blake3 bytes) ∙ rw ((eq_bytes_iff (blake3 bytes) (blake3 bytes)).1 refl) in
      (
        (sound'', λ k h. mono k (more k ∙ rw h (or_true (eq_bytes (blake3 bytes) k)))),
        elim result [
          | inl (same, all) ↦ inl (same, (mono (blake3 bytes) here, all))
          | inr failed ↦ inr failed
        ],
      )

  -- What `missing_from` finds out, and that it at most reads on in the index.
  abbrev Scanned : Manifest → List ChunkRef → World → List (ℕ × Hash) × World → Type 1
  Scanned m cs w (missing, w') =
      Sound hex blake3 w'
      × ((n : ℕ) → Room n w → Room n w')
      × ((k : Hash) → holds hex blake3 w' k ≡ holds hex blake3 w k)
      × All (Placed blake3 m) missing
      × (length missing ≤ length cs)
      × ((P : Hash → Type 0)
          → ((k : Hash) → Has w k → P k)
          → All (λ ((i, h) : ℕ × Hash). P h) missing
          → All (λ (c : ChunkRef). P c.hash) cs)

  -- A chunk that is there already.
  found-Scanned :
      (m : Manifest) (c : ChunkRef) (cs : List ChunkRef) (w v : World)
      (out : List (ℕ × Hash) × World)
      → ((n : ℕ) → Room n w → Room n v)
      → ((k : Hash) → holds hex blake3 v k ≡ holds hex blake3 w k)
      → holds hex blake3 w c.hash ≡ true
      → Scanned m cs v out
      → Scanned m (c ∷ cs) w out
  found-Scanned m c cs w v out room same held (sound, room', same', placed, fewer, covers) = (
    sound,
    λ n r. room' n (room n r),
    λ k. same' k ∙ same k,
    placed,
    omega (arith, fewer),
    λ P have all. (have c.hash held, covers P (λ k h. have k (sym (same k) ∙ h)) all),
  )

  missing_from-Scanned :
      (m : Manifest) (front cs : List ChunkRef) (i : ℕ) (w : World)
      → m.chunks ≡ front ++ cs
      → length front ≡ i
      → Sound hex blake3 w
      → Scanned m cs w (missing_from hex blake3 i cs w)
  unfolding missing_from
  missing_from-Scanned m front [] i w e here sound =
      (sound, λ n r. r, λ k. refl, tt, omega arith, λ P have all. tt)
  missing_from-Scanned m front (c ∷ cs) i w e here sound =
      elim (has-holds hex blake3 w c.hash sound) [
        | inl (_, answered, held) ↦ rw answered (
            found-Scanned m c cs w w (missing_from hex blake3 (suc i) cs w) (λ n r. r) (λ k. refl)
              held
              (missing_from-Scanned m (front ++ c ∷ []) cs (suc i) w
                (e ∙ sym (append_assoc front (c ∷ []) cs))
                (omega (arith, here, length-append front (c ∷ []))) sound))
        | inr (_, answered) ↦ elim (Bool-cases (holds hex blake3 w c.hash)) [
          | inl held ↦
              rw (answered, held)
                (found-Scanned m c cs w (synced hex w)
                  (missing_from hex blake3 (suc i) cs (synced hex w)) (λ n r. r) (λ k. refl) held
                  (missing_from-Scanned m (front ++ c ∷ []) cs (suc i) (synced hex w)
                    (e ∙ sym (append_assoc front (c ∷ []) cs))
                    (omega (arith, here, length-append front (c ∷ [])))
                    (Sound-synced hex blake3 w sound)))
          | inr fresh ↦
              let (sound', room, same, placed, fewer, covers) =
                missing_from-Scanned m (front ++ c ∷ []) cs (suc i) (synced hex w)
                  (e ∙ sym (append_assoc front (c ∷ []) cs))
                  (omega (arith, here, length-append front (c ∷ [])))
                  (Sound-synced hex blake3 w sound) in
              rw (answered, fresh)
                (
                  sound',
                  λ n r. room n r,
                  λ k. same k,
                  (
                    λ bytes good.
                        chunk_hash_ok-hash blake3 m front cs c bytes e (rw (sym here) at good),
                    placed,
                  ),
                  omega (arith, fewer),
                  λ P have (first, all). (first, covers P have all),
                )
        ]
      ]

  module _ (providers : List PeerId) (answers : Answers)
      (small : (slot k : ℕ) (h : Hash) (bytes : Bytes)
        → answers slot k h ≡ ok (some bytes)
        → length bytes ≤ u32_max)
      (arrange : List Arrival → List Arrival)
      (arranged : (rs : List Arrival) → Permᴰ rs (arrange rs)) where
    -- The chunks of a manifest are fetched from several providers, whatever these answer in chunks of
    -- less than 4 GiB and in whatever order the chunks arrive, into an undamaged store with room for
    -- them. The store stays undamaged and loses nothing. If it succeeds, the result is the manifest
    -- and the store holds each of its chunks; else it is an error.
    pub download_chunks_lem :
        (m : Manifest) (w : World)
        → Sound hex blake3 w
        → Room (length m.chunks) w
        → Kept w (download_chunks hex blake3 providers answers arrange m w).2
          × ((((download_chunks hex blake3 providers answers arrange m w).0 ≡ ok m)
                × All
                    (λ (c : ChunkRef).
                      holds hex blake3
                        (download_chunks hex blake3 providers answers arrange m w).2
                        c.hash
                      ≡ true)
                    m.chunks)
              ⊎ ((e : NetError) × ((download_chunks hex blake3 providers answers arrange m w).0
                    ≡ err e)))
    unfolding download_chunks
    download_chunks_lem m w sound room =
        let (missing, w') = missing_from hex blake3 0 m.chunks w in
        let (sound', room', same, placed, fewer, covers) =
          missing_from-Scanned m [] m.chunks 0 w refl refl sound in
        let rs = fetch_missing blake3 m providers answers 0 missing in
        let start : Drained = record { store = w'; fetched_bytes = []; first_failure = none } in
        let done = drain hex blake3 (arrange rs) start in
        let enough : Room (length (arrange rs)) w' =
          fewer_Room w' (length (arrange rs)) (length m.chunks)
            (omega (
              arith,
              fewer,
              sym (length-Permᴰ (arranged rs)),
              length-fetch_missing blake3 m providers answers small 0 missing,
            ))
            (room' (length m.chunks) room) in
        let little =
          All-Permᴰ Small (arranged rs)
            (fetch_missing-Small blake3 m providers answers small 0 missing placed) in
        let ((sound'', mono), result) = drain_lem (arrange rs) start sound' enough little in
        (
          (sound'', λ k h. mono k (same k ∙ h)),
          elim result [
            | inr (e, failed) ↦ inr (e, ap (outcome hex blake3 m) failed)
            | inl (none_failed, arrived) ↦
                let all =
                  All-Permᴰ (Arrived blake3 (Has done.store)) (Permᴰ.symm (arranged rs)) arrived in
                let fetched =
                  fetch_missing-Arrived blake3 m providers answers small (Has done.store) 0 missing
                    placed all in
                inl (
                  ap (outcome hex blake3 m) none_failed,
                  covers (Has done.store) (λ k h. mono k (same k ∙ h)) fetched,
                )
          ],
        )
      where
        fewer_Room : (v : World) (a b : ℕ) → a ≤ b → Room b v → Room a v
        fewer_Room v a b h (ids, ends) = (omega (arith, ids), λ id. omega (arith, ends id))
