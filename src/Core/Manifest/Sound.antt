-- ===== src/Core/Manifest/Sound.antt =====
-- What a successful `reconstruct` returns, whatever the closure `fetch` answered.
use np2ptp.Prelude.{
  ℕ, suc, ◌+◌, ◌≡◌, ◌≢◌, refl, ap, sym, ◌∙◌, ◌⊎◌, inl, inr, Option, none, some, Bool, true, false,
  ◌&&◌, List, [], ◌∷◌, ◌++◌, map, append_assoc, append-nil, length-append, get_elem?, Option-cases,
  Bool-cases, get_elem?-append_length, arith, Bytes, eq_bytes, eq_bytes_iff, Result, ok, err,
}
use np2ptp.Prelude
use np2ptp.Prelude.Runs.{bind-eq-ok, lift}
use np2ptp.Core.Hash.{Hash, IsHash, merkle_root}
use np2ptp.Core.Hash.Binding.{Collision, same_or_collide, merkle_root-binding}
use np2ptp.Core.Manifest.{
  ChunkRef, Manifest, hashes, root_is_consistent, chunk_hash_ok, verify_chunk,
}
use np2ptp.Core.Manifest.Checks.{verify_chunk_cheap}
use np2ptp.Core.Manifest.Validate.{validate}
use np2ptp.Core.Manifest.Reconstruct.{accept, pull, gather, reconstruct}

abbrev pub joined : List Bytes → Bytes
joined [] = []
joined (p ∷ ps) = p ++ joined ps

module _ (blake3 : Bytes → Bytes) {S : Type 0} (fetch : Hash → S → Option Bytes × S) where
  verified_parts :
      (m : Manifest) (index : ℕ) (c : ChunkRef) (bytes : Bytes)
      → get_elem? m.chunks index ≡ some c
      → verify_chunk blake3 m index bytes ≡ true
      → (blake3 bytes ≡ c.hash) × (merkle_root blake3 (hashes m.chunks) ≡ m.root)
  unfolding chunk_hash_ok root_is_consistent
  verified_parts m index c bytes e h = ground (
    arith,
    verify_chunk_cheap blake3 m index bytes,
    (eq_bytes_iff (blake3 bytes) c.hash).0,
    (eq_bytes_iff (merkle_root blake3 (hashes m.chunks)) m.root).0,
  )

  accept-ok :
      (m : Manifest) (index : ℕ) (c : ChunkRef) (o : Option Bytes) (bytes : Bytes)
      → get_elem? m.chunks index ≡ some c
      → accept blake3 fetch m index o ≡ ok bytes
      → (blake3 bytes ≡ c.hash) × (merkle_root blake3 (hashes m.chunks) ≡ m.root)
  accept-ok m index c none bytes e h = unfold accept in cc
  accept-ok m index c (some b) bytes e h = elim (Bool-cases (verify_chunk blake3 m index b)) [
    | inl verified ↦
        let same : b ≡ bytes = unfold accept in ground (arith, h) in
        verified_parts m index c bytes e (rw same at verified)
    | inr refused ↦ unfold accept in ground (arith, h)
  ]

  gather-ok :
      (m : Manifest) (index : ℕ) (before cs : List ChunkRef) (out r : Bytes) (s : S)
      → m.chunks ≡ before ++ cs
      → Prelude.length before ≡ index
      → (gather blake3 fetch m index out cs s).0 ≡ ok r
      → (pieces : List Bytes) × (r ≡ out ++ joined pieces)
        × (map blake3 pieces ≡ hashes cs)
        × ((cs ≡ []) ⊎ (merkle_root blake3 (hashes m.chunks) ≡ m.root))
  unfolding gather
  gather-ok m index before [] out r s e k h = ([], cc (append-nil out), refl, inl refl)
  gather-ok m index before (c ∷ cs) out r s e k h =
      let (bytes, got, later) =
        bind-eq-ok (pull blake3 fetch m index c)
          (λ bytes. gather blake3 fetch m (suc index) (out ++ bytes) cs) s r h in
      let (same, root) =
        accept-ok m index c (fetch c.hash s).0 bytes
          (rw (e, ← k) (get_elem?-append_length before c cs)) (unfold pull in got) in
      let (pieces, made, hashed, _) =
        gather-ok m (suc index) (before ++ c ∷ []) cs (out ++ bytes) r
          (pull blake3 fetch m index c s).1 (e ∙ sym (append_assoc before (c ∷ []) cs))
          (omega (arith, length-append before (c ∷ []))) later in
      (bytes ∷ pieces, made ∙ append_assoc out bytes (joined pieces), cc (same, hashed), inr root)

  -- Bytes that `reconstruct` returns are pieces end to end, one for each listed chunk and each with
  -- that chunk's hash; they are `total_size` long; and the chunk list, unless it is empty, has the
  -- manifest's root. This holds whatever `fetch` answers.
  pub reconstruct_sound :
      (m : Manifest) (s : S) (out : Bytes)
      → (reconstruct blake3 fetch m s).0 ≡ ok out
      → (pieces : List Bytes) × (out ≡ joined pieces)
        × (map blake3 pieces ≡ hashes m.chunks)
        × (Prelude.length out ≡ m.total_size)
        × ((m.chunks ≡ []) ⊎ (merkle_root blake3 (hashes m.chunks) ≡ m.root))
  unfolding reconstruct
  reconstruct_sound m s out h =
      let (_, valid, after) = bind-eq-ok (lift (validate m)) _ s out h in
      let (r, got, sized) = bind-eq-ok (gather blake3 fetch m 0 [] m.chunks) _ s out after in
      let (pieces, made, hashed, root) = gather-ok m 0 [] m.chunks [] r s refl refl got in
      let same : r ≡ out = ground (arith, sized) in
      (pieces, sym same ∙ made, hashed, ground (arith, sized), root)

module _ (blake3 : Bytes → Bytes) (digest : (content : Bytes) → IsHash (blake3 content)) where
  pieces_or_collide :
      (ps qs : List Bytes) → map blake3 ps ≡ map blake3 qs → (ps ≡ qs) ⊎ Collision blake3
  pieces_or_collide [] [] e = inl refl
  pieces_or_collide [] (q ∷ qs) e = cc
  pieces_or_collide (p ∷ ps) [] e = cc
  pieces_or_collide (p ∷ ps) (q ∷ qs) e = elim (same_or_collide blake3 digest p q (cc)) [
    | inl same ↦ elim (pieces_or_collide ps qs (cc)) [
      | inl rest ↦ inl (cc (same, rest))
      | inr collision ↦ inr collision
    ]
    | inr collision ↦ inr collision
  ]

  -- The content id names the content: two manifests with one root, each with a chunk at least, and
  -- two successful reconstructions from any two sources, give the same bytes, or two inputs of
  -- BLAKE3 with one digest are found.
  pub reconstruct_agree :
      {S T : Type 0} (fetch : Hash → S → Option Bytes × S) (fetch' : Hash → T → Option Bytes × T)
      (m n : Manifest) (s : S) (t : T) (out out' : Bytes)
      → m.root ≡ n.root
      → m.chunks ≢ []
      → n.chunks ≢ []
      → (reconstruct blake3 fetch m s).0 ≡ ok out
      → (reconstruct blake3 fetch' n t).0 ≡ ok out'
      → (out ≡ out') ⊎ Collision blake3
  reconstruct_agree fetch fetch' m n s t out out' e some_m some_n h h' =
      let (ps, made, hashed, _, root) = reconstruct_sound blake3 fetch m s out h in
      let (qs, made', hashed', _, root') = reconstruct_sound blake3 fetch' n t out' h' in
      elim root [
        | inl none_m ↦ absurd (some_m none_m)
        | inr root_m ↦ elim root' [
          | inl none_n ↦ absurd (some_n none_n)
          | inr root_n ↦
              elim (merkle_root-binding blake3 digest (hashes m.chunks) (hashes n.chunks)
                (root_m ∙ e ∙ sym root_n)) [
                  | inl lists ↦ elim (pieces_or_collide ps qs (hashed ∙ lists ∙ sym hashed')) [
                    | inl same ↦ inl (made ∙ ap joined same ∙ sym made')
                    | inr collision ↦ inr collision
                  ]
                  | inr collision ↦ inr collision
                ]
        ]
      ]
