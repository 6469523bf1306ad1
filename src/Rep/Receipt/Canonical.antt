-- ===== src/Rep/Receipt/Canonical.antt =====
-- Receipts that are issued verify, and the signed bytes say which receipt they belong to.
use np2ptp.Prelude.{
  ℕ, zero, suc, ◌/◌, ◌%◌, ◌^◌, ◌<◌, ◌≡◌, refl, sym, ap, ◌∙◌, [], ◌∷◌, ◌++◌, length, true, Bytes,
  arith,
}
use np2ptp.Rep.Receipt.{Ed25519, receipt_tag, le_bytes, canonical, peer_verify, issue, verify}
use native.Mathlib.Nat.{div-add-mod, div-lt_iff_lt-mul, pow-suc}

-- A receipt that a client issues verifies, for every server, amount and epoch.
pub verify-issue :
    (ed25519 : Ed25519) (client server : Bytes) (bytes epoch : ℕ)
    → verify ed25519 (issue ed25519 client server bytes epoch) ≡ true
unfolding verify issue peer_verify
verify-issue ed25519 client server bytes epoch =
    rw
      (
        ed25519.parses-public_key client,
        ed25519.length-sign client (canonical server (ed25519.public_key client) bytes epoch),
      )
      (ed25519.honest client (canonical server (ed25519.public_key client) bytes epoch))

length-le_bytes : (n x : ℕ) → length (le_bytes n x) ≡ n
unfolding le_bytes
length-le_bytes zero x = refl
length-le_bytes (suc n) x = ap suc (length-le_bytes n (x / 256))

shorter : (n x : ℕ) → x < 256 ^ suc n → x / 256 < 256 ^ n
shorter n x h = (div-lt_iff_lt-mul (omega arith)).1 (rw pow-suc at h)

le_bytes-injective : (n x y : ℕ) → x < 256 ^ n → y < 256 ^ n → le_bytes n x ≡ le_bytes n y → x ≡ y
unfolding le_bytes
le_bytes-injective zero x y hx hy e = omega arith
le_bytes-injective (suc n) x y hx hy e =
    let low : x % 256 ≡ y % 256 = cc e in
    let high : x / 256 ≡ y / 256 =
      le_bytes-injective n (x / 256) (y / 256) (shorter n x hx) (shorter n y hy) (cc e) in
    omega (arith, div-add-mod x 256, div-add-mod y 256)

-- The halves of equal sums, where the first halves are as long as each other.
halves :
    (xs ys xs' ys' : Bytes)
    → length xs ≡ length xs'
    → xs ++ ys ≡ xs' ++ ys'
    → (xs ≡ xs') × (ys ≡ ys')
halves [] ys [] ys' l e = (refl, e)
halves [] ys (x' ∷ xs') ys' l e = absurd (omega arith)
halves (x ∷ xs) ys [] ys' l e = absurd (omega arith)
halves (x ∷ xs) ys (x' ∷ xs') ys' l e =
    let (first, second) = halves xs ys xs' ys' (omega arith) (cc e) in (cc (first, e), second)

-- The signed bytes determine the receipt: for peer ids of 32 bytes and 64-bit numbers, equal
-- encodings have the same server, client, amount and epoch, so that a signature is good for one
-- receipt only.
pub canonical-injective :
    (server client server' client' : Bytes) (bytes epoch bytes' epoch' : ℕ)
    → length server ≡ 32
    → length client ≡ 32
    → length server' ≡ 32
    → length client' ≡ 32
    → bytes < 256 ^ 8
    → epoch < 256 ^ 8
    → bytes' < 256 ^ 8
    → epoch' < 256 ^ 8
    → canonical server client bytes epoch ≡ canonical server' client' bytes' epoch'
    → (server ≡ server') × (client ≡ client') × (bytes ≡ bytes') × (epoch ≡ epoch')
unfolding canonical
canonical-injective server client server' client' b e b' e' s c s' c' hb he hb' he' same =
    let (_, from_server) = halves receipt_tag _ receipt_tag _ refl same in
    let (servers, from_client) = halves server _ server' _ (cc (s, s')) from_server in
    let (clients, from_bytes) = halves client _ client' _ (cc (c, c')) from_client in
    let (amounts, epochs) =
      halves (le_bytes 8 b) _ (le_bytes 8 b') _ (length-le_bytes 8 b ∙ sym (length-le_bytes 8 b'))
        from_bytes in
    (
      servers,
      clients,
      le_bytes-injective 8 b b' hb hb' amounts,
      le_bytes-injective 8 e e' he he' epochs,
    )
