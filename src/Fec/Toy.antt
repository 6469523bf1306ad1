-- ===== src/Fec/Toy.antt =====
-- A stand-in for the codec, whose config carries the data and which decodes at the first packet.
use np2ptp.Prelude.{
  ℕ, zero, suc, ◌+◌, ◌-◌, ◌^◌, ◌≤◌, All, ◌≡◌, refl, ap, some, List, [], ◌∷◌, length, take-of_length,
  ==_iff, true, Bytes, arith,
}
use np2ptp.Bridge.Pieces.{div_ceil}
use np2ptp.Fec.{Raptorq, zeros, feed, fits}

pub length-zeros : (n : ℕ) → length (zeros n) ≡ n
unfolding zeros
length-zeros zero = refl
length-zeros (suc n) = ap suc (length-zeros n)

abbrev pub head : Bytes → ℕ
head [] = 0
head (b ∷ bs) = b

abbrev pub tail : Bytes → Bytes
tail [] = []
tail (b ∷ bs) = bs

abbrev pub packet : ℕ → Bytes
packet size = 0 ∷ 0 ∷ 0 ∷ 0 ∷ zeros size

pub fits-packet : (size : ℕ) → fits size 1 (packet size) ≡ true
fits-packet size =
    let whole : length (packet size) ≡ 4 + size = omega (arith, length-zeros size) in
    rw ((==_iff (length (packet size)) (4 + size)).1 whole)

unfoldable pub copies : ℕ → Bytes → List Bytes
copies zero p = []
copies (suc n) p = p ∷ copies n p

pub All-copies : (n size : ℕ) → All (λ p. fits size 1 p ≡ true) (copies n (packet size))
unfolding copies
All-copies zero size = tt
All-copies (suc n) size = (fits-packet size, All-copies n size)

pub feed-packet :
    (content p : Bytes) (ps : List Bytes)
    → feed (λ (d : Bytes) (p : Bytes). (some d, d)) content (p ∷ ps) ≡ some content
unfolding feed
feed-packet content p ps = refl

pub large_enough : 2 ^ 30 ≤ 2 ^ 30
large_enough = omega arith

abbrev pub toy_raptorq : Raptorq Bytes
toy_raptorq = record {
  with_defaults = λ len size. size ∷ [];
  symbol_size = head;
  source_blocks = λ config. 1;
  partition = λ total blocks. (0, 0, 1, 0);
  get_config = λ content size. size ∷ content;
  get_encoded_packets = λ content size repair.
      packet size ∷ copies (div_ceil (length content) size + repair - 1) (packet size);
  new_decoder = tail;
  decode_packet = λ d p. (some d, d);
  max_content = 2 ^ 30;
  max_content_large = large_enough;
  symbol_size-get_config = λ content h few. refl;
  packets_fit = λ content repair h few k.
      (fits-packet 1200, All-copies (div_ceil (length content) 1200 + repair - 1) 1200);
  rebuilds = λ content repair h few k. (
    content,
    feed-packet content (packet 1200)
        (copies (div_ceil (length content) 1200 + repair - 1) (packet 1200)),
    take-of_length (length content) content (omega arith),
  );
}
