-- ===== src/Irisd/Wire/RoundTrip.antt =====
-- src/ogygia-irisd/src/bloom/wire.rs: what is serialized is read back, and nothing is read that the
-- header does not declare.
use ogygia_nix.Base.{
  ℕ, zero, suc, ◌+◌, ◌*◌, ◌/◌, ◌%◌, ◌^◌, ◌<◌, ◌≡◌, refl, sym, ◌∙◌, ap, true, some, List, [], ◌∷◌,
  ◌++◌, length, length-append, take-append, drop-append, leb, ◌==◌, arith, All, ==_iff, ==_refl,
}
use ogygia_nix.Irisd.Wire.{
  BloomHeader, Fits, Codec, ok, to_be_bytes, from_be_bytes, words_for, word_bytes, serialize,
  chunk_words, slice_from, read_body, deserialize,
}
use mathlib.Core.List.{append_assoc}

-- bincode reads back a header of a u32 and a u64 that it wrote, whatever follows, and knows how many bytes it
-- writes; the hash has 64 bits.
pub record RoundTrips (codec : Codec) : Type 0 where
  pub reads :
      (h : BloomHeader) (rest : List ℕ) → Fits h → codec.decode (codec.encode h ++ rest) ≡ some h
  pub sizes : (h : BloomHeader) → Fits h → codec.serialized_size h ≡ some (length (codec.encode h))
  pub hashes : (h : BloomHeader) → Fits h → codec.sip_hash h < 256 ^ 8

abbrev pub IsWord : ℕ → Type 0
IsWord n = n < 256 ^ 8

from_be_bytes-snoc :
    (high b : ℕ) (bytes : List ℕ)
    → from_be_bytes high (bytes ++ (b ∷ [])) ≡ from_be_bytes high bytes * 256 + b
unfolding from_be_bytes
from_be_bytes-snoc high b [] = refl
from_be_bytes-snoc high b (c ∷ bytes) = from_be_bytes-snoc (high * 256 + c) b bytes

be_bytes-round : (k n : ℕ) → n < 256 ^ k → from_be_bytes 0 (to_be_bytes k n) ≡ n
unfolding to_be_bytes from_be_bytes
be_bytes-round zero n h = omega arith
be_bytes-round (suc k) n h = omega (
  arith,
  from_be_bytes-snoc 0 (n % 256) (to_be_bytes k (n / 256)),
  be_bytes-round k (n / 256) (omega arith),
)

to_be_bytes-length : (k n : ℕ) → length (to_be_bytes k n) ≡ k
unfolding to_be_bytes
to_be_bytes-length zero n = refl
to_be_bytes-length (suc k) n =
    omega (
      arith,
      length-append (to_be_bytes k (n / 256)) (n % 256 ∷ []),
      to_be_bytes-length k (n / 256),
    )

word_bytes-length : (words : List ℕ) → length (word_bytes words) ≡ 8 * length words
unfolding word_bytes
word_bytes-length [] = refl
word_bytes-length (w ∷ words) = omega (
  arith,
  length-append (to_be_bytes 8 w) (word_bytes words),
  to_be_bytes-length 8 w,
  word_bytes-length words,
)

chunk_words-round :
    (words : List ℕ) → All IsWord words → chunk_words (length words) (word_bytes words) ≡ words
unfolding chunk_words word_bytes
chunk_words-round [] h = refl
chunk_words-round (w ∷ words) h =
    rw
      (
        take-append 8 (to_be_bytes 8 w) (word_bytes words) (to_be_bytes-length 8 w),
        drop-append 8 (to_be_bytes 8 w) (word_bytes words) (to_be_bytes-length 8 w),
        be_bytes-round 8 w h.0,
        chunk_words-round words h.1,
      )
      refl

read_body-ok :
    (header : BloomHeader) (words : List ℕ)
    → All IsWord words
    → length words ≡ words_for header.num_bits
    → read_body header (word_bytes words) ≡ ok (header, words)
unfolding read_body
read_body-ok header words small fits =
    let e = word_bytes-length words in
    let aligned : (length (word_bytes words) % 8 == 0) ≡ true = ground (arith, e) in
    let count : length (word_bytes words) / 8 ≡ length words = omega (arith, e) in
    rw
      (
        aligned,
        count,
        chunk_words-round words small,
        (==_iff (length words) (words_for header.num_bits)).1 fits,
      )
      refl

slice_from-append : (n : ℕ) (xs ys : List ℕ) → length xs ≡ n → slice_from n (xs ++ ys) ≡ ok ys
unfolding slice_from
slice_from-append n xs ys h =
    let fits : leb n (length (xs ++ ys)) ≡ true = ground (arith, length-append xs ys) in
    rw (fits, drop-append n xs ys h) refl

-- With a bincode that reads back what it writes, a filter of 64-bit words, as many as its header
-- declares in its 32 and 64 bits, is read back from what is sent.
pub deserialize-serialize :
    (codec : Codec) (header : BloomHeader) (words : List ℕ)
    → RoundTrips codec
    → Fits header
    → All IsWord words
    → length words ≡ words_for header.num_bits
    → deserialize codec (serialize codec header words) ≡ ok (header, words)
unfolding deserialize serialize
deserialize-serialize codec header words trips bounded small fits =
    let hash = to_be_bytes 8 (codec.sip_hash header) in
    let body = word_bytes words in
    let code = codec.encode header in
    let long : leb 8 (length (hash ++ (code ++ body))) ≡ true =
      ground
        (arith, length-append hash (code ++ body), to_be_bytes-length 8 (codec.sip_hash header)) in
    let tail : slice_from (8 + length code) (hash ++ (code ++ body)) ≡ ok body =
      ap (slice_from (8 + length code)) (sym (append_assoc hash code body))
      ∙ slice_from-append (8 + length code) (hash ++ code) body
          (omega (arith, length-append hash code, to_be_bytes-length 8 (codec.sip_hash header))) in
    rw
      (
        long,
        drop-append 8 hash (code ++ body) (to_be_bytes-length 8 (codec.sip_hash header)),
        trips.reads header body bounded,
        take-append 8 hash (code ++ body) (to_be_bytes-length 8 (codec.sip_hash header)),
        be_bytes-round 8 (codec.sip_hash header) (trips.hashes header bounded),
      )
      (rw (==_refl (codec.sip_hash header), trips.sizes header bounded, tail)
        (read_body-ok header words small fits))
