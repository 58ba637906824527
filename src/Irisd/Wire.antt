-- ===== src/Irisd/Wire.antt =====
-- src/ogygia-irisd/src/bloom/wire.rs: the wire format of a Bloom filter. A `usize` has 64 bits.
pub mod RoundTrip
pub mod Sizes
use ogygia_nix.Base.{
  ◌<◌, ◌^◌, ℕ, zero, suc, ◌+◌, ◌-◌, ◌*◌, ◌/◌, ◌%◌, Bool, true, false, Option, none, some, List, [],
  ◌∷◌, ◌++◌, length, take, drop, leb, ◌==◌, if◌then◌else◌,
}

-- `num_hashes` is a u32, `num_bits` a u64: every header of the program `Fits`.
pub record BloomHeader : Type 0 where
  pub num_hashes : ℕ
  pub num_bits : ℕ

abbrev pub Fits : BloomHeader → Type 0
Fits h = (h.num_hashes < 2 ^ 32) × (h.num_bits < 2 ^ 64)

-- The SipHash of a header, which `derive(Hash)` feeds to it, and bincode on headers.
pub record Codec : Type 0 where
  pub sip_hash : BloomHeader → ℕ
  pub encode : BloomHeader → List ℕ
  pub decode : List ℕ → Option BloomHeader
  pub serialized_size : BloomHeader → Option ℕ

pub data Error : Type 0 where
  too_short bad_header hash_mismatch no_size unaligned length_mismatch : Error

pub data Result {ℓ} (A : Type ℓ) : Type ℓ where
  ok : A → Result A
  err : Error → Result A
  panic : Result A

infixl 5 ◌>>=◌ ◌>>◌
abbrev pub ◌>>=◌ {ℓ κ} : {A : Type ℓ} {B : Type κ} → Result A → (A → Result B) → Result B
ok a >>= f = f a
err e >>= f = err e
panic >>= f = panic

abbrev pub ◌>>◌ {ℓ} : {B : Type ℓ} → Result (Unit {0}) → Result B → Result B
m >> k = m >>= λ _. k

abbrev pub ensure : Bool → Error → Result (Unit {0})
ensure true e = ok tt
ensure false e = err e

abbrev pub or_fail {ℓ} : {A : Type ℓ} → Option A → Error → Result A
or_fail none e = err e
or_fail (some a) e = ok a

-- `to_be_bytes` of a word with so many bytes.
unfoldable pub to_be_bytes : ℕ → ℕ → List ℕ
to_be_bytes zero n = []
to_be_bytes (suc k) n = to_be_bytes k (n / 256) ++ (n % 256 ∷ [])

-- `from_be_bytes`, after the bytes that gave `high`.
unfoldable pub from_be_bytes : (high : ℕ) → List ℕ → ℕ
from_be_bytes high [] = high
from_be_bytes high (b ∷ bytes) = from_be_bytes (high * 256 + b) bytes

-- `div_ceil(64)`.
unfoldable pub words_for : ℕ → ℕ
words_for bits = (bits + 63) / 64

unfoldable pub word_bytes : List ℕ → List ℕ
word_bytes [] = []
word_bytes (word ∷ words) = to_be_bytes 8 word ++ word_bytes words

unfoldable pub serialize : Codec → BloomHeader → List ℕ → List ℕ
serialize codec header words =
    to_be_bytes 8 (codec.sip_hash header) ++ (codec.encode header ++ word_bytes words)

-- The words of the first so many 8-byte chunks.
unfoldable pub chunk_words : ℕ → List ℕ → List ℕ
chunk_words zero bytes = []
chunk_words (suc n) bytes = from_be_bytes 0 (take 8 bytes) ∷ chunk_words n (drop 8 bytes)

-- `&data[start..]`, which panics past the end.
unfoldable pub slice_from : ℕ → List ℕ → Result (List ℕ)
slice_from start bytes = if leb start (length bytes) then ok (drop start bytes) else panic

-- The part of `deserialize` after the header hash.
unfoldable pub read_body : BloomHeader → List ℕ → Result (BloomHeader × List ℕ)
read_body header body = do
  ensure (length body % 8 == 0) unaligned
  let words = chunk_words (length body / 8) body
  ensure (length words == words_for header.num_bits) length_mismatch
  ok (header, words)

unfoldable pub deserialize : Codec → List ℕ → Result (BloomHeader × List ℕ)
unfolding slice_from read_body
deserialize codec bytes = do
  ensure (leb 8 (length bytes)) too_short
  header ← or_fail (codec.decode (drop 8 bytes)) bad_header
  ensure (codec.sip_hash header == from_be_bytes 0 (take 8 bytes)) hash_mismatch
  size ← or_fail (codec.serialized_size header) no_size
  body ← slice_from (8 + size) bytes
  read_body header body
