-- ===== src/Irisd/Peers/Exchange.antt =====
-- src/ogygia-irisd/src/bloom: the filter that one host sends is the one that its peer reads.
use ogygia_nix.Base.{ℕ, ◌≡◌, refl, sym, some, List, length, All, ==_refl}
use ogygia_nix.Irisd.Wire.{BloomHeader, Fits, Codec, serialize, words_for}
use ogygia_nix.Irisd.Wire.RoundTrip.{RoundTrips, IsWord, deserialize-serialize}
use ogygia_nix.Irisd.Local.{Bloom, LocalBloom, read_filter, serialize_local}
use ogygia_nix.Irisd.Peers.{deserialize_bloom}

some_inj {ℓ} : {A : Type ℓ} (a b : A) → some a ≡ some b → a ≡ b
some_inj a b e = cc

-- What a host serves of the filter that its readers see, a peer of the same dimensions takes for
-- the filter with these words, where bincode reads back what it writes and the filter has as many
-- 64-bit words as its size needs; its dimensions are of 32 and 64 bits.
pub deserialize_bloom-serialize_local :
    (bloom : Bloom) (codec : Codec) (from_vec : List ℕ → ℕ → bloom.Filter) (s : LocalBloom bloom)
    (filter : bloom.Filter) (bytes : List ℕ)
    → RoundTrips codec
    → Fits (record { num_hashes = s.num_hashes; num_bits = s.num_bits })
    → read_filter bloom s ≡ some filter
    → All IsWord (bloom.words filter)
    → length (bloom.words filter) ≡ words_for s.num_bits
    → serialize_local bloom codec s ≡ some bytes
    → deserialize_bloom bloom codec from_vec bytes s.num_bits s.num_hashes
      ≡ some (from_vec (bloom.words filter) s.num_hashes)
unfolding serialize_local deserialize_bloom
deserialize_bloom-serialize_local bloom codec from_vec s filter bytes trips bounded reads small fits
      sent =
    let header : BloomHeader = record { num_hashes = s.num_hashes; num_bits = s.num_bits } in
    let wire : serialize codec header (bloom.words filter) ≡ bytes =
      some_inj _ _ (rw (reads, serialize_local) at sent) in
    rw
      (
        sym wire,
        deserialize_bloom,
        deserialize-serialize codec header (bloom.words filter) trips bounded small fits,
        ==_refl s.num_hashes,
        ==_refl s.num_bits,
      )
      refl
