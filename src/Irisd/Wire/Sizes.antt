-- ===== src/Irisd/Wire/Sizes.antt =====
-- src/ogygia-irisd/src/bloom/wire.rs: what a received filter may look like, and that none makes the
-- receiver panic.
use ogygia_nix.Base.{
  ℕ, ◌+◌, ◌/◌, ◌%◌, ◌≤◌, ◌≡◌, ◌≢◌, some, List, length, length-drop, take, drop, leb, leb→le, ◌==◌,
  ==_iff, arith, inl, inr, subst, Option-cases, Bool-cases,
}
use ogygia_nix.Irisd.Wire.{
  BloomHeader, Codec, Result, ok, err, panic, from_be_bytes, words_for, chunk_words, slice_from,
  read_body, deserialize,
}

-- bincode has read as many bytes as it says that it writes for the header.
abbrev pub Consumes : Codec → Type 0
Consumes codec =
    (bytes : List ℕ) (h : BloomHeader) (n : ℕ)
    → codec.decode bytes ≡ some h
    → codec.serialized_size h ≡ some n
    → n ≤ length bytes

-- The result keeps the promise: it is no panic, and has as many words as the header declares.
abbrev Sized : Result (BloomHeader × List ℕ) → Type 0
Sized (ok (header, words)) = length words ≡ words_for header.num_bits
Sized (err _) = Unit {0}
Sized panic = ⊥

read_body-Sized : (header : BloomHeader) (body : List ℕ) → Sized (read_body header body)
unfolding read_body
read_body-Sized header body = elim (Bool-cases (length body % 8 == 0)) [
  | inr n ↦ rw n tt
  | inl e ↦
      elim (Bool-cases (length (chunk_words (length body / 8) body) == words_for header.num_bits)) [
        | inr n ↦ rw (e, n) tt
        | inl f ↦ rw (e, f) ((==_iff _ _).0 f)
      ]
]

slice_from-fits :
    (n : ℕ) (bytes : List ℕ) → n ≤ length bytes → slice_from n bytes ≡ ok (drop n bytes)
unfolding slice_from
slice_from-fits n bytes h = ground arith

deserialize-Sized :
    (codec : Codec) (bytes : List ℕ) → Consumes codec → Sized (deserialize codec bytes)
unfolding deserialize
deserialize-Sized codec bytes consumes = elim (Bool-cases (leb 8 (length bytes))) [
  | inr n ↦ rw n tt
  | inl long ↦ elim (Option-cases (codec.decode (drop 8 bytes))) [
    | inl n ↦ rw (long, n) tt
    | inr (h, d) ↦ elim (Bool-cases (codec.sip_hash h == from_be_bytes 0 (take 8 bytes))) [
      | inr n ↦ rw (long, d, n) tt
      | inl same ↦ elim (Option-cases (codec.serialized_size h)) [
        | inl n ↦ rw (long, d, same, n) tt
        | inr (size, s) ↦
            let fits = consumes (drop 8 bytes) h size d s in
            rw
              (
                long,
                d,
                same,
                s,
                slice_from-fits (8 + size) bytes
                    (omega (arith, fits, length-drop 8 bytes, leb→le _ _ long)),
              )
              (read_body-Sized h (drop (8 + size) bytes))
      ]
    ]
  ]
]

-- With a bincode that reads as many bytes as it says, no input makes the receiver panic.
pub deserialize-total :
    (codec : Codec) (bytes : List ℕ) → Consumes codec → deserialize codec bytes ≢ panic
deserialize-total codec bytes consumes e = subst Sized e (deserialize-Sized codec bytes consumes)

-- What is read as a filter has exactly as many words as its header declares bits for.
pub deserialize-words :
    (codec : Codec) (bytes : List ℕ) (header : BloomHeader) (words : List ℕ)
    → Consumes codec
    → deserialize codec bytes ≡ ok (header, words)
    → length words ≡ words_for header.num_bits
deserialize-words codec bytes header words consumes e =
    subst Sized e (deserialize-Sized codec bytes consumes)
