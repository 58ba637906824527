-- ===== src/Irisd/Tests.antt =====
-- Applications of the statements about src/ogygia-irisd/src/bloom to a filter of 128 bits.
use ogygia_nix.Base.{
  ◌||◌, inr, Bool, ℕ, ◌<◌, ◌^◌, ◌%◌, ◌≡◌, refl, arith, true, false, Option, none, some, List, [],
  ◌∷◌, length, inl,
}
use ogygia_nix.Base.Text.{Text, text_eq_refl, text_eq, codes}
use ogygia_nix.Irisd.Wire.{BloomHeader, Codec, ok, serialize, deserialize, words_for}
use ogygia_nix.Irisd.Wire.RoundTrip.{RoundTrips, deserialize-serialize}
use ogygia_nix.Irisd.Local.{
  Bloom, Op, insert, start_rebuild, finish_rebuild, LocalBloom, new, run, step, read_filter,
  serialize_local, run_insert, run_start_rebuild, run_finish_rebuild, set_filter, fetch_add,
}
use ogygia_nix.Irisd.Local.Members.{Remembers, run-has}
use ogygia_nix.Irisd.Local.Phases.{run_phase, step_phase, filled, run-read_filter}
use ogygia_nix.Irisd.Peers.{
  Limits, PeerBloomEntry, slow_path, freshness, age_freshness, recently_attempted, elapsed_below,
  plan_for, stale_plan, entry_deadline, later_of, plus, next_eviction_time, earlier_of,
  deserialize_bloom,
}
use ogygia_nix.Irisd.Peers.Exchange.{deserialize_bloom-serialize_local}
use ogygia_nix.Irisd.Peers.History.{
  Event, arrives, ends, starts, Spaced, starts-Spaced, Young, slow_path-Young,
}

abbrev has_hash : List Text → Text → Bool
has_hash [] hash = false
has_hash (h ∷ hashes) hash = text_eq h hash || has_hash hashes hash

-- A filter as the list of what was inserted.
abbrev sample_bloom : Bloom
sample_bloom = record {
  Filter = List Text;
  with_num_bits = λ _ _. [];
  add = λ hash filter. hash ∷ filter;
  has = has_hash;
  words = λ filter. length filter ∷ 7 ∷ [];
}

abbrev decode_header : List ℕ → Option BloomHeader
decode_header (hashes ∷ bits ∷ _) = some (record { num_hashes = hashes; num_bits = bits })
decode_header _ = none

abbrev sample_codec : Codec
sample_codec = record {
  sip_hash = λ _. 99;
  encode = λ h. h.num_hashes ∷ h.num_bits ∷ [];
  decode = decode_header;
  serialized_size = λ _. some 2;
}

sample-RoundTrips : RoundTrips sample_codec
sample-RoundTrips = record {
  reads = λ h rest b. refl;
  sizes = λ h b. refl;
  hashes = λ h b. omega arith;
}

abbrev sample_header : BloomHeader
sample_header = record { num_hashes = 7; num_bits = 128 }

enough : 2 ≡ words_for 128
unfolding words_for
enough = refl

deserialize-serialize_example :
    deserialize sample_codec (serialize sample_codec sample_header (5 ∷ 7 ∷ []))
    ≡ ok (sample_header, 5 ∷ 7 ∷ [])
deserialize-serialize_example =
    deserialize-serialize sample_codec sample_header (5 ∷ 7 ∷ []) sample-RoundTrips
      (omega arith, omega arith) (omega arith, (omega arith, tt)) enough

-- A rebuild is under way and one hash has been found again.
abbrev sample_ops : List Op
sample_ops =
    insert (codes "a")
    ∷ finish_rebuild
    ∷ insert (codes "b")
    ∷ start_rebuild
    ∷ insert (codes "b")
    ∷ []

abbrev rebuilding : LocalBloom sample_bloom
rebuilding = run sample_bloom sample_ops (new sample_bloom 128 7)

run-read_filter_example :
    (read_filter sample_bloom rebuilding
      ≡ some (filled sample_bloom 128 7 (codes "b" ∷ codes "a" ∷ [])))
    × (rebuilding.element_count ≡ 1 % 2 ^ 64)
unfolding run_phase step_phase
run-read_filter_example = run-read_filter sample_bloom 128 7 sample_ops

shown : read_filter sample_bloom rebuilding ≡ some (codes "b" ∷ codes "a" ∷ [])
unfolding read_filter run step new run_insert run_start_rebuild run_finish_rebuild set_filter
    fetch_add
shown = refl

abbrev sent : List ℕ
sent = serialize sample_codec sample_header (2 ∷ 7 ∷ [])

served : serialize_local sample_bloom sample_codec rebuilding ≡ some sent
unfolding serialize_local read_filter run step new run_insert run_start_rebuild run_finish_rebuild
    set_filter fetch_add
served = refl

dimensions : (rebuilding.num_bits ≡ 128) × (rebuilding.num_hashes ≡ 7)
unfolding run step new run_insert run_start_rebuild run_finish_rebuild
dimensions = (refl, refl)

fitting : length {A = ℕ} (2 ∷ 7 ∷ []) ≡ words_for rebuilding.num_bits
unfolding words_for run step new run_insert run_start_rebuild run_finish_rebuild
fitting = refl

-- The filter that a peer makes of words, here the words' own spelling.
abbrev from_words : List ℕ → ℕ → List Text
from_words words hashes = words ∷ []

deserialize_bloom-serialize_local_example :
    deserialize_bloom sample_bloom sample_codec from_words sent rebuilding.num_bits
      rebuilding.num_hashes
    ≡ some (from_words (2 ∷ 7 ∷ []) rebuilding.num_hashes)
deserialize_bloom-serialize_local_example =
    deserialize_bloom-serialize_local sample_bloom sample_codec from_words rebuilding
      (codes "b" ∷ codes "a" ∷ []) sent sample-RoundTrips
      (omega (arith, dimensions.1), omega (arith, dimensions.0)) shown
      (omega arith, (omega arith, tt)) fitting served

abbrev limits : Limits
limits = record { ttl = 5; max_age = 10 }

abbrev entry : PeerBloomEntry sample_bloom
entry = record { filter = some []; fetched_at = some 100; last_attempt_at = some 100 }

abbrev events : List (Event sample_bloom)
events = arrives 107 ∷ ends 108 none ∷ arrives 109 ∷ arrives 120 ∷ []

starts-Spaced_example : Spaced sample_bloom 5 (some 100) (starts sample_bloom limits events entry)
starts-Spaced_example = starts-Spaced sample_bloom limits events entry (omega arith)

served_stale : (slow_path sample_bloom 107 limits entry).0.filter ≡ some []
unfolding slow_path freshness age_freshness recently_attempted elapsed_below plan_for stale_plan
served_stale = refl

slow_path-Young_example : Young sample_bloom 107 limits (slow_path sample_bloom 107 limits entry).0
slow_path-Young_example =
    slow_path-Young sample_bloom 107 limits entry [] (omega arith) served_stale

deadline : entry_deadline sample_bloom limits entry ≡ some 110
unfolding entry_deadline later_of plus
deadline = refl

abbrev peers : List (Text × PeerBloomEntry sample_bloom)
peers = (codes "p", entry) ∷ []

not_yet : (t : ℕ) → next_eviction_time sample_bloom limits peers ≡ some t → 109 < t
unfolding next_eviction_time earlier_of entry_deadline later_of plus
not_yet t e = ground arith

sample-Remembers : Remembers sample_bloom
sample-Remembers = record {
  adds = λ hash f. ground (arith, text_eq_refl hash);
  keeps = λ hash other f h. ground arith;
}

run-has_example :
    (filter : List Text) × (read_filter sample_bloom rebuilding ≡ some filter)
    × (sample_bloom.has filter (codes "a") ≡ true)
unfolding run_phase step_phase
run-has_example =
    run-has sample_bloom 128 7 sample-Remembers sample_ops (codes "a") (inr (inl refl))
