-- ===== src/Irisd/Peers.antt =====
-- src/ogygia-irisd/src/bloom/peers.rs: the cached filters of the peers. Times are nanoseconds of the
-- monotonic clock. An entry is changed under its own lock, so what a task does under one lock is one
-- operation, and a history is a sequence of operations.
pub mod History
pub mod Eviction
pub mod Exchange
use ogygia_nix.Base.{
  ℕ, zero, suc, ◌+◌, ◌-◌, max, min, Bool, true, false, ◌||◌, Option, none, some, List, [], ◌∷◌,
  ◌++◌, ltb, ◌==◌, if◌then◌else◌,
}
use ogygia_nix.Base.Text.{Text, text_eq}
use ogygia_nix.Irisd.Wire.{BloomHeader, Codec, Result, ok, err, panic, deserialize}
use ogygia_nix.Irisd.Local.{Bloom}

pub data Freshness : Type 0 where
  fresh stale expired : Freshness

-- The durations that a `PeerBlooms` is made with.
pub record Limits : Type 0 where
  pub ttl : ℕ
  pub max_age : ℕ

module _ (bloom : Bloom) where
  pub record PeerBloomEntry : Type 0 where
    pub filter : Option bloom.Filter
    pub fetched_at : Option ℕ
    pub last_attempt_at : Option ℕ

  abbrev pub default_entry : PeerBloomEntry
  default_entry = record { filter = none; fetched_at = none; last_attempt_at = none }

  -- `t.elapsed()` stops at 0.
  unfoldable pub elapsed_below : (now : ℕ) → Option ℕ → ℕ → Bool
  elapsed_below now none bound = false
  elapsed_below now (some t) bound = ltb (now - t) bound

  unfoldable pub recently_attempted : (now : ℕ) → PeerBloomEntry → (min_interval : ℕ) → Bool
  unfolding elapsed_below
  recently_attempted now entry min_interval = elapsed_below now entry.last_attempt_at min_interval

  unfoldable pub age_freshness : (now : ℕ) → Limits → Option ℕ → Freshness
  age_freshness now limits none = expired
  age_freshness now limits (some t) =
      if ltb (now - t) limits.ttl
      then fresh
      else if ltb (now - t) limits.max_age
      then stale
      else expired

  unfoldable pub freshness : (now : ℕ) → Limits → PeerBloomEntry → Freshness
  unfolding age_freshness
  freshness now limits entry = age_freshness now limits entry.fetched_at

  -- What a task does after it has looked at an entry: it uses the entry as it is, starts a
  -- background fetch and uses the entry, or fetches under the lock.
  pub data Plan : Type 0 where
    serve refresh fetch : Plan

  -- The fast path of `ensure_peer_fresh`: whether the entry is served as it is.
  unfoldable pub fast_path : (now : ℕ) → Limits → PeerBloomEntry → Bool
  fast_path now limits entry = elim (freshness now limits entry) [
    | fresh ↦ true
    | stale ↦ recently_attempted now entry limits.ttl
    | expired ↦ false
  ]

  unfoldable pub stale_plan : (recent : Bool) → (now : ℕ) → PeerBloomEntry → PeerBloomEntry × Plan
  stale_plan true now entry = (entry, serve)
  stale_plan false now entry = (record entry { last_attempt_at = some now }, refresh)

  unfoldable pub expired_plan : (recent : Bool) → (now : ℕ) → PeerBloomEntry → PeerBloomEntry × Plan
  expired_plan true now entry = (record entry { filter = none }, serve)
  expired_plan false now entry = (record entry { filter = none; last_attempt_at = some now }, fetch)

  unfoldable pub plan_for :
      Freshness → (recent : Bool) → (now : ℕ) → PeerBloomEntry → PeerBloomEntry × Plan
  unfolding stale_plan expired_plan
  plan_for fresh recent now entry = (entry, serve)
  plan_for stale recent now entry = stale_plan recent now entry
  plan_for expired recent now entry = expired_plan recent now entry

  -- The slow path, under the write lock, up to the fetch.
  unfoldable pub slow_path : (now : ℕ) → Limits → PeerBloomEntry → PeerBloomEntry × Plan
  unfolding plan_for
  slow_path now limits entry =
      plan_for (freshness now limits entry) (recently_attempted now entry limits.ttl) now entry

  -- The end of a fetch, in the background or under the lock.
  unfoldable pub fetched : (now : ℕ) → Option bloom.Filter → PeerBloomEntry → PeerBloomEntry
  fetched now none entry = entry
  fetched now (some filter) entry = record entry { filter = some filter; fetched_at = some now }

  -- The two tests of `evict_expired` on an entry that nobody is writing.
  unfoldable pub is_kept : (now : ℕ) → Limits → PeerBloomEntry → Bool
  unfolding elapsed_below
  is_kept now limits entry =
      elapsed_below now entry.fetched_at limits.max_age || recently_attempted now entry limits.ttl

  -- `evict_expired`, where `locked` tells the entries that are being written.
  unfoldable pub evict_expired :
      (locked : Text → Bool)
      → (now : ℕ) → Limits
      → List (Text × PeerBloomEntry)
      → List (Text × PeerBloomEntry)
  evict_expired locked now limits [] = []
  evict_expired locked now limits ((url, entry) ∷ rest) =
      let others = evict_expired locked now limits rest in
      if locked url || is_kept now limits entry then (url, entry) ∷ others else others

  unfoldable pub later_of : Option ℕ → Option ℕ → Option ℕ
  later_of (some f) (some a) = some (max f a)
  later_of (some f) none = some f
  later_of none a = a

  unfoldable pub plus : Option ℕ → ℕ → Option ℕ
  plus none d = none
  plus (some t) d = some (t + d)

  unfoldable pub entry_deadline : Limits → PeerBloomEntry → Option ℕ
  unfolding later_of plus
  entry_deadline limits entry =
      later_of (plus entry.fetched_at limits.max_age) (plus entry.last_attempt_at limits.ttl)

  unfoldable pub earlier_of : Option ℕ → Option ℕ → Option ℕ
  earlier_of (some a) (some b) = some (min a b)
  earlier_of (some a) none = some a
  earlier_of none b = b

  -- The `flatten` and `min` over all entries.
  unfoldable pub next_eviction_time : Limits → List (Text × PeerBloomEntry) → Option ℕ
  unfolding earlier_of
  next_eviction_time limits [] = none
  next_eviction_time limits ((_, entry) ∷ rest) =
      earlier_of (entry_deadline limits entry) (next_eviction_time limits rest)

  -- `deserialize_bloom`; `from_vec` is fastbloom's filter of given words.
  unfoldable pub deserialize_bloom :
      Codec
      → (from_vec : List ℕ → ℕ → bloom.Filter) → List ℕ
      → (expected_bloom_bits num_hashes : ℕ) → Option bloom.Filter
  deserialize_bloom codec from_vec bytes expected_bloom_bits num_hashes =
      elim (deserialize codec bytes) [
        | ok (header, words) ↦
            if header.num_hashes == num_hashes
            then (if header.num_bits == expected_bloom_bits
                then some (from_vec words header.num_hashes)
                else none)
            else none
        | err _ ↦ none
        | panic ↦ none
      ]

  unfoldable pub member : Text → Option bloom.Filter → Bool
  member hash none = false
  member hash (some filter) = bloom.has filter hash

  -- `lookup`, where the filters share one seed, so that one hash serves for all of them.
  unfoldable pub lookup : Text → List (Text × PeerBloomEntry) → List Text
  unfolding member
  lookup hash [] = []
  lookup hash ((url, entry) ∷ rest) =
      let others = lookup hash rest in if member hash entry.filter then url ∷ others else others

  unfoldable pub find_entry : Text → List (Text × PeerBloomEntry) → Option PeerBloomEntry
  find_entry url [] = none
  find_entry url ((key, entry) ∷ rest) =
      let other = find_entry url rest in if text_eq key url then some entry else other

  -- `entry(url).or_insert_with(default)`.
  unfoldable pub or_insert : Text → List (Text × PeerBloomEntry) → List (Text × PeerBloomEntry)
  unfolding find_entry
  or_insert url peers = elim (find_entry url peers) [
    | none ↦ peers ++ ((url, default_entry) ∷ [])
    | some _ ↦ peers
  ]
