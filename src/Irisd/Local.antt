-- ===== src/Irisd/Local.antt =====
-- src/ogygia-irisd/src/bloom/local.rs: the local filter and its phased replacement. The filters
-- stand in a store, since the slot that is read and the slot that is written share one after a
-- rebuild. Each operation holds a lock, so a history is a sequence of operations.
pub mod Phases
pub mod Members
use ogygia_nix.Base.{
  ℕ, zero, suc, ◌+◌, ◌%◌, ◌^◌, Bool, true, false, Option, none, some, List, [], ◌∷◌, ◌==◌,
  if◌then◌else◌,
}
use ogygia_nix.Base.Text.{Text}
use ogygia_nix.Irisd.Wire.{BloomHeader, Codec, serialize}

-- fastbloom: an empty filter of a size, insertion, the words of the bit vector, and the test for a
-- member.
pub record Bloom : Type 1 where
  pub Filter : Type 0
  pub with_num_bits : (num_bits num_hashes : ℕ) → Filter
  pub add : Text → Filter → Filter
  pub has : Filter → Text → Bool
  pub words : Filter → List ℕ

pub data Op : Type 0 where
  insert : Text → Op
  mark_deletion start_rebuild finish_rebuild : Op

module _ (bloom : Bloom) where
  -- The state: the filters by their address, the next free address, the two slots and the counters
  -- of the written one.
  pub record LocalBloom : Type 0 where
    pub filters : ℕ → bloom.Filter
    pub next : ℕ
    pub read_bloom : Option ℕ
    pub write_bloom : ℕ
    pub element_count : ℕ
    pub deletion_count : ℕ
    pub num_bits : ℕ
    pub num_hashes : ℕ

  unfoldable pub set_filter : ℕ → bloom.Filter → (ℕ → bloom.Filter) → ℕ → bloom.Filter
  set_filter at filter filters i = if i == at then filter else filters i

  -- `fetch_add(1)` on an `AtomicUsize`.
  unfoldable pub fetch_add : ℕ → ℕ
  fetch_add n = (n + 1) % 2 ^ 64

  -- `LocalBloom::new`, given the filter's size.
  unfoldable pub new : (num_bits num_hashes : ℕ) → LocalBloom
  new num_bits num_hashes = record {
    filters = λ _. bloom.with_num_bits num_bits num_hashes;
    next = 1;
    read_bloom = none;
    write_bloom = 0;
    element_count = 0;
    deletion_count = 0;
    num_bits = num_bits;
    num_hashes = num_hashes;
  }

  unfoldable pub run_insert : Text → LocalBloom → LocalBloom
  unfolding set_filter fetch_add
  run_insert hash s = record s {
    filters = set_filter s.write_bloom (bloom.add hash (s.filters s.write_bloom)) s.filters;
    element_count = fetch_add s.element_count;
  }

  unfoldable pub run_mark_deletion : LocalBloom → LocalBloom
  unfolding fetch_add
  run_mark_deletion s = record s { deletion_count = fetch_add s.deletion_count }

  -- The fresh filter stands at the next free address.
  unfoldable pub run_start_rebuild : LocalBloom → LocalBloom
  unfolding set_filter
  run_start_rebuild s = record s {
    filters = set_filter s.next (bloom.with_num_bits s.num_bits s.num_hashes) s.filters;
    next = suc s.next;
    write_bloom = s.next;
    element_count = 0;
    deletion_count = 0;
  }

  unfoldable pub run_finish_rebuild : LocalBloom → LocalBloom
  run_finish_rebuild s = record s { read_bloom = some s.write_bloom }

  unfoldable pub step : Op → LocalBloom → LocalBloom
  unfolding run_insert run_mark_deletion run_start_rebuild run_finish_rebuild
  step (insert hash) s = run_insert hash s
  step mark_deletion s = run_mark_deletion s
  step start_rebuild s = run_start_rebuild s
  step finish_rebuild s = run_finish_rebuild s

  -- A history of operations, the first one first.
  unfoldable pub run : List Op → LocalBloom → LocalBloom
  run [] s = s
  run (op ∷ ops) s = run ops (step op s)

  -- `needs_rebuild`, where `above` compares the ratio with the threshold.
  unfoldable pub needs_rebuild : (above : ℕ → ℕ → Bool) → LocalBloom → Bool
  needs_rebuild above s =
      if s.element_count == 0 then false else above s.deletion_count s.element_count

  unfoldable pub read_filter : LocalBloom → Option bloom.Filter
  read_filter s = elim s.read_bloom [ none ↦ none | some at ↦ some (s.filters at) ]

  -- `LocalBloom::serialize`.
  unfoldable pub serialize_local : Codec → LocalBloom → Option (List ℕ)
  unfolding read_filter
  serialize_local codec s = elim (read_filter s) [
    | none ↦ none
    | some filter ↦ some (
        serialize codec (record { num_hashes = s.num_hashes; num_bits = s.num_bits })
          (bloom.words filter))
  ]
