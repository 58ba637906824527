-- ===== src/Irisd/Local/Members.antt =====
-- src/ogygia-irisd/src/bloom/local.rs: no path that readers should see tests negative.
use ogygia_nix.Base.{ℕ, true, Option, none, some, List, [], ◌∷◌, ◌≡◌, ◌⊎◌, inl, inr, subst}
use ogygia_nix.Base.Text.{Text}
use ogygia_nix.Irisd.Local.{Bloom, Op, new, run, read_filter}
use ogygia_nix.Irisd.Local.Phases.{
  View, not_ready, current, old, run_phase, first_phase, filled, run-read_filter,
}

-- The hash is one of these.
abbrev pub Among : Text → List Text → Type 0
Among hash [] = ⊥
Among hash (h ∷ hashes) = (h ≡ hash) ⊎ Among hash hashes

-- Readers should see the hash.
abbrev pub Visible : Text → List Text → View → Type 0
Visible hash added not_ready = ⊥
Visible hash added current = Among hash added
Visible hash added (old served) = Among hash served

-- A filter contains what was inserted, and keeps it.
pub record Remembers (bloom : Bloom) : Type 0 where
  pub adds : (hash : Text) (f : bloom.Filter) → bloom.has (bloom.add hash f) hash ≡ true
  pub keeps :
      (hash other : Text) (f : bloom.Filter)
      → bloom.has f hash ≡ true
      → bloom.has (bloom.add other f) hash ≡ true

module _ (bloom : Bloom) (num_bits num_hashes : ℕ) (remembers : Remembers bloom) where
  filled-has :
      (hash : Text) (hashes : List Text)
      → Among hash hashes
      → bloom.has (filled bloom num_bits num_hashes hashes) hash ≡ true
  filled-has hash [] i = absurd i
  filled-has hash (h ∷ hashes) i = elim i [
    | inl same ↦
        subst (λ x. bloom.has (filled bloom num_bits num_hashes (h ∷ hashes)) x ≡ true) same
          (remembers.adds h (filled bloom num_bits num_hashes hashes))
    | inr j ↦
        remembers.keeps hash h (filled bloom num_bits num_hashes hashes) (filled-has hash hashes j)
  ]

  shown-has :
      (hash : Text) (added : List Text) (v : View) (o : Option bloom.Filter)
      → o ≡ elim v [
        | not_ready ↦ none
        | current ↦ some (filled bloom num_bits num_hashes added)
        | old served ↦ some (filled bloom num_bits num_hashes served)
      ]
      → Visible hash added v
      → (filter : bloom.Filter) × (o ≡ some filter) × (bloom.has filter hash ≡ true)
  shown-has hash added not_ready o e i = absurd i
  shown-has hash added current o e i =
      (filled bloom num_bits num_hashes added, e, filled-has hash added i)
  shown-has hash added (old served) o e i =
      (filled bloom num_bits num_hashes served, e, filled-has hash served i)

  -- With a filter that keeps what was inserted, after any history a hash that readers should see
  -- tests positive in the filter that they get: one inserted since the last start of a rebuild, once
  -- a scan has finished and no rebuild is under way, or during a rebuild one that was visible as it
  -- started, deletions notwithstanding.
  pub run-has :
      (ops : List Op) (hash : Text)
      → (let p = run_phase ops first_phase in Visible hash p.added p.view)
      → (filter : bloom.Filter) × (read_filter bloom (run bloom ops (new bloom num_bits num_hashes))
          ≡ some filter)
        × (bloom.has filter hash ≡ true)
  run-has ops hash =
      let p = run_phase ops first_phase in
      shown-has hash p.added p.view
        (read_filter bloom (run bloom ops (new bloom num_bits num_hashes)))
        (run-read_filter bloom num_bits num_hashes ops).0
