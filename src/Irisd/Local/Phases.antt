-- ===== src/Irisd/Local/Phases.antt =====
-- src/ogygia-irisd/src/bloom/local.rs: what a filter that is being replaced shows to its readers.
use ogygia_nix.Base.{
  ℕ, suc, ◌%◌, ◌^◌, ◌<◌, ◌≡◌, ◌≢◌, refl, ◌∙◌, ap, none, some, List, [], ◌∷◌, arith, length, ==_refl,
}
use ogygia_nix.Base.Text.{Text}
use ogygia_nix.Irisd.Local.{
  Bloom, Op, insert, mark_deletion, start_rebuild, finish_rebuild, LocalBloom, set_filter,
  fetch_add, new, run_insert, run_mark_deletion, run_start_rebuild, run_finish_rebuild, step, run,
  read_filter,
}

-- What readers see, as a list of hashes: nothing before the first scan has finished, the filter
-- that is written while no rebuild is under way, and the old one during a rebuild.
pub data View : Type 0 where
  not_ready current : View
  old : List Text → View

-- The hashes that were inserted since the last start of a rebuild, latest first, with what readers
-- see.
pub record Phase : Type 0 where
  pub added : List Text
  pub view : View

abbrev pub begin_view : View → List Text → View
begin_view not_ready added = not_ready
begin_view current added = old added
begin_view (old served) added = old served

unfoldable pub step_phase : Op → Phase → Phase
step_phase (insert hash) p = record { added = hash ∷ p.added; view = p.view }
step_phase mark_deletion p = p
step_phase start_rebuild p = record { added = []; view = begin_view p.view p.added }
step_phase finish_rebuild p = record { added = p.added; view = current }

unfoldable pub run_phase : List Op → Phase → Phase
run_phase [] p = p
run_phase (op ∷ ops) p = run_phase ops (step_phase op p)

abbrev pub first_phase : Phase
first_phase = record { added = []; view = not_ready }

below-apart : (a b : ℕ) → a < b → a ≢ b
below-apart a b h e = absurd (omega arith)

below-suc : (a b : ℕ) → a < b → a < suc b
below-suc a b h = omega arith

module _ (bloom : Bloom) (num_bits num_hashes : ℕ) where
  -- The filter that exactly these hashes were inserted into.
  abbrev pub filled : List Text → bloom.Filter
  filled [] = bloom.with_num_bits num_bits num_hashes
  filled (hash ∷ hashes) = bloom.add hash (filled hashes)

  Shows : LocalBloom bloom → View → Type 0
  Shows s not_ready = s.read_bloom ≡ none
  Shows s current = s.read_bloom ≡ some s.write_bloom
  Shows s (old served) =
      (at : ℕ) × (s.read_bloom ≡ some at)
      × (at ≢ s.write_bloom)
      × (at < s.next)
      × (s.filters at ≡ filled served)

  record Refines (s : LocalBloom bloom) (p : Phase) : Type 0 where
    writes : s.filters s.write_bloom ≡ filled p.added
    below : s.write_bloom < s.next
    bits : s.num_bits ≡ num_bits
    hashes : s.num_hashes ≡ num_hashes
    count : s.element_count ≡ length p.added % 2 ^ 64
    shows : Shows s p.view

  set-same : (at : ℕ) (f : bloom.Filter) (fs : ℕ → bloom.Filter) → set_filter bloom at f fs at ≡ f
  unfolding set_filter
  set-same at f fs = rw (==_refl at) refl

  set-other :
      (at i : ℕ) (f : bloom.Filter) (fs : ℕ → bloom.Filter)
      → i ≢ at
      → set_filter bloom at f fs i ≡ fs i
  unfolding set_filter
  set-other at i f fs n = ground arith

  insert-Shows :
      (hash : Text) (s : LocalBloom bloom) (v : View)
      → Shows s v
      → Shows (run_insert bloom hash s) v
  unfolding Shows run_insert
  insert-Shows hash s not_ready h = h
  insert-Shows hash s current h = h
  insert-Shows hash s (old served) (at, r, n, b, f) =
      (at, r, n, b, set-other _ at _ s.filters n ∙ f)

  deletion-Shows :
      (s : LocalBloom bloom) (v : View) → Shows s v → Shows (run_mark_deletion bloom s) v
  unfolding Shows run_mark_deletion
  deletion-Shows s not_ready h = h
  deletion-Shows s current h = h
  deletion-Shows s (old served) h = h

  start-Shows :
      (s : LocalBloom bloom) (p : Phase) (v : View)
      → Refines s p
      → Shows s v
      → Shows (run_start_rebuild bloom s) (begin_view v p.added)
  unfolding Shows run_start_rebuild
  start-Shows s p not_ready h v = v
  start-Shows s p current h v = (
    s.write_bloom,
    v,
    below-apart _ _ h.below,
    below-suc _ _ h.below,
    set-other _ s.write_bloom _ s.filters (below-apart _ _ h.below) ∙ h.writes,
  )
  start-Shows s p (old served) h (at, r, n, b, f) = (
    at,
    r,
    below-apart _ _ b,
    below-suc _ _ b,
    set-other _ at _ s.filters (below-apart _ _ b) ∙ f,
  )

  step-Refines :
      (op : Op) (s : LocalBloom bloom) (p : Phase)
      → Refines s p
      → Refines (step bloom op s) (step_phase op p)
  unfolding step step_phase run_insert run_mark_deletion run_start_rebuild run_finish_rebuild
      fetch_add Shows
  step-Refines (insert hash) s p h = record {
    writes = set-same s.write_bloom _ s.filters ∙ ap (bloom.add hash) h.writes;
    below = h.below;
    bits = h.bits;
    hashes = h.hashes;
    count = omega (arith, h.count);
    shows = insert-Shows hash s p.view h.shows;
  }
  step-Refines mark_deletion s p h = record {
    writes = h.writes;
    below = h.below;
    bits = h.bits;
    hashes = h.hashes;
    count = h.count;
    shows = deletion-Shows s p.view h.shows;
  }
  step-Refines start_rebuild s p h = record {
    writes = set-same s.next _ s.filters ∙ rw (h.bits, h.hashes) refl;
    below = omega arith;
    bits = h.bits;
    hashes = h.hashes;
    count = refl;
    shows = start-Shows s p p.view h h.shows;
  }
  step-Refines finish_rebuild s p h = record {
    writes = h.writes;
    below = h.below;
    bits = h.bits;
    hashes = h.hashes;
    count = h.count;
    shows = refl;
  }

  run-Refines :
      (ops : List Op) (s : LocalBloom bloom) (p : Phase)
      → Refines s p
      → Refines (run bloom ops s) (run_phase ops p)
  unfolding run run_phase
  run-Refines [] s p h = h
  run-Refines (op ∷ ops) s p h =
      run-Refines ops (step bloom op s) (step_phase op p) (step-Refines op s p h)

  new-Refines : Refines (new bloom num_bits num_hashes) first_phase
  unfolding new Shows
  new-Refines = record {
    writes = refl;
    below = omega arith;
    bits = refl;
    hashes = refl;
    count = refl;
    shows = refl;
  }

  Shows-read :
      (s : LocalBloom bloom) (p : Phase) (v : View)
      → s.filters s.write_bloom ≡ filled p.added
      → Shows s v
      → read_filter bloom s ≡ elim v [
        | not_ready ↦ none
        | current ↦ some (filled p.added)
        | old served ↦ some (filled served)
      ]
  unfolding Shows read_filter
  Shows-read s p not_ready w h = rw h refl
  Shows-read s p current w h = rw (h, w) refl
  Shows-read s p (old served) w (at, r, n, b, f) = rw (r, f) refl

  -- After any history of insertions, deletions and rebuilds, readers see no filter until the first
  -- scan has finished; while no rebuild is under way they see exactly the hashes inserted since the
  -- last start of a rebuild, later insertions included; and from the start of a rebuild until one
  -- finishes they see exactly what they saw as it started. The element count is the number of
  -- insertions since the last start of a rebuild, modulo 2^64.
  pub run-read_filter :
      (ops : List Op)
      → let s = run bloom ops (new bloom num_bits num_hashes) in
        let p = run_phase ops first_phase in
        (read_filter bloom s ≡ elim p.view [
          | not_ready ↦ none
          | current ↦ some (filled p.added)
          | old served ↦ some (filled served)
        ])
        × (s.element_count ≡ length p.added % 2 ^ 64)
  run-read_filter ops =
      let s = run bloom ops (new bloom num_bits num_hashes) in
      let p = run_phase ops first_phase in
      let h = run-Refines ops (new bloom num_bits num_hashes) first_phase new-Refines in
      (Shows-read s p p.view h.writes h.shows, h.count)
