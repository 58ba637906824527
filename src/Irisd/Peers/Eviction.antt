-- ===== src/Irisd/Peers/Eviction.antt =====
-- src/ogygia-irisd/src/bloom/peers.rs: the time that the eviction is scheduled for.
use ogygia_nix.Base.{
  ℕ, ◌+◌, ◌<◌, max, min, ◌≡◌, ◌↔◌, ◌⊎◌, inl, inr, refl, Bool, true, Option, none, some, List, [],
  ◌∷◌, arith, Option-cases,
}
use ogygia_nix.Base.Text.{Text}
use ogygia_nix.Irisd.Local.{Bloom}
use ogygia_nix.Irisd.Peers.{
  Limits, PeerBloomEntry, elapsed_below, recently_attempted, is_kept, evict_expired, later_of, plus,
  entry_deadline, earlier_of, next_eviction_time,
}

module _ (bloom : Bloom) where
  -- Every entry has been fetched or attempted.
  abbrev pub AllTried : List (Text × PeerBloomEntry bloom) → Type 0
  AllTried [] = Unit {0}
  AllTried ((_, entry) ∷ rest) =
      (((t : ℕ) × (entry.fetched_at ≡ some t)) ⊎ ((t : ℕ) × (entry.last_attempt_at ≡ some t)))
      × AllTried rest

  is_kept-before :
      (now : ℕ) (limits : Limits) (f a : Option ℕ) (filter : Option bloom.Filter) (deadline : ℕ)
      → 0 < limits.ttl
      → 0 < limits.max_age
      → entry_deadline bloom limits
          (record { filter = filter; fetched_at = f; last_attempt_at = a })
        ≡ some deadline
      → (is_kept bloom now limits (record { filter = filter; fetched_at = f; last_attempt_at = a })
          ≡ true)
        ↔ (now < deadline)
  unfolding is_kept recently_attempted elapsed_below entry_deadline later_of plus
  is_kept-before now limits none none filter deadline t m e = cc
  is_kept-before now limits (some f) none filter deadline t m e = ground arith
  is_kept-before now limits none (some a) filter deadline t m e = ground arith
  is_kept-before now limits (some f) (some a) filter deadline t m e = ground arith

  -- The entry's own times are at hand.
  is_kept-deadline :
      (now : ℕ) (limits : Limits) (entry : PeerBloomEntry bloom) (deadline : ℕ)
      → 0 < limits.ttl
      → 0 < limits.max_age
      → entry_deadline bloom limits entry ≡ some deadline
      → now < deadline
      → is_kept bloom now limits entry ≡ true
  is_kept-deadline now limits entry deadline t m e h =
      (is_kept-before now limits entry.fetched_at entry.last_attempt_at entry.filter deadline t m
          e).1
        h

  tried-deadline :
      (limits : Limits) (entry : PeerBloomEntry bloom)
      → ((t : ℕ) × (entry.fetched_at ≡ some t)) ⊎ ((t : ℕ) × (entry.last_attempt_at ≡ some t))
      → (deadline : ℕ) × (entry_deadline bloom limits entry ≡ some deadline)
  unfolding entry_deadline later_of plus
  tried-deadline limits entry (inl (t, e)) = elim (Option-cases entry.last_attempt_at) [
    | inl n ↦ (t + limits.max_age, rw (e, n) refl)
    | inr (a, n) ↦ (max (t + limits.max_age) (a + limits.ttl), rw (e, n) refl)
  ]
  tried-deadline limits entry (inr (t, e)) = elim (Option-cases entry.fetched_at) [
    | inl n ↦ (t + limits.ttl, rw (e, n) refl)
    | inr (a, n) ↦ (max (a + limits.max_age) (t + limits.ttl), rw (e, n) refl)
  ]

  earlier_of-both :
      (a now : ℕ) (o : Option ℕ)
      → ((t : ℕ) → earlier_of bloom (some a) o ≡ some t → now < t)
      → (now < a) × ((t : ℕ) → o ≡ some t → now < t)
  unfolding earlier_of
  earlier_of-both a now none h = (h a refl, λ t e. cc)
  earlier_of-both a now (some b) h =
      (omega (arith, h (min a b) refl), λ t e. ground (arith, h (min a b) refl))

  -- With positive durations and where every entry has been fetched or attempted, an eviction before
  -- the time that it is scheduled for removes nothing.
  pub evict_expired-early :
      (locked : Text → Bool) (now : ℕ) (limits : Limits)
      (peers : List (Text × PeerBloomEntry bloom))
      → 0 < limits.ttl
      → 0 < limits.max_age
      → AllTried peers
      → ((t : ℕ) → next_eviction_time bloom limits peers ≡ some t → now < t)
      → evict_expired bloom locked now limits peers ≡ peers
  unfolding evict_expired next_eviction_time
  evict_expired-early locked now limits [] t m tried h = refl
  evict_expired-early locked now limits ((url, entry) ∷ rest) t m tried h =
      let (deadline, e) = tried-deadline limits entry tried.0 in
      let (mine, others) =
        earlier_of-both deadline now (next_eviction_time bloom limits rest) (rw e at h) in
      let kept = is_kept-deadline now limits entry deadline t m e mine in
      let same = evict_expired-early locked now limits rest t m tried.1 others in
      ground (arith, kept, same)

  -- An entry that has been fetched or attempted and that nobody is writing survives an eviction
  -- exactly if it comes before the later of the two: its fetch and the maximal age, its last attempt and
  -- the time to live.
  pub is_kept_iff :
      (now : ℕ) (limits : Limits) (entry : PeerBloomEntry bloom) (deadline : ℕ)
      → 0 < limits.ttl
      → 0 < limits.max_age
      → entry_deadline bloom limits entry ≡ some deadline
      → (is_kept bloom now limits entry ≡ true) ↔ (now < deadline)
  is_kept_iff now limits entry deadline =
      is_kept-before now limits entry.fetched_at entry.last_attempt_at entry.filter deadline
