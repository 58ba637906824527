-- ===== src/Irisd/Peers/History.antt =====
-- src/ogygia-irisd/src/bloom/peers.rs: how old a served filter is, and how often a peer is asked.
use ogygia_nix.Base.{
  ℕ, ◌+◌, ◌-◌, ◌≤◌, ◌<◌, ◌≡◌, ◌≢◌, inl, inr, refl, Bool, true, false, Option, none, some, List, [],
  ◌∷◌, ltb, arith, Option-cases, Bool-cases, subst, ltb→lt,
}
use ogygia_nix.Irisd.Local.{Bloom}
use ogygia_nix.Irisd.Peers.{
  Limits, Freshness, fresh, stale, expired, PeerBloomEntry, elapsed_below, recently_attempted,
  age_freshness, freshness, Plan, serve, refresh, fetch, stale_plan, expired_plan, plan_for,
  slow_path, fetched,
}

module _ (bloom : Bloom) where
  -- What happens to the entry of one peer: a task comes by the slow path, or a fetch ends.
  pub data Event : Type 0 where
    arrives : (now : ℕ) → Event
    ends : (now : ℕ) → Option bloom.Filter → Event

  abbrev pub note : Plan bloom → ℕ → List ℕ → List ℕ
  note serve now starts = starts
  note refresh now starts = now ∷ starts
  note fetch now starts = now ∷ starts

  -- When the fetches of a history start, the first one first.
  unfoldable pub starts : Limits → List Event → PeerBloomEntry bloom → List ℕ
  starts limits [] entry = []
  starts limits (arrives now ∷ events) entry =
      let r = slow_path bloom now limits entry in note r.1 now (starts limits events r.0)
  starts limits (ends now result ∷ events) entry =
      starts limits events (fetched bloom now result entry)

  -- Each is at least so long after the one before.
  abbrev pub Spaced : (gap : ℕ) → Option ℕ → List ℕ → Type 0
  Spaced gap last [] = Unit {0}
  Spaced gap none (t ∷ ts) = Spaced gap (some t) ts
  Spaced gap (some s) (t ∷ ts) = (s + gap ≤ t) × Spaced gap (some t) ts

  -- Where a fetch may start: the last attempt is a time to live ago.
  attempt-gap :
      (now : ℕ) (limits : Limits) (entry : PeerBloomEntry bloom) (rest : List ℕ)
      → 0 < limits.ttl
      → recently_attempted bloom now entry limits.ttl ≡ false
      → Spaced limits.ttl (some now) rest
      → Spaced limits.ttl entry.last_attempt_at (now ∷ rest)
  unfolding recently_attempted elapsed_below
  attempt-gap now limits entry rest positive quiet h = elim (Option-cases entry.last_attempt_at) [
    | inl e ↦ rw e h
    | inr (t, e) ↦ rw e (ground arith, h)
  ]

  -- The plan for an entry, and the last attempt that it records.
  plan-Spaced :
      (now : ℕ) (limits : Limits) (entry : PeerBloomEntry bloom) (events : List Event)
      (f : Freshness) (recent : Bool)
      → 0 < limits.ttl
      → recently_attempted bloom now entry limits.ttl ≡ recent
      → (let r = plan_for bloom f recent now entry in
          Spaced limits.ttl r.0.last_attempt_at (starts limits events r.0))
      → (let r = plan_for bloom f recent now entry in
          Spaced limits.ttl entry.last_attempt_at (note r.1 now (starts limits events r.0)))
  unfolding plan_for stale_plan expired_plan
  plan-Spaced now limits entry events fresh recent positive e h = h
  plan-Spaced now limits entry events stale true positive e h = h
  plan-Spaced now limits entry events stale false positive e h =
      attempt-gap now limits entry _ positive e h
  plan-Spaced now limits entry events expired true positive e h = h
  plan-Spaced now limits entry events expired false positive e h =
      attempt-gap now limits entry _ positive e h

  fetched-attempt :
      (now : ℕ) (result : Option bloom.Filter) (entry : PeerBloomEntry bloom)
      → (fetched bloom now result entry).last_attempt_at ≡ entry.last_attempt_at
  unfolding fetched
  fetched-attempt now none entry = refl
  fetched-attempt now (some filter) entry = refl

  -- However tasks arrive and fetches end, the first fetch of a peer starts at least the time to
  -- live, if that is positive, after the last attempt before it, and each later one at least the
  -- time to live after the one before.
  pub starts-Spaced :
      (limits : Limits) (events : List Event) (entry : PeerBloomEntry bloom)
      → 0 < limits.ttl
      → Spaced limits.ttl entry.last_attempt_at (starts limits events entry)
  unfolding starts slow_path
  starts-Spaced limits [] entry positive = tt
  starts-Spaced limits (arrives now ∷ events) entry positive =
      plan-Spaced now limits entry events (freshness bloom now limits entry) _ positive refl
        (starts-Spaced limits events (slow_path bloom now limits entry).0 positive)
  starts-Spaced limits (ends now result ∷ events) entry positive =
      subst (λ last. Spaced limits.ttl last (starts limits events (fetched bloom now result entry)))
        (fetched-attempt now result entry)
        (starts-Spaced limits events (fetched bloom now result entry) positive)

  -- The entry was fetched, within the maximal age.
  abbrev pub Young : ℕ → Limits → PeerBloomEntry bloom → Type 0
  Young now limits entry = (t : ℕ) × (entry.fetched_at ≡ some t) × (now - t < limits.max_age)

  age-young :
      (now : ℕ) (limits : Limits) (t : ℕ)
      → limits.ttl ≤ limits.max_age
      → age_freshness bloom now limits (some t) ≢ expired
      → now - t < limits.max_age
  unfolding age_freshness
  age-young now limits t le h = elim (Bool-cases (ltb (now - t) limits.max_age)) [
    | inl young ↦ ltb→lt (now - t) limits.max_age young
    | inr n ↦ absurd (h (ground arith))
  ]

  freshness-Young :
      (now : ℕ) (limits : Limits) (entry : PeerBloomEntry bloom)
      → limits.ttl ≤ limits.max_age
      → freshness bloom now limits entry ≢ expired
      → Young now limits entry
  unfolding freshness age_freshness
  freshness-Young now limits entry le h = elim (Option-cases entry.fetched_at) [
    | inl e ↦ absurd (h (rw e refl))
    | inr (t, e) ↦ (
      t,
      e,
      age-young now limits t le (subst (λ o. age_freshness bloom now limits o ≢ expired) e h),
    )
  ]

  plan-Young :
      (now : ℕ) (limits : Limits) (entry : PeerBloomEntry bloom) (f : Freshness) (recent : Bool)
      (filter : bloom.Filter)
      → freshness bloom now limits entry ≡ f
      → limits.ttl ≤ limits.max_age
      → (plan_for bloom f recent now entry).0.filter ≡ some filter
      → Young now limits (plan_for bloom f recent now entry).0
  unfolding plan_for stale_plan expired_plan
  plan-Young now limits entry fresh recent filter e le h =
      freshness-Young now limits entry le (λ x. cc)
  plan-Young now limits entry stale true filter e le h =
      freshness-Young now limits entry le (λ x. cc)
  plan-Young now limits entry stale false filter e le h =
      freshness-Young now limits entry le (λ x. cc)
  plan-Young now limits entry expired true filter e le h = cc
  plan-Young now limits entry expired false filter e le h = cc

  -- Where the time to live is within the maximal age, a filter that a task finds after its slow path
  -- was fetched less than the maximal age before: an older one is gone, whether or not the fetch
  -- that may follow succeeds.
  pub slow_path-Young :
      (now : ℕ) (limits : Limits) (entry : PeerBloomEntry bloom) (filter : bloom.Filter)
      → limits.ttl ≤ limits.max_age
      → (slow_path bloom now limits entry).0.filter ≡ some filter
      → Young now limits (slow_path bloom now limits entry).0
  unfolding slow_path
  slow_path-Young now limits entry filter le h =
      plan-Young now limits entry (freshness bloom now limits entry) _ filter refl le h
