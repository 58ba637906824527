-- ===== src/Nebulad/Supervisor/Sound.antt =====
-- src/ogygia-macos-nebulad/src/supervisor.rs what holds where the loop waits, for a config that may have
-- been written since.
use ogygia_nix.Base.{
  ℕ, ◌-◌, ◌≤◌, ◌<◌, ◌≡◌, refl, sym, ◌∙◌, Bool, true, false, none, some, ◌⊎◌, inl, inr, arith,
}
use ogygia_nix.Base.Text.{Text}
use ogygia_nix.Nebulad.{Result, ok, err}
use ogygia_nix.Nebulad.Protocol.{stopped, running, exited}
use ogygia_nix.Nebulad.Supervisor.{
  min_backoff, max_backoff, Phase, without_config, retrying, watching, resting, restarting, ending,
  returned, Supervisor, World, Event, changed, told, slept, child_stopped, child_exited, start,
  look, enter_loop, top, see, reset, rest, wake_at,
}

-- A restart is due.
unfoldable pub Behind : Bool → World → ℕ → Type 0
Behind unticked w seen = (unticked ≡ true) ⊎ (seen < w.generation)

-- What holds where the loop waits.
unfoldable pub PhaseOk : Bool → World → Supervisor → Phase → Type 0
PhaseOk u w s without_config =
    (s.child ≡ none) × (s.nebula ≡ stopped) × ((w.config_exists ≡ false) ⊎ Behind u w s.seen)
PhaseOk u w s retrying = (s.child ≡ none) × ((r : Text) × (s.nebula ≡ exited r))
PhaseOk u w s (watching t) =
    (s.nebula ≡ running t) × ((v : ℕ) × (s.child ≡ some v) × ((v ≡ w.version) ⊎ Behind u w s.seen))
PhaseOk u w s (resting d) = (s.child ≡ none) × ((r : Text) × (s.nebula ≡ exited r))
PhaseOk u w s restarting = (v : ℕ) × (s.child ≡ some v)
PhaseOk u w s ending = (w.shutdown ≡ true) × ((v : ℕ) × (s.child ≡ some v))
PhaseOk u w s returned = (w.shutdown ≡ true) × (s.child ≡ none)

pub record IsSound (u : Bool) (w : World) (s : Supervisor) : Type 0 where
  pub seen_le : s.seen ≤ w.generation
  pub backoff_ge : min_backoff ≤ s.backoff
  pub backoff_le : s.backoff ≤ max_backoff
  pub phase_ok : PhaseOk u w s s.phase

module _ (u : Bool) (w : World) where
  look-IsSound :
      (spawned : Result (Unit {0})) (b : Bool) (s : Supervisor)
      → w.config_exists ≡ b
      → min_backoff ≤ s.backoff
      → s.backoff ≤ max_backoff
      → IsSound u w (look w spawned b s)
  unfolding look start PhaseOk
  look-IsSound (ok tt) true s e low high = record {
    seen_le = omega arith;
    backoff_ge = low;
    backoff_le = high;
    phase_ok = (refl, (w.version, refl, inl refl));
  }
  look-IsSound (err message) true s e low high = record {
    seen_le = omega arith;
    backoff_ge = low;
    backoff_le = high;
    phase_ok = (refl, (_, refl));
  }
  look-IsSound spawned false s e low high = record {
    seen_le = omega arith;
    backoff_ge = low;
    backoff_le = high;
    phase_ok = (refl, refl, inl e);
  }

  enter_loop-IsSound :
      (spawned : Result (Unit {0})) (b : Bool) (s : Supervisor)
      → w.shutdown ≡ b
      → s.seen ≤ w.generation
      → min_backoff ≤ s.backoff
      → s.backoff ≤ max_backoff
      → IsSound u w (enter_loop w spawned b s)
  unfolding enter_loop PhaseOk
  enter_loop-IsSound spawned true s e seen low high = record {
    seen_le = seen;
    backoff_ge = low;
    backoff_le = high;
    phase_ok = (e, refl);
  }
  enter_loop-IsSound spawned false s e seen low high =
      look-IsSound spawned w.config_exists s refl low high

  pub top-IsSound :
      (spawned : Result (Unit {0})) (s : Supervisor)
      → s.seen ≤ w.generation
      → min_backoff ≤ s.backoff
      → s.backoff ≤ max_backoff
      → IsSound u w (top w spawned s)
  unfolding top
  top-IsSound spawned s seen low high = enter_loop-IsSound spawned w.shutdown s refl seen low high

  rest-IsSound :
      (ran : ℕ) (reason : Text) (s : Supervisor)
      → s.seen ≤ w.generation
      → min_backoff ≤ s.backoff
      → s.backoff ≤ max_backoff
      → IsSound u w (rest ran reason s)
  unfolding rest PhaseOk
  rest-IsSound ran reason s seen low high = record {
    seen_le = seen;
    backoff_ge = ground arith;
    backoff_le = ground arith;
    phase_ok = (refl, (reason, refl));
  }

  -- To wait elsewhere changes nothing else.
  moved :
      (p : Phase) (s : Supervisor)
      → IsSound u w s
      → PhaseOk u w s p
      → IsSound u w (record s { phase = p })
  unfolding PhaseOk
  moved p s h k = record {
    seen_le = h.seen_le;
    backoff_ge = h.backoff_ge;
    backoff_le = h.backoff_le;
    phase_ok = of_phase p k;
  }
    where
      of_phase : (q : Phase) → PhaseOk u w s q → PhaseOk u w (record s { phase = p }) q
      of_phase without_config k = k
      of_phase retrying k = k
      of_phase (watching t) k = k
      of_phase (resting d) k = k
      of_phase restarting k = k
      of_phase ending k = k
      of_phase returned k = k

  pub wake_at-IsSound :
      (spawned : Result (Unit {0})) (e : Event) (p : Phase) (s : Supervisor)
      → (e ≡ told → w.shutdown ≡ true)
      → PhaseOk u w s p
      → IsSound u w s
      → IsSound u w (wake_at w spawned e p s)
  unfolding wake_at see reset PhaseOk
  wake_at-IsSound spawned changed without_config s ends k h =
      top-IsSound spawned (see w s) (omega arith) h.backoff_ge h.backoff_le
  wake_at-IsSound spawned changed retrying s ends k h =
      top-IsSound spawned (see w s) (omega arith) h.backoff_ge h.backoff_le
  wake_at-IsSound spawned changed (resting d) s ends k h =
      top-IsSound spawned (reset (see w s)) (omega arith) (omega arith) (omega arith)
  wake_at-IsSound spawned changed (watching t) s ends k h = record {
    seen_le = omega arith;
    backoff_ge = h.backoff_ge;
    backoff_le = h.backoff_le;
    phase_ok = (k.1.0, k.1.1);
  }
  wake_at-IsSound spawned slept retrying s ends k h =
      top-IsSound spawned s h.seen_le h.backoff_ge h.backoff_le
  wake_at-IsSound spawned slept (resting d) s ends k h =
      top-IsSound spawned s h.seen_le h.backoff_ge h.backoff_le
  wake_at-IsSound spawned child_stopped restarting s ends k h =
      top-IsSound spawned (reset s) h.seen_le (omega arith) (omega arith)
  wake_at-IsSound spawned child_stopped ending s ends k h = record {
    seen_le = h.seen_le;
    backoff_ge = h.backoff_ge;
    backoff_le = h.backoff_le;
    phase_ok = (k.0, refl);
  }
  wake_at-IsSound spawned (child_exited reason) (watching t) s ends k h =
      rest-IsSound (w.now - t) reason s h.seen_le h.backoff_ge h.backoff_le
  wake_at-IsSound spawned told without_config s ends k h = moved returned s h (ends refl, k.0)
  wake_at-IsSound spawned told retrying s ends k h = moved returned s h (ends refl, k.0)
  wake_at-IsSound spawned told (resting d) s ends k h = moved returned s h (ends refl, k.0)
  wake_at-IsSound spawned told (watching t) s ends k h =
      moved ending s h (ends refl, (k.1.0, k.1.1))
  wake_at-IsSound spawned _ _ s ends k h = h

-- The world moves on, and what was due still is.
module _ (u u' : Bool) (w w' : World) (s : Supervisor) where
  pub later-IsSound :
      w.generation ≤ w'.generation
      → (w.shutdown ≡ true → w'.shutdown ≡ true)
      → (Behind u w s.seen → Behind u' w' s.seen)
      → ((w.config_exists ≡ false) → (w'.config_exists ≡ false) ⊎ Behind u' w' s.seen)
      → ((w'.version ≡ w.version) ⊎ Behind u' w' s.seen)
      → IsSound u w s
      → IsSound u' w' s
  unfolding PhaseOk
  later-IsSound more ends due still same h = record {
    seen_le = omega (arith, h.seen_le);
    backoff_ge = h.backoff_ge;
    backoff_le = h.backoff_le;
    phase_ok = of_phase s.phase h.phase_ok;
  }
    where
      exists :
          (w.config_exists ≡ false) ⊎ Behind u w s.seen
          → (w'.config_exists ≡ false) ⊎ Behind u' w' s.seen
      exists (inl e) = still e
      exists (inr b) = inr (due b)

      version :
          (v : ℕ)
          → (v ≡ w.version) ⊎ Behind u w s.seen
          → (w'.version ≡ w.version) ⊎ Behind u' w' s.seen
          → (v ≡ w'.version) ⊎ Behind u' w' s.seen
      version v (inl e) (inl f) = inl (e ∙ sym f)
      version v (inl e) (inr b) = inr b
      version v (inr b) _ = inr (due b)

      of_phase : (p : Phase) → PhaseOk u w s p → PhaseOk u' w' s p
      of_phase without_config k = (k.0, k.1, exists k.2)
      of_phase retrying k = k
      of_phase (watching t) k = (k.0, (k.1.0, k.1.1, version k.1.0 k.1.2 same))
      of_phase (resting d) k = k
      of_phase restarting k = k
      of_phase ending k = (ends k.0, k.1)
      of_phase returned k = (ends k.0, k.1)
