-- ===== src/Nebulad/Supervisor/Current.antt =====
-- src/ogygia-macos-nebulad/src/supervisor.rs beside the daemon that writes the config: the process is
-- one of the newest config, or a restart is due. `set_config` writes the config and then ticks, or
-- returns without a tick.
use ogygia_nix.Base.{
  ℕ, suc, ◌+◌, ◌≤◌, ◌<◌, ◌≡◌, refl, ◌∙◌, ap, subst, Bool, true, false, some, ◌⊎◌, inl, inr, arith,
}
use ogygia_nix.Nebulad.{Result}
use ogygia_nix.Nebulad.Supervisor.{
  min_backoff, max_backoff, without_config, watching, Supervisor, World, Event, changed, told,
  slept, child_stopped, child_exited, wake, begin,
}
use ogygia_nix.Nebulad.Supervisor.Sound.{
  Behind, PhaseOk, IsSound, top-IsSound, wake_at-IsSound, later-IsSound,
}

-- The supervisor, what it reads, and whether the config was written after the last tick.
pub record System : Type 0 where
  pub world : World
  pub sup : Supervisor
  pub unticked : Bool

-- When an event may come.
pub Comes : Event → System → Type 0
Comes changed s = s.sup.seen < s.world.generation
Comes told s = s.world.shutdown ≡ true
Comes _ s = Unit {0}

pub data Step (s : System) : System → Type 0 where
  written :
      (config_exists : Bool)
      → Step s (record s {
        world = record s.world { version = suc s.world.version; config_exists = config_exists };
        unticked = true;
      })
  ticked :
      s.unticked ≡ true
      → Step s (record s {
        world = record s.world { generation = suc s.world.generation };
        unticked = false;
      })
  shut : Step s (record s { world = record s.world { shutdown = true } })
  passed : (time : ℕ) → Step s (record s { world = record s.world { now = s.world.now + time } })
  woken :
      (e : Event) (spawned : Result (Unit {0}))
      → Comes e s
      → Step s (record s { sup = wake s.world spawned e s.sup })

pub data Reach : System → Type 0 where
  began :
      (w : World) (spawned : Result (Unit {0}))
      → Reach (record { world = w; sup = begin w spawned; unticked = false })
  next : {s t : System} → Reach s → Step s t → Reach t

step-IsSound :
    (s t : System) → Step s t → IsSound s.unticked s.world s.sup → IsSound t.unticked t.world t.sup
unfolding Comes wake Behind
step-IsSound s _ (written b) h =
    later-IsSound s.unticked true s.world _ s.sup (omega arith) (λ x. x) (λ x. inl refl)
      (λ x. inr (inl refl)) (inr (inl refl)) h
step-IsSound s _ (ticked e) h =
    let due : s.sup.seen < suc s.world.generation = omega (arith, h.seen_le) in
    later-IsSound s.unticked false s.world _ s.sup (omega arith) (λ x. x) (λ x. inr due)
      (λ x. inl x) (inl refl) h
step-IsSound s _ shut h =
    later-IsSound s.unticked s.unticked s.world _ s.sup (omega arith) (λ x. refl) (λ x. x)
      (λ x. inl x) (inl refl) h
step-IsSound s _ (passed d) h =
    later-IsSound s.unticked s.unticked s.world _ s.sup (omega arith) (λ x. x) (λ x. x) (λ x. inl x)
      (inl refl) h
step-IsSound s _ (woken e spawned c) h =
    wake_at-IsSound s.unticked s.world spawned e s.sup.phase s.sup (ends e c) h.phase_ok h
  where
    ends : (e : Event) → Comes e s → e ≡ told → s.world.shutdown ≡ true
    ends told c x = c
    ends changed c x = cc
    ends slept c x = cc
    ends child_stopped c x = cc
    ends (child_exited _) c x = cc

Reach-IsSound : (s : System) → Reach s → IsSound s.unticked s.world s.sup
unfolding begin
Reach-IsSound _ (began w spawned) =
    top-IsSound false w spawned _ (omega arith) (omega arith) (omega arith)
Reach-IsSound t (next {s} r step) = step-IsSound s t step (Reach-IsSound s r)

-- What the loop keeps, whatever is written, told and waited for: the delay before the next restart
-- is from one second to one minute, a process that it waits on is shown as running, and there is none
-- where it waits for a config, after an exit or a failed start, or has returned.
pub Reach-bounds :
    (s : System)
    → Reach s
    → (min_backoff ≤ s.sup.backoff)
      × (s.sup.backoff ≤ max_backoff)
      × PhaseOk s.unticked s.world s.sup s.sup.phase
Reach-bounds s r = let h = Reach-IsSound s r in (h.backoff_ge, h.backoff_le, h.phase_ok)

-- Where the last write of the config was followed by a tick, as it is not if the certificate could
-- not be written after it, and the loop has seen every tick, the process that it waits on was started
-- on the newest config, and where it waits for a config there is none.
pub settled-newest :
    (s : System)
    → Reach s
    → s.unticked ≡ false
    → s.sup.seen ≡ s.world.generation
    → ((t : ℕ) → s.sup.phase ≡ watching t → s.sup.child ≡ some s.world.version)
      × (s.sup.phase ≡ without_config → s.world.config_exists ≡ false)
unfolding PhaseOk Behind
settled-newest s r u seen = (on_newest, without)
  where
    none_due : Behind s.unticked s.world s.sup.seen → ⊥
    none_due (inl e) = cc
    none_due (inr e) = omega (arith, seen)

    newest :
        (v : ℕ)
        → s.sup.child ≡ some v
        → (v ≡ s.world.version) ⊎ Behind s.unticked s.world s.sup.seen
        → s.sup.child ≡ some s.world.version
    newest v child (inl e) = child ∙ ap some e
    newest v child (inr b) = absurd (none_due b)

    on_newest : (t : ℕ) → s.sup.phase ≡ watching t → s.sup.child ≡ some s.world.version
    on_newest t at =
        let k = subst (PhaseOk s.unticked s.world s.sup) at (Reach-IsSound s r).phase_ok in
        newest k.1.0 k.1.1 k.1.2

    missing :
        (s.world.config_exists ≡ false) ⊎ Behind s.unticked s.world s.sup.seen
        → s.world.config_exists ≡ false
    missing (inl e) = e
    missing (inr b) = absurd (none_due b)

    without : s.sup.phase ≡ without_config → s.world.config_exists ≡ false
    without at =
        let k = subst (PhaseOk s.unticked s.world s.sup) at (Reach-IsSound s r).phase_ok in
        missing k.2
