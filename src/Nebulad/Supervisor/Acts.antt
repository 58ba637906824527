-- ===== src/Nebulad/Supervisor/Acts.antt =====
-- src/ogygia-macos-nebulad/src/supervisor.rs: a change is acted on.
use ogygia_nix.Base.{◌≡◌, ◌≢◌, refl, ◌∙◌, ap, subst, sym, Bool, true, false, none, some}
use ogygia_nix.Base.Text.{Text}
use ogygia_nix.Nebulad.{Result, ok, err}
use ogygia_nix.Nebulad.Supervisor.{
  Phase, without_config, retrying, watching, resting, restarting, ending, returned, Supervisor,
  World, changed, child_stopped, start, look, enter_loop, top, see, reset, wake_at, wake,
}

-- Where the loop is once it has passed its top.
pub data Arrived (w : World) (spawned : Result (Unit {0})) (s : Supervisor) : Type 0 where
  -- it has returned, since the daemon shuts down
  over : w.shutdown ≡ true → s.phase ≡ returned → s.child ≡ none → Arrived w spawned s
  -- no config, so no process
  off :
      w.config_exists ≡ false
      → s.phase ≡ without_config
      → s.child ≡ none
      → s.seen ≡ w.generation
      → Arrived w spawned s
  -- a process on the config that is there now
  on :
      spawned ≡ ok tt
      → s.phase ≡ watching w.now
      → s.child ≡ some w.version
      → s.seen ≡ w.generation
      → Arrived w spawned s
  -- the start failed
  failed :
      (e : Text)
      → spawned ≡ err e
      → s.phase ≡ retrying
      → s.child ≡ none
      → s.seen ≡ w.generation
      → Arrived w spawned s

module _ (w : World) where
  start-Arrived :
      (spawned : Result (Unit {0})) (s : Supervisor) → Arrived w spawned (start w spawned s)
  unfolding start
  start-Arrived (ok tt) s = on refl refl refl refl
  start-Arrived (err e) s = failed e refl refl refl refl

  look-Arrived :
      (spawned : Result (Unit {0})) (b : Bool) (s : Supervisor)
      → w.config_exists ≡ b
      → Arrived w spawned (look w spawned b s)
  unfolding look
  look-Arrived spawned true s e = start-Arrived spawned s
  look-Arrived spawned false s e = off e refl refl refl

  top-Arrived : (spawned : Result (Unit {0})) (s : Supervisor) → Arrived w spawned (top w spawned s)
  unfolding top enter_loop
  top-Arrived spawned s = by_shutdown w.shutdown refl
    where
      by_shutdown : (b : Bool) → w.shutdown ≡ b → Arrived w spawned (enter_loop w spawned b s)
      by_shutdown true e = over e refl refl
      by_shutdown false e = look-Arrived spawned w.config_exists s refl

  -- The end of a process is not waited for there.
  stays :
      (spawned : Result (Unit {0})) (s : Supervisor)
      → Arrived w spawned s
      → wake w spawned child_stopped s ≡ s
  unfolding wake wake_at
  stays spawned s (over _ e _) = rw e refl
  stays spawned s (off _ e _ _) = rw e refl
  stays spawned s (on _ e _ _) = rw e refl
  stays spawned s (failed _ _ e _ _) = rw e refl

-- A change of the config, and the end of the process where one runs, take the loop from wherever it
-- waits past its top, unless it is about to return: then a process runs on the config that is there
-- now, or there is none for want of a config or since its start failed, and the change is seen.
pub changed-Arrived :
    (w : World) (spawned : Result (Unit {0})) (s : Supervisor)
    → s.phase ≢ ending
    → s.phase ≢ returned
    → Arrived w spawned (wake w spawned child_stopped (wake w spawned changed s))
unfolding wake wake_at
changed-Arrived w spawned s e r = at_phase s.phase refl
  where
    passed :
        (s' : Supervisor)
        → wake w spawned changed s ≡ top w spawned s'
        → Arrived w spawned (wake w spawned child_stopped (wake w spawned changed s))
    passed s' same =
        let arrived = top-Arrived w spawned s' in
        subst (λ x. Arrived w spawned (wake w spawned child_stopped x)) (sym same)
          (subst (Arrived w spawned) (sym (stays w spawned _ arrived)) arrived)

    at_phase :
        (p : Phase)
        → s.phase ≡ p
        → Arrived w spawned (wake w spawned child_stopped (wake w spawned changed s))
    at_phase without_config at = passed (see w s) (ap (λ p. wake_at w spawned changed p s) at)
    at_phase retrying at = passed (see w s) (ap (λ p. wake_at w spawned changed p s) at)
    at_phase (watching t) at =
        let stop = ap (λ p. wake w spawned child_stopped (wake_at w spawned changed p s)) at in
        subst (Arrived w spawned) (sym stop) (top-Arrived w spawned _)
    at_phase (resting d) at = passed (reset (see w s)) (ap (λ p. wake_at w spawned changed p s) at)
    at_phase restarting at =
        let unmoved = ap (λ p. wake w spawned child_stopped (wake_at w spawned changed p s)) at in
        let stop = ap (λ p. wake_at w spawned child_stopped p s) at in
        subst (Arrived w spawned) (sym (unmoved ∙ stop)) (top-Arrived w spawned (reset s))
    at_phase ending at = absurd (e at)
    at_phase returned at = absurd (r at)
