-- ===== src/Updated/Cycle/Quiet.antt =====
-- src/ogygia-updated/src/engine.rs: `Outcome::activated` against the activations that a cycle runs.
use ogygia_nix.Base.{
  ℕ, Bool, true, false, not, ◌&&◌, Option, none, some, List, ◌≡◌, refl, All, ◌==◌, if◌then◌else◌,
}
use ogygia_nix.Base.Text.{Text}
use ogygia_nix.Updated.Config.{Config}
use ogygia_nix.Updated.Canary.{
  DateTime, Chrono, CanaryState, CanaryTarget, CanaryHold, active, finished, ephemeral, persistent,
  FinishReason,
}
use ogygia_nix.Updated.Result.{Result, ok, err, panic}
use ogygia_nix.Updated.Repo.{Oid, Git}
use ogygia_nix.Updated.Outcome.{Outcome, Trigger, scheduled, manual, start_canary}
use ogygia_nix.Updated.World.{World, System, Call, test, switch, boot, M, pure, ◌>>=◌}
use ogygia_nix.Updated.Policy.{same_kernel, is_persistent, is_past, is_lost}
use ogygia_nix.Updated.Effects.{
  read_current, read_next_boot, run_set_profile, run_switch, run_build, run_attr_defined,
  run_schedule_reboot, run_checkout, store, finish_canary, load_canary,
}
use ogygia_nix.Updated.Engine.{
  checkout_and_build, activate, prefetch_attr, prefetched, build_and_activate, update_to_tip,
  stage_boot_floor, start_trial,
}
use ogygia_nix.Updated.Effects.Frame.{
  set_profile-Runs, switch-Runs, build-Runs, prefetch-Runs, attr_defined-Runs, schedule_reboot-Runs,
  store-calls, checkout-calls, current-Runs, next_boot-Runs,
}
use ogygia_nix.Updated.Steps.{Emits, bind-ok, bind-Emits, lift-Emits, pure-Emits, if-Emits}
use ogygia_nix.Updated.World.{Ran, then_run}
use ogygia_nix.Base.{All-append}
use ogygia_nix.Updated.Outcome.{activated, switched, test_activated, canary_started}
use ogygia_nix.Updated.Cycle.{
  end_trial, held_boot, continue_trial, scheduled_trial, scheduled_cycle, clear_canary, dispatch,
  run,
}

-- A command that does not activate a system now: the running system stays.
abbrev pub IsIdle : Call → Type 0
IsIdle (Call.switch_to_configuration _ test) = ⊥
IsIdle (Call.switch_to_configuration _ switch) = ⊥
IsIdle _ = Unit {0}

-- If the step returns an outcome that does not count as activated, it activated nothing.
abbrev Settled : Ran Outcome → Type 0
Settled r = (o : Outcome) → r.result ≡ ok o → activated o ≡ false → All IsIdle r.calls

record Quiet (m : M Outcome) : Type 0 where
  quiet : (w : World) → Settled (m w)

then_run-Settled {ℓ} :
    {A : Type ℓ} (r : Result A) (w : World) (calls : List Call) (f : A → M Outcome)
    → All IsIdle calls
    → ((a : A) → Quiet (f a))
    → Settled (then_run r w calls f)
then_run-Settled (ok a) w calls f h k o e n =
    All-append IsIdle calls (f a w).calls h ((k a).quiet w o e n)
then_run-Settled (err e) w calls f h k o r n = h
then_run-Settled panic w calls f h k o r n = h

-- Steps that activate nothing may stand before.
bind-Quiet {ℓ} :
    {A : Type ℓ} (m : M A) (f : A → M Outcome)
    → Emits IsIdle m
    → ((a : A) → Quiet (f a))
    → Quiet (m >>= f)
unfolding ◌>>=◌
bind-Quiet m f h k = record {
  quiet = λ w. then_run-Settled (m w).result (m w).world (m w).calls f (h.emits w) k;
}

if-Quiet : (b : Bool) (m n : M Outcome) → Quiet m → Quiet n → Quiet (if b then m else n)
if-Quiet true m n h k = h
if-Quiet false m n h k = k

pure-Quiet : (o : Outcome) → Quiet (pure o)
unfolding pure
pure-Quiet o = record { quiet = λ w o' e n. tt }

-- A step of any kind may stand before an outcome that counts as activated.
activated-Quiet {ℓ} :
    {A : Type ℓ} (m : M A) (p : A → Outcome)
    → ((a : A) → activated (p a) ≡ true)
    → Quiet (m >>= λ a. pure (p a))
unfolding pure
activated-Quiet m p loud = record {
  quiet = λ w o h n.
      let (a, _, r, _, _) = bind-ok m (λ a. pure (p a)) w o h in
      absurd (clash (p a) o r (loud a) n);
}
  where
    clash : (q o : Outcome) → ok q ≡ ok o → activated q ≡ true → activated o ≡ false → ⊥
    clash q o e t f = cc

module _ (config : Config) (system : System) (git : Git) where
  abbrev Idle {ℓ} : {A : Type ℓ} → M A → Type ℓ
  Idle m = Emits IsIdle m

  set_profile-Idle : (profile p : Text) → Idle (run_set_profile system profile p)
  set_profile-Idle profile p = record {
    emits = λ w. rw (set_profile-Runs system w profile p).0 (tt, tt);
  }

  boot-Idle : (p : Text) → Idle (run_switch system p boot)
  boot-Idle p = record { emits = λ w. rw (switch-Runs system w p boot).0 (tt, tt) }

  checkout-Idle : (c : Oid) → Idle (run_checkout git c)
  checkout-Idle c = record { emits = λ w. rw (checkout-calls git w c).0 tt }

  store-Idle : (s : CanaryState) → Idle (store system s)
  store-Idle s = record { emits = λ w. rw (store-calls system w s) tt }

  current-Idle : Idle (read_current git)
  current-Idle = record { emits = λ w. rw (current-Runs git w).0 tt }

  next_boot-Idle : Idle (read_next_boot git)
  next_boot-Idle = record { emits = λ w. rw (next_boot-Runs git w).0 tt }

  build-Idle : (f : Text) → Idle (run_build system f)
  build-Idle f = record { emits = λ w. rw (build-Runs system w f).0 (tt, tt) }

  attr_defined-Idle : (f : Text) → Idle (run_attr_defined system f)
  attr_defined-Idle f = record { emits = λ w. rw (attr_defined-Runs system w f).0 (tt, tt) }

  reboot-Idle : (delay : ℕ) → Idle (run_schedule_reboot system delay)
  reboot-Idle delay = record { emits = λ w. rw (schedule_reboot-Runs system w delay).0 (tt, tt) }

  prefetch_attr-Idle : (o : Option Text) → Idle (prefetch_attr config system git o)
  unfolding prefetch_attr
  prefetch_attr-Idle none = pure-Emits true
  prefetch_attr-Idle (some attr) = record { emits = λ w. rw (prefetch-Runs system w _).0 (tt, tt) }

  stage_boot_floor-Idle : (commit tip : Oid) → Idle (stage_boot_floor config system git commit tip)
  unfolding stage_boot_floor checkout_and_build
  stage_boot_floor-Idle commit tip = bind-Emits _ _ (lift-Emits _) λ floor.
      bind-Emits _ _ next_boot-Idle λ next_boot. bind-Emits _ _ (checkout-Idle floor) λ _.
        bind-Emits _ _ (attr_defined-Idle _) λ defined. if-Emits (not defined) _ _ (pure-Emits _) (
          if-Emits (next_boot == floor) _ _ (pure-Emits _) (
            bind-Emits _ _ (bind-Emits _ _ (checkout-Idle floor) λ _. build-Idle _) λ p.
              bind-Emits _ _ (set_profile-Idle _ p)
                λ _. bind-Emits _ _ (boot-Idle p) λ _. pure-Emits _))

  activate-Quiet : (p : Text) (tip : Oid) (b : Bool) → Quiet (activate config system git p tip b)
  unfolding activate activated
  activate-Quiet p tip b =
      if-Quiet (not b) _ _ (activated-Quiet _ (λ _. test_activated _) (λ _. refl)) (
        if-Quiet (not config.activate.allow_reboot) _ _
          (bind-Quiet _ _ (set_profile-Idle _ p)
            λ _. activated-Quiet _ (λ _. switched _) (λ _. refl))
          (bind-Quiet _ _ (set_profile-Idle _ p) λ _. bind-Quiet _ _ (boot-Idle p) λ _.
            if-Quiet
              (same_kernel (system.kernel_links config.activate.booted_system)
                (system.kernel_links p))
              _ _ (activated-Quiet _ (λ _. switched _) (λ _. refl))
              (bind-Quiet _ _ (reboot-Idle _) λ _. pure-Quiet _)))

  update_to_tip-Quiet :
      (tip : Oid) (force : Bool) → Quiet (update_to_tip config system git tip force)
  unfolding update_to_tip build_and_activate prefetched
  update_to_tip-Quiet tip force = bind-Quiet _ _ current-Idle λ current.
      bind-Quiet _ _ next_boot-Idle λ next_boot. bind-Quiet _ _ (lift-Emits _) λ allowed.
        if-Quiet (not allowed) _ _ (pure-Quiet _) (
          if-Quiet (current == tip && next_boot == tip) _ _ (pure-Quiet _) (
            bind-Quiet _ _ (checkout-Idle tip) λ _.
              bind-Quiet _ _ (prefetch_attr-Idle config.build.prefetch_attr) λ available.
                if-Quiet (not available) _ _ (pure-Quiet _) (
                  bind-Quiet _ _ (build-Idle _)
                    λ p. bind-Quiet _ _ (lift-Emits _) λ b. activate-Quiet p tip b)))

  start_trial-Quiet :
      (tip : Oid) (branch : Text) (expires_at : Option DateTime) (hold : CanaryHold)
      → Quiet (start_trial config system git tip branch expires_at hold)
  unfolding start_trial activated
  start_trial-Quiet tip branch expires_at hold = bind-Quiet _ _ (lift-Emits _) λ commit.
      bind-Quiet _ _ (store-Idle _) λ _. bind-Quiet _ _ current-Idle λ current.
        if-Quiet (is_persistent hold) _ _
          (activated-Quiet _ (λ _. canary_started _ _ true _) (λ _. refl))
          (activated-Quiet _ (λ floor. canary_started _ (git.oid_to_string floor) false _)
            (λ _. refl))

  end_trial-Quiet :
      (now : DateTime) (target : CanaryTarget) (reason : FinishReason) (tip : Oid) (force : Bool)
      → Quiet (end_trial config system git now target reason tip force)
  unfolding end_trial finish_canary
  end_trial-Quiet now target reason tip force =
      bind-Quiet _ _ (store-Idle _) λ _. update_to_tip-Quiet tip force

  held_boot-Idle :
      (hold : CanaryHold) (commit tip : Oid) → Idle (held_boot config system git hold commit tip)
  unfolding held_boot
  held_boot-Idle (ephemeral _) commit tip = stage_boot_floor-Idle commit tip
  held_boot-Idle persistent commit tip = pure-Emits commit

  scheduled_trial-Quiet :
      (now : DateTime) (boot_id : Text) (tip : Oid) (target : CanaryTarget)
      (expires_at : Option DateTime) (hold : CanaryHold)
      → Quiet (scheduled_trial config system git now boot_id tip target expires_at hold)
  unfolding scheduled_trial continue_trial
  scheduled_trial-Quiet now boot_id tip target expires_at hold =
      bind-Quiet _ _ (lift-Emits _) λ commit.
        if-Quiet (is_lost hold boot_id) _ _ (end_trial-Quiet _ _ _ _ _) (
          bind-Quiet _ _ current-Idle λ current.
            if-Quiet (not (current == commit)) _ _ (end_trial-Quiet _ _ _ _ _) (
              bind-Quiet _ _ (lift-Emits _) λ has_merged.
                if-Quiet has_merged _ _ (end_trial-Quiet _ _ _ _ _) (
                  if-Quiet (is_past expires_at now) _ _ (end_trial-Quiet _ _ _ _ _)
                    (bind-Quiet _ _ (held_boot-Idle hold commit tip) λ _. pure-Quiet _))))

  clear_canary-Idle :
      (now : DateTime) (canary : Option CanaryState)
      → Idle (clear_canary config system git now canary)
  unfolding clear_canary finish_canary
  clear_canary-Idle now none = pure-Emits tt
  clear_canary-Idle now (some (finished _ _ _)) = pure-Emits tt
  clear_canary-Idle now (some (active target _ _)) = store-Idle _

  dispatch-Quiet :
      (chrono : Chrono) (now : DateTime) (boot_id : Text) (tip : Oid) (canary : Option CanaryState)
      (trigger : Trigger)
      → Quiet (dispatch config system git chrono now boot_id tip canary trigger)
  unfolding dispatch scheduled_cycle
  dispatch-Quiet chrono now boot_id tip none scheduled = update_to_tip-Quiet tip false
  dispatch-Quiet chrono now boot_id tip (some (finished _ _ _)) scheduled =
      update_to_tip-Quiet tip false
  dispatch-Quiet chrono now boot_id tip (some (active target expires_at hold)) scheduled =
      scheduled_trial-Quiet now boot_id tip target expires_at hold
  dispatch-Quiet chrono now boot_id tip canary manual =
      bind-Quiet _ _ (clear_canary-Idle now canary) λ _. update_to_tip-Quiet tip true
  dispatch-Quiet chrono now boot_id tip canary (start_canary branch timeout persist) =
      bind-Quiet _ _ (lift-Emits _) λ expires_at. start_trial-Quiet tip branch expires_at _

  -- A cycle whose outcome does not count as activated, for which the daemon goes on instead of
  -- exiting, ran no test activation and no switch: among them every held trial and every scheduled
  -- reboot.
  pub run-IsIdle :
      (chrono : Chrono) (now : DateTime) (boot_id : Text) (trigger : Trigger) (w : World)
      (o : Outcome)
      → (run config system git chrono now boot_id trigger w).result ≡ ok o
      → activated o ≡ false
      → All IsIdle (run config system git chrono now boot_id trigger w).calls
  unfolding run
  run-IsIdle chrono now boot_id trigger w =
      (bind-Quiet _ _ (lift-Emits _)
          λ tip. dispatch-Quiet chrono now boot_id tip (load_canary w) trigger).quiet
        w
