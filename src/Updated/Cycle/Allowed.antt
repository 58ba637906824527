-- ===== src/Updated/Cycle/Allowed.antt =====
-- src/ogygia-updated/src/engine.rs: which commands an update cycle may run.
use ogygia_nix.Base.{Bool, true, false, not, Option, none, some, All, ◌==◌}
use ogygia_nix.Base.Text.{Text}
use ogygia_nix.Updated.Config.{Config}
use ogygia_nix.Updated.Canary.{
  DateTime, Chrono, CanaryState, CanaryTarget, CanaryHold, active, finished, ephemeral, persistent,
  FinishReason,
}
use ogygia_nix.Updated.Repo.{Oid, Git}
use ogygia_nix.Updated.Outcome.{Trigger, scheduled, manual, start_canary}
use ogygia_nix.Updated.World.{World, System}
use ogygia_nix.Updated.Policy.{is_past, is_lost}
use ogygia_nix.Updated.Effects.{finish_canary, load_canary}
use ogygia_nix.Updated.Steps.{bind-Emits, lift-Emits, pure-Emits, if-Emits}
use ogygia_nix.Updated.Effects.Allowed.{Allowed, Safe, store-Safe, current-Safe}
use ogygia_nix.Updated.Engine.Allowed.{stage_boot_floor-Safe, update_to_tip-Safe, start_trial-Safe}
use ogygia_nix.Updated.Cycle.{
  end_trial, held_boot, continue_trial, scheduled_trial, scheduled_cycle, clear_canary, dispatch,
  run,
}

module _ (config : Config) (system : System) (git : Git) where
  end_trial-Safe :
      (now : DateTime) (target : CanaryTarget) (reason : FinishReason) (tip : Oid) (force : Bool)
      → Safe config system git (end_trial config system git now target reason tip force)
  unfolding end_trial finish_canary
  end_trial-Safe now target reason tip force =
      bind-Emits _ _ (store-Safe config system git _)
        λ _. update_to_tip-Safe config system git tip force

  held_boot-Safe :
      (hold : CanaryHold) (commit tip : Oid)
      → Safe config system git (held_boot config system git hold commit tip)
  unfolding held_boot
  held_boot-Safe (ephemeral _) commit tip = stage_boot_floor-Safe config system git commit tip
  held_boot-Safe persistent commit tip = pure-Emits commit

  continue_trial-Safe :
      (now : DateTime) (tip : Oid) (target : CanaryTarget) (expires_at : Option DateTime)
      (hold : CanaryHold) (commit : Oid)
      → Safe config system git
          (continue_trial config system git now tip target expires_at hold commit)
  unfolding continue_trial
  continue_trial-Safe now tip target expires_at hold commit =
      bind-Emits _ _ (lift-Emits _) λ has_merged.
        if-Emits has_merged _ _ (end_trial-Safe _ _ _ _ _) (
          if-Emits (is_past expires_at now) _ _ (end_trial-Safe _ _ _ _ _)
            (bind-Emits _ _ (held_boot-Safe hold commit tip) λ _. pure-Emits _))

  scheduled_trial-Safe :
      (now : DateTime) (boot_id : Text) (tip : Oid) (target : CanaryTarget)
      (expires_at : Option DateTime) (hold : CanaryHold)
      → Safe config system git
          (scheduled_trial config system git now boot_id tip target expires_at hold)
  unfolding scheduled_trial
  scheduled_trial-Safe now boot_id tip target expires_at hold =
      bind-Emits _ _ (lift-Emits _) λ commit.
        if-Emits (is_lost hold boot_id) _ _ (end_trial-Safe _ _ _ _ _) (
          bind-Emits _ _ (current-Safe config system git) λ current.
            if-Emits (not (current == commit)) _ _ (end_trial-Safe _ _ _ _ _)
              (continue_trial-Safe now tip target expires_at hold commit))

  scheduled_cycle-Safe :
      (now : DateTime) (boot_id : Text) (tip : Oid) (canary : Option CanaryState)
      → Safe config system git (scheduled_cycle config system git now boot_id tip canary)
  unfolding scheduled_cycle
  scheduled_cycle-Safe now boot_id tip none = update_to_tip-Safe config system git tip false
  scheduled_cycle-Safe now boot_id tip (some (finished _ _ _)) =
      update_to_tip-Safe config system git tip false
  scheduled_cycle-Safe now boot_id tip (some (active target expires_at hold)) =
      scheduled_trial-Safe now boot_id tip target expires_at hold

  clear_canary-Safe :
      (now : DateTime) (canary : Option CanaryState)
      → Safe config system git (clear_canary config system git now canary)
  unfolding clear_canary finish_canary
  clear_canary-Safe now none = pure-Emits tt
  clear_canary-Safe now (some (finished _ _ _)) = pure-Emits tt
  clear_canary-Safe now (some (active target _ _)) = store-Safe config system git _

  dispatch-Safe :
      (chrono : Chrono) (now : DateTime) (boot_id : Text) (tip : Oid) (canary : Option CanaryState)
      (trigger : Trigger)
      → Safe config system git (dispatch config system git chrono now boot_id tip canary trigger)
  unfolding dispatch
  dispatch-Safe chrono now boot_id tip canary scheduled =
      scheduled_cycle-Safe now boot_id tip canary
  dispatch-Safe chrono now boot_id tip canary manual =
      bind-Emits _ _ (clear_canary-Safe now canary)
        λ _. update_to_tip-Safe config system git tip true
  dispatch-Safe chrono now boot_id tip canary (start_canary branch timeout persist) =
      bind-Emits _ _ (lift-Emits _)
        λ expires_at. start_trial-Safe config system git tip branch expires_at _

  -- Whatever triggers a cycle and whatever it meets, each program that it starts through the
  -- System trait is the configured prefetch, an evaluation or a build of this host's attribute at a
  -- checked-out commit, a change of the configured profile to a path so built, an activation of a
  -- path so built, or, only where the configuration allows reboots, a reboot after the configured
  -- delay.
  pub run-Allowed :
      (chrono : Chrono) (now : DateTime) (boot_id : Text) (trigger : Trigger) (w : World)
      → All (Allowed config system) (run config system git chrono now boot_id trigger w).calls
  unfolding run
  run-Allowed chrono now boot_id trigger w =
      (bind-Emits _ _ (lift-Emits _)
          λ tip. dispatch-Safe chrono now boot_id tip (load_canary w) trigger).emits
        w
