-- ===== src/Updated/Cycle/Endings.antt =====
-- src/ogygia-updated/src/engine.rs: how a scheduled cycle ends a trial, and what it records.
use ogygia_nix.Base.{
  Bool, true, false, not, Option, none, some, List, [], ◌∷◌, ◌≡◌, ◌==◌, Bool-cases, inl, inr,
}
use ogygia_nix.Base.Text.{Text}
use ogygia_nix.Updated.Config.{Config}
use ogygia_nix.Updated.Canary.{
  DateTime, CanaryTarget, CanaryHold, ephemeral, persistent, finished, FinishReason, merged,
  expired, rebooted, overwritten,
}
use ogygia_nix.Updated.Result.{ok}
use ogygia_nix.Updated.Repo.{Oid, Git}
use ogygia_nix.Updated.World.{World, System, Stored, record_of, ◌>>=◌}
use ogygia_nix.Updated.Policy.{target_commit, is_lost, is_past, on_branch}
use ogygia_nix.Updated.Effects.{parse_revision, store, finish_canary}
use ogygia_nix.Updated.Effects.Frame.{current-ok}
use ogygia_nix.Updated.Engine.Keeps.{update_to_tip-Keeps, stage_boot_floor-Keeps}
use ogygia_nix.Updated.Steps.{Keeps, bind-Keeps, pure-Keeps, lift-ok}
use ogygia_nix.Updated.Cycle.{end_trial, held_boot, continue_trial, scheduled_trial}

-- The first reason whose condition holds.
abbrev pub first_that_holds : List (Bool × FinishReason) → Option FinishReason
first_that_holds [] = none
first_that_holds ((true, reason) ∷ rest) = some reason
first_that_holds ((false, reason) ∷ rest) = first_that_holds rest

-- The terminal conditions of a trial in their order of precedence.
abbrev pub ending : (lost running has_merged past : Bool) → Option FinishReason
ending lost running has_merged past =
    first_that_holds
      ((lost, rebooted) ∷ (not running, overwritten) ∷ (has_merged, merged) ∷ (past, expired) ∷ [])

-- The record that a cycle leaves: unchanged while the trial goes on.
abbrev pub recorded : CanaryTarget → DateTime → Stored → Option FinishReason → Stored
recorded target now before none = before
recorded target now before (some reason) = record_of (finished target now reason)

module _ (config : Config) (system : System) (git : Git) (now : DateTime) (target : CanaryTarget)
    (tip : Oid) where
  end_trial-record :
      (reason : FinishReason) (force : Bool) (w : World)
      → system.write_canary (finished target now reason) ≡ true
      → (end_trial config system git now target reason tip force w).world.canary
        ≡ record_of (finished target now reason)
  unfolding end_trial ◌>>=◌ finish_canary store
  end_trial-record reason force w e =
      rw e ((update_to_tip-Keeps config system git tip force).keeps _)

  held_boot-Keeps :
      (hold : CanaryHold) (commit : Oid) → Keeps (held_boot config system git hold commit tip)
  unfolding held_boot
  held_boot-Keeps (ephemeral _) commit = stage_boot_floor-Keeps config system git commit tip
  held_boot-Keeps persistent commit = pure-Keeps commit

  continue_trial-record :
      (expires_at : Option DateTime) (hold : CanaryHold) (commit : Oid) (has_merged : Bool)
      (w : World)
      → ((reason : FinishReason) → system.write_canary (finished target now reason) ≡ true)
      → on_branch git commit tip ≡ ok has_merged
      → (continue_trial config system git now tip target expires_at hold commit w).world.canary
        ≡ recorded target now w.canary (ending false true has_merged (is_past expires_at now))
  unfolding continue_trial
  continue_trial-record expires_at hold commit true w writes e =
      rw (lift-ok _ true _ w e) (end_trial-record merged false w (writes merged))
  continue_trial-record expires_at hold commit false w writes e =
      rw (lift-ok _ false _ w e) (elim (Bool-cases (is_past expires_at now)) [
        | inl past ↦ rw past (end_trial-record expired true w (writes expired))
        | inr held ↦
            rw held ((bind-Keeps _ _ (held_boot-Keeps hold commit) λ b. pure-Keeps _).keeps w)
      ])

  -- Where the commit of an active trial, the running revision and whether the commit is on the
  -- tracked branch can be told, a scheduled cycle records the first of these that applies, as
  -- finished now: the host rebooted under an ephemeral hold, it runs another revision, the commit is
  -- on the tracked branch, the deadline has passed. If none applies the record stays as it was. This
  -- holds whether or not the update that follows succeeds, if the record can be written.
  pub scheduled_trial-record :
      (boot_id : Text) (expires_at : Option DateTime) (hold : CanaryHold) (commit current : Oid)
      (has_merged : Bool) (w : World)
      → ((reason : FinishReason) → system.write_canary (finished target now reason) ≡ true)
      → target_commit git target ≡ ok commit
      → parse_revision git w.host.current_revision ≡ ok current
      → on_branch git commit tip ≡ ok has_merged
      → (scheduled_trial config system git now boot_id tip target expires_at hold w).world.canary
        ≡ recorded target now w.canary
            (ending (is_lost hold boot_id) (current == commit) has_merged (is_past expires_at now))
  unfolding scheduled_trial
  scheduled_trial-record boot_id expires_at hold commit current has_merged w writes t r m =
      rw (lift-ok _ commit _ w t) (elim (Bool-cases (is_lost hold boot_id)) [
        | inl lost ↦ rw lost (end_trial-record rebooted false w (writes rebooted))
        | inr here ↦
            rw (here, current-ok git w current _ r)
              (elim (Bool-cases (current == commit)) [
                | inl same ↦
                    rw same (continue_trial-record expires_at hold commit has_merged w writes m)
                | inr other ↦ rw other (end_trial-record overwritten false w (writes overwritten))
              ])
      ])
