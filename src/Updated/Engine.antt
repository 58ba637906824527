-- ===== src/Updated/Engine.antt =====
-- src/ogygia-updated/src/engine.rs: following the tracked branch, and starting a trial.
pub mod Allowed
pub mod Keeps
pub mod Floor
use ogygia_nix.Base.{
  ℕ, ◌<◌, Bool, true, false, not, ◌&&◌, ◌||◌, Option, none, some, ◌++◌, ◌-◌, ◌^◌, ◌%◌, leb, ltb,
  ◌==◌, if◌then◌else◌,
}
use ogygia_nix.Base.Text.{Text, codes, text_eq}
use ogygia_nix.Base.Int.{ℤ, pos, negsuc, leb_ℤ}
use ogygia_nix.Updated.Config.{Config, flake_attr, repo_path}
use ogygia_nix.Updated.Canary.{
  DateTime, Chrono, CanaryState, CanaryTarget, CanaryHold, active, finished, pinned, ephemeral,
  persistent, FinishReason, merged, expired, cleared, rebooted, overwritten,
}
use ogygia_nix.Updated.Result.{Result, ok, err, panic, or_fail, parsing_target}
use ogygia_nix.Updated.Repo.{Oid, Git}
use ogygia_nix.Updated.Result
use ogygia_nix.Updated.Repo
use ogygia_nix.Updated.Outcome.{
  Outcome, up_to_date, not_on_branch, switched, test_activated, reboot_scheduled,
  prefetch_unavailable, canary_started, canary_held, Trigger, scheduled, manual, start_canary,
}
use ogygia_nix.Updated.World.{
  World, System, Links, Activation, test, switch, boot, M, pure, lift, ◌>>=◌, ◌>>◌,
}
use ogygia_nix.Updated.Effects.{
  read_current, read_next_boot, run_set_profile, run_switch, run_build, run_prefetch,
  run_attr_defined, run_schedule_reboot, run_checkout, store, finish_canary, load_canary,
}
use ogygia_nix.Updated.Policy.{
  flake_base, flake_ref, same_kernel, target_commit, expiry, is_past, hold_of, is_persistent,
  is_lost, on_branch,
}

module _ (config : Config) (system : System) (git : Git) where
  unfoldable pub checkout_and_build : Oid → M Text
  checkout_and_build commit = do run_checkout git commit; run_build system (flake_ref config)

  unfoldable pub activate : Text → Oid → Bool → M Outcome
  activate store_path tip next_boot_on_branch =
      let commit = git.oid_to_string tip in
      if not next_boot_on_branch
      then (do run_switch system store_path test; pure (test_activated commit))
      else if not config.activate.allow_reboot
      then (do
        run_set_profile system config.activate.profile store_path
        run_switch system store_path switch
        pure (switched commit))
      else (do
        run_set_profile system config.activate.profile store_path
        run_switch system store_path boot
        if same_kernel (system.kernel_links config.activate.booted_system)
              (system.kernel_links store_path)
            then (do run_switch system store_path test; pure (switched commit))
            else (do
              run_schedule_reboot system config.activate.reboot_delay_minutes
              pure (reboot_scheduled commit)))

  -- The prefetch, where one is configured: whether the cycle may go on to the build.
  unfoldable pub prefetch_attr : Option Text → M Bool
  unfolding flake_base
  prefetch_attr none = pure true
  prefetch_attr (some attr) = run_prefetch system (flake_base config ++ (codes "#" ++ attr))

  unfoldable pub prefetched : M Bool
  unfolding prefetch_attr
  prefetched = prefetch_attr config.build.prefetch_attr

  -- `force || on_branch(..)?`.
  unfoldable pub forced_or_on_branch : Bool → Oid → Oid → Result Bool
  forced_or_on_branch force revision tip = if force then ok true else on_branch git revision tip

  -- The build of `update_to_tip`, and the activation of what it built.
  unfoldable pub install : Oid → Oid → Bool → M Outcome
  install next_boot tip force = do
    store_path ← run_build system (flake_ref config)
    next_boot_on_branch ← lift (forced_or_on_branch force next_boot tip)
    activate store_path tip next_boot_on_branch

  -- The rest of `update_to_tip`, once there is something to do.
  unfoldable pub build_and_activate : Oid → Oid → Bool → M Outcome
  unfolding install
  build_and_activate next_boot tip force = do
    run_checkout git tip
    available ← prefetched
    if not available
        then pure (prefetch_unavailable (git.oid_to_string tip))
        else install next_boot tip force

  unfoldable pub update_to_tip : Oid → Bool → M Outcome
  update_to_tip tip force = do
    current ← read_current git
    next_boot ← read_next_boot git
    allowed ← lift (forced_or_on_branch force current tip)
    if not allowed
        then pure (not_on_branch (git.oid_to_string current))
        else if current == tip && next_boot == tip
        then pure up_to_date
        else build_and_activate next_boot tip force

  unfoldable pub stage_boot_floor : Oid → Oid → M Oid
  stage_boot_floor commit main_tip = do
    floor ← lift (Repo.merge_base git commit main_tip)
    next_boot ← read_next_boot git
    run_checkout git floor
    defined ← run_attr_defined system (flake_ref config)
    if not defined then pure next_boot else if next_boot == floor then pure floor else (do
      floor_path ← checkout_and_build floor
      run_set_profile system config.activate.profile floor_path
      run_switch system floor_path boot
      pure floor)

  -- The persistent branch of `start_canary`.
  unfoldable pub start_persistent : Oid → Oid → M (Unit {0})
  start_persistent commit current = do
    next_boot ← read_next_boot git
    if current == commit && next_boot == commit then pure tt else (do
      store_path ← checkout_and_build commit
      run_set_profile system config.activate.profile store_path
      run_switch system store_path switch)

  -- The ephemeral branch of `start_canary`; the result is the boot floor.
  unfoldable pub start_ephemeral : Oid → Oid → Oid → M Oid
  start_ephemeral commit current main_tip = do
    floor ← stage_boot_floor commit main_tip
    if current == commit then pure floor else (do
      store_path ← checkout_and_build commit
      run_switch system store_path test
      pure floor)

  unfoldable pub start_trial : Oid → Text → Option DateTime → CanaryHold → M Outcome
  unfolding is_persistent
  start_trial main_tip branch expires_at hold = do
    commit ← lift (Repo.tip git branch)
    store system (active (pinned branch (git.oid_to_string commit)) expires_at hold)
    current ← read_current git
    if is_persistent hold
        then (do
          start_persistent commit current
          pure (
              canary_started (git.oid_to_string commit) (git.oid_to_string commit) true expires_at))
        else (do
          floor ← start_ephemeral commit current main_tip
          pure (
              canary_started (git.oid_to_string commit) (git.oid_to_string floor) false expires_at))
