-- ===== src/Updated/Cycle.antt =====
-- src/ogygia-updated/src/engine.rs: one update cycle. A cycle works on the repository as it is after
-- its fetch; `now` and the boot id are read once, by `run_once`.
pub mod Allowed
pub mod Endings
pub mod Converge
pub mod Settles
pub mod Guards
pub mod Quiet
use ogygia_nix.Base.{
  ℕ, ◌<◌, Bool, true, false, not, ◌&&◌, ◌||◌, Option, none, some, ◌++◌, ◌-◌, ◌^◌, ◌%◌, leb, ltb,
  ◌==◌, if◌then◌else◌,
}
use ogygia_nix.Base.Text.{Text, codes, text_eq}
use ogygia_nix.Base.Int.{ℤ, pos, negsuc, leb_ℤ}
use ogygia_nix.Updated.Config.{Config, flake_attr, repo_path}
use ogygia_nix.Updated.Canary.{
  DateTime, Chrono, CanaryState, CanaryTarget, CanaryHold, active, finished, pinned, ephemeral,
  persistent, FinishReason, merged, expired, cleared, rebooted, overwritten,
}
use ogygia_nix.Updated.Result.{Result, ok, err, panic, or_fail, parsing_target}
use ogygia_nix.Updated.Repo.{Oid, Git}
use ogygia_nix.Updated.Result
use ogygia_nix.Updated.Repo
use ogygia_nix.Updated.Outcome.{
  Outcome, up_to_date, not_on_branch, switched, test_activated, reboot_scheduled,
  prefetch_unavailable, canary_started, canary_held, Trigger, scheduled, manual, start_canary,
}
use ogygia_nix.Updated.World.{
  World, System, Links, Activation, test, switch, boot, M, pure, lift, ◌>>=◌, ◌>>◌,
}
use ogygia_nix.Updated.Effects.{
  read_current, read_next_boot, run_set_profile, run_switch, run_build, run_prefetch,
  run_attr_defined, run_schedule_reboot, run_checkout, store, finish_canary, load_canary,
}
use ogygia_nix.Updated.Policy.{
  flake_base, flake_ref, same_kernel, target_commit, expiry, is_past, hold_of, is_persistent,
  is_lost, on_branch,
}
use ogygia_nix.Updated.Engine.{update_to_tip, stage_boot_floor, start_trial}

module _ (config : Config) (system : System) (git : Git) where
  -- A trial that has ended: record why, and follow the tracked branch again.
  unfoldable pub end_trial : DateTime → CanaryTarget → FinishReason → Oid → Bool → M Outcome
  end_trial now target reason main_tip force = do
    finish_canary system now target reason
    update_to_tip config system git main_tip force

  -- Where a reboot lands while the trial is held.
  unfoldable pub held_boot : CanaryHold → Oid → Oid → M Oid
  held_boot (ephemeral _) commit main_tip = stage_boot_floor config system git commit main_tip
  held_boot persistent commit main_tip = pure commit

  -- A trial that still runs: it has merged, has expired, or is held.
  unfoldable pub continue_trial :
      DateTime → Oid → CanaryTarget → Option DateTime → CanaryHold → Oid → M Outcome
  unfolding is_past
  continue_trial now main_tip target expires_at hold commit = do
    has_merged ← lift (on_branch git commit main_tip)
    if has_merged
        then end_trial now target merged main_tip false
        else if is_past expires_at now
        then end_trial now target expired main_tip true
        else (do
          next_boot ← held_boot hold commit main_tip
          pure (canary_held (git.oid_to_string commit) (git.oid_to_string next_boot)))

  -- A scheduled cycle over an active canary.
  unfoldable pub scheduled_trial :
      DateTime → Text → Oid → CanaryTarget → Option DateTime → CanaryHold → M Outcome
  scheduled_trial now boot_id main_tip target expires_at hold = do
    commit ← lift (target_commit git target)
    if is_lost hold boot_id then end_trial now target rebooted main_tip false else (do
      current ← read_current git
      if not (current == commit)
          then end_trial now target overwritten main_tip false
          else continue_trial now main_tip target expires_at hold commit)

  -- `scheduled`.
  unfoldable pub scheduled_cycle : DateTime → Text → Oid → Option CanaryState → M Outcome
  scheduled_cycle now boot_id main_tip none = update_to_tip config system git main_tip false
  scheduled_cycle now boot_id main_tip (some (finished _ _ _)) =
      update_to_tip config system git main_tip false
  scheduled_cycle now boot_id main_tip (some (active target expires_at hold)) =
      scheduled_trial now boot_id main_tip target expires_at hold

  unfoldable pub clear_canary : DateTime → Option CanaryState → M (Unit {0})
  clear_canary now none = pure tt
  clear_canary now (some (finished _ _ _)) = pure tt
  clear_canary now (some (active target _ _)) = finish_canary system now target cleared

  -- The `match trigger` of `run`.
  unfoldable pub dispatch :
      Chrono → DateTime → Text → Oid → Option CanaryState → Trigger → M Outcome
  unfolding hold_of clear_canary
  dispatch chrono now boot_id main_tip canary scheduled =
      scheduled_cycle now boot_id main_tip canary
  dispatch chrono now boot_id main_tip canary manual = do
    clear_canary now canary
    update_to_tip config system git main_tip true
  dispatch chrono now boot_id main_tip canary (start_canary branch timeout persist) = do
    expires_at ← lift (expiry chrono now timeout)
    start_trial config system git main_tip branch expires_at (hold_of persist boot_id)

  -- `Repo::open_or_clone`, `fetch` and `tip`.
  unfoldable pub fetched_tip : Result Oid
  fetched_tip =
      Result.◌>>◌ (Repo.open_or_clone git)
        (Result.◌>>◌ (Repo.fetch git) (Repo.tip git config.repo.branch))

  unfoldable pub run : Chrono → DateTime → Text → Trigger → M Outcome
  run chrono now boot_id trigger w =
      (do main_tip ← lift fetched_tip; dispatch chrono now boot_id main_tip (load_canary w) trigger)
        w
