-- ===== src/Updated/Cycle/Guards.antt =====
-- src/ogygia-updated/src/engine.rs: what a scheduled cycle leaves alone.
use ogygia_nix.Base.{false, Option, [], ◌≡◌, refl, ◌∙◌}
use ogygia_nix.Base.Text.{Text}
use ogygia_nix.Updated.Config.{Config}
use ogygia_nix.Updated.Canary.{DateTime, Chrono, CanaryTarget, active, persistent}
use ogygia_nix.Updated.Result.{ok}
use ogygia_nix.Updated.Repo.{Oid, Git}
use ogygia_nix.Updated.World.{World, System, record_of, pure}
use ogygia_nix.Updated.Outcome.{not_on_branch, scheduled}
use ogygia_nix.Updated.Policy.{on_branch, is_lost}
use ogygia_nix.Updated.Effects.{parse_revision, load_canary}
use ogygia_nix.Updated.Effects.Frame.{current-ok, next_boot-ok}
use ogygia_nix.Updated.Engine.{update_to_tip, forced_or_on_branch}
use ogygia_nix.Updated.Steps.{lift-ok}
use ogygia_nix.Updated.Cycle.Settles.{NoTrial, scheduled-run}
use ogygia_nix.Updated.Cycle.{scheduled_trial, scheduled_cycle, dispatch, fetched_tip, run}

module _ (config : Config) (system : System) (git : Git) (chrono : Chrono) (now : DateTime) where
  -- A scheduled cycle with no trial in progress, on a host whose running revision is not on the
  -- tracked branch, reports that revision, runs no command and changes nothing, whatever the
  -- next-boot revision is.
  pub scheduled-off_branch :
      (boot_id : Text) (tip current next_boot : Oid) (w : World)
      → fetched_tip config system git ≡ ok tip
      → NoTrial w.canary
      → parse_revision git w.host.current_revision ≡ ok current
      → parse_revision git w.host.next_boot_revision ≡ ok next_boot
      → on_branch git current tip ≡ ok false
      → run config system git chrono now boot_id scheduled w
        ≡ record { result = ok (not_on_branch (git.oid_to_string current)); world = w; calls = [] }
  unfolding update_to_tip forced_or_on_branch pure
  scheduled-off_branch boot_id tip current next_boot w f idle runs boots off =
      scheduled-run config system git chrono now boot_id tip w f idle
      ∙ rw (current-ok git w current _ runs)
          (rw (next_boot-ok git w next_boot _ boots) (rw (lift-ok _ false _ w off) refl))

  -- A trial with a persistent hold is served alike in every boot session: the whole scheduled cycle,
  -- its outcome, its commands and what it leaves, does not depend on the boot id.
  pub scheduled-any_boot :
      (boot_id boot_id' : Text) (target : CanaryTarget) (expires_at : Option DateTime) (w : World)
      → w.canary ≡ record_of (active target expires_at persistent)
      → run config system git chrono now boot_id scheduled w
        ≡ run config system git chrono now boot_id' scheduled w
  unfolding run dispatch scheduled_cycle scheduled_trial load_canary is_lost
  scheduled-any_boot boot_id boot_id' target expires_at w e = rw e
