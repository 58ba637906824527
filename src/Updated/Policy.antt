-- ===== src/Updated/Policy.antt =====
-- src/ogygia-updated/src/engine.rs: the decisions of a cycle that touch nothing.
pub mod Timeout
use ogygia_nix.Base.{
  ℕ, ◌<◌, Bool, true, false, not, ◌&&◌, ◌||◌, Option, none, some, ◌++◌, ◌-◌, ◌^◌, ◌%◌, leb, ltb,
  ◌==◌, if◌then◌else◌,
}
use ogygia_nix.Base.Text.{Text, codes, text_eq}
use ogygia_nix.Base.Int.{ℤ, pos, negsuc, leb_ℤ}
use ogygia_nix.Updated.Config.{Config, flake_attr, repo_path}
use ogygia_nix.Updated.Canary.{
  DateTime, Chrono, CanaryState, CanaryTarget, CanaryHold, active, finished, pinned, ephemeral,
  persistent, FinishReason, merged, expired, cleared, rebooted, overwritten,
}
use ogygia_nix.Updated.Result.{Result, ok, err, panic, or_fail, parsing_target}
use ogygia_nix.Updated.Repo.{Oid, Git}
use ogygia_nix.Updated.Result
use ogygia_nix.Updated.Repo
use ogygia_nix.Updated.Outcome.{
  Outcome, up_to_date, not_on_branch, switched, test_activated, reboot_scheduled,
  prefetch_unavailable, canary_started, canary_held, Trigger, scheduled, manual, start_canary,
}
use ogygia_nix.Updated.World.{
  World, System, Links, Activation, test, switch, boot, M, pure, lift, ◌>>=◌, ◌>>◌,
}
use ogygia_nix.Updated.Effects.{
  read_current, read_next_boot, run_set_profile, run_switch, run_build, run_prefetch,
  run_attr_defined, run_schedule_reboot, run_checkout, store, finish_canary, load_canary,
}

unfoldable pub flake_base : Config → Text
flake_base config = codes "git+file://" ++ repo_path config

unfoldable pub flake_ref : Config → Text
unfolding flake_base
flake_ref config = flake_base config ++ (codes "#" ++ flake_attr config)

eq_link : Option Text → Option Text → Bool
eq_link none none = true
eq_link (some a) (some b) = text_eq a b
eq_link none (some _) = false
eq_link (some _) none = false

unfoldable pub same_kernel : Links → Links → Bool
unfolding eq_link
same_kernel a b =
    eq_link a.initrd b.initrd
    && eq_link a.kernel b.kernel
    && eq_link a.kernel_modules b.kernel_modules

unfoldable pub target_commit : Git → CanaryTarget → Result Oid
target_commit git (pinned branch commit) = or_fail (git.oid_from_str commit) parsing_target

-- `u64 as i64`.
unfoldable pub as_i64 : ℕ → ℤ
as_i64 n = if ltb n (2 ^ 63) then pos n else negsuc (2 ^ 64 - n - 1)

-- `timeout.map(|d| now + Duration::seconds(d.as_secs() as i64))`.
unfoldable pub expiry : Chrono → DateTime → Option ℕ → Result (Option DateTime)
unfolding as_i64
expiry chrono now none = ok none
expiry chrono now (some seconds) = elim (chrono.add_seconds now (as_i64 seconds)) [
  | none ↦ panic
  | some at ↦ ok (some at)
]

unfoldable pub is_past : Option DateTime → DateTime → Bool
is_past none now = false
is_past (some deadline) now = leb_ℤ deadline now

unfoldable pub is_persistent : CanaryHold → Bool
is_persistent (ephemeral _) = false
is_persistent persistent = true

unfoldable pub hold_of : Bool → Text → CanaryHold
hold_of true boot_id = persistent
hold_of false boot_id = ephemeral boot_id

-- Whether a trial ended because its host rebooted since it began.
unfoldable pub is_lost : CanaryHold → Text → Bool
is_lost (ephemeral started) boot_id = not (text_eq boot_id started)
is_lost persistent boot_id = false

-- A short-circuit `||` on fallible tests.
or_else : Result Bool → Result Bool → Result Bool
or_else (ok true) next = ok true
or_else (ok false) next = next
or_else (err e) next = err e
or_else panic next = panic

unfoldable pub on_branch : Git → Oid → Oid → Result Bool
unfolding or_else
on_branch git revision tip =
    or_else (Repo.is_ancestor git revision tip) (Repo.changes_landed git revision tip)
