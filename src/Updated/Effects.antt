-- ===== src/Updated/Effects.antt =====
-- The steps of src/ogygia-updated/src/engine.rs that touch the host: each runs one command of the
-- `System` trait, reads a revision file, writes the canary record or checks a commit out.
pub mod Frame
pub mod Allowed
use ogygia_nix.Base.{
  ℕ, Bool, true, false, Option, none, some, List, [], ◌∷◌, ◌≡◌, refl, if◌then◌else◌,
}
use ogygia_nix.Base.Text.{Text, trim}
use ogygia_nix.Updated.Canary.{CanaryState, CanaryTarget, DateTime, FinishReason, finished}
use ogygia_nix.Updated.Result.{
  Result, ok, err, panic, Error, or_fail, reading_revision, parsing_revision, storing_canary,
  building, evaluating_attr, setting_profile, switching, scheduling_reboot,
}
use ogygia_nix.Updated.Result
use ogygia_nix.Updated.Repo.{Oid, Git}
use ogygia_nix.Updated.Repo
use ogygia_nix.Updated.World.{
  World, Host, Stored, record_of, absent, unreadable, System, Call, Activation, Ran, M, lift,
}

-- `read_revision` on a file with these contents.
unfoldable pub parse_revision : Git → Option Text → Result Oid
parse_revision git none = err reading_revision
parse_revision git (some raw) = or_fail (git.oid_from_str (trim raw)) parsing_revision

unfoldable pub read_current : Git → M Oid
read_current git w = lift (parse_revision git w.host.current_revision) w

unfoldable pub read_next_boot : Git → M Oid
read_next_boot git w = lift (parse_revision git w.host.next_boot_revision) w

-- What a command that may fail left behind.
abbrev after_command : Bool × Host → World → Call → Error → Ran (Unit {0})
after_command (true, host) w call error = record {
  result = ok tt;
  world = record w { host = host };
  calls = call ∷ [];
}
after_command (false, host) w call error = record {
  result = err error;
  world = record w { host = host };
  calls = call ∷ [];
}

-- A command that only answers.
abbrev answered {ℓ} : {A : Type ℓ} → Result A → World → Call → Ran A
answered r w call = record { result = r; world = w; calls = call ∷ [] }

unfoldable pub run_set_profile : System → Text → Text → M (Unit {0})
run_set_profile system profile store_path w =
    after_command (system.set_profile profile store_path w.host) w
      (Call.set_profile profile store_path) setting_profile

unfoldable pub run_switch : System → Text → Activation → M (Unit {0})
run_switch system store_path action w =
    after_command (system.switch_to_configuration store_path action w.host) w
      (Call.switch_to_configuration store_path action) switching

unfoldable pub run_build : System → Text → M Text
run_build system flake w =
    answered (or_fail (system.build w.head flake) building) w (Call.build flake w.head)

-- The engine goes on after a failed prefetch, so its failure is a value.
unfoldable pub run_prefetch : System → Text → M Bool
run_prefetch system flake w = answered (ok (system.prefetch w.head flake)) w (Call.prefetch flake)

unfoldable pub run_attr_defined : System → Text → M Bool
run_attr_defined system flake w =
    answered (or_fail (system.attr_defined w.head flake) evaluating_attr) w
      (Call.attr_defined flake w.head)

unfoldable pub run_schedule_reboot : System → ℕ → M (Unit {0})
run_schedule_reboot system delay w =
    answered (Result.ensure (system.schedule_reboot delay) scheduling_reboot) w
      (Call.schedule_reboot delay)

-- A checkout that failed after the commit was found leaves a clone that is clean at no commit.
abbrev after_checkout : Result (Unit {0}) → (found : Bool) → World → Oid → Ran (Unit {0})
after_checkout (ok _) found w commit = record {
  result = ok tt;
  world = record w { head = some commit };
  calls = [];
}
after_checkout (err e) found w commit = record {
  result = err e;
  world = record w { head = if found then none else w.head };
  calls = [];
}
after_checkout panic found w commit = record { result = panic; world = w; calls = [] }

unfoldable pub run_checkout : Git → Oid → M (Unit {0})
run_checkout git commit w =
    after_checkout (Repo.checkout git commit) (git.find_object commit) w commit

-- `CanaryState::store`.
unfoldable pub store : System → CanaryState → M (Unit {0})
store system state w =
    if system.write_canary state
    then record { result = ok tt; world = record w { canary = record_of state }; calls = [] }
    else record { result = err storing_canary; world = w; calls = [] }

unfoldable pub finish_canary : System → DateTime → CanaryTarget → FinishReason → M (Unit {0})
unfolding store
finish_canary system now target reason = store system (finished target now reason)

-- `CanaryState::load`; the engine treats a record that it cannot parse as no record.
unfoldable pub load_canary : World → Option CanaryState
load_canary w = elim w.canary [ absent ↦ none | unreadable ↦ none | record_of state ↦ some state ]
