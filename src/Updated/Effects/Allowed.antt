-- ===== src/Updated/Effects/Allowed.antt =====
-- src/ogygia-updated/src/engine.rs: which commands the steps of a cycle may run.
use ogygia_nix.Base.{true, some, ◌++◌, ◌≡◌, refl, arith, All}
use ogygia_nix.Base.Text.{Text, codes}
use ogygia_nix.Updated.Config.{Config}
use ogygia_nix.Updated.Canary.{CanaryState}
use ogygia_nix.Updated.Result.{ok}
use ogygia_nix.Updated.Repo.{Oid, Git}
use ogygia_nix.Updated.World.{World, System, Call, Activation, M}
use ogygia_nix.Updated.Policy.{flake_base, flake_ref}
use ogygia_nix.Updated.Effects.{
  read_current, read_next_boot, run_set_profile, run_switch, run_build, run_attr_defined,
  run_schedule_reboot, run_checkout, store,
}
use ogygia_nix.Updated.Effects.Frame.{
  set_profile-Runs, switch-Runs, build-Runs, attr_defined-Runs, schedule_reboot-Runs, store-calls,
  checkout-calls, current-Runs, next_boot-Runs,
}
use ogygia_nix.Updated.Steps.{Emits}

-- A store path that this host's system attribute built at a checked-out commit.
abbrev pub IsBuilt : Config → System → Text → Type 0
IsBuilt config system p = (commit : Oid) × (system.build (some commit) (flake_ref config) ≡ some p)

-- What the configuration allows of a command.
abbrev pub Allowed : Config → System → Call → Type 0
Allowed config system (Call.prefetch f) =
    (attr : Text) × (config.build.prefetch_attr ≡ some attr)
    × (f ≡ flake_base config ++ (codes "#" ++ attr))
Allowed config system (Call.attr_defined f head) =
    (f ≡ flake_ref config) × ((commit : Oid) × (head ≡ some commit))
Allowed config system (Call.build f head) =
    (f ≡ flake_ref config) × ((commit : Oid) × (head ≡ some commit))
Allowed config system (Call.set_profile profile p) =
    (profile ≡ config.activate.profile) × IsBuilt config system p
Allowed config system (Call.switch_to_configuration p action) = IsBuilt config system p
Allowed config system (Call.schedule_reboot delay) =
    (config.activate.allow_reboot ≡ true) × (delay ≡ config.activate.reboot_delay_minutes)

module _ (config : Config) (system : System) (git : Git) where
  abbrev pub Safe {ℓ} : {A : Type ℓ} → M A → Type ℓ
  Safe m = Emits (Allowed config system) m

  pub set_profile-Safe :
      (p : Text) → IsBuilt config system p → Safe (run_set_profile system config.activate.profile p)
  set_profile-Safe p b = record {
    emits = λ w. rw (set_profile-Runs system w config.activate.profile p).0 ((refl, b), tt);
  }

  pub switch-Safe :
      (p : Text) (a : Activation) → IsBuilt config system p → Safe (run_switch system p a)
  switch-Safe p a b = record { emits = λ w. rw (switch-Runs system w p a).0 (b, tt) }

  pub checkout-Safe : (c : Oid) → Safe (run_checkout git c)
  checkout-Safe c = record { emits = λ w. rw (checkout-calls git w c).0 tt }

  pub store-Safe : (s : CanaryState) → Safe (store system s)
  store-Safe s = record { emits = λ w. rw (store-calls system w s) tt }

  pub current-Safe : Safe (read_current git)
  current-Safe = record { emits = λ w. rw (current-Runs git w).0 tt }

  pub reboot-Safe :
      config.activate.allow_reboot ≡ true
      → Safe (run_schedule_reboot system config.activate.reboot_delay_minutes)
  reboot-Safe allowed = record {
    emits = λ w.
        rw (schedule_reboot-Runs system w config.activate.reboot_delay_minutes).0
          ((allowed, refl), tt);
  }

  pub attr_defined-Safe-at :
      (c : Oid) (w : World)
      → w.head ≡ some c
      → All (Allowed config system) (run_attr_defined system (flake_ref config) w).calls
  attr_defined-Safe-at c w head =
      rw (attr_defined-Runs system w (flake_ref config)).0 ((refl, (c, head)), tt)

  pub next_boot-Safe : Safe (read_next_boot git)
  next_boot-Safe = record { emits = λ w. rw (next_boot-Runs git w).0 tt }

  -- A build at a checked-out commit.
  pub build-IsBuilt :
      (c : Oid) (w : World) (p : Text)
      → w.head ≡ some c
      → (run_build system (flake_ref config) w).result ≡ ok p
      → IsBuilt config system p
  unfolding run_build
  build-IsBuilt c w p head h = (c, ground arith)

  pub build-Safe-at :
      (c : Oid) (w : World)
      → w.head ≡ some c
      → All (Allowed config system) (run_build system (flake_ref config) w).calls
  build-Safe-at c w head = rw (build-Runs system w (flake_ref config)).0 ((refl, (c, head)), tt)
