-- ===== src/Updated/Engine/Keeps.antt =====
-- src/ogygia-updated/src/engine.rs: the parts of a cycle that leave the canary record alone.
use ogygia_nix.Base.{ℕ, Bool, true, not, ◌&&◌, Option, none, some, ◌==◌}
use ogygia_nix.Base.Text.{Text}
use ogygia_nix.Updated.Config.{Config}
use ogygia_nix.Updated.Repo.{Oid, Git}
use ogygia_nix.Updated.World.{System, Activation, test, switch, boot, M, ◌>>◌}
use ogygia_nix.Updated.Policy.{same_kernel}
use ogygia_nix.Updated.Effects.{
  read_current, read_next_boot, run_set_profile, run_switch, run_build, run_prefetch,
  run_attr_defined, run_schedule_reboot, run_checkout,
}
use ogygia_nix.Updated.Engine.{
  checkout_and_build, activate, prefetch_attr, prefetched, build_and_activate, update_to_tip,
  stage_boot_floor, start_persistent, start_ephemeral,
}
use ogygia_nix.Updated.Effects.Frame.{
  set_profile-Runs, switch-Runs, build-Runs, prefetch-Runs, attr_defined-Runs, schedule_reboot-Runs,
  checkout-calls, current-Runs, next_boot-Runs,
}
use ogygia_nix.Updated.Steps.{Keeps, bind-Keeps, lift-Keeps, pure-Keeps, if-Keeps}

module _ (config : Config) (system : System) (git : Git) where
  checkout-Keeps : (c : Oid) → Keeps (run_checkout git c)
  checkout-Keeps c = record { keeps = λ w. (checkout-calls git w c).1 }

  current-Keeps : Keeps (read_current git)
  current-Keeps = record { keeps = λ w. (current-Runs git w).1 }

  next_boot-Keeps : Keeps (read_next_boot git)
  next_boot-Keeps = record { keeps = λ w. (next_boot-Runs git w).1 }

  set_profile-Keeps : (profile p : Text) → Keeps (run_set_profile system profile p)
  set_profile-Keeps profile p = record { keeps = λ w. (set_profile-Runs system w profile p).1 }

  switch-Keeps : (p : Text) (a : Activation) → Keeps (run_switch system p a)
  switch-Keeps p a = record { keeps = λ w. (switch-Runs system w p a).1 }

  build-Keeps : (f : Text) → Keeps (run_build system f)
  build-Keeps f = record { keeps = λ w. (build-Runs system w f).1 }

  prefetch-Keeps : (f : Text) → Keeps (run_prefetch system f)
  prefetch-Keeps f = record { keeps = λ w. (prefetch-Runs system w f).1 }

  attr_defined-Keeps : (f : Text) → Keeps (run_attr_defined system f)
  attr_defined-Keeps f = record { keeps = λ w. (attr_defined-Runs system w f).1 }

  reboot-Keeps : (delay : ℕ) → Keeps (run_schedule_reboot system delay)
  reboot-Keeps delay = record { keeps = λ w. (schedule_reboot-Runs system w delay).1 }

  checkout_and_build-Keeps : (c : Oid) → Keeps (checkout_and_build config system git c)
  unfolding checkout_and_build
  checkout_and_build-Keeps c = bind-Keeps _ _ (checkout-Keeps c) λ _. build-Keeps _

  -- Moving the profile and activating a system.
  stage-Keeps {ℓ} :
      {A : Type ℓ} (profile p : Text) (a : Activation) (f : M A)
      → Keeps f
      → Keeps (run_set_profile system profile p >> (run_switch system p a >> f))
  stage-Keeps profile p a f k =
      bind-Keeps _ _ (set_profile-Keeps profile p) λ _. bind-Keeps _ _ (switch-Keeps p a) λ _. k

  activate-Keeps : (p : Text) (tip : Oid) (b : Bool) → Keeps (activate config system git p tip b)
  unfolding activate
  activate-Keeps p tip b =
      if-Keeps (not b) _ _ (bind-Keeps _ _ (switch-Keeps p test) λ _. pure-Keeps _) (
        if-Keeps (not config.activate.allow_reboot) _ _
          (stage-Keeps config.activate.profile p switch _ (pure-Keeps _))
          (stage-Keeps config.activate.profile p boot _ (
            if-Keeps
              (same_kernel (system.kernel_links config.activate.booted_system)
                (system.kernel_links p))
              _ _ (bind-Keeps _ _ (switch-Keeps p test) λ _. pure-Keeps _)
              (bind-Keeps _ _ (reboot-Keeps _) λ _. pure-Keeps _))))

  prefetch_attr-Keeps : (o : Option Text) → Keeps (prefetch_attr config system git o)
  unfolding prefetch_attr
  prefetch_attr-Keeps none = pure-Keeps true
  prefetch_attr-Keeps (some attr) = prefetch-Keeps _

  build_and_activate-Keeps :
      (next_boot tip : Oid) (force : Bool)
      → Keeps (build_and_activate config system git next_boot tip force)
  unfolding build_and_activate prefetched
  build_and_activate-Keeps next_boot tip force = bind-Keeps _ _ (checkout-Keeps tip) λ _.
      bind-Keeps _ _ (prefetch_attr-Keeps config.build.prefetch_attr) λ available.
        if-Keeps (not available) _ _ (pure-Keeps _) (
          bind-Keeps _ _ (build-Keeps _)
            λ p. bind-Keeps _ _ (lift-Keeps _) λ b. activate-Keeps p tip b)

  pub update_to_tip-Keeps :
      (tip : Oid) (force : Bool) → Keeps (update_to_tip config system git tip force)
  unfolding update_to_tip
  update_to_tip-Keeps tip force = bind-Keeps _ _ current-Keeps λ current.
      bind-Keeps _ _ next_boot-Keeps λ next_boot. bind-Keeps _ _ (lift-Keeps _) λ allowed.
        if-Keeps (not allowed) _ _ (pure-Keeps _) (
          if-Keeps (current == tip && next_boot == tip) _ _ (pure-Keeps _)
            (build_and_activate-Keeps next_boot tip force))

  pub stage_boot_floor-Keeps :
      (commit tip : Oid) → Keeps (stage_boot_floor config system git commit tip)
  unfolding stage_boot_floor
  stage_boot_floor-Keeps commit tip = bind-Keeps _ _ (lift-Keeps _) λ floor.
      bind-Keeps _ _ next_boot-Keeps λ next_boot. bind-Keeps _ _ (checkout-Keeps floor) λ _.
        bind-Keeps _ _ (attr_defined-Keeps _) λ defined. if-Keeps (not defined) _ _ (pure-Keeps _) (
          if-Keeps (next_boot == floor) _ _ (pure-Keeps _) (
            bind-Keeps _ _ (checkout_and_build-Keeps floor)
              λ p. stage-Keeps config.activate.profile p boot _ (pure-Keeps _)))

  pub start_persistent-Keeps :
      (commit current : Oid) → Keeps (start_persistent config system git commit current)
  unfolding start_persistent
  start_persistent-Keeps commit current = bind-Keeps _ _ next_boot-Keeps λ next_boot.
      if-Keeps (current == commit && next_boot == commit) _ _ (pure-Keeps _) (
        bind-Keeps _ _ (checkout_and_build-Keeps commit)
          λ p. bind-Keeps _ _ (set_profile-Keeps _ p) λ _. switch-Keeps p switch)

  pub start_ephemeral-Keeps :
      (commit current tip : Oid) → Keeps (start_ephemeral config system git commit current tip)
  unfolding start_ephemeral
  start_ephemeral-Keeps commit current tip =
      bind-Keeps _ _ (stage_boot_floor-Keeps commit tip) λ floor.
        if-Keeps (current == commit) _ _ (pure-Keeps _) (
          bind-Keeps _ _ (checkout_and_build-Keeps commit)
            λ p. bind-Keeps _ _ (switch-Keeps p test) λ _. pure-Keeps _)
