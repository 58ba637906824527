-- ===== src/Updated/Engine/Allowed.antt =====
-- src/ogygia-updated/src/engine.rs: which commands following the branch and starting a trial may run.
use ogygia_nix.Base.{
  Bool, true, false, not, ◌&&◌, Option, none, some, ◌≡◌, refl, arith, All, ◌==◌, ◌∙◌, if◌then◌else◌,
}
use ogygia_nix.Base.Text.{Text}
use ogygia_nix.Updated.Config.{Config}
use ogygia_nix.Updated.Canary.{DateTime, CanaryHold}
use ogygia_nix.Updated.Result.{ok}
use ogygia_nix.Updated.Repo.{Oid, Git}
use ogygia_nix.Updated.Outcome.{Outcome}
use ogygia_nix.Updated.World.{World, System, test, switch, boot, M, pure, ◌>>=◌}
use ogygia_nix.Updated.Policy.{flake_ref, same_kernel, is_persistent}
use ogygia_nix.Updated.Effects.{run_attr_defined, run_build, run_prefetch, run_checkout}
use ogygia_nix.Updated.Engine.{
  checkout_and_build, activate, prefetch_attr, prefetched, build_and_activate, update_to_tip,
  stage_boot_floor, start_persistent, start_ephemeral, start_trial,
}
use ogygia_nix.Updated.Effects.Frame.{prefetch-Runs, checkout-head}
use ogygia_nix.Updated.Steps.{
  bind-All, bind-ok, bind-Emits, lift-Emits, pure-Emits, if-Emits, else-Emits,
}
use ogygia_nix.Updated.Effects.Allowed.{
  IsBuilt, Allowed, Safe, set_profile-Safe, switch-Safe, checkout-Safe, store-Safe, current-Safe,
  reboot-Safe, attr_defined-Safe-at, next_boot-Safe, build-IsBuilt, build-Safe-at,
}

module _ (config : Config) (system : System) (git : Git) where
  pub checkout_and_build-Safe :
      (c : Oid) → Safe config system git (checkout_and_build config system git c)
  unfolding checkout_and_build
  checkout_and_build-Safe c = record {
    emits = λ w.
        bind-All (Allowed config system) (run_checkout git c)
          (λ _. run_build system (flake_ref config)) w ((checkout-Safe config system git c).emits w)
          λ a h. build-Safe-at config system git c _ (checkout-head git w c a h);
  }

  pub checkout_and_build-IsBuilt :
      (c : Oid) (w : World) (p : Text)
      → (checkout_and_build config system git c w).result ≡ ok p
      → IsBuilt config system p
  unfolding checkout_and_build
  checkout_and_build-IsBuilt c w p h =
      let (a, done, built, _, _) =
        bind-ok (run_checkout git c) (λ _. run_build system (flake_ref config)) w p h in
      build-IsBuilt config system git c _ p (checkout-head git w c a done) built

  -- What follows a checkout and a build may use the path that was built.
  pub built-Safe {ℓ} :
      {A : Type ℓ} (c : Oid) (f : Text → M A)
      → ((p : Text) → IsBuilt config system p → Safe config system git (f p))
      → Safe config system git (checkout_and_build config system git c >>= f)
  built-Safe c f k = record {
    emits = λ w.
        bind-All (Allowed config system) (checkout_and_build config system git c) f w
          ((checkout_and_build-Safe c).emits w)
          λ p h. (k p (checkout_and_build-IsBuilt c w p h)).emits _;
  }

  -- The same for the question whether the attribute is defined there.
  defined-Safe {ℓ} :
      {A : Type ℓ} (c : Oid) (f : Bool → M A)
      → ((b : Bool) → Safe config system git (f b))
      → Safe config system git
          (run_checkout git c >>= λ _. run_attr_defined system (flake_ref config) >>= f)
  defined-Safe c f k = record {
    emits = λ w.
        bind-All (Allowed config system) (run_checkout git c) _ w
          ((checkout-Safe config system git c).emits w)
          λ a h.
            bind-All (Allowed config system) (run_attr_defined system (flake_ref config)) f _
              (attr_defined-Safe-at config system git c _ (checkout-head git w c a h))
              λ b _. (k b).emits _;
  }

  pub activate-Safe :
      (p : Text) (tip : Oid) (b : Bool)
      → IsBuilt config system p
      → Safe config system git (activate config system git p tip b)
  unfolding activate
  activate-Safe p tip b built =
      if-Emits (not b) _ _
        (bind-Emits _ _ (switch-Safe config system git p test built) λ _. pure-Emits _)
        (else-Emits (not config.activate.allow_reboot) _ _
          (bind-Emits _ _ (set_profile-Safe config system git p built)
            λ _. bind-Emits _ _ (switch-Safe config system git p switch built) λ _. pure-Emits _)
          λ allowed. bind-Emits _ _ (set_profile-Safe config system git p built) λ _.
            bind-Emits _ _ (switch-Safe config system git p boot built) λ _.
              if-Emits
                (same_kernel (system.kernel_links config.activate.booted_system)
                  (system.kernel_links p))
                _ _ (bind-Emits _ _ (switch-Safe config system git p test built) λ _. pure-Emits _)
                (bind-Emits _ _ (reboot-Safe config system git (ground arith)) λ _. pure-Emits _))

  pub stage_boot_floor-Safe :
      (commit tip : Oid) → Safe config system git (stage_boot_floor config system git commit tip)
  unfolding stage_boot_floor
  stage_boot_floor-Safe commit tip = bind-Emits _ _ (lift-Emits _) λ floor.
      bind-Emits _ _ (next_boot-Safe config system git) λ next_boot. defined-Safe floor _ λ defined.
        if-Emits (not defined) _ _ (pure-Emits _) (
          if-Emits (next_boot == floor) _ _ (pure-Emits _) (
            built-Safe floor _ λ p built.
              bind-Emits _ _ (set_profile-Safe config system git p built)
                λ _. bind-Emits _ _ (switch-Safe config system git p boot built) λ _. pure-Emits _))

  pub prefetch_attr-Safe :
      (o : Option Text)
      → config.build.prefetch_attr ≡ o
      → Safe config system git (prefetch_attr config system git o)
  unfolding prefetch_attr
  prefetch_attr-Safe none e = pure-Emits true
  prefetch_attr-Safe (some attr) e = record {
    emits = λ w. rw (prefetch-Runs system w _).0 ((attr, e, refl), tt);
  }

  pub prefetched-Safe : Safe config system git (prefetched config system git)
  unfolding prefetched
  prefetched-Safe = prefetch_attr-Safe config.build.prefetch_attr refl

  pub prefetched-head : (w : World) → (prefetched config system git w).world.head ≡ w.head
  unfolding prefetched pure run_prefetch
  prefetched-head w = ground arith

  -- The build of an update, whose path is then activated.
  pub install-Safe :
      (c : Oid) (w : World) (f : Text → M Outcome)
      → w.head ≡ some c
      → ((p : Text) → IsBuilt config system p → Safe config system git (f p))
      → All (Allowed config system) ((run_build system (flake_ref config) >>= f) w).calls
  install-Safe c w f head k =
      bind-All (Allowed config system) (run_build system (flake_ref config)) f w
        (build-Safe-at config system git c w head)
        λ p h. (k p (build-IsBuilt config system git c w p head h)).emits _

  pub prefetch_and_install-Safe :
      (c : Oid) (w : World) (o : Outcome) (f : Text → M Outcome)
      → w.head ≡ some c
      → ((p : Text) → IsBuilt config system p → Safe config system git (f p))
      → All
          (Allowed config system)
          ((prefetched config system git >>= λ available.
              if not available then pure o else (run_build system (flake_ref config) >>= f))
            w).calls
  prefetch_and_install-Safe c w o f head k =
      bind-All (Allowed config system) (prefetched config system git) _ w (prefetched-Safe.emits w)
        λ available _. branch available
    where
      w' : World
      w' = (prefetched config system git w).world

      branch :
          (b : Bool)
          → All
              (Allowed config system)
              ((if not b then pure o else (run_build system (flake_ref config) >>= f)) w').calls
      branch false = (pure-Emits o).emits w'
      branch true = install-Safe c w' f (prefetched-head w ∙ head) k

  pub build_and_activate-Safe :
      (next_boot tip : Oid) (force : Bool)
      → Safe config system git (build_and_activate config system git next_boot tip force)
  unfolding build_and_activate
  build_and_activate-Safe next_boot tip force = record {
    emits = λ w.
        bind-All (Allowed config system) (run_checkout git tip) _ w
          ((checkout-Safe config system git tip).emits w)
          λ a done.
            prefetch_and_install-Safe tip _ _ _ (checkout-head git w tip a done)
              λ p built. bind-Emits _ _ (lift-Emits _) λ b. activate-Safe p tip b built;
  }

  pub update_to_tip-Safe :
      (tip : Oid) (force : Bool)
      → Safe config system git (update_to_tip config system git tip force)
  unfolding update_to_tip
  update_to_tip-Safe tip force = bind-Emits _ _ (current-Safe config system git) λ current.
      bind-Emits _ _ (next_boot-Safe config system git) λ next_boot.
        bind-Emits _ _ (lift-Emits _) λ allowed. if-Emits (not allowed) _ _ (pure-Emits _) (
          if-Emits (current == tip && next_boot == tip) _ _ (pure-Emits _)
            (build_and_activate-Safe next_boot tip force))

  pub start_persistent-Safe :
      (commit current : Oid)
      → Safe config system git (start_persistent config system git commit current)
  unfolding start_persistent
  start_persistent-Safe commit current =
      bind-Emits _ _ (next_boot-Safe config system git) λ next_boot.
        if-Emits (current == commit && next_boot == commit) _ _ (pure-Emits _) (
          built-Safe commit _ λ p built.
            bind-Emits _ _ (set_profile-Safe config system git p built)
              λ _. switch-Safe config system git p switch built)

  pub start_ephemeral-Safe :
      (commit current tip : Oid)
      → Safe config system git (start_ephemeral config system git commit current tip)
  unfolding start_ephemeral
  start_ephemeral-Safe commit current tip =
      bind-Emits _ _ (stage_boot_floor-Safe commit tip) λ floor.
        if-Emits (current == commit) _ _ (pure-Emits _) (
          built-Safe commit _ λ p built.
            bind-Emits _ _ (switch-Safe config system git p test built) λ _. pure-Emits _)

  pub start_trial-Safe :
      (tip : Oid) (branch : Text) (expires_at : Option DateTime) (hold : CanaryHold)
      → Safe config system git (start_trial config system git tip branch expires_at hold)
  unfolding start_trial
  start_trial-Safe tip branch expires_at hold = bind-Emits _ _ (lift-Emits _) λ commit.
      bind-Emits _ _ (store-Safe config system git _) λ _.
        bind-Emits _ _ (current-Safe config system git) λ current.
          if-Emits (is_persistent hold) _ _
            (bind-Emits _ _ (start_persistent-Safe commit current) λ _. pure-Emits _)
            (bind-Emits _ _ (start_ephemeral-Safe commit current tip) λ _. pure-Emits _)
