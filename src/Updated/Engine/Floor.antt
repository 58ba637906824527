-- ===== src/Updated/Engine/Floor.antt =====
-- src/ogygia-updated/src/engine.rs: the boot floor of a trial.
use ogygia_nix.Base.{
  Bool, true, false, not, Option, ◌≡◌, refl, sym, subst, ◌∙◌, ap, arith, ◌==◌, ==_iff,
  if◌then◌else◌,
}
use ogygia_nix.Base.Text.{Text}
use ogygia_nix.Updated.Config.{Config}
use ogygia_nix.Updated.Result.{ok}
use ogygia_nix.Updated.Repo.{Oid, Git}
use ogygia_nix.Updated.World.{World, Host, System, boot, pure, lift, ◌>>=◌, ◌>>◌}
use ogygia_nix.Updated.Policy.{flake_ref}
use ogygia_nix.Updated.Effects.{
  parse_revision, read_next_boot, run_build, run_checkout, run_attr_defined, run_set_profile,
  run_switch,
}
use ogygia_nix.Updated.Effects.Frame.{checkout-head, checkout-host}
use ogygia_nix.Updated.Engine.{checkout_and_build, stage_boot_floor}
use ogygia_nix.Updated.Steps.{bind-leaves, bind-ok}
use ogygia_nix.Updated.Cycle.Converge.{Deploys, revision_file, readable}

module _ (config : Config) (system : System) (git : Git) (d : Deploys config system git)
    (running : Option Text) (floor : Oid) where
  -- The profile has the floor, the boot loader starts it, and the host runs what it ran.
  abbrev Staged : World → Type 0
  Staged w =
      (parse_revision git w.host.next_boot_revision ≡ ok floor)
      × (parse_revision git w.host.boots ≡ ok floor)
      × (w.host.current_revision ≡ running)

  -- The profile and the boot loader both have a commit.
  abbrev AtBoot : Oid → Host → Type 0
  AtBoot c h =
      (parse_revision git h.next_boot_revision ≡ ok c) × (parse_revision git h.boots ≡ ok c)

  pure-Staged :
      (c : Oid) (w : World)
      → AtBoot c w.host
      → w.host.current_revision ≡ running
      → (pure c w).result ≡ ok floor
      → Staged (pure c w).world
  unfolding pure
  pure-Staged c w boots runs h = (boots.0 ∙ cc, boots.1 ∙ cc, runs)

  -- The profile is set to what was built at the floor, and activated for the next boot.
  install-Staged :
      (c : Oid) (p : Text) (w : World)
      → d.revision_of p ≡ revision_file git c
      → w.host.current_revision ≡ running
      → ((run_set_profile system config.activate.profile p >> (run_switch system p boot >> pure c))
          w).result
        ≡ ok floor
      → Staged
          ((run_set_profile system config.activate.profile p
              >> (run_switch system p boot >> pure c))
            w).world
  unfolding ◌>>=◌ pure run_set_profile run_switch parse_revision
  install-Staged c p w e runs h =
      let h1 = (system.set_profile config.activate.profile p w.host).1 in
      ground (arith, readable config system git d c, d.profile_set p w.host, d.boots p h1)

  built-host :
      (c : Oid) (p : Text) (w : World)
      → (checkout_and_build config system git c w).result ≡ ok p
      → (checkout_and_build config system git c w).world.host ≡ w.host
  unfolding checkout_and_build ◌>>=◌ run_checkout run_build
  built-host c p w h = ground arith

  built-at :
      (c : Oid) (p : Text) (w : World)
      → (checkout_and_build config system git c w).result ≡ ok p
      → (d.revision_of p ≡ revision_file git c)
        × ((checkout_and_build config system git c w).world.host ≡ w.host)
  unfolding checkout_and_build run_build
  built-at c p w h =
      let (u, done, h1, _, _) =
        bind-ok (run_checkout git c) (λ _. run_build system (flake_ref config)) w p h in
      (d.built c p (ground (arith, checkout-head git w c u done)), built-host c p w h)

  build-Staged :
      (c : Oid) (w : World)
      → w.host.current_revision ≡ running
      → ((do
        p ← checkout_and_build config system git c
        run_set_profile system config.activate.profile p
        run_switch system p boot
        pure c)
          w).result
        ≡ ok floor
      → Staged
          ((do
            p ← checkout_and_build config system git c
            run_set_profile system config.activate.profile p
            run_switch system p boot
            pure c)
            w).world
  build-Staged c w runs h =
      bind-leaves Staged floor (checkout_and_build config system git c) _ w h λ p built h1.
        let (e, same) = built-at c p w built in
        install-Staged c p _ e (ap (λ (x : Host). x.current_revision) same ∙ runs) h1

  same-Staged :
      (same : Bool) (next_boot c : Oid) (w : World)
      → (same ≡ true → next_boot ≡ c)
      → AtBoot next_boot w.host
      → w.host.current_revision ≡ running
      → ((if same then pure c else (do
        p ← checkout_and_build config system git c
        run_set_profile system config.activate.profile p
        run_switch system p boot
        pure c))
          w).result
        ≡ ok floor
      → Staged
          ((if same then pure c else (do
            p ← checkout_and_build config system git c
            run_set_profile system config.activate.profile p
            run_switch system p boot
            pure c))
            w).world
  same-Staged true next_boot c w e boots runs h =
      pure-Staged c w (boots.0 ∙ ap ok (e refl), boots.1 ∙ ap ok (e refl)) runs h
  same-Staged false next_boot c w e boots runs h = build-Staged c w runs h

  choose-Staged :
      (next_boot c : Oid) (defined : Bool) (w : World)
      → AtBoot next_boot w.host
      → w.host.current_revision ≡ running
      → ((if not defined then pure next_boot else if next_boot == c then pure c else (do
        p ← checkout_and_build config system git c
        run_set_profile system config.activate.profile p
        run_switch system p boot
        pure c))
          w).result
        ≡ ok floor
      → Staged
          ((if not defined then pure next_boot else if next_boot == c then pure c else (do
            p ← checkout_and_build config system git c
            run_set_profile system config.activate.profile p
            run_switch system p boot
            pure c))
            w).world
  choose-Staged next_boot c false w boots runs h = pure-Staged next_boot w boots runs h
  choose-Staged next_boot c true w boots runs h =
      same-Staged (next_boot == c) next_boot c w (λ e. (==_iff next_boot c).0 e) boots runs h

  lift-Staged :
      (next_boot c : Oid) (w : World)
      → AtBoot next_boot w.host
      → w.host.current_revision ≡ running
      → ((do
        defined ← run_attr_defined system (flake_ref config)
        if not defined then pure next_boot else if next_boot == c then pure c else (do
          p ← checkout_and_build config system git c
          run_set_profile system config.activate.profile p
          run_switch system p boot
          pure c))
          w).result
        ≡ ok floor
      → Staged
          ((do
            defined ← run_attr_defined system (flake_ref config)
            if not defined then pure next_boot else if next_boot == c then pure c else (do
              p ← checkout_and_build config system git c
              run_set_profile system config.activate.profile p
              run_switch system p boot
              pure c))
            w).world
  unfolding run_attr_defined lift
  lift-Staged next_boot c w boots runs h =
      bind-leaves Staged floor (run_attr_defined system (flake_ref config)) _ w h
        λ defined _ h1. choose-Staged next_boot c defined w boots runs h1

  stage-Staged :
      (commit main_tip : Oid) (w : World)
      → parse_revision git w.host.boots ≡ parse_revision git w.host.next_boot_revision
      → w.host.current_revision ≡ running
      → (stage_boot_floor config system git commit main_tip w).result ≡ ok floor
      → Staged (stage_boot_floor config system git commit main_tip w).world
  unfolding stage_boot_floor lift read_next_boot
  stage-Staged commit main_tip w agree runs h = bind-leaves Staged floor _ _ w h λ c _ h1.
      bind-leaves Staged floor (read_next_boot git) _ w h1 λ next_boot boots h2.
        bind-leaves Staged floor (run_checkout git c) _ w h2 λ u _ h3.
          let same = checkout-host git w c in
          lift-Staged next_boot c _ (subst (AtBoot next_boot) (sym same) (boots, agree ∙ boots))
            (ap (λ (x : Host). x.current_revision) same ∙ runs) h3

-- On a host whose commands do what NixOS documents, and whose boot loader starts the profile's
-- revision, once the boot floor of a trial is staged, the profile has and the boot loader starts the
-- commit that is reported as the floor, be it a tracked commit or the boot default that was there,
-- and the running revision is what it was.
pub stage_boot_floor-boots :
    (config : Config) (system : System) (git : Git) (d : Deploys config system git)
    (commit main_tip floor : Oid) (w : World)
    → parse_revision git w.host.boots ≡ parse_revision git w.host.next_boot_revision
    → (stage_boot_floor config system git commit main_tip w).result ≡ ok floor
    → let v = (stage_boot_floor config system git commit main_tip w).world in
      (parse_revision git v.host.next_boot_revision ≡ ok floor)
      × (parse_revision git v.host.boots ≡ ok floor)
      × (v.host.current_revision ≡ w.host.current_revision)
stage_boot_floor-boots config system git d commit main_tip floor w agree h =
    stage-Staged config system git d w.host.current_revision floor commit main_tip w agree refl h
