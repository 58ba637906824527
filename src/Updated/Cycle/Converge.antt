-- ===== src/Updated/Cycle/Converge.antt =====
-- src/ogygia-updated/src/engine.rs: what a manual update leaves on the host, where the commands of
-- NixOS do what they document.
use ogygia_nix.Base.{
  ap, [], ◌∷◌, ◌++◌, Bool, true, false, not, some, ◌≡◌, refl, ◌∙◌, arith, ◌==◌, if◌then◌else◌,
  subst, ◌&&◌,
}
use ogygia_nix.Base.Text.{Text, trim}
use ogygia_nix.Base.Text.Trim.{IsWord, trim-line}
use ogygia_nix.Updated.Config.{Config}
use ogygia_nix.Updated.Result.{ok}
use ogygia_nix.Updated.Repo.{Oid, Git}
use ogygia_nix.Updated.World.{World, Host, System, test, switch, boot, pure, lift, ◌>>=◌}
use ogygia_nix.Updated.Outcome.{
  Outcome, up_to_date, not_on_branch, switched, test_activated, reboot_scheduled,
  prefetch_unavailable, canary_started, canary_held,
}
use ogygia_nix.Updated.Policy.{flake_ref}
use ogygia_nix.Updated.Effects.{
  parse_revision, read_current, read_next_boot, run_build, run_checkout, run_set_profile,
  run_switch, run_schedule_reboot,
}
use ogygia_nix.Updated.Engine.{
  activate, install, forced_or_on_branch, prefetched, build_and_activate, update_to_tip,
}
use ogygia_nix.Updated.Effects.Frame.{checkout-head}
use ogygia_nix.Updated.Engine.Allowed.{prefetched-head}
use ogygia_nix.Updated.Steps.{bind-leaves}

-- A revision file: the name of the commit on a line.
abbrev pub revision_file : Git → Oid → Text
revision_file git c = git.oid_to_string c ++ (b'\n' ∷ [])

-- The commands of nix and NixOS, as far as they succeed: a system built at a commit carries that
-- commit's name in its revision file (nixos/versions/build_revision.nix), setting the profile makes it
-- the profile's, a test activation the running one, a boot activation the one that the boot loader
-- starts, and a switch both. A commit's name has no spaces, and libgit2 reads it back.
pub record Deploys (config : Config) (system : System) (git : Git) : Type 0 where
  pub revision_of : Text → Text
  pub built :
      (c : Oid) (p : Text)
      → system.build (some c) (flake_ref config) ≡ some p
      → revision_of p ≡ revision_file git c
  pub profile_set :
      (p : Text) (h : Host)
      → (system.set_profile config.activate.profile p h).0 ≡ true
      → (system.set_profile config.activate.profile p h).1
        ≡ record h { next_boot_revision = some (revision_of p) }
  pub switches :
      (p : Text) (h : Host)
      → (system.switch_to_configuration p switch h).0 ≡ true
      → (system.switch_to_configuration p switch h).1
        ≡ record h { current_revision = some (revision_of p); boots = some (revision_of p) }
  pub tests :
      (p : Text) (h : Host)
      → (system.switch_to_configuration p test h).0 ≡ true
      → (system.switch_to_configuration p test h).1
        ≡ record h { current_revision = some (revision_of p) }
  pub boots :
      (p : Text) (h : Host)
      → (system.switch_to_configuration p boot h).0 ≡ true
      → (system.switch_to_configuration p boot h).1 ≡ record h { boots = some (revision_of p) }
  pub named : (c : Oid) → IsWord (git.oid_to_string c)
  pub read_back : (c : Oid) → git.oid_from_str (git.oid_to_string c) ≡ some c

pub readable :
    (config : Config) (system : System) (git : Git) (d : Deploys config system git) (c : Oid)
    → git.oid_from_str (trim (revision_file git c)) ≡ some c
readable config system git d c =
    ap git.oid_from_str (trim-line (git.oid_to_string c) (d.named c)) ∙ d.read_back c

module _ (config : Config) (system : System) (git : Git) (tip : Oid) where
  -- The running system, the profile's, or what the boot loader starts is the given commit's.
  abbrev pub RunsAt : Host → Type 0
  RunsAt h = parse_revision git h.current_revision ≡ ok tip

  abbrev pub BootsAt : Host → Type 0
  BootsAt h = parse_revision git h.next_boot_revision ≡ ok tip

  abbrev pub LoaderAt : Host → Type 0
  LoaderAt h = parse_revision git h.boots ≡ ok tip

  -- What an outcome of a forced update says of the host.
  abbrev pub Reached : Outcome → Host → Type 0
  Reached up_to_date h = RunsAt h × BootsAt h
  Reached (switched c) h = (c ≡ git.oid_to_string tip) × RunsAt h × BootsAt h × LoaderAt h
  Reached (reboot_scheduled c) h = (c ≡ git.oid_to_string tip) × BootsAt h × LoaderAt h
  Reached (prefetch_unavailable c) h = c ≡ git.oid_to_string tip
  Reached (not_on_branch _) h = ⊥
  Reached (test_activated _) h = ⊥
  Reached (canary_started _ _ _ _) h = ⊥
  Reached (canary_held _ _) h = ⊥

  module _ (d : Deploys config system git) where
    activate-Reached :
        (p : Text) (b : Bool) (w : World) (o : Outcome)
        → b ≡ true
        → d.revision_of p ≡ revision_file git tip
        → (activate config system git p tip b w).result ≡ ok o
        → Reached o (activate config system git p tip b w).world.host
    unfolding activate ◌>>=◌ pure run_set_profile run_switch run_schedule_reboot parse_revision
    activate-Reached p b w o forced e h =
        let h1 = (system.set_profile config.activate.profile p w.host).1 in
        let h2 = (system.switch_to_configuration p boot h1).1 in
        ground (
          arith,
          readable config system git d tip,
          d.profile_set p w.host,
          d.switches p h1,
          d.boots p h1,
          d.tests p h2,
        )

    -- From here on, `o` is what the whole update returns.
    module _ (o : Outcome) where
      abbrev Leaves : World → Type 0
      Leaves w = Reached o w.host

      pure-Reached :
          (p : Outcome) (w : World)
          → Reached p w.host
          → (pure p w).result ≡ ok o
          → Leaves (pure p w).world
      unfolding pure
      pure-Reached p w r h = subst (λ q. Reached q w.host) (cc h) r

      -- The build, at a checked-out tip, and the activation of what it built.
      install-Reached :
          (next_boot : Oid) (w : World)
          → w.head ≡ some tip
          → (install config system git next_boot tip true w).result ≡ ok o
          → Leaves (install config system git next_boot tip true w).world
      unfolding install run_build lift forced_or_on_branch
      install-Reached next_boot w head h =
          bind-leaves Leaves o (run_build system (flake_ref config)) _ w h λ p b h1.
            bind-leaves Leaves o _ _ w h1
              λ t e h2. activate-Reached p t w o (cc) (d.built tip p (ground arith)) h2

      -- The same, if the cache holds what the prefetch asks for.
      available-Reached :
          (b : Bool) (next_boot : Oid) (w : World)
          → w.head ≡ some tip
          → ((if not b
                then pure (prefetch_unavailable (git.oid_to_string tip))
                else install config system git next_boot tip true)
              w).result
            ≡ ok o
          → Leaves
              ((if not b
                  then pure (prefetch_unavailable (git.oid_to_string tip))
                  else install config system git next_boot tip true)
                w).world
      available-Reached false next_boot w head h = pure-Reached _ w refl h
      available-Reached true next_boot w head h = install-Reached next_boot w head h

      build-Reached :
          (next_boot : Oid) (w : World)
          → (build_and_activate config system git next_boot tip true w).result ≡ ok o
          → Leaves (build_and_activate config system git next_boot tip true w).world
      unfolding build_and_activate
      build-Reached next_boot w h = bind-leaves Leaves o (run_checkout git tip) _ w h λ u done h1.
          bind-leaves Leaves o (prefetched config system git) _ _ h1 λ b _ h2.
            available-Reached b next_boot _
              (prefetched-head config system git _ ∙ checkout-head git w tip u done) h2

      settled-Reached :
          (b : Bool) (next_boot : Oid) (w : World)
          → (b ≡ true → RunsAt w.host × BootsAt w.host)
          → ((if b
                then pure up_to_date
                else build_and_activate config system git next_boot tip true)
              w).result
            ≡ ok o
          → Leaves
              ((if b
                  then pure up_to_date
                  else build_and_activate config system git next_boot tip true)
                w).world
      settled-Reached true next_boot w k h = pure-Reached _ w (k refl) h
      settled-Reached false next_boot w k h = build-Reached next_boot w h

      allowed-Reached :
          (current next_boot : Oid) (allowed : Bool) (w : World)
          → parse_revision git w.host.current_revision ≡ ok current
          → parse_revision git w.host.next_boot_revision ≡ ok next_boot
          → allowed ≡ true
          → ((if not allowed
                then pure (not_on_branch (git.oid_to_string current))
                else if current == tip && next_boot == tip
                then pure up_to_date
                else build_and_activate config system git next_boot tip true)
              w).result
            ≡ ok o
          → Leaves
              ((if not allowed
                  then pure (not_on_branch (git.oid_to_string current))
                  else if current == tip && next_boot == tip
                  then pure up_to_date
                  else build_and_activate config system git next_boot tip true)
                w).world
      allowed-Reached current next_boot false w rc rn a h = cc
      allowed-Reached current next_boot true w rc rn a h =
          settled-Reached (current == tip && next_boot == tip) next_boot w
            (λ both. (ground arith, ground arith)) h

      pub update_to_tip-Reached :
          (w : World)
          → (update_to_tip config system git tip true w).result ≡ ok o
          → Leaves (update_to_tip config system git tip true w).world
      unfolding update_to_tip read_current read_next_boot lift forced_or_on_branch
      update_to_tip-Reached w h = bind-leaves Leaves o (read_current git) _ w h λ current rc h1.
          bind-leaves Leaves o (read_next_boot git) _ w h1 λ next_boot rn h2.
            bind-leaves Leaves o _ _ w h2
              λ allowed e h3. allowed-Reached current next_boot allowed w rc rn (cc) h3
