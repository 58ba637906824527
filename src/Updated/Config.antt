-- ===== src/Updated/Config.antt =====
-- src/ogygia-updated/src/config.rs: the daemon's configuration, its defaults and derived paths.
use ogygia_nix.Base.{ℕ, Bool, false, Option, none, some, ◌++◌}
use ogygia_nix.Base.Text.{Text, codes, path_join}

pub record RepoConfig : Type 0 where
  pub url : Text
  pub branch : Text

pub record HostConfig : Type 0 where
  pub name : Text
  pub current_revision_path : Text

pub record BuildConfig : Type 0 where
  pub flake_attr : Option Text
  pub prefetch_attr : Option Text

pub record ActivateConfig : Type 0 where
  pub allow_reboot : Bool
  pub reboot_delay_minutes : ℕ
  pub profile : Text
  pub booted_system : Text

pub record DaemonConfig : Type 0 where
  pub initial_delay_seconds : ℕ
  pub interval_seconds : ℕ
  pub jitter_seconds : ℕ
  pub socket_path : Text

pub record Config : Type 0 where
  pub state_dir : Text
  pub repo : RepoConfig
  pub host : HostConfig
  pub build : BuildConfig
  pub activate : ActivateConfig
  pub daemon : DaemonConfig

unfoldable pub flake_attr : Config → Text
flake_attr config = elim config.build.flake_attr [
  | some attr ↦ attr
  | none ↦
      codes "nixosConfigurations.\""
      ++ (config.host.name ++ codes "\".config.system.build.toplevel")
]

unfoldable pub next_boot_revision_path : Config → Text
next_boot_revision_path config =
    path_join config.activate.profile (codes "sw/share/ogygia/build-revision")

unfoldable pub repo_path : Config → Text
repo_path config = path_join config.state_dir (codes "repo")

unfoldable pub canary_state_path : Config → Text
canary_state_path config = path_join config.state_dir (codes "canary.json")

unfoldable pub default_activate : ActivateConfig
default_activate = record {
  allow_reboot = false;
  reboot_delay_minutes = 15;
  profile = codes "/nix/var/nix/profiles/system";
  booted_system = codes "/run/booted-system";
}

unfoldable pub default_daemon : DaemonConfig
default_daemon = record {
  initial_delay_seconds = 900;
  interval_seconds = 3600;
  jitter_seconds = 1800;
  socket_path = codes "/run/ogygia-updated/control.sock";
}
