-- ===== src/Updated/Fixtures.antt =====
-- A host, a repository and a configuration on which the statements about src/ogygia-updated are
-- exercised.
use ogygia_nix.Base.{
  ◌++◌, ◌+◌, ◌-◌, true, Option, none, some, [], ◌∷◌, refl, arith, ltb, min, if◌then◌else◌,
}
use ogygia_nix.Base.Text.{Text, codes, text_eq, is_whitespace}
use ogygia_nix.Base.Text.Trim.{IsWord}
use ogygia_nix.Base.Int.{pos, ◌+ℤ◌}
use ogygia_nix.Updated.Config.{Config, default_activate, default_daemon}
use ogygia_nix.Updated.Canary.{Chrono, CanaryTarget, pinned, active, ephemeral, persistent}
use ogygia_nix.Updated.Policy.Timeout.{IsOrdered}
use ogygia_nix.Updated.Repo.{Oid, Git, Opening}
use ogygia_nix.Updated.World.{
  World, Host, record_of, absent, System, Links, Activation, test, switch, boot,
}
use ogygia_nix.Updated.Cycle.Converge.{Deploys}

abbrev pub sample_config : Config
sample_config = record {
  state_dir = codes "/var/lib/u";
  repo = record { url = codes "git"; branch = codes "main" };
  host = record { name = codes "web"; current_revision_path = codes "/run/r" };
  build = record { flake_attr = none; prefetch_attr = some (codes "warm") };
  activate = default_activate;
  daemon = default_daemon;
}

-- A commit is spelled by one character that is no white space.
abbrev pub spell : Oid → Text
spell c = (c + 20000) ∷ []

abbrev pub unspell : Text → Option Oid
unspell (x ∷ []) = some (x - 20000)
unspell _ = none

abbrev branch_tip : Text → Option Oid
branch_tip name = if text_eq name (codes "trial") then some 3 else some 2

-- The branch main ends at 2 and the branch trial at 3; later commits descend from earlier ones.
abbrev pub sample_git : Git
sample_git = record {
  opening = Opening.opened;
  create_dir = true;
  clone = true;
  fetch_origin = true;
  reference = branch_tip;
  find_commit = λ c. some (record { change_id = some (c ∷ []) });
  find_object = λ _. true;
  graph_descendant_of = λ descendant ancestor. some (ltb ancestor descendant);
  merge_base = λ a b. some (min a b);
  revwalk = λ start _. some (some start ∷ []);
  checkout_tree = λ _. true;
  set_head_detached = λ _. true;
  oid_to_string = spell;
  oid_from_str = unspell;
}

abbrev build_at : Option Oid → Option Text
build_at none = none
build_at (some c) = some (spell c)

abbrev line : Text → Text
line p = p ++ (b'\n' ∷ [])

abbrev activate_host : Text → Activation → Host → Host
activate_host p test h = record h { current_revision = some (line p) }
activate_host p switch h = record h { current_revision = some (line p); boots = some (line p) }
activate_host p boot h = record h { boots = some (line p) }

abbrev no_links : Links
no_links = record { initrd = none; kernel = none; kernel_modules = none }

abbrev pub sample_system : System
sample_system = record {
  prefetch = λ _ _. true;
  attr_defined = λ _ _. some true;
  build = λ head _. build_at head;
  set_profile = λ _ p h. (true, record h { next_boot_revision = some (line p) });
  switch_to_configuration = λ p action h. (true, activate_host p action h);
  kernel_links = λ _. no_links;
  schedule_reboot = λ _. true;
  write_canary = λ _. true;
}

spell-IsWord : (c : Oid) → IsWord (spell c)
unfolding is_whitespace
spell-IsWord c = record { filled = λ e. cc; clean = (ground arith, tt) }

pub sample-Deploys : Deploys sample_config sample_system sample_git
sample-Deploys = record {
  revision_of = line;
  built = λ c p e. ground arith;
  profile_set = λ p h e. refl;
  switches = λ p h e. refl;
  tests = λ p h e. refl;
  boots = λ p h e. refl;
  named = spell-IsWord;
  read_back = λ c. ground arith;
}

abbrev pub sample_chrono : Chrono
sample_chrono = record { add_seconds = λ t s. some (t +ℤ s); format_minutes = λ _. codes "then" }

pub sample-IsOrdered : IsOrdered sample_chrono
unfolding ◌+ℤ◌
sample-IsOrdered = record {
  still = λ t at e. ground arith;
  forwards = λ t at n e. ground arith;
  backwards = λ t at n e. ground arith;
}

-- The host runs and next boots commit 1, and no trial is recorded.
abbrev pub old_world : World
old_world = record {
  host = record {
    current_revision = some (spell 1);
    next_boot_revision = some (spell 1);
    boots = some (spell 1);
  };
  canary = absent;
  head = none;
}

abbrev pub trial_target : CanaryTarget
trial_target = pinned (codes "trial") (spell 3)

-- The host runs commit 3 for a trial that the session "a" started.
abbrev pub trial_world : World
trial_world = record {
  host = record {
    current_revision = some (spell 3);
    next_boot_revision = some (spell 1);
    boots = some (spell 1);
  };
  canary = record_of (active trial_target (some (pos 100)) (ephemeral (codes "a")));
  head = none;
}

-- The same with a hold that a reboot does not end.
abbrev pub kept_world : World
kept_world = record {
  host = record {
    current_revision = some (spell 3);
    next_boot_revision = some (spell 3);
    boots = some (spell 3);
  };
  canary = record_of (active trial_target none persistent);
  head = none;
}

-- The host runs commit 5, which is not on the branch.
abbrev pub pinned_world : World
pinned_world = record {
  host = record {
    current_revision = some (spell 5);
    next_boot_revision = some (spell 1);
    boots = some (spell 1);
  };
  canary = absent;
  head = none;
}
