-- ===== src/Updated/Cycle/Settles.antt =====
-- src/ogygia-updated/src/engine.rs: a manual update settles the host.
use ogygia_nix.Base.{
  true, false, Option, none, some, [], ◌≡◌, refl, ◌∙◌, arith, is_some, ==_refl, subst, sym,
}
use ogygia_nix.Base.Text.{Text}
use ogygia_nix.Updated.Config.{Config}
use ogygia_nix.Updated.Canary.{
  DateTime, Chrono, CanaryState, CanaryTarget, active, finished, cleared,
}
use ogygia_nix.Updated.Result.{ok}
use ogygia_nix.Updated.Repo.{Oid, Git, is_ancestor}
use ogygia_nix.Updated.World.{
  World, Host, Stored, absent, unreadable, record_of, System, pure, ◌>>=◌,
}
use ogygia_nix.Updated.Outcome.{
  Outcome, up_to_date, not_on_branch, switched, test_activated, reboot_scheduled,
  prefetch_unavailable, canary_started, canary_held, scheduled, manual,
}
use ogygia_nix.Updated.Policy.{on_branch}
use ogygia_nix.Updated.Effects.{store, finish_canary, load_canary}
use ogygia_nix.Updated.Effects.Frame.{current-ok, next_boot-ok}
use ogygia_nix.Updated.Engine.{update_to_tip, forced_or_on_branch}
use ogygia_nix.Updated.Engine.Keeps.{update_to_tip-Keeps}
use ogygia_nix.Updated.Steps.{lift-ok, bind-leaves, bind-world}
use ogygia_nix.Updated.Cycle.Converge.{Deploys, RunsAt, BootsAt, Reached, update_to_tip-Reached}
use ogygia_nix.Updated.Cycle.{clear_canary, scheduled_cycle, dispatch, fetched_tip, run}

-- No trial is in progress.
abbrev pub NoTrial : Stored → Type 0
NoTrial absent = Unit {0}
NoTrial unreadable = Unit {0}
NoTrial (record_of (active _ _ _)) = ⊥
NoTrial (record_of (finished _ _ _)) = Unit {0}

-- The outcomes after which the running and the next-boot system are both at the tip.
abbrev pub Rests : Outcome → Type 0
Rests up_to_date = Unit {0}
Rests (switched _) = Unit {0}
Rests _ = ⊥

module _ (config : Config) (system : System) (git : Git) where
  tip-on_branch :
      (tip : Oid)
      → is_some (git.find_commit tip) ≡ true
      → forced_or_on_branch config system git false tip tip ≡ ok true
  unfolding forced_or_on_branch on_branch is_ancestor
  tip-on_branch tip known = ground arith

  -- A host at the tip needs no update.
  update_to_tip-settled :
      (tip : Oid) (w : World)
      → is_some (git.find_commit tip) ≡ true
      → RunsAt config system git tip w.host
      → BootsAt config system git tip w.host
      → update_to_tip config system git tip false w
        ≡ record { result = ok up_to_date; world = w; calls = [] }
  unfolding update_to_tip pure
  update_to_tip-settled tip w known runs boots = rw (current-ok git w tip _ runs) (
      rw (next_boot-ok git w tip _ boots)
        (rw (lift-ok _ true _ w (tip-on_branch tip known)) (rw (==_refl tip))))

  scheduled_cycle-settled :
      (now : DateTime) (boot_id : Text) (tip : Oid) (w : World) (s : Stored)
      → w.canary ≡ s
      → NoTrial s
      → scheduled_cycle config system git now boot_id tip (load_canary w) w
        ≡ update_to_tip config system git tip false w
  unfolding scheduled_cycle load_canary
  scheduled_cycle-settled now boot_id tip w absent e n = rw e
  scheduled_cycle-settled now boot_id tip w unreadable e n = rw e
  scheduled_cycle-settled now boot_id tip w (record_of (active _ _ _)) e n = absurd n
  scheduled_cycle-settled now boot_id tip w (record_of (finished _ _ _)) e n = rw e

  clear_canary-NoTrial :
      (now : DateTime) (w : World)
      → (clear_canary config system git now (load_canary w) w).result ≡ ok tt
      → NoTrial (clear_canary config system git now (load_canary w) w).world.canary
  unfolding clear_canary finish_canary store load_canary pure
  clear_canary-NoTrial now w h = ground arith

  clear_canary-ok :
      (now : DateTime) (w : World) (canary : Option CanaryState)
      → ((target : CanaryTarget) → system.write_canary (finished target now cleared) ≡ true)
      → (clear_canary config system git now canary w).result ≡ ok tt
  unfolding clear_canary finish_canary store pure
  clear_canary-ok now w none writes = refl
  clear_canary-ok now w (some (finished _ _ _)) writes = refl
  clear_canary-ok now w (some (active target _ _)) writes = rw (writes target)

  -- A scheduled cycle with no trial in progress.
  pub scheduled-run :
      (chrono : Chrono) (now : DateTime) (boot_id : Text) (tip : Oid) (w : World)
      → fetched_tip config system git ≡ ok tip
      → NoTrial w.canary
      → run config system git chrono now boot_id scheduled w
        ≡ update_to_tip config system git tip false w
  unfolding run dispatch
  scheduled-run chrono now boot_id tip w f idle =
      lift-ok _ tip _ w f ∙ scheduled_cycle-settled now boot_id tip w w.canary refl idle

  -- A manual cycle from its fetch on.
  manual-run :
      (chrono : Chrono) (now : DateTime) (boot_id : Text) (tip : Oid) (w : World)
      → fetched_tip config system git ≡ ok tip
      → run config system git chrono now boot_id manual w
        ≡ (clear_canary config system git now (load_canary w) >>= λ _.
              update_to_tip config system git tip true)
            w
  unfolding run dispatch
  manual-run chrono now boot_id tip w f = lift-ok _ tip _ w f

  -- Take a manual cycle that fetched the branch at a tip, and that returned an outcome, on a host
  -- whose commands do what NixOS documents. No trial is then in progress, and the outcome says where
  -- the host is: up to date means that the revision files of the running system and of the profile
  -- hold the tip; switched means that also the boot loader starts the tip; a scheduled reboot that
  -- the profile holds and the boot loader starts it; a missing prefetch says nothing, and no other
  -- outcome occurs.
  pub manual-reaches :
      (d : Deploys config system git) (chrono : Chrono) (now : DateTime) (boot_id : Text)
      (tip : Oid) (w : World) (o : Outcome)
      → fetched_tip config system git ≡ ok tip
      → (run config system git chrono now boot_id manual w).result ≡ ok o
      → let v = (run config system git chrono now boot_id manual w).world in
        Reached config system git tip o v.host × NoTrial v.canary
  manual-reaches d chrono now boot_id tip w o f h = rw (manual-run chrono now boot_id tip w f) (
      bind-leaves (λ v. Reached config system git tip o v.host × NoTrial v.canary) o _ _ w
        (rw (manual-run chrono now boot_id tip w f) at h)
        λ u done h1. (
          update_to_tip-Reached config system git tip d o _ h1,
          subst NoTrial (sym ((update_to_tip-Keeps config system git tip true).keeps _))
              (clear_canary-NoTrial now w done),
        ))

  Rests-at :
      (tip : Oid) (o : Outcome) (h : Host)
      → Rests o
      → Reached config system git tip o h
      → RunsAt config system git tip h × BootsAt config system git tip h
  Rests-at tip up_to_date h r reached = reached
  Rests-at tip (switched _) h r reached = (reached.1, reached.2)
  Rests-at tip (not_on_branch _) h r reached = absurd r
  Rests-at tip (test_activated _) h r reached = absurd r
  Rests-at tip (reboot_scheduled _) h r reached = absurd r
  Rests-at tip (prefetch_unavailable _) h r reached = absurd r
  Rests-at tip (canary_started _ _ _ _) h r reached = absurd r
  Rests-at tip (canary_held _ _) h r reached = absurd r

  -- Take a manual cycle that fetched the branch at a tip that the clone has, on a host whose
  -- commands do what NixOS documents. If it reports that the host is up to date or has switched,
  -- then a later scheduled cycle on the same repository, at any time and in any boot session,
  -- reports that the host is up to date, starts no program of the System trait and changes nothing.
  pub manual-settles :
      (d : Deploys config system git) (chrono : Chrono) (now later : DateTime)
      (boot_id boot_id' : Text) (tip : Oid) (w : World) (o : Outcome)
      → fetched_tip config system git ≡ ok tip
      → is_some (git.find_commit tip) ≡ true
      → (run config system git chrono now boot_id manual w).result ≡ ok o
      → Rests o
      → let v = (run config system git chrono now boot_id manual w).world in
        run config system git chrono later boot_id' scheduled v
        ≡ record { result = ok up_to_date; world = v; calls = [] }
  manual-settles d chrono now later boot_id boot_id' tip w o f known h rests =
      let v = (run config system git chrono now boot_id manual w).world in
      let (reached, idle) = manual-reaches d chrono now boot_id tip w o f h in
      let (runs, boots) = Rests-at tip o v.host rests reached in
      scheduled-run chrono later boot_id' tip v f idle
      ∙ update_to_tip-settled tip v known runs boots

  -- A manual cycle that fetched the branch leaves no trial in progress, also where the update that
  -- follows fails, if the record can be written.
  pub manual-clears :
      (chrono : Chrono) (now : DateTime) (boot_id : Text) (tip : Oid) (w : World)
      → fetched_tip config system git ≡ ok tip
      → ((target : CanaryTarget) → system.write_canary (finished target now cleared) ≡ true)
      → NoTrial (run config system git chrono now boot_id manual w).world.canary
  manual-clears chrono now boot_id tip w f writes = rw (manual-run chrono now boot_id tip w f) (
      rw
        (bind-world (clear_canary config system git now (load_canary w))
          (λ _. update_to_tip config system git tip true) tt w done)
        (rw ((update_to_tip-Keeps config system git tip true).keeps _)
          (clear_canary-NoTrial now w done)))
    where
      done : (clear_canary config system git now (load_canary w) w).result ≡ ok tt
      done = clear_canary-ok now w (load_canary w) writes
