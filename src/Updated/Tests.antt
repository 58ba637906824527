-- ===== src/Updated/Tests.antt =====
-- Applications of the statements about src/ogygia-updated to the sample host.
use ogygia_nix.Base.{
  ◌^◌, ◌≤◌, ◌-◌, true, false, Option, some, [], ◌∷◌, ◌≡◌, ◌↔◌, ◌⊎◌, refl, arith, All, length, take,
}
use ogygia_nix.Base.Text.{codes, text_eq, trim, trim_start, trim_end, is_whitespace}
use ogygia_nix.Base.Int.{ℤ, pos, negsuc, ◌+ℤ◌}
use ogygia_nix.Updated.Config.{default_activate}
use ogygia_nix.Updated.Canary.{ephemeral, finished, rebooted}
use ogygia_nix.Updated.Result.{ok}
use ogygia_nix.Updated.Repo.{
  merge_base, Oid, collect_landed, scan_deployed, contains, is_ancestor, changes_landed,
  max_landed_scan, tip, fetch, open_or_clone, checkout,
}
use ogygia_nix.Updated.Repo.Landed.{Landed, changes_landed_iff}
use ogygia_nix.Updated.World.{Ran, pure, lift, ◌>>=◌, record_of}
use ogygia_nix.Updated.Outcome.{
  Outcome, switched, up_to_date, not_on_branch, scheduled, manual, activated,
}
use ogygia_nix.Updated.Policy.{expiry, as_i64, is_past, on_branch, target_commit, is_lost}
use ogygia_nix.Updated.Policy.Timeout.{expiry-is_past}
use ogygia_nix.Updated.Effects.{
  run_attr_defined, parse_revision, read_current, read_next_boot, run_set_profile, run_switch,
  run_build, run_prefetch, run_checkout, load_canary,
}
use ogygia_nix.Updated.Effects.Allowed.{Allowed}
use ogygia_nix.Updated.Engine.Floor.{stage_boot_floor-boots}
use ogygia_nix.Updated.Engine.{
  stage_boot_floor, checkout_and_build, activate, prefetch_attr, prefetched, forced_or_on_branch,
  install, build_and_activate, update_to_tip,
}
use ogygia_nix.Updated.Cycle.{
  scheduled_trial, scheduled_cycle, clear_canary, dispatch, fetched_tip, run,
}
use ogygia_nix.Updated.Cycle.Converge.{Reached}
use ogygia_nix.Updated.Cycle.Settles.{NoTrial, manual-reaches, manual-settles}
use ogygia_nix.Updated.Cycle.Allowed.{run-Allowed}
use ogygia_nix.Updated.Cycle.Endings.{scheduled_trial-record}
use ogygia_nix.Updated.Cycle.Quiet.{IsIdle, run-IsIdle}
use ogygia_nix.Updated.Fixtures.{
  sample_config, spell, sample_git, sample_system, sample-Deploys, sample_chrono, sample-IsOrdered,
  old_world, trial_target, trial_world, pinned_world,
}

abbrev now : ℤ
now = pos 50

abbrev manual_run : Ran Outcome
manual_run =
    run sample_config sample_system sample_git sample_chrono now (codes "a") manual old_world

abbrev scheduled_run : Ran Outcome
scheduled_run =
    run sample_config sample_system sample_git sample_chrono now (codes "a") scheduled pinned_world

fetched : fetched_tip sample_config sample_system sample_git ≡ ok 2
unfolding fetched_tip open_or_clone fetch tip codes text_eq
fetched = refl

manual_result : manual_run.result ≡ ok (switched (spell 2))
unfolding run dispatch fetched_tip open_or_clone fetch tip codes text_eq load_canary clear_canary
    pure lift ◌>>=◌ update_to_tip read_current read_next_boot parse_revision trim trim_start
    trim_end is_whitespace forced_or_on_branch build_and_activate run_checkout checkout prefetched
    prefetch_attr run_prefetch install run_build activate run_set_profile run_switch
    default_activate
manual_result = refl

scheduled_result : scheduled_run.result ≡ ok (not_on_branch (spell 5))
unfolding run dispatch scheduled_cycle fetched_tip open_or_clone fetch tip codes text_eq load_canary
    pure lift ◌>>=◌ update_to_tip read_current read_next_boot parse_revision trim trim_start
    trim_end is_whitespace forced_or_on_branch on_branch is_ancestor changes_landed collect_landed
    scan_deployed contains
scheduled_result = refl

manual-reaches_example :
    Reached sample_config sample_system sample_git 2 (switched (spell 2)) manual_run.world.host
    × NoTrial manual_run.world.canary
manual-reaches_example =
    manual-reaches sample_config sample_system sample_git sample-Deploys sample_chrono now
      (codes "a") 2 old_world (switched (spell 2)) fetched manual_result

manual-settles_example :
    run sample_config sample_system sample_git sample_chrono
      (pos 60)
      (codes "b")
      scheduled
      manual_run.world
    ≡ record { result = ok up_to_date; world = manual_run.world; calls = [] }
manual-settles_example =
    manual-settles sample_config sample_system sample_git sample-Deploys sample_chrono now (pos 60)
      (codes "a") (codes "b") 2 old_world (switched (spell 2)) fetched refl manual_result tt

run-Allowed_example : All (Allowed sample_config sample_system) manual_run.calls
run-Allowed_example =
    run-Allowed sample_config sample_system sample_git sample_chrono now (codes "a") manual
      old_world

target_known : target_commit sample_git trial_target ≡ ok 3
unfolding target_commit
target_known = refl

running_known : parse_revision sample_git trial_world.host.current_revision ≡ ok 3
unfolding parse_revision trim trim_start trim_end is_whitespace
running_known = refl

not_merged : on_branch sample_git 3 2 ≡ ok false
unfolding on_branch is_ancestor changes_landed collect_landed scan_deployed contains text_eq
not_merged = refl

lost_trial : is_lost (ephemeral (codes "a")) (codes "b") ≡ true
unfolding is_lost codes text_eq
lost_trial = refl

scheduled_trial-record_example :
    (scheduled_trial sample_config sample_system sample_git now
      (codes "b")
      2
      trial_target
      (some (pos 100))
      (ephemeral (codes "a"))
      trial_world).world.canary
    ≡ record_of (finished trial_target now rebooted)
unfolding is_lost codes text_eq
scheduled_trial-record_example =
    scheduled_trial-record sample_config sample_system sample_git now trial_target 2 (codes "b")
      (some (pos 100)) (ephemeral (codes "a")) 3 3 false trial_world (λ _. refl) target_known
      running_known not_merged

run-IsIdle_example : All IsIdle scheduled_run.calls
unfolding activated
run-IsIdle_example =
    run-IsIdle sample_config sample_system sample_git sample_chrono now (codes "a") scheduled
      pinned_world (not_on_branch (spell 5)) scheduled_result refl

off_branch : on_branch sample_git 5 2 ≡ ok false
unfolding on_branch is_ancestor changes_landed collect_landed scan_deployed contains text_eq
off_branch = refl

pinned_running : parse_revision sample_git pinned_world.host.current_revision ≡ ok 5
unfolding parse_revision trim trim_start trim_end is_whitespace
pinned_running = refl

pinned_next : parse_revision sample_git pinned_world.host.next_boot_revision ≡ ok 1
unfolding parse_revision trim trim_start trim_end is_whitespace
pinned_next = refl

changes_landed_iff_example : (changes_landed sample_git 5 2 ≡ ok true) ↔ (
    (length {A = Option Oid} (some 5 ∷ []) ≤ max_landed_scan)
    × All (Landed sample_git (take max_landed_scan (some 2 ∷ []))) (some 5 ∷ []))
changes_landed_iff_example =
    changes_landed_iff sample_git 5 2 (some 2 ∷ []) (some 5 ∷ []) refl refl refl
      ((2, _, refl, refl), tt) ((5, _, refl, refl), tt)

-- A timeout of 2^63 seconds is past as the trial starts.
expiry-is_past_example :
    (is_past (some (pos 50 +ℤ negsuc (2 ^ 63 - 1))) now ≡ true) ↔ ((2 ^ 63 ≡ 0) ⊎ (2 ^ 63 ≤ 2 ^ 63))
unfolding expiry as_i64
expiry-is_past_example =
    expiry-is_past sample_chrono sample-IsOrdered now (pos 50 +ℤ negsuc (2 ^ 63 - 1)) (2 ^ 63)
      (omega arith) refl

floor_result :
    (stage_boot_floor sample_config sample_system sample_git 3 2 trial_world).result ≡ ok 2
unfolding stage_boot_floor merge_base pure lift ◌>>=◌ read_next_boot parse_revision trim trim_start
    trim_end is_whitespace run_checkout checkout run_attr_defined checkout_and_build run_build
    run_set_profile run_switch default_activate
floor_result = refl

stage_boot_floor-boots_example :
    let v = (stage_boot_floor sample_config sample_system sample_git 3 2 trial_world).world in
    (parse_revision sample_git v.host.next_boot_revision ≡ ok 2)
    × (parse_revision sample_git v.host.boots ≡ ok 2)
    × (v.host.current_revision ≡ some (spell 3))
stage_boot_floor-boots_example =
    stage_boot_floor-boots sample_config sample_system sample_git sample-Deploys 3 2 2 trial_world
      refl floor_result
