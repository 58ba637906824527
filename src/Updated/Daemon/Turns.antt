-- ===== src/Updated/Daemon/Turns.antt =====
-- src/ogygia-updated/src/main.rs: what one turn of the daemon's loop answers, and when it ends.
use ogygia_nix.Base.{
  ℕ, ◌≤◌, Bool, true, false, Option, none, some, ◌≡◌, refl, ◌≢◌, ◌↔◌, ◌⊎◌, inl, inr, arith, All,
  Bool-cases,
}
use ogygia_nix.Base.Text.{Text}
use ogygia_nix.Base.Int.{pos, ◌+ℤ◌, ◌-ℤ◌, ◌≤ℤ◌}
use ogygia_nix.Updated.Config.{Config}
use ogygia_nix.Updated.Canary.{DateTime, Chrono, CanaryTarget, CanaryHold, active}
use ogygia_nix.Updated.Result.{Result, ok, err, panic, Error}
use ogygia_nix.Updated.Outcome.{Outcome, Trigger, scheduled, activated, served, show_outcome}
use ogygia_nix.Updated.World.{World, record_of}
use ogygia_nix.Updated.Cycle.{run}
use ogygia_nix.Updated.Cycle.Quiet.{IsIdle, run-IsIdle}
use ogygia_nix.Updated.Daemon.{
  Request, success, Received, requested, timed_out, disconnected, Surroundings, exits,
  wait_duration, trigger_of, response_of, next_of, cycle_turn, request_turn, turn,
}

-- While a trial has a deadline, the wait that the daemon computes is within the base gap, and it
-- ends by the deadline, or is 0 if that has passed.
pub wait_duration-deadline :
    (target : CanaryTarget) (deadline now : DateTime) (hold : CanaryHold) (base : ℕ)
    → let wait = wait_duration (record_of (active target (some deadline) hold)) now base in
      (wait ≤ base) × ((now +ℤ pos wait ≤ℤ deadline) ⊎ ((wait ≡ 0) × (deadline ≤ℤ now)))
unfolding wait_duration ◌+ℤ◌ ◌-ℤ◌
wait_duration-deadline target deadline now hold base = ground arith

-- The cycle that what the daemon received asks for.
abbrev pub cycle_for : Received → Option Trigger
cycle_for timed_out = some scheduled
cycle_for disconnected = none
cycle_for (requested request) = trigger_of request

module _ (config : Config) (chrono : Chrono) (error_message : Error → Text) where
  -- A request that runs a cycle is answered with success exactly if the cycle returned an outcome
  -- that serves its caller, and then by that outcome's text.
  pub turn-success :
      (env : Surroundings) (request : Request) (trigger : Trigger) (w : World) (m : Text)
      → trigger_of request ≡ some trigger
      → ((turn config chrono error_message env (requested request) w).reply ≡ some (success m)) ↔ (
          (o : Outcome) × ((run config env.system env.git chrono env.now env.boot_id trigger
              w).result
            ≡ ok o)
          × (served o ≡ true)
          × (m ≡ show_outcome chrono o))
  unfolding turn request_turn cycle_turn response_of
  turn-success env request trigger w m e =
      rw e (answer (run config env.system env.git chrono env.now env.boot_id trigger w).result)
    where
      answer :
          (r : Result Outcome)
          → (response_of config chrono error_message r ≡ some (success m))
            ↔ ((o : Outcome) × (r ≡ ok o) × (served o ≡ true) × (m ≡ show_outcome chrono o))
      answer (ok o) = (
        λ h. elim (Bool-cases (served o)) [
          | inl s ↦ (o, refl, s, ground arith)
          | inr f ↦ absurd (ground arith)
        ],
        λ h. ground arith,
      )
      answer (err e) = (λ h. cc, λ h. cc)
      answer panic = (λ h. cc, λ h. cc)

  -- A turn that runs a cycle is that cycle's turn.
  turn-cycle :
      (env : Surroundings) (received : Received) (trigger : Trigger) (w : World)
      → cycle_for received ≡ some trigger
      → (b : Bool) × (turn config chrono error_message env received w
          ≡ cycle_turn config chrono error_message env trigger b w)
  unfolding turn request_turn
  turn-cycle env timed_out trigger w e = (false, ground arith)
  turn-cycle env disconnected trigger w e = cc
  turn-cycle env (requested request) trigger w e = (true, rw e)

  next_of-exits :
      (env : Surroundings) (r : Result Outcome) (w : World)
      → (next_of config chrono error_message env r w ≡ exits)
        ↔ ((o : Outcome) × (r ≡ ok o) × (activated o ≡ true))
  unfolding next_of
  next_of-exits env (ok o) w = (
    λ h. elim (Bool-cases (activated o)) [ inl a ↦ (o, refl, a) | inr n ↦ absurd (ground arith) ],
    λ h. ground arith,
  )
  next_of-exits env (err e) w = (λ h. cc, λ h. cc)
  next_of-exits env panic w = (λ h. cc, λ h. cc)

  next_of-stays :
      (env : Surroundings) (r : Result Outcome) (w : World) (o : Outcome)
      → r ≡ ok o
      → next_of config chrono error_message env r w ≢ exits
      → activated o ≡ false
  next_of-stays env r w o e n = elim (Bool-cases (activated o)) [
    | inl a ↦ absurd (n ((next_of-exits env r w).1 (o, e, a)))
    | inr q ↦ q
  ]

  -- After a turn that ran a cycle the daemon exits exactly if the cycle returned an outcome that
  -- counts as activated.
  pub turn-exits :
      (env : Surroundings) (received : Received) (trigger : Trigger) (w : World)
      → cycle_for received ≡ some trigger
      → ((turn config chrono error_message env received w).next ≡ exits) ↔ (
          (o : Outcome) × ((run config env.system env.git chrono env.now env.boot_id trigger
              w).result
            ≡ ok o)
          × (activated o ≡ true))
  unfolding cycle_turn
  turn-exits env received trigger w e =
      let (b, same) = turn-cycle env received trigger w e in rw same (next_of-exits env _ _)

  -- Where a turn ran a cycle that returned an outcome, and the daemon goes on, no command of the
  -- turn activated a system now.
  pub turn-IsIdle :
      (env : Surroundings) (received : Received) (trigger : Trigger) (w : World) (o : Outcome)
      → cycle_for received ≡ some trigger
      → (run config env.system env.git chrono env.now env.boot_id trigger w).result ≡ ok o
      → (turn config chrono error_message env received w).next ≢ exits
      → All IsIdle (turn config chrono error_message env received w).calls
  unfolding cycle_turn
  turn-IsIdle env received trigger w o e h =
      let (b, same) = turn-cycle env received trigger w e in
      rw same (λ n.
        run-IsIdle config env.system env.git chrono env.now env.boot_id trigger w o h
          (next_of-stays env _ _ o h n))
