-- ===== src/Updated/Daemon.antt =====
-- src/ogygia-updated/src/main.rs and control.rs: the daemon's loop over control requests and its own
-- interval. One turn of the loop is a function of what the turn received and read from outside.
pub mod Turns
use ogygia_nix.Base.{
  ℕ, ◌+◌, ◌*◌, ◌^◌, ◌<◌, min, Bool, true, false, Option, none, some, List, [], ◌∷◌, ◌++◌, ltb,
  if◌then◌else◌,
}
use ogygia_nix.Base.Text.{Text, codes, trim}
use ogygia_nix.Base.Int.{ℤ, ◌-ℤ◌, pos_part}
use ogygia_nix.Updated.Config.{Config, DaemonConfig}
use ogygia_nix.Updated.Canary.{DateTime, Chrono, CanaryState, active, describe}
use ogygia_nix.Updated.Result.{Result, ok, err, panic, Error}
use ogygia_nix.Updated.Repo.{Git}
use ogygia_nix.Updated.Outcome.{
  Outcome, Trigger, scheduled, manual, start_canary, activated, served, show_outcome,
}
use ogygia_nix.Updated.World.{World, Stored, absent, unreadable, record_of, System, Call, Ran}
use ogygia_nix.Updated.Cycle.{run}

pub data Request : Type 0 where
  update tick status : Request
  canary : (branch : Text) (timeout : Option ℕ) (persist : Bool) → Request

-- The JSON `Result` that answers a request.
pub data Response : Type 0 where
  success failure : Text → Response

-- What `recv_timeout` returns.
pub data Received : Type 0 where
  timed_out disconnected : Received
  requested : Request → Received

-- What a turn reads from outside: the clock as the cycle starts and as the next wait is computed,
-- the boot id, the repository after its fetch, the answers of the system and the random jitter.
pub record Surroundings : Type 0 where
  pub now : DateTime
  pub later : DateTime
  pub boot_id : Text
  pub git : Git
  pub system : System
  pub jitter : ℕ  -- below the configured bound where that is not 0

-- How `main` goes on after a turn. Durations are nanoseconds.
pub data Next : Type 0 where
  waits : ℕ → Next
  exits : Next
  bails : Next
  panics : Next

pub record Turn : Type 0 where
  pub world : World
  pub reply : Option Response
  pub calls : List Call
  pub next : Next

-- What a run of turns did: the replies in order, and how it ended.
pub record History : Type 0 where
  pub final : World
  pub replies : List (Option Response)
  pub ended : Next

abbrev nanos_per_second : ℕ
nanos_per_second = 10 ^ 9

-- The base gap between cycles.
unfoldable pub interval : DaemonConfig → ℕ → ℕ
interval config jitter = (config.interval_seconds + jitter) * nanos_per_second

-- `wait_duration`: never past an active canary's deadline. A lapsed deadline gives 0.
unfoldable pub wait_duration : Stored → DateTime → ℕ → ℕ
wait_duration (record_of (active _ (some deadline) _)) now base =
    min base (pos_part (deadline -ℤ now))
wait_duration _ now base = base

-- The daemon's `read_revision`, for display.
display_revision : Option Text → Text
display_revision none = codes "unknown"
display_revision (some raw) = trim raw

parse_failure : Text
parse_failure = codes "parsing canary state"

-- `canary_status`, answered from the record on disk.
unfoldable pub canary_status : Chrono → World → DateTime → Response
unfolding display_revision parse_failure
canary_status chrono w now = elim w.canary [
  | absent ↦ success (codes "no canary")
  | unreadable ↦ failure parse_failure
  | record_of state ↦ success (
      describe chrono state now (display_revision w.host.current_revision)
        (display_revision w.host.next_boot_revision))
]

-- The cycle that a turn runs, or `none` for a status request.
unfoldable pub trigger_of : Request → Option Trigger
trigger_of update = some manual
trigger_of tick = some scheduled
trigger_of (canary branch timeout persist) = some (start_canary branch timeout persist)
trigger_of status = none

module _ (config : Config) (chrono : Chrono) (error_message : Error → Text) where
  -- The response to a cycle; a panic answers nothing.
  unfoldable pub response_of : Result Outcome → Option Response
  response_of (ok outcome) = some (
      if served outcome
      then success (show_outcome chrono outcome)
      else failure (show_outcome chrono outcome))
  response_of (err e) = some (failure (error_message e))
  response_of panic = none

  unfoldable pub next_of : Surroundings → Result Outcome → World → Next
  next_of env panic w = panics
  next_of env (err e) w =
      waits (wait_duration w.canary env.later (interval config.daemon env.jitter))
  next_of env (ok outcome) w =
      if activated outcome
      then exits
      else waits (wait_duration w.canary env.later (interval config.daemon env.jitter))

  -- A turn that runs a cycle.
  unfoldable pub cycle_turn : Surroundings → Trigger → Bool → World → Turn
  cycle_turn env trigger wants_reply w =
      let r = run config env.system env.git chrono env.now env.boot_id trigger w in
      record {
        world = r.world;
        reply = if wants_reply then response_of r.result else none;
        calls = r.calls;
        next = next_of env r.result r.world;
      }

  unfoldable pub request_turn : Surroundings → Request → Option Trigger → World → Turn
  request_turn env request none w = record {
    world = w;
    reply = some (canary_status chrono w env.now);
    calls = [];
    next = waits (wait_duration w.canary env.later (interval config.daemon env.jitter));
  }
  request_turn env request (some trigger) w = cycle_turn env trigger true w

  -- One turn of the loop in `main`.
  unfoldable pub turn : Surroundings → Received → World → Turn
  turn env timed_out w = cycle_turn env scheduled false w
  turn env disconnected w = record { world = w; reply = none; calls = []; next = bails }
  turn env (requested request) w = request_turn env request (trigger_of request) w

  -- The loop of `main` over the turns that its surroundings give it.
  unfoldable pub loop : ℕ → List (Surroundings × Received) → World → History
  loop wait [] w = record { final = w; replies = []; ended = waits wait }
  loop wait ((env, received) ∷ rest) w =
      let t = turn env received w in
      elim t.next [
        | waits next ↦
            let h = loop next rest t.world in
            record { final = h.final; replies = t.reply ∷ h.replies; ended = h.ended }
        | stop ↦ record { final = t.world; replies = t.reply ∷ []; ended = stop }
      ]
