-- ===== src/Nebulad/Supervisor.antt =====
-- src/ogygia-macos-nebulad/src/supervisor.rs: one Nebula process on the current config. A step is
-- what runs between two points where the loop waits; a time is a number of nanoseconds.
pub mod Backoff
pub mod Sound
pub mod Current
pub mod Acts
use ogygia_nix.Base.{
  ℕ, ◌+◌, ◌-◌, ◌*◌, min, Bool, true, false, not, Option, none, some, List, ◌++◌, leb, if◌then◌else◌,
}
use ogygia_nix.Base.Text.{Text, codes}
use ogygia_nix.Nebulad.{Result, ok, err}
use ogygia_nix.Nebulad.Protocol.{Nebula, stopped, running, exited}

abbrev pub min_backoff : ℕ
min_backoff = 1000000000

abbrev pub max_backoff : ℕ
max_backoff = 60000000000

abbrev pub healthy_run : ℕ
healthy_run = 60000000000

-- Where the loop waits.
pub data Phase : Type 0 where
  -- for a config
  without_config : Phase
  -- after a start that failed
  retrying : Phase
  -- on the process, which was started at a time
  watching : (started : ℕ) → Phase
  -- the delay after an exit
  resting : (delay : ℕ) → Phase
  -- for the process to stop, to start it again
  restarting : Phase
  -- for the process to stop, to end
  ending : Phase
  -- the function has returned
  returned : Phase

-- `child` is the version of the config file that the process was started on.
pub record Supervisor : Type 0 where
  pub phase : Phase
  pub backoff : ℕ
  pub seen : ℕ
  pub child : Option ℕ
  pub nebula : Nebula

-- What the loop reads: the two channels, the config file, the clock.
pub record World : Type 0 where
  pub generation : ℕ
  pub shutdown : Bool
  pub config_exists : Bool
  pub version : ℕ
  pub now : ℕ

pub data Event : Type 0 where
  changed told slept child_stopped : Event
  child_exited : (reason : Text) → Event

-- The reason of an exit, from what `wait` returned and the last line of the log.
unfoldable pub exit_reason : Result Text → Option Text → Text
unfolding codes
exit_reason exit (some line) = line
exit_reason (ok status) none = codes "nebula exited: " ++ status
exit_reason (err e) none = codes "could not wait for nebula: " ++ e

-- `spawn` and what follows its result.
unfoldable pub start : World → Result (Unit {0}) → Supervisor → Supervisor
unfolding codes
start w (ok tt) s = record s {
  phase = watching w.now;
  seen = w.generation;
  child = some w.version;
  nebula = running w.now;
}
start w (err e) s = record s {
  phase = retrying;
  seen = w.generation;
  child = none;
  nebula = exited (codes "could not start nebula: " ++ e);
}

unfoldable pub look : World → Result (Unit {0}) → (config_exists : Bool) → Supervisor → Supervisor
unfolding start
look w spawned true s = start w spawned s
look w spawned false s = record s {
  phase = without_config;
  seen = w.generation;
  child = none;
  nebula = stopped;
}

-- The loop from its top; a process that is left is none.
unfoldable pub enter_loop : World → Result (Unit {0}) → (shutdown : Bool) → Supervisor → Supervisor
unfolding look
enter_loop w spawned true s = record s { phase = returned; child = none }
enter_loop w spawned false s = look w spawned w.config_exists s

unfoldable pub top : World → Result (Unit {0}) → Supervisor → Supervisor
unfolding enter_loop
top w spawned s = enter_loop w spawned w.shutdown s

-- `changed()` marks the generation as seen.
unfoldable pub see : World → Supervisor → Supervisor
see w s = record s { seen = w.generation }

unfoldable pub reset : Supervisor → Supervisor
reset s = record s { backoff = min_backoff }

-- The process has exited after it ran for `ran`.
unfoldable pub rest : (ran : ℕ) → Text → Supervisor → Supervisor
rest ran reason s =
    let delay = if leb healthy_run ran then min_backoff else s.backoff in
    record s {
      phase = resting delay;
      backoff = min (delay * 2) max_backoff;
      child = none;
      nebula = exited reason;
    }

-- What an event does where the loop waits; any other event does not wake it there.
unfoldable pub wake_at : World → Result (Unit {0}) → Event → Phase → Supervisor → Supervisor
unfolding top see reset rest
wake_at w spawned changed without_config s = top w spawned (see w s)
wake_at w spawned told without_config s = record s { phase = returned }
wake_at w spawned slept retrying s = top w spawned s
wake_at w spawned changed retrying s = top w spawned (see w s)
wake_at w spawned told retrying s = record s { phase = returned }
wake_at w spawned (child_exited reason) (watching started) s = rest (w.now - started) reason s
wake_at w spawned changed (watching started) s = record (see w s) { phase = restarting }
wake_at w spawned told (watching started) s = record s { phase = ending }
wake_at w spawned slept (resting delay) s = top w spawned s
wake_at w spawned changed (resting delay) s = top w spawned (reset (see w s))
wake_at w spawned told (resting delay) s = record s { phase = returned }
wake_at w spawned child_stopped restarting s = top w spawned (reset s)
wake_at w spawned child_stopped ending s = record s {
  phase = returned;
  child = none;
  nebula = stopped;
}
wake_at w spawned _ _ s = s

unfoldable pub wake : World → Result (Unit {0}) → Event → Supervisor → Supervisor
unfolding wake_at
wake w spawned e s = wake_at w spawned e s.phase s

-- `run` up to where it first waits.
unfoldable pub begin : World → Result (Unit {0}) → Supervisor
unfolding top
begin w spawned = top w spawned (record {
  phase = without_config;
  backoff = min_backoff;
  seen = 0;
  child = none;
  nebula = stopped;
})
