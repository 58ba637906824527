-- ===== src/Updated/Outcome.antt =====
-- The `Outcome` and `Trigger` of src/ogygia-updated/src/engine.rs.
use ogygia_nix.Base.{ℕ, Bool, true, false, Option, none, some, ◌++◌}
use ogygia_nix.Base.Text.{Text, codes}
use ogygia_nix.Updated.Canary.{DateTime, Chrono}

pub data Outcome : Type 0 where
  up_to_date : Outcome
  not_on_branch : (revision : Text) → Outcome
  switched : (commit : Text) → Outcome
  test_activated : (commit : Text) → Outcome
  reboot_scheduled : (commit : Text) → Outcome
  prefetch_unavailable : (commit : Text) → Outcome
  canary_started : (commit next_boot : Text) (persist : Bool) → Option DateTime → Outcome
  canary_held : (commit next_boot : Text) → Outcome

pub data Trigger : Type 0 where
  scheduled manual : Trigger
  start_canary : (branch : Text) (timeout : Option ℕ) (persist : Bool) → Trigger

unfoldable pub activated : Outcome → Bool
activated (switched _) = true
activated (test_activated _) = true
activated (canary_started _ _ _ _) = true
activated _ = false

unfoldable pub served : Outcome → Bool
served (prefetch_unavailable _) = false
served _ = true

started_message : Text → Text → Bool → Text
started_message commit next_boot true =
    codes "trialling " ++ (commit ++ codes ", staged for boot; ")
started_message commit next_boot false =
    codes "trialling " ++ (commit ++ (codes "; boot floor " ++ (next_boot ++ codes "; ")))

deadline_message : Chrono → Option DateTime → Text
deadline_message chrono none = codes "no timeout"
deadline_message chrono (some at) = codes "expires " ++ chrono.format_minutes at

-- `impl fmt::Display for Outcome`.
unfoldable pub show_outcome : Chrono → Outcome → Text
unfolding started_message deadline_message
show_outcome chrono up_to_date = codes "system is up to date"
show_outcome chrono (not_on_branch revision) =
    codes "running revision " ++ (revision ++ codes " is not on the tracked branch; not updating")
show_outcome chrono (switched commit) = codes "switched to " ++ commit
show_outcome chrono (test_activated commit) =
    codes "activated " ++ (commit ++ codes " without changing the boot default")
show_outcome chrono (reboot_scheduled commit) =
    codes "staged " ++ (commit ++ codes " for boot and scheduled a reboot")
show_outcome chrono (prefetch_unavailable commit) =
    codes "cache-warm closure for "
    ++ (commit ++ codes " is unavailable; skipping until the cache catches up")
show_outcome chrono (canary_started commit next_boot persist expires_at) =
    started_message commit next_boot persist ++ deadline_message chrono expires_at
show_outcome chrono (canary_held commit next_boot) =
    codes "holding canary " ++ (commit ++ (codes "; boot floor " ++ next_boot))
