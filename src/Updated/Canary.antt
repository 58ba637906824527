-- ===== src/Updated/Canary.antt =====
-- src/ogygia-updated/src/canary.rs: the record of the current or most recent canary.
use ogygia_nix.Base.{ℕ, ◌*◌, ◌^◌, Option, none, some, ◌++◌}
use ogygia_nix.Base.Text.{Text, codes, decimal}
use ogygia_nix.Base.Int.{ℤ, pos, negsuc, ◌-ℤ◌, div_trunc, neg_part}

-- Nanoseconds since the epoch, in UTC.
abbrev pub DateTime : Type 0
DateTime = ℤ

-- chrono, which is not part of the repository: adding whole seconds, where `none` is its panic
-- on overflow, and the format "%Y-%m-%d %H:%MZ".
pub record Chrono : Type 0 where
  pub add_seconds : DateTime → ℤ → Option DateTime
  pub format_minutes : DateTime → Text

pub data CanaryTarget : Type 0 where
  pinned : (branch commit : Text) → CanaryTarget

pub data CanaryHold : Type 0 where
  ephemeral : (boot_id : Text) → CanaryHold
  persistent : CanaryHold

pub data FinishReason : Type 0 where
  merged expired cleared rebooted overwritten : FinishReason

pub data CanaryState : Type 0 where
  active : CanaryTarget → Option DateTime → CanaryHold → CanaryState
  finished : CanaryTarget → DateTime → FinishReason → CanaryState

unfoldable pub label : FinishReason → Text
label merged = codes "merged"
label expired = codes "expired"
label cleared = codes "cleared"
label rebooted = codes "rebooted"
label overwritten = codes "overwritten"

abbrev nanos_per_hour : ℕ
nanos_per_hour = 3600 * 10 ^ 9

-- `{}` of an `i64`.
unfoldable pub show_ℤ : ℤ → Text
show_ℤ (pos n) = decimal n
show_ℤ (negsuc n) = codes "-" ++ decimal (neg_part (negsuc n))

-- `(at - now).num_hours()`.
num_hours : DateTime → DateTime → ℤ
num_hours at now = div_trunc (at -ℤ now) nanos_per_hour

describe_expiry : Chrono → Option DateTime → DateTime → Text
describe_expiry chrono none now = codes "no timeout"
describe_expiry chrono (some at) now =
    codes "expires "
    ++ (chrono.format_minutes at ++ (codes " (in " ++ (show_ℤ (num_hours at now) ++ codes "h)")))

describe_boot : CanaryHold → Text → Text
describe_boot (ephemeral _) next_boot = codes "boot floor " ++ next_boot
describe_boot persistent next_boot =
    codes "boot default " ++ (next_boot ++ codes ", kept across reboot")

unfoldable pub describe : Chrono → CanaryState → DateTime → Text → Text → Text
unfolding describe_expiry describe_boot num_hours
describe chrono (active (pinned branch commit) expires_at hold) now running next_boot =
    codes "trialling "
    ++ (branch
        ++ (codes " @"
            ++ (commit
                ++ (codes "; running "
                    ++ (running
                        ++ (codes ", "
                            ++ (describe_boot hold next_boot
                                ++ (codes "; " ++ describe_expiry chrono expires_at now))))))))
describe chrono (finished (pinned branch commit) at reason) now running next_boot =
    codes "no active canary; last: "
    ++ (branch
        ++ (codes " @"
            ++ (commit
                ++ (codes " finished "
                    ++ (chrono.format_minutes at ++ (codes " (" ++ (label reason ++ codes ")")))))))
