-- ===== src/Clevis/Decision.antt =====
-- src/ogygia-clevis/src/decision.rs: whether the blob on disk is replaced.
pub mod Wins
use ogygia_nix.Base.{ℕ, Bool, List, [], ◌∷◌, ◌++◌, leb, ltb, length, filter_by, if◌then◌else◌}
use ogygia_nix.Base.Text.{Text, codes, decimal}
use ogygia_nix.Clevis.Config.{Pin, Pins, Spec, contains}

pub data Reason : Type 0 where
  no_improvement : (current candidate : ℕ) → Reason
  below_threshold : (candidate t : ℕ) → Reason

pub data Decision : Type 0 where
  replace : (pins : List Pin) (previously : ℕ) → Decision
  keep : Reason → Decision

-- `impl fmt::Display for Reason`.
unfoldable pub show_reason : Reason → Text
show_reason (no_improvement current candidate) =
    codes "current blob covers "
    ++ (decimal current ++ (codes " of " ++ (decimal candidate ++ codes " reachable specced pins")))
show_reason (below_threshold candidate t) =
    decimal candidate ++ (codes " reachable specced pins is below threshold " ++ decimal t)

unfoldable pub decide : Spec → List Pin → List Pin → Decision
decide spec current reachable =
    let candidate = filter_by (contains reachable) spec.pins.tang in
    let previously = length (filter_by (contains current) candidate) in
    if leb (length candidate) previously
    then keep (no_improvement previously (length candidate))
    else (if ltb (length candidate) spec.t
        then keep (below_threshold (length candidate) spec.t)
        else replace candidate previously)
