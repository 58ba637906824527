-- ===== src/Updated/Policy/Timeout.antt =====
-- src/ogygia-updated/src/engine.rs: the deadline of a trial, whose timeout passes through `as i64`.
use ogygia_nix.Base.{
  ℕ, zero, suc, ◌^◌, ◌-◌, ◌↔◌, Bool-cases, ltb, ltb→lt, ◌≤◌, ◌<◌, true, some, ◌≡◌, refl, arith, ◌⊎◌,
  inl, inr,
}
use ogygia_nix.Base.Int.{ℤ, pos, negsuc, ◌<ℤ◌}
use ogygia_nix.Updated.Canary.{DateTime, Chrono}
use ogygia_nix.Updated.Result.{ok}
use ogygia_nix.Updated.Policy.{as_i64, expiry, is_past}

-- Adding seconds moves a time forwards by a positive number of them, and backwards by a negative.
pub record IsOrdered (chrono : Chrono) : Type 0 where
  pub still : (t at : DateTime) → chrono.add_seconds t (pos 0) ≡ some at → at ≡ t
  pub forwards : (t at : DateTime) (n : ℕ) → chrono.add_seconds t (pos (suc n)) ≡ some at → t <ℤ at
  pub backwards : (t at : DateTime) (n : ℕ) → chrono.add_seconds t (negsuc n) ≡ some at → at <ℤ t

as_i64-small : (n : ℕ) → n < 2 ^ 63 → as_i64 n ≡ pos n
unfolding as_i64
as_i64-small n h = ground arith

as_i64-large : (n : ℕ) → 2 ^ 63 ≤ n → as_i64 n ≡ negsuc (2 ^ 64 - n - 1)
unfolding as_i64
as_i64-large n h = ground arith

-- What was added to give the deadline.
added :
    (chrono : Chrono) (now at : DateTime) (seconds : ℕ) {z : ℤ}
    → as_i64 seconds ≡ z
    → expiry chrono now (some seconds) ≡ ok (some at)
    → chrono.add_seconds now z ≡ some at
unfolding expiry
added chrono now at seconds e h = ground arith

-- With a clock that adds seconds in order, a trial whose deadline could be computed is past its
-- deadline at the moment it starts exactly if its timeout, a 64-bit number of seconds, is 0 or at
-- least 2^63, which the conversion to a signed number turns negative.
pub expiry-is_past :
    (chrono : Chrono) (o : IsOrdered chrono) (now at : DateTime) (seconds : ℕ)
    → seconds < 2 ^ 64
    → expiry chrono now (some seconds) ≡ ok (some at)
    → (is_past (some at) now ≡ true) ↔ ((seconds ≡ 0) ⊎ (2 ^ 63 ≤ seconds))
unfolding is_past
expiry-is_past chrono o now at zero small h =
    let same : at ≡ now =
      o.still now at (added chrono now at zero (as_i64-small 0 (omega arith)) h) in
    (λ _. inl refl, λ _. rw same (ground arith))
expiry-is_past chrono o now at (suc n) small h = elim (Bool-cases (ltb (suc n) (2 ^ 63))) [
  | inl fits ↦
      let later =
        o.forwards now at n
          (added chrono now at (suc n) (as_i64-small (suc n) (ltb→lt _ _ fits)) h) in
      (λ past. absurd (ground arith), λ why. absurd (ground arith))
  | inr wraps ↦
      let earlier =
        o.backwards now at _
          (added chrono now at (suc n) (as_i64-large (suc n) (ground arith)) h) in
      (λ _. inr (ground arith), λ _. ground arith)
]
