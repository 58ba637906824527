-- ===== src/Nebulad.antt =====
-- src/ogygia-macos-nebulad/src: the daemon that keeps Nebula running on a Mac, and what its fallible
-- functions return.
mod Fixtures
mod Tests
pub mod Settings
pub mod Render
pub mod Report
pub mod Protocol
pub mod Prefs
pub mod Daemon
pub mod Supervisor
use ogygia_nix.Base.{Bool, true, false, Option, none, some}
use ogygia_nix.Base.Text.{Text}

-- An error is its message, as `{e:#}` shows it.
pub data Result {ℓ} (A : Type ℓ) : Type ℓ where
  ok : A → Result A
  err : Text → Result A

infixl 10 ◌>>=◌ ◌>>◌
abbrev pub ◌>>=◌ {ℓ κ} : {A : Type ℓ} {B : Type κ} → Result A → (A → Result B) → Result B
ok a >>= k = k a
err e >>= k = err e

abbrev pub ◌>>◌ {ℓ} : {B : Type ℓ} → Result (Unit {0}) → Result B → Result B
a >> b = a >>= λ _. b

-- `if .. { bail!(..) }`, with the condition that must hold.
abbrev pub ensure : Bool → Text → Result (Unit {0})
ensure true message = ok tt
ensure false message = err message

-- A check of what is present.
abbrev pub each {ℓ} : {A : Type ℓ} → (A → Result (Unit {0})) → Option A → Result (Unit {0})
each check none = ok tt
each check (some a) = check a
