-- ===== src/Nixutils.antt =====
-- src/ogygia-nixutils/src: hashes, signatures and narinfo files. An error's message is not kept.
pub mod Types
pub mod Narinfo
mod Tests
use ogygia_nix.Base.{
  ℕ, Bool, true, false, Option, none, some, List, [], ◌∷◌, ◌++◌, ◌==◌, if◌then◌else◌,
}
use ogygia_nix.Base.Text.{Text}

infixl 10 ◌>>=◌
abbrev pub ◌>>=◌ {ℓ κ} : {A : Type ℓ} {B : Type κ} → Option A → (A → Option B) → Option B
none >>= k = none
some a >>= k = k a

-- `ok_or_else` and `ensure`: a condition that must hold.
abbrev pub guard {ℓ} : {B : Type ℓ} → Bool → Option B → Option B
guard true b = b
guard false b = none

-- A character in front of the first of two parts.
abbrev pub before : ℕ → Option (Text × Text) → Option (Text × Text)
before c none = none
before c (some (a, b)) = some (c ∷ a, b)

-- `split_once(c)`.
unfoldable pub split_once : ℕ → Text → Option (Text × Text)
split_once c [] = none
split_once c (x ∷ s) = let rest = split_once c s in if x == c then some ([], s) else before x rest

-- base64 and hexadecimal, which are parameters.
pub record Encoding : Type 0 where
  pub encode : Text → Text
  pub decode : Text → Option Text
