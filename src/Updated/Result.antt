-- ===== src/Updated/Result.antt =====
-- The fallible results of src/ogygia-updated/src: `anyhow::Result`, with an error named for the
-- step that reports it, and the panics of its arithmetic.
use ogygia_nix.Base.{Bool, true, false, Option, none, some}

pub data Error : Type 0 where
  opening_repository cloning fetching finding_reference walking_graph : Error
  finding_merge_base walking_branch walking_deployed finding_commit : Error
  checking_out reading_revision parsing_revision parsing_target : Error
  storing_canary building evaluating_attr setting_profile : Error
  switching scheduling_reboot : Error

pub data Result {ℓ} (A : Type ℓ) : Type ℓ where
  ok : A → Result A
  err : Error → Result A
  panic : Result A

infixl 5 ◌>>=◌ ◌>>◌
abbrev pub ◌>>=◌ {ℓ κ} : {A : Type ℓ} {B : Type κ} → Result A → (A → Result B) → Result B
ok a >>= f = f a
err e >>= f = err e
panic >>= f = panic

abbrev pub ◌>>◌ {ℓ} : {B : Type ℓ} → Result (Unit {0}) → Result B → Result B
m >> k = m >>= λ _. k

-- `.context(..)?` on an option, and `ensure!`.
abbrev pub or_fail {ℓ} : {A : Type ℓ} → Option A → Error → Result A
or_fail none e = err e
or_fail (some a) e = ok a

abbrev pub ensure : Bool → Error → Result (Unit {0})
ensure true e = ok tt
ensure false e = err e
