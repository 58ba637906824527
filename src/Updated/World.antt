-- ===== src/Updated/World.antt =====
-- What an update cycle reads and changes, and the monad of its steps. `System` stands for the trait
-- of src/ogygia-updated/src/system.rs, the commands of nix and NixOS that are outside the
-- repository.
use ogygia_nix.Base.{ℕ, Bool, Option, List, [], ◌++◌}
use ogygia_nix.Base.Text.{Text}
use ogygia_nix.Updated.Canary.{CanaryState}
use ogygia_nix.Updated.Repo.{Oid}
use ogygia_nix.Updated.Result.{Result, ok, err, panic}

pub data Activation : Type 0 where
  test switch boot : Activation

-- The contents of the revision files of the running system, of the profile's and, which the program
-- does not read, of the one that the boot loader starts; `none` is a file that cannot be read.
pub record Host : Type 0 where
  pub current_revision : Option Text
  pub next_boot_revision : Option Text
  pub boots : Option Text

-- The canary record on disk.
pub data Stored : Type 0 where
  absent unreadable : Stored
  record_of : CanaryState → Stored

pub record World : Type 0 where
  pub host : Host
  pub canary : Stored
  pub head : Option Oid  -- the commit at which the clone is known to be clean

-- Kernel, initrd and kernel-modules links.
pub record Links : Type 0 where
  pub initrd : Option Text
  pub kernel : Option Text
  pub kernel_modules : Option Text

-- Each answer depends on the checked-out commit where the command reads the working tree, and a
-- command that changes the system says whether it succeeded.
pub record System : Type 0 where
  pub prefetch : Option Oid → Text → Bool
  pub attr_defined : Option Oid → Text → Option Bool
  pub build : Option Oid → Text → Option Text
  pub set_profile : Text → Text → Host → Bool × Host
  pub switch_to_configuration : Text → Activation → Host → Bool × Host
  pub kernel_links : Text → Links
  pub schedule_reboot : ℕ → Bool
  -- Whether the canary record can be written and renamed into place.
  pub write_canary : CanaryState → Bool

-- A program that an update cycle starts through the trait; `kernel_links`, which only reads symbolic
-- links, starts none.
pub data Call : Type 0 where
  prefetch : Text → Call
  attr_defined : Text → Option Oid → Call
  build : Text → Option Oid → Call
  set_profile : (profile store_path : Text) → Call
  switch_to_configuration : (store_path : Text) → Activation → Call
  schedule_reboot : ℕ → Call

-- The result of a step, the world it leaves behind and the commands it ran, oldest first.
pub record Ran {ℓ} (A : Type ℓ) : Type ℓ where
  pub result : Result A
  pub world : World
  pub calls : List Call

abbrev pub M {ℓ} : Type ℓ → Type ℓ
M A = World → Ran A

unfoldable pub pure {ℓ} : {A : Type ℓ} → A → M A
pure a w = record { result = ok a; world = w; calls = [] }

abbrev pub then_run {ℓ κ} :
    {A : Type ℓ} {B : Type κ} → Result A → World → List Call → (A → M B) → Ran B
then_run (ok a) w calls f =
    let s = f a w in record { result = s.result; world = s.world; calls = calls ++ s.calls }
then_run (err e) w calls f = record { result = err e; world = w; calls = calls }
then_run panic w calls f = record { result = panic; world = w; calls = calls }

infixl 5 ◌>>=◌ ◌>>◌
unfoldable pub ◌>>=◌ {ℓ κ} : {A : Type ℓ} {B : Type κ} → M A → (A → M B) → M B
◌>>=◌ m f w = let r = m w in then_run r.result r.world r.calls f

abbrev pub ◌>>◌ {ℓ κ} : {A : Type ℓ} {B : Type κ} → M A → M B → M B
m >> k = m >>= λ _. k

-- A step that changes nothing and runs no command.
unfoldable pub lift {ℓ} : {A : Type ℓ} → Result A → M A
lift r w = record { result = r; world = w; calls = [] }
