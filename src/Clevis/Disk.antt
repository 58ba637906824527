-- ===== src/Clevis/Disk.antt =====
-- The files that src/ogygia-clevis/src/swap.rs works on, and the steps that change them. A step
-- keeps every state that it goes through, since the machine may crash in each of them.
pub mod Rules
use ogygia_nix.Base.{ℕ, Bool, Option, none, some, List, [], ◌∷◌, ◌++◌, if◌then◌else◌}
use ogygia_nix.Base.Text.{Text, text_eq}
use ogygia_nix.Clevis.Blob

-- `synced` says that the content has reached the disk: a crash may lose what has not.
pub record File : Type 0 where
  pub content : List ℕ
  pub mode : ℕ
  pub synced : Bool

abbrev pub Disk : Type 0
Disk = Text → Option File

unfoldable pub put : Text → Option File → Disk → Disk
put path file disk p = if text_eq p path then file else disk p

pub data Failure : Type 0 where
  no_parent reading not_text no_client clevis_failed no_output : Failure
  metadata creating permissions writing syncing persisting syncing_dir : Failure
  not_the_secret not_the_pins : Failure
  in_blob : Blob.Error → Failure
  out_of_fuel : Failure

pub data Result {ℓ} (A : Type ℓ) : Type ℓ where
  done : A → Result A
  failed : Failure → Result A

-- `during` are the states before the last, oldest first.
pub record Run {ℓ} (A : Type ℓ) : Type ℓ where
  pub result : Result A
  pub during : List Disk
  pub disk : Disk

abbrev pub Action {ℓ} : Type ℓ → Type ℓ
Action A = Disk → Run A

abbrev pub then_run {ℓ κ} :
    {A : Type ℓ} {B : Type κ} → Result A → List Disk → Disk → (A → Action B) → Run B
then_run (done a) during d f =
    let s = f a d in record { result = s.result; during = during ++ s.during; disk = s.disk }
then_run (failed e) during d f = record { result = failed e; during = during; disk = d }

infixl 5 ◌>>=◌ ◌>>◌
unfoldable pub ◌>>=◌ {ℓ κ} : {A : Type ℓ} {B : Type κ} → Action A → (A → Action B) → Action B
◌>>=◌ m f d = let r = m d in then_run r.result r.during r.disk f

abbrev pub ◌>>◌ {ℓ κ} : {A : Type ℓ} {B : Type κ} → Action A → Action B → Action B
m >> k = m >>= λ _. k

-- A step that changes nothing.
unfoldable pub lift {ℓ} : {A : Type ℓ} → Result A → Action A
lift r d = record { result = r; during = []; disk = d }

unfoldable pub pure {ℓ} : {A : Type ℓ} → A → Action A
unfolding lift
pure a = lift (done a)

abbrev pub or_failed {ℓ} : {A : Type ℓ} → Option A → Failure → Result A
or_failed none e = failed e
or_failed (some a) e = done a
