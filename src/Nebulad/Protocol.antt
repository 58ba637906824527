-- ===== src/Nebulad/Protocol.antt =====
-- src/ogygia-macos-nebulad/src/protocol.rs: what the daemon is asked and what it answers. A time is a
-- number of nanoseconds.
use ogygia_nix.Base.{ℕ, Bool, Option}
use ogygia_nix.Base.Text.{Text}

pub data Request : Type 0 where
  get_status : Request
  set_settings : (repository_url : Text) (branch : Option Text) (device : Text) → Request
  refresh : Request

pub data Nebula : Type 0 where
  stopped : Nebula
  running : (since : ℕ) → Nebula
  exited : (reason : Text) → Nebula

pub record Status : Type 0 where
  pub build : Option Text
  pub repository_url : Option Text
  pub branch : Option Text
  pub device : Option Text
  pub settings_managed : Bool
  pub public_key : Option Text
  pub address : Option Text
  pub cert_expires : Option ℕ
  pub updating : Bool
  pub last_update : Option ℕ
  pub update_error : Option Text
  pub nebula : Nebula

pub data Response : Type 0 where
  status : Status → Response
  error : Text → Response
