-- ===== src/Nebulad/Prefs.antt =====
-- src/ogygia-macos-nebulad/src/prefs.rs: the settings in CFPreferences, which is a parameter.
pub mod Clean
use ogygia_nix.Base.{◌≡◌, ◌≢◌, refl, Bool, true, false, ◌||◌, Option, none, some, if◌then◌else◌}
use ogygia_nix.Base.Text.{Text, codes, trim}
use ogygia_nix.Nebulad.{Result, ok, err}
use ogygia_nix.Nebulad.Settings.{Settings, is_empty}

-- The functions of CFPreferences for the daemon's domain, on the state that they share.
pub record Preferences (S : Type 0) : Type 0 where
  pub app_synchronize : S → S
  pub copy_app_value : S → Text → Option Text
  pub is_forced : S → Text → Bool
  pub set_value : Text → Option Text → S → S
  pub synchronize : S → S × Bool

unfoldable pub key_repository_url : Text
unfolding codes
key_repository_url = codes "RepositoryURL"

unfoldable pub key_branch : Text
unfolding codes
key_branch = codes "Branch"

unfoldable pub key_device : Text
unfolding codes
key_device = codes "Device"

-- `string`, from the value that was found.
unfoldable pub clean : Option Text → Option Text
unfolding trim is_empty
clean none = none
clean (some v) = if is_empty (trim v) then none else some (trim v)

module _ {S : Type 0} (prefs : Preferences S) where
  unfoldable pub string_of : S → Text → Option Text
  unfolding clean
  string_of s key = clean (prefs.copy_app_value s key)

  unfoldable pub load : S → Settings
  unfolding string_of
  load s =
      let s' = prefs.app_synchronize s in
      record {
        repository_url = string_of s' key_repository_url;
        branch = string_of s' key_branch;
        device = string_of s' key_device;
      }

  unfoldable pub managed : S → Bool
  managed s =
      prefs.is_forced s key_repository_url
      || prefs.is_forced s key_branch
      || prefs.is_forced s key_device

  unfoldable pub set_values : Settings → S → S
  set_values settings s = prefs.set_value key_device settings.device (
      prefs.set_value key_branch settings.branch
        (prefs.set_value key_repository_url settings.repository_url s))

  unfoldable pub store_result : S × Bool → S × Result (Unit {0})
  unfolding codes
  store_result (s, true) = (s, ok tt)
  store_result (s, false) =
      (s, err (codes "could not write the settings to /Library/Preferences/dev.ogygia.macos.plist"))

  unfoldable pub store : Settings → S → S × Result (Unit {0})
  unfolding set_values store_result
  store settings s = store_result (prefs.synchronize (set_values settings s))
