-- ===== src/Nebulad/Settings.antt =====
-- src/ogygia-macos-nebulad/src/settings.rs: what the daemon follows.
pub mod Injective
use ogygia_nix.Base.{
  ℕ, Bool, true, false, not, ◌&&◌, ◌||◌, Option, none, some, List, [], ◌∷◌, ◌++◌, leb, ◌==◌, all_by,
  if◌then◌else◌,
}
use ogygia_nix.Base.Text.{Text, codes, starts_with, last?, is_whitespace}
use ogygia_nix.Nebulad.{Result, ok, err, ◌>>=◌, ◌>>◌, ensure, each}

pub record Settings : Type 0 where
  pub repository_url : Option Text
  pub branch : Option Text
  pub device : Option Text

-- `char::is_ascii_alphanumeric`.
unfoldable pub is_ascii_alphanumeric : ℕ → Bool
is_ascii_alphanumeric c =
    (leb b'0' c && leb c b'9') || (leb b'A' c && leb c b'Z') || (leb b'a' c && leb c b'z')

unfoldable pub is_url_char : ℕ → Bool
unfolding is_whitespace
is_url_char c = not (c == b'#' || c == b'?' || is_whitespace c)

unfoldable pub is_branch_char : ℕ → Bool
unfolding is_ascii_alphanumeric
is_branch_char c = is_ascii_alphanumeric c || c == b'-' || c == b'_' || c == b'.' || c == b'/'

unfoldable pub is_device_char : ℕ → Bool
unfolding is_ascii_alphanumeric
is_device_char c = is_ascii_alphanumeric c || c == b'-' || c == b'_' || c == b'.'

unfoldable pub is_empty : Text → Bool
is_empty [] = true
is_empty (_ ∷ _) = false

unfoldable pub validate_repository_url : Text → Result (Unit {0})
unfolding starts_with is_url_char codes
validate_repository_url url = do
  ensure (starts_with (codes "https://") url || starts_with (codes "file:///") url)
      (codes "the repository URL must start with https:// or file:///")
  ensure (all_by is_url_char url)
      (codes "the repository URL must not contain '#', '?' or whitespace")

unfoldable pub starts_badly : Text → Bool
starts_badly [] = false
starts_badly (c ∷ _) = c == b'-' || c == b'/' || c == b'.'

unfoldable pub ends_in_slash : Text → Bool
unfolding last?
ends_in_slash s = elim (last? s) [ none ↦ false | some c ↦ c == b'/' ]

-- `contains("..")`.
unfoldable pub has_dots : Text → Bool
has_dots [] = false
has_dots (c ∷ []) = false
has_dots (c ∷ d ∷ s) = c == b'.' && d == b'.' || has_dots (d ∷ s)

unfoldable pub validate_branch : Text → Result (Unit {0})
unfolding is_branch_char starts_badly ends_in_slash has_dots is_empty codes
validate_branch branch = do
  ensure (not (is_empty branch)) (codes "the branch must not be empty")
  ensure (all_by is_branch_char branch)
      (codes "the branch may only contain letters, digits, '-', '_', '.' and '/'")
  ensure (not (starts_badly branch || ends_in_slash branch || has_dots branch))
      (branch ++ codes " is not a valid branch name")

unfoldable pub validate_device : Text → Result (Unit {0})
unfolding is_device_char is_empty codes
validate_device device = do
  ensure (not (is_empty device)) (codes "the device name must not be empty")
  ensure (all_by is_device_char device)
      (codes "the device name may only contain letters, digits, '-', '_' and '.'")

unfoldable pub validate : Settings → Result (Unit {0})
unfolding validate_repository_url validate_branch validate_device
validate settings = do
  each validate_repository_url settings.repository_url
  each validate_branch settings.branch
  each validate_device settings.device

unfoldable pub reference : Text → Option Text → Text
unfolding codes
reference url none = codes "git+" ++ url
reference url (some branch) = codes "git+" ++ (url ++ (codes "?ref=" ++ branch))

unfoldable pub attribute : Text → Text
unfolding codes
attribute device =
    codes "#ogygiaConfigurations.\"" ++ (device ++ codes "\".config.ogygia.nebula.settings")

-- Nothing to evaluate is `none`.
unfoldable pub installable_of : Settings → Option Text → Option Text → Result (Option Text)
unfolding validate reference attribute
installable_of settings (some url) (some device) =
    validate settings >> ok (some (reference url settings.branch ++ attribute device))
installable_of settings _ _ = ok none

unfoldable pub installable : Settings → Result (Option Text)
unfolding installable_of
installable settings = installable_of settings settings.repository_url settings.device
