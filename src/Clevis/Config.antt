-- ===== src/Clevis/Config.antt =====
-- src/ogygia-clevis/src/config.rs: the spec that a blob is bound against, and its validation.
pub mod Valid
use ogygia_nix.Base.{
  ℕ, Bool, true, false, ◌&&◌, ◌||◌, List, [], ◌∷◌, ◌++◌, ◌≡◌, leb, length, if◌then◌else◌,
}
use ogygia_nix.Base.Text.{Text, text_eq}

pub record Pin : Type 0 where
  pub url : Text
  pub thp : Text

pub record Pins : Type 0 where
  pub tang : List Pin

pub record Spec : Type 0 where
  pub t : ℕ
  pub pins : Pins

pub record Config : Type 0 where
  pub secret_file : Text
  pub spec : Spec

-- `PartialEq` of `Pin`.
unfoldable pub pin_eq : Pin → Pin → Bool
pin_eq a b = text_eq a.url b.url && text_eq a.thp b.thp

-- `slice::contains`.
unfoldable pub contains : List Pin → Pin → Bool
contains [] pin = false
contains (p ∷ ps) pin = pin_eq p pin || contains ps pin

pub data Validity : Type 0 where
  valid zero_threshold threshold_exceeds : Validity
  duplicate : Pin → Validity

-- The loop over the pins, with those already seen.
unfoldable pub find_duplicate : List Pin → List Pin → Validity
find_duplicate seen [] = valid
find_duplicate seen (p ∷ ps) =
    let rest = find_duplicate (seen ++ (p ∷ [])) ps in if contains seen p then duplicate p else rest

-- `Spec::validate`.
unfoldable pub validate : Spec → Validity
validate spec =
    if leb 1 spec.t
    then (if leb spec.t (length spec.pins.tang)
        then find_duplicate [] spec.pins.tang
        else threshold_exceeds)
    else zero_threshold
