-- ===== src/Clevis/Probe/Address.antt =====
-- src/ogygia-clevis/src/probe.rs: the address of a pin's advertisement.
use ogygia_nix.Base.{
  ℕ, Bool, true, false, [], ◌∷◌, ◌++◌, ◌≡◌, refl, sym, ◌∙◌, ap, subst, if◌then◌else◌, ◌==◌, ==_iff,
  All, All-append,
}
use ogygia_nix.Base.Text.{Text, codes}
use ogygia_nix.Clevis.Config.{Pin}
use ogygia_nix.Clevis.Probe.{trim_slashes, trim_end_slashes, adv_url}
use mathlib.Core.List.{reverse, reverse-cons, reverse-reverse, reverse-append}

-- Its last character is not a slash.
abbrev pub EndsPlain : Text → Type 0
EndsPlain s = (first : Text) (c : ℕ) → s ≡ first ++ (c ∷ []) → (c == b'/') ≡ false

-- A text is a base, which does not end in a slash, with slashes behind it.
pub record IsBase (base url : Text) : Type 0 where
  pub slashes : Text
  pub only : All (λ c. c ≡ b'/') slashes
  pub whole : url ≡ base ++ slashes
  pub plain : EndsPlain base

reverse-All : (s : Text) → All (λ c. c ≡ b'/') s → All (λ c. c ≡ b'/') (reverse s)
reverse-All [] h = _
reverse-All (c ∷ s) h =
    subst (All (λ x. x ≡ b'/')) (sym (reverse-cons c s))
      (All-append (λ x. x ≡ b'/') (reverse s) (c ∷ []) (reverse-All s h.1) (h.0, _))

-- Slashes in front of a text that does not begin with one.
Front : Text → Text → Type 0
Front s t =
    (slashes : Text) × All (λ c. c ≡ b'/') slashes
    × (s ≡ slashes ++ t)
    × ((c : ℕ) (rest : Text) → t ≡ c ∷ rest → (c == b'/') ≡ false)

trim_slashes-Front : (s : Text) → Front s (trim_slashes s)
unfolding trim_slashes Front
trim_slashes-Front [] = ([], _, refl, λ c rest e. cc)
trim_slashes-Front (c ∷ s) = of_first (c == b'/') refl (trim_slashes-Front s)
  where
    of_first :
        (b : Bool)
        → (c == b'/') ≡ b
        → Front s (trim_slashes s)
        → Front (c ∷ s) (if b then trim_slashes s else c ∷ s)
    of_first true e f = (c ∷ f.0, ((==_iff c b'/').0 e, f.1), ap (λ t. c ∷ t) f.2, f.3)
    of_first false e f = (
      [],
      _,
      refl,
      λ d rest same. let first : c ≡ d = cc in subst (λ x. (x == b'/') ≡ false) first e,
    )

pub trim_end_slashes-IsBase : (url : Text) → IsBase (trim_end_slashes url) url
unfolding trim_end_slashes Front
trim_end_slashes-IsBase url =
    let f = trim_slashes-Front (reverse url) in
    record {
      slashes = reverse f.0;
      only = reverse-All f.0 f.1;
      whole =
          sym (reverse-reverse url)
          ∙ ap reverse f.2
          ∙ reverse-append f.0 (trim_slashes (reverse url));
      plain = λ first c e. f.3 c (reverse first) (
          sym (reverse-reverse (trim_slashes (reverse url)))
          ∙ ap reverse e
          ∙ reverse-append first (c ∷ []));
    }

-- The base is followed by "/adv/" and the thumbprint.
pub adv_url-IsBase :
    (pin : Pin)
    → (base : Text) × IsBase base pin.url × (adv_url pin ≡ base ++ (codes "/adv/" ++ pin.thp))
unfolding adv_url
adv_url-IsBase pin = (trim_end_slashes pin.url, trim_end_slashes-IsBase pin.url, refl)
