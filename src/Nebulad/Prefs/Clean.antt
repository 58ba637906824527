-- ===== src/Nebulad/Prefs/Clean.antt =====
-- src/ogygia-macos-nebulad/src/prefs.rs: valid settings have nothing that reading them takes off.
use ogygia_nix.Base.{
  ℕ, ◌≡◌, refl, ◌∙◌, ap, Bool, true, false, not, ◌||◌, Option, none, some, [], ◌∷◌, ◌==◌, all_by,
  All, All-append, arith,
}
use ogygia_nix.Base.Text.{Text, codes, starts_with, trim, trim_start, trim_end, is_whitespace}
use mathlib.Core.List.{reverse, reverse-cons, reverse-reverse}
use ogygia_nix.Nebulad.{Result, ok, each}
use ogygia_nix.Nebulad.Settings.{
  is_empty, is_url_char, is_branch_char, is_device_char, is_ascii_alphanumeric,
  validate_repository_url, validate_branch, validate_device,
}
use ogygia_nix.Nebulad.Settings.Injective.{
  and-true, ensure-ok, validate_repository_url-chars, validate_branch-chars, validate_device-chars,
}
use ogygia_nix.Nebulad.Prefs.{clean}

-- Text without a space is not trimmed.
trim_start-keeps : (s : Text) → All (λ c. is_whitespace c ≡ false) s → trim_start s ≡ s
unfolding trim_start
trim_start-keeps [] h = refl
trim_start-keeps (c ∷ s) h = rw (trim_start, h.0) refl

All-reverse :
    (s : Text)
    → All (λ c. is_whitespace c ≡ false) s
    → All (λ c. is_whitespace c ≡ false) (reverse s)
All-reverse [] h = _
All-reverse (c ∷ s) h =
    rw (reverse-cons c s)
      (All-append (λ x. is_whitespace x ≡ false) (reverse s) (c ∷ []) (All-reverse s h.1) (h.0, _))

trim-keeps : (s : Text) → All (λ c. is_whitespace c ≡ false) s → trim s ≡ s
unfolding trim trim_end
trim-keeps s h =
    ap (λ t. reverse (trim_start (reverse t))) (trim_start-keeps s h)
    ∙ ap reverse (trim_start-keeps (reverse s) (All-reverse s h))
    ∙ reverse-reverse s

clean-keeps :
    (s : Text) → is_empty s ≡ false → All (λ c. is_whitespace c ≡ false) s → clean (some s) ≡ some s
unfolding clean
clean-keeps s e h = rw (trim-keeps s h, e) refl

not_last : (a b c : Bool) → not (a || b || c) ≡ true → c ≡ false
not_last true b c h = cc
not_last false true c h = cc
not_last false false true h = cc
not_last false false false h = refl

url_char-space : (x : ℕ) → is_url_char x ≡ true → is_whitespace x ≡ false
unfolding is_url_char
url_char-space x h = not_last (x == b'#') (x == b'?') (is_whitespace x) h

branch_char-space : (x : ℕ) → is_branch_char x ≡ true → is_whitespace x ≡ false
unfolding is_branch_char is_ascii_alphanumeric is_whitespace
branch_char-space x h = ground arith

device_char-space : (x : ℕ) → is_device_char x ≡ true → is_whitespace x ≡ false
unfolding is_device_char is_ascii_alphanumeric is_whitespace
device_char-space x h = ground arith

Chars-of :
    (p : ℕ → Bool)
    → ((x : ℕ) → p x ≡ true → is_whitespace x ≡ false)
    → (s : Text) → all_by p s ≡ true
    → All (λ c. is_whitespace c ≡ false) s
Chars-of p clean [] h = _
Chars-of p clean (x ∷ s) h =
    let (first, rest) = and-true (p x) (all_by p s) h in (clean x first, Chars-of p clean s rest)

not-true : (b : Bool) → not b ≡ true → b ≡ false
not-true true h = cc
not-true false h = refl

-- What passed the checks is stored as it is read.
pub url-clean : (s : Text) → validate_repository_url s ≡ ok tt → clean (some s) ≡ some s
unfolding validate_repository_url starts_with codes is_empty
url-clean s h =
    clean-keeps s (url-filled s h)
      (Chars-of is_url_char url_char-space s (validate_repository_url-chars s h))
  where
    url-filled : (s : Text) → validate_repository_url s ≡ ok tt → is_empty s ≡ false
    url-filled [] h = cc
    url-filled (c ∷ s) h = refl

pub branch-clean : (s : Text) → validate_branch s ≡ ok tt → clean (some s) ≡ some s
unfolding validate_branch
branch-clean s h =
    clean-keeps s (not-true (is_empty s) (ensure-ok _ _ _ h).0)
      (Chars-of is_branch_char branch_char-space s (validate_branch-chars s h))

pub device-clean : (s : Text) → validate_device s ≡ ok tt → clean (some s) ≡ some s
unfolding validate_device
device-clean s h =
    clean-keeps s (not-true (is_empty s) (ensure-ok _ _ _ h).0)
      (Chars-of is_device_char device_char-space s (validate_device-chars s h))

-- Valid values are read back as they were stored.
pub each-clean :
    (check : Text → Result (Unit {0}))
    → ((s : Text) → check s ≡ ok tt → clean (some s) ≡ some s)
    → (o : Option Text) → each check o ≡ ok tt
    → clean o ≡ o
unfolding clean
each-clean check same none h = refl
each-clean check same (some s) h = same s h
