-- ===== src/Nebulad/Settings/Injective.antt =====
-- src/ogygia-macos-nebulad/src/settings.rs: no setting can take the place of another one in what is
-- evaluated.
use ogygia_nix.Base.{
  ℕ, ◌≡◌, refl, sym, ◌∙◌, ap, Bool, true, false, ◌&&◌, Option, none, some, [], ◌∷◌, ◌++◌, ◌==◌,
  all_by, All-append, arith,
}
use ogygia_nix.Base.Text.{Text, codes}
use ogygia_nix.Base.Split.{Lacks, cut-injective, uncut}
use ogygia_nix.Nebulad.{Result, ok, err, ◌>>◌, ensure, each}
use ogygia_nix.Nebulad.Settings.{
  Settings, is_ascii_alphanumeric, is_url_char, is_branch_char, is_device_char,
  validate_repository_url, validate_branch, validate_device, validate, reference, attribute,
  installable_of, installable,
}

pub ensure-ok :
    (b : Bool) (message : Text) (k : Result (Unit {0}))
    → (ensure b message >> k) ≡ ok tt
    → (b ≡ true) × (k ≡ ok tt)
ensure-ok true message k h = (refl, h)
ensure-ok false message k h = cc

ensure-last : (b : Bool) (message : Text) → ensure b message ≡ ok tt → b ≡ true
ensure-last true message h = refl
ensure-last false message h = cc

pub then-ok {ℓ} :
    {B : Type ℓ} (a : Result (Unit {0})) (k : Result B) (b : B)
    → (a >> k) ≡ ok b
    → (a ≡ ok tt) × (k ≡ ok b)
then-ok (ok tt) k b h = (refl, h)
then-ok (err e) k b h = cc

pub and-true : (a b : Bool) → (a && b) ≡ true → (a ≡ true) × (b ≡ true)
and-true true b h = (refl, h)
and-true false b h = cc

-- Characters that pass a test are none that fails it.
Lacks-of :
    (p : ℕ → Bool) (c : ℕ)
    → ((x : ℕ) → p x ≡ true → (x == c) ≡ false)
    → (s : Text) → all_by p s ≡ true
    → Lacks c s
Lacks-of p c differ [] h = _
Lacks-of p c differ (x ∷ s) h =
    let (first, rest) = and-true (p x) (all_by p s) h in
    (differ x first, Lacks-of p c differ s rest)

url_char-fragment : (x : ℕ) → is_url_char x ≡ true → (x == b'#') ≡ false
unfolding is_url_char
url_char-fragment x h = ground arith

url_char-query : (x : ℕ) → is_url_char x ≡ true → (x == b'?') ≡ false
unfolding is_url_char
url_char-query x h = ground arith

branch_char-fragment : (x : ℕ) → is_branch_char x ≡ true → (x == b'#') ≡ false
unfolding is_branch_char is_ascii_alphanumeric
branch_char-fragment x h = ground arith

device_char-quote : (x : ℕ) → is_device_char x ≡ true → (x == b'"') ≡ false
unfolding is_device_char is_ascii_alphanumeric
device_char-quote x h = ground arith

pub validate_repository_url-chars :
    (url : Text) → validate_repository_url url ≡ ok tt → all_by is_url_char url ≡ true
unfolding validate_repository_url
validate_repository_url-chars url h = ensure-last (all_by is_url_char url) _ (ensure-ok _ _ _ h).1

pub validate_branch-chars :
    (branch : Text) → validate_branch branch ≡ ok tt → all_by is_branch_char branch ≡ true
unfolding validate_branch
validate_branch-chars branch h = (ensure-ok _ _ _ (ensure-ok _ _ _ h).1).0

pub validate_device-chars :
    (device : Text) → validate_device device ≡ ok tt → all_by is_device_char device ≡ true
unfolding validate_device
validate_device-chars device h = ensure-last (all_by is_device_char device) _ (ensure-ok _ _ _ h).1

-- Settings that passed the checks, with the text that they make.
record Checked (s : Settings) (i : Text) : Type 0 where
  url : Text
  device : Text
  has_url : s.repository_url ≡ some url
  has_device : s.device ≡ some device
  is_valid : validate s ≡ ok tt
  made : reference url s.branch ++ attribute device ≡ i

some-injective : (a b : Text) → ok (some a) ≡ ok (some b) → a ≡ b
some-injective a b e = cc

checked : (s : Settings) (i : Text) → installable s ≡ ok (some i) → Checked s i
unfolding installable installable_of
checked s i h = of_parts s.repository_url s.device refl refl h
  where
    of_parts :
        (u d : Option Text)
        → s.repository_url ≡ u
        → s.device ≡ d
        → installable_of s u d ≡ ok (some i)
        → Checked s i
    of_parts (some url) (some device) eu ed e =
        let (valid, made) = then-ok (validate s) _ (some i) e in
        record {
          url = url;
          device = device;
          has_url = eu;
          has_device = ed;
          is_valid = valid;
          made = some-injective _ _ made;
        }
    of_parts (some url) none eu ed e = cc
    of_parts none d eu ed e = cc

each-some :
    (check : Text → Result (Unit {0})) (o : Option Text) (a : Text)
    → each check o ≡ ok tt
    → o ≡ some a
    → check a ≡ ok tt
each-some check none a h e = cc
each-some check (some b) a h e = cc

module _ (s : Settings) (i : Text) (c : Checked s i) where
  parts_valid :
      (each validate_repository_url s.repository_url ≡ ok tt)
      × (each validate_branch s.branch ≡ ok tt)
      × (each validate_device s.device ≡ ok tt)
  unfolding validate
  parts_valid =
      let (u, rest) = then-ok (each validate_repository_url s.repository_url) _ tt c.is_valid in
      let (b, d) = then-ok (each validate_branch s.branch) _ tt rest in (u, b, d)

  url-Lacks_fragment : Lacks b'#' c.url
  url-Lacks_fragment =
      let valid = each-some validate_repository_url _ c.url parts_valid.0 c.has_url in
      Lacks-of is_url_char b'#' url_char-fragment c.url (validate_repository_url-chars c.url valid)

  url-Lacks_query : Lacks b'?' c.url
  url-Lacks_query =
      let valid = each-some validate_repository_url _ c.url parts_valid.0 c.has_url in
      Lacks-of is_url_char b'?' url_char-query c.url (validate_repository_url-chars c.url valid)

  device-Lacks_quote : Lacks b'"' c.device
  device-Lacks_quote =
      let valid = each-some validate_device _ c.device parts_valid.2 c.has_device in
      Lacks-of is_device_char b'"' device_char-quote c.device (validate_device-chars c.device valid)

  -- What stands before the fragment.
  reference-Lacks_fragment : Lacks b'#' (reference c.url s.branch)
  unfolding reference codes
  reference-Lacks_fragment = of_branch s.branch refl
    where
      of_branch : (b : Option Text) → s.branch ≡ b → Lacks b'#' (reference c.url b)
      of_branch none e = (refl, (refl, (refl, (refl, url-Lacks_fragment))))
      of_branch (some branch) e =
          let valid = each-some validate_branch _ branch parts_valid.1 e in
          let clean =
            Lacks-of is_branch_char b'#' branch_char-fragment branch
              (validate_branch-chars branch valid) in
          let query : Lacks b'#' (codes "?ref=" ++ branch) =
            (refl, (refl, (refl, (refl, (refl, clean))))) in
          (
            refl,
            (
              refl,
              (
                refl,
                (
                  refl,
                  All-append (λ x. (x == b'#') ≡ false) c.url (codes "?ref=" ++ branch)
                      url-Lacks_fragment query,
                ),
              ),
            ),
          )

append-cancel : (a r s : Text) → a ++ r ≡ a ++ s → r ≡ s
append-cancel [] r s e = e
append-cancel (x ∷ a) r s e = append-cancel a r s cc

reference-injective :
    (u v : Text) (a b : Option Text)
    → Lacks b'?' u
    → Lacks b'?' v
    → reference u a ≡ reference v b
    → (u ≡ v) × (a ≡ b)
unfolding reference codes
reference-injective u v none none h k e = (cc, refl)
reference-injective u v none (some b) h k e =
    absurd (uncut b'?' v u (codes "ref=" ++ b) h (sym (append-cancel (codes "git+") _ _ e)))
reference-injective u v (some a) none h k e =
    absurd (uncut b'?' u v (codes "ref=" ++ a) k (append-cancel (codes "git+") _ _ e))
reference-injective u v (some a) (some b) h k e =
    let (same, rest) =
      cut-injective b'?' u v (codes "ref=" ++ a) (codes "ref=" ++ b) h k
        (append-cancel (codes "git+") _ _ e) in
    (same, ap some (append-cancel (codes "ref=") a b rest))

attribute_tail : Text → Text
unfolding codes
attribute_tail device =
    codes "ogygiaConfigurations.\"" ++ (device ++ (b'"' ∷ codes ".config.ogygia.nebula.settings"))

attribute-fragment : (device : Text) → attribute device ≡ b'#' ∷ attribute_tail device
unfolding attribute attribute_tail codes
attribute-fragment device = refl

attribute_tail-injective :
    (d e : Text) → Lacks b'"' d → Lacks b'"' e → attribute_tail d ≡ attribute_tail e → d ≡ e
unfolding attribute_tail
attribute_tail-injective d e h k same =
    (cut-injective b'"' d e _ _ h k (append-cancel (codes "ogygiaConfigurations.\"") _ _ same)).0

pub settings-eq :
    (s t : Settings)
    → s.repository_url ≡ t.repository_url
    → s.branch ≡ t.branch
    → s.device ≡ t.device
    → s ≡ t
settings-eq s t u b d = cc

-- Settings that pass the checks and make the same text to evaluate are the same settings: neither
-- the address, the branch nor the device can stand for a part of another.
pub installable-injective :
    (s t : Settings) (i : Text) → installable s ≡ ok (some i) → installable t ≡ ok (some i) → s ≡ t
installable-injective s t i h k =
    let c = checked s i h in
    let d = checked t i k in
    let same : reference c.url s.branch ++ (b'#' ∷ attribute_tail c.device)
        ≡ reference d.url t.branch ++ (b'#' ∷ attribute_tail d.device) =
      ap (λ x. reference c.url s.branch ++ x) (sym (attribute-fragment c.device))
      ∙ c.made
      ∙ sym d.made
      ∙ ap (λ x. reference d.url t.branch ++ x) (attribute-fragment d.device) in
    let (front, back) =
      cut-injective b'#' _ _ _ _ (reference-Lacks_fragment s i c) (reference-Lacks_fragment t i d)
        same in
    let (url, branch) =
      reference-injective c.url d.url s.branch t.branch (url-Lacks_query s i c)
        (url-Lacks_query t i d) front in
    let device =
      attribute_tail-injective c.device d.device (device-Lacks_quote s i c)
        (device-Lacks_quote t i d) back in
    settings-eq s t (c.has_url ∙ ap some url ∙ sym d.has_url) branch
      (c.has_device ∙ ap some device ∙ sym d.has_device)
