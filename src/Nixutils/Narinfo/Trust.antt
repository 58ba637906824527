-- ===== src/Nixutils/Narinfo/Trust.antt =====
-- src/ogygia-nixutils/src/narinfo.rs: which narinfo files are trusted.
use ogygia_nix.Base.{
  ◌≡◌, ◌≢◌, refl, sym, ◌∙◌, ap, subst, Bool, true, false, ◌||◌, Option, none, some, List, [], ◌∷◌,
  ◌++◌, ◌==◌, if◌then◌else◌, ◌⊎◌, inl, inr, ◌↔◌, ==_iff,
}
use ogygia_nix.Base.Text.{Text, text_eq, text_eq→eq, text_eq_iff}
use ogygia_nix.Base.Split.{Lacks}
use ogygia_nix.Nixutils.{split_once, before}
use ogygia_nix.Nixutils.Types.{Signature}
use ogygia_nix.Nixutils.Narinfo.{
  NarInfo, key_names, contains_name, any_signature, has_trusted_signature, has_ca, no_keys,
  is_trusted,
}
use ogygia_nix.Nixutils.Narinfo.Lines.{split_once-part}

module _ {A : Type 0} where
  -- One element has the property.
  abbrev pub Some : (A → Type 0) → List A → Type 0
  Some P [] = ⊥
  Some P (x ∷ xs) = P x ⊎ Some P xs

-- A key whose name, in front of its first colon, is the one given.
abbrev pub IsNamed : Text → Text → Type 0
IsNamed name key = Lacks b':' name × ((body : Text) × (key ≡ name ++ (b':' ∷ body)))

Parts : Text → Option (Text × Text) → Type 0
Parts s none = Unit {0}
Parts s (some (a, b)) = Lacks b':' a × (s ≡ a ++ (b':' ∷ b))

split_once-Parts : (s : Text) → Parts s (split_once b':' s)
unfolding split_once Parts
split_once-Parts [] = _
split_once-Parts (x ∷ s) = of_first (x == b':') refl (split_once b':' s) (split_once-Parts s)
  where
    of_first :
        (b : Bool)
        → (x == b':') ≡ b
        → (o : Option (Text × Text)) → Parts s o
        → Parts (x ∷ s) (if b then some ([], s) else before x o)
    of_first true e o h = let same : x ≡ b':' = (==_iff x b':').0 e in (_, ap (λ c. c ∷ s) same)
    of_first false e none h = _
    of_first false e (some (a, b)) h = ((e, h.0), ap (λ t. x ∷ t) h.1)

no_name : (name : Text) → contains_name name [] ≢ true
unfolding contains_name
no_name name h = cc

-- A key has at most one name.
named-parts :
    (name key : Text)
    → IsNamed name key
    → (a b : Text) → split_once b':' key ≡ some (a, b)
    → name ≡ a
named-parts name key h a b e =
    let found = ap (split_once b':') h.1.1 ∙ split_once-part b':' name h.1.0 h.0 in cc

named-split : (name key : Text) → IsNamed name key → split_once b':' key ≢ none
named-split name key h e =
    let found = ap (split_once b':') h.1.1 ∙ split_once-part b':' name h.1.0 h.0 in cc

module _ (name key : Text) (keys : List Text) where
  first_key :
      (o : Option (Text × Text))
      → split_once b':' key ≡ o
      → Parts key o
      → ((contains_name name (key_names keys) ≡ true) ↔ Some (IsNamed name) keys)
      → contains_name name
          (elim o [ none ↦ key_names keys | some parts ↦ parts.0 ∷ key_names keys ])
        ≡ true
      → Some (IsNamed name) (key ∷ keys)
  unfolding contains_name Parts
  first_key none e p ih h = inr (ih.0 h)
  first_key (some (a, b)) e p ih h = by_name (text_eq a name) refl h
    where
      by_name :
          (t : Bool)
          → text_eq a name ≡ t
          → (t || contains_name name (key_names keys)) ≡ true
          → Some (IsNamed name) (key ∷ keys)
      by_name true same h =
          let here : a ≡ name = text_eq→eq a name same in
          inl (subst (λ t. IsNamed t key) here (p.0, (b, p.1)))
      by_name false _ h = inr (ih.0 h)

  key_first :
      (o : Option (Text × Text))
      → split_once b':' key ≡ o
      → ((contains_name name (key_names keys) ≡ true) ↔ Some (IsNamed name) keys)
      → Some (IsNamed name) (key ∷ keys)
      → contains_name name
          (elim o [ none ↦ key_names keys | some parts ↦ parts.0 ∷ key_names keys ])
        ≡ true
  unfolding contains_name
  key_first none e ih (inl h) = absurd (named-split name key h e)
  key_first none e ih (inr h) = ih.1 h
  key_first (some (a, b)) e ih (inl h) =
      let same : text_eq a name ≡ true =
        (text_eq_iff a name).1 (sym (named-parts name key h a b e)) in
      rw same refl
  key_first (some (a, b)) e ih (inr h) = later (text_eq a name) (ih.1 h)
    where
      later :
          (t : Bool)
          → contains_name name (key_names keys) ≡ true
          → (t || contains_name name (key_names keys)) ≡ true
      later true k = refl
      later false k = k

contains_name_iff :
    (name : Text) (keys : List Text)
    → (contains_name name (key_names keys) ≡ true) ↔ Some (IsNamed name) keys
unfolding key_names
contains_name_iff name [] = (λ h. absurd (no_name name h), λ h. absurd h)
contains_name_iff name (key ∷ keys) =
    let o = split_once b':' key in
    let ih = contains_name_iff name keys in
    (first_key name key keys o refl (split_once-Parts key) ih, key_first name key keys o refl ih)

any_signature_iff :
    (names : List Text) (sigs : List Signature)
    → (any_signature names sigs ≡ true) ↔ Some (λ sig. contains_name sig.name names ≡ true) sigs
unfolding any_signature
any_signature_iff names [] = (λ h. cc, λ h. absurd h)
any_signature_iff names (sig ∷ sigs) =
    of_first (contains_name sig.name names) refl (any_signature_iff names sigs)
  where
    of_first :
        (b : Bool)
        → contains_name sig.name names ≡ b
        → ((any_signature names sigs ≡ true) ↔ Some (λ s. contains_name s.name names ≡ true) sigs)
        → ((b || any_signature names sigs) ≡ true)
          ↔ Some (λ s. contains_name s.name names ≡ true) (sig ∷ sigs)
    of_first true e ih = (λ h. inl e, λ h. refl)
    of_first false e ih = (λ h. inr (ih.0 h), λ h. later h)
      where
        later :
            Some (λ s. contains_name s.name names ≡ true) (sig ∷ sigs)
            → any_signature names sigs ≡ true
        later (inl k) = cc
        later (inr k) = ih.1 k

Some-map :
    {P Q : Signature → Type 0}
    → ((x : Signature) → P x → Q x)
    → (xs : List Signature) → Some P xs
    → Some Q xs
Some-map f [] h = h
Some-map f (x ∷ xs) (inl h) = inl (f x h)
Some-map f (x ∷ xs) (inr h) = inr (Some-map f xs h)

module _ (trusted : List Text) (n : NarInfo) where
  -- A signature has the name of a trusted key.
  abbrev pub Signed : Type 0
  Signed = Some (λ sig. Some (IsNamed sig.name) trusted) n.signatures

  has_trusted_signature_iff : (has_trusted_signature trusted n ≡ true) ↔ Signed
  unfolding has_trusted_signature
  has_trusted_signature_iff =
      let any = any_signature_iff (key_names trusted) n.signatures in
      (
        λ h. Some-map (λ sig. (contains_name_iff sig.name trusted).0) n.signatures (any.0 h),
        λ h. any.1 (Some-map (λ sig. (contains_name_iff sig.name trusted).1) n.signatures h),
      )

  trusted_by_keys :
      (ts : List Text)
      → trusted ≡ ts
      → ((if no_keys ts then true else has_trusted_signature trusted n) ≡ true)
        ↔ ((false ≡ true) ⊎ ((trusted ≡ []) ⊎ Signed))
  unfolding no_keys
  trusted_by_keys [] e = (λ h. inr (inl e), λ h. refl)
  trusted_by_keys (t ∷ ts) e =
      (λ h. inr (inr (has_trusted_signature_iff.0 h)), λ h. back h has_trusted_signature_iff.1)
    where
      back :
          ((false ≡ true) ⊎ ((trusted ≡ []) ⊎ Signed))
          → (Signed → has_trusted_signature trusted n ≡ true)
          → has_trusted_signature trusted n ≡ true
      back (inl k) f = cc
      back (inr (inl k)) f = cc
      back (inr (inr k)) f = f k

  -- A narinfo is trusted exactly if its content address is not blank, no key is configured, or one
  -- of its signatures has the name of a configured key: what stands before the key's first colon.
  pub is_trusted_iff :
      (is_trusted trusted n ≡ true) ↔ ((has_ca n ≡ true) ⊎ ((trusted ≡ []) ⊎ Signed))
  unfolding is_trusted
  is_trusted_iff = of_ca (has_ca n) (trusted_by_keys trusted refl)
    where
      of_ca :
          (b : Bool)
          → ((if no_keys trusted then true else has_trusted_signature trusted n) ≡ true)
            ↔ ((false ≡ true) ⊎ ((trusted ≡ []) ⊎ Signed))
          → ((if b then true else if no_keys trusted then true else has_trusted_signature trusted n)
              ≡ true)
            ↔ ((b ≡ true) ⊎ ((trusted ≡ []) ⊎ Signed))
      of_ca true k = (λ h. inl refl, λ h. refl)
      of_ca false k = k
