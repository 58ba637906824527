-- ===== src/Eval/Path/Names.antt =====
-- src/ogygia-nix-eval/src/path.rs: dir_of and base_name_of take apart what join puts together.
use ogygia_nix.Base.{
  some, Bool, if◌then◌else◌, ℕ, suc, ◌-◌, ◌≡◌, refl, sym, ◌∙◌, ap, subst, true, false, List, [],
  ◌∷◌, ◌++◌, length, length-append, drop, take-append, drop-append, ◌==◌, All, arith,
}
use ogygia_nix.Base.Text.{Text, codes, text_eq, strip_prefix}
use ogygia_nix.Base.Split.{rfind, rfind-append, Lacks}
use ogygia_nix.Eval.Path.{
  corepkgs, abs, slashed, show_parts, dir_at, dir_of, name_at, base_name_of, strip_slash,
  trim_slashes, join,
}
use ogygia_nix.Eval.Path.Components.{IsPart}
use mathlib.Core.List.{append-nil, append_assoc}

strip_slash-keeps :
    (s : Text) (d : ℕ) (c : Text) → Lacks b'/' (d ∷ c) → strip_slash (s ++ (d ∷ c)) ≡ s ++ (d ∷ c)
unfolding strip_slash
strip_slash-keeps [] d [] h = rw h.0 refl
strip_slash-keeps [] d (e ∷ c) h = ap (λ t. d ∷ t) (strip_slash-keeps [] e c h.1)
strip_slash-keeps (x ∷ []) d c h = ap (λ t. x ∷ t) (strip_slash-keeps [] d c h)
strip_slash-keeps (x ∷ y ∷ s) d c h = ap (λ t. x ∷ t) (strip_slash-keeps (y ∷ s) d c h)

trim_slashes-part : (d : ℕ) (c : Text) → Lacks b'/' (d ∷ c) → trim_slashes (d ∷ c) ≡ d ∷ c
unfolding trim_slashes
trim_slashes-part d [] h = rw h.0 refl
trim_slashes-part d (e ∷ c) h = rw (trim_slashes-part e c h.1) refl

trim_slashes-append :
    (s : Text) (d : ℕ) (c : Text)
    → trim_slashes (d ∷ c) ≡ d ∷ c
    → trim_slashes (s ++ (d ∷ c)) ≡ s ++ (d ∷ c)
unfolding trim_slashes
trim_slashes-append [] d c h = h
trim_slashes-append (x ∷ []) d c h = rw (trim_slashes, h) refl
trim_slashes-append (x ∷ y ∷ s) d c h = rw (trim_slashes-append (y ∷ s) d c h) refl

no_empty_part : IsPart [] → ⊥
unfolding text_eq
no_empty_part h = let e : true ≡ false = h.kept in cc

trim_slashes-slashed :
    (c : Text) (parts : List Text)
    → All IsPart (c ∷ parts)
    → trim_slashes (slashed (c ∷ parts)) ≡ slashed (c ∷ parts)
unfolding slashed
trim_slashes-slashed [] parts h = absurd (no_empty_part h.0)
trim_slashes-slashed (d ∷ c) [] h =
    let part : trim_slashes (d ∷ (c ++ [])) ≡ d ∷ (c ++ []) =
      rw (append-nil c) (trim_slashes-part d c h.0.whole) in
    trim_slashes-append (b'/' ∷ []) d (c ++ []) part
trim_slashes-slashed (d ∷ c) (e ∷ parts) h =
    trim_slashes-append (b'/' ∷ d ∷ c) b'/' (e ++ slashed parts) (trim_slashes-slashed e parts h.1)

slashed-append :
    (parts : List Text) (c : Text) → slashed (parts ++ (c ∷ [])) ≡ slashed parts ++ (b'/' ∷ c)
unfolding slashed
slashed-append [] c = ap (λ t. b'/' ∷ t) (append-nil c)
slashed-append (d ∷ parts) c =
    rw (slashed-append parts c)
      (ap (λ t. b'/' ∷ t) (sym (append_assoc d (slashed parts) (b'/' ∷ c))))

base_name_of-child :
    (s : Text) (d : ℕ) (c : Text) → Lacks b'/' (d ∷ c) → base_name_of (s ++ (b'/' ∷ d ∷ c)) ≡ d ∷ c
unfolding base_name_of name_at
base_name_of-child s d c h =
    let front = append_assoc s (b'/' ∷ []) (d ∷ c) in
    let whole : strip_slash (s ++ (b'/' ∷ d ∷ c)) ≡ s ++ (b'/' ∷ d ∷ c) =
      subst (λ t. strip_slash t ≡ t) front (strip_slash-keeps (s ++ (b'/' ∷ [])) d c h) in
    let tail : drop (suc (length s)) (s ++ (b'/' ∷ d ∷ c)) ≡ d ∷ c =
      ap (drop (suc (length s))) (sym front)
      ∙ drop-append (suc (length s)) (s ++ (b'/' ∷ [])) (d ∷ c)
          (omega (arith, length-append s (b'/' ∷ []))) in
    rw (whole, rfind-append b'/' s (d ∷ c) h) tail

not_root : (n : ℕ) → (suc n == 0) ≡ false
not_root n = ground arith

no_root : (n : ℕ) → n - n ≡ 0
no_root n = omega arith

dir_of-child :
    (parts : List Text) (c : Text)
    → Lacks b'/' c
    → dir_of (slashed parts ++ (b'/' ∷ c)) ≡ show_parts parts
unfolding dir_of
dir_of-child [] c h =
    unfold slashed dir_at abs strip_prefix corepkgs codes show_parts in
    rw (rfind-append b'/' [] c h, no_root (suc (length c))) refl
dir_of-child (d ∷ parts) c h =
    unfold slashed dir_at abs strip_prefix corepkgs codes show_parts in
    rw
      (
        rfind-append b'/' (b'/' ∷ (d ++ slashed parts)) c h,
        no_root (length (slashed (d ∷ parts) ++ (b'/' ∷ c))),
        not_root (length (d ++ slashed parts)),
      )
      (take-append (length (slashed (d ∷ parts))) (slashed (d ∷ parts)) (b'/' ∷ c) refl)

join-parts :
    (parts : List Text) (d : ℕ) (c : Text)
    → All IsPart parts
    → join (show_parts parts) (d ∷ c) ≡ slashed parts ++ (b'/' ∷ d ∷ c)
unfolding join show_parts slashed
join-parts [] d c h = unfold trim_slashes in refl
join-parts (e ∷ parts) d c h = rw (trim_slashes-slashed e parts h) refl

-- What join, dir_of and base_name_of make of components behind a prefix, and one component more.
abbrev pub Names : (prefix : Text) → List Text → Text → Type 0
Names prefix parts c =
    let path = prefix ++ show_parts parts in
    (dir_of (join path c) ≡ path)
    × (base_name_of (join path c) ≡ c)
    × (join path c ≡ prefix ++ show_parts (parts ++ (c ∷ [])))

show_parts-snoc :
    (parts : List Text) (c : Text) → slashed (parts ++ (c ∷ [])) ≡ show_parts (parts ++ (c ∷ []))
unfolding show_parts
show_parts-snoc [] c = refl
show_parts-snoc (d ∷ parts) c = refl

plain-Names : (parts : List Text) (c : Text) → All IsPart parts → IsPart c → Names [] parts c
plain-Names parts [] h k = absurd (no_empty_part k)
plain-Names parts (d ∷ c) h k = rw (join-parts parts d c h) (
  dir_of-child parts (d ∷ c) k.whole,
  base_name_of-child (slashed parts) d c k.whole,
  sym (slashed-append parts (d ∷ c)) ∙ show_parts-snoc parts (d ∷ c),
)

-- Behind the prefix, the root starts at its length.
core_root : (x : Text) → length (corepkgs ++ x) - length (abs (corepkgs ++ x)) ≡ 5
unfolding abs strip_prefix corepkgs codes
core_root x = behind (length x)
  where
    behind : (n : ℕ) → suc (suc (suc (suc (suc n)))) - n ≡ 5
    behind n = omega arith

behind_root : (n : ℕ) → (suc (suc (suc (suc (suc (suc n))))) == 5) ≡ false
behind_root n = ground arith

core-rfind :
    (s c : Text)
    → Lacks b'/' c
    → rfind b'/' (corepkgs ++ (s ++ (b'/' ∷ c))) ≡ some (length (corepkgs ++ s))
core-rfind s c h =
    ap (rfind b'/') (sym (append_assoc corepkgs s (b'/' ∷ c)))
    ∙ rfind-append b'/' (corepkgs ++ s) c h

core-dir_of-child :
    (parts : List Text) (c : Text)
    → Lacks b'/' c
    → dir_of (corepkgs ++ (slashed parts ++ (b'/' ∷ c))) ≡ corepkgs ++ show_parts parts
unfolding dir_of
core-dir_of-child parts c h =
    let p = corepkgs ++ (slashed parts ++ (b'/' ∷ c)) in
    ap (λ r. dir_at p r (rfind b'/' p)) (core_root (slashed parts ++ (b'/' ∷ c)))
    ∙ ap (dir_at p 5) (core-rfind (slashed parts) c h)
    ∙ at_root parts
  where
    at_root :
        (ps : List Text)
        → dir_at (corepkgs ++ (slashed ps ++ (b'/' ∷ c))) 5 (some (length (corepkgs ++ slashed ps)))
          ≡ corepkgs ++ show_parts ps
    at_root [] = unfold slashed dir_at corepkgs codes show_parts in refl
    at_root (d ∷ ps) =
        unfold slashed dir_at corepkgs codes show_parts in
        rw (behind_root (length (d ++ slashed ps))) (
          take-append (length (codes "<nix>" ++ slashed (d ∷ ps)))
            (codes "<nix>" ++ slashed (d ∷ ps)) (b'/' ∷ c) refl)

core-join-parts :
    (parts : List Text) (d : ℕ) (c : Text)
    → All IsPart parts
    → join (corepkgs ++ show_parts parts) (d ∷ c) ≡ corepkgs ++ (slashed parts ++ (b'/' ∷ d ∷ c))
unfolding join show_parts slashed corepkgs codes
core-join-parts [] d c h = unfold trim_slashes in refl
core-join-parts (e ∷ parts) d c h =
    ap (λ t. t ++ (b'/' ∷ d ∷ c))
      (trim_slashes-append (codes "<nix>") b'/' (e ++ slashed parts)
        (trim_slashes-slashed e parts h))

core-Names : (parts : List Text) (c : Text) → All IsPart parts → IsPart c → Names corepkgs parts c
core-Names parts [] h k = absurd (no_empty_part k)
core-Names parts (d ∷ c) h k = rw (core-join-parts parts d c h) (
  core-dir_of-child parts (d ∷ c) k.whole,
  unfold corepkgs codes in base_name_of-child (codes "<nix>" ++ slashed parts) d c k.whole,
  ap (λ t. corepkgs ++ t) (sym (slashed-append parts (d ∷ c)) ∙ show_parts-snoc parts (d ∷ c)),
)

-- A component put behind a path in canonical form that has the prefix of Nix's own files at most
-- once is read back as its base name, and the path as its directory; putting the two together again
-- gives the canonical form with one component more.
pub join-dir_of-base_name_of :
    (core : Bool) (parts : List Text) (c : Text)
    → All IsPart parts
    → IsPart c
    → Names (if core then corepkgs else []) parts c
join-dir_of-base_name_of true parts c h k = core-Names parts c h k
join-dir_of-base_name_of false parts c h k = plain-Names parts c h k
