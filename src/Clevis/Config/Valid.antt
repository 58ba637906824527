-- ===== src/Clevis/Config/Valid.antt =====
-- src/ogygia-clevis/src/config.rs: equality of pins, and what a valid spec is.
use ogygia_nix.Base.{
  ◌≤◌, Bool, true, false, List, [], ◌∷◌, ◌++◌, ◌≡◌, refl, subst, sym, ◌↔◌, ◌⊎◌, inl, inr, arith,
  length, Bool-cases,
}
use ogygia_nix.Base.Text.{text_eq→eq, text_eq_refl}
use ogygia_nix.Clevis.Config.{Pin, Spec, pin_eq, contains, valid, find_duplicate, validate}

pub pin_eq→eq : (a b : Pin) → pin_eq a b ≡ true → a ≡ b
unfolding pin_eq
pin_eq→eq a b h = ground (arith, text_eq→eq a.url b.url, text_eq→eq a.thp b.thp)

pub pin_eq_refl : (a : Pin) → pin_eq a a ≡ true
unfolding pin_eq
pin_eq_refl a = rw (text_eq_refl a.url, text_eq_refl a.thp)

-- The pin is one of the list.
abbrev pub In : Pin → List Pin → Type 0
In pin [] = ⊥
In pin (p ∷ ps) = (p ≡ pin) ⊎ In pin ps

pub contains_iff : (ps : List Pin) (pin : Pin) → (contains ps pin ≡ true) ↔ In pin ps
unfolding contains
contains_iff [] pin = (λ h. cc, λ h. absurd h)
contains_iff (p ∷ ps) pin = (
  λ h. elim (Bool-cases (pin_eq p pin)) [
    | inl e ↦ inl (pin_eq→eq p pin e)
    | inr n ↦ inr ((contains_iff ps pin).0 (ground arith))
  ],
  λ h. elim h [
    | inl e ↦ rw e (ground (arith, pin_eq_refl pin))
    | inr i ↦ ground (arith, (contains_iff ps pin).1 i)
  ],
)

clash : {b : Bool} → b ≡ false → b ≡ true → ⊥
clash e f = cc

-- No pin of the list stands in it again further on.
abbrev pub Distinct : List Pin → Type 0
Distinct [] = Unit {0}
Distinct (p ∷ ps) = ¬ (In p ps) × Distinct ps

In-snoc : (pin p : Pin) (ps : List Pin) → In pin (ps ++ (p ∷ [])) ↔ (In pin ps ⊎ (p ≡ pin))
In-snoc pin p [] = (
  λ h. elim h [ inl e ↦ inr e | inr i ↦ absurd i ],
  λ h. elim h [ inl i ↦ absurd i | inr e ↦ inl e ],
)
In-snoc pin p (x ∷ ps) = (
  λ h. elim h [
    | inl e ↦ inl (inl e)
    | inr i ↦ elim ((In-snoc pin p ps).0 i) [ inl j ↦ inl (inr j) | inr e ↦ inr e ]
  ],
  λ h. elim h [
    | inl j ↦ elim j [ inl e ↦ inl e | inr i ↦ inr ((In-snoc pin p ps).1 (inl i)) ]
    | inr e ↦ inr ((In-snoc pin p ps).1 (inr e))
  ],
)

-- Distinct, and apart from those already seen.
abbrev Fresh : List Pin → List Pin → Type 0
Fresh seen ps = Distinct ps × ((pin : Pin) → In pin ps → ¬ (In pin seen))

Fresh-snoc :
    (seen : List Pin) (p : Pin) (ps : List Pin)
    → ¬ (In p seen)
    → Fresh (seen ++ (p ∷ [])) ps ↔ Fresh seen (p ∷ ps)
Fresh-snoc seen p ps new = (
  λ (d, apart). (
    (λ i. apart p i ((In-snoc p p seen).1 (inr refl)), d),
    λ pin i s. elim i [
      | inl e ↦ new (subst (λ q. In q seen) (sym e) s)
      | inr j ↦ apart pin j ((In-snoc pin p seen).1 (inl s))
    ],
  ),
  λ (d, apart). (
    d.1,
    λ pin i s. elim ((In-snoc pin p seen).0 s) [
      | inl j ↦ apart pin (inr i) j
      | inr e ↦ d.0 (subst (λ q. In q ps) (sym e) i)
    ],
  ),
)

find_duplicate_iff : (seen ps : List Pin) → (find_duplicate seen ps ≡ valid) ↔ Fresh seen ps
unfolding find_duplicate
find_duplicate_iff seen [] = (λ _. (tt, λ pin i _. i), λ _. refl)
find_duplicate_iff seen (p ∷ ps) = elim (Bool-cases (contains seen p)) [
  | inl again ↦ rw again (λ h. cc, λ h. absurd (h.1 p (inl refl) ((contains_iff seen p).0 again)))
  | inr first ↦
      let (to, from) = find_duplicate_iff (seen ++ (p ∷ [])) ps in
      let (up, down) =
        Fresh-snoc seen p ps (λ i. absurd (clash first ((contains_iff seen p).1 i))) in
      rw first (λ h. up (to h), λ h. from (down h))
]

-- A spec passes validation exactly if its threshold lies between 1 and the number of its pins and
-- no pin is listed twice.
pub validate_iff :
    (spec : Spec)
    → (validate spec ≡ valid)
      ↔ ((1 ≤ spec.t) × (spec.t ≤ length spec.pins.tang) × Distinct spec.pins.tang)
unfolding validate
validate_iff spec =
    let (to, from) = find_duplicate_iff [] spec.pins.tang in
    (
      λ h. (ground arith, ground arith, (to (ground arith)).0),
      λ h. let e = from (h.2, λ pin i s. s) in ground arith,
    )
