-- ===== src/Eval/Path/Canonical.antt =====
-- src/ogygia-nix-eval/src/path.rs: what canon_path returns, and that it may be applied at any time.
use ogygia_nix.Base.{
  ℕ, zero, suc, ◌≤◌, ◌≡◌, refl, sym, ◌∙◌, ap, subst, none, some, List, [], ◌∷◌, ◌++◌, length,
  length-append, All, arith, inl, inr, Option-cases,
}
use ogygia_nix.Base.Text.{Text, codes, strip_prefix}
use ogygia_nix.Base.Split.{split, split-Lacks, split-join, Lacks}
use ogygia_nix.Eval.Path.{
  corepkgs, push_parts, slashed, show_parts, canon_plain, canon_rounds, canon_path,
}
use ogygia_nix.Eval.Path.Components.{
  IsPart, push_parts-IsPart, push_parts-show, push_parts-append, All-reverse,
}
use mathlib.Core.List.{reverse, reverse-reverse, append_assoc, append-nil}

-- The prefix of the files that Nix ships, any number of times.
unfoldable pub nest : ℕ → Text → Text
unfolding corepkgs
nest zero p = p
nest (suc n) p = corepkgs ++ nest n p

-- A path in the form that canon_path gives.
pub record IsCanonical (p : Text) : Type 0 where
  pub depth : ℕ
  pub parts : List Text
  pub are_parts : All IsPart parts
  pub shown : p ≡ nest depth (show_parts parts)

strip_prefix-append : (pre p rest : Text) → strip_prefix pre p ≡ some rest → p ≡ pre ++ rest
unfolding strip_prefix
strip_prefix-append [] p rest h = cc
strip_prefix-append (c ∷ pre) [] rest h = cc
strip_prefix-append (c ∷ pre) (d ∷ p) rest h = ground (arith, strip_prefix-append pre p rest)

strip_prefix-slash :
    (pre p q : Text)
    → Lacks b'/' pre
    → strip_prefix pre p ≡ none
    → strip_prefix pre (p ++ (b'/' ∷ q)) ≡ none
unfolding strip_prefix
strip_prefix-slash [] p q h k = cc
strip_prefix-slash (c ∷ pre) [] q h k = rw h.0 refl
strip_prefix-slash (c ∷ pre) (d ∷ p) q h k = ground (arith, strip_prefix-slash pre p q h.1)

-- Every path is one without the prefix, behind the prefix some number of times.
record Nested (p : Text) : Type 0 where
  depth : ℕ
  inner : Text
  is_nested : p ≡ nest depth inner
  is_plain : strip_prefix corepkgs inner ≡ none

corepkgs-long : length corepkgs ≡ 5
unfolding corepkgs codes
corepkgs-long = refl

nested : (fuel : ℕ) (p : Text) → length p ≤ fuel → Nested p
unfolding nest
nested zero [] h = record {
  depth = 0;
  inner = [];
  is_nested = refl;
  is_plain = unfold strip_prefix corepkgs codes in refl;
}
nested zero (c ∷ p) h = absurd (omega arith)
nested (suc fuel) p h = elim (Option-cases (strip_prefix corepkgs p)) [
  | inl e ↦ record { depth = 0; inner = p; is_nested = refl; is_plain = e }
  | inr (rest, e) ↦
      let split = strip_prefix-append corepkgs p rest e in
      let shorter : length rest ≤ fuel =
        omega (arith, ap length split, length-append corepkgs rest, corepkgs-long) in
      behind p rest split (nested fuel rest shorter)
]
  where
    behind : (p rest : Text) → p ≡ corepkgs ++ rest → Nested rest → Nested p
    behind p rest e n = record {
      depth = suc n.depth;
      inner = n.inner;
      is_nested = e ∙ ap (λ r. corepkgs ++ r) n.is_nested;
      is_plain = n.is_plain;
    }

canon_rounds-plain :
    (fuel : ℕ) (p : Text) → strip_prefix corepkgs p ≡ none → canon_rounds fuel p ≡ canon_plain p
unfolding canon_rounds
canon_rounds-plain zero p h = refl
canon_rounds-plain (suc fuel) p h = rw h refl

canon_rounds-nest :
    (n fuel : ℕ) (p : Text)
    → strip_prefix corepkgs p ≡ none
    → n ≤ fuel
    → canon_rounds fuel (nest n p) ≡ nest n (canon_plain p)
unfolding canon_rounds nest
canon_rounds-nest zero fuel p h k = canon_rounds-plain fuel p h
canon_rounds-nest (suc n) zero p h k = absurd (omega arith)
canon_rounds-nest (suc n) (suc fuel) p h k = rw (canon_rounds-nest n fuel p h (omega arith)) refl

nest-long : (n : ℕ) (p : Text) → n ≤ length (nest n p)
unfolding nest
nest-long zero p = omega arith
nest-long (suc n) p = omega (arith, nest-long n p, length-append corepkgs (nest n p), corepkgs-long)

pub canon_path-nest :
    (n : ℕ) (p : Text)
    → strip_prefix corepkgs p ≡ none
    → canon_path (nest n p) ≡ nest n (canon_plain p)
unfolding canon_path
canon_path-nest n p h = canon_rounds-nest n (length (nest n p)) p h (nest-long n p)

-- `show_parts` starts with a slash, so it does not have the prefix.
show_parts-plain :
    (parts : List Text) (q : Text) → strip_prefix corepkgs (show_parts parts ++ q) ≡ none
unfolding show_parts slashed strip_prefix corepkgs codes
show_parts-plain [] q = refl
show_parts-plain (c ∷ parts) q = refl

nest-append : (n : ℕ) (p q : Text) → nest n p ++ q ≡ nest n (p ++ q)
unfolding nest
nest-append zero p q = refl
nest-append (suc n) p q =
    append_assoc corepkgs (nest n p) q ∙ ap (λ r. corepkgs ++ r) (nest-append n p q)

canon_plain-parts :
    (p : Text)
    → (parts : List Text) × All IsPart parts
      × (canon_plain p ≡ show_parts parts)
      × (reverse parts ≡ push_parts [] (split b'/' p))
unfolding canon_plain
canon_plain-parts p =
    let kept = push_parts-IsPart [] (split b'/' p) _ (split-Lacks b'/' p) in
    (
      reverse (push_parts [] (split b'/' p)),
      All-reverse _ kept,
      refl,
      reverse-reverse (push_parts [] (split b'/' p)),
    )

-- The result of canon_path is in canonical form: the prefix any number of times, then a slash, or
-- components behind a slash each, none of them empty, `.`, `..` or with a slash in it.
pub canon_path-IsCanonical : (p : Text) → IsCanonical (canon_path p)
canon_path-IsCanonical p =
    let n = nested (length p) p (omega arith) in
    let (parts, are_parts, shown, _) = canon_plain-parts n.inner in
    record {
      depth = n.depth;
      parts = parts;
      are_parts = are_parts;
      shown =
          ap canon_path n.is_nested
          ∙ canon_path-nest n.depth n.inner n.is_plain
          ∙ ap (nest n.depth) shown;
    }

push_parts-canon :
    (p : Text) → push_parts [] (split b'/' (canon_plain p)) ≡ push_parts [] (split b'/' p)
push_parts-canon p =
    let (parts, are_parts, shown, same) = canon_plain-parts p in
    ap (λ r. push_parts [] (split b'/' r)) shown ∙ push_parts-show parts are_parts ∙ same

canon_plain-join :
    (p q : Text) → canon_plain (canon_plain p ++ (b'/' ∷ q)) ≡ canon_plain (p ++ (b'/' ∷ q))
unfolding canon_plain
canon_plain-join p q = ap (λ r. show_parts (reverse r)) joined
  where
    parts_of :
        (s : Text)
        → push_parts [] (split b'/' (s ++ (b'/' ∷ q)))
          ≡ push_parts (push_parts [] (split b'/' s)) (split b'/' q)
    parts_of s =
        ap (push_parts []) (split-join b'/' s q)
        ∙ push_parts-append [] (split b'/' s) (split b'/' q)

    joined :
        push_parts [] (split b'/' (canon_plain p ++ (b'/' ∷ q)))
        ≡ push_parts [] (split b'/' (p ++ (b'/' ∷ q)))
    joined =
        parts_of (canon_plain p)
        ∙ ap (λ r. push_parts r (split b'/' q)) (push_parts-canon p)
        ∙ sym (parts_of p)

canon_plain-plain : (p q : Text) → strip_prefix corepkgs (canon_plain p ++ q) ≡ none
canon_plain-plain p q =
    let (parts, _, shown, _) = canon_plain-parts p in rw shown (show_parts-plain parts q)

corepkgs-Lacks : Lacks b'/' corepkgs
unfolding corepkgs codes
corepkgs-Lacks = (refl, (refl, (refl, (refl, (refl, _)))))

-- What precedes a slash may be made canonical first: the result is the same.
pub canon_path-join :
    (p q : Text) → canon_path (canon_path p ++ (b'/' ∷ q)) ≡ canon_path (p ++ (b'/' ∷ q))
canon_path-join p q =
    let n = nested (length p) p (omega arith) in
    let rest = b'/' ∷ q in
    let left : canon_path p ++ rest ≡ nest n.depth (canon_plain n.inner ++ rest) =
      ap (λ r. canon_path r ++ rest) n.is_nested
      ∙ ap (λ r. r ++ rest) (canon_path-nest n.depth n.inner n.is_plain)
      ∙ nest-append n.depth (canon_plain n.inner) rest in
    let right : p ++ rest ≡ nest n.depth (n.inner ++ rest) =
      ap (λ r. r ++ rest) n.is_nested ∙ nest-append n.depth n.inner rest in
    ap canon_path left
    ∙ canon_path-nest n.depth (canon_plain n.inner ++ rest) (canon_plain-plain n.inner rest)
    ∙ ap (nest n.depth) (canon_plain-join n.inner q)
    ∙ sym (
        canon_path-nest n.depth (n.inner ++ rest)
          (strip_prefix-slash corepkgs n.inner q corepkgs-Lacks n.is_plain))
    ∙ ap canon_path (sym right)

show_parts-canon :
    (parts : List Text) → All IsPart parts → canon_plain (show_parts parts) ≡ show_parts parts
unfolding canon_plain
show_parts-canon parts h =
    ap (λ r. show_parts (reverse r)) (push_parts-show parts h)
    ∙ ap show_parts (reverse-reverse parts)

-- A path in canonical form is left as it is.
pub canon_path-canonical : (p : Text) → IsCanonical p → canon_path p ≡ p
canon_path-canonical p h =
    let plain : strip_prefix corepkgs (show_parts h.parts) ≡ none =
      subst (λ r. strip_prefix corepkgs r ≡ none) (append-nil (show_parts h.parts))
        (show_parts-plain h.parts []) in
    ap canon_path h.shown
    ∙ canon_path-nest h.depth (show_parts h.parts) plain
    ∙ ap (nest h.depth) (show_parts-canon h.parts h.are_parts)
    ∙ sym h.shown
