-- ===== src/Base/Split.antt =====
-- Rust's `str::split` and `rfind` with a character, on text as a list of codes.
use Prim.Native.Nat.{ℕ, suc}
use ogygia_nix.Base.Lists.{length, All}
use ogygia_nix.Base.Tests.{◌==◌, if◌then◌else◌, ==_refl, ==_iff}
use ogygia_nix.Base.Text.{Text}
use mathlib.Core.Path.{◌≡◌, refl}
use mathlib.Core.Logic.{◌≢◌}
use mathlib.Core.Bool.{Bool, true, false}
use mathlib.Core.Option.{Option, none, some}
use mathlib.Core.List.{List, [], ◌∷◌, ◌++◌}

-- A character in front of the first part.
unfoldable pub onto : ℕ → List Text → List Text
onto x [] = (x ∷ []) ∷ []
onto x (p ∷ ps) = (x ∷ p) ∷ ps

-- `split(c)`.
unfoldable pub split : ℕ → Text → List Text
unfolding onto
split c [] = [] ∷ []
split c (x ∷ s) = let rest = split c s in if x == c then ([] ∷ rest) else onto x rest

-- `rfind(c)`, as an index.
unfoldable pub rfind : ℕ → Text → Option ℕ
rfind c [] = none
rfind c (x ∷ s) = elim (rfind c s) [
  | some i ↦ some (suc i)
  | none ↦ if x == c then some 0 else none
]

abbrev pub Lacks : ℕ → Text → Type 0
Lacks c s = All (λ x. (x == c) ≡ false) s

module _ (c : ℕ) where
  apart : (x : ℕ) → (x == c) ≡ false → x ≢ c
  apart x h e = let same : (x == c) ≡ true = (==_iff x c).1 e in cc

  onto-Lacks :
      (x : ℕ) (ps : List Text) → (x == c) ≡ false → All (Lacks c) ps → All (Lacks c) (onto x ps)
  unfolding onto
  onto-Lacks x [] h k = ((h, _), _)
  onto-Lacks x (p ∷ ps) h k = ((h, k.0), k.1)

  step-Lacks :
      (x : ℕ) (ps : List Text) (b : Bool)
      → (x == c) ≡ b
      → All (Lacks c) ps
      → All (Lacks c) (if b then ([] ∷ ps) else onto x ps)
  step-Lacks x ps true h k = (_, k)
  step-Lacks x ps false h k = onto-Lacks x ps h k

  pub split-Lacks : (s : Text) → All (Lacks c) (split c s)
  unfolding split
  split-Lacks [] = (_, _)
  split-Lacks (x ∷ s) = step-Lacks x (split c s) (x == c) refl (split-Lacks s)

  pub split-cons : (x : ℕ) (s : Text) → (x == c) ≡ false → split c (x ∷ s) ≡ onto x (split c s)
  unfolding split
  split-cons x s h = rw h refl

  pub split_at_sep : (s : Text) → split c (c ∷ s) ≡ [] ∷ split c s
  unfolding split
  split_at_sep s = rw (==_refl c) refl

  pub split_lone : (p : Text) → Lacks c p → split c p ≡ p ∷ []
  split_lone [] h = unfold split in refl
  split_lone (x ∷ p) h = rw (split-cons x p h.0, split_lone p h.1) (unfold onto in refl)

  pub split-part : (p s : Text) → Lacks c p → split c (p ++ (c ∷ s)) ≡ p ∷ split c s
  split-part [] s h = split_at_sep s
  split-part (x ∷ p) s h =
      rw (split-cons x (p ++ (c ∷ s)) h.0, split-part p s h.1) (unfold onto in refl)

  pub split-shape : (s : Text) → (p : Text) × (ps : List Text) × (split c s ≡ p ∷ ps)
  unfolding split onto
  split-shape [] = ([], [], refl)
  split-shape (x ∷ s) = shape (x == c) (split c s) (split-shape s)
    where
      shape :
          (b : Bool) (qs : List Text)
          → (p : Text) × (ps : List Text) × (qs ≡ p ∷ ps)
          → (p : Text) × (ps : List Text) × ((if b then ([] ∷ qs) else onto x qs) ≡ p ∷ ps)
      shape true qs h = ([], qs, refl)
      shape false qs (p, ps, e) = (x ∷ p, ps, rw e refl)

  onto-append :
      (x : ℕ) (s : Text) (qs : List Text) → onto x (split c s ++ qs) ≡ onto x (split c s) ++ qs
  onto-append x s qs = let h = split-shape s in rw h.2 (unfold onto in refl)

  -- A text joined by a separator splits into the parts of both.
  pub split-join : (s t : Text) → split c (s ++ (c ∷ t)) ≡ split c s ++ split c t
  split-join [] t = rw (split_at_sep t) (unfold split in refl)
  split-join (x ∷ s) t = join (split-join s t) (x == c) refl
    where
      join :
          split c (s ++ (c ∷ t)) ≡ split c s ++ split c t
          → (b : Bool) → (x == c) ≡ b
          → split c (x ∷ (s ++ (c ∷ t))) ≡ split c (x ∷ s) ++ split c t
      join e true h = unfold split in rw (h, e) refl
      join e false h =
          rw (split-cons x (s ++ (c ∷ t)) h, split-cons x s h, e) (onto-append x s (split c t))

  pub rfind-none : (p : Text) → Lacks c p → rfind c p ≡ none
  unfolding rfind
  rfind-none [] h = refl
  rfind-none (x ∷ p) h = rw (rfind-none p h.1, h.0) refl

  -- The last separator is the one that no separator follows.
  pub rfind-append : (s p : Text) → Lacks c p → rfind c (s ++ (c ∷ p)) ≡ some (length s)
  unfolding rfind
  rfind-append [] p h = rw (rfind-none p h, ==_refl c) refl
  rfind-append (x ∷ s) p h = rw (rfind-append s p h) refl

  -- What precedes the first separator is determined.
  pub cut-injective :
      (a b r s : Text) → Lacks c a → Lacks c b → a ++ (c ∷ r) ≡ b ++ (c ∷ s) → (a ≡ b) × (r ≡ s)
  cut-injective [] [] r s h k e = (refl, cc)
  cut-injective [] (y ∷ b) r s h k e = absurd (apart y k.0 cc)
  cut-injective (x ∷ a) [] r s h k e = absurd (apart x h.0 cc)
  cut-injective (x ∷ a) (y ∷ b) r s h k e =
      let (same, rest) = cut-injective a b r s h.1 k.1 cc in (cc, rest)

  pub uncut : (a b r : Text) → Lacks c b → a ++ (c ∷ r) ≢ b
  uncut [] [] r h e = cc
  uncut [] (y ∷ b) r h e = apart y h.0 cc
  uncut (x ∷ a) [] r h e = cc
  uncut (x ∷ a) (y ∷ b) r h e = uncut a b r h.1 cc
