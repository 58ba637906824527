-- ===== src/Base/Lists.antt =====
-- Lists measured and indexed by native numbers, and predicates on all elements of a list.
use Prim.Native.Nat.{ℕ, zero, suc, ◌+◌, ◌-◌, ◌≤◌, min}
use mathlib.Core.Path.{◌≡◌, refl, ap}
use mathlib.Core.Bool.{Bool, true, false, ◌&&◌}
use mathlib.Core.List.{List, [], ◌∷◌, ◌++◌}
use native.Mathlib.Omega.{arith}

module _ {ℓ} {A : Type ℓ} where
  abbrev pub length : List A → ℕ
  length [] = 0
  length (_ ∷ xs) = suc (length xs)

  abbrev pub take : ℕ → List A → List A
  take zero xs = []
  take (suc n) [] = []
  take (suc n) (x ∷ xs) = x ∷ take n xs

  abbrev pub drop : ℕ → List A → List A
  drop zero xs = xs
  drop (suc n) [] = []
  drop (suc n) (_ ∷ xs) = drop n xs

  pub length-append : (xs ys : List A) → length (xs ++ ys) ≡ length xs + length ys
  length-append [] ys = omega arith
  length-append (x ∷ xs) ys = omega (arith, length-append xs ys)

  pub length-take : (n : ℕ) (xs : List A) → length (take n xs) ≡ min n (length xs)
  length-take zero xs = omega arith
  length-take (suc n) [] = omega arith
  length-take (suc n) (x ∷ xs) = omega (arith, length-take n xs)

  pub length-drop : (n : ℕ) (xs : List A) → length (drop n xs) ≡ length xs - n
  length-drop zero xs = omega arith
  length-drop (suc n) [] = omega arith
  length-drop (suc n) (x ∷ xs) = omega (arith, length-drop n xs)

  pub take-append : (k : ℕ) (xs ys : List A) → length xs ≡ k → take k (xs ++ ys) ≡ xs
  take-append zero [] ys h = refl
  take-append zero (x ∷ xs) ys h = absurd (omega arith)
  take-append (suc k) [] ys h = absurd (omega arith)
  take-append (suc k) (x ∷ xs) ys h = ap (λ s. x ∷ s) (take-append k xs ys (omega arith))

  pub drop-append : (k : ℕ) (xs ys : List A) → length xs ≡ k → drop k (xs ++ ys) ≡ ys
  drop-append zero [] ys h = refl
  drop-append zero (x ∷ xs) ys h = absurd (omega arith)
  drop-append (suc k) [] ys h = absurd (omega arith)
  drop-append (suc k) (x ∷ xs) ys h = drop-append k xs ys (omega arith)

  -- `iter().filter(..)`, with a Boolean test.
  abbrev pub filter_by : (A → Bool) → List A → List A
  filter_by p [] = []
  filter_by p (x ∷ xs) = elim (p x) [ true ↦ x ∷ filter_by p xs | false ↦ filter_by p xs ]

  -- `iter().all(..)`.
  abbrev pub all_by : (A → Bool) → List A → Bool
  all_by p [] = true
  all_by p (x ∷ xs) = p x && all_by p xs

  -- The predicate holds of every element.
  abbrev pub All {κ} : (A → Type κ) → List A → Type κ
  All P [] = Unit {κ}
  All P (x ∷ xs) = P x × All P xs

module _ {ℓ κ} {A : Type ℓ} (P : A → Type κ) where
  pub All-append : (xs ys : List A) → All P xs → All P ys → All P (xs ++ ys)
  All-append [] ys h k = k
  All-append (x ∷ xs) ys h k = (h.0, All-append xs ys h.1 k)

module _ {ℓ} {A : Type ℓ} (p : A → Bool) where
  pub filter_by_pos : (x : A) (xs : List A) → p x ≡ true → filter_by p (x ∷ xs) ≡ x ∷ filter_by p xs
  filter_by_pos x xs e = rw (e, filter_by)

  pub filter_by_neg : (x : A) (xs : List A) → p x ≡ false → filter_by p (x ∷ xs) ≡ filter_by p xs
  filter_by_neg x xs e = rw (e, filter_by)

  pub length-filter_by-le : (xs : List A) → length (filter_by p xs) ≤ length xs
  length-filter_by-le [] = omega arith
  length-filter_by-le (x ∷ xs) = ground (arith, length-filter_by-le xs)
