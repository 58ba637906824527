-- ===== src/Clevis/Decision/Wins.antt =====
-- src/ogygia-clevis/src/decision.rs: when the candidate wins, what it is bound to, and that the
-- decision is stable once it is carried out.
use ogygia_nix.Base.{
  ℕ, ◌≤◌, ◌<◌, Bool, true, false, List, [], ◌∷◌, ◌≡◌, refl, sym, ◌∙◌, ◌↔◌, inl, inr, arith, length,
  filter_by, filter_by_pos, filter_by_neg, length-filter_by-le, ap, Bool-cases, subst,
}
use ogygia_nix.Clevis.Config.{Pin, Spec, contains}
use ogygia_nix.Clevis.Config.Valid.{In, contains_iff}
use ogygia_nix.Clevis.Decision.{replace, keep, no_improvement, decide}

clash : {b : Bool} → b ≡ false → b ≡ true → ⊥
clash e f = cc

-- The reachable pins of the spec, in the spec's order.
abbrev pub candidate : Spec → List Pin → List Pin
candidate spec reachable = filter_by (contains reachable) spec.pins.tang

-- How many reachable pins of the spec a blob with these pins is bound to.
abbrev pub score : Spec → List Pin → List Pin → ℕ
score spec reachable blob = length (filter_by (contains blob) (candidate spec reachable))

-- Some reachable pin of the spec is missing from the blob.
abbrev pub Misses : Spec → List Pin → List Pin → Type 0
Misses spec reachable blob =
    (pin : Pin) × In pin spec.pins.tang × In pin reachable × ¬ (In pin blob)

module _ (p : Pin → Bool) where
  filter_by-In :
      (xs : List Pin) (pin : Pin) → In pin (filter_by p xs) ↔ (In pin xs × (p pin ≡ true))
  filter_by-In [] pin = (λ h. absurd h, λ h. absurd h.0)
  filter_by-In (x ∷ xs) pin = elim (Bool-cases (p x)) [
    | inl e ↦ rw (filter_by_pos p x xs e) (
      λ h. elim h [
        | inl same ↦ (inl same, subst (λ q. p q ≡ true) same e)
        | inr i ↦ let (j, t) = (filter_by-In xs pin).0 i in (inr j, t)
      ],
      λ h. elim h.0 [ inl same ↦ inl same | inr i ↦ inr ((filter_by-In xs pin).1 (i, h.1)) ],
    )
    | inr n ↦ rw (filter_by_neg p x xs n) (
      λ h. let (j, t) = (filter_by-In xs pin).0 h in (inr j, t),
      λ h. elim h.0 [
        | inl same ↦ absurd (clash n (subst (λ q. p q ≡ true) (sym same) h.1))
        | inr i ↦ (filter_by-In xs pin).1 (i, h.1)
      ],
    )
  ]

  -- A filter loses something exactly if its test fails somewhere.
  filter-lt :
      (xs : List Pin)
      → (length (filter_by p xs) < length xs) ↔ ((pin : Pin) × In pin xs × (p pin ≡ false))
  filter-lt [] = (λ h. absurd (omega arith), λ (pin, i, _). absurd i)
  filter-lt (x ∷ xs) = elim (Bool-cases (p x)) [
    | inl e ↦ rw (filter_by_pos p x xs e) (
      λ h. let (pin, i, n) = (filter-lt xs).0 (omega arith) in (pin, inr i, n),
      λ (pin, i, n). elim i [
        | inl same ↦ absurd (clash n (subst (λ q. p q ≡ true) same e))
        | inr j ↦ omega (arith, (filter-lt xs).1 (pin, j, n))
      ],
    )
    | inr n ↦
        rw (filter_by_neg p x xs n)
          (λ h. (x, inl refl, n), λ _. omega (arith, length-filter_by-le p xs))
  ]

  filter-all : (xs : List Pin) → ((pin : Pin) → In pin xs → p pin ≡ true) → filter_by p xs ≡ xs
  filter-all [] h = refl
  filter-all (x ∷ xs) h =
      filter_by_pos p x xs (h x (inl refl)) ∙ ap (◌∷◌ x) (filter-all xs (λ pin i. h pin (inr i)))

candidate-In :
    (spec : Spec) (reachable : List Pin) (pin : Pin)
    → In pin (candidate spec reachable) ↔ (In pin spec.pins.tang × In pin reachable)
candidate-In spec reachable pin =
    let (to, from) = filter_by-In (contains reachable) spec.pins.tang pin in
    (
      λ h. let (i, c) = to h in (i, (contains_iff reachable pin).0 c),
      λ h. from (h.0, (contains_iff reachable pin).1 h.1),
    )

score-lt_iff :
    (spec : Spec) (reachable blob : List Pin)
    → (score spec reachable blob < length (candidate spec reachable)) ↔ Misses spec reachable blob
score-lt_iff spec reachable blob =
    let (to, from) = filter-lt (contains blob) (candidate spec reachable) in
    (
      λ h.
          let (pin, i, n) = to h in
          let (s, r) = (candidate-In spec reachable pin).0 i in
          (pin, s, r, λ b. absurd (clash n ((contains_iff blob pin).1 b))),
      λ (pin, s, r, out). from (
        pin,
        (candidate-In spec reachable pin).1 (s, r),
        ground (arith, λ (h : contains blob pin ≡ true). out ((contains_iff blob pin).0 h)),
      ),
    )

-- The blob is replaced exactly if it misses a reachable pin of the spec and at least the threshold
-- of the spec's pins is reachable; it is then bound to the reachable pins of the spec, in the spec's
-- order, and the decision reports how many of them the blob already covered.
pub decide-replace_iff :
    (spec : Spec) (current reachable pins : List Pin) (previously : ℕ)
    → (decide spec current reachable ≡ replace pins previously) ↔ (
        Misses spec reachable current
        × (spec.t ≤ length (candidate spec reachable))
        × (pins ≡ candidate spec reachable)
        × (previously ≡ score spec reachable current))
unfolding decide
decide-replace_iff spec current reachable pins previously =
    let (to, from) = score-lt_iff spec reachable current in
    (
      λ h. (to (ground arith), ground arith, ground arith, ground arith),
      λ (m, t, e, f). let less = from m in ground arith,
    )

filter-candidate :
    (spec : Spec) (reachable : List Pin)
    → filter_by (contains (candidate spec reachable)) (candidate spec reachable)
      ≡ candidate spec reachable
filter-candidate spec reachable =
    filter-all (contains (candidate spec reachable)) (candidate spec reachable)
      (λ pin i. (contains_iff (candidate spec reachable) pin).1 i)

-- The candidate covers all that can be covered.
score-candidate :
    (spec : Spec) (reachable : List Pin)
    → score spec reachable (candidate spec reachable) ≡ length (candidate spec reachable)
score-candidate spec reachable = ap length (filter-candidate spec reachable)

decide-candidate :
    (spec : Spec) (reachable : List Pin)
    → decide spec (candidate spec reachable) reachable
      ≡ keep
          (no_improvement (length (candidate spec reachable)) (length (candidate spec reachable)))
unfolding decide
decide-candidate spec reachable = ground (arith, score-candidate spec reachable)

-- A replacement covers strictly more reachable pins of the spec than the blob that it replaces, and
-- once it is in place the decision over the same spec and servers is to keep it.
pub decide-converges :
    (spec : Spec) (current reachable pins : List Pin) (previously : ℕ)
    → decide spec current reachable ≡ replace pins previously
    → (score spec reachable current < score spec reachable pins)
      × (decide spec pins reachable ≡ keep (no_improvement (length pins) (length pins)))
decide-converges spec current reachable pins previously h =
    let (misses, _, same, _) = (decide-replace_iff spec current reachable pins previously).0 h in
    rw same (
      rw (score-candidate spec reachable) ((score-lt_iff spec reachable current).1 misses),
      decide-candidate spec reachable,
    )

-- A blob that covers the pins of a replacement is kept.
pub decide-covered :
    (spec : Spec) (current reachable pins bound : List Pin) (previously : ℕ)
    → decide spec current reachable ≡ replace pins previously
    → ((pin : Pin) → In pin pins → In pin bound)
    → decide spec bound reachable ≡ keep (no_improvement (length pins) (length pins))
unfolding decide
decide-covered spec current reachable pins bound previously h covers =
    let (_, _, same, _) = (decide-replace_iff spec current reachable pins previously).0 h in
    rw same (
      ground (
        arith,
        ap length (
            filter-all (contains bound) (candidate spec reachable)
              (λ pin i. (contains_iff bound pin).1 (covers pin (subst (In pin) (sym same) i)))),
      ))
