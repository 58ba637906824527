-- ===== src/Updated/Steps.antt =====
-- Rules for the steps of a cycle: what holds of the commands that a chain of steps runs, and of the
-- canary record that it leaves.
use ogygia_nix.Base.{Bool, true, false, List, ◌++◌, ◌≡◌, refl, ◌∙◌, All, All-append, if◌then◌else◌}
use ogygia_nix.Updated.Result.{Result, ok, err, panic}
use ogygia_nix.Updated.World.{World, Call, Ran, M, then_run, ◌>>=◌, pure, lift}

module _ {ℓ} {A : Type ℓ} (P : Call → Type 0) where
  -- Every command of the step satisfies the predicate.
  pub record Emits (m : M A) : Type ℓ where
    pub emits : (w : World) → All P (m w).calls

module _ {ℓ κ} {A : Type ℓ} {B : Type κ} (P : Call → Type 0) where
  then_run-All :
      (r : Result A) (w : World) (calls : List Call) (f : A → M B)
      → All P calls
      → ((a : A) → r ≡ ok a → All P (f a w).calls)
      → All P (then_run r w calls f).calls
  then_run-All (ok a) w calls f h k = All-append P calls (f a w).calls h (k a refl)
  then_run-All (err e) w calls f h k = h
  then_run-All panic w calls f h k = h

  -- The rule for `>>=`, with what the first step returned.
  pub bind-All :
      (m : M A) (f : A → M B) (w : World)
      → All P (m w).calls
      → ((a : A) → (m w).result ≡ ok a → All P (f a (m w).world).calls)
      → All P ((m >>= f) w).calls
  unfolding ◌>>=◌
  bind-All m f w h k = then_run-All (m w).result (m w).world (m w).calls f h k

module _ {P : Call → Type 0} where
  pub bind-Emits {ℓ κ} :
      {A : Type ℓ} {B : Type κ} (m : M A) (f : A → M B)
      → Emits P m
      → ((a : A) → Emits P (f a))
      → Emits P (m >>= f)
  bind-Emits m f h k = record {
    emits = λ w. bind-All P m f w (h.emits w) (λ a _. (k a).emits (m w).world);
  }

  pub lift-Emits {ℓ} : {A : Type ℓ} (r : Result A) → Emits P (lift r)
  unfolding lift
  lift-Emits r = record { emits = λ w. tt }

  pub pure-Emits {ℓ} : {A : Type ℓ} (a : A) → Emits P (pure a)
  unfolding pure
  pure-Emits a = record { emits = λ w. tt }

  pub if-Emits {ℓ} :
      {A : Type ℓ} (b : Bool) (m n : M A) → Emits P m → Emits P n → Emits P (if b then m else n)
  if-Emits true m n h k = h
  if-Emits false m n h k = k

  -- The same, where the second branch may use that the test failed.
  pub else-Emits {ℓ} :
      {A : Type ℓ} (b : Bool) (m n : M A)
      → Emits P m
      → (b ≡ false → Emits P n)
      → Emits P (if b then m else n)
  else-Emits true m n h k = h
  else-Emits false m n h k = k refl

-- The step leaves the canary record as it was.
pub record Keeps {ℓ} {A : Type ℓ} (m : M A) : Type ℓ where
  pub keeps : (w : World) → (m w).world.canary ≡ w.canary

then_run-canary {ℓ κ} :
    {A : Type ℓ} {B : Type κ} (r : Result A) (w : World) (calls : List Call) (f : A → M B)
    → ((a : A) → Keeps (f a))
    → (then_run r w calls f).world.canary ≡ w.canary
then_run-canary (ok a) w calls f k = (k a).keeps w
then_run-canary (err e) w calls f k = refl
then_run-canary panic w calls f k = refl

pub bind-Keeps {ℓ κ} :
    {A : Type ℓ} {B : Type κ} (m : M A) (f : A → M B)
    → Keeps m
    → ((a : A) → Keeps (f a))
    → Keeps (m >>= f)
unfolding ◌>>=◌
bind-Keeps m f h k = record {
  keeps = λ w. then_run-canary (m w).result (m w).world (m w).calls f k ∙ h.keeps w;
}

pub lift-Keeps {ℓ} : {A : Type ℓ} (r : Result A) → Keeps (lift r)
unfolding lift
lift-Keeps r = record { keeps = λ w. refl }

pub pure-Keeps {ℓ} : {A : Type ℓ} (a : A) → Keeps (pure a)
unfolding pure
pure-Keeps a = record { keeps = λ w. refl }

pub if-Keeps {ℓ} :
    {A : Type ℓ} (b : Bool) (m n : M A) → Keeps m → Keeps n → Keeps (if b then m else n)
if-Keeps true m n h k = h
if-Keeps false m n h k = k

-- Inversion of a chain that returned a value.
module _ {ℓ κ} {A : Type ℓ} {B : Type κ} where
  abbrev Chained : Result A → World → List Call → (A → M B) → B → Ran B → Type (ℓ ⊔ κ)
  Chained r w calls f b ran =
      (a : A) × (r ≡ ok a)
      × ((f a w).result ≡ ok b)
      × (ran.world ≡ (f a w).world)
      × (ran.calls ≡ calls ++ (f a w).calls)

  then_run-ok :
      (r : Result A) (w : World) (calls : List Call) (f : A → M B) (b : B)
      → (then_run r w calls f).result ≡ ok b
      → Chained r w calls f b (then_run r w calls f)
  then_run-ok (ok a) w calls f b h = (a, refl, h, refl, refl)
  then_run-ok (err e) w calls f b h = cc
  then_run-ok panic w calls f b h = cc

  pub bind-ok :
      (m : M A) (f : A → M B) (w : World) (b : B)
      → ((m >>= f) w).result ≡ ok b
      → Chained (m w).result (m w).world (m w).calls f b ((m >>= f) w)
  unfolding ◌>>=◌
  bind-ok m f w b h = then_run-ok (m w).result (m w).world (m w).calls f b h

-- A step that only answers is its answer.
pub lift-ok {ℓ κ} :
    {A : Type ℓ} {B : Type κ} (r : Result A) (a : A) (f : A → M B) (w : World)
    → r ≡ ok a
    → (lift r >>= f) w ≡ f a w
unfolding ◌>>=◌ lift
lift-ok r a f w e = rw e

-- What a chain that returned a value leaves, by what its second step leaves.
module _ {ℓ κ} {A : Type ℓ} {B : Type κ} (Q : World → Type 0) (b : B) where
  then_run-leaves :
      (r : Result A) (w : World) (calls : List Call) (f : A → M B)
      → (then_run r w calls f).result ≡ ok b
      → ((a : A) → r ≡ ok a → (f a w).result ≡ ok b → Q (f a w).world)
      → Q (then_run r w calls f).world
  then_run-leaves (ok a) w calls f h k = k a refl h
  then_run-leaves (err e) w calls f h k = cc
  then_run-leaves panic w calls f h k = cc

  pub bind-leaves :
      (m : M A) (f : A → M B) (w : World)
      → ((m >>= f) w).result ≡ ok b
      → ((a : A)
          → (m w).result ≡ ok a
          → (f a (m w).world).result ≡ ok b
          → Q (f a (m w).world).world)
      → Q ((m >>= f) w).world
  unfolding ◌>>=◌
  bind-leaves m f w h k = then_run-leaves (m w).result (m w).world (m w).calls f h k

-- What follows a step that returned a value runs in the world that the step left.
pub bind-world {ℓ κ} :
    {A : Type ℓ} {B : Type κ} (m : M A) (f : A → M B) (a : A) (w : World)
    → (m w).result ≡ ok a
    → ((m >>= f) w).world ≡ (f a (m w).world).world
unfolding ◌>>=◌
bind-world m f a w e = rw (e, then_run)
