-- ===== src/Clevis/Disk/Rules.antt =====
-- Rules for the steps of src/ogygia-clevis/src/swap.rs: what holds in every state that a chain of
-- steps goes through.
use ogygia_nix.Base.{
  false, Option, List, [], ◌∷◌, ◌≡◌, ◌≢◌, inl, inr, refl, subst, Bool-cases, All, All-append,
  if◌then◌else◌,
}
use ogygia_nix.Base.Text.{Text, text_eq, text_eq→eq, text_eq_refl}
use ogygia_nix.Clevis.Disk.{
  File, Disk, put, Result, done, failed, Run, Action, then_run, ◌>>=◌, lift, pure,
}

pub put-same : (path : Text) (file : Option File) (d : Disk) → put path file d path ≡ file
unfolding put
put-same path file d = rw (text_eq_refl path, if◌then◌else◌)

text_eq-apart : (s t : Text) → s ≢ t → text_eq s t ≡ false
text_eq-apart s t n = elim (Bool-cases (text_eq s t)) [
  | inl e ↦ absurd (n (text_eq→eq s t e))
  | inr e ↦ e
]

pub put-other : (path q : Text) (file : Option File) (d : Disk) → q ≢ path → put path file d q ≡ d q
unfolding put
put-other path q file d n = rw (text_eq-apart q path n, if◌then◌else◌)

-- From a state with `P`, the step goes through states with `I` only, and if it succeeds, its value
-- and its last state are in `Q`.
pub record Ends {ℓ} {A : Type ℓ} (I : Disk → Type 0) (Q : A → Disk → Type 0) (r : Run A)
    : Type ℓ where
  pub during : All I r.during
  pub last : I r.disk
  pub success : (a : A) → r.result ≡ done a → Q a r.disk

pub record Safe {ℓ} {A : Type ℓ} (I P : Disk → Type 0) (m : Action A) (Q : A → Disk → Type 0)
    : Type ℓ where
  pub safe : (d : Disk) → P d → Ends I Q (m d)

done_inj {ℓ} : {A : Type ℓ} (a b : A) → done a ≡ done b → a ≡ b
done_inj a b e = cc

then_run-Ends {ℓ κ} :
    {A : Type ℓ} {B : Type κ} {I : Disk → Type 0} {Q : B → Disk → Type 0} (r : Result A)
    (during : List Disk) (d : Disk) (f : A → Action B)
    → All I during
    → I d
    → ((a : A) → r ≡ done a → Ends I Q (f a d))
    → Ends I Q (then_run r during d f)
then_run-Ends {I = I} (done a) during d f h i k =
    let s = k a refl in
    record {
      during = All-append I during (f a d).during h s.during;
      last = s.last;
      success = s.success;
    }
then_run-Ends (failed e) during d f h i k = record {
  during = h;
  last = i;
  success = λ a e. absurd cc;
}

pub bind-Safe {ℓ κ} :
    {A : Type ℓ} {B : Type κ} {I P : Disk → Type 0} {R : A → Disk → Type 0} {Q : B → Disk → Type 0}
    (m : Action A) (f : A → Action B)
    → Safe I P m R
    → ((a : A) → Safe I (R a) (f a) Q)
    → Safe I P (m >>= f) Q
unfolding ◌>>=◌
bind-Safe m f h k = record {
  safe = λ d p.
      let s = h.safe d p in
      then_run-Ends (m d).result (m d).during (m d).disk f s.during s.last
        (λ a e. (k a).safe (m d).disk (s.success a e));
}

-- The last step of a chain, without a change.
pub pure-Safe {ℓ} :
    {A : Type ℓ} {I P : Disk → Type 0} {Q : A → Disk → Type 0} (a : A)
    → ((d : Disk) → P d → I d)
    → ((d : Disk) → P d → Q a d)
    → Safe I P (pure a) Q
unfolding lift pure
pure-Safe {Q = Q} a h k = record {
  safe = λ d p. record {
    during = tt;
    last = h d p;
    success = λ b e. subst (λ c. Q c d) (done_inj a b e) (k d p);
  };
}

pub bind_lift-Safe {ℓ κ} :
    {A : Type ℓ} {B : Type κ} {I P : Disk → Type 0} {Q : B → Disk → Type 0} (r : Result A)
    (f : A → Action B)
    → ((d : Disk) → P d → I d)
    → ((a : A) → r ≡ done a → Safe I P (f a) Q)
    → Safe I P (lift r >>= f) Q
unfolding ◌>>=◌ lift
bind_lift-Safe r f h k = record {
  safe = λ d p. then_run-Ends r [] d f tt (h d p) (λ a e. (k a e).safe d p);
}

All-map : {I J : Disk → Type 0} (ds : List Disk) → ((d : Disk) → I d → J d) → All I ds → All J ds
All-map [] k h = tt
All-map (d ∷ ds) k h = (k d h.0, All-map ds k h.1)

-- A weaker condition on the states, and what holds of the last state afterwards.
pub Ends-weaken {ℓ} :
    {A : Type ℓ} {I J : Disk → Type 0} {Q : A → Disk → Type 0} (r : Run A)
    → ((d : Disk) → I d → J d)
    → Ends I Q r
    → Ends J (λ a d. J d × Q a d) r
Ends-weaken r k h = record {
  during = All-map r.during k h.during;
  last = k r.disk h.last;
  success = λ a e. (k r.disk h.last, h.success a e);
}

then_run-done {ℓ κ} :
    {A : Type ℓ} {B : Type κ} (r : Result A) (during : List Disk) (d : Disk) (f : A → Action B)
    (b : B)
    → (then_run r during d f).result ≡ done b
    → (a : A) × (r ≡ done a) × ((f a d).result ≡ done b)
then_run-done (done a) during d f b h = (a, refl, h)
then_run-done (failed e) during d f b h = absurd cc

-- A chain succeeds only if its first step does.
pub bind-done {ℓ κ} :
    {A : Type ℓ} {B : Type κ} (m : Action A) (f : A → Action B) (d : Disk) (b : B)
    → ((m >>= f) d).result ≡ done b
    → (a : A) × ((m d).result ≡ done a) × ((f a (m d).disk).result ≡ done b)
unfolding ◌>>=◌
bind-done m f d b h = then_run-done (m d).result (m d).during (m d).disk f b h

-- The result of a chain whose first step succeeds and changes nothing.
pub bind-result {ℓ κ} :
    {A : Type ℓ} {B : Type κ} (m : Action A) (f : A → Action B) (d : Disk) (a : A)
    → (m d).result ≡ done a
    → ((m >>= f) d).result ≡ (f a (m d).disk).result
unfolding ◌>>=◌
bind-result m f d a e = rw (e, then_run)
