-- ===== src/Clevis/Blob/Total.antt =====
-- src/ogygia-clevis/src/blob.rs: reading the pins of a blob always ends.
use ogygia_nix.Base.{
  ℕ, zero, suc, ◌≤◌, ◌<◌, Bool, true, false, Option, none, some, List, [], ◌∷◌, ◌≡◌, ◌≢◌, refl,
  arith, length, Option-cases, inl, inr, if◌then◌else◌,
}
use ogygia_nix.Base.Text.{Text, codes, text_eq}
use ogygia_nix.Clevis.Config.{Pin}
use ogygia_nix.Json.{
  Value, string, array, object, Items, nil, cons, Fields, end, field, get, get_field, get_str,
  get_array, as_str, as_array, text_size, text_size_items, text_size_fields,
}
use ogygia_nix.Clevis.Blob.{
  Codec, Error, Result, ok, err, stuck, ◌>>=◌, or_fail, protected_header, thumbprint, verify_keys,
  pins_of_keys, collect_tang, collect_jwes, is_ec, get_jwes, collect_pin, collect, bound_pins,
}

-- Base64 and JSON do not grow: the texts of a parsed header are together shorter than the JWE whose
-- header it is.
abbrev pub Shrinks : Codec → Type 0
Shrinks codec =
    (jwe : Text) (header : Value)
    → protected_header codec jwe ≡ ok header
    → text_size header < length jwe

record Ends {ℓ} {A : Type ℓ} (m : Result A) : Type ℓ where
  ends : m ≢ stuck

ok-Ends {ℓ} : {A : Type ℓ} (a : A) → Ends (ok a)
ok-Ends a = record { ends = λ h. cc }

err-Ends {ℓ} : (A : Type ℓ) (e : Error) → Ends {A = A} (err e)
err-Ends A e = record { ends = λ h. cc }

bind-Ends {ℓ κ} :
    {A : Type ℓ} {B : Type κ} (m : Result A) (f : A → Result B)
    → Ends m
    → ((a : A) → m ≡ ok a → Ends (f a))
    → Ends (m >>= f)
unfolding ◌>>=◌
bind-Ends (ok a) f h k = k a refl
bind-Ends {B = B} (err e) f h k = err-Ends B e
bind-Ends stuck f h k = absurd (h.ends refl)

or_fail-Ends {ℓ} : {A : Type ℓ} (o : Option A) (e : Error) → Ends (or_fail o e)
unfolding or_fail
or_fail-Ends {A = A} none e = err-Ends A e
or_fail-Ends (some a) e = ok-Ends a

or_fail-ok {ℓ} : {A : Type ℓ} (o : Option A) (e : Error) (a : A) → or_fail o e ≡ ok a → o ≡ some a
unfolding or_fail
or_fail-ok none e a h = cc
or_fail-ok (some b) e a h = cc

if-Ends {ℓ} : {A : Type ℓ} (b : Bool) (m n : Result A) → Ends m → Ends n → Ends (if b then m else n)
if-Ends true m n h k = h
if-Ends false m n h k = k

get_field-size :
    (key : Text) (fs : Fields) (v : Value)
    → get_field key fs ≡ some v
    → text_size v ≤ text_size_fields fs
unfolding get_field text_size
get_field-size key end v h = cc
get_field-size key (field k w fs) v h = ground (arith, get_field-size key fs v)

get-size : (key : Text) (u v : Value) → get key u ≡ some v → text_size v ≤ text_size u
unfolding get text_size
get-size key (object fs) v h = get_field-size key fs v h
get-size key _ v h = cc

as_array-size : (u : Value) (is : Items) → as_array u ≡ some is → text_size_items is ≤ text_size u
unfolding as_array text_size
as_array-size (array js) is h = ground arith
as_array-size _ is h = cc

get_array-size :
    (key : Text) (u : Value) (is : Items)
    → get_array key u ≡ some is
    → text_size_items is ≤ text_size u
unfolding get_array as_array
get_array-size key u is h = elim (Option-cases (get key u)) [
  | inl e ↦ absurd (ground arith)
  | inr (w, e) ↦ omega (arith, get-size key u w e, as_array-size w is (ground arith))
]

get_jwes-size : (u : Value) (is : Items) → get_jwes u ≡ some is → text_size_items is ≤ text_size u
unfolding get_jwes
get_jwes-size u is h = elim (Option-cases (get (codes "sss") u)) [
  | inl e ↦ absurd (ground arith)
  | inr (w, e) ↦
      omega (arith, get-size (codes "sss") u w e, get_array-size (codes "jwe") w is (ground arith))
]

as_str-size : (u : Value) (s : Text) → as_str u ≡ some s → length s ≤ text_size u
unfolding as_str text_size
as_str-size (string t) s h = ground arith
as_str-size _ s h = cc

protected_header-Ends : (codec : Codec) (jwe : Text) → Ends (protected_header codec jwe)
unfolding protected_header
protected_header-Ends codec jwe =
    bind-Ends _ _ (or_fail-Ends _ _)
      λ header _. bind-Ends _ _ (or_fail-Ends _ _) λ raw _. or_fail-Ends _ _

thumbprint-Ends : (codec : Codec) (key : Value) → Ends (thumbprint codec key)
unfolding thumbprint is_ec
thumbprint-Ends codec key =
    if-Ends (is_ec (get_str (codes "kty") key)) _ _
      (bind-Ends _ _ (or_fail-Ends _ _) λ crv _.
        bind-Ends _ _ (or_fail-Ends _ _) λ x _. bind-Ends _ _ (or_fail-Ends _ _) λ y _. ok-Ends _)
      (err-Ends _ _)

pins_of_keys-Ends :
    (codec : Codec) (url : Text) (keys : List Value) → Ends (pins_of_keys codec url keys)
unfolding pins_of_keys
pins_of_keys-Ends codec url [] = ok-Ends _
pins_of_keys-Ends codec url (key ∷ keys) =
    bind-Ends _ _ (thumbprint-Ends codec key)
      λ thp _. bind-Ends _ _ (pins_of_keys-Ends codec url keys) λ pins _. ok-Ends _

collect_tang-Ends : (codec : Codec) (clevis : Value) → Ends (collect_tang codec clevis)
unfolding collect_tang verify_keys
collect_tang-Ends codec clevis = bind-Ends _ _ (or_fail-Ends _ _) λ tang _.
    bind-Ends _ _ (or_fail-Ends _ _) λ url _. bind-Ends _ _ (or_fail-Ends _ _) λ adv _.
      bind-Ends _ _ (bind-Ends _ _ (or_fail-Ends _ _) λ ks _. ok-Ends _)
        λ keys _. pins_of_keys-Ends codec url keys

module _ (codec : Codec) (shrinks : Shrinks codec) where
  collect_jwes-Ends :
      (inner : Value → Result (List Pin)) (n : ℕ) (jwes : Items)
      → ((h : Value) → text_size h < n → Ends (inner h))
      → text_size_items jwes ≤ n
      → Ends (collect_jwes codec inner jwes)
  unfolding collect_jwes text_size
  collect_jwes-Ends inner n nil ends le = ok-Ends _
  collect_jwes-Ends inner n (cons jwe jwes) ends le = bind-Ends _ _ (or_fail-Ends _ _) λ text t.
      bind-Ends _ _ (protected_header-Ends codec text) λ header h.
        bind-Ends _ _
          (ends header
            (omega (arith, shrinks text header h, as_str-size jwe text (or_fail-ok _ _ text t))))
          λ pins _.
            bind-Ends _ _ (collect_jwes-Ends inner n jwes ends (omega arith)) λ rest _. ok-Ends _

  collect_pin-Ends :
      (inner : Value → Result (List Pin)) (n : ℕ) (clevis : Value) (pin : Option Text)
      → ((h : Value) → text_size h < n → Ends (inner h))
      → text_size clevis ≤ n
      → Ends (collect_pin codec inner clevis pin)
  unfolding collect_pin
  collect_pin-Ends inner n clevis none ends le = err-Ends _ _
  collect_pin-Ends inner n clevis (some pin) ends le =
      if-Ends (text_eq pin (codes "tang")) _ _ (collect_tang-Ends codec clevis) (
        if-Ends (text_eq pin (codes "sss")) _ _
          (bind-Ends _ _ (or_fail-Ends _ _) λ jwes j.
            collect_jwes-Ends inner n jwes ends
              (omega (arith, get_jwes-size clevis jwes (or_fail-ok _ _ jwes j))))
          (err-Ends _ _))

  collect-Ends :
      (fuel : ℕ) (header : Value) → text_size header < fuel → Ends (collect codec fuel header)
  unfolding collect
  collect-Ends zero header h = absurd (omega arith)
  collect-Ends (suc fuel) header h = bind-Ends _ _ (or_fail-Ends _ _) λ clevis c.
      collect_pin-Ends (collect codec fuel) fuel clevis _ (collect-Ends fuel)
        (omega (arith, get-size (codes "clevis") header clevis (or_fail-ok _ _ clevis c)))

-- With libraries that do not grow what they decode, reading the pins of a blob returns a list of
-- pins or an error for every text: the fuel is enough.
pub bound_pins-ends : (codec : Codec) (jwe : Text) → Shrinks codec → bound_pins codec jwe ≢ stuck
unfolding bound_pins
bound_pins-ends codec jwe shrinks h =
    Ends.ends
      (bind-Ends _ _ (protected_header-Ends codec jwe) λ header e.
        collect-Ends codec shrinks (suc (length jwe)) header (omega (arith, shrinks jwe header e)))
      h
