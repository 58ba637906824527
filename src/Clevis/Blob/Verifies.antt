-- ===== src/Clevis/Blob/Verifies.antt =====
-- src/ogygia-clevis/src/blob.rs: the keys of a key set that are for verification.
use ogygia_nix.Base.{
  Bool, true, false, Option, none, some, List, [], ◌∷◌, ◌≡◌, refl, ap, if◌then◌else◌, ◌⊎◌, inl, inr,
  Bool-cases, arith, sym, ◌∙◌,
}
use ogygia_nix.Base.Text.{codes, text_eq, text_eq→eq}
use ogygia_nix.Json.{
  Value, null, boolean, number, string, array, object, Items, nil, cons, get_array,
}
use ogygia_nix.Clevis.Blob.{has_verify, is_verify_key, filter_verify}

-- The value stands in the array.
abbrev pub InItems : Value → Items → Type 0
InItems v nil = ⊥
InItems v (cons w items) = (w ≡ v) ⊎ InItems v items

-- The key's operations list "verify".
abbrev pub IsForVerification : Value → Type 0
IsForVerification key =
    (ops : Items) × (get_array (codes "key_ops") key ≡ some ops)
    × InItems (string (codes "verify")) ops

-- The value stands in the list.
abbrev pub Listed : Value → List Value → Type 0
Listed v [] = ⊥
Listed v (w ∷ ws) = (w ≡ v) ⊎ Listed v ws

has_verify-InItems : (ops : Items) → has_verify ops ≡ true → InItems (string (codes "verify")) ops
unfolding has_verify
has_verify-InItems nil h = cc
has_verify-InItems (cons (string s) ops) h = elim (Bool-cases (text_eq s (codes "verify"))) [
  | inl e ↦ inl (ap string (text_eq→eq s (codes "verify") e))
  | inr n ↦ inr (has_verify-InItems ops (ground arith))
]
has_verify-InItems (cons null ops) h = inr (has_verify-InItems ops h)
has_verify-InItems (cons (boolean _) ops) h = inr (has_verify-InItems ops h)
has_verify-InItems (cons (number _) ops) h = inr (has_verify-InItems ops h)
has_verify-InItems (cons (array _) ops) h = inr (has_verify-InItems ops h)
has_verify-InItems (cons (object _) ops) h = inr (has_verify-InItems ops h)

key-IsForVerification : (key : Value) → is_verify_key key ≡ true → IsForVerification key
unfolding is_verify_key
key-IsForVerification key h = of_ops (get_array (codes "key_ops") key) refl h
  where
    of_ops :
        (o : Option Items)
        → get_array (codes "key_ops") key ≡ o
        → elim o [ none ↦ false | some ops ↦ has_verify ops ] ≡ true
        → IsForVerification key
    of_ops none e h = absurd cc
    of_ops (some ops) e h = (ops, e, has_verify-InItems ops h)

-- A key that is kept stands in the key set and is for verification.
pub filter_verify-keeps :
    (keys : Items) (key : Value)
    → Listed key (filter_verify keys)
    → InItems key keys × IsForVerification key
unfolding filter_verify
filter_verify-keeps nil key h = absurd h
filter_verify-keeps (cons k keys) key h =
    of_test (is_verify_key k) refl h (filter_verify-keeps keys key)
  where
    of_test :
        (b : Bool)
        → is_verify_key k ≡ b
        → Listed key (if b then k ∷ filter_verify keys else filter_verify keys)
        → (Listed key (filter_verify keys) → InItems key keys × IsForVerification key)
        → InItems key (cons k keys) × IsForVerification key
    of_test true e (inl same) ih =
        (inl same, key-IsForVerification key (ap is_verify_key (sym same) ∙ e))
    of_test true e (inr later) ih = let r = ih later in (inr r.0, r.1)
    of_test false e later ih = let r = ih later in (inr r.0, r.1)
