-- ===== src/Clevis/Blob.antt =====
-- src/ogygia-clevis/src/blob.rs: the Tang pins that a blob is bound to. The JWEs inside a header are
-- read on fuel, since they are nested only through their encoding.
pub mod Total
pub mod Verifies
use ogygia_nix.Base.{
  ℕ, zero, suc, ◌+◌, Bool, true, false, ◌||◌, Option, none, some, List, [], ◌∷◌, ◌++◌,
  if◌then◌else◌, length, ◌==◌,
}
use ogygia_nix.Base.Text.{Text, codes, text_eq, trim}
use ogygia_nix.Clevis.Config.{Pin}
use ogygia_nix.Json.{
  Value, string, object, Items, nil, cons, end, field, get, get_str, get_array, as_str,
}

pub data Error : Type 0 where
  not_compact decoding parsing no_clevis no_tang no_url no_advertisement : Error
  no_inner_jwes inner_not_text unsupported_pin no_pin no_keys not_ec no_member : Error
  no_payload unreachable not_advertised : Error  -- of src/ogygia-clevis/src/probe.rs

-- `stuck` is no result of the program: the fuel ran out.
pub data Result {ℓ} (A : Type ℓ) : Type ℓ where
  ok : A → Result A
  err : Error → Result A
  stuck : Result A

infixl 5 ◌>>=◌
unfoldable pub ◌>>=◌ {ℓ κ} : {A : Type ℓ} {B : Type κ} → Result A → (A → Result B) → Result B
ok a >>= f = f a
err e >>= f = err e
stuck >>= f = stuck

unfoldable pub or_fail {ℓ} : {A : Type ℓ} → Option A → Error → Result A
or_fail none e = err e
or_fail (some a) e = ok a

-- The base64, JSON and SHA-256 libraries: a text's bytes, decoding URL-safe base64 without padding, parsing JSON,
-- and the encoded digest of a value's compact serialization.
pub record Codec : Type 0 where
  pub bytes : Text → List ℕ
  pub decode : Text → Option (List ℕ)
  pub parse : List ℕ → Option Value
  pub digest : Value → Text

-- `split_once('.')`, of which the first part is used.
unfoldable pub before_dot : Text → Option Text
before_dot [] = none
before_dot (c ∷ s) =
    let rest = before_dot s in
    if c == b'.' then some [] else elim rest [ none ↦ none | some t ↦ some (c ∷ t) ]

unfoldable pub protected_header : Codec → Text → Result Value
unfolding before_dot
protected_header codec jwe = do
  header ← or_fail (before_dot (trim jwe)) not_compact
  raw ← or_fail (codec.decode header) decoding
  or_fail (codec.parse raw) parsing

-- Whether some operation of a key is "verify".
unfoldable pub has_verify : Items → Bool
has_verify nil = false
has_verify (cons (string s) ops) = text_eq s (codes "verify") || has_verify ops
has_verify (cons _ ops) = has_verify ops

unfoldable pub is_verify_key : Value → Bool
unfolding has_verify
is_verify_key key = elim (get_array (codes "key_ops") key) [
  | none ↦ false
  | some ops ↦ has_verify ops
]

unfoldable pub filter_verify : Items → List Value
filter_verify nil = []
filter_verify (cons key keys) =
    let rest = filter_verify keys in if is_verify_key key then key ∷ rest else rest

unfoldable pub verify_keys : Value → Result (List Value)
unfolding filter_verify
verify_keys jwks = do
  keys ← or_fail (get_array (codes "keys") jwks) no_keys
  ok (filter_verify keys)

-- The members that RFC 7638 hashes, in order.
canonical : (crv x y : Text) → Value
canonical crv x y = object (
    field (codes "crv") (string crv) (
      field (codes "kty") (string (codes "EC"))
        (field (codes "x") (string x) (field (codes "y") (string y) end))))

unfoldable pub is_ec : Option Text → Bool
is_ec none = false
is_ec (some kty) = text_eq kty (codes "EC")

unfoldable pub thumbprint : Codec → Value → Result Text
unfolding canonical is_ec
thumbprint codec jwk =
    if is_ec (get_str (codes "kty") jwk)
    then (do
      crv ← or_fail (get_str (codes "crv") jwk) no_member
      x ← or_fail (get_str (codes "x") jwk) no_member
      y ← or_fail (get_str (codes "y") jwk) no_member
      ok (codec.digest (canonical crv x y)))
    else err not_ec

-- One pin for each key, in order.
unfoldable pub pins_of_keys : Codec → Text → List Value → Result (List Pin)
pins_of_keys codec url [] = ok []
pins_of_keys codec url (key ∷ keys) = do
  thp ← thumbprint codec key
  pins ← pins_of_keys codec url keys
  ok (record { url = url; thp = thp } ∷ pins)

unfoldable pub collect_tang : Codec → Value → Result (List Pin)
collect_tang codec clevis = do
  tang ← or_fail (get (codes "tang") clevis) no_tang
  url ← or_fail (get_str (codes "url") tang) no_url
  adv ← or_fail (get (codes "adv") tang) no_advertisement
  keys ← verify_keys adv
  pins_of_keys codec url keys

-- The loop over the inner JWEs, where `inner` collects the pins of one header.
unfoldable pub collect_jwes : Codec → (Value → Result (List Pin)) → Items → Result (List Pin)
collect_jwes codec inner nil = ok []
collect_jwes codec inner (cons jwe jwes) = do
  text ← or_fail (as_str jwe) inner_not_text
  header ← protected_header codec text
  pins ← inner header
  rest ← collect_jwes codec inner jwes
  ok (pins ++ rest)

unfoldable pub get_jwes : Value → Option Items
get_jwes clevis = elim (get (codes "sss") clevis) [
  | none ↦ none
  | some sss ↦ get_array (codes "jwe") sss
]

unfoldable pub collect_sss : Codec → (Value → Result (List Pin)) → Value → Result (List Pin)
unfolding get_jwes
collect_sss codec inner clevis = do
  jwes ← or_fail (get_jwes clevis) no_inner_jwes
  collect_jwes codec inner jwes

-- The `match` on the kind of pin.
unfoldable pub collect_pin :
    Codec → (Value → Result (List Pin)) → Value → Option Text → Result (List Pin)
unfolding collect_sss
collect_pin codec inner clevis none = err no_pin
collect_pin codec inner clevis (some pin) =
    if text_eq pin (codes "tang")
    then collect_tang codec clevis
    else (if text_eq pin (codes "sss") then collect_sss codec inner clevis else err unsupported_pin)

unfoldable pub collect : Codec → ℕ → Value → Result (List Pin)
collect codec zero header = stuck
collect codec (suc fuel) header = do
  clevis ← or_fail (get (codes "clevis") header) no_clevis
  collect_pin codec (collect codec fuel) clevis (get_str (codes "pin") clevis)

-- Each level of nesting is a shorter text, so the length of the JWE bounds their number.
unfoldable pub bound_pins : Codec → Text → Result (List Pin)
bound_pins codec jwe = do
  header ← protected_header codec jwe
  collect codec (suc (length jwe)) header
