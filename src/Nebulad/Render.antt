-- ===== src/Nebulad/Render.antt =====
-- src/ogygia-macos-nebulad/src/render.rs: from the evaluated settings to the file that Nebula reads.
use ogygia_nix.Base.{Option, none, some, [], ◌∷◌, ◌++◌, is_some, if◌then◌else◌}
use ogygia_nix.Base.Text.{Text, codes, text_eq}
use ogygia_nix.Json.{Value, string, object, Fields, end, field, get_field, get, as_str}
use ogygia_nix.Nebulad.{Result, ok, err}

-- serde_json; text stands for its UTF-8 bytes.
pub record Codec : Type 0 where
  pub to_vec_pretty : Value → Text
  pub from_slice : Text → Option Value

-- A new value for a key that the object has; the order of the keys is not kept track of.
unfoldable pub set_field : Text → Value → Fields → Fields
unfolding text_eq
set_field key v end = end
set_field key v (field k w rest) =
    let rest' = set_field key v rest in if text_eq k key then field k v rest else field k w rest'

-- The settings with the key path in their `pki` section.
unfoldable pub with_key : Text → Fields → Option Value → Result Value
unfolding set_field get_field codes
with_key key fields (some (object pki)) =
    if is_some (get_field (codes "key") pki)
    then err (codes "the evaluated settings carry a key; a device's key must stay on the device")
    else ok
        (object (set_field (codes "pki") (object (field (codes "key") (string key) pki)) fields))
with_key key fields _ = err (codes "the evaluated settings have no `pki` section")

unfoldable pub add_key : Text → Value → Result Value
unfolding with_key get_field codes
add_key key (object fields) =
    if is_some (get_field (codes "sshd") fields)
    then err (codes "the evaluated settings enable Nebula's sshd, which a device does not run")
    else with_key key fields (get_field (codes "pki") fields)
add_key key _ = err (codes "the evaluated settings have no `pki` section")

unfoldable pub render : Codec → Value → Text → Result Text
unfolding add_key
render codec settings key = elim (add_key key settings) [
  | err e ↦ err e
  | ok v ↦ ok (codec.to_vec_pretty v ++ (b'\n' ∷ []))
]

-- `value.get("pki")?.get("cert")?.as_str()`.
unfoldable pub cert_in : Value → Option Text
unfolding get as_str codes
cert_in v = elim (get (codes "pki") v) [
  | none ↦ none
  | some pki ↦ elim (get (codes "cert") pki) [ none ↦ none | some c ↦ as_str c ]
]

unfoldable pub certificate : Codec → Text → Option Text
unfolding cert_in
certificate codec config = elim (codec.from_slice config) [ none ↦ none | some v ↦ cert_in v ]
