-- ===== src/Json.antt =====
-- `serde_json::Value`, as src/ogygia-clevis and src/ogygia-macos-nebulad read it.
use ogygia_nix.Base.{ℕ, ◌+◌, Bool, Option, none, some, if◌then◌else◌, length}
use ogygia_nix.Base.Text.{Text, text_eq}

mutual
  pub data Value : Type 0 where
    null : Value
    boolean : Bool → Value
    number : Text → Value
    string : Text → Value
    array : Items → Value
    object : Fields → Value

  pub data Items : Type 0 where
    nil : Items
    cons : Value → Items → Items

  -- An object has each key once: a later duplicate has replaced an earlier one in the parser.
  pub data Fields : Type 0 where
    end : Fields
    field : Text → Value → Fields → Fields

unfoldable pub get_field : Text → Fields → Option Value
get_field key end = none
get_field key (field k v rest) =
    let other = get_field key rest in if text_eq k key then some v else other

-- `serde_json::Value`, as src/ogygia-clevis and src/ogygia-macos-nebulad read it.
unfoldable pub get : Text → Value → Option Value
get key (object fields) = get_field key fields
get key _ = none

unfoldable pub as_str : Value → Option Text
as_str (string s) = some s
as_str _ = none

unfoldable pub as_array : Value → Option Items
as_array (array items) = some items
as_array _ = none

-- `serde_json::Value`, as src/ogygia-clevis and src/ogygia-macos-nebulad read it.
unfoldable pub get_str : Text → Value → Option Text
unfolding get as_str
get_str key v = elim (get key v) [ none ↦ none | some w ↦ as_str w ]

unfoldable pub get_array : Text → Value → Option Items
unfolding get as_array
get_array key v = elim (get key v) [ none ↦ none | some w ↦ as_array w ]

-- How many characters the texts of a value have.
unfoldable mutual
  pub text_size : Value → ℕ
  text_size null = 0
  text_size (boolean _) = 0
  text_size (number _) = 0
  text_size (string s) = length s
  text_size (array items) = text_size_items items
  text_size (object fields) = text_size_fields fields

  pub text_size_items : Items → ℕ
  text_size_items nil = 0
  text_size_items (cons v items) = text_size v + text_size_items items

  pub text_size_fields : Fields → ℕ
  text_size_fields end = 0
  text_size_fields (field _ v fields) = text_size v + text_size_fields fields
