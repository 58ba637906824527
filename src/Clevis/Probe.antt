-- ===== src/Clevis/Probe.antt =====
-- src/ogygia-clevis/src/probe.rs: which pins of the spec answer with the pinned signing key.
pub mod Address
pub mod Advertises
use ogygia_nix.Base.{Bool, false, ◌||◌, Option, List, [], ◌∷◌, ◌++◌, ◌==◌, if◌then◌else◌, map}
use ogygia_nix.Base.Text.{Text, codes, text_eq}
use ogygia_nix.Clevis.Config.{Pin}
use ogygia_nix.Json.{Value, get_str}
use ogygia_nix.Clevis.Blob.{
  Codec, parsing, decoding, no_payload, unreachable, not_advertised, Result, ok, err, ◌>>=◌,
  or_fail, verify_keys, thumbprint,
}
use mathlib.Core.List.{reverse}

-- The HTTP client: the body of a successful answer to a GET of this address.
abbrev pub Http : Type 0
Http = Text → Option Text

pub record Reachable : Type 0 where
  pub pin : Pin
  pub adv : Value

unfoldable pub trim_slashes : Text → Text
trim_slashes [] = []
trim_slashes (c ∷ s) = let rest = trim_slashes s in if c == b'/' then rest else c ∷ s

-- `trim_end_matches('/')`.
unfoldable pub trim_end_slashes : Text → Text
unfolding trim_slashes
trim_end_slashes s = reverse (trim_slashes (reverse s))

-- The address of a pin's advertisement.
unfoldable pub adv_url : Pin → Text
unfolding trim_end_slashes
adv_url pin = trim_end_slashes pin.url ++ (codes "/adv/" ++ pin.thp)

-- `collect::<Result<Vec<_>>>` of the thumbprints.
unfoldable pub thumbprints : Codec → List Value → Result (List Text)
thumbprints codec [] = ok []
thumbprints codec (key ∷ keys) = do
  thp ← thumbprint codec key
  rest ← thumbprints codec keys
  ok (thp ∷ rest)

unfoldable pub has_text : List Text → Text → Bool
has_text [] s = false
has_text (t ∷ ts) s = text_eq t s || has_text ts s

-- The checks of an advertisement's body.
unfoldable pub check_adv : Codec → Pin → Text → Result Value
check_adv codec pin body = do
  jws ← or_fail (codec.parse (codec.bytes body)) parsing
  payload ← or_fail (get_str (codes "payload") jws) no_payload
  raw ← or_fail (codec.decode payload) decoding
  jwks ← or_fail (codec.parse raw) parsing
  keys ← verify_keys jwks
  advertised ← thumbprints codec keys
  (if has_text advertised pin.thp then ok jws else err not_advertised)

unfoldable pub probe : Codec → Http → Pin → Result Value
unfolding check_adv adv_url
probe codec http pin = do body ← or_fail (http (adv_url pin)) unreachable; check_adv codec pin body

unfoldable pub keep_reachable : Pin → Result Value → List Reachable → List Reachable
keep_reachable pin (ok adv) rest = record { pin = pin; adv = adv } ∷ rest
keep_reachable pin _ rest = rest

unfoldable pub probe_all : Codec → Http → List Pin → List Reachable
unfolding keep_reachable
probe_all codec http [] = []
probe_all codec http (pin ∷ pins) =
    keep_reachable pin (probe codec http pin) (probe_all codec http pins)

abbrev pub pins_of : List Reachable → List Pin
pins_of reachable = map (λ r. r.pin) reachable
