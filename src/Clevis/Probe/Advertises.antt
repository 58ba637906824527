-- ===== src/Clevis/Probe/Advertises.antt =====
-- src/ogygia-clevis/src/probe.rs: what is known of a pin that is reported as reachable.
use ogygia_nix.Base.{
  ℕ, Bool, true, false, Option, none, some, List, [], ◌∷◌, ◌≡◌, refl, All, if◌then◌else◌,
  Bool-cases, inl, inr, subst, sym, ap, ◌++◌, ◌∙◌, arith,
}
use ogygia_nix.Base.Text.{Text, codes, text_eq, text_eq→eq}
use ogygia_nix.Clevis.Config.{Pin}
use ogygia_nix.Json.{Value, Items, get_str, get_array}
use ogygia_nix.Clevis.Blob.Verifies.{InItems, IsForVerification, Listed, filter_verify-keeps}
use ogygia_nix.Clevis.Probe.Address.{IsBase, adv_url-IsBase}
use ogygia_nix.Clevis.Blob.{
  Codec, Error, parsing, decoding, no_payload, unreachable, not_advertised, Result, ok, err, stuck,
  ◌>>=◌, or_fail, verify_keys, filter_verify, thumbprint, no_keys,
}
use ogygia_nix.Clevis.Probe.{
  Http, Reachable, adv_url, thumbprints, has_text, check_adv, probe, keep_reachable, probe_all,
}

-- The server at the pin's address, its URL without the slashes at the end, has answered with this
-- document, whose payload is a key set in which some key, whose operations list "verify", has the
-- pinned thumbprint.
pub record Advertises (codec : Codec) (http : Http) (pin : Pin) (adv : Value) : Type 0 where
  pub base : Text
  pub body : Text
  pub payload : Text
  pub raw : List ℕ
  pub jwks : Value
  pub keys : Items
  pub key : Value
  pub is_base : IsBase base pin.url
  pub answers : http (base ++ (codes "/adv/" ++ pin.thp)) ≡ some body
  pub document : codec.parse (codec.bytes body) ≡ some adv
  pub signed : get_str (codes "payload") adv ≡ some payload
  pub decoded : codec.decode payload ≡ some raw
  pub parsed : codec.parse raw ≡ some jwks
  pub key_set : get_array (codes "keys") jwks ≡ some keys
  pub listed : InItems key keys
  pub verifies : IsForVerification key
  pub pinned : thumbprint codec key ≡ ok pin.thp

bind-ok {ℓ κ} :
    {A : Type ℓ} {B : Type κ} (m : Result A) (f : A → Result B) (b : B)
    → (m >>= f) ≡ ok b
    → (a : A) × (m ≡ ok a) × (f a ≡ ok b)
unfolding ◌>>=◌
bind-ok (ok a) f b h = (a, refl, h)
bind-ok (err e) f b h = absurd cc
bind-ok stuck f b h = absurd cc

or_fail-some {ℓ} : {A : Type ℓ} (o : Option A) (e : Error) (a : A) → or_fail o e ≡ ok a → o ≡ some a
unfolding or_fail
or_fail-some none e a h = cc
or_fail-some (some b) e a h = cc

module _ (codec : Codec) (thp : Text) where
  -- A thumbprint that is found is one of a key.
  thumbprints-key :
      (keys : List Value) (prints : List Text)
      → thumbprints codec keys ≡ ok prints
      → has_text prints thp ≡ true
      → (key : Value) × Listed key keys × (thumbprint codec key ≡ ok thp)
  unfolding thumbprints has_text
  thumbprints-key [] prints e h =
      let empty : prints ≡ [] = cc in
      let none_found : has_text [] thp ≡ true = subst (λ p. has_text p thp ≡ true) empty h in
      absurd cc
  thumbprints-key (key ∷ keys) prints e h =
      let (t, first, e1) = bind-ok (thumbprint codec key) _ prints e in
      let (rest, others, e2) = bind-ok (thumbprints codec keys) _ prints e1 in
      let whole : t ∷ rest ≡ prints = cc e2 in
      let found : has_text (t ∷ rest) thp ≡ true =
        subst (λ p. has_text p thp ≡ true) (sym whole) h in
      elim (Bool-cases (text_eq t thp)) [
        | inl same ↦ (key, inl refl, first ∙ ap ok (text_eq→eq t thp same))
        | inr n ↦
            let later = thumbprints-key keys rest others (ground arith) in
            (later.0, inr later.1, later.2)
      ]

  verify_keys-items :
      (jwks : Value) (keys : List Value)
      → verify_keys jwks ≡ ok keys
      → (items : Items) × (get_array (codes "keys") jwks ≡ some items)
        × (filter_verify items ≡ keys)
  unfolding verify_keys
  verify_keys-items jwks keys e =
      let (items, found, e1) = bind-ok (or_fail (get_array (codes "keys") jwks) no_keys) _ keys e in
      (items, or_fail-some _ _ items found, cc e1)

if-ok {ℓ} :
    {A : Type ℓ} (b : Bool) (v w : A) (e : Error)
    → (if b then ok v else err e) ≡ ok w
    → (b ≡ true) × (v ≡ w)
if-ok true v w e h = (refl, cc)
if-ok false v w e h = absurd cc

module _ (codec : Codec) (http : Http) where
  probe-Advertises :
      (pin : Pin) (adv : Value) → probe codec http pin ≡ ok adv → Advertises codec http pin adv
  unfolding probe check_adv
  probe-Advertises pin adv h =
      let (body, b, h1) = bind-ok (or_fail (http (adv_url pin)) unreachable) _ adv h in
      let (jws, j, h2) = bind-ok (or_fail (codec.parse (codec.bytes body)) parsing) _ adv h1 in
      let (payload, p, h3) =
        bind-ok (or_fail (get_str (codes "payload") jws) no_payload) _ adv h2 in
      let (raw, r, h4) = bind-ok (or_fail (codec.decode payload) decoding) _ adv h3 in
      let (jwks, w, h5) = bind-ok (or_fail (codec.parse raw) parsing) _ adv h4 in
      let (keys, k, h6) = bind-ok (verify_keys jwks) _ adv h5 in
      let (advertised, t, h7) = bind-ok (thumbprints codec keys) _ adv h6 in
      let (listed, same) = if-ok (has_text advertised pin.thp) jws adv not_advertised h7 in
      let (items, set, kept) = verify_keys-items codec pin.thp jwks keys k in
      let (key, in_keys, print) = thumbprints-key codec pin.thp keys advertised t listed in
      let found = filter_verify-keeps items key (subst (Listed key) (sym kept) in_keys) in
      let (base, is_base, at_base) = adv_url-IsBase pin in
      record {
        base = base;
        body = body;
        payload = payload;
        raw = raw;
        jwks = jwks;
        keys = items;
        key = key;
        is_base = is_base;
        answers = ap http (sym at_base) ∙ or_fail-some _ _ body b;
        document =
            subst (λ v. codec.parse (codec.bytes body) ≡ some v) same (or_fail-some _ _ jws j);
        signed =
            subst (λ v. get_str (codes "payload") v ≡ some payload) same
              (or_fail-some _ _ payload p);
        decoded = or_fail-some _ _ raw r;
        parsed = or_fail-some _ _ jwks w;
        key_set = set;
        listed = found.0;
        verifies = found.1;
        pinned = print;
      }

  keep_reachable-All :
      (pin : Pin) (r : Result Value) (rest : List Reachable)
      → ((adv : Value) → r ≡ ok adv → Advertises codec http pin adv)
      → All (λ (x : Reachable). Advertises codec http x.pin x.adv) rest
      → All (λ (x : Reachable). Advertises codec http x.pin x.adv) (keep_reachable pin r rest)
  unfolding keep_reachable
  keep_reachable-All pin (ok adv) rest h k = (h adv refl, k)
  keep_reachable-All pin (err e) rest h k = k
  keep_reachable-All pin stuck rest h k = k

  -- Each pin that is reported as reachable comes with a document that was answered at its URL, less
  -- the slashes at the end, with "/adv/" and its thumbprint behind, and whose payload is a key set
  -- in which a key whose operations list "verify" has the pinned thumbprint.
  pub probe_all-Advertises :
      (pins : List Pin)
      → All (λ (x : Reachable). Advertises codec http x.pin x.adv) (probe_all codec http pins)
  unfolding probe_all
  probe_all-Advertises [] = tt
  probe_all-Advertises (pin ∷ pins) =
      keep_reachable-All pin (probe codec http pin) (probe_all codec http pins)
        (probe-Advertises pin) (probe_all-Advertises pins)
