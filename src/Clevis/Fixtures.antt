-- ===== src/Clevis/Fixtures.antt =====
-- Libraries, a server and a blob on which the statements about src/ogygia-clevis are exercised.
use ogygia_nix.Base.{
  ℕ, zero, suc, ◌≤◌, ◌<◌, true, false, Option, none, some, List, [], ◌∷◌, ◌++◌, ◌≡◌, ◌≢◌, refl,
  arith, ltb, ltb→lt, length, length-append, ◌==◌, if◌then◌else◌, Bool-cases, inl, inr, ap, sym,
  Option-cases,
}
use mathlib.Core.List.{reverse, reverse-cons}
use ogygia_nix.Base.Text.{Text, codes, text_eq, trim, trim_start, trim_end}
use ogygia_nix.Clevis.Config.{Pin, Spec, Config}
use ogygia_nix.Json.{Value, string, array, object, nil, cons, end, field, text_size}
use ogygia_nix.Clevis.Blob.{Codec, ◌>>=◌, or_fail, before_dot, protected_header}
use ogygia_nix.Clevis.Blob.Total.{Shrinks}
use ogygia_nix.Clevis.Disk.{File, Disk}
use ogygia_nix.Clevis.Swap.{Os}
use ogygia_nix.Clevis.Main.{Output, Outside}

abbrev sample_key : Value
sample_key = object (
    field (codes "key_ops") (array (cons (string (codes "verify")) nil)) (
      field (codes "kty") (string (codes "EC")) (
        field (codes "crv") (string [])
          (field (codes "x") (string []) (field (codes "y") (string []) end)))))

abbrev jwks : Value
jwks = object (field (codes "keys") (array (cons sample_key nil)) end)

abbrev no_keys : Value
no_keys = object (field (codes "keys") (array nil) end)

abbrev tang_header : Value → Value
tang_header adv = object (
    field (codes "clevis")
      (object (
        field (codes "pin") (string (codes "tang")) (
          field (codes "tang")
            (object (field (codes "url") (string (codes "u")) (field (codes "adv") adv end))) end)))
      end)

abbrev pad : ℕ → Text
pad zero = []
pad (suc n) = b'-' ∷ pad n

-- Texts of 42 characters, told apart by the first.
abbrev long : ℕ → Text
long c = c ∷ pad 41

-- The values that the letters o, n, a and k stand for: the old and the new header, an
-- advertisement and its payload.
abbrev value_of : ℕ → Option Value
value_of c =
    if c == b'o'
    then some (tang_header no_keys)
    else if c == b'n'
    then some (tang_header jwks)
    else if c == b'a'
    then some (object (field (codes "payload") (string (long b'k')) end))
    else if c == b'k'
    then some jwks
    else none

abbrev parse_long : List ℕ → Option Value
parse_long [] = none
parse_long (c ∷ s) = if ltb 41 (length (c ∷ s)) then value_of c else none

abbrev pub sample_codec : Codec
sample_codec = record {
  bytes = λ t. t;
  decode = λ t. some t;
  parse = parse_long;
  digest = λ _. codes "t";
}

value_of-size : (c : ℕ) (v : Value) → value_of c ≡ some v → text_size v ≤ 42
unfolding text_size codes
value_of-size c v h = ground arith

parse_long-size : (raw : List ℕ) (v : Value) → parse_long raw ≡ some v → text_size v ≤ length raw
parse_long-size [] v h = cc
parse_long-size (c ∷ s) v h = elim (Bool-cases (ltb 41 (length (c ∷ s)))) [
  | inl e ↦ omega (arith, value_of-size c v (ground arith), ltb→lt 41 (length (c ∷ s)) e)
  | inr e ↦ absurd (ground arith)
]

before_dot-length : (s t : Text) → before_dot s ≡ some t → length t < length s
unfolding before_dot
before_dot-length [] t h = cc
before_dot-length (c ∷ s) [] h = omega arith
before_dot-length (c ∷ s) (d ∷ t) h = ground (arith, before_dot-length s t)

trim_start-length : (s : Text) → length (trim_start s) ≤ length s
unfolding trim_start
trim_start-length [] = omega arith
trim_start-length (c ∷ s) = ground (arith, trim_start-length s)

reverse-length : (s : Text) → length (reverse s) ≡ length s
reverse-length [] = refl
reverse-length (c ∷ s) = omega (
  arith,
  ap (λ t. length t) (reverse-cons c s),
  length-append (reverse s) (c ∷ []),
  reverse-length s,
)

trim-length : (s : Text) → length (trim s) ≤ length s
unfolding trim trim_end
trim-length s =
    let t = trim_start s in
    omega (
      arith,
      trim_start-length s,
      reverse-length t,
      trim_start-length (reverse t),
      reverse-length (trim_start (reverse t)),
    )

pub sample-Shrinks : Shrinks sample_codec
unfolding protected_header or_fail ◌>>=◌
sample-Shrinks jwe header h = elim (Option-cases (before_dot (trim jwe))) [
  | inl e ↦ absurd (ground arith)
  | inr (text, e) ↦ elim (Option-cases (parse_long text)) [
    | inl f ↦ absurd (ground arith)
    | inr (v, f) ↦
        let same : v ≡ header = ground arith in
        rw (sym same) (
          omega
            (arith, parse_long-size text v f, before_dot-length (trim jwe) text e, trim-length jwe))
  ]
]

abbrev pub blob_of : ℕ → Text
blob_of c = long c ++ (b'.' ∷ [])

abbrev run_command : List Text → List ℕ → Option Output
run_command (_ ∷ []) stdin = some (record { success = true; stdout = codes "secret" })
run_command _ stdin = some (record { success = true; stdout = blob_of b'n' })

abbrev pub sample_os : Os
sample_os = record {
  parent = λ _. some (codes "/b");
  temp_name = λ _. codes "/b/tmp";
  refuses = λ _. false;
  stops_after = none;
  fresh_mode = 384;
}

abbrev pub sample_outside : Outside
sample_outside = record {
  codec = sample_codec;
  utf8 = λ bytes. some bytes;
  to_string = λ _. codes "config";
  has_client = true;
  http = λ _. some (long b'a');
  clevis = run_command;
  os = sample_os;
}

abbrev pub sample_pin : Pin
sample_pin = record { url = codes "u"; thp = codes "t" }

abbrev pub sample_spec : Spec
sample_spec = record { t = 1; pins = record { tang = sample_pin ∷ [] } }

abbrev pub sample_config : Config
sample_config = record { secret_file = codes "/b/x"; spec = sample_spec }

abbrev pub old_file : File
old_file = record { content = blob_of b'o'; mode = 256; synced = true }

abbrev pub sample_disk : Disk
sample_disk p = if text_eq p (codes "/b/x") then some old_file else none

pub apart : codes "/b/tmp" ≢ codes "/b/x"
unfolding codes
apart e = absurd cc
