-- ===== src/Clevis/Main.antt =====
-- src/ogygia-clevis/src/main.rs and src/ogygia-clevis/src/clevis.rs: one run of the maintainer.
pub mod Verified
pub mod Settles
use ogygia_nix.Base.{
  ℕ, Bool, true, false, Option, none, some, List, [], ◌∷◌, ◌++◌, map, filter_by, all_by, length,
  if◌then◌else◌,
}
use ogygia_nix.Base.Text.{Text, codes, decimal, text_eq}
use ogygia_nix.Clevis.Config.{Pin, Spec, Config, contains}
use ogygia_nix.Json.{Value, number, string, array, object, Items, nil, cons, end, field}
use ogygia_nix.Clevis.Decision.{Reason, Decision, replace, keep, decide}
use ogygia_nix.Clevis.Blob
use ogygia_nix.Clevis.Blob.{Codec, bound_pins}
use ogygia_nix.Clevis.Probe.{Http, Reachable, probe_all, pins_of}
use ogygia_nix.Clevis.Disk.{
  File, Disk, Failure, reading, not_text, no_client, clevis_failed, no_output, not_the_secret,
  not_the_pins, in_blob, out_of_fuel, Result, done, failed, Run, Action, ◌>>=◌, ◌>>◌, lift, pure,
  or_failed,
}
use ogygia_nix.Clevis.Swap
use ogygia_nix.Clevis.Swap.{Os}

-- The standard output of a finished `clevis`, and whether it exited with success.
pub record Output : Type 0 where
  pub success : Bool
  pub stdout : List ℕ

-- What a run uses from outside: the libraries of `Codec`, `str::from_utf8`, the printing of JSON,
-- building the HTTP client, its answers, the `clevis` command with its arguments and standard input
-- (`none` if it could not be run or did not finish in time), and the operating system.
pub record Outside : Type 0 where
  pub codec : Codec
  pub utf8 : List ℕ → Option Text
  pub to_string : Value → Text
  pub has_client : Bool
  pub http : Http
  pub clevis : List Text → List ℕ → Option Output
  pub os : Os

abbrev pub ensure : Bool → Failure → Result (Unit {0})
ensure true e = done tt
ensure false e = failed e

abbrev is_empty : List ℕ → Bool
is_empty [] = true
is_empty (_ ∷ _) = false

unfoldable pub check_output : Option Output → Result (List ℕ)
check_output none = failed clevis_failed
check_output (some output) =
    if output.success
    then (if is_empty output.stdout then failed no_output else done output.stdout)
    else failed clevis_failed

-- `clevis::run`.
unfoldable pub run_clevis : Outside → List Text → List ℕ → Result (List ℕ)
unfolding check_output
run_clevis out args stdin = check_output (out.clevis args stdin)

unfoldable pub decrypt : Outside → List ℕ → Result (List ℕ)
unfolding run_clevis
decrypt out jwe = run_clevis out (codes "decrypt" ∷ []) jwe

unfoldable pub encrypt_sss : Outside → Value → List ℕ → Result (List ℕ)
unfolding run_clevis
encrypt_sss out config plaintext =
    run_clevis out (codes "encrypt" ∷ codes "sss" ∷ out.to_string config ∷ []) plaintext

abbrev pub of_blob {ℓ} : {A : Type ℓ} → Blob.Result A → Result A
of_blob (Blob.ok a) = done a
of_blob (Blob.err e) = failed (in_blob e)
of_blob Blob.stuck = failed out_of_fuel

abbrev pub pins_in_text : Outside → Option Text → Result (List Pin)
pins_in_text out none = failed not_text
pins_in_text out (some jwe) = of_blob (bound_pins out.codec jwe)

-- `str::from_utf8` and then `bound_pins`.
unfoldable pub read_pins : Outside → List ℕ → Result (List Pin)
read_pins out jwe = pins_in_text out (out.utf8 jwe)

tang_items : List Reachable → Items
tang_items [] = nil
tang_items (r ∷ rs) =
    cons
      (object (
        field (codes "url") (string r.pin.url)
          (field (codes "thp") (string r.pin.thp) (field (codes "adv") r.adv end))))
      (tang_items rs)

-- The configuration of the new blob.
unfoldable pub sss_config : ℕ → List Reachable → Value
unfolding tang_items
sss_config t tang = object (
    field (codes "t") (number (decimal t))
      (field (codes "pins") (object (field (codes "tang") (array (tang_items tang)) end)) end))

pub data Report : Type 0 where
  kept : Reason → Report
  now_bound : (count previously : ℕ) → Report

unfoldable pub content_of : (refused : Bool) → Option File → Result (List ℕ)
content_of true file = failed reading
content_of false none = failed reading
content_of false (some file) = done file.content

-- `fs::read`.
unfoldable pub read_file : Os → Text → Action (List ℕ)
unfolding content_of
read_file os path d = record {
  result = content_of (os.refuses reading) (d path);
  during = [];
  disk = d;
}

-- The `match` on the decision and what follows a replacement.
unfoldable pub carry_out :
    Outside → Config → (current_jwe : List ℕ) → List Reachable → Decision → Action Report
carry_out out config current_jwe reachable (keep reason) = pure (kept reason)
carry_out out config current_jwe reachable (replace pins previously) = do
  secret ← lift (decrypt out current_jwe)
  new_jwe ← lift (
      encrypt_sss out (sss_config config.spec.t (filter_by (λ r. contains pins r.pin) reachable))
        secret)
  roundtrip ← lift (decrypt out new_jwe)
  lift (ensure (text_eq roundtrip secret) not_the_secret)
  bound ← lift (read_pins out new_jwe)
  lift (ensure (all_by (contains bound) pins) not_the_pins)
  Swap.replace out.os config.secret_file new_jwe
  pure (now_bound (length pins) previously)

unfoldable pub run : Outside → Config → Action Report
run out config = do
  current_jwe ← read_file out.os config.secret_file
  current ← lift (read_pins out current_jwe)
  lift (ensure out.has_client no_client)
  let reachable = probe_all out.codec out.http config.spec.pins.tang
  carry_out out config current_jwe reachable (decide config.spec current (pins_of reachable))
