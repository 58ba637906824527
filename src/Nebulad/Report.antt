-- ===== src/Nebulad/Report.antt =====
-- src/ogygia-macos-nebulad/src/report.rs: tool output as the menu bar shows it.
use ogygia_nix.Base.{
  ℕ, ◌≤◌, ◌≡◌, refl, Bool, true, false, Option, none, some, List, [], ◌∷◌, ◌++◌, length,
  length-append, length-take, take, ltb, if◌then◌else◌, arith,
}
use ogygia_nix.Base.Text.{Text, codes, starts_with, trim}
use ogygia_nix.Base.Split.{split}
use ogygia_nix.Nebulad.{Result, ok, err}

unfoldable pub max_error : ℕ
max_error = 2000

-- The rest from the last occurrence on.
unfoldable pub from_last : Text → Text → Option Text
unfolding starts_with
from_last needle [] = none
from_last needle (c ∷ s) = elim (from_last needle s) [
  | some t ↦ some t
  | none ↦ if starts_with needle (c ∷ s) then some (c ∷ s) else none
]

unfoldable pub cut : Text → Text
unfolding max_error codes
cut s = if ltb max_error (length s) then take max_error s ++ codes "…" else s

unfoldable pub nix_error : Text → Text
unfolding from_last cut trim codes
nix_error message = elim (from_last (codes "error:") message) [
  | some tail ↦ cut (trim tail)
  | none ↦ cut (trim message)
]

pub record CertInfo : Type 0 where
  pub address : Option Text
  pub not_after : ℕ

-- One printed certificate, as serde reads it.
pub record Details : Type 0 where
  pub networks : Option (List Text)
  pub not_after : ℕ

unfoldable pub first_part : List Text → Text → Text
first_part [] net = net
first_part (p ∷ _) net = p

unfoldable pub address_of : Option (List Text) → Option Text
unfolding first_part split
address_of (some (net ∷ _)) = some (first_part (split b'/' net) net)
address_of _ = none

-- `printed` is what serde makes of the output.
unfoldable pub cert_info : Option (List Details) → Result CertInfo
unfolding address_of codes
cert_info none = err (codes "unexpected nebula-cert print output")
cert_info (some []) = err (codes "nebula-cert printed no certificate")
cert_info (some (d ∷ _)) = ok (record { address = address_of d.networks; not_after = d.not_after })

cut-length : (s : Text) → length (cut s) ≤ 2001
unfolding cut max_error codes
cut-length s = of_test (ltb 2000 (length s)) refl
  where
    of_test :
        (b : Bool)
        → ltb 2000 (length s) ≡ b
        → length (if b then take 2000 s ++ codes "…" else s) ≤ 2001
    of_test true e = omega (arith, length-append (take 2000 s) (codes "…"), length-take 2000 s)
    of_test false e = ground arith

-- What the menu is given of a failed evaluation has at most 2001 characters, the mark of a cut
-- included.
pub nix_error-length : (message : Text) → length (nix_error message) ≤ 2001
unfolding nix_error max_error
nix_error-length message =
    elim (from_last (codes "error:") message)
      as (λ o.
        length (elim o as (λ _. Text) [ some tail ↦ cut (trim tail) | none ↦ cut (trim message) ])
        ≤ 2001) [ none ↦ cut-length (trim message) | some tail ↦ cut-length (trim tail) ]
