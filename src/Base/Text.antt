-- ===== src/Base/Text.antt =====
-- Text as the list of its code points, with the parts of Rust's `str`, `Path` and `format!` that
-- the sources use.
pub mod Decimal
pub mod Trim
use Prim.Native.Char.{code}
use Prim.Native.String.{String}
use ogygia_nix.Base.{
  ℕ, zero, suc, ◌+◌, ◌/◌, ◌%◌, ◌≡◌, refl, ◌↔◌, Bool, true, false, ◌&&◌, ◌||◌, Option, none, some,
  List, [], ◌∷◌, ◌++◌, arith, leb, ltb, ◌==◌, if◌then◌else◌,
}
use mathlib.Core.List.{reverse}

abbrev pub Text : Type 0
Text = List ℕ

-- The code points of a literal.
unfoldable pub codes : String → Text
codes String.[] = []
codes (String.◌∷◌ c s) = code c ∷ codes s

unfoldable pub text_eq : Text → Text → Bool
text_eq [] [] = true
text_eq [] (_ ∷ _) = false
text_eq (_ ∷ _) [] = false
text_eq (a ∷ s) (b ∷ t) = a == b && text_eq s t

pub text_eq→eq : (s t : Text) → text_eq s t ≡ true → s ≡ t
unfolding text_eq
text_eq→eq [] [] h = refl
text_eq→eq [] (_ ∷ _) h = cc
text_eq→eq (_ ∷ _) [] h = cc
text_eq→eq (a ∷ s) (b ∷ t) h = ground (arith, text_eq→eq s t)

pub text_eq_refl : (s : Text) → text_eq s s ≡ true
unfolding text_eq
text_eq_refl [] = refl
text_eq_refl (a ∷ s) = ground (arith, text_eq_refl s)

pub text_eq_iff : (s t : Text) → (text_eq s t ≡ true) ↔ (s ≡ t)
text_eq_iff s t = (text_eq→eq s t, λ e. rw e (text_eq_refl t))

unfoldable pub starts_with : Text → Text → Bool
starts_with [] s = true
starts_with (_ ∷ _) [] = false
starts_with (p ∷ ps) (c ∷ s) = p == c && starts_with ps s

-- `strip_prefix`.
unfoldable pub strip_prefix : Text → Text → Option Text
strip_prefix [] s = some s
strip_prefix (_ ∷ _) [] = none
strip_prefix (p ∷ ps) (c ∷ s) = let rest = strip_prefix ps s in if p == c then rest else none

unfoldable pub last? : Text → Option ℕ
last? [] = none
last? (c ∷ []) = some c
last? (c ∷ d ∷ s) = last? (d ∷ s)

-- `char::is_whitespace`: the Unicode property White_Space.
unfoldable pub is_whitespace : ℕ → Bool
is_whitespace c =
    (leb 9 c && leb c 13)
    || c == 32
    || c == 0x85
    || c == 0xa0
    || c == 0x1680
    || (leb 0x2000 c && leb c 0x200a)
    || c == 0x2028
    || c == 0x2029
    || c == 0x202f
    || c == 0x205f
    || c == 0x3000

unfoldable pub trim_start : Text → Text
trim_start [] = []
trim_start (c ∷ s) = elim (is_whitespace c) [ true ↦ trim_start s | false ↦ c ∷ s ]

unfoldable pub trim_end : Text → Text
unfolding trim_start
trim_end s = reverse (trim_start (reverse s))

-- `str::trim`.
unfoldable pub trim : Text → Text
unfolding trim_start trim_end
trim s = trim_end (trim_start s)

-- `Path::join`: an absolute second path replaces the first.
unfoldable pub path_join : Text → Text → Text
unfolding starts_with last?
path_join dir p =
    if starts_with (b'/' ∷ []) p
    then p
    else elim (last? dir) [ none ↦ p | some c ↦ if c == b'/' then dir ++ p else dir ++ (b'/' ∷ p) ]

-- Decimal digits, least significant first; each round divides by ten, so `n + 1` rounds suffice.
digits_rev : ℕ → ℕ → Text
digits_rev zero n = []
digits_rev (suc fuel) n =
    let rest = digits_rev fuel (n / 10) in if ltb n 10 then (48 + n) ∷ [] else (48 + n % 10) ∷ rest

unfoldable pub decimal : ℕ → Text
unfolding digits_rev
decimal n = reverse (digits_rev (suc n) n)

decimal_test : decimal 1500 ≡ codes "1500"
unfolding decimal codes
decimal_test = refl

trim_test : trim (codes " ab c\n") ≡ codes "ab c"
unfolding trim is_whitespace codes
trim_test = refl

path_join_test : path_join (codes "/a") (codes "b") ≡ codes "/a/b"
unfolding path_join codes
path_join_test = refl
