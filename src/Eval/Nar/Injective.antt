-- ===== src/Eval/Nar/Injective.antt =====
-- Trees of files as the tokens of their Nix Archives: different trees have different archives.
use ogygia_nix.Base.{
  ℕ, zero, suc, ◌/◌, ◌%◌, ◌^◌, ◌<◌, ◌≡◌, refl, sym, ◌∙◌, ap, ◌≢◌, true, false, List, [], ◌∷◌, ◌++◌,
  length, All, arith,
}
use ogygia_nix.Base.Text.{Text, codes, text_eq, text_eq_iff}
use ogygia_nix.Eval.Nar.{to_le_bytes, padding}
use ogygia_nix.Eval.Nar.Tree.{
  Node, symlink, directory, regular, Entries, end, entry, executable_tokens, tokens, entry_tokens,
  str_bytes, strs,
}
use mathlib.Core.List.{append_assoc}

abbrev pub IsShort : Text → Type 0
IsShort s = length s < 256 ^ 8

append-injective :
    (xs ys r s : Text) → length xs ≡ length ys → xs ++ r ≡ ys ++ s → (xs ≡ ys) × (r ≡ s)
append-injective [] [] r s h e = (refl, e)
append-injective [] (_ ∷ _) r s h e = absurd (omega arith)
append-injective (_ ∷ _) [] r s h e = absurd (omega arith)
append-injective (x ∷ xs) (y ∷ ys) r s h e =
    let (same, rest) = append-injective xs ys r s (omega arith) cc in (cc, rest)

length-to_le_bytes : (k n : ℕ) → length (to_le_bytes k n) ≡ k
unfolding to_le_bytes
length-to_le_bytes zero n = refl
length-to_le_bytes (suc k) n = omega (arith, length-to_le_bytes k (n / 256))

to_le_bytes-injective :
    (k m n : ℕ) → m < 256 ^ k → n < 256 ^ k → to_le_bytes k m ≡ to_le_bytes k n → m ≡ n
unfolding to_le_bytes
to_le_bytes-injective zero m n hm hn e = omega arith
to_le_bytes-injective (suc k) m n hm hn e =
    let low : m % 256 ≡ n % 256 = cc in
    let high : m / 256 ≡ n / 256 =
      to_le_bytes-injective k (m / 256) (n / 256) (omega arith) (omega arith) cc in
    omega arith

str_bytes-injective :
    (x y r s : Text)
    → IsShort x
    → IsShort y
    → str_bytes x ++ r ≡ str_bytes y ++ s
    → (x ≡ y) × (r ≡ s)
unfolding str_bytes
str_bytes-injective x y r s hx hy e =
    let lx = to_le_bytes 8 (length x) in
    let ly = to_le_bytes 8 (length y) in
    let e' : lx ++ (x ++ (padding x ++ r)) ≡ ly ++ (y ++ (padding y ++ s)) =
      sym (regroup lx x (padding x) r) ∙ e ∙ regroup ly y (padding y) s in
    let sized : length lx ≡ length ly =
      omega (arith, length-to_le_bytes 8 (length x), length-to_le_bytes 8 (length y)) in
    let (sizes, body) = append-injective lx ly _ _ sized e' in
    let long : length x ≡ length y = to_le_bytes-injective 8 (length x) (length y) hx hy sizes in
    let (same, tail) = append-injective x y _ _ long body in
    (
      same,
      (append-injective (padding x) (padding y) r s (ap (λ t. length (padding t)) same) tail).1,
    )
  where
    regroup : (a b c d : Text) → (a ++ (b ++ c)) ++ d ≡ a ++ (b ++ (c ++ d))
    regroup a b c d = append_assoc a (b ++ c) d ∙ ap (λ t. a ++ t) (append_assoc b c d)

str_bytes-long : (s rest : Text) → str_bytes s ++ rest ≢ []
unfolding str_bytes to_le_bytes
str_bytes-long s rest e = cc

strs-injective : (xs ys : List Text) → All IsShort xs → All IsShort ys → strs xs ≡ strs ys → xs ≡ ys
unfolding strs
strs-injective [] [] hx hy e = refl
strs-injective [] (y ∷ ys) hx hy e = absurd (str_bytes-long y (strs ys) (sym e))
strs-injective (x ∷ xs) [] hx hy e = absurd (str_bytes-long x (strs xs) e)
strs-injective (x ∷ xs) (y ∷ ys) hx hy e =
    let (same, rest) = str_bytes-injective x y (strs xs) (strs ys) hx.0 hy.0 e in
    let more = strs-injective xs ys hx.1 hy.1 rest in cc

apart : (s t : Text) → text_eq s t ≡ false → s ≢ t
apart s t differ e = let same : text_eq s t ≡ true = (text_eq_iff s t).1 e in cc

symlink≢directory : codes "symlink" ≢ codes "directory"
symlink≢directory = apart (codes "symlink") (codes "directory") (unfold text_eq codes in refl)

symlink≢regular : codes "symlink" ≢ codes "regular"
symlink≢regular = apart (codes "symlink") (codes "regular") (unfold text_eq codes in refl)

directory≢regular : codes "directory" ≢ codes "regular"
directory≢regular = apart (codes "directory") (codes "regular") (unfold text_eq codes in refl)

executable≢contents : codes "executable" ≢ codes "contents"
executable≢contents = apart (codes "executable") (codes "contents") (unfold text_eq codes in refl)

entry≢end : codes "entry" ≢ codes ")"
entry≢end = apart (codes "entry") (codes ")") (unfold text_eq codes in refl)

mutual
  unfolding tokens entry_tokens executable_tokens

  tokens-injective : (a b : Node) (r s : List Text) → tokens a r ≡ tokens b s → (a ≡ b) × (r ≡ s)
  tokens-injective (symlink t) (symlink u) r s e = (cc, cc)
  tokens-injective (symlink t) (directory es) r s e = absurd (symlink≢directory cc)
  tokens-injective (symlink t) (regular x c) r s e = absurd (symlink≢regular cc)
  tokens-injective (directory es) (symlink u) r s e = absurd (symlink≢directory cc)
  tokens-injective (directory es) (directory fs) r s e =
      let (same, rest) = entry_tokens-injective es fs r s cc in (ap directory same, rest)
  tokens-injective (directory es) (regular x c) r s e = absurd (directory≢regular cc)
  tokens-injective (regular x c) (symlink u) r s e = absurd (symlink≢regular cc)
  tokens-injective (regular x c) (directory es) r s e = absurd (directory≢regular cc)
  tokens-injective (regular true c) (regular true d) r s e = (cc, cc)
  tokens-injective (regular true c) (regular false d) r s e = absurd (executable≢contents cc)
  tokens-injective (regular false c) (regular true d) r s e = absurd (executable≢contents cc)
  tokens-injective (regular false c) (regular false d) r s e = (cc, cc)

  entry_tokens-injective :
      (es fs : Entries) (r s : List Text)
      → entry_tokens es (codes ")" ∷ r) ≡ entry_tokens fs (codes ")" ∷ s)
      → (es ≡ fs) × (r ≡ s)
  entry_tokens-injective end end r s e = (refl, cc)
  entry_tokens-injective end (entry n a fs) r s e = absurd (entry≢end cc)
  entry_tokens-injective (entry n a es) end r s e = absurd (entry≢end cc)
  entry_tokens-injective (entry n a es) (entry m b fs) r s e =
      let (node, rest) =
        tokens-injective a b (codes ")" ∷ entry_tokens es (codes ")" ∷ r))
          (codes ")" ∷ entry_tokens fs (codes ")" ∷ s)) cc in
      let (more, tail) = entry_tokens-injective es fs r s cc in (cc, tail)

-- The strings of the archive of a tree.
unfoldable pub nar_strings : Node → List Text
unfolding tokens codes
nar_strings tree = codes "nix-archive-1" ∷ tokens tree []

pub nar-injective :
    (a b : Node)
    → All IsShort (nar_strings a)
    → All IsShort (nar_strings b)
    → strs (nar_strings a) ≡ strs (nar_strings b)
    → a ≡ b
unfolding nar_strings
nar-injective a b ha hb e =
    let same = strs-injective (nar_strings a) (nar_strings b) ha hb e in
    (tokens-injective a b [] [] cc).0
