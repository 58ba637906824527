-- ===== src/Nixutils/Narinfo/Lines.antt =====
-- src/ogygia-nixutils/src/narinfo.rs: one line that was written is read as its key and value.
use ogygia_nix.Base.{
  ℕ, ◌≡◌, ◌≢◌, refl, sym, ◌∙◌, ap, subst, Option, none, some, List, [], ◌∷◌, ◌++◌, All, ==_refl,
}
use ogygia_nix.Base.Text.{Text, codes, trim, trim_start, is_whitespace}
use ogygia_nix.Base.Text.Trim.{IsValue, IsWord, word-IsValue, IsValue-behind, trim-value}
use ogygia_nix.Base.Split.{Lacks, split, split-part, split-shape}
use ogygia_nix.Nixutils.{◌>>=◌, split_once, Encoding}
use ogygia_nix.Nixutils.Narinfo.{
  Fields, is_blank, lines_of, add_field, add_parts, read_trimmed, read_line, read_lines, unlines,
  line_of,
}
use mathlib.Core.List.{append_assoc}

pub split_once-part : (c : ℕ) (a b : Text) → Lacks c a → split_once c (a ++ (c ∷ b)) ≡ some (a, b)
unfolding split_once
split_once-part c [] b h = rw (==_refl c) refl
split_once-part c (x ∷ a) b h = rw (h.0, split_once-part c a b h.1) refl

trim-space : (v : Text) → IsValue v → trim (b' ' ∷ v) ≡ v
trim-space v h =
    let same : trim (b' ' ∷ v) ≡ trim v = unfold trim trim_start is_whitespace in refl in
    same ∙ trim-value v h

line-IsValue : (key value : Text) → IsWord key → IsValue value → IsValue (line_of key value)
unfolding line_of codes
line-IsValue [] value word h = absurd (word.filled refl)
line-IsValue (k ∷ ks) value word h =
    subst IsValue (append_assoc (k ∷ ks) (b':' ∷ b' ' ∷ []) value)
      (IsValue-behind k (ks ++ (b':' ∷ b' ' ∷ [])) value word.clean.0 h)

module _ (base64 : Encoding) where
  read_trimmed-filled :
      (v : Text) (f : Fields)
      → IsValue v
      → read_trimmed base64 v f ≡ add_parts base64 (split_once b':' v) f
  unfolding read_trimmed
  read_trimmed-filled [] f h = absurd (nil≢cons h.begins)
    where
      nil≢cons : {c : ℕ} {s : Text} → [] ≢ c ∷ s
      nil≢cons e = cc
  read_trimmed-filled (c ∷ v) f h = refl

  -- The line of a key and a value is read as these two.
  pub read_line-line_of :
      (key value : Text) (f : Fields)
      → IsWord key
      → Lacks b':' key
      → IsValue value
      → read_line base64 (line_of key value) f ≡ add_field base64 key value f
  unfolding read_line add_parts
  read_line-line_of key value f word lacks h =
      let line = line-IsValue key value word h in
      let parts : split_once b':' (line_of key value) ≡ some (key, b' ' ∷ value) =
        unfold line_of codes in split_once-part b':' key (b' ' ∷ value) lacks in
      ap (λ t. read_trimmed base64 t f) (trim-value (line_of key value) line)
      ∙ read_trimmed-filled (line_of key value) f line
      ∙ ap (λ p. add_parts base64 p f) parts
      ∙ ap (λ k. add_field base64 k (trim (b' ' ∷ value)) f)
          (trim-value key (word-IsValue key word))
      ∙ ap (λ v. add_field base64 key v f) (trim-space value h)

  -- Lines are read one after the other.
  pub read_lines-append :
      (xs ys : List Text) (f : Fields)
      → read_lines base64 (xs ++ ys) f ≡ (read_lines base64 xs f >>= λ f'. read_lines base64 ys f')
  unfolding read_lines
  read_lines-append [] ys f = refl
  read_lines-append (x ∷ xs) ys f = by_first (read_line base64 x f) (read_lines-append xs ys)
    where
      by_first :
          (o : Option Fields)
          → ((f' : Fields)
              → read_lines base64 (xs ++ ys) f'
                ≡ (read_lines base64 xs f' >>= λ f''. read_lines base64 ys f''))
          → (o >>= λ f'. read_lines base64 (xs ++ ys) f')
            ≡ ((o >>= λ f'. read_lines base64 xs f') >>= λ f''. read_lines base64 ys f'')
      by_first none k = refl
      by_first (some f') k = k f'

-- What is written line by line is read as these lines.
pub lines_of-unlines :
    (ls : List Text) → All (Lacks b'\n') ls → lines_of (split b'\n' (unlines ls)) ≡ ls
unfolding unlines lines_of
lines_of-unlines [] h = unfold split is_blank in refl
lines_of-unlines (l ∷ ls) h =
    let shape = split-shape b'\n' (unlines ls) in
    ap lines_of (split-part b'\n' l (unlines ls) h.0)
    ∙ ap (λ t. lines_of (l ∷ t)) shape.2
    ∙ ap (λ t. l ∷ lines_of t) (sym shape.2)
    ∙ ap (λ t. l ∷ t) (lines_of-unlines ls h.1)
