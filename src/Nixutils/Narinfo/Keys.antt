-- ===== src/Nixutils/Narinfo/Keys.antt =====
-- src/ogygia-nixutils/src/narinfo.rs: the keys, and other text that is a word.
use ogygia_nix.Base.{ℕ, ◌≡◌, refl, Bool, true, false, not, ◌&&◌, [], ◌∷◌, ◌==◌, All}
use ogygia_nix.Base.Text.{Text, codes, text_eq, is_whitespace}
use ogygia_nix.Nixutils.Narinfo.{
  Compression, uncompressed, xz, bzip2, gzip, zstd, is_blank, show_compression,
}
use ogygia_nix.Base.Text.Trim.{IsWord}
use ogygia_nix.Nixutils.Narinfo.ReadLines.{IsKey, Clean}

-- A test that no character passes.
unfoldable no_character : (ℕ → Bool) → Text → Bool
no_character p [] = true
no_character p (c ∷ s) = not (p c) && no_character p s

no_character-All : (p : ℕ → Bool) (s : Text) → no_character p s ≡ true → All (λ c. p c ≡ false) s
unfolding no_character
no_character-All p [] h = _
no_character-All p (c ∷ s) h = of_first (p c) refl (no_character-All p s) h
  where
    of_first :
        (b : Bool)
        → p c ≡ b
        → (no_character p s ≡ true → All (λ x. p x ≡ false) s)
        → (not b && no_character p s) ≡ true
        → (p c ≡ false) × All (λ x. p x ≡ false) s
    of_first true e k h = cc
    of_first false e k h = (e, k h)

text-IsWord : (s : Text) → is_blank s ≡ false → no_character is_whitespace s ≡ true → IsWord s
unfolding is_blank
text-IsWord [] b h = cc
text-IsWord (c ∷ s) b h = record {
  filled = λ e. cc;
  clean = no_character-All is_whitespace (c ∷ s) h;
}

text-IsKey :
    (k : Text)
    → is_blank k ≡ false
    → no_character is_whitespace k ≡ true
    → no_character (λ c. c == b':') k ≡ true
    → text_eq k (codes "Sig") ≡ false
    → IsKey k
text-IsKey k filled clean lacks other = record {
  word = text-IsWord k filled clean;
  lacks = no_character-All (λ c. c == b':') k lacks;
  no_sig = other;
}

pub store_path-IsKey : IsKey (codes "StorePath")
unfolding is_blank no_character is_whitespace text_eq codes
store_path-IsKey = text-IsKey _ refl refl refl refl

pub url-IsKey : IsKey (codes "URL")
unfolding is_blank no_character is_whitespace text_eq codes
url-IsKey = text-IsKey _ refl refl refl refl

pub compression-IsKey : IsKey (codes "Compression")
unfolding is_blank no_character is_whitespace text_eq codes
compression-IsKey = text-IsKey _ refl refl refl refl

pub file_hash-IsKey : IsKey (codes "FileHash")
unfolding is_blank no_character is_whitespace text_eq codes
file_hash-IsKey = text-IsKey _ refl refl refl refl

pub file_size-IsKey : IsKey (codes "FileSize")
unfolding is_blank no_character is_whitespace text_eq codes
file_size-IsKey = text-IsKey _ refl refl refl refl

pub nar_hash-IsKey : IsKey (codes "NarHash")
unfolding is_blank no_character is_whitespace text_eq codes
nar_hash-IsKey = text-IsKey _ refl refl refl refl

pub nar_size-IsKey : IsKey (codes "NarSize")
unfolding is_blank no_character is_whitespace text_eq codes
nar_size-IsKey = text-IsKey _ refl refl refl refl

pub references-IsKey : IsKey (codes "References")
unfolding is_blank no_character is_whitespace text_eq codes
references-IsKey = text-IsKey _ refl refl refl refl

pub deriver-IsKey : IsKey (codes "Deriver")
unfolding is_blank no_character is_whitespace text_eq codes
deriver-IsKey = text-IsKey _ refl refl refl refl

pub ca-IsKey : IsKey (codes "CA")
unfolding is_blank no_character is_whitespace text_eq codes
ca-IsKey = text-IsKey _ refl refl refl refl

pub show_compression-IsWord : (c : Compression) → IsWord (show_compression c)
unfolding show_compression is_blank no_character is_whitespace codes
show_compression-IsWord uncompressed = text-IsWord _ refl refl
show_compression-IsWord xz = text-IsWord _ refl refl
show_compression-IsWord bzip2 = text-IsWord _ refl refl
show_compression-IsWord gzip = text-IsWord _ refl refl
show_compression-IsWord zstd = text-IsWord _ refl refl

pub sha256-Clean : Clean (codes "sha256-")
unfolding no_character is_whitespace codes
sha256-Clean = no_character-All is_whitespace (codes "sha256-") refl
