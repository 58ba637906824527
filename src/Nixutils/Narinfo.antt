-- ===== src/Nixutils/Narinfo.antt =====
-- src/ogygia-nixutils/src/narinfo.rs: narinfo files and whether they are trusted.
pub mod Lines
pub mod Words
pub mod ReadLines
pub mod Keys
pub mod Written
pub mod RoundTrip
pub mod Trust
use ogygia_nix.Base.{
  ℕ, suc, Bool, true, false, not, ◌||◌, Option, none, some, List, [], ◌∷◌, ◌++◌, ◌==◌,
  if◌then◌else◌, leb, ◌&&◌, ◌+◌,
}
use ogygia_nix.Base.Text.{Text, codes, text_eq, trim, is_whitespace, decimal}
use ogygia_nix.Base.Text.Decimal.{parse_u64}
use ogygia_nix.Base.Split.{split}
use ogygia_nix.Nixutils.{◌>>=◌, guard, split_once, Encoding}
use ogygia_nix.Nixutils.Types.{
  NarHash, from_sri, to_sri, Signature, parse_signature, show_signature,
}

pub data Compression : Type 0 where
  uncompressed xz bzip2 gzip zstd : Compression

pub record NarInfo : Type 0 where
  pub store_path : Text
  pub url : Text
  pub compression : Compression
  pub file_hash : NarHash
  pub file_size : ℕ
  pub nar_hash : NarHash
  pub nar_size : ℕ
  pub references : List Text
  pub deriver : Option Text
  pub signatures : List Signature
  pub ca : Option Text

unfoldable pub show_compression : Compression → Text
unfolding codes
show_compression uncompressed = codes "none"
show_compression xz = codes "xz"
show_compression bzip2 = codes "bzip2"
show_compression gzip = codes "gzip"
show_compression zstd = codes "zstd"

-- `eq_ignore_ascii_case`, on one side already lowercase.
unfoldable pub lower : Text → Text
lower [] = []
lower (c ∷ s) = (if leb b'A' c && leb c b'Z' then c + 32 else c) ∷ lower s

unfoldable pub parse_compression : Text → Option Compression
unfolding lower text_eq codes
parse_compression s =
    let t = lower s in
    if text_eq t (codes "none")
    then some uncompressed
    else if text_eq t (codes "xz")
    then some xz
    else if text_eq t (codes "bzip2")
    then some bzip2
    else if text_eq t (codes "gzip")
    then some gzip
    else if text_eq t (codes "zstd")
    then some zstd
    else none

unfoldable pub is_blank : Text → Bool
is_blank [] = true
is_blank (_ ∷ _) = false

-- The keys with their values, the last one first, and the signatures in their order.
pub record Fields : Type 0 where
  pub fields : List (Text × Text)
  pub signatures : List Signature

unfoldable pub lookup : Text → List (Text × Text) → Option Text
unfolding text_eq
lookup key [] = none
lookup key ((k, v) ∷ rest) = let other = lookup key rest in if text_eq k key then some v else other

-- `lines`: the last part is none if it is empty. A carriage return is trimmed with the line.
unfoldable pub lines_of : List Text → List Text
unfolding is_blank
lines_of [] = []
lines_of (line ∷ []) = if is_blank line then [] else line ∷ []
lines_of (line ∷ next ∷ rest) = line ∷ lines_of (next ∷ rest)

-- `split_whitespace`.
unfoldable pub words_of : List Text → List Text
words_of [] = []
words_of (w ∷ ws) = let rest = words_of ws in if is_blank w then rest else w ∷ rest

unfoldable pub spaces : Text → Text
unfolding is_whitespace
spaces [] = []
spaces (c ∷ s) = (if is_whitespace c then b' ' else c) ∷ spaces s

unfoldable pub split_whitespace : Text → List Text
unfolding words_of spaces split
split_whitespace s = words_of (split b' ' (spaces s))

-- A missing or an empty compression is none.
unfoldable pub compression_of : Option Text → Option Compression
unfolding parse_compression is_blank
compression_of none = some uncompressed
compression_of (some s) = if is_blank s then some uncompressed else parse_compression s

unfoldable pub references_of : Option Text → List Text
unfolding split_whitespace
references_of none = []
references_of (some s) = split_whitespace s

module _ (base64 : Encoding) where
  unfoldable pub add_field : (key value : Text) → Fields → Option Fields
  unfolding text_eq parse_signature codes
  add_field key value f =
      if text_eq key (codes "Sig")
      then (parse_signature base64 value >>= λ sig.
          some (record f { signatures = f.signatures ++ (sig ∷ []) }))
      else some (record f { fields = (key, value) ∷ f.fields })

  unfoldable pub add_parts : Option (Text × Text) → Fields → Option Fields
  add_parts none f = some f
  add_parts (some (key, value)) f = add_field (trim key) (trim value) f

  -- A trimmed line.
  unfoldable pub read_trimmed : Text → Fields → Option Fields
  read_trimmed [] f = some f
  read_trimmed (c ∷ line) f = add_parts (split_once b':' (c ∷ line)) f

  unfoldable pub read_line : Text → Fields → Option Fields
  read_line line f = read_trimmed (trim line) f

  unfoldable pub read_lines : List Text → Fields → Option Fields
  read_lines [] f = some f
  read_lines (line ∷ rest) f = read_line line f >>= λ f'. read_lines rest f'

  unfoldable pub build : Fields → Option NarInfo
  build f = do
    store_path ← lookup (codes "StorePath") f.fields
    url ← lookup (codes "URL") f.fields
    compression ← compression_of (lookup (codes "Compression") f.fields)
    file_hash ← lookup (codes "FileHash") f.fields >>= λ s. from_sri base64 s
    file_size ← lookup (codes "FileSize") f.fields >>= λ s. parse_u64 s
    nar_hash ← lookup (codes "NarHash") f.fields >>= λ s. from_sri base64 s
    nar_size ← lookup (codes "NarSize") f.fields >>= λ s. parse_u64 s
    some (record {
      store_path = store_path;
      url = url;
      compression = compression;
      file_hash = file_hash;
      file_size = file_size;
      nar_hash = nar_hash;
      nar_size = nar_size;
      references = references_of (lookup (codes "References") f.fields);
      deriver = lookup (codes "Deriver") f.fields;
      signatures = f.signatures;
      ca = lookup (codes "CA") f.fields;
    })

  unfoldable pub from_str : Text → Option NarInfo
  from_str content =
      read_lines (lines_of (split b'\n' content)) (record { fields = []; signatures = [] }) >>= λ f.
      build f

-- `writeln`.
unfoldable pub unlines : List Text → Text
unlines [] = []
unlines (line ∷ rest) = line ++ (b'\n' ∷ unlines rest)

unfoldable pub line_of : (key value : Text) → Text
unfolding codes
line_of key value = key ++ (codes ": " ++ value)

unfoldable pub line_if : (key : Text) → Option Text → List Text
unfolding line_of
line_if key none = []
line_if key (some value) = line_of key value ∷ []

-- `join(" ")`.
unfoldable pub join_words : List Text → Text
join_words [] = []
join_words (w ∷ []) = w
join_words (w ∷ v ∷ ws) = w ++ (b' ' ∷ join_words (v ∷ ws))

unfoldable pub reference_lines : List Text → List Text
unfolding line_of join_words codes
reference_lines [] = []
reference_lines (r ∷ rs) = line_of (codes "References") (join_words (r ∷ rs)) ∷ []

unfoldable pub signature_lines : Encoding → List Signature → List Text
unfolding line_of show_signature codes
signature_lines base64 [] = []
signature_lines base64 (sig ∷ sigs) =
    line_of (codes "Sig") (show_signature base64 sig) ∷ signature_lines base64 sigs

unfoldable pub lines_to_write : Encoding → NarInfo → List Text
lines_to_write base64 n =
    line_of (codes "StorePath") n.store_path
    ∷ line_of (codes "URL") n.url
    ∷ line_of (codes "Compression") (show_compression n.compression)
    ∷ line_of (codes "FileHash") (to_sri base64 n.file_hash)
    ∷ line_of (codes "FileSize") (decimal n.file_size)
    ∷ line_of (codes "NarHash") (to_sri base64 n.nar_hash)
    ∷ line_of (codes "NarSize") (decimal n.nar_size)
    ∷ (reference_lines n.references
        ++ (line_if (codes "Deriver") n.deriver
            ++ (signature_lines base64 n.signatures ++ line_if (codes "CA") n.ca)))

-- `Display::fmt`.
unfoldable pub display : Encoding → NarInfo → Text
display base64 n = unlines (lines_to_write base64 n)

-- The names of the trusted keys.
unfoldable pub key_names : List Text → List Text
unfolding split_once
key_names [] = []
key_names (key ∷ keys) =
    let names = key_names keys in
    elim (split_once b':' key) [ none ↦ names | some parts ↦ parts.0 ∷ names ]

unfoldable pub contains_name : Text → List Text → Bool
unfolding text_eq
contains_name name [] = false
contains_name name (n ∷ names) = text_eq n name || contains_name name names

unfoldable pub any_signature : List Text → List Signature → Bool
unfolding contains_name
any_signature names [] = false
any_signature names (sig ∷ sigs) = contains_name sig.name names || any_signature names sigs

unfoldable pub has_trusted_signature : List Text → NarInfo → Bool
unfolding key_names any_signature
has_trusted_signature trusted n = any_signature (key_names trusted) n.signatures

unfoldable pub has_ca : NarInfo → Bool
unfolding trim is_blank
has_ca n = elim n.ca [ none ↦ false | some s ↦ not (is_blank (trim s)) ]

unfoldable pub no_keys : List Text → Bool
no_keys [] = true
no_keys (_ ∷ _) = false

unfoldable pub is_trusted : List Text → NarInfo → Bool
unfolding has_ca has_trusted_signature no_keys
is_trusted trusted n =
    if has_ca n then true else if no_keys trusted then true else has_trusted_signature trusted n
