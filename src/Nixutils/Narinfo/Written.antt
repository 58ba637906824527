-- ===== src/Nixutils/Narinfo/Written.antt =====
-- src/ogygia-nixutils/src/narinfo.rs: what is written is lines of fields, in which each key is found.
use ogygia_nix.Base.{
  ◌^◌, ◌<◌, ◌≡◌, refl, sym, ◌∙◌, ap, Option, none, some, List, [], ◌∷◌, ◌++◌, map, length, All,
}
use ogygia_nix.Base.Text.{Text, codes, text_eq, decimal}
use ogygia_nix.Nixutils.{Encoding}
use ogygia_nix.Nixutils.Types.{to_sri}
use ogygia_nix.Nixutils.Narinfo.{
  NarInfo, lookup, show_compression, line_of, line_if, join_words, reference_lines, signature_lines,
  lines_to_write,
}
use ogygia_nix.Base.Text.Trim.{IsWord}
use mathlib.Core.List.{append_assoc}
use ogygia_nix.Nixutils.Narinfo.ReadLines.{IsSigned, field_line, push}

-- An optional text that is a word.
abbrev pub WordIf : Option Text → Type 0
WordIf none = Unit {0}
WordIf (some s) = IsWord s

-- What can be written: texts without spaces, hashes of 32 bytes, sizes of 64 bits.
pub record IsWritable (n : NarInfo) : Type 0 where
  pub store_path : IsWord n.store_path
  pub url : IsWord n.url
  pub file_hash : length n.file_hash ≡ 32
  pub file_size : n.file_size < 2 ^ 64
  pub nar_hash : length n.nar_hash ≡ 32
  pub nar_size : n.nar_size < 2 ^ 64
  pub references : All IsWord n.references
  pub deriver : WordIf n.deriver
  pub signatures : All IsSigned n.signatures
  pub ca : WordIf n.ca

unfoldable pub field_if : Text → Option Text → List (Text × Text)
field_if key none = []
field_if key (some v) = (key, v) ∷ []

unfoldable pub joined : List Text → Option Text
joined [] = none
joined (r ∷ rs) = some (join_words (r ∷ rs))

-- The fields in front of the signatures.
unfoldable pub front_fields :
    (sp url c fh fs nh ns : Text) (refs deriver : Option Text) → List (Text × Text)
unfolding field_if
front_fields sp url c fh fs nh ns refs deriver =
    (codes "StorePath", sp)
    ∷ (codes "URL", url)
    ∷ (codes "Compression", c)
    ∷ (codes "FileHash", fh)
    ∷ (codes "FileSize", fs)
    ∷ (codes "NarHash", nh)
    ∷ (codes "NarSize", ns)
    ∷ (field_if (codes "References") refs ++ field_if (codes "Deriver") deriver)

module _ (sp url c fh fs nh ns : Text) where
  unfoldable pub all_fields : (refs deriver ca : Option Text) → List (Text × Text)
  all_fields refs deriver ca =
      push (field_if (codes "CA") ca) (push (front_fields sp url c fh fs nh ns refs deriver) [])

  -- Each key is found.
  unfoldable pub Found : (refs deriver ca : Option Text) → Type 0
  Found refs deriver ca =
      let fields = all_fields refs deriver ca in
      (lookup (codes "StorePath") fields ≡ some sp)
      × (lookup (codes "URL") fields ≡ some url)
      × (lookup (codes "Compression") fields ≡ some c)
      × (lookup (codes "FileHash") fields ≡ some fh)
      × (lookup (codes "FileSize") fields ≡ some fs)
      × (lookup (codes "NarHash") fields ≡ some nh)
      × (lookup (codes "NarSize") fields ≡ some ns)
      × (lookup (codes "References") fields ≡ refs)
      × (lookup (codes "Deriver") fields ≡ deriver)
      × (lookup (codes "CA") fields ≡ ca)

  pub found : (refs deriver ca : Option Text) → Found refs deriver ca
  unfolding Found all_fields front_fields field_if push lookup text_eq codes
  found none none none = (refl, refl, refl, refl, refl, refl, refl, refl, refl, refl)
  found none none (some _) = (refl, refl, refl, refl, refl, refl, refl, refl, refl, refl)
  found none (some _) none = (refl, refl, refl, refl, refl, refl, refl, refl, refl, refl)
  found none (some _) (some _) = (refl, refl, refl, refl, refl, refl, refl, refl, refl, refl)
  found (some _) none none = (refl, refl, refl, refl, refl, refl, refl, refl, refl, refl)
  found (some _) none (some _) = (refl, refl, refl, refl, refl, refl, refl, refl, refl, refl)
  found (some _) (some _) none = (refl, refl, refl, refl, refl, refl, refl, refl, refl, refl)
  found (some _) (some _) (some _) = (refl, refl, refl, refl, refl, refl, refl, refl, refl, refl)

line_if-field : (key : Text) (o : Option Text) → line_if key o ≡ map field_line (field_if key o)
unfolding line_if field_if field_line
line_if-field key none = refl
line_if-field key (some v) = refl

reference_lines-field :
    (rs : List Text)
    → reference_lines rs ≡ map field_line (field_if (codes "References") (joined rs))
unfolding reference_lines field_if field_line joined
reference_lines-field [] = refl
reference_lines-field (r ∷ rs) = refl

map-append :
    (xs ys : List (Text × Text))
    → map field_line (xs ++ ys) ≡ map field_line xs ++ map field_line ys
map-append [] ys = refl
map-append (x ∷ xs) ys = ap (λ t. field_line x ∷ t) (map-append xs ys)

unfoldable pub front : Encoding → NarInfo → List (Text × Text)
front base64 n =
    front_fields n.store_path n.url (show_compression n.compression) (to_sri base64 n.file_hash)
      (decimal n.file_size) (to_sri base64 n.nar_hash) (decimal n.nar_size) (joined n.references)
      n.deriver

-- The lines are those of fields, of the signatures, and of the last field.
pub lines_to_write-fields :
    (base64 : Encoding) (n : NarInfo)
    → lines_to_write base64 n
      ≡ map field_line (front base64 n)
        ++ (signature_lines base64 n.signatures ++ map field_line (field_if (codes "CA") n.ca))
unfolding lines_to_write front front_fields field_line
lines_to_write-fields base64 n =
    ap
      (λ t.
        line_of (codes "StorePath") n.store_path
        ∷ line_of (codes "URL") n.url
        ∷ line_of (codes "Compression") (show_compression n.compression)
        ∷ line_of (codes "FileHash") (to_sri base64 n.file_hash)
        ∷ line_of (codes "FileSize") (decimal n.file_size)
        ∷ line_of (codes "NarHash") (to_sri base64 n.nar_hash)
        ∷ line_of (codes "NarSize") (decimal n.nar_size)
        ∷ t)
      tail
  where
    refs : List (Text × Text)
    refs = field_if (codes "References") (joined n.references)

    deriver : List (Text × Text)
    deriver = field_if (codes "Deriver") n.deriver

    rest : List Text
    rest =
        signature_lines base64 n.signatures
        ++ map (λ f. line_of f.0 f.1) (field_if (codes "CA") n.ca)

    tail :
        reference_lines n.references
          ++ (line_if (codes "Deriver") n.deriver
              ++ (signature_lines base64 n.signatures ++ line_if (codes "CA") n.ca))
        ≡ map field_line (refs ++ deriver) ++ rest
    tail =
        ap
          (λ t.
            reference_lines n.references
            ++ (line_if (codes "Deriver") n.deriver ++ (signature_lines base64 n.signatures ++ t)))
          (line_if-field (codes "CA") n.ca)
        ∙ ap (λ t. reference_lines n.references ++ (t ++ rest))
            (line_if-field (codes "Deriver") n.deriver)
        ∙ ap (λ t. t ++ (map field_line deriver ++ rest)) (reference_lines-field n.references)
        ∙ sym (append_assoc (map field_line refs) (map field_line deriver) rest)
        ∙ ap (λ t. t ++ rest) (sym (map-append refs deriver))
