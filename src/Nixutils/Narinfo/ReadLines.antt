-- ===== src/Nixutils/Narinfo/ReadLines.antt =====
-- src/ogygia-nixutils/src/narinfo.rs: the lines of fields and of signatures are read back.
use ogygia_nix.Base.{
  ℕ, ◌≡◌, refl, sym, ◌∙◌, ap, false, some, List, [], ◌∷◌, ◌++◌, map, length, All, All-append,
  ==_refl,
}
use ogygia_nix.Base.Text.{Text, codes, text_eq, is_whitespace}
use ogygia_nix.Base.Split.{Lacks}
use ogygia_nix.Nixutils.{◌>>=◌, split_once, Encoding}
use ogygia_nix.Nixutils.Types.{
  NarHash, try_into, expect_sha256, from_sri, to_sri, Signature, parse_signature, show_signature,
}
use ogygia_nix.Nixutils.Narinfo.{Fields, add_field, read_lines, line_of, signature_lines}
use ogygia_nix.Base.Text.Trim.{IsValue, IsWord, word-IsValue}
use ogygia_nix.Nixutils.Narinfo.Lines.{split_once-part, read_line-line_of}
use mathlib.Core.List.{append_assoc, append-nil}

abbrev pub Clean : Text → Type 0
Clean s = All (λ c. is_whitespace c ≡ false) s

-- base64 reads back what it writes, without spaces, and writes something for some bytes.
pub record Encodes (base64 : Encoding) : Type 0 where
  pub reads : (bytes : Text) → base64.decode (base64.encode bytes) ≡ some bytes
  pub clean : (bytes : Text) → All (λ c. is_whitespace c ≡ false) (base64.encode bytes)

-- A key of a field.
pub record IsKey (k : Text) : Type 0 where
  pub word : IsWord k
  pub lacks : Lacks b':' k
  pub no_sig : text_eq k (codes "Sig") ≡ false

-- A signature that can be written.
pub record IsSigned (sig : Signature) : Type 0 where
  pub is_name : IsWord sig.name
  pub lacks : Lacks b':' sig.name
  pub sized : length sig.body ≡ 64

-- A field that can be written.
pub record IsField (f : Text × Text) : Type 0 where
  pub is_key : IsKey f.0
  pub is_value : IsValue f.1
  pub whole : Lacks b'\n' f.1

unfoldable pub field_line : Text × Text → Text
field_line f = line_of f.0 f.1

-- The fields behind those that were read before.
unfoldable pub push : List (Text × Text) → List (Text × Text) → List (Text × Text)
push [] fs = fs
push (f ∷ rest) fs = push rest (f ∷ fs)

add_field-other :
    (base64 : Encoding) (k v : Text) (f : Fields)
    → text_eq k (codes "Sig") ≡ false
    → add_field base64 k v f ≡ some (record f { fields = (k, v) ∷ f.fields })
unfolding add_field
add_field-other base64 k v f h = rw h refl

try_into-sized : (n : ℕ) (s : Text) → length s ≡ n → try_into n s ≡ some s
unfolding try_into
try_into-sized n s h = rw (h, ==_refl n) refl

pub sig_key : IsWord (codes "Sig")
unfolding codes is_whitespace
sig_key = record { filled = λ e. cc; clean = (refl, (refl, (refl, _))) }

sig-Lacks : Lacks b':' (codes "Sig")
unfolding codes
sig-Lacks = (refl, (refl, (refl, _)))

module _ (base64 : Encoding) where
  pub read_lines-fields :
      (kvs : List (Text × Text)) (f : Fields)
      → All IsField kvs
      → read_lines base64 (map field_line kvs) f ≡ some (record f { fields = push kvs f.fields })
  unfolding push read_lines field_line
  read_lines-fields [] f h = refl
  read_lines-fields (kv ∷ kvs) f h =
      ap (λ o. o >>= λ f'. read_lines base64 (map field_line kvs) f')
        (read_line-line_of base64 kv.0 kv.1 f h.0.is_key.word h.0.is_key.lacks h.0.is_value
          ∙ add_field-other base64 kv.0 kv.1 f h.0.is_key.no_sig)
      ∙ read_lines-fields kvs (record f { fields = kv ∷ f.fields }) h.1

  module _ (laws : Encodes base64) where
    pub from_sri-to_sri : (h : NarHash) → length h ≡ 32 → from_sri base64 (to_sri base64 h) ≡ some h
    unfolding from_sri
    from_sri-to_sri h e =
        ap (λ o. o >>= λ body. base64.decode body >>= λ bytes. try_into 32 bytes) split
        ∙ ap (λ o. o >>= λ bytes. try_into 32 bytes) (laws.reads h)
        ∙ try_into-sized 32 h e
      where
        split : expect_sha256 b'-' (to_sri base64 h) ≡ some (base64.encode h)
        split = unfold expect_sha256 to_sri split_once text_eq codes in refl

    parse_signature-show :
        (sig : Signature)
        → IsSigned sig
        → parse_signature base64 (show_signature base64 sig) ≡ some sig
    unfolding parse_signature show_signature
    parse_signature-show sig h =
        ap
          (λ o. o >>= λ parts. base64.decode parts.1 >>= λ bytes.
            try_into 64 bytes >>= λ body. some (record { name = parts.0; body = body }))
          (split_once-part b':' sig.name (base64.encode sig.body) h.lacks)
        ∙ ap
            (λ o. o >>= λ bytes.
              try_into 64 bytes >>= λ body. some (record { name = sig.name; body = body }))
            (laws.reads sig.body)
        ∙ ap (λ o. o >>= λ body. some (record { name = sig.name; body = body }))
            (try_into-sized 64 sig.body h.sized)

    pub show_signature-IsWord :
        (sig : Signature) → IsSigned sig → IsWord (show_signature base64 sig)
    unfolding show_signature
    show_signature-IsWord sig h = record {
      filled = λ e. h.is_name.filled (front sig.name e);
      clean =
          All-append (λ c. is_whitespace c ≡ false) sig.name (b':' ∷ base64.encode sig.body)
            h.is_name.clean (unfold is_whitespace in refl, laws.clean sig.body);
    }
      where
        front : (a : Text) → a ++ (b':' ∷ base64.encode sig.body) ≡ [] → a ≡ []
        front [] e = cc
        front (x ∷ a) e = cc

    pub read_lines-signatures :
        (sigs : List Signature) (f : Fields)
        → All IsSigned sigs
        → read_lines base64 (signature_lines base64 sigs) f
          ≡ some (record f { signatures = f.signatures ++ sigs })
    unfolding read_lines signature_lines
    read_lines-signatures [] f h =
        ap (λ l. some (record { fields = f.fields; signatures = l }))
          (sym (append-nil f.signatures))
    read_lines-signatures (sig ∷ sigs) f h =
        let shown = word-IsValue (show_signature base64 sig) (show_signature-IsWord sig h.0) in
        let added : add_field base64 (codes "Sig") (show_signature base64 sig) f
            ≡ some (record f { signatures = f.signatures ++ (sig ∷ []) }) =
          unfold add_field text_eq codes in
          ap (λ o. o >>= λ s. some (record f { signatures = f.signatures ++ (s ∷ []) }))
            (parse_signature-show sig h.0) in
        ap (λ o. o >>= λ f'. read_lines base64 (signature_lines base64 sigs) f')
          (read_line-line_of base64 (codes "Sig") (show_signature base64 sig) f sig_key sig-Lacks
              shown
            ∙ added)
        ∙ read_lines-signatures sigs (record f { signatures = f.signatures ++ (sig ∷ []) }) h.1
        ∙ ap (λ l. some (record { fields = f.fields; signatures = l }))
            (append_assoc f.signatures (sig ∷ []) sigs)
