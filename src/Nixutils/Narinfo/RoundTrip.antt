-- ===== src/Nixutils/Narinfo/RoundTrip.antt =====
-- src/ogygia-nixutils/src/narinfo.rs: what is written is read back.
use ogygia_nix.Base.{
  ℕ, ◌≡◌, ◌≢◌, refl, sym, ◌∙◌, ap, subst, false, Option, none, some, List, [], ◌∷◌, ◌++◌, ◌==◌, map,
  All, All-append,
}
use ogygia_nix.Base.Text.{Text, codes, text_eq, is_whitespace, decimal}
use ogygia_nix.Base.Text.Decimal.{parse_u64, parse_u64-decimal, decimal-filled, decimal-Clean}
use ogygia_nix.Base.Split.{Lacks}
use ogygia_nix.Nixutils.{◌>>=◌, Encoding}
use ogygia_nix.Nixutils.Types.{NarHash, from_sri, to_sri, Signature, show_signature}
use ogygia_nix.Nixutils.Narinfo.{
  Compression, uncompressed, xz, bzip2, gzip, zstd, NarInfo, Fields, lookup, read_lines,
  compression_of, references_of, build, from_str, show_compression, parse_compression, lower,
  is_blank, line_of, signature_lines, lines_to_write, display,
}
use ogygia_nix.Base.Text.Trim.{IsWord, word-IsValue}
use ogygia_nix.Nixutils.Narinfo.Lines.{read_lines-append, lines_of-unlines}
use ogygia_nix.Nixutils.Narinfo.Words.{
  clean-Lacks, split_whitespace-join_words, join_words-IsValue, join_words-Lacks,
}
use ogygia_nix.Nixutils.Narinfo.Keys.{
  store_path-IsKey, url-IsKey, compression-IsKey, file_hash-IsKey, file_size-IsKey, nar_hash-IsKey,
  nar_size-IsKey, references-IsKey, deriver-IsKey, ca-IsKey, show_compression-IsWord, sha256-Clean,
}
use ogygia_nix.Nixutils.Narinfo.ReadLines.{
  sig_key, show_signature-IsWord, Encodes, IsKey, IsSigned, IsField, field_line, push,
  read_lines-fields, from_sri-to_sri, read_lines-signatures,
}
use ogygia_nix.Nixutils.Narinfo.Written.{
  WordIf, IsWritable, field_if, joined, front_fields, all_fields, Found, found, front,
  lines_to_write-fields,
}

references-read : (rs : List Text) → All IsWord rs → references_of (joined rs) ≡ rs
unfolding references_of joined
references-read [] h = refl
references-read (r ∷ rs) h = split_whitespace-join_words (r ∷ rs) h

compression-read : (c : Compression) → compression_of (some (show_compression c)) ≡ some c
unfolding compression_of show_compression parse_compression lower text_eq is_blank codes
compression-read uncompressed = refl
compression-read xz = refl
compression-read bzip2 = refl
compression-read gzip = refl
compression-read zstd = refl

module _ (base64 : Encoding) (laws : Encodes base64) (n : NarInfo) (h : IsWritable n) where
  decimal-IsWord : (m : ℕ) → IsWord (decimal m)
  decimal-IsWord m = record { filled = decimal-filled m; clean = decimal-Clean m }

  to_sri-IsWord : (x : NarHash) → IsWord (to_sri base64 x)
  unfolding to_sri
  to_sri-IsWord x = record {
    filled = λ e. filled (codes "sha256-") (unfold codes in λ e. cc) e;
    clean =
        All-append (λ c. is_whitespace c ≡ false) (codes "sha256-") (base64.encode x) sha256-Clean
          (laws.clean x);
  }
    where
      filled : (a : Text) → a ≢ [] → a ++ base64.encode x ≢ []
      filled [] k e = absurd (k refl)
      filled (c ∷ a) k e = cc

  -- A key with one word.
  word-IsField : (k v : Text) → IsKey k → IsWord v → IsField (k, v)
  word-IsField k v key word = record {
    is_key = key;
    is_value = word-IsValue v word;
    whole = clean-Lacks b'\n' (unfold is_whitespace in refl) v word.clean;
  }

  if-IsField : (k : Text) (o : Option Text) → IsKey k → WordIf o → All IsField (field_if k o)
  unfolding field_if
  if-IsField k none key word = _
  if-IsField k (some v) key word = (word-IsField k v key word, _)

  joined-IsField :
      (rs : List Text) → All IsWord rs → All IsField (field_if (codes "References") (joined rs))
  unfolding field_if joined
  joined-IsField [] words = _
  joined-IsField (r ∷ rs) words = (
    record {
      is_key = references-IsKey;
      is_value = join_words-IsValue r rs words;
      whole = join_words-Lacks (r ∷ rs) words;
    },
    _,
  )

  front-IsField : All IsField (front base64 n)
  unfolding front front_fields
  front-IsField = (
    word-IsField _ _ store_path-IsKey h.store_path,
    (
      word-IsField _ _ url-IsKey h.url,
      (
        word-IsField _ _ compression-IsKey (show_compression-IsWord n.compression),
        (
          word-IsField _ _ file_hash-IsKey (to_sri-IsWord n.file_hash),
          (
            word-IsField _ _ file_size-IsKey (decimal-IsWord n.file_size),
            (
              word-IsField _ _ nar_hash-IsKey (to_sri-IsWord n.nar_hash),
              (
                word-IsField _ _ nar_size-IsKey (decimal-IsWord n.nar_size),
                All-append IsField (field_if (codes "References") (joined n.references))
                    (field_if (codes "Deriver") n.deriver)
                    (joined-IsField n.references h.references)
                    (if-IsField (codes "Deriver") n.deriver deriver-IsKey h.deriver),
              ),
            ),
          ),
        ),
      ),
    ),
  )

  last-IsField : All IsField (field_if (codes "CA") n.ca)
  last-IsField = if-IsField (codes "CA") n.ca ca-IsKey h.ca

  line_of-Lacks : (k v : Text) → IsWord k → Lacks b'\n' v → Lacks b'\n' (line_of k v)
  unfolding line_of codes
  line_of-Lacks k v word lacks =
      All-append (λ x. (x == b'\n') ≡ false) k (b':' ∷ b' ' ∷ v)
        (clean-Lacks b'\n' (unfold is_whitespace in refl) k word.clean) (refl, (refl, lacks))

  fields-Lacks : (fs : List (Text × Text)) → All IsField fs → All (Lacks b'\n') (map field_line fs)
  unfolding field_line
  fields-Lacks [] k = _
  fields-Lacks (f ∷ fs) k = (line_of-Lacks f.0 f.1 k.0.is_key.word k.0.whole, fields-Lacks fs k.1)

  signatures-Lacks :
      (sigs : List Signature) → All IsSigned sigs → All (Lacks b'\n') (signature_lines base64 sigs)
  unfolding signature_lines
  signatures-Lacks [] k = _
  signatures-Lacks (sig ∷ sigs) k = (
    line_of-Lacks (codes "Sig") (show_signature base64 sig) sig_key (
        clean-Lacks b'\n' (unfold is_whitespace in refl) _
          (show_signature-IsWord base64 laws sig k.0).clean),
    signatures-Lacks sigs k.1,
  )

  lines-Lacks : All (Lacks b'\n') (lines_to_write base64 n)
  lines-Lacks = subst (All (Lacks b'\n')) (sym (lines_to_write-fields base64 n)) (
      All-append (Lacks b'\n') (map field_line (front base64 n)) _
        (fields-Lacks (front base64 n) front-IsField)
        (All-append (Lacks b'\n') (signature_lines base64 n.signatures) _
          (signatures-Lacks n.signatures h.signatures)
          (fields-Lacks (field_if (codes "CA") n.ca) last-IsField)))

  lines-read :
      read_lines base64 (lines_to_write base64 n) (record { fields = []; signatures = [] })
      ≡ some (record {
        fields = push (field_if (codes "CA") n.ca) (push (front base64 n) []);
        signatures = n.signatures;
      })
  lines-read =
      ap (λ ls. read_lines base64 ls start) (lines_to_write-fields base64 n)
      ∙ read_lines-append base64 (map field_line (front base64 n)) (sigs ++ last) start
      ∙ ap (λ o. o >>= λ f. read_lines base64 (sigs ++ last) f)
          (read_lines-fields base64 (front base64 n) start front-IsField)
      ∙ read_lines-append base64 sigs last read
      ∙ ap (λ o. o >>= λ f. read_lines base64 last f)
          (read_lines-signatures base64 laws n.signatures read h.signatures)
      ∙ read_lines-fields base64 (field_if (codes "CA") n.ca)
          (record read { signatures = n.signatures }) last-IsField
    where
      start : Fields
      start = record { fields = []; signatures = [] }

      read : Fields
      read = record { fields = push (front base64 n) []; signatures = [] }

      sigs : List Text
      sigs = signature_lines base64 n.signatures

      last : List Text
      last = map field_line (field_if (codes "CA") n.ca)

  build-lookup :
      (f : Fields)
      → lookup (codes "StorePath") f.fields ≡ some n.store_path
      → lookup (codes "URL") f.fields ≡ some n.url
      → compression_of (lookup (codes "Compression") f.fields) ≡ some n.compression
      → (lookup (codes "FileHash") f.fields >>= λ s. from_sri base64 s) ≡ some n.file_hash
      → (lookup (codes "FileSize") f.fields >>= λ s. parse_u64 s) ≡ some n.file_size
      → (lookup (codes "NarHash") f.fields >>= λ s. from_sri base64 s) ≡ some n.nar_hash
      → (lookup (codes "NarSize") f.fields >>= λ s. parse_u64 s) ≡ some n.nar_size
      → references_of (lookup (codes "References") f.fields) ≡ n.references
      → lookup (codes "Deriver") f.fields ≡ n.deriver
      → lookup (codes "CA") f.fields ≡ n.ca
      → f.signatures ≡ n.signatures
      → build base64 f ≡ some n
  unfolding build
  build-lookup f sp url c fh fs nh ns refs deriver ca sigs =
      rw (sp, url, c, fh, fs, nh, ns, refs, deriver, ca, sigs) refl

  build-found :
      build base64 (record {
        fields = push (field_if (codes "CA") n.ca) (push (front base64 n) []);
        signatures = n.signatures;
      })
      ≡ some n
  unfolding front Found all_fields
  build-found =
      let all =
        found n.store_path n.url (show_compression n.compression) (to_sri base64 n.file_hash)
          (decimal n.file_size) (to_sri base64 n.nar_hash) (decimal n.nar_size)
          (joined n.references) n.deriver n.ca in
      build-lookup _ all.0 all.1 (ap compression_of all.2 ∙ compression-read n.compression)
        (ap (λ o. o >>= λ s. from_sri base64 s) all.3
          ∙ from_sri-to_sri base64 laws n.file_hash h.file_hash)
        (ap (λ o. o >>= λ s. parse_u64 s) all.4 ∙ parse_u64-decimal n.file_size h.file_size)
        (ap (λ o. o >>= λ s. from_sri base64 s) all.5
          ∙ from_sri-to_sri base64 laws n.nar_hash h.nar_hash)
        (ap (λ o. o >>= λ s. parse_u64 s) all.6 ∙ parse_u64-decimal n.nar_size h.nar_size)
        (ap references_of all.7 ∙ references-read n.references h.references) all.8 all.9 refl

  -- What is written of a narinfo is read back as the same, with a base64 that reads back what it
  -- writes, if its texts are not empty and have no spaces, its hashes have 32 bytes, its sizes 64
  -- bits, and each signature has a name without a colon and 64 bytes.
  pub from_str-display : from_str base64 (display base64 n) ≡ some n
  unfolding from_str display
  from_str-display =
      ap
        (λ ls.
          read_lines base64 ls (record { fields = []; signatures = [] }) >>= λ f. build base64 f)
        (lines_of-unlines (lines_to_write base64 n) lines-Lacks)
      ∙ ap (λ o. o >>= λ f. build base64 f) lines-read
      ∙ build-found
