-- ===== src/Nixutils/Tests.antt =====
-- narinfo files at concrete inputs.
use ogygia_nix.Base.{
  ◌↔◌, ◌⊎◌, ℕ, ap, zero, suc, ◌+◌, ◌≡◌, refl, true, false, none, some, [], ◌∷◌, All, ◌-◌, arith,
}
use ogygia_nix.Base.Text.{Text, codes, is_whitespace, trim, trim_start, trim_end, text_eq}
use ogygia_nix.Nixutils.{Encoding, split_once}
use ogygia_nix.Nixutils.Narinfo.{
  xz, NarInfo, from_str, display, has_ca, key_names, contains_name, is_blank, any_signature,
  has_trusted_signature, no_keys, is_trusted,
}
use ogygia_nix.Nixutils.Narinfo.Trust.{Signed, is_trusted_iff}
use ogygia_nix.Nixutils.Narinfo.ReadLines.{Encodes}
use ogygia_nix.Nixutils.Narinfo.Written.{IsWritable}
use ogygia_nix.Nixutils.Narinfo.RoundTrip.{from_str-display}

shift : Text → Text
shift [] = []
shift (c ∷ s) = (c + 12289) ∷ shift s

unshift : Text → Text
unshift [] = []
unshift (c ∷ s) = (c - 12289) ∷ unshift s

-- An encoding that has the laws: every byte as one code point that is no space.
abbrev shifted : Encoding
shifted = record { encode = shift; decode = λ s. some (unshift s) }

shift_clean : (c : ℕ) → is_whitespace (c + 12289) ≡ false
unfolding is_whitespace
shift_clean c = ground arith

shift-clean : (s : Text) → All (λ c. is_whitespace c ≡ false) (shift s)
unfolding shift
shift-clean [] = _
shift-clean (c ∷ s) = (shift_clean c, shift-clean s)

unshift-shift : (s : Text) → unshift (shift s) ≡ s
unfolding shift unshift
unshift-shift [] = refl
unshift-shift (c ∷ s) =
    let same : c + 12289 - 12289 ≡ c = omega arith in rw (same, unshift-shift s) refl

shifted-Encodes : Encodes shifted
shifted-Encodes = record { reads = λ s. ap some (unshift-shift s); clean = shift-clean }

abbrev bytes : ℕ → Text
bytes zero = []
bytes (suc n) = n ∷ bytes n

abbrev hello : NarInfo
hello = record {
  store_path = codes "/nix/store/a-hello";
  url = codes "nar/b.nar.xz";
  compression = xz;
  file_hash = bytes 32;
  file_size = 12345;
  nar_hash = bytes 32;
  nar_size = 67890;
  references = codes "a-hello" ∷ codes "c-glibc" ∷ [];
  deriver = none;
  signatures = (record { name = codes "cache-1"; body = bytes 64 }) ∷ [];
  ca = some (codes "fixed:r:sha256:x");
}

hello-IsWritable : IsWritable hello
unfolding codes is_whitespace
hello-IsWritable = record {
  store_path = record {
    filled = λ e. cc;
    clean = (
      refl,
      (
        refl,
        (
          refl,
          (
            refl,
            (
              refl,
              (
                refl,
                (
                  refl,
                  (
                    refl,
                    (
                      refl,
                      (refl, (refl, (refl, (refl, (refl, (refl, (refl, (refl, (refl, _))))))))),
                    ),
                  ),
                ),
              ),
            ),
          ),
        ),
      ),
    );
  };
  url = record {
    filled = λ e. cc;
    clean = (
      refl,
      (refl, (refl, (refl, (refl, (refl, (refl, (refl, (refl, (refl, (refl, (refl, _))))))))))),
    );
  };
  file_hash = refl;
  file_size = omega arith;
  nar_hash = refl;
  nar_size = omega arith;
  references = (
    record { filled = λ e. cc; clean = (refl, (refl, (refl, (refl, (refl, (refl, (refl, _))))))) },
    (
      record {
        filled = λ e. cc;
        clean = (refl, (refl, (refl, (refl, (refl, (refl, (refl, _)))))));
      },
      _,
    ),
  );
  deriver = _;
  signatures = (
    record {
      is_name = record {
        filled = λ e. cc;
        clean = (refl, (refl, (refl, (refl, (refl, (refl, (refl, _)))))));
      };
      lacks = (refl, (refl, (refl, (refl, (refl, (refl, (refl, _)))))));
      sized = refl;
    },
    _,
  );
  ca = record {
    filled = λ e. cc;
    clean = (
      refl,
      (
        refl,
        (
          refl,
          (
            refl,
            (
              refl,
              (
                refl,
                (refl, (refl, (refl, (refl, (refl, (refl, (refl, (refl, (refl, (refl, _)))))))))),
              ),
            ),
          ),
        ),
      ),
    );
  };
}

from_str-display_example : from_str shifted (display shifted hello) ≡ some hello
from_str-display_example = from_str-display shifted shifted-Encodes hello hello-IsWritable

abbrev plain : NarInfo
plain = record hello { ca = some (codes " ") }

trusted_name : is_trusted (codes "cache-1:other" ∷ []) plain ≡ true
unfolding is_trusted has_trusted_signature any_signature no_keys has_ca trim trim_start trim_end
    key_names contains_name split_once text_eq is_blank codes is_whitespace
trusted_name = refl

untrusted_name : is_trusted (codes "cache-12:other" ∷ []) plain ≡ false
unfolding is_trusted has_trusted_signature any_signature no_keys has_ca trim trim_start trim_end
    key_names contains_name split_once text_eq is_blank codes is_whitespace
untrusted_name = refl

is_trusted_iff_example : (is_trusted (codes "cache-1:other" ∷ []) plain ≡ true) ↔ (
    (has_ca plain ≡ true)
    ⊎ (((codes "cache-1:other" ∷ []) ≡ []) ⊎ Signed (codes "cache-1:other" ∷ []) plain))
is_trusted_iff_example = is_trusted_iff (codes "cache-1:other" ∷ []) plain
