-- ===== src/Nixutils/Types.antt =====
-- src/ogygia-nixutils/src/types.rs and signature.rs: hashes of archives and store paths, signatures.
use ogygia_nix.Base.{
  ℕ, Bool, ◌&&◌, ◌||◌, Option, none, some, ◌∷◌, ◌++◌, length, take, leb, ◌==◌, all_by,
  if◌then◌else◌,
}
use ogygia_nix.Base.Text.{Text, codes, text_eq, strip_prefix}
use ogygia_nix.Nixutils.{◌>>=◌, guard, split_once, Encoding}

-- Bytes, 32 of them.
abbrev pub NarHash : Type 0
NarHash = Text

unfoldable pub try_into : ℕ → Text → Option Text
try_into n bytes = if length bytes == n then some bytes else none

unfoldable pub expect_sha256 : ℕ → Text → Option Text
unfolding split_once text_eq codes
expect_sha256 sep s =
    split_once sep s >>= λ parts. guard (text_eq parts.0 (codes "sha256")) (some parts.1)

module _ (hex : Encoding) where
  unfoldable pub from_hex : Text → Option NarHash
  unfolding try_into
  from_hex s = hex.decode s >>= λ bytes. try_into 32 bytes

  unfoldable pub from_db_str : Text → Option NarHash
  unfolding expect_sha256 from_hex
  from_db_str s = expect_sha256 b':' s >>= λ digits. from_hex digits

  unfoldable pub to_hex : NarHash → Text
  to_hex h = hex.encode h

module _ (base64 : Encoding) where
  unfoldable pub from_sri : Text → Option NarHash
  unfolding expect_sha256 try_into
  from_sri s = expect_sha256 b'-' s >>= λ body. base64.decode body >>= λ bytes. try_into 32 bytes

  unfoldable pub to_sri : NarHash → Text
  unfolding codes
  to_sri h = codes "sha256-" ++ base64.encode h

pub record Signature : Type 0 where
  pub name : Text
  pub body : Text

unfoldable pub parse_signature : Encoding → Text → Option Signature
unfolding split_once try_into
parse_signature base64 s = split_once b':' s >>= λ parts. base64.decode parts.1 >>= λ bytes.
    try_into 64 bytes >>= λ body. some (record { name = parts.0; body = body })

unfoldable pub show_signature : Encoding → Signature → Text
show_signature base64 sig = sig.name ++ (b':' ∷ base64.encode sig.body)

-- Nix's base32 alphabet.
unfoldable pub is_nixbase32 : ℕ → Bool
is_nixbase32 c =
    (leb b'0' c && leb c b'9')
    || (leb b'a' c && leb c b'd')
    || (leb b'f' c && leb c b'n')
    || (leb b'p' c && leb c b's')
    || (leb b'v' c && leb c b'z')

unfoldable pub parse_store_hash : Text → Option Text
unfolding is_nixbase32
parse_store_hash s = guard (length s == 32) (guard (all_by is_nixbase32 s) (some s))

unfoldable pub from_store_path : Text → Option Text
unfolding strip_prefix parse_store_hash codes
from_store_path path = strip_prefix (codes "/nix/store/") path >>= λ rest.
    guard (leb 32 (length rest)) (parse_store_hash (take 32 rest))
