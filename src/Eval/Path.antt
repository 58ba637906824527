-- ===== src/Eval/Path.antt =====
-- src/ogygia-nix-eval/src/path.rs: paths as Nix treats them, without a file system.
pub mod Canonical
pub mod Names
pub mod Components
use ogygia_nix.Base.{
  ℕ, zero, suc, ◌+◌, ◌-◌, ◌≡◌, refl, true, false, ◌||◌, Option, none, some, List, [], ◌∷◌, ◌++◌,
  length, take, drop, ◌==◌, if◌then◌else◌,
}
use ogygia_nix.Base.Text.{Text, codes, text_eq, strip_prefix}
use ogygia_nix.Base.Split.{split, rfind}
use mathlib.Core.List.{reverse}

unfoldable pub corepkgs : Text
unfolding codes
corepkgs = codes "<nix>"

unfoldable pub abs : Text → Text
unfolding strip_prefix corepkgs
abs p = elim (strip_prefix corepkgs p) [ some rest ↦ rest | none ↦ p ]

unfoldable pub show : Text → Text
unfolding strip_prefix corepkgs codes
show p = elim (strip_prefix corepkgs p) [
  | some rest ↦ codes "<nix" ++ (rest ++ codes ">")
  | none ↦ p
]

-- One turn of the loop over the components; `parts` has its last component first.
unfoldable pub push_part : (parts : List Text) → Text → List Text
unfolding text_eq codes
push_part parts comp =
    if text_eq comp [] || text_eq comp (codes ".")
    then parts
    else if text_eq comp (codes "..")
    then drop 1 parts
    else (comp ∷ parts)

unfoldable pub push_parts : (parts : List Text) → List Text → List Text
unfolding push_part
push_parts parts [] = parts
push_parts parts (comp ∷ comps) = push_parts (push_part parts comp) comps

-- Each component behind a slash.
unfoldable pub slashed : List Text → Text
slashed [] = []
slashed (c ∷ parts) = b'/' ∷ (c ++ slashed parts)

unfoldable pub show_parts : List Text → Text
unfolding slashed
show_parts [] = b'/' ∷ []
show_parts (c ∷ parts) = slashed (c ∷ parts)

-- `canon_path` of a path without the prefix.
unfoldable pub canon_plain : Text → Text
unfolding split push_parts show_parts
canon_plain p = show_parts (reverse (push_parts [] (split b'/' p)))

-- Each call that the prefix makes has a shorter path.
unfoldable pub canon_rounds : ℕ → Text → Text
unfolding canon_plain strip_prefix corepkgs
canon_rounds zero p = canon_plain p
canon_rounds (suc fuel) p = elim (strip_prefix corepkgs p) [
  | some rest ↦ corepkgs ++ canon_rounds fuel rest
  | none ↦ canon_plain p
]

unfoldable pub canon_path : Text → Text
unfolding canon_rounds
canon_path p = canon_rounds (length p) p

-- `root` is where the path within its file system starts.
unfoldable pub dir_at : Text → (root : ℕ) → Option ℕ → Text
unfolding codes
dir_at p root (some i) = if i == root then take (suc i) p else take i p
dir_at p root none = codes "."

unfoldable pub dir_of : Text → Text
unfolding abs rfind dir_at
dir_of p = dir_at p (length p - length (abs p)) (rfind b'/' p)

-- `strip_suffix(b"/").unwrap_or(p)`.
unfoldable pub strip_slash : Text → Text
strip_slash [] = []
strip_slash (c ∷ []) = if c == b'/' then [] else c ∷ []
strip_slash (c ∷ d ∷ s) = c ∷ strip_slash (d ∷ s)

unfoldable pub name_at : Text → Option ℕ → Text
name_at p (some i) = drop (suc i) p
name_at p none = p

unfoldable pub base_name_of : Text → Text
unfolding strip_slash rfind name_at
base_name_of p = name_at (strip_slash p) (rfind b'/' (strip_slash p))

-- `trim_end_matches('/')`.
unfoldable pub trim_slashes : Text → Text
trim_slashes [] = []
trim_slashes (c ∷ s) = elim (trim_slashes s) [
  | [] ↦ if c == b'/' then [] else c ∷ []
  | d ∷ t ↦ c ∷ d ∷ t
]

unfoldable pub join : (dir name : Text) → Text
unfolding trim_slashes
join [] name = name
join (c ∷ dir) [] = c ∷ dir
join (c ∷ dir) (d ∷ name) = trim_slashes (c ∷ dir) ++ (b'/' ∷ d ∷ name)

unfoldable pub store_name : Text → Text
unfolding base_name_of abs codes
store_name p = elim (base_name_of (abs p)) [ [] ↦ codes "source" | c ∷ name ↦ c ∷ name ]
