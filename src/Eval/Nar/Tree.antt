-- ===== src/Eval/Nar/Tree.antt =====
-- A tree of files and its Nix Archive as the Nix manual's section of that name describes it.
use ogygia_nix.Base.{Bool, true, false, List, [], ◌∷◌, ◌++◌, length}
use ogygia_nix.Base.Text.{Text, codes}
use ogygia_nix.Eval.Nar.{to_le_bytes, padding}

-- A tree of files.
mutual
  pub data Node : Type 0 where
    symlink : (target : Text) → Node
    directory : Entries → Node
    regular : (executable : Bool) (contents : Text) → Node

  pub data Entries : Type 0 where
    end : Entries
    entry : (name : Text) → Node → Entries → Entries

unfoldable pub executable_tokens : Bool → List Text → List Text
unfolding codes
executable_tokens true rest = codes "executable" ∷ [] ∷ rest
executable_tokens false rest = rest

-- The tokens of a tree, in front of what follows it.
unfoldable mutual
  unfolding executable_tokens codes

  pub tokens : Node → List Text → List Text
  tokens (symlink target) rest =
      codes "(" ∷ codes "type" ∷ codes "symlink" ∷ codes "target" ∷ target ∷ codes ")" ∷ rest
  tokens (directory entries) rest =
      codes "(" ∷ codes "type" ∷ codes "directory" ∷ entry_tokens entries (codes ")" ∷ rest)
  tokens (regular executable contents) rest =
      codes "("
      ∷ codes "type"
      ∷ codes "regular"
      ∷ executable_tokens executable (codes "contents" ∷ contents ∷ codes ")" ∷ rest)

  pub entry_tokens : Entries → List Text → List Text
  entry_tokens end rest = rest
  entry_tokens (entry name node entries) rest =
      codes "entry"
      ∷ codes "("
      ∷ codes "name"
      ∷ name
      ∷ codes "node"
      ∷ tokens node (codes ")" ∷ entry_tokens entries rest)

-- A string as the Nix manual has it: its length, the bytes, and zeros up to a multiple of eight.
unfoldable pub str_bytes : Text → Text
unfolding to_le_bytes padding
str_bytes s = to_le_bytes 8 (length s) ++ (s ++ padding s)

unfoldable pub strs : List Text → Text
unfolding str_bytes
strs [] = []
strs (s ∷ rest) = str_bytes s ++ strs rest
