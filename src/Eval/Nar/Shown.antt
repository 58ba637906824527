-- ===== src/Eval/Nar/Shown.antt =====
-- src/ogygia-nix-eval/src/accessor.rs: the tree of files that an accessor has at a path.
use ogygia_nix.Base.{ℕ, suc, ◌≤◌, max, ◌≡◌, some, List, [], ◌∷◌, arith}
use ogygia_nix.Base.Text.{Text}
use ogygia_nix.Eval.Path.{join}
use ogygia_nix.Eval.Nar.{FileType, Accessor}
use ogygia_nix.Eval.Nar.Tree.{Node, symlink, directory, regular, Entries, end, entry}

-- The accessor has the tree at the path.
unfoldable mutual
  pub Shows : Accessor → Text → Node → Type 0
  Shows acc path (symlink target) =
      (acc.file_type path ≡ some (some FileType.symlink)) × (acc.read_link path ≡ some target)
  Shows acc path (directory entries) =
      (listed : List (Text × FileType)) × (acc.file_type path ≡ some (some FileType.directory))
      × (acc.read_dir path ≡ some listed)
      × ShowsAll acc path listed entries
  Shows acc path (regular executable contents) =
      (acc.file_type path ≡ some (some FileType.regular))
      × (acc.is_executable path ≡ some executable)
      × (acc.read_file path ≡ some contents)

  pub ShowsAll : Accessor → Text → List (Text × FileType) → Entries → Type 0
  ShowsAll acc path [] end = Unit {0}
  ShowsAll acc path [] (entry _ _ _) = ⊥
  ShowsAll acc path (_ ∷ _) end = ⊥
  ShowsAll acc path (found ∷ listed) (entry name node entries) =
      (found.0 ≡ name) × Shows acc (join path name) node × ShowsAll acc path listed entries

unfoldable mutual
  pub depth : Node → ℕ
  depth (symlink _) = 1
  depth (directory entries) = suc (depth_all entries)
  depth (regular _ _) = 1

  pub depth_all : Entries → ℕ
  depth_all end = 0
  depth_all (entry _ node entries) = max (depth node) (depth_all entries)

pub depth-pos : (node : Node) → 1 ≤ depth node
unfolding depth
depth-pos (symlink _) = omega arith
depth-pos (directory _) = omega arith
depth-pos (regular _ _) = omega arith
