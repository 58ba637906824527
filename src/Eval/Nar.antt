-- ===== src/Eval/Nar.antt =====
-- src/ogygia-nix-eval/src/nar.rs, and the part of accessor.rs that it reads: a tree of files as a
-- Nix Archive. The accessor is a parameter; the causes of its errors are not kept.
pub mod Tree
pub mod Shown
pub mod Writes
pub mod Aligned
pub mod Dumped
pub mod Injective
use ogygia_nix.Base.{
  ℕ, zero, suc, ◌+◌, ◌-◌, ◌/◌, ◌%◌, Bool, true, false, Option, none, some, List, [], ◌∷◌, ◌++◌,
  length, take,
}
use ogygia_nix.Base.Text.{Text, codes}
use ogygia_nix.Eval.Path.{join}

pub data FileType : Type 0 where
  regular directory symlink unknown : FileType

-- What `dump` asks an accessor; `none` is an error.
pub record Accessor : Type 0 where
  pub file_type : Text → Option (Option FileType)
  pub read_file : Text → Option Text
  pub read_dir : Text → Option (List (Text × FileType))
  pub read_link : Text → Option Text
  pub is_executable : Text → Option Bool

pub data Failure : Type 0 where
  reading reading_file reading_directory missing unsupported : Text → Failure
  writing too_deep : Failure

-- `write_all`: what a writer that has taken so much has taken then, and whether it succeeded.
pub record Writer : Type 0 where
  pub write_all : (taken bytes : Text) → Text × Bool

-- From what the writer has taken before to what it has taken, and the error that ended it.
abbrev pub Dump : Type 0
Dump = Text → Text × Option Failure

unfoldable pub failed : Failure → Dump
failed f out = (out, some f)

unfoldable pub done : Dump
done out = (out, none)

unfoldable pub after : Text × Option Failure → Dump → Text × Option Failure
after (out, none) b = b out
after (out, some f) b = (out, some f)

infixr 20 ◌>>◌
unfoldable pub ◌>>◌ : Dump → Dump → Dump
unfolding after
◌>>◌ a b out = after (a out) b

-- `with_context` and `?`.
unfoldable pub try {ℓ} : {A : Type ℓ} → Option A → Failure → (A → Dump) → Dump
unfolding failed
try none f k = failed f
try (some a) f k = k a

unfoldable pub to_le_bytes : ℕ → ℕ → Text
to_le_bytes zero n = []
to_le_bytes (suc k) n = n % 256 ∷ to_le_bytes k (n / 256)

unfoldable pub padding : Text → Text
padding s = take ((8 - length s % 8) % 8) (0 ∷ 0 ∷ 0 ∷ 0 ∷ 0 ∷ 0 ∷ 0 ∷ 0 ∷ [])

unfoldable pub wrote : Text × Bool → Text × Option Failure
wrote (out, true) = (out, none)
wrote (out, false) = (out, some writing)

module _ (w : Writer) where
  unfoldable pub write_all : Text → Dump
  unfolding wrote
  write_all bytes out = wrote (w.write_all out bytes)

  unfoldable pub write_str : Text → Dump
  unfolding write_all padding to_le_bytes
  write_str s = write_all (to_le_bytes 8 (length s)) >> write_all s >> write_all (padding s)

  -- The loop over the entries; `child` is the call for the node.
  unfoldable pub dump_entries : (child : Text → Dump) → Text → List (Text × FileType) → Dump
  dump_entries child path [] = done
  dump_entries child path ((name, _) ∷ entries) =
      write_str (codes "entry")
      >> write_str (codes "(")
      >> write_str (codes "name")
      >> write_str name
      >> write_str (codes "node")
      >> child (join path name)
      >> write_str (codes ")")
      >> dump_entries child path entries

  unfoldable pub dump_executable : Bool → Dump
  dump_executable true = write_str (codes "executable") >> write_str []
  dump_executable false = done

  -- `match ft`.
  unfoldable pub dump_type : (child : Text → Dump) → Accessor → Text → FileType → Dump
  dump_type child acc path symlink =
      write_str (codes "symlink")
      >> write_str (codes "target")
      >> try (acc.read_link path) (reading path) (λ target. write_str target)
  dump_type child acc path directory =
      write_str (codes "directory")
      >> try (acc.read_dir path) (reading_directory path)
          (λ entries. dump_entries child path entries)
  dump_type child acc path regular =
      write_str (codes "regular")
      >> try (acc.is_executable path) (reading path) (λ b. dump_executable b)
      >> write_str (codes "contents")
      >> try (acc.read_file path) (reading_file path) (λ contents. write_str contents)
  dump_type child acc path unknown = failed (unsupported path)

  unfoldable pub dump_found : (child : Text → Dump) → Accessor → Text → Option FileType → Dump
  dump_found child acc path none = failed (missing path)
  dump_found child acc path (some ft) =
      write_str (codes "(")
      >> write_str (codes "type")
      >> dump_type child acc path ft
      >> write_str (codes ")")

  -- The fuel bounds the depth of the tree.
  unfoldable pub dump_node : ℕ → Accessor → Text → Dump
  dump_node zero acc path = failed too_deep
  dump_node (suc fuel) acc path =
      try (acc.file_type path) (reading path)
        (λ ft. dump_found (λ child. dump_node fuel acc child) acc path ft)

  unfoldable pub dump : ℕ → Accessor → Text → Dump
  dump fuel acc path = write_str (codes "nix-archive-1") >> dump_node fuel acc path
