-- ===== src/Eval/Tests.antt =====
-- The paths and archives at concrete inputs.
use ogygia_nix.Base.{
  leb, take, ◌++◌, ◌≡◌, ◌%◌, ◌≤◌, refl, true, false, none, some, [], ◌∷◌, ◌++◌, All, arith, length,
}
use ogygia_nix.Base.Text.{codes, text_eq}
use ogygia_nix.Base.Text.{strip_prefix}
use ogygia_nix.Base.Split.{rfind}
use ogygia_nix.Eval.Path.{corepkgs, abs, dir_at, canon_path, show, store_name, join, dir_of}
use ogygia_nix.Eval.Path.Components.{IsPart}
use ogygia_nix.Eval.Path.Canonical.{
  IsCanonical, canon_path-IsCanonical, canon_path-join, canon_path-canonical,
}
use ogygia_nix.Eval.Path.Names.{Names, join-dir_of-base_name_of}
use ogygia_nix.Eval.Nar.Writes.{Accepts}
use ogygia_nix.Eval.Nar.{
  FileType, Accessor, Writer, writing, write_str, write_all, wrote, to_le_bytes, padding, after,
  ◌>>◌, try, dump_entries, dump_type, dump_found, dump_node, dump,
}
use ogygia_nix.Eval.Nar.Tree.{Node, directory, regular, end, entry, tokens, strs}
use ogygia_nix.Eval.Nar.Injective.{IsShort, nar_strings}
use ogygia_nix.Eval.Nar.Shown.{Shows, depth}
use ogygia_nix.Eval.Nar.Dumped.{dump-nar, dump-injective}
use ogygia_nix.Eval.Nar.Aligned.{dump-aligned}

canon_path_test : canon_path (codes "/a//b/./c/../d/") ≡ codes "/a/b/d"
unfolding canon_path codes
canon_path_test = refl

canon_path_nix_test : canon_path (codes "<nix>/a/../..") ≡ codes "<nix>/"
unfolding canon_path codes
canon_path_nix_test = refl

dir_of_nix_test : dir_of (codes "<nix>/a") ≡ codes "<nix>/"
unfolding dir_of codes
dir_of_nix_test = refl

show_test : show (codes "<nix>/a") ≡ codes "<nix/a>"
unfolding show codes
show_test = refl

store_name_test : store_name (codes "<nix>/") ≡ codes "source"
unfolding store_name codes
store_name_test = refl

canon_path-IsCanonical_example : IsCanonical (canon_path (codes "<nix>//x/../y"))
canon_path-IsCanonical_example = canon_path-IsCanonical (codes "<nix>//x/../y")

canon_path-join_example :
    canon_path (canon_path (codes "/a/..") ++ (b'/' ∷ codes "../b"))
    ≡ canon_path (codes "/a/.." ++ (b'/' ∷ codes "../b"))
canon_path-join_example = canon_path-join (codes "/a/..") (codes "../b")

a-IsPart : IsPart (codes "a")
unfolding codes
a-IsPart = record {
  kept = unfold text_eq in refl;
  named = unfold text_eq in refl;
  whole = (refl, _);
}

canon_path-canonical_example :
    canon_path (canon_path (codes "/b/../a")) ≡ canon_path (codes "/b/../a")
canon_path-canonical_example =
    canon_path-canonical (canon_path (codes "/b/../a")) (canon_path-IsCanonical (codes "/b/../a"))

join-dir_of-base_name_of_example : Names corepkgs (codes "a" ∷ []) (codes "a")
join-dir_of-base_name_of_example =
    join-dir_of-base_name_of true (codes "a" ∷ []) (codes "a") (a-IsPart, _) a-IsPart

-- A second prefix is a component to dir_of.
dir_of_test : dir_of (codes "<nix><nix>/a") ≡ codes "<nix><nix>"
unfolding dir_of abs rfind dir_at strip_prefix corepkgs codes
dir_of_test = refl

-- A directory with one executable file in it.
abbrev small : Accessor
unfolding text_eq codes
small = record {
  file_type = λ p. elim (text_eq p (codes "/d")) [
    | true ↦ some (some FileType.directory)
    | false ↦ some (some FileType.regular)
  ];
  read_file = λ _. some (codes "hi");
  read_dir = λ _. some ((codes "f", FileType.regular) ∷ []);
  read_link = λ _. none;
  is_executable = λ _. some true;
}

abbrev small_tree : Node
unfolding codes
small_tree = directory (entry (codes "f") (regular true (codes "hi")) end)

small-Shows : Shows small (codes "/d") small_tree
unfolding Shows small small_tree text_eq codes join
small-Shows = ((codes "f", FileType.regular) ∷ [], refl, refl, (refl, (refl, refl, refl), _))

small-IsShort : All IsShort (nar_strings small_tree)
unfolding nar_strings small_tree tokens codes
small-IsShort = (
  omega arith,
  (
    omega arith,
    (
      omega arith,
      (
        omega arith,
        (
          omega arith,
          (
            omega arith,
            (
              omega arith,
              (
                omega arith,
                (
                  omega arith,
                  (
                    omega arith,
                    (
                      omega arith,
                      (
                        omega arith,
                        (
                          omega arith,
                          (
                            omega arith,
                            (
                              omega arith,
                              (omega arith, (omega arith, (omega arith, (omega arith, _)))),
                            ),
                          ),
                        ),
                      ),
                    ),
                  ),
                ),
              ),
            ),
          ),
        ),
      ),
    ),
  ),
)

deep_enough : depth small_tree ≤ 2
unfolding depth small_tree
deep_enough = omega arith

-- A writer into memory.
abbrev memory : Writer
memory = record { write_all = λ taken bytes. (taken ++ bytes, true) }

memory-Accepts : Accepts memory
memory-Accepts = record { accepts = λ taken bytes. refl }

dump-nar_example :
    dump memory 2 small (codes "/d") (7 ∷ []) ≡ ((7 ∷ []) ++ strs (nar_strings small_tree), none)
dump-nar_example =
    dump-nar memory memory-Accepts small (codes "/d") small_tree 2 (7 ∷ []) small-Shows deep_enough

-- The same archive from a deeper limit.
small_again : dump memory 2 small (codes "/d") [] ≡ dump memory 3 small (codes "/d") []
unfolding dump dump_node try dump_found dump_type dump_entries small codes join text_eq
small_again = refl

dump-injective_example : small_tree ≡ small_tree
dump-injective_example =
    dump-injective memory memory small small (codes "/d") (codes "/d") small_tree small_tree 2 3
      memory-Accepts memory-Accepts small-Shows small-Shows deep_enough (omega (arith, deep_enough))
      small-IsShort small-IsShort small_again

dump-aligned_example : length (dump memory 2 small (codes "/d") []).0 % 8 ≡ 0
dump-aligned_example = dump-aligned memory memory-Accepts 2 small (codes "/d")

-- A disk with room for sixteen bytes ends the archive within its first string.
abbrev small_disk : Writer
small_disk = record {
  write_all = λ taken bytes. (take 16 (taken ++ bytes), leb (length (taken ++ bytes)) 16);
}

write_error_test : (dump small_disk 2 small (codes "/d") []).1 ≡ some writing
unfolding dump write_str write_all wrote to_le_bytes padding after codes ◌>>◌
write_error_test = refl
