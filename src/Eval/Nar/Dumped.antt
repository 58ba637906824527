-- ===== src/Eval/Nar/Dumped.antt =====
-- src/ogygia-nix-eval/src/nar.rs: what dump writes for a tree of files.
use ogygia_nix.Base.{
  fun_ext, Option, ◌++◌, ℕ, zero, suc, ◌≤◌, ◌≡◌, refl, sym, ◌∙◌, ap, subst, Bool, true, false, none,
  some, List, [], ◌∷◌, All, arith,
}
use ogygia_nix.Base.Text.{Text, codes}
use ogygia_nix.Eval.Path.{join}
use ogygia_nix.Eval.Nar.{
  FileType, Accessor, reading, reading_file, Dump, Failure, Writer, after, done, ◌>>◌, try,
  write_str, dump_entries, dump_executable, dump_type, dump_found, dump_node, dump,
}
use ogygia_nix.Eval.Nar.Tree.{
  Node, symlink, directory, regular, Entries, end, entry, executable_tokens, tokens, str_bytes,
  entry_tokens, strs,
}
use ogygia_nix.Eval.Nar.Injective.{IsShort, nar_strings, nar-injective}
use ogygia_nix.Eval.Nar.Shown.{Shows, ShowsAll, depth, depth_all, depth-pos}
use ogygia_nix.Eval.Nar.Writes.{Accepts, write_str-accepted}
use mathlib.Core.List.{append_assoc, append-nil}

-- All of it is written behind what was there, and no error.
abbrev Writes : Dump → List Text → Type 0
Writes d texts = (out : Text) → d out ≡ (out ++ strs texts, none)

after_assoc : (r : Text × Option Failure) (b c : Dump) → after (after r b) c ≡ after r (b >> c)
unfolding ◌>>◌ after
after_assoc (x, none) b c = refl
after_assoc (x, some f) b c = refl

then_assoc : (a b c : Dump) → (a >> b) >> c ≡ a >> (b >> c)
unfolding ◌>>◌
then_assoc a b c = fun_ext (λ out. after_assoc (a out) b c)

Writes-done : (rest : Dump) (ys : List Text) → Writes rest ys → Writes (done >> rest) ys
unfolding done ◌>>◌ after
Writes-done rest ys h = h

after-done : (r : Text × Option Failure) → after r done ≡ r
unfolding after done
after-done (x, none) = refl
after-done (x, some f) = refl

then-done : (d : Dump) → d >> done ≡ d
unfolding ◌>>◌
then-done d = fun_ext (λ out. after-done (d out))

done-Writes : Writes done []
unfolding done strs
done-Writes out = ap (λ t. (t, none)) (sym (append-nil out))

module _ (w : Writer) (accepts : Accepts w) where
  Writes-last :
      (s : Text) (rest : Dump) (ys : List Text)
      → Writes rest ys
      → Writes (write_str w s >> rest) (s ∷ ys)
  unfolding ◌>>◌ after strs
  Writes-last s rest ys h out =
      ap (λ r. after r rest) (write_str-accepted w accepts s out)
      ∙ h (out ++ str_bytes s)
      ∙ ap (λ t. (t, none)) (append_assoc out (str_bytes s) (strs ys))

  -- A string is written, then what follows it.
  Writes-str :
      (s : Text) (b rest : Dump) (ys : List Text)
      → Writes (b >> rest) ys
      → Writes ((write_str w s >> b) >> rest) (s ∷ ys)
  Writes-str s b rest ys h = rw (then_assoc (write_str w s) b rest) (Writes-last s (b >> rest) ys h)

  dump_executable-Writes :
      (b : Bool) (rest : Dump) (ys : List Text)
      → Writes rest ys
      → Writes (dump_executable w b >> rest) (executable_tokens b ys)
  dump_executable-Writes true rest ys h =
      unfold dump_executable executable_tokens in
      Writes-str (codes "executable") (write_str w []) rest ([] ∷ ys) (Writes-last [] rest ys h)
  dump_executable-Writes false rest ys h =
      unfold dump_executable executable_tokens in Writes-done rest ys h

  -- The call for a node, with what is written behind it.
  Dumps : (Text → Dump) → Accessor → ℕ → Type 0
  Dumps child acc fuel =
      (path : Text) (node : Node) (rest : Dump) (ys : List Text)
      → Shows acc path node
      → depth node ≤ fuel
      → Writes rest ys
      → Writes (child path >> rest) (tokens node ys)

  module _ (child : Text → Dump) (acc : Accessor) (fuel : ℕ) (dumps : Dumps child acc fuel) where
    dump_entries-Writes :
        (path : Text) (listed : List (Text × FileType)) (entries : Entries) (rest : Dump)
        (ys : List Text)
        → ShowsAll acc path listed entries
        → depth_all entries ≤ fuel
        → Writes rest ys
        → Writes (dump_entries w child path listed >> rest) (entry_tokens entries ys)
    unfolding dump_entries entry_tokens ShowsAll depth Dumps
    dump_entries-Writes path [] end rest ys shows deep h = Writes-done rest ys h
    dump_entries-Writes path [] (entry n node entries) rest ys shows deep h = absurd shows
    dump_entries-Writes path (_ ∷ _) end rest ys shows deep h = absurd shows
    dump_entries-Writes path ((name, ft) ∷ listed) (entry n node entries) rest ys shows deep h =
        let more = dump_entries-Writes path listed entries rest ys shows.2 (omega arith) h in
        let behind = Writes-str (codes ")") (dump_entries w child path listed) rest _ more in
        let tail = write_str w (codes ")") >> dump_entries w child path listed in
        let inner : Writes ((child (join path name) >> tail) >> rest)
            (tokens node (codes ")" ∷ entry_tokens entries ys)) =
          rw (shows.0, then_assoc (child (join path n)) tail rest)
            (dumps (join path n) node (tail >> rest) _ shows.1 (omega arith) behind) in
        let named : Writes
            ((write_str w name >> write_str w (codes "node") >> child (join path name) >> tail)
              >> rest)
            (n ∷ codes "node" ∷ tokens node (codes ")" ∷ entry_tokens entries ys)) =
          rw shows.0 (
            Writes-str n _ rest _ (
              Writes-str (codes "node") _ rest _ (
                subst
                  (λ m.
                    Writes ((child (join path m) >> tail) >> rest)
                      (tokens node (codes ")" ∷ entry_tokens entries ys)))
                  shows.0 inner))) in
        Writes-str (codes "entry") _ rest _
          (Writes-str (codes "(") _ rest _ (Writes-str (codes "name") _ rest _ named))

    -- Everything behind the type of a node.
    dump_symlink-Writes :
        (path target : Text) (rest : Dump) (ys : List Text)
        → acc.read_link path ≡ some target
        → Writes rest ys
        → Writes
            (dump_type w child acc path FileType.symlink >> rest)
            (codes "symlink" ∷ codes "target" ∷ target ∷ ys)
    unfolding dump_type try
    dump_symlink-Writes path target rest ys e h =
        Writes-str (codes "symlink") _ rest _
          (Writes-str (codes "target") _ rest _ (rw e (Writes-last target rest ys h)))

    dump_directory-Writes :
        (path : Text) (listed : List (Text × FileType)) (entries : Entries) (rest : Dump)
        (ys : List Text)
        → acc.read_dir path ≡ some listed
        → ShowsAll acc path listed entries
        → depth_all entries ≤ fuel
        → Writes rest ys
        → Writes
            (dump_type w child acc path FileType.directory >> rest)
            (codes "directory" ∷ entry_tokens entries ys)
    unfolding dump_type try
    dump_directory-Writes path listed entries rest ys e shows deep h =
        Writes-str (codes "directory") _ rest _
          (rw e (dump_entries-Writes path listed entries rest ys shows deep h))

    dump_regular-Writes :
        (path : Text) (executable : Bool) (contents : Text) (rest : Dump) (ys : List Text)
        → acc.is_executable path ≡ some executable
        → acc.read_file path ≡ some contents
        → Writes rest ys
        → Writes
            (dump_type w child acc path FileType.regular >> rest)
            (codes "regular" ∷ executable_tokens executable (codes "contents" ∷ contents ∷ ys))
    unfolding dump_type try
    dump_regular-Writes path executable contents rest ys e f h =
        let file : Writes
            (try (acc.read_file path) (reading_file path) (λ c. write_str w c) >> rest)
            (contents ∷ ys) =
          rw f (Writes-last contents rest ys h) in
        let body = Writes-str (codes "contents") _ rest _ file in
        Writes-str (codes "regular") _ rest _ (
          rw (e, then_assoc (dump_executable w executable) _ rest)
            (dump_executable-Writes executable _ _ body))

    dump_found-Writes :
        (path : Text) (ft : FileType) (rest : Dump) (ys : List Text)
        → Writes (dump_type w child acc path ft >> (write_str w (codes ")") >> rest)) ys
        → Writes (dump_found w child acc path (some ft) >> rest) (codes "(" ∷ codes "type" ∷ ys)
    unfolding dump_found
    dump_found-Writes path ft rest ys h = Writes-str (codes "(") _ rest _ (
        Writes-str (codes "type") _ rest _
          (rw (then_assoc (dump_type w child acc path ft) (write_str w (codes ")")) rest) h))

    dump_typed-Writes :
        (path : Text) (node : Node) (rest : Dump) (ys : List Text)
        → Shows acc path node
        → depth node ≤ suc fuel
        → Writes rest ys
        → Writes
            (try (acc.file_type path) (reading path) (λ ft. dump_found w child acc path ft) >> rest)
            (tokens node ys)
    unfolding Shows depth tokens try
    dump_typed-Writes path (symlink target) rest ys shows deep h = rw shows.0 (
        dump_found-Writes path FileType.symlink rest _
          (dump_symlink-Writes path target _ _ shows.1 (Writes-last (codes ")") rest ys h)))
    dump_typed-Writes path (directory entries) rest ys shows deep h = rw shows.1 (
        dump_found-Writes path FileType.directory rest _ (
          dump_directory-Writes path shows.0 entries _ _ shows.2 shows.3 (omega arith)
            (Writes-last (codes ")") rest ys h)))
    dump_typed-Writes path (regular executable contents) rest ys shows deep h = rw shows.0 (
        dump_found-Writes path FileType.regular rest _ (
          dump_regular-Writes path executable contents _ _ shows.1 shows.2
            (Writes-last (codes ")") rest ys h)))

  dump_node-Writes : (acc : Accessor) (fuel : ℕ) → Dumps (dump_node w fuel acc) acc fuel
  unfolding Dumps dump_node
  dump_node-Writes acc zero path node rest ys shows deep h = absurd (omega (arith, depth-pos node))
  dump_node-Writes acc (suc fuel) path node rest ys shows deep h =
      dump_typed-Writes (dump_node w fuel acc) acc fuel (dump_node-Writes acc fuel) path node rest
        ys shows deep h

  -- A tree that the accessor has at the path is written in full, without an error, as the archive of
  -- that tree, behind what the writer has taken before, if the writer takes all it is given and the
  -- fuel is at least the tree's depth.
  pub dump-nar :
      (acc : Accessor) (path : Text) (tree : Node) (fuel : ℕ) (out : Text)
      → Shows acc path tree
      → depth tree ≤ fuel
      → dump w fuel acc path out ≡ (out ++ strs (nar_strings tree), none)
  unfolding dump nar_strings Dumps
  dump-nar acc path tree fuel out shows deep =
      Writes-last (codes "nix-archive-1") (dump_node w fuel acc path) (tokens tree [])
        (subst (λ d. Writes d (tokens tree [])) (then-done (dump_node w fuel acc path))
          (dump_node-Writes acc fuel path tree done [] shows deep done-Writes))
        out

-- Two trees whose names, targets and contents are shorter than 2^64 bytes and which are written as
-- the same bytes, by writers that take all they are given, are the same tree, wherever they lie.
pub dump-injective :
    (w w' : Writer) (acc acc' : Accessor) (path path' : Text) (tree tree' : Node) (fuel fuel' : ℕ)
    → Accepts w
    → Accepts w'
    → Shows acc path tree
    → Shows acc' path' tree'
    → depth tree ≤ fuel
    → depth tree' ≤ fuel'
    → All IsShort (nar_strings tree)
    → All IsShort (nar_strings tree')
    → dump w fuel acc path [] ≡ dump w' fuel' acc' path' []
    → tree ≡ tree'
dump-injective w w' acc acc' path path' tree tree' fuel fuel' accepts accepts' shows shows' deep
      deep' short short' e =
    let written = dump-nar w accepts acc path tree fuel [] shows deep in
    let written' = dump-nar w' accepts' acc' path' tree' fuel' [] shows' deep' in
    nar-injective tree tree' short short'
      (ap (λ (r : Text × Option Failure). r.0) (sym written ∙ e ∙ written'))
