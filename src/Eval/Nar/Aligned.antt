-- ===== src/Eval/Nar/Aligned.antt =====
-- src/ogygia-nix-eval/src/nar.rs: what is written has a length divisible by eight.
use ogygia_nix.Base.{
  ℕ, zero, suc, ◌-◌, ◌%◌, ◌≡◌, refl, Bool, true, false, Option, none, some, List, [], ◌∷◌, length,
  ap, length-append, length-take, arith,
}
use ogygia_nix.Base.Text.{Text, codes}
use ogygia_nix.Eval.Path.{join}
use ogygia_nix.Eval.Nar.{
  FileType, Accessor, Writer, after, Failure, Dump, failed, done, ◌>>◌, try, to_le_bytes, padding,
  write_str, dump_entries, dump_executable, dump_type, dump_found, dump_node, dump, symlink,
  directory, regular, unknown,
}
use ogygia_nix.Eval.Nar.Tree.{str_bytes}
use ogygia_nix.Eval.Nar.Writes.{Accepts, write_str-accepted}

record IsAligned (d : Dump) : Type 0 where
  aligned : (out : Text) → length out % 8 ≡ 0 → length (d out).0 % 8 ≡ 0

failed-IsAligned : (f : Failure) → IsAligned (failed f)
unfolding failed
failed-IsAligned f = record { aligned = λ out h. h }

done-IsAligned : IsAligned done
unfolding done
done-IsAligned = record { aligned = λ out h. h }

after-aligned :
    (r : Text × Option Failure) (b : Dump)
    → IsAligned b
    → length r.0 % 8 ≡ 0
    → length (after r b).0 % 8 ≡ 0
unfolding after
after-aligned (out, none) b k h = k.aligned out h
after-aligned (out, some f) b k h = h

then-IsAligned : (a b : Dump) → IsAligned a → IsAligned b → IsAligned (a >> b)
unfolding ◌>>◌
then-IsAligned a b h k = record { aligned = λ out e. after-aligned (a out) b k (h.aligned out e) }

padding-length : (s : Text) → length (padding s) ≡ (8 - length s % 8) % 8
unfolding padding
padding-length s =
    omega (arith, length-take {A = ℕ} ((8 - length s % 8) % 8) (0 ∷ 0 ∷ 0 ∷ 0 ∷ 0 ∷ 0 ∷ 0 ∷ 0 ∷ []))

str_bytes-aligned : (s : Text) → length (str_bytes s) % 8 ≡ 0
unfolding str_bytes to_le_bytes
str_bytes-aligned s = omega (arith, length-append s (padding s), padding-length s)

try-IsAligned {ℓ} :
    {A : Type ℓ} (o : Option A) (f : Failure) (k : A → Dump)
    → ((a : A) → IsAligned (k a))
    → IsAligned (try o f k)
unfolding try
try-IsAligned none f k h = failed-IsAligned f
try-IsAligned (some a) f k h = h a

ruleset aligned_rules = (failed-IsAligned, done-IsAligned, then-IsAligned, try-IsAligned)

module _ (w : Writer) (accepts : Accepts w) where
  write_str-IsAligned : (s : Text) → IsAligned (write_str w s)
  write_str-IsAligned s = record {
    aligned = λ out h.
        let whole =
          ap (λ (r : Text × Option Failure). length r.0) (write_str-accepted w accepts s out) in
        omega (arith, whole, length-append out (str_bytes s), str_bytes-aligned s, h);
  }

  -- A string and what is written behind it.
  str-IsAligned : (s : Text) (b : Dump) → IsAligned b → IsAligned (write_str w s >> b)
  str-IsAligned s b h = then-IsAligned (write_str w s) b (write_str-IsAligned s) h

  dump_executable-IsAligned : (b : Bool) → IsAligned (dump_executable w b)
  unfolding dump_executable
  dump_executable-IsAligned true = search (aligned_rules, write_str-IsAligned)
  dump_executable-IsAligned false = search aligned_rules

  module _ (child : Text → Dump) (children : (path : Text) → IsAligned (child path))
      (acc : Accessor) where
    dump_entries-IsAligned :
        (path : Text) (entries : List (Text × FileType))
        → IsAligned (dump_entries w child path entries)
    unfolding dump_entries
    dump_entries-IsAligned path [] = search aligned_rules
    dump_entries-IsAligned path ((name, _) ∷ entries) = str-IsAligned _ _ (
        str-IsAligned _ _ (
          str-IsAligned _ _ (
            str-IsAligned _ _ (
              str-IsAligned _ _ (
                then-IsAligned _ _ (children (join path name))
                  (str-IsAligned _ _ (dump_entries-IsAligned path entries)))))))

    dump_type-IsAligned : (path : Text) (ft : FileType) → IsAligned (dump_type w child acc path ft)
    unfolding dump_type
    dump_type-IsAligned path symlink = search (aligned_rules, write_str-IsAligned)
    dump_type-IsAligned path directory =
        search (aligned_rules, write_str-IsAligned, dump_entries-IsAligned)
    dump_type-IsAligned path regular =
        search (aligned_rules, write_str-IsAligned, dump_executable-IsAligned)
    dump_type-IsAligned path unknown = search aligned_rules

    dump_found-IsAligned :
        (path : Text) (o : Option FileType) → IsAligned (dump_found w child acc path o)
    unfolding dump_found
    dump_found-IsAligned path none = search aligned_rules
    dump_found-IsAligned path (some ft) =
        search (aligned_rules, write_str-IsAligned, dump_type-IsAligned)

  dump_node-IsAligned :
      (fuel : ℕ) (acc : Accessor) (path : Text) → IsAligned (dump_node w fuel acc path)
  unfolding dump_node
  dump_node-IsAligned zero acc path = search aligned_rules
  dump_node-IsAligned (suc fuel) acc path =
      let children = dump_node-IsAligned fuel acc in
      try-IsAligned _ _ _ (λ ft. dump_found-IsAligned (dump_node w fuel acc) children acc path ft)

  -- In a writer that takes all it is given, what is written has a length divisible by eight, also
  -- where an error of the accessor ends it.
  pub dump-aligned :
      (fuel : ℕ) (acc : Accessor) (path : Text) → length (dump w fuel acc path []).0 % 8 ≡ 0
  unfolding dump
  dump-aligned fuel acc path =
      (str-IsAligned (codes "nix-archive-1") (dump_node w fuel acc path)
          (dump_node-IsAligned fuel acc path)).aligned
        [] refl
