-- ===== src/Eval/Path/Components.antt =====
-- src/ogygia-nix-eval/src/path.rs: the components that the loop of canon_path keeps.
use ogygia_nix.Base.{
  ℕ, zero, suc, ◌≡◌, refl, sym, ◌∙◌, ap, Bool, true, false, ◌||◌, List, [], ◌∷◌, ◌++◌, drop, All,
  All-append,
}
use ogygia_nix.Base.Text.{Text, codes, text_eq}
use ogygia_nix.Base.Split.{onto, split, Lacks, split-part, split_lone, split_at_sep}
use ogygia_nix.Eval.Path.{push_part, push_parts, slashed, show_parts}
use mathlib.Core.List.{reverse, append_assoc, append-nil, reverse-cons}

-- A component that stays: it is not empty, `.` or `..`, and has no slash.
pub record IsPart (c : Text) : Type 0 where
  pub kept : (text_eq c [] || text_eq c (codes ".")) ≡ false
  pub named : text_eq c (codes "..") ≡ false
  pub whole : Lacks b'/' c

All-drop : (n : ℕ) (parts : List Text) → All IsPart parts → All IsPart (drop n parts)
All-drop zero parts h = h
All-drop (suc n) [] h = h
All-drop (suc n) (c ∷ parts) h = All-drop n parts h.1

push_part-IsPart :
    (parts : List Text) (c : Text)
    → All IsPart parts
    → Lacks b'/' c
    → All IsPart (push_part parts c)
unfolding push_part
push_part-IsPart parts c h lacks =
    pushed (text_eq c [] || text_eq c (codes ".")) (text_eq c (codes "..")) refl refl
  where
    pushed :
        (skip up : Bool)
        → (text_eq c [] || text_eq c (codes ".")) ≡ skip
        → text_eq c (codes "..") ≡ up
        → All IsPart (push_part parts c)
    pushed true up e f = rw e h
    pushed false true e f = rw (e, f) (All-drop 1 parts h)
    pushed false false e f = rw (e, f) (record { kept = e; named = f; whole = lacks }, h)

pub push_parts-IsPart :
    (parts comps : List Text)
    → All IsPart parts
    → All (Lacks b'/') comps
    → All IsPart (push_parts parts comps)
unfolding push_parts
push_parts-IsPart parts [] h k = h
push_parts-IsPart parts (c ∷ comps) h k =
    push_parts-IsPart (push_part parts c) comps (push_part-IsPart parts c h k.0) k.1

pub All-reverse : (parts : List Text) → All IsPart parts → All IsPart (reverse parts)
All-reverse [] h = h
All-reverse (c ∷ parts) h =
    rw (reverse-cons c parts)
      (All-append IsPart (reverse parts) (c ∷ []) (All-reverse parts h.1) (h.0, _))

push_part-keeps : (parts : List Text) (c : Text) → IsPart c → push_part parts c ≡ c ∷ parts
unfolding push_part
push_part-keeps parts c h = rw (h.kept, h.named) refl

push_parts-keeps :
    (parts comps : List Text) → All IsPart comps → push_parts parts comps ≡ reverse comps ++ parts
unfolding push_parts
push_parts-keeps parts [] h = refl
push_parts-keeps parts (c ∷ comps) h =
    rw (push_part-keeps parts c h.0, push_parts-keeps (c ∷ parts) comps h.1, reverse-cons c comps)
      (sym (append_assoc (reverse comps) (c ∷ []) parts))

pub push_parts-append :
    (parts xs ys : List Text) → push_parts parts (xs ++ ys) ≡ push_parts (push_parts parts xs) ys
unfolding push_parts
push_parts-append parts [] ys = refl
push_parts-append parts (x ∷ xs) ys = push_parts-append (push_part parts x) xs ys

pub split-tail :
    (c : Text) (parts : List Text)
    → Lacks b'/' c
    → All IsPart parts
    → split b'/' (c ++ slashed parts) ≡ c ∷ parts
unfolding slashed
split-tail c [] h k = rw (append-nil c) (split_lone b'/' c h)
split-tail c (d ∷ parts) h k =
    rw (split-part b'/' c (d ++ slashed parts) h, split-tail d parts k.0.whole k.1) refl

-- What is printed reads as the same components.
pub push_parts-show :
    (parts : List Text)
    → All IsPart parts
    → push_parts [] (split b'/' (show_parts parts)) ≡ reverse parts
unfolding push_parts
push_parts-show [] h = unfold show_parts split onto push_part text_eq codes in refl
push_parts-show (c ∷ parts) h =
    let e : split b'/' (show_parts (c ∷ parts)) ≡ [] ∷ c ∷ parts =
      unfold show_parts slashed in
      split_at_sep b'/' (c ++ slashed parts) ∙ ap (◌∷◌ []) (split-tail c parts h.0.whole h.1) in
    rw (e, push_parts-keeps [] (c ∷ parts) h) (append-nil (reverse (c ∷ parts)))
