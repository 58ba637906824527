-- ===== src/Eval/Nar/Writes.antt =====
-- src/ogygia-nix-eval/src/nar.rs: a string in a writer that takes all it is given.
use ogygia_nix.Base.{◌≡◌, ◌∙◌, ap, true, none, ◌++◌, length}
use ogygia_nix.Base.Text.{Text}
use ogygia_nix.Eval.Nar.{Writer, after, ◌>>◌, wrote, write_all, write_str, to_le_bytes, padding}
use ogygia_nix.Eval.Nar.Tree.{str_bytes}
use mathlib.Core.List.{append_assoc}

-- The writer takes whatever it is given, as one into memory does.
pub record Accepts (w : Writer) : Type 0 where
  pub accepts : (taken bytes : Text) → w.write_all taken bytes ≡ (taken ++ bytes, true)

pub write_all-accepted :
    (w : Writer) → Accepts w → (bytes out : Text) → write_all w bytes out ≡ (out ++ bytes, none)
unfolding write_all wrote
write_all-accepted w h bytes out = ap wrote (h.accepts out bytes)

pub write_str-accepted :
    (w : Writer) → Accepts w → (s out : Text) → write_str w s out ≡ (out ++ str_bytes s, none)
unfolding write_str ◌>>◌ after str_bytes
write_str-accepted w h s out =
    let size = to_le_bytes 8 (length s) in
    ap (λ r. after r (write_all w s >> write_all w (padding s))) (write_all-accepted w h size out)
    ∙ ap (λ r. after r (write_all w (padding s))) (write_all-accepted w h s (out ++ size))
    ∙ write_all-accepted w h (padding s) ((out ++ size) ++ s)
    ∙ ap (λ t. (t, none))
        (append_assoc (out ++ size) s (padding s) ∙ append_assoc out size (s ++ padding s))
