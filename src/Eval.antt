-- ===== src/Eval.antt =====
-- src/ogygia-nix-eval: the evaluator's paths and its Nix Archives. Strings are the bytes of their
-- UTF-8 encoding.
mod Tests
pub mod Path
pub mod Nar
