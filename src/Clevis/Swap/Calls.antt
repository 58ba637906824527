-- ===== src/Clevis/Swap/Calls.antt =====
-- src/ogygia-clevis/src/swap.rs: the rule for a call that the operating system may refuse.
use ogygia_nix.Base.{Bool, true, false}
use ogygia_nix.Clevis.Disk.{Disk, Failure}
use ogygia_nix.Clevis.Disk.Rules.{Ends, Safe}
use ogygia_nix.Clevis.Swap.{Os, attempt, try}

attempt-Ends :
    {I Q : Disk → Type 0} (refused : Bool) (what : Failure) (before after : Disk)
    → I before
    → I after
    → Q after
    → Ends I (λ _. Q) (attempt refused what before after)
unfolding attempt
attempt-Ends true what before after i j q = record {
  during = tt;
  last = i;
  success = λ a e. absurd cc;
}
attempt-Ends false what before after i j q = record {
  during = (i, tt);
  last = j;
  success = λ _ _. q;
}

pub try-Safe :
    {I P Q : Disk → Type 0} (os : Os) (what : Failure) (change : Disk → Disk)
    → ((d : Disk) → P d → I d)
    → ((d : Disk) → P d → I (change d) × Q (change d))
    → Safe I P (try os what change) (λ _. Q)
unfolding try
try-Safe os what change h k = record {
  safe = λ d p. attempt-Ends (os.refuses what) what d (change d) (h d p) (k d p).0 (k d p).1;
}
