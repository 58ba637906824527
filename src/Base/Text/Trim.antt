-- ===== src/Base/Text/Trim.antt =====
-- Text that `trim` leaves as it is.
use ogygia_nix.Base.{ℕ, ◌≡◌, ◌≢◌, refl, sym, ◌∙◌, ap, false, [], ◌∷◌, ◌++◌, All}
use ogygia_nix.Base.Text.{Text, trim, trim_start, trim_end, is_whitespace}
use mathlib.Core.List.{reverse, reverse-cons, reverse-reverse, reverse-append, append_assoc}

-- Text that no space begins or ends.
pub record IsValue (v : Text) : Type 0 where
  pub first : ℕ
  pub after : Text
  pub last : ℕ
  pub before_last : Text
  pub begins : v ≡ first ∷ after
  pub ends : v ≡ before_last ++ (last ∷ [])
  pub first_clean : is_whitespace first ≡ false
  pub last_clean : is_whitespace last ≡ false

pub trim_start-first : (c : ℕ) (s : Text) → is_whitespace c ≡ false → trim_start (c ∷ s) ≡ c ∷ s
unfolding trim_start
trim_start-first c s h = rw (trim_start, h) refl

pub trim_end-last :
    (s : Text) (c : ℕ) → is_whitespace c ≡ false → trim_end (s ++ (c ∷ [])) ≡ s ++ (c ∷ [])
unfolding trim_end
trim_end-last s c h =
    ap (λ t. reverse (trim_start t)) (reverse-append s (c ∷ []))
    ∙ ap reverse (trim_start-first c (reverse s) h)
    ∙ reverse-cons c (reverse s)
    ∙ ap (λ t. t ++ (c ∷ [])) (reverse-reverse s)

pub trim-value : (v : Text) → IsValue v → trim v ≡ v
unfolding trim
trim-value v h =
    ap (λ t. trim_end (trim_start t)) h.begins
    ∙ ap trim_end (trim_start-first h.first h.after h.first_clean)
    ∙ ap trim_end (sym h.begins ∙ h.ends)
    ∙ trim_end-last h.before_last h.last h.last_clean
    ∙ sym h.ends

-- A value behind text that no space begins.
pub IsValue-behind :
    (k : ℕ) (ks v : Text) → is_whitespace k ≡ false → IsValue v → IsValue ((k ∷ ks) ++ v)
IsValue-behind k ks v clean h = record {
  first = k;
  after = ks ++ v;
  last = h.last;
  before_last = k ∷ (ks ++ h.before_last);
  begins = refl;
  ends =
      ap (λ t. k ∷ (ks ++ t)) h.ends
      ∙ ap (λ t. k ∷ t) (sym (append_assoc ks h.before_last (h.last ∷ [])));
  first_clean = clean;
  last_clean = h.last_clean;
}

-- Text of one or more characters, none of them a space.
pub record IsWord (v : Text) : Type 0 where
  pub filled : v ≢ []
  pub clean : All (λ c. is_whitespace c ≡ false) v

pub word-IsValue : (v : Text) → IsWord v → IsValue v
word-IsValue [] h = absurd (h.filled refl)
word-IsValue (c ∷ []) h = record {
  first = c;
  after = [];
  last = c;
  before_last = [];
  begins = refl;
  ends = refl;
  first_clean = h.clean.0;
  last_clean = h.clean.0;
}
word-IsValue (c ∷ d ∷ s) h =
    let rest = word-IsValue (d ∷ s) (record { filled = λ e. cc; clean = h.clean.1 }) in
    IsValue-behind c [] (d ∷ s) h.clean.0 rest

-- A word that ends a line.
pub trim-line : (w : Text) → IsWord w → trim (w ++ (b'\n' ∷ [])) ≡ w
trim-line [] h = absurd (h.filled refl)
trim-line (c ∷ s) h =
    let v = word-IsValue (c ∷ s) h in
    let ended : trim_start (b'\n' ∷ reverse (c ∷ s)) ≡ trim_start (reverse (c ∷ s)) =
      unfold trim_start is_whitespace in refl in
    let cut : trim_end ((c ∷ s) ++ (b'\n' ∷ [])) ≡ trim_end (c ∷ s) =
      unfold trim_end in
      ap (λ t. reverse (trim_start t)) (reverse-append (c ∷ s) (b'\n' ∷ [])) ∙ ap reverse ended in
    let whole : trim_end (c ∷ s) ≡ c ∷ s =
      ap trim_end v.ends ∙ trim_end-last v.before_last v.last v.last_clean ∙ sym v.ends in
    let front : trim ((c ∷ s) ++ (b'\n' ∷ [])) ≡ trim_end ((c ∷ s) ++ (b'\n' ∷ [])) =
      unfold trim in ap trim_end (trim_start-first c (s ++ (b'\n' ∷ [])) h.clean.0) in
    front ∙ cut ∙ whole
