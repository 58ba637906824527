-- ===== src/Base/Text/Decimal.antt =====
-- Decimal digits read back: `str::parse` of an unsigned integer.
use ogygia_nix.Base.{
  ℕ, zero, suc, ◌+◌, ◌-◌, ◌*◌, ◌/◌, ◌%◌, ◌^◌, ◌<◌, ◌≤◌, ◌==◌, ◌≡◌, ◌≢◌, refl, sym, ◌∙◌, ap, Bool,
  true, false, ◌&&◌, Option, none, some, [], ◌∷◌, ◌++◌, leb, ltb, if◌then◌else◌, lt→ltb, All, arith,
}
use ogygia_nix.Base.Text.{Text, digits_rev, decimal, is_whitespace}
use mathlib.Core.List.{reverse, reverse-cons, reverse-reverse}

abbrev is_digit : ℕ → Bool
is_digit c = leb 48 c && leb c 57

-- The digits behind a number that was read before them.
unfoldable pub parse_digits : Text → ℕ → Option ℕ
parse_digits [] n = some n
parse_digits (c ∷ s) n =
    let rest = parse_digits s (n * 10 + (c - 48)) in if is_digit c then rest else none

-- `parse::<u64>()`, which takes a plus sign too.
unfoldable pub unsigned : Text → Option ℕ
unfolding parse_digits
unsigned [] = none
unsigned (c ∷ []) = parse_digits (c ∷ []) 0
unsigned (c ∷ d ∷ s) = parse_digits (if c == b'+' then d ∷ s else c ∷ d ∷ s) 0

unfoldable pub in_range : Option ℕ → Option ℕ
in_range none = none
in_range (some n) = if ltb n (2 ^ 64) then some n else none

unfoldable pub parse_u64 : Text → Option ℕ
unfolding unsigned in_range
parse_u64 s = in_range (unsigned s)

digit_space : (c : ℕ) → is_digit c ≡ true → is_whitespace c ≡ false
unfolding is_whitespace
digit_space c h = ground arith

digit_read : (d : ℕ) → d < 10 → is_digit (48 + d) ≡ true
digit_read d h = ground arith

parse_digits-snoc :
    (s : Text) (d m n : ℕ)
    → parse_digits s m ≡ some n
    → d < 10
    → parse_digits (s ++ ((48 + d) ∷ [])) m ≡ some (n * 10 + d)
unfolding parse_digits
parse_digits-snoc [] d m n h small =
    let e : m * 10 + (48 + d - 48) ≡ n * 10 + d = omega (arith, some-injective m n h) in
    rw (digit_read d small, e) refl
  where
    some-injective : (a b : ℕ) → some a ≡ some b → a ≡ b
    some-injective a b e = cc
parse_digits-snoc (c ∷ s) d m n h small =
    snoc (is_digit c) (λ k. parse_digits-snoc s d (m * 10 + (c - 48)) n k small) h
  where
    snoc :
        (b : Bool)
        → (parse_digits s (m * 10 + (c - 48)) ≡ some n
            → parse_digits (s ++ ((48 + d) ∷ [])) (m * 10 + (c - 48)) ≡ some (n * 10 + d))
        → (if b then parse_digits s (m * 10 + (c - 48)) else none) ≡ some n
        → (if b then parse_digits (s ++ ((48 + d) ∷ [])) (m * 10 + (c - 48)) else none)
          ≡ some (n * 10 + d)
    snoc true k e = k e
    snoc false k e = cc

digits_rev-read : (fuel n : ℕ) → n < fuel → parse_digits (reverse (digits_rev fuel n)) 0 ≡ some n
unfolding digits_rev
digits_rev-read zero n h = absurd (omega arith)
digits_rev-read (suc fuel) n h = by_size (ltb n 10) refl (digits_rev-read fuel (n / 10))
  where
    by_size :
        (b : Bool)
        → ltb n 10 ≡ b
        → (n / 10 < fuel → parse_digits (reverse (digits_rev fuel (n / 10))) 0 ≡ some (n / 10))
        → parse_digits
            (reverse (if b then ((48 + n) ∷ []) else ((48 + n % 10) ∷ digits_rev fuel (n / 10))))
            0
          ≡ some n
    by_size true e k =
        let small : n < 10 = ground arith in
        let read : 0 * 10 + n ≡ n = omega arith in
        parse_digits-snoc [] n 0 0 (unfold parse_digits in refl) small ∙ ap some read
    by_size false e k =
        let large : 10 ≤ n = ground arith in
        let fewer : n / 10 < fuel = omega arith in
        let whole : n / 10 * 10 + n % 10 ≡ n = omega arith in
        ap (λ s. parse_digits s 0) (reverse-cons (48 + n % 10) (digits_rev fuel (n / 10)))
        ∙ parse_digits-snoc (reverse (digits_rev fuel (n / 10))) (n % 10) 0 (n / 10) (k fewer)
            (omega arith)
        ∙ ap some whole

digits_rev-filled : (fuel n : ℕ) → digits_rev (suc fuel) n ≢ []
unfolding digits_rev
digits_rev-filled fuel n = of_size (ltb n 10)
  where
    of_size :
        (b : Bool)
        → (if b then ((48 + n) ∷ []) else ((48 + n % 10) ∷ digits_rev fuel (n / 10))) ≢ []
    of_size true e = cc
    of_size false e = cc

unsigned-digits : (s : Text) (n : ℕ) → s ≢ [] → parse_digits s 0 ≡ some n → unsigned s ≡ some n
unfolding unsigned
unsigned-digits [] n h e = absurd (h refl)
unsigned-digits (c ∷ []) n h e = e
unsigned-digits (c ∷ d ∷ s) n h e = of_sign (c == b'+') refl
  where
    of_sign :
        (b : Bool) → (c == b'+') ≡ b → parse_digits (if b then d ∷ s else c ∷ d ∷ s) 0 ≡ some n
    of_sign true same =
        let digit : is_digit c ≡ false = ground arith in
        let none_read : parse_digits (c ∷ d ∷ s) 0 ≡ none = unfold parse_digits in rw digit refl in
        cc
    of_sign false other = e

digits-Clean :
    (s : Text) (m n : ℕ) → parse_digits s m ≡ some n → All (λ c. is_whitespace c ≡ false) s
unfolding parse_digits
digits-Clean [] m n h = _
digits-Clean (c ∷ s) m n h = of_digit (is_digit c) refl (digits-Clean s (m * 10 + (c - 48)) n) h
  where
    of_digit :
        (b : Bool)
        → is_digit c ≡ b
        → (parse_digits s (m * 10 + (c - 48)) ≡ some n → All (λ x. is_whitespace x ≡ false) s)
        → (if b then parse_digits s (m * 10 + (c - 48)) else none) ≡ some n
        → (is_whitespace c ≡ false) × All (λ x. is_whitespace x ≡ false) s
    of_digit true e k h = (digit_space c e, k h)
    of_digit false e k h = cc

-- The digits of a number are one or more, and none of them is a space.
pub decimal-filled : (n : ℕ) → decimal n ≢ []
unfolding decimal
decimal-filled n e =
    digits_rev-filled n n (sym (reverse-reverse (digits_rev (suc n) n)) ∙ ap reverse e)

pub decimal-Clean : (n : ℕ) → All (λ c. is_whitespace c ≡ false) (decimal n)
unfolding decimal
decimal-Clean n = digits-Clean _ 0 n (digits_rev-read (suc n) n (omega arith))

-- A number of 64 bits is read back from its decimal digits.
pub parse_u64-decimal : (n : ℕ) → n < 2 ^ 64 → parse_u64 (decimal n) ≡ some n
unfolding parse_u64 decimal
parse_u64-decimal n h =
    let filled : reverse (digits_rev (suc n) n) ≢ [] =
      λ e. digits_rev-filled n n (sym (reverse-reverse (digits_rev (suc n) n)) ∙ ap reverse e) in
    let read = digits_rev-read (suc n) n (omega arith) in
    ap in_range (unsigned-digits (reverse (digits_rev (suc n) n)) n filled read) ∙ in_range-ok
  where
    in_range-ok : in_range (some n) ≡ some n
    in_range-ok = unfold in_range in rw (lt→ltb n (2 ^ 64) h) refl
