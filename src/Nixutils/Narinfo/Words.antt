-- ===== src/Nixutils/Narinfo/Words.antt =====
-- src/ogygia-nixutils/src/narinfo.rs: references, joined by spaces and split again.
use ogygia_nix.Base.{
  ℕ, ◌≡◌, ◌≢◌, refl, ◌∙◌, ap, subst, Bool, true, false, List, [], ◌∷◌, ◌++◌, ◌==◌, All, All-append,
  ==_iff,
}
use mathlib.Core.List.{append-nil, append_assoc}
use ogygia_nix.Base.Text.{Text, is_whitespace}
use ogygia_nix.Base.Split.{Lacks, split, split-part, split_lone}
use ogygia_nix.Nixutils.Narinfo.{is_blank, words_of, spaces, split_whitespace, join_words}
use ogygia_nix.Base.Text.Trim.{IsWord, IsValue, word-IsValue, IsValue-behind}

-- Text without a space has no character that is one.
pub clean-Lacks :
    (c : ℕ) → is_whitespace c ≡ true → (s : Text) → All (λ x. is_whitespace x ≡ false) s → Lacks c s
clean-Lacks c space [] h = _
clean-Lacks c space (x ∷ s) h = (differs (x == c) refl, clean-Lacks c space s h.1)
  where
    differs : (b : Bool) → (x == c) ≡ b → (x == c) ≡ false
    differs true e = let same : x ≡ c = (==_iff x c).0 e in cc
    differs false e = e

spaces-word :
    (w rest : Text) → All (λ x. is_whitespace x ≡ false) w → spaces (w ++ rest) ≡ w ++ spaces rest
unfolding spaces
spaces-word [] rest h = refl
spaces-word (x ∷ w) rest h = rw (h.0, spaces-word w rest h.1) refl

empty : (w : Text) → w ++ spaces [] ≡ w
unfolding spaces
empty w = append-nil w

space : (s : Text) → spaces (b' ' ∷ s) ≡ b' ' ∷ spaces s
unfolding spaces is_whitespace
space s = refl

a_space : is_whitespace b' ' ≡ true
unfolding is_whitespace
a_space = refl

spaces-join : (ws : List Text) → All IsWord ws → spaces (join_words ws) ≡ join_words ws
unfolding join_words
spaces-join [] h = unfold spaces in refl
spaces-join (w ∷ []) h =
    subst (λ t. spaces t ≡ w) (append-nil w) (spaces-word w [] h.0.clean ∙ empty w)
spaces-join (w ∷ v ∷ ws) h =
    spaces-word w (b' ' ∷ join_words (v ∷ ws)) h.0.clean
    ∙ ap (λ t. w ++ t) (space (join_words (v ∷ ws)))
    ∙ ap (λ t. w ++ (b' ' ∷ t)) (spaces-join (v ∷ ws) h.1)

words_of-word : (w : Text) (ws : List Text) → w ≢ [] → words_of (w ∷ ws) ≡ w ∷ words_of ws
unfolding words_of is_blank
words_of-word [] ws h = absurd (h refl)
words_of-word (c ∷ w) ws h = refl

lone : (w : Text) → w ≢ [] → words_of (w ∷ []) ≡ w ∷ []
unfolding words_of is_blank
lone [] h = absurd (h refl)
lone (c ∷ w) h = refl

words_of-join : (ws : List Text) → All IsWord ws → words_of (split b' ' (join_words ws)) ≡ ws
unfolding join_words
words_of-join [] h = unfold words_of split is_blank in refl
words_of-join (w ∷ []) h =
    ap words_of (split_lone b' ' w (clean-Lacks b' ' a_space w h.0.clean)) ∙ lone w h.0.filled
words_of-join (w ∷ v ∷ ws) h =
    ap words_of (split-part b' ' w (join_words (v ∷ ws)) (clean-Lacks b' ' a_space w h.0.clean))
    ∙ words_of-word w (split b' ' (join_words (v ∷ ws))) h.0.filled
    ∙ ap (λ t. w ∷ t) (words_of-join (v ∷ ws) h.1)

pub split_whitespace-join_words :
    (ws : List Text) → All IsWord ws → split_whitespace (join_words ws) ≡ ws
unfolding split_whitespace
split_whitespace-join_words ws h =
    ap (λ t. words_of (split b' ' t)) (spaces-join ws h) ∙ words_of-join ws h

word_behind : (w v : Text) → IsWord w → IsValue v → IsValue (w ++ (b' ' ∷ v))
word_behind [] v h k = absurd (h.filled refl)
word_behind (c ∷ w) v h k =
    subst IsValue (append_assoc (c ∷ w) (b' ' ∷ []) v)
      (IsValue-behind c (w ++ (b' ' ∷ [])) v h.clean.0 k)

pub join_words-IsValue :
    (w : Text) (ws : List Text) → All IsWord (w ∷ ws) → IsValue (join_words (w ∷ ws))
unfolding join_words
join_words-IsValue w [] h = word-IsValue w h.0
join_words-IsValue w (v ∷ ws) h =
    word_behind w (join_words (v ∷ ws)) h.0 (join_words-IsValue v ws h.1)

pub join_words-Lacks : (ws : List Text) → All IsWord ws → Lacks b'\n' (join_words ws)
unfolding join_words
join_words-Lacks [] h = _
join_words-Lacks (w ∷ []) h = clean-Lacks b'\n' (unfold is_whitespace in refl) w h.0.clean
join_words-Lacks (w ∷ v ∷ ws) h =
    All-append (λ x. (x == b'\n') ≡ false) w (b' ' ∷ join_words (v ∷ ws))
      (clean-Lacks b'\n' (unfold is_whitespace in refl) w h.0.clean)
      (refl, join_words-Lacks (v ∷ ws) h.1)
