-- ===== src/Texts/Words.antt =====
-- What `s.split()` makes of words with spaces between them, and what stands behind the last of a
-- character.
use mathlib.Core.List.{append_assoc, append-nil}
use bluek.Prelude.{
  ◌≡◌, refl, ap, ◌∙◌, ℕ, List, [], ◌∷◌, ◌++◌, All, Text, true, none, some, arith, codes,
}
use bluek.Texts.{is_space, join}
use bluek.Texts.Laws.{NonePass, Lacks}
use bluek.Texts.Decimal.{end_word, words_from, split_words, after_last}

abbrev pub IsWord : Text → Type 0
IsWord [] = ⊥
IsWord (c ∷ w) = NonePass is_space (c ∷ w)

words_from_word :
    (w a s : Text) (c : ℕ)
    → NonePass is_space a
    → is_space c ≡ true
    → words_from w (a ++ c ∷ s) ≡ end_word (w ++ a) (words_from [] s)
unfolding words_from
words_from_word w [] s c none_pass space = rw (space, append-nil w) refl
words_from_word w (x ∷ a) s c none_pass space = rw none_pass.0 (
    words_from_word (w ++ (x ∷ [])) a s c none_pass.1 space
    ∙ ap (λ z. end_word z (words_from [] s)) (append_assoc w (x ∷ []) a))

end_word_lem : (w : Text) (ws : List Text) → IsWord w → end_word w ws ≡ w ∷ ws
end_word_lem [] ws h = elim h [ ]
end_word_lem (c ∷ w) ws h = refl

IsWord-NonePass : (w : Text) → IsWord w → NonePass is_space w
IsWord-NonePass [] h = elim h [ ]
IsWord-NonePass (c ∷ w) h = h

word_step :
    (w s : Text) (c : ℕ)
    → IsWord w
    → is_space c ≡ true
    → words_from [] (w ++ c ∷ s) ≡ w ∷ words_from [] s
word_step w s c h space =
    words_from_word [] w s c (IsWord-NonePass w h) space ∙ end_word_lem w (words_from [] s) h

-- The words of a line, with one space between two and a newline at the end.
pub split_words-join :
    (ws : List Text) → All IsWord ws → split_words (join (codes " ") ws ++ (10 ∷ [])) ≡ ws
unfolding split_words join words_from is_space
split_words-join [] h = refl
split_words-join (w ∷ []) h = word_step w [] 10 h.0 refl
split_words-join (w ∷ v ∷ ws) h =
    ap (words_from []) (append_assoc w (32 ∷ join (codes " ") (v ∷ ws)) (10 ∷ []))
    ∙ word_step w (join (codes " ") (v ∷ ws) ++ (10 ∷ [])) 32 h.0 refl
    ∙ ap (λ z. w ∷ z) (split_words-join (v ∷ ws) h.1)

after_last-Lacks : (q : ℕ) (s : Text) → Lacks q s → after_last q s ≡ none
unfolding after_last
after_last-Lacks q [] h = refl
after_last-Lacks q (c ∷ s) h = rw (after_last-Lacks q s h.1) (ground (arith, h.0))

pub after_last_lem : (q : ℕ) (a s : Text) → Lacks q s → after_last q (a ++ q ∷ s) ≡ some s
unfolding after_last
after_last_lem q [] s h = rw (after_last-Lacks q s h) (ground arith)
after_last_lem q (c ∷ a) s h = rw (after_last_lem q a s h)

pub split_words_space : (s : Text) → split_words (32 ∷ s) ≡ split_words s
unfolding split_words words_from is_space
split_words_space s = refl
