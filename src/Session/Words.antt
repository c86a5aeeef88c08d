-- ===== src/Session/Words.antt =====
-- How Server/session.cpp takes a line apart: the words of a line, and the value of a PUT.
use mathlib.Core.List.{append_assoc, append-nil}
use data_agent_demo.Prelude.{
  ℕ, ◌≡◌, ◌≢◌, inl, inr, refl, sym, ap, ◌∙◌, false, some, List, [], ◌∷◌, ◌++◌, arith, Bool-cases,
  ◌==◌,
}
use data_agent_demo.Bytes.{Bytes}
use data_agent_demo.Session.{is_space, words_on, split_ws, flush, behind_blank, put_value}

-- A word: not empty, and with no white space in it.
abbrev pub NoSpace : Bytes → Type 0
NoSpace [] = Unit {0}
NoSpace (c ∷ cs) = (is_space c ≡ false) × NoSpace cs

abbrev pub IsWord : Bytes → Type 0
IsWord w = (w ≢ []) × NoSpace w

abbrev pub AllWords : List Bytes → Type 0
AllWords [] = Unit {0}
AllWords (w ∷ ws) = IsWord w × AllWords ws

-- Words with one blank between them.
abbrev pub joined : List Bytes → Bytes
joined [] = []
joined (w ∷ []) = w
joined (w ∷ ws) = w ++ b' ' ∷ joined ws

NoSpace-append : (w : Bytes) (c : ℕ) → NoSpace w → is_space c ≡ false → NoSpace (w ++ c ∷ [])
NoSpace-append [] c h k = (k, tt)
NoSpace-append (d ∷ w) c h k = (h.0, NoSpace-append w c h.1 k)

append-ne-nil : (w : Bytes) (c : ℕ) → w ++ c ∷ [] ≢ []
append-ne-nil [] c e = cc
append-ne-nil (d ∷ w) c e = cc

flush-AllWords :
    (word : Bytes) (ws : List Bytes) → NoSpace word → AllWords ws → AllWords (flush word ws)
flush-AllWords [] ws h k = k
flush-AllWords (c ∷ word) ws h k = ((λ e. cc, h), k)

words_on-AllWords : (word s : Bytes) → NoSpace word → AllWords (words_on word s)
unfolding words_on
words_on-AllWords word [] h = flush-AllWords word [] h tt
words_on-AllWords word (c ∷ s) h = elim (Bool-cases (is_space c)) [
  | inl space ↦ rw space (flush-AllWords word (words_on [] s) h (words_on-AllWords [] s tt))
  | inr letter ↦ rw letter (words_on-AllWords (word ++ c ∷ []) s (NoSpace-append word c h letter))
]

-- the rest of a word is read to its end
words_on-word :
    (word w rest : Bytes) → NoSpace w → words_on word (w ++ rest) ≡ words_on (word ++ w) rest
unfolding words_on
words_on-word word [] rest h = ap (λ (v : Bytes). words_on v rest) (sym (append-nil word))
words_on-word word (c ∷ w) rest h = rw h.0 (
    words_on-word (word ++ c ∷ []) w rest h.1
    ∙ ap (λ (v : Bytes). words_on v rest) (append_assoc word (c ∷ []) w))

words_on-joined : (ws : List Bytes) → AllWords ws → words_on [] (joined ws) ≡ ws
unfolding words_on
words_on-joined [] h = refl
words_on-joined ([] ∷ ws) h = absurd (h.0.0 refl)
words_on-joined ((c ∷ w) ∷ []) h =
    ap (λ (v : Bytes). words_on [] v) (sym (append-nil (c ∷ w))) ∙ words_on-word [] (c ∷ w) [] h.0.1
words_on-joined ((c ∷ w) ∷ v ∷ ws) h =
    words_on-word [] (c ∷ w) (b' ' ∷ joined (v ∷ ws)) h.0.1
    ∙ blank (joined (v ∷ ws))
    ∙ ap (◌∷◌ (c ∷ w)) (words_on-joined (v ∷ ws) h.1)
  where
    blank : (s : Bytes) → words_on (c ∷ w) (b' ' ∷ s) ≡ (c ∷ w) ∷ words_on [] s
    blank s = refl

-- Whatever the line, `split_ws` gives words only: none is empty or has white space in it.
pub split_ws-AllWords : (s : Bytes) → AllWords (split_ws s)
unfolding split_ws
split_ws-AllWords s = words_on-AllWords [] s tt

-- Words written with one blank between them are taken apart again by `split_ws`.
pub split_ws-joined : (ws : List Bytes) → AllWords ws → split_ws (joined ws) ≡ ws
unfolding split_ws
split_ws-joined ws h = words_on-joined ws h

behind_blank-word : (w rest : Bytes) → NoSpace w → behind_blank (w ++ b' ' ∷ rest) ≡ some rest
unfolding behind_blank
behind_blank-word [] rest h = refl
behind_blank-word (c ∷ w) rest h = rw (letter c h.0) (behind_blank-word w rest h.1)
  where
    letter : (c : ℕ) → is_space c ≡ false → (c == b' ') ≡ false
    letter c e = unfold is_space in ground arith

-- The value of `PUT key value`, with one blank before the key and one behind it, is all that follows, blanks
-- included. With a second blank before the key, the value is the key, a blank and all that follows.
pub put_value-blanks :
    (cmd key value : Bytes)
    → NoSpace cmd
    → NoSpace key
    → (put_value (cmd ++ b' ' ∷ (key ++ b' ' ∷ value)) ≡ value)
      × (put_value (cmd ++ b' ' ∷ b' ' ∷ (key ++ b' ' ∷ value)) ≡ key ++ b' ' ∷ value)
put_value-blanks cmd key value h k = (
  behind_two cmd (key ++ b' ' ∷ value) value h (behind_blank-word key value k),
  behind_two cmd (b' ' ∷ (key ++ b' ' ∷ value)) (key ++ b' ' ∷ value) h
      (unfold behind_blank in refl),
)
  where
    behind_two :
        (cmd rest value : Bytes)
        → NoSpace cmd
        → behind_blank rest ≡ some value
        → put_value (cmd ++ b' ' ∷ rest) ≡ value
    behind_two cmd rest value h e = unfold put_value in ground (arith, behind_blank-word cmd rest h)
