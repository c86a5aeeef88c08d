-- ===== src/Bytes/Laws.antt =====
-- What reads of a buffer give after copies into it.
use mathlib.Core.List.{append_assoc}
use data_agent_demo.Prelude.{
  ℕ, zero, suc, ◌+◌, ◌-◌, ◌≤◌, ◌≡◌, refl, sym, ap, ◌∙◌, ◌↔◌, List, [], ◌∷◌, ◌++◌, arith, length,
  take, drop, length-append, length-take, length-drop,
}
use data_agent_demo.Run.{ok}
use data_agent_demo.Bytes.{Bytes, c_str, c_string, equal, strcmp, strncpy, text_buffer, memcpy_at}

module _ {ℓ} {A : Type ℓ} where
  pub take-append_all : (n : ℕ) (xs ys : List A) → length xs ≡ n → take n (xs ++ ys) ≡ xs
  take-append_all zero [] ys h = refl
  take-append_all zero (x ∷ xs) ys h = absurd (omega arith)
  take-append_all (suc n) [] ys h = absurd (omega arith)
  take-append_all (suc n) (x ∷ xs) ys h = ap (◌∷◌ x) (take-append_all n xs ys (omega arith))

  pub drop-append_all : (n : ℕ) (xs ys : List A) → length xs ≡ n → drop n (xs ++ ys) ≡ ys
  drop-append_all zero [] ys h = refl
  drop-append_all zero (x ∷ xs) ys h = absurd (omega arith)
  drop-append_all (suc n) [] ys h = absurd (omega arith)
  drop-append_all (suc n) (x ∷ xs) ys h = drop-append_all n xs ys (omega arith)

  pub drop-append :
      (n : ℕ) (xs ys : List A) → length xs ≤ n → drop n (xs ++ ys) ≡ drop (n - length xs) ys
  drop-append n [] ys h = ap (λ k. drop k ys) (omega arith)
  drop-append zero (x ∷ xs) ys h = absurd (omega arith)
  drop-append (suc n) (x ∷ xs) ys h =
      drop-append n xs ys (omega arith) ∙ ap (λ k. drop k ys) (omega arith)

  drop-nil : (n : ℕ) → ◌≡◌ {A = List A} (drop n []) []
  drop-nil zero = refl
  drop-nil (suc n) = refl

  pub drop-drop : (m n : ℕ) (xs : List A) → drop m (drop n xs) ≡ drop (n + m) xs
  drop-drop m zero xs = ap (λ k. drop k xs) (omega arith)
  drop-drop m (suc n) [] = drop-nil m ∙ sym (drop-nil (suc n + m))
  drop-drop m (suc n) (x ∷ xs) = drop-drop m n xs ∙ ap (λ k. drop k (x ∷ xs)) suc_add
    where
      suc_add : suc (n + m) ≡ suc n + m
      suc_add = omega arith

  take-before : (m n : ℕ) (d r : List A) → m ≤ n → n ≤ length d → take m (take n d ++ r) ≡ take m d
  take-before zero n d r h k = refl
  take-before (suc m) zero d r h k = absurd (omega arith)
  take-before (suc m) (suc n) [] r h k = absurd (omega arith)
  take-before (suc m) (suc n) (x ∷ d) r h k =
      ap (◌∷◌ x) (take-before m n d r (omega arith) (omega arith))

  -- `n` bytes from `pos`
  abbrev pub slice : ℕ → ℕ → List A → List A
  slice pos n d = take n (drop pos d)

  pub slice-before :
      (p m n : ℕ) (d r : List A)
      → p + m ≤ n
      → n ≤ length d
      → slice p m (take n d ++ r) ≡ slice p m d
  slice-before zero m n d r h k = take-before m n d r (omega arith) k
  slice-before (suc p) m zero d r h k = absurd (omega arith)
  slice-before (suc p) m (suc n) [] r h k = absurd (omega arith)
  slice-before (suc p) m (suc n) (x ∷ d) r h k = slice-before p m n d r (omega arith) (omega arith)

pub take_all {ℓ} : {A : Type ℓ} (n : ℕ) (xs : List A) → length xs ≡ n → take n xs ≡ xs
take_all zero [] h = refl
take_all zero (x ∷ xs) h = absurd (omega arith)
take_all (suc n) [] h = absurd (omega arith)
take_all (suc n) (x ∷ xs) h = ap (◌∷◌ x) (take_all n xs (omega arith))

pub drop_all {ℓ} : {A : Type ℓ} (n : ℕ) (xs : List A) → length xs ≤ n → drop n xs ≡ []
drop_all zero [] h = refl
drop_all zero (x ∷ xs) h = absurd (omega arith)
drop_all (suc n) [] h = refl
drop_all (suc n) (x ∷ xs) h = drop_all n xs (omega arith)

-- The buffer after a copy that stays inside both buffers.
abbrev pub spliced : Bytes → ℕ → Bytes → ℕ → Bytes
spliced buf pos src n = take pos buf ++ (take n src ++ drop (pos + n) buf)

module _ (buf : Bytes) (pos : ℕ) (src : Bytes) (n : ℕ) where
  pub memcpy_at-eq-ok :
      pos + n ≤ length buf → n ≤ length src → memcpy_at buf pos src n ≡ ok (spliced buf pos src n)
  unfolding memcpy_at
  memcpy_at-eq-ok h k = ground arith

  module _ (h : pos + n ≤ length buf) (k : n ≤ length src) where
    length_front : length (take pos buf) ≡ pos
    length_front = omega (arith, length-take pos buf)

    length_middle : length (take n src) ≡ n
    length_middle = omega (arith, length-take n src)

    pub length-spliced : length (spliced buf pos src n) ≡ length buf
    length-spliced =
        length-append (take pos buf) (take n src ++ drop (pos + n) buf)
        ∙ omega (
          arith,
          length_front,
          length_middle,
          length-append (take n src) (drop (pos + n) buf),
          length-drop (pos + n) buf,
        )

    pub slice-spliced_self : slice pos n (spliced buf pos src n) ≡ take n src
    slice-spliced_self =
        rw (drop-append_all pos (take pos buf) (take n src ++ drop (pos + n) buf) length_front)
          (take-append_all n (take n src) (drop (pos + n) buf) length_middle)

    pub slice-spliced_before :
        (p m : ℕ) → p + m ≤ pos → slice p m (spliced buf pos src n) ≡ slice p m buf
    slice-spliced_before p m le = slice-before p m pos buf _ le (omega arith)

    pub drop-spliced_after : (p : ℕ) → pos + n ≤ p → drop p (spliced buf pos src n) ≡ drop p buf
    drop-spliced_after p le =
        drop-append p (take pos buf) (take n src ++ drop (pos + n) buf)
          (omega (arith, length_front))
        ∙ drop-append _ (take n src) (drop (pos + n) buf)
            (omega (arith, length_front, length_middle))
        ∙ drop-drop _ (pos + n) buf
        ∙ ap (λ k. drop k buf) (omega (arith, length_front, length_middle))

-- A `memcpy` that is in bounds keeps the length of the buffer.
pub length-memcpy_at :
    (buf : Bytes) (pos : ℕ) (src : Bytes) (n : ℕ) (out : Bytes)
    → memcpy_at buf pos src n ≡ ok out
    → length out ≡ length buf
length-memcpy_at buf pos src n out e =
    let (h, k) : (pos + n ≤ length buf) × (n ≤ length src) = unfold memcpy_at in ground arith in
    let same : out ≡ spliced buf pos src n = cc (e, memcpy_at-eq-ok buf pos src n h k) in
    ap length same ∙ length-spliced buf pos src n h k

-- Text copied by `text_buffer` and read back is the text, cut to the room that it had.
strncpy-c_string :
    (n : ℕ) (s rest : Bytes) → c_string (strncpy n (c_str s) ++ 0 ∷ rest) ≡ ok (take n (c_str s))
unfolding c_string strncpy c_str
strncpy-c_string zero s rest = refl
strncpy-c_string (suc n) [] rest = refl
strncpy-c_string (suc n) (c ∷ s) rest = ground (arith, strncpy-c_string n s rest)

pub c_string-text_buffer :
    (n : ℕ) (s rest : Bytes) → c_string (text_buffer n s ++ rest) ≡ ok (take n (c_str s))
unfolding text_buffer
c_string-text_buffer n s rest =
    rw (append_assoc (strncpy n (c_str s)) (0 ∷ []) rest) (strncpy-c_string n s rest)

length-strncpy : (n : ℕ) (s : Bytes) → length (strncpy n s) ≡ n
unfolding strncpy
length-strncpy zero s = refl
length-strncpy (suc n) [] = ap suc (length-strncpy n [])
length-strncpy (suc n) (c ∷ s) = ap suc (length-strncpy n s)

pub length-text_buffer : (n : ℕ) (s : Bytes) → length (text_buffer n s) ≡ n + 1
unfolding text_buffer
length-text_buffer n s =
    length-append (strncpy n (c_str s)) (0 ∷ []) ∙ omega (arith, length-strncpy n (c_str s))

-- `strcmp` gives zero exactly on equal texts.
pub strcmp-equal_iff : (a b : Bytes) → (strcmp a b ≡ equal) ↔ (a ≡ b)
unfolding strcmp
strcmp-equal_iff [] [] = (λ _. refl, λ _. refl)
strcmp-equal_iff [] (b ∷ bs) = (λ e. cc, λ e. cc)
strcmp-equal_iff (a ∷ as') [] = (λ e. cc, λ e. cc)
strcmp-equal_iff (a ∷ as') (b ∷ bs) =
    let ih = strcmp-equal_iff as' bs in (λ e. ground (arith, ih), λ e. ground (arith, ih))
