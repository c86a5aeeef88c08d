-- ===== src/Helper/Keys.antt =====
-- Merged index keys come apart again.
use Prim.Native.Nat.{bit_or, max, digits, bit_or-bitwise}
use native.Mathlib.Nat.{pow-suc}
use data_agent_demo.Prelude.{
  inl, inr, ℕ, zero, suc, ◌+◌, ◌*◌, ◌/◌, ◌%◌, ◌^◌, ◌≤◌, ◌<◌, ◌≡◌, refl, ap, ◌∙◌, sym, true, false,
  List, [], ◌∷◌, ltb, ◌==◌, get_elem?, arith, length, some, Option-cases,
}
use data_agent_demo.Run.{ok, fault, out_of_bounds}
use data_agent_demo.Helper.{shift_left, merge_rounds, merge_keys, merge_two}

-- `a` doubled `k` times
abbrev doubled : ℕ → ℕ → ℕ
doubled zero a = a
doubled (suc k) a = 2 * doubled k a

doubled_pow : (k a : ℕ) → doubled k a ≡ a * 2 ^ k
doubled_pow zero a = omega arith
doubled_pow (suc k) a = omega (arith, doubled_pow k a, ap (λ (t : ℕ). a * t) (pow-suc 2 k))

abbrev or_digits : ℕ → ℕ → ℕ → ℕ
or_digits n a b = digits (λ b. b) max n a b

or_digits-zero : (n a : ℕ) → a ≤ n → or_digits n a 0 ≡ a
or_digits-zero zero a h = omega arith
or_digits-zero (suc n) zero h = refl
or_digits-zero (suc n) (suc a) h = omega (arith, or_digits-zero n (suc a / 2) (omega arith))

-- Over a number whose last `k` digits are zero, a number of `k` digits is added.
or_digits-shifted :
    (k n x a b : ℕ) → x ≤ n → x ≡ doubled k a → b < doubled k 1 → or_digits n x b ≡ x + b
or_digits-shifted zero n x a b le e lt =
    ap (or_digits n x) (omega arith) ∙ (or_digits-zero n x le ∙ omega arith)
or_digits-shifted (suc k) zero x a b le e lt = omega arith
or_digits-shifted (suc k) (suc n) zero a b le e lt = omega arith
or_digits-shifted (suc k) (suc n) (suc x) a b le e lt =
    omega
      (arith, or_digits-shifted k n (suc x / 2) a (b / 2) (omega arith) (omega arith) (omega arith))

bit_or-shifted : (k a b : ℕ) → b < 2 ^ k → bit_or (a * 2 ^ k) b ≡ a * 2 ^ k + b
bit_or-shifted k a b lt =
    bit_or-bitwise (a * 2 ^ k) b
    ∙ or_digits-shifted k (a * 2 ^ k) (a * 2 ^ k) a b (omega arith) (sym (doubled_pow k a))
        (omega (arith, doubled_pow k 1))

-- Two keys below 2 to the 32 merge into a number that comes apart into them.
pub merge_two_lem :
    (key1 key2 : ℕ)
    → key1 < 2 ^ 32
    → key2 < 2 ^ 32
    → (key : ℕ) × (merge_two key1 key2 ≡ ok key) × (key / 2 ^ 32 ≡ key1) × (key % 2 ^ 32 ≡ key2)
unfolding merge_two
merge_two_lem key1 key2 h k =
    let whole : shift_left 32 key1 ≡ key1 * 2 ^ 32 = omega arith in
    let merged : bit_or (key1 * 2 ^ 32) key2 ≡ key1 * 2 ^ 32 + key2 =
      bit_or-shifted 32 key1 key2 k in
    (
      bit_or (shift_left 32 key1) key2,
      ground arith,
      omega (arith, ap (λ n. bit_or n key2) whole, merged),
      omega (arith, ap (λ n. bit_or n key2) whole, merged),
    )

-- Every key of the array has at most `len` digits.
abbrev pub AllBelow : ℕ → List ℕ → Type 0
AllBelow n [] = Unit {0}
AllBelow n (key ∷ keys) = (key < n) × AllBelow n keys

get_elem?-AllBelow :
    (n : ℕ) (keys : List ℕ) (i key : ℕ) → AllBelow n keys → get_elem? keys i ≡ some key → key < n
get_elem?-AllBelow n [] i key h e = cc
get_elem?-AllBelow n (k ∷ keys) zero key h e = ground arith
get_elem?-AllBelow n (k ∷ keys) (suc i) key h e = get_elem?-AllBelow n keys i key h.1 e

get_elem?-lt : (keys : List ℕ) (i key : ℕ) → get_elem? keys i ≡ some key → i < length keys
get_elem?-lt [] i key e = cc
get_elem?-lt (k ∷ keys) zero key e = omega arith
get_elem?-lt (k ∷ keys) (suc i) key e = omega (arith, get_elem?-lt keys i key e)

merge_rounds_fault :
    (len rounds : ℕ) (keys : List ℕ) (i key : ℕ)
    → AllBelow (2 ^ len) keys
    → length keys < i + rounds
    → i ≤ length keys
    → merge_rounds len rounds keys i key ≡ fault out_of_bounds
unfolding merge_rounds
merge_rounds_fault len zero keys i key h many le = absurd (omega arith)
merge_rounds_fault len (suc rounds) keys i key h many le = elim (Option-cases (get_elem? keys i)) [
  | inl beyond ↦ rw beyond refl
  | inr (k, there) ↦
      rw (there, short k (get_elem?-AllBelow (2 ^ len) keys i k h there))
        (merge_rounds_fault len rounds keys (suc i) (bit_or (shift_left len key) k) h (omega arith)
          (omega (arith, get_elem?-lt keys i k there)))
]
  where
    short : (k : ℕ) → k < 2 ^ len → ltb k (2 ^ len) ≡ true
    short k lt = ground arith

-- 64 / n rounds are more than n, and fewer than 64.
rounds_many : (n : ℕ) → 2 ≤ n → n ≤ 7 → (n < 64 / n) × (64 / n < 64)
rounds_many zero h k = absurd (omega arith)
rounds_many (suc zero) h k = absurd (omega arith)
rounds_many (suc (suc zero)) h k = omega arith
rounds_many (suc (suc (suc zero))) h k = omega arith
rounds_many (suc (suc (suc (suc zero)))) h k = omega arith
rounds_many (suc (suc (suc (suc (suc zero))))) h k = omega arith
rounds_many (suc (suc (suc (suc (suc (suc zero)))))) h k = omega arith
rounds_many (suc (suc (suc (suc (suc (suc (suc zero))))))) h k = omega arith
rounds_many (suc (suc (suc (suc (suc (suc (suc (suc n)))))))) h k = absurd (omega arith)

-- An array of as many keys as are to be merged, from two to seven of them, each short enough, is read beyond its
-- end.
pub merge_keys_fault :
    (key_cnt : ℕ) (keys : List ℕ)
    → 2 ≤ key_cnt
    → key_cnt ≤ 7
    → length keys ≡ key_cnt
    → AllBelow (2 ^ (64 / key_cnt)) keys
    → merge_keys key_cnt keys ≡ fault out_of_bounds
unfolding merge_keys
merge_keys_fault key_cnt keys h k l below =
    let (many, fits) = rounds_many key_cnt h k in
    rw (positive key_cnt h, within (64 / key_cnt) fits)
      (merge_rounds_fault (64 / key_cnt) (64 / key_cnt) keys 0 0 below (omega arith) (omega arith))
  where
    positive : (n : ℕ) → 2 ≤ n → (n == 0) ≡ false
    positive n h = ground arith

    within : (n : ℕ) → n < 64 → ltb n 64 ≡ true
    within n h = ground arith
