-- ===== src/Overlap/Ranks.antt =====
-- How many rows of the memory come behind a row, in the order of the sort of OptCC::validate.
use data_agent_demo.Prelude.{
  ℕ, zero, suc, ◌+◌, ◌<◌, ◌≤◌, ◌≡◌, inl, inr, refl, sym, ap, ◌∙◌, Bool, true, false, some, List, [],
  ◌∷◌, arith, get_elem?, if◌then◌else◌, Bool-cases,
}
use data_agent_demo.Run.{ok}
use data_agent_demo.Row.{Row}
use data_agent_demo.Database.{Database, Cell, live, freed, load}
use data_agent_demo.Txn.Validate.{row_greater}
use data_agent_demo.Txn.Order.{RowLe, row_greater-RowLe, RowLe-trans}
use data_agent_demo.World.Evolve.{some_same}

-- How many elements pass the test.
abbrev pub count_of {ℓ} : {A : Type ℓ} → (A → Bool) → List A → ℕ
count_of f [] = 0
count_of f (x ∷ xs) = (if f x then 1 else 0) + count_of f xs

module _ {ℓ} {A : Type ℓ} (f g : A → Bool) (less : (x : A) → f x ≡ true → g x ≡ true) where
  one_le : (x : A) → (if f x then 1 else 0) ≤ (if g x then 1 else 0)
  one_le x = elim (Bool-cases (f x)) [
    | inl yes' ↦ rw (yes', less x yes') (omega arith)
    | inr no' ↦ rw no' (omega arith)
  ]

  count_le : (xs : List A) → count_of f xs ≤ count_of g xs
  count_le [] = omega arith
  count_le (x ∷ xs) = omega (arith, one_le x, count_le xs)

  -- One that passes the second test only makes the difference.
  count_lt :
      (xs : List A) (k : ℕ) (x : A)
      → get_elem? xs k ≡ some x
      → f x ≡ false
      → g x ≡ true
      → count_of f xs < count_of g xs
  count_lt [] k x e no' yes' = cc e
  count_lt (y ∷ xs) zero x e no' yes' =
      let same : x ≡ y = sym (some_same e) in
      let first : ◌≡◌ {A = ℕ} (if f y then 1 else 0) 0 = rw (sym (ap f same) ∙ no') refl in
      let second : ◌≡◌ {A = ℕ} (if g y then 1 else 0) 1 = rw (sym (ap g same) ∙ yes') refl in
      omega (arith, first, second, count_le xs)
  count_lt (y ∷ xs) (suc k) x e no' yes' = omega (arith, one_le y, count_lt xs k x e no' yes')

abbrev pub is_behind : Row → Cell → Bool
is_behind r freed = false
is_behind r (live s) = row_greater s r

abbrev pub rank : Database → Row → ℕ
rank db r = count_of (is_behind r) db.rows

behind_trans :
    (r s t : Row) → row_greater s r ≡ true → row_greater t s ≡ true → row_greater t r ≡ true
behind_trans r s t h k = elim (Bool-cases (row_greater t r)) [
  | inl behind ↦ behind
  | inr le ↦ let back : RowLe t s = RowLe-trans t r s le (row_greater-RowLe s r h) in cc (back, k)
]

behind_cells :
    (r s : Row) → row_greater s r ≡ true → (c : Cell) → is_behind s c ≡ true → is_behind r c ≡ true
behind_cells r s h freed e = cc e
behind_cells r s h (live t) e = behind_trans r s t h e

not_behind_self : (s : Row) → row_greater s s ≡ false
not_behind_self s = elim (Bool-cases (row_greater s s)) [
  | inl behind ↦ row_greater-RowLe s s behind
  | inr le ↦ le
]

load-cell :
    (db : Database) (q : ℕ) (s : Row) → load db q ≡ ok s → get_elem? db.rows q ≡ some (live s)
unfolding load
load-cell db q s there = ground arith

-- Behind the later row are fewer rows than behind the earlier one.
pub rank-lt :
    (db : Database) (q : ℕ) (r s : Row)
    → load db q ≡ ok s
    → row_greater s r ≡ true
    → rank db s < rank db r
rank-lt db q r s there behind =
    count_lt (is_behind s) (is_behind r) (behind_cells r s behind) db.rows q (live s)
      (load-cell db q s there) (not_behind_self s) behind
