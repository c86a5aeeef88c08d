-- ===== src/Overlap/Entries.antt =====
-- Access sets entry by entry: where an entry of a changed set comes from.
use native.Mathlib.Decide.{ℕ_discrete}
use data_agent_demo.Prelude.{
  ℕ, zero, suc, ◌<◌, ◌≡◌, ◌≢◌, ◌⊎◌, inl, inr, refl, sym, ap, ◌∙◌, some, List, [], ◌∷◌, ◌++◌, arith,
  length, get_elem?, set, get_elem?-set_self, get_elem?-set_ne,
}
use data_agent_demo.Database.{Database}
use data_agent_demo.Txn.{Access}
use data_agent_demo.Txn.Accesses.{All, Distinct}
use data_agent_demo.World.Evolve.{some_same}
use data_agent_demo.World.Latches.{Distinct-get}

module _ {ℓ} {A : Type ℓ} where
  pub get-snoc_cases :
      (xs : List A) (x : A) (k : ℕ) (a : A)
      → get_elem? (xs ++ x ∷ []) k ≡ some a
      → (get_elem? xs k ≡ some a) ⊎ ((k ≡ length xs) × (x ≡ a))
  get-snoc_cases [] x zero a e = inr (refl, some_same e)
  get-snoc_cases [] x (suc k) a e = cc e
  get-snoc_cases (y ∷ xs) x zero a e = inl e
  get-snoc_cases (y ∷ xs) x (suc k) a e = elim (get-snoc_cases xs x k a e) [
    | inl before ↦ inl before
    | inr (last, same) ↦ inr (ap suc last, same)
  ]

  pub get-lt : (xs : List A) (k : ℕ) (a : A) → get_elem? xs k ≡ some a → k < length xs
  get-lt [] k a e = cc e
  get-lt (x ∷ xs) zero a e = omega arith
  get-lt (x ∷ xs) (suc k) a e = omega (arith, get-lt xs k a e)

  pub get-set_cases :
      (xs : List A) (k : ℕ) (x v : A) (j : ℕ) (a : A)
      → get_elem? xs k ≡ some x
      → get_elem? (set xs k v) j ≡ some a
      → ((j ≡ k) × (v ≡ a)) ⊎ ((j ≢ k) × (get_elem? xs j ≡ some a))
  get-set_cases xs k x v j a at e = elim (ℕ_discrete k j) [
    | yes same ↦ inl (
      sym same,
      some_same (
          sym (get_elem?-set_self xs k v (get-lt xs k x at))
          ∙ (ap (get_elem? (set xs k v)) same ∙ e)),
    )
    | no other ↦ inr ((λ f. other (sym f)), sym (get_elem?-set_ne xs v other) ∙ e)
  ]

  pub All-of {κ} :
      (P : A → Type κ) (xs : List A) → ((k : ℕ) (a : A) → get_elem? xs k ≡ some a → P a) → All P xs
  All-of P [] h = tt
  All-of P (x ∷ xs) h = (h 0 x refl, All-of P xs (λ k a e. h (suc k) a e))

-- No two places have one row.
abbrev pub AreDistinct : List Access → Type 0
AreDistinct xs =
    (k l : ℕ) (a b : Access)
    → get_elem? xs k ≡ some a
    → get_elem? xs l ≡ some b
    → a.orig_row ≡ b.orig_row
    → k ≡ l

pub AreDistinct-Distinct : (xs : List Access) → AreDistinct xs → Distinct xs
AreDistinct-Distinct [] h = tt
AreDistinct-Distinct (x ∷ xs) h = (
  All-of (λ b. x.orig_row ≢ b.orig_row) xs
      (λ k b e same. omega (arith, h 0 (suc k) x b refl e same)),
  AreDistinct-Distinct xs (λ k l a b e f same. omega (arith, h (suc k) (suc l) a b e f same)),
)

pub Distinct-AreDistinct : (db : Database) (xs : List Access) → Distinct xs → AreDistinct xs
Distinct-AreDistinct db xs d k l a b e f same = elim (ℕ_discrete k l) [
  | yes here ↦ here
  | no other ↦ elim (less_cases k l other) [
    | inl lt ↦ absurd (Distinct-get db xs k l a b d lt e f same)
    | inr lt ↦ absurd (Distinct-get db xs l k b a d lt f e (sym same))
  ]
]
  where
    less_cases : (m n : ℕ) → m ≢ n → (m < n) ⊎ (n < m)
    less_cases m n h = grind arith
