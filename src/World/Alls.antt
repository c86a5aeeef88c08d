-- ===== src/World/Alls.antt =====
-- What holds of all elements of a list: of the entries of an access set, or of the open transactions.
use data_agent_demo.Prelude.{
  ℕ, zero, suc, ◌≡◌, ◌⊎◌, inl, inr, some, subst, List, [], ◌∷◌, ◌++◌, get_elem?, set,
}
use data_agent_demo.Txn.Accesses.{All}
use data_agent_demo.Txn.Ends.{All-append}

pub All-both {ℓ κ μ} :
    {A : Type ℓ} (P : A → Type κ) (Q : A → Type μ) (xs : List A)
    → All P xs
    → All Q xs
    → All (λ x. P x × Q x) xs
All-both P Q [] h k = tt
All-both P Q (x ∷ xs) h k = ((h.0, k.0), All-both P Q xs h.1 k.1)

pub All-get {ℓ κ} :
    {A : Type ℓ} (P : A → Type κ) (xs : List A) (i : ℕ) (x : A)
    → get_elem? xs i ≡ some x
    → All P xs
    → P x
All-get P [] i x e h = cc e
All-get P (y ∷ ys) zero x e h = let same : y ≡ x = cc e in subst P same h.0
All-get P (y ∷ ys) (suc i) x e h = All-get P ys i x e h.1

pub All-insert {ℓ κ} :
    {A : Type ℓ} (P : A → Type κ) (xs ys : List A) → All P xs → All P ys → All P (xs ++ ys)
All-insert P [] ys h k = k
All-insert P (x ∷ xs) ys h k = (h.0, All-insert P xs ys h.1 k)

pub All-split {ℓ κ} :
    {A : Type ℓ} (P : A → Type κ) (xs : List A) (x : A) (ys zs : List A)
    → zs ≡ xs ++ x ∷ ys
    → All P zs
    → All P xs × P x × All P ys
All-split P xs x ys zs e h =
    let (f, g) = All-append P xs (x ∷ ys) (subst (All P) e h) in (f, g.0, g.1)

-- whether a property holds of all of a list
pub All-cases {ℓ κ} :
    {A : Type ℓ} (P : A → Type κ) (xs : List A)
    → All (λ x. P x ⊎ (¬ P x)) xs
    → All P xs ⊎ (¬ All P xs)
All-cases P [] h = inl tt
All-cases P (x ∷ xs) h = elim h.0 [
  | inl yes_x ↦ elim (All-cases P xs h.1) [
    | inl all ↦ inl (yes_x, all)
    | inr not_all ↦ inr λ k. not_all k.1
  ]
  | inr not_x ↦ inr λ k. not_x k.0
]

pub All-set {ℓ κ} :
    {A : Type ℓ} (P : A → Type κ) (xs : List A) (i : ℕ) (x v : A)
    → get_elem? xs i ≡ some x
    → (P x → P v)
    → All P xs
    → All P (set xs i v)
All-set P [] i x v e f h = tt
All-set P (y ∷ ys) zero x v e f h = let same : y ≡ x = cc e in (f (subst P same h.0), h.1)
All-set P (y ∷ ys) (suc i) x v e f h = (h.0, All-set P ys i x v e f h.1)
