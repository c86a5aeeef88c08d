-- ===== src/Txn/Ends.antt =====
-- Lists taken from their last element, as the loop of txn_man::cleanup goes.
use mathlib.Core.List.{Permᴰ}
use mathlib.Core.List.Permᴰ as PermD
use data_agent_demo.Prelude.{
  ℕ, zero, suc, ◌≡◌, refl, ap, some, List, [], ◌∷◌, ◌++◌, arith, length, get_elem?, set,
}
use data_agent_demo.Txn.Accesses.{All}

-- A list with a last element.
pub snoc_view {ℓ} :
    {A : Type ℓ} (k : ℕ) (xs : List A)
    → length xs ≡ suc k
    → (ys : List A) × (x : A) × (xs ≡ ys ++ x ∷ []) × (length ys ≡ k)
snoc_view k [] h = absurd (omega arith)
snoc_view zero (x ∷ []) h = ([], x, refl, refl)
snoc_view zero (x ∷ y ∷ xs) h = absurd (omega arith)
snoc_view (suc k) (x ∷ []) h = absurd (omega arith)
snoc_view (suc k) (x ∷ y ∷ xs) h =
    let (ys, z, e, l) = snoc_view k (y ∷ xs) (omega arith) in (x ∷ ys, z, ap (◌∷◌ x) e, ap suc l)

module _ {ℓ} {A : Type ℓ} where
  pub get-snoc :
      (ys : List A) (x : A) (spare : List A) (k : ℕ)
      → length ys ≡ k
      → get_elem? (ys ++ x ∷ spare) k ≡ some x
  get-snoc [] x spare zero h = refl
  get-snoc [] x spare (suc k) h = absurd (omega arith)
  get-snoc (y ∷ ys) x spare zero h = absurd (omega arith)
  get-snoc (y ∷ ys) x spare (suc k) h = get-snoc ys x spare k (omega arith)

  pub set-snoc :
      (ys : List A) (x x' : A) (spare : List A) (k : ℕ)
      → length ys ≡ k
      → set (ys ++ x ∷ spare) k x' ≡ ys ++ x' ∷ spare
  set-snoc [] x x' spare zero h = refl
  set-snoc [] x x' spare (suc k) h = absurd (omega arith)
  set-snoc (y ∷ ys) x x' spare zero h = absurd (omega arith)
  set-snoc (y ∷ ys) x x' spare (suc k) h = ap (◌∷◌ y) (set-snoc ys x x' spare k (omega arith))

  pub snoc_perm : (ys : List A) (x : A) → Permᴰ (ys ++ x ∷ []) (x ∷ ys)
  snoc_perm [] x = PermD.refl (x ∷ [])
  snoc_perm (y ∷ ys) x = Permᴰ.trans (Permᴰ.cons refl (snoc_perm ys x)) (Permᴰ.swap refl refl)

  pub snoc_perm_back : (ys : List A) (x : A) → Permᴰ (x ∷ ys) (ys ++ x ∷ [])
  snoc_perm_back [] x = PermD.refl (x ∷ [])
  snoc_perm_back (y ∷ ys) x =
      Permᴰ.trans (Permᴰ.swap refl refl) (Permᴰ.cons refl (snoc_perm_back ys x))

pub All-append {ℓ κ} :
    {A : Type ℓ} (P : A → Type κ) (xs ys : List A) → All P (xs ++ ys) → All P xs × All P ys
All-append P [] ys h = (tt, h)
All-append P (x ∷ xs) ys h = let (f, g) = All-append P xs ys h.1 in ((h.0, f), g)
