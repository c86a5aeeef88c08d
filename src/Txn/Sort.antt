-- ===== src/Txn/Sort.antt =====
-- The comparison in the sort of OptCC::validate.
use mathlib.Core.List.{Permᴰ}
use data_agent_demo.Prelude.{ℕ, suc, ◌≡◌, refl, ap, ◌∙◌, List, ◌∷◌, length}
use data_agent_demo.Run.{ok}
use data_agent_demo.Row.{Row}
use data_agent_demo.Database.{Database}
use data_agent_demo.Txn.{Access}
use data_agent_demo.Txn.Validate.{orig, greater, row_greater}

-- The entry names a live row.
pub record Live (db : Database) (a : Access) : Type 0 where
  pub addr : ℕ
  pub row : Row
  pub found : orig db a ≡ ok (addr, row)

pub greater_lem :
    (db : Database) (a b : Access) (h : Live db a) (k : Live db b)
    → greater db a b ≡ ok (row_greater h.row k.row)
unfolding greater
greater_lem db a b h k = rw (h.found, k.found) refl

pub length_perm {ℓ} : {A : Type ℓ} (xs ys : List A) → Permᴰ xs ys → length xs ≡ length ys
length_perm xs ys Permᴰ.nil = refl
length_perm (x ∷ xs) (y ∷ ys) (Permᴰ.cons e s) = ap suc (length_perm xs ys s)
length_perm xs ys (Permᴰ.swap e f) = refl
length_perm xs zs (Permᴰ.trans {l₂ = ys} s u) = length_perm xs ys s ∙ length_perm ys zs u
