-- ===== src/Database/Memory.antt =====
-- Loads after stores.
use data_agent_demo.Prelude.{
  ℕ, zero, suc, ◌≡◌, ◌≢◌, refl, ap, ◌∙◌, some, List, [], ◌∷◌, ◌++◌, arith, length, get_elem?, set,
  ◌==◌, if◌then◌else◌,
}
use data_agent_demo.Run.{ok, fault, use_after_free}
use data_agent_demo.Row.{Row}
use data_agent_demo.Database.{Database, Cell, live, freed, load, load_cell, store, free}

cell_of_load :
    (cells : List Cell) (p : ℕ) (r : Row)
    → load_cell (get_elem? cells p) ≡ ok r
    → get_elem? cells p ≡ some (live r)
cell_of_load [] p r h = cc
cell_of_load (live x ∷ cells) zero r h = ground arith
cell_of_load (freed ∷ cells) zero r h = cc
cell_of_load (c ∷ cells) (suc p) r h = cell_of_load cells p r h

get-set :
    (cells : List Cell) (p q : ℕ) (r : Row) (c : Cell)
    → load_cell (get_elem? cells p) ≡ ok r
    → get_elem? (set cells p c) q ≡ (if p == q then some c else get_elem? cells q)
get-set [] p q r c h = cc
get-set (x ∷ cells) zero zero r c h = refl
get-set (x ∷ cells) zero (suc q) r c h = ground arith
get-set (x ∷ cells) (suc p) zero r c h = ground arith
get-set (x ∷ cells) (suc p) (suc q) r c h = get-set cells p q r c h ∙ ground arith

module _ (db : Database) (p : ℕ) {r : Row} (there : load db p ≡ ok r) where
  pub load-store :
      (q : ℕ) (r' : Row) → load (store db p r') q ≡ (if p == q then ok r' else load db q)
  unfolding load store
  load-store q r' = ground (arith, get-set db.rows p q r (live r') there)

  pub load-store_self : (r' : Row) → load (store db p r') p ≡ ok r'
  load-store_self r' = ground (arith, load-store p r')

  pub load-store_ne : (q : ℕ) (r' : Row) → p ≢ q → load (store db p r') q ≡ load db q
  load-store_ne q r' ne = ground (arith, load-store q r')

  pub load-free :
      (q : ℕ) → load (free db p) q ≡ (if p == q then fault use_after_free else load db q)
  unfolding load free
  load-free q = ground (arith, get-set db.rows p q r freed there)

-- A row behind the others is found at its address, and those before it are as they were.
pub load-append_self :
    (db : Database) (r : Row)
    → load (record db { rows = db.rows ++ live r ∷ [] }) (length db.rows) ≡ ok r
unfolding load
load-append_self db r = ap load_cell (at_end db.rows)
  where
    at_end : (cells : List Cell) → get_elem? (cells ++ live r ∷ []) (length cells) ≡ some (live r)
    at_end [] = refl
    at_end (c ∷ cells) = at_end cells

pub load-append :
    (db : Database) (c : Cell) (p : ℕ) {r : Row}
    → load db p ≡ ok r
    → load (record db { rows = db.rows ++ c ∷ [] }) p ≡ ok r
unfolding load
load-append db c p {r} h = before db.rows p h
  where
    before :
        (cells : List Cell) (p : ℕ)
        → load_cell (get_elem? cells p) ≡ ok r
        → load_cell (get_elem? (cells ++ c ∷ []) p) ≡ ok r
    before [] p h = cc
    before (x ∷ cells) zero h = h
    before (x ∷ cells) (suc p) h = before cells p h

set_same :
    (cells : List Cell) (p : ℕ) (c : Cell) → get_elem? cells p ≡ some c → set cells p c ≡ cells
set_same [] p c h = refl
set_same (x ∷ cells) zero c h = cc
set_same (x ∷ cells) (suc p) c h = ap (◌∷◌ x) (set_same cells p c h)

-- Storing what is there changes nothing.
pub store_same : (db : Database) (p : ℕ) (r : Row) → load db p ≡ ok r → store db p r ≡ db
unfolding load store
store_same db p r h =
    ap (λ cells. record db { rows = cells })
      (set_same db.rows p (live r) (cell_of_load db.rows p r h))
