-- ===== src/Catalog/Layout.antt =====
-- Catalog::add_col lays the columns out one behind the other, and the getters read that layout.
use data_agent_demo.Prelude.{
  ℕ, zero, suc, ◌+◌, ◌%◌, ◌≤◌, ◌<◌, ◌≡◌, ◌≢◌, ◌↔◌, subst, inl, inr, refl, ap, ◌∙◌, some, List, [],
  ◌∷◌, ◌++◌, arith, length, get_elem?, length-append, Bool-cases,
}
use data_agent_demo.Run.{ok}
use data_agent_demo.Bytes.{Bytes, strcmp}
use data_agent_demo.Bytes.Laws.{strcmp-equal_iff}
use data_agent_demo.System.{word32}
use data_agent_demo.Catalog.{
  Column, Catalog, init, add_col, field_cnt, find_name, get_field_id, equal?,
}

-- The columns from number `id` on lie at `start` and behind it, and end at `stop`.
abbrev pub LaidFrom : ℕ → ℕ → ℕ → List Column → Type 0
LaidFrom id start stop [] = start ≡ stop
LaidFrom id start stop (c ∷ cs) =
    (c.id ≡ id) × (c.index ≡ start) × LaidFrom (suc id) (start + c.size) stop cs

abbrev pub IsLaidOut : Catalog → Type 0
IsLaidOut c = LaidFrom 0 0 c.tuple_size c.columns

pub init-IsLaidOut : (name : Bytes) (n : ℕ) → IsLaidOut (init name n)
unfolding init
init-IsLaidOut name n = refl

LaidFrom-append :
    (id start stop stop' : ℕ) (cs : List Column) (c : Column)
    → LaidFrom id start stop cs
    → c.id ≡ id + length cs
    → c.index ≡ stop
    → stop + c.size ≡ stop'
    → LaidFrom id start stop' (cs ++ c ∷ [])
LaidFrom-append id start stop stop' [] c h e f g = (omega arith, omega arith, omega arith)
LaidFrom-append id start stop stop' (d ∷ cs) c h e f g =
    (h.0, h.1, LaidFrom-append (suc id) (start + d.size) stop stop' cs c h.2 (omega arith) f g)

-- The catalog that `add_col` leaves when it succeeds.
abbrev pub with_col : Catalog → Bytes → ℕ → Bytes → Catalog
with_col c name size type = record c {
  columns =
      c.columns
      ++ record {
        id = field_cnt c;
        size = size % word32;
        index = c.tuple_size;
        type = type;
        name = name;
      }
        ∷ [];
  tuple_size = (c.tuple_size + size) % word32;
}

-- `add_col` succeeds exactly when there is room for the column and for both texts.
pub add_col-eq-ok :
    (c : Catalog) (name : Bytes) (size : ℕ) (type : Bytes)
    → field_cnt c < c.capacity
    → length type < 80
    → length name < 80
    → add_col c name size type ≡ ok (with_col c name size type)
unfolding add_col
add_col-eq-ok c name size type h k l = ground arith

add_col_inversion :
    (c : Catalog) (name : Bytes) (size : ℕ) (type : Bytes) {c' : Catalog}
    → add_col c name size type ≡ ok c'
    → c' ≡ with_col c name size type
unfolding add_col
add_col_inversion c name size type h = ground arith

-- Adding a column keeps the layout, as long as the sizes do not wrap around.
pub add_col-IsLaidOut :
    (c : Catalog) (name : Bytes) (size : ℕ) (type : Bytes) (c' : Catalog)
    → IsLaidOut c
    → c.tuple_size + size < word32
    → add_col c name size type ≡ ok c'
    → IsLaidOut c' × (c'.tuple_size ≡ c.tuple_size + size) × (field_cnt c' ≡ field_cnt c + 1)
add_col-IsLaidOut c name size type c' h small e = rw (add_col_inversion c name size type e) (
  LaidFrom-append 0 0 c.tuple_size _ c.columns _ h (omega arith) refl (omega arith),
  omega arith,
  length-append c.columns _,
)

LaidFrom-bounds :
    (id start stop : ℕ) (cs : List Column) (i : ℕ) (c : Column)
    → LaidFrom id start stop cs
    → get_elem? cs i ≡ some c
    → (start ≤ c.index) × (c.index + c.size ≤ stop)
LaidFrom-bounds id start stop [] i c h e = cc
LaidFrom-bounds id start stop (d ∷ cs) zero c h e =
    let rest = LaidFrom-le (suc id) (start + d.size) stop cs h.2 in ground (arith, rest)
  where
    LaidFrom-le : (id start stop : ℕ) (cs : List Column) → LaidFrom id start stop cs → start ≤ stop
    LaidFrom-le id start stop [] h = omega arith
    LaidFrom-le id start stop (d ∷ cs) h =
        omega (arith, LaidFrom-le (suc id) (start + d.size) stop cs h.2)
LaidFrom-bounds id start stop (d ∷ cs) (suc i) c h e =
    omega (arith, LaidFrom-bounds (suc id) (start + d.size) stop cs i c h.2 e)

LaidFrom-disjoint :
    (id start stop : ℕ) (cs : List Column) (i j : ℕ) (a b : Column)
    → LaidFrom id start stop cs
    → i < j
    → get_elem? cs i ≡ some a
    → get_elem? cs j ≡ some b
    → a.index + a.size ≤ b.index
LaidFrom-disjoint id start stop [] i j a b h lt e f = cc
LaidFrom-disjoint id start stop (c ∷ cs) i zero a b h lt e f = absurd (omega arith)
LaidFrom-disjoint id start stop (c ∷ cs) zero (suc j) a b h lt e f =
    ground (arith, LaidFrom-bounds (suc id) (start + c.size) stop cs j b h.2 f)
LaidFrom-disjoint id start stop (c ∷ cs) (suc i) (suc j) a b h lt e f =
    LaidFrom-disjoint (suc id) (start + c.size) stop cs i j a b h.2 (omega arith) e f

-- Two columns of a laid out catalog never overlap, and both lie inside the tuple.
pub columns_disjoint :
    (c : Catalog) (i j : ℕ) (a b : Column)
    → IsLaidOut c
    → i < j
    → get_elem? c.columns i ≡ some a
    → get_elem? c.columns j ≡ some b
    → (a.index + a.size ≤ b.index) × (b.index + b.size ≤ c.tuple_size)
columns_disjoint c i j a b h lt e f = (
  LaidFrom-disjoint 0 0 c.tuple_size c.columns i j a b h lt e f,
  (LaidFrom-bounds 0 0 c.tuple_size c.columns j b h f).1,
)

-- One column alone lies inside the tuple.
pub column_inside :
    (c : Catalog) (i : ℕ) (a : Column)
    → IsLaidOut c
    → get_elem? c.columns i ≡ some a
    → a.index + a.size ≤ c.tuple_size
column_inside c i a h e = (LaidFrom-bounds 0 0 c.tuple_size c.columns i a h e).1

-- Column `k` has the name, and no column before it has.
abbrev pub FirstNamed : Bytes → List Column → ℕ → Type 0
FirstNamed name [] k = ⊥
FirstNamed name (c ∷ cs) zero = c.name ≡ name
FirstNamed name (c ∷ cs) (suc k) = (c.name ≢ name) × FirstNamed name cs k

find_name-finds :
    (name : Bytes) (cs : List Column) (i k : ℕ)
    → FirstNamed name cs k
    → find_name name cs i ≡ ok (i + k)
unfolding find_name
find_name-finds name [] i k h = absurd h
find_name-finds name (c ∷ cs) i zero h = ground (arith, strcmp-equal_iff name c.name)
find_name-finds name (c ∷ cs) i (suc k) h =
    ground (arith, strcmp-equal_iff name c.name, find_name-finds name cs (suc i) k h.1)

find_name-FirstNamed :
    (name : Bytes) (cs : List Column) (i n : ℕ)
    → find_name name cs i ≡ ok n
    → (k : ℕ) × (n ≡ i + k) × FirstNamed name cs k
unfolding find_name
find_name-FirstNamed name [] i n h = cc
find_name-FirstNamed name (c ∷ cs) i n h = elim (Bool-cases (equal? (strcmp name c.name))) [
  | inl hit ↦ (0, ground arith, ground (arith, strcmp-equal_iff name c.name))
  | inr miss ↦
      let (k, e, first) = find_name-FirstNamed name cs (suc i) n (ground arith) in
      (suc k, omega arith, (ground (arith, strcmp-equal_iff name c.name), first))
]

-- `get_field_id` returns a number exactly when it is that of the first column of the name.
pub get_field_id_iff :
    (c : Catalog) (name : Bytes) (k : ℕ)
    → (get_field_id c name ≡ ok k) ↔ FirstNamed name c.columns k
unfolding get_field_id
get_field_id_iff c name k = (found, λ h. find_name-finds name c.columns 0 k h ∙ ap ok (omega arith))
  where
    found : find_name name c.columns 0 ≡ ok k → FirstNamed name c.columns k
    found h =
        let (m, e, first) = find_name-FirstNamed name c.columns 0 k h in
        subst (FirstNamed name c.columns) (omega arith) first
