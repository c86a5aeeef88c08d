-- ===== src/Txn/Order.antt =====
-- The order that the sort of OptCC::validate puts the entries in: by the table's name, then by the primary key.
use data_agent_demo.Prelude.{◌≡◌, refl, sym, ◌∙◌, subst, true, false, arith, ltb}
use data_agent_demo.Bytes.{negative, equal, positive, Sign, strcmp}
use data_agent_demo.Bytes.Laws.{strcmp-equal_iff}
use data_agent_demo.Bytes.Order.{strcmp_flip, strcmp_trans}
use data_agent_demo.Row.{Row, get_table_name}
use data_agent_demo.Txn.Validate.{row_greater}

-- The row does not come behind the other.
abbrev pub RowLe : Row → Row → Type 0
RowLe r s = row_greater r s ≡ false

-- what a row and another compare to, as a sum
data Compared (r s : Row) : Type 0 where
  name_before : strcmp (get_table_name r) (get_table_name s) ≡ negative → Compared r s
  same_name : get_table_name r ≡ get_table_name s → Compared r s
  name_behind : strcmp (get_table_name r) (get_table_name s) ≡ positive → Compared r s

compared : (r s : Row) → Compared r s
compared r s = of (strcmp (get_table_name r) (get_table_name s)) refl
  where
    of : (sign : Sign) → strcmp (get_table_name r) (get_table_name s) ≡ sign → Compared r s
    of negative e = name_before e
    of equal e = same_name ((strcmp-equal_iff (get_table_name r) (get_table_name s)).0 e)
    of positive e = name_behind e

greater-before :
    (r s : Row) → strcmp (get_table_name r) (get_table_name s) ≡ negative → row_greater r s ≡ false
unfolding row_greater
greater-before r s e = rw (row_greater, e) refl

greater-behind :
    (r s : Row) → strcmp (get_table_name r) (get_table_name s) ≡ positive → row_greater r s ≡ true
unfolding row_greater
greater-behind r s e = rw (row_greater, e) refl

greater-same :
    (r s : Row)
    → get_table_name r ≡ get_table_name s
    → row_greater r s ≡ ltb s.primary_key r.primary_key
unfolding row_greater
greater-same r s e =
    let same : strcmp (get_table_name r) (get_table_name s) ≡ equal =
      (strcmp-equal_iff (get_table_name r) (get_table_name s)).1 e in
    rw (row_greater, same) refl

pub row_greater-RowLe : (r s : Row) → row_greater r s ≡ true → RowLe s r
row_greater-RowLe r s e = elim (compared r s) [
  | name_before n ↦ cc (e, greater-before r s n)
  | same_name n ↦
      let key : ltb s.primary_key r.primary_key ≡ true = sym (greater-same r s n) ∙ e in
      greater-same s r (sym n) ∙ ground arith
  | name_behind n ↦ greater-before s r (strcmp_flip (get_table_name r) (get_table_name s) n)
]

pub RowLe-trans : (r s t : Row) → RowLe r s → RowLe s t → RowLe r t
RowLe-trans r s t h k = elim (compared r s) [
  | name_behind n ↦ cc (h, greater-behind r s n)
  | name_before n ↦ elim (compared s t) [
    | name_behind m ↦ cc (k, greater-behind s t m)
    | name_before m ↦
        greater-before r t
          (strcmp_trans (get_table_name r) (get_table_name s) (get_table_name t) n m)
    | same_name m ↦
        greater-before r t (subst (λ name. strcmp (get_table_name r) name ≡ negative) m n)
  ]
  | same_name n ↦ elim (compared s t) [
    | name_behind m ↦ cc (k, greater-behind s t m)
    | name_before m ↦
        greater-before r t (subst (λ name. strcmp name (get_table_name t) ≡ negative) (sym n) m)
    | same_name m ↦
        let first : ltb s.primary_key r.primary_key ≡ false = sym (greater-same r s n) ∙ h in
        let second : ltb t.primary_key s.primary_key ≡ false = sym (greater-same s t m) ∙ k in
        greater-same r t (n ∙ m) ∙ ground arith
  ]
]
