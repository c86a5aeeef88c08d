-- ===== src/Row/Fields.antt =====
-- The fields of a row: what a write to a column leaves in every column, and what a copy of a row gives.
use data_agent_demo.Prelude.{
  ℕ, ◌+◌, ◌≤◌, ◌<◌, ◌≡◌, ◌≢◌, ◌⊎◌, inl, inr, refl, ap, ◌∙◌, some, [], ◌∷◌, ◌++◌, arith, take,
  length, get_elem?,
}
use data_agent_demo.Run.{ok}
use data_agent_demo.Bytes.{Bytes}
use data_agent_demo.Bytes.Laws.{
  memcpy_at-eq-ok, spliced, length-spliced, slice, slice-spliced_self, slice-spliced_before,
  drop-spliced_after, take_all, drop_all,
}
use data_agent_demo.Catalog.{Column, get_field_size, get_field_index}
use data_agent_demo.Catalog.Layout.{IsLaidOut, columns_disjoint, column_inside}
use data_agent_demo.Row.{Row, get_schema, get_tuple_size, set_value, copy}

-- The row holds a whole tuple of its table.
abbrev pub IsSound : Row → Type 0
IsSound r = IsLaidOut (get_schema r) × (length r.data_bytes ≡ get_tuple_size r)

-- Copying a row over one of the same size gives it the other's bytes, and changes nothing else.
pub copy_lem :
    (r src : Row)
    → length src.data_bytes ≡ get_tuple_size src
    → length r.data_bytes ≡ get_tuple_size src
    → copy r src ≡ ok (record r { data_bytes = src.data_bytes })
unfolding copy
copy_lem r src h k =
    let n = get_tuple_size src in
    rw (memcpy_at-eq-ok r.data_bytes 0 src.data_bytes n (omega arith) (omega arith))
      (ap (λ bytes. ok (record r { data_bytes = bytes })) same)
  where
    open-append-nil : (xs : Bytes) → xs ++ [] ≡ xs
    open-append-nil [] = refl
    open-append-nil (x ∷ xs) = ap (◌∷◌ x) (open-append-nil xs)

    same : spliced r.data_bytes 0 src.data_bytes (get_tuple_size src) ≡ src.data_bytes
    same = rw (take_all (get_tuple_size src) src.data_bytes h) (
        rw (drop_all (0 + get_tuple_size src) r.data_bytes (omega arith))
          (open-append-nil src.data_bytes))

lt_or_lt : (i j : ℕ) → i ≢ j → (i < j) ⊎ (j < i)
lt_or_lt i j h = grind arith

module _ (r : Row) (id : ℕ) (c : Column) (ptr : Bytes) (sound : IsSound r)
    (at : get_elem? (get_schema r).columns id ≡ some c) (long : c.size ≤ length ptr) where
  inside : c.index + c.size ≤ length r.data_bytes
  inside = omega (arith, column_inside (get_schema r) id c sound.0 at)

  -- the row after the write
  abbrev pub written : Row
  written = record r { data_bytes = spliced r.data_bytes c.index ptr c.size }

  pub set_value_lem : set_value r id ptr ≡ ok written
  unfolding set_value get_field_size get_field_index
  set_value_lem = ground (arith, memcpy_at-eq-ok r.data_bytes c.index ptr c.size inside long)

  pub written-IsSound : IsSound written
  written-IsSound = (sound.0, length-spliced r.data_bytes c.index ptr c.size inside long ∙ sound.1)

  pub slice-written_self : slice c.index c.size written.data_bytes ≡ take c.size ptr
  slice-written_self = slice-spliced_self r.data_bytes c.index ptr c.size inside long

  pub slice-written_ne :
      (j : ℕ) (d : Column)
      → get_elem? (get_schema r).columns j ≡ some d
      → ◌≢◌ {A = ℕ} j id
      → slice d.index d.size written.data_bytes ≡ slice d.index d.size r.data_bytes
  slice-written_ne j d e ne = elim (lt_or_lt j id ne) [
    | inl before ↦
        slice-spliced_before r.data_bytes c.index ptr c.size inside long d.index d.size
          (columns_disjoint (get_schema r) j id d c sound.0 before e at).0
    | inr after ↦ ap (take d.size) (
        drop-spliced_after r.data_bytes c.index ptr c.size inside long d.index
          (columns_disjoint (get_schema r) id j c d sound.0 after at e).0)
  ]

-- The write succeeds; the column then holds the first bytes of the buffer, every other column is as before,
-- and so is all of the row but its bytes.
abbrev pub WritesColumn : Row → ℕ → Column → Bytes → Type 0
WritesColumn r id c ptr =
    (r' : Row) × (set_value r id ptr ≡ ok r')
    × IsSound r'
    × (slice c.index c.size r'.data_bytes ≡ take c.size ptr)
    × ((j : ℕ) (d : Column)
        → get_elem? (get_schema r).columns j ≡ some d
        → j ≢ id
        → slice d.index d.size r'.data_bytes ≡ slice d.index d.size r.data_bytes)
    × (record r' { data_bytes = r.data_bytes } ≡ r)

-- `set_value` on a column of a sound row, with a buffer at least as long as the column, succeeds: it writes
-- the column's bytes, leaves every other column and the rest of the row alone, and the row stays sound.
pub set_value-columns :
    (r : Row) (id : ℕ) (c : Column) (ptr : Bytes)
    → IsSound r
    → get_elem? (get_schema r).columns id ≡ some c
    → c.size ≤ length ptr
    → WritesColumn r id c ptr
set_value-columns r id c ptr sound at long = (
  written r id c ptr sound at long,
  set_value_lem r id c ptr sound at long,
  written-IsSound r id c ptr sound at long,
  slice-written_self r id c ptr sound at long,
  slice-written_ne r id c ptr sound at long,
  refl,
)
