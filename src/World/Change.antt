-- ===== src/World/Change.antt =====
-- A transaction changes one of its entries: it sets a column of its copy.
use data_agent_demo.Prelude.{
  ℕ, zero, suc, ◌<◌, ◌≡◌, refl, sym, ap, ◌∙◌, subst, false, some, List, [], ◌∷◌, arith, length,
  get_elem?, set, length-set,
}
use data_agent_demo.Run.{ok, >>=-eq-ok}
use data_agent_demo.System.{rd, wr}
use data_agent_demo.Bytes.{Bytes, memcpy_at}
use data_agent_demo.Bytes.Laws.{length-memcpy_at}
use data_agent_demo.Catalog.{get_field_size, get_field_index}
use data_agent_demo.Row.{Row, Table, set_value, get_schema, get_tuple_size}
use data_agent_demo.Database.{Database}
use data_agent_demo.Txn.{Access, Txn}
use data_agent_demo.Txn.Ops.{local_row, set_local}
use data_agent_demo.Txn.Accesses.{All-map, Held, Distinct}
use data_agent_demo.World.Alls.{All-set}
use data_agent_demo.Prelude.{get-front, set-front}
use data_agent_demo.World.{Seen, Active}
use data_agent_demo.World.Evolve.{ok_same}

Distinct-set :
    (xs : List Access) (i : ℕ) (x v : Access)
    → get_elem? xs i ≡ some x
    → v.orig_row ≡ x.orig_row
    → Distinct xs
    → Distinct (set xs i v)
Distinct-set [] i x v e f h = tt
Distinct-set (y ∷ ys) zero x v e f h =
    let same : y ≡ x = cc e in
    (All-map (λ b ne k. ne (ap (λ (a : Access). a.orig_row) same ∙ (sym f ∙ k))) ys h.0, h.1)
Distinct-set (y ∷ ys) (suc i) x v e f h =
    (All-set _ ys i x v e (λ ne k. ne (k ∙ f)) h.0, Distinct-set ys i x v e f h.1)

-- An entry in use is replaced by one with the same row.
module _ (t : Txn) (db : Database) (a : Active t db) (pos : ℕ) (x v : Access) (wr_cnt : ℕ)
    (inside : pos < t.row_cnt) (at : get_elem? t.accesses pos ≡ some x)
    (row_kept : v.orig_row ≡ x.orig_row) (held : Held false db x → Held false db v)
    (seen : Seen t.start_ts db x → Seen t.start_ts db v) where
  abbrev pub replaced : Txn
  replaced = record t { accesses = set t.accesses pos v; wr_cnt = wr_cnt }

  in_front : pos < length a.open_set.used
  in_front = omega (arith, inside, a.open_set.counted)

  at_front : get_elem? a.open_set.used pos ≡ some x
  at_front =
      sym (get-front a.open_set.used a.open_set.spare pos in_front)
      ∙ (ap (λ as'. get_elem? as' pos) (sym a.open_set.split) ∙ at)

  pub replaced-Active : Active replaced db
  replaced-Active = record {
    open_set = record {
      used = set a.open_set.used pos v;
      spare = a.open_set.spare;
      split =
          ap (λ (as' : List Access). set as' pos v) a.open_set.split
          ∙ set-front a.open_set.used a.open_set.spare pos v in_front;
      counted = length-set a.open_set.used pos v ∙ a.open_set.counted;
      held = All-set _ a.open_set.used pos x v at_front held a.open_set.held;
      distinct = Distinct-set a.open_set.used pos x v at_front row_kept a.open_set.distinct;
    };
    none_inserted = a.none_inserted;
    started = a.started;
    indexed =
        All-set _ a.open_set.used pos x v at_front (λ index q s e. index q s (sym row_kept ∙ e))
          a.indexed;
    placed = a.placed;
    seen = All-set _ a.open_set.used pos x v at_front seen a.seen;
  }

-- A column of a copy is set: the copy keeps its size.
set_value-sized :
    (l l' : Row) (id : ℕ) (ptr : Bytes)
    → set_value l id ptr ≡ ok l'
    → (length l'.data_bytes ≡ length l.data_bytes) × (l'.table ≡ l.table)
unfolding set_value
set_value-sized l l' id ptr e =
    let (size, _, e₁) = >>=-eq-ok (get_field_size (get_schema l) id) _ e in
    let (index, _, e₂) = >>=-eq-ok (get_field_index (get_schema l) id) _ e₁ in
    let (bytes, copied, e₃) = >>=-eq-ok (memcpy_at l.data_bytes index ptr size) _ e₂ in
    let same : record l { data_bytes = bytes } ≡ l' = ok_same e₃ in
    (
      sym (ap (λ (x : Row). length x.data_bytes) same)
          ∙ length-memcpy_at l.data_bytes index ptr size bytes copied,
      sym (ap (λ (x : Row). x.table) same),
    )

Held-set_value :
    (db : Database) (x : Access) (l l' : Row) (id : ℕ) (ptr : Bytes)
    → x.local ≡ some l
    → set_value l id ptr ≡ ok l'
    → Held false db x
    → Held false db (record x { local = some l' })
Held-set_value db x l l' id ptr has e h =
    let (size, table) = set_value-sized l l' id ptr e in
    let same : h.copy ≡ l = cc (h.copied, has) in
    let tuple : get_tuple_size l' ≡ get_tuple_size h.copy =
      ap (λ (s : Table). s.schema.tuple_size) (table ∙ sym (ap (λ (x : Row). x.table) same)) in
    record {
      addr = h.addr;
      row = h.row;
      occ = h.occ;
      copy = l';
      at = h.at;
      there = h.there;
      managed = h.managed;
      state = h.state;
      copied = refl;
      copy_sized =
          size ∙ (sym (ap (λ (x : Row). length x.data_bytes) same) ∙ (h.copy_sized ∙ sym tuple));
      row_sized = h.row_sized ∙ sym tuple;
    }

local_row_lem :
    (t : Txn) (pos : ℕ) (x : Access) (l : Row)
    → get_elem? t.accesses pos ≡ some x
    → local_row t pos ≡ ok l
    → x.local ≡ some l
unfolding local_row
local_row_lem t pos x l at e = ground arith

set_local_lem :
    (t : Txn) (pos : ℕ) (x : Access) (l : Row)
    → get_elem? t.accesses pos ≡ some x
    → set_local t pos l
      ≡ ok (record t { accesses = set t.accesses pos (record x { local = some l }) })
unfolding set_local
set_local_lem t pos x l at = rw at refl

-- A transaction sets a column of a copy that it got for writing.
pub set-Active :
    (t t' : Txn) (db : Database) (pos : ℕ) (x : Access) (l l' : Row) (id : ℕ) (ptr : Bytes)
    → Active t db
    → pos < t.row_cnt
    → get_elem? t.accesses pos ≡ some x
    → x.type ≡ wr
    → local_row t pos ≡ ok l
    → set_value l id ptr ≡ ok l'
    → set_local t pos l' ≡ ok t'
    → Active t' db
set-Active t t' db pos x l l' id ptr a inside at writes read set_col stored =
    subst (λ u. Active u db) (ok_same (sym (set_local_lem t pos x l' at) ∙ stored))
      (replaced-Active t db a pos x (record x { local = some l' }) t.wr_cnt inside at refl
        (Held-set_value db x l l' id ptr (local_row_lem t pos x l at read) set_col)
        (λ seen p r c m e there managed copied reads current. absurd (rd_wr (sym reads ∙ writes))))
  where
    rd_wr : ¬ (rd ≡ wr)
    rd_wr e = cc e
