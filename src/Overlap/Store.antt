-- ===== src/Overlap/Store.antt =====
-- What the store of a row keeps.
use native.Mathlib.Decide.{ℕ_discrete}
use data_agent_demo.Prelude.{
  ℕ, ◌<◌, ◌≡◌, ◌≢◌, ◌⊎◌, inl, inr, sym, ap, ◌∙◌, true, some, arith, length,
}
use data_agent_demo.Run.{ok}
use data_agent_demo.System.{rd}
use data_agent_demo.Row.{Row, RowOcc, Table, get_tuple_size}
use data_agent_demo.Database.{Database, load, store}
use data_agent_demo.Database.Memory.{load-store_self, load-store_ne}
use data_agent_demo.Txn.{Access}
use data_agent_demo.Txn.Passes.{IsCurrent}
use data_agent_demo.Txn.Returns.{IsBefore}
use data_agent_demo.World.{Seen}
use data_agent_demo.World.Evolve.{ok_same}

-- The entry names a live row, and has a copy of the row's size.
pub record Names (db : Database) (a : Access) : Type 0 where
  pub addr : ℕ
  pub row : Row
  pub copy : Row
  pub at : a.orig_row ≡ some addr
  pub there : load db addr ≡ ok row
  pub copied : a.local ≡ some copy
  pub copy_sized : length copy.data_bytes ≡ get_tuple_size copy
  pub row_sized : length row.data_bytes ≡ get_tuple_size copy

-- The row at an address is live and its latch is taken.
pub record IsLatched (db : Database) (p : ℕ) : Type 0 where
  pub row : Row
  pub occ : RowOcc
  pub there : load db p ≡ ok row
  pub managed : row.manager ≡ some occ
  pub state : occ.latched ≡ true

-- The row has a manager and all its bytes, and was written before the present time.
pub record RowFits (db : Database) (r : Row) : Type 0 where
  pub occ : RowOcc
  pub managed : r.manager ≡ some occ
  pub past : occ.wts < db.timestamp
  pub sized : length r.data_bytes ≡ get_tuple_size r

-- The row at `p` becomes another of the same table and as many bytes.
pub record Replaces (db : Database) (p : ℕ) (r r' : Row) : Type 0 where
  pub there : load db p ≡ ok r
  pub same_table : r'.table ≡ r.table
  pub same_key : r'.primary_key ≡ r.primary_key
  pub same_size : length r'.data_bytes ≡ length r.data_bytes

module _ (db : Database) (p : ℕ) (r r' : Row) (c : Replaces db p r r') where
  -- a row of the new memory is the new one, or one of the old
  pub load-store_cases :
      (q : ℕ) (s : Row)
      → load (store db p r') q ≡ ok s
      → ((p ≡ q) × (s ≡ r')) ⊎ ((p ≢ q) × (load db q ≡ ok s))
  load-store_cases q s there = elim (ℕ_discrete p q) [
    | yes same ↦ inl (
      same,
      ok_same
          (sym there ∙ (ap (load (store db p r')) (sym same) ∙ load-store_self db p c.there r')),
    )
    | no other ↦ inr (other, sym (load-store_ne db p c.there q r' other) ∙ there)
  ]

  pub Names-store : (a : Access) → Names db a → Names (store db p r') a
  Names-store a h = elim (ℕ_discrete p h.addr) [
    | yes same ↦ record {
      addr = h.addr;
      row = r';
      copy = h.copy;
      at = h.at;
      there = ap (load (store db p r')) (sym same) ∙ load-store_self db p c.there r';
      copied = h.copied;
      copy_sized = h.copy_sized;
      row_sized =
          c.same_size
          ∙ (ap (λ (s : Row). length s.data_bytes)
                (ok_same (sym c.there ∙ (ap (load db) same ∙ h.there)))
              ∙ h.row_sized);
    }
    | no other ↦ record {
      addr = h.addr;
      row = h.row;
      copy = h.copy;
      at = h.at;
      there = load-store_ne db p c.there h.addr r' other ∙ h.there;
      copied = h.copied;
      copy_sized = h.copy_sized;
      row_sized = h.row_sized;
    }
  ]

  pub IsLatched-store : (q : ℕ) → p ≢ q → IsLatched db q → IsLatched (store db p r') q
  IsLatched-store q other h = record {
    row = h.row;
    occ = h.occ;
    there = load-store_ne db p c.there q r' other ∙ h.there;
    managed = h.managed;
    state = h.state;
  }

  pub IsCurrent-store :
      (ts : ℕ) (a : Access)
      → a.orig_row ≢ some p
      → IsCurrent ts db a
      → IsCurrent ts (store db p r') a
  IsCurrent-store ts a other h q s m at there managed =
      h q s m at (sym (load-store_ne db p c.there q r' (λ e. other (at ∙ ap some (sym e)))) ∙ there)
        managed

  pub IsBefore-store :
      (ts : ℕ) (a : Access) → a.orig_row ≢ some p → IsBefore ts db a → IsBefore ts (store db p r') a
  IsBefore-store ts a other h q s m at there managed =
      h q s m at (sym (load-store_ne db p c.there q r' (λ e. other (at ∙ ap some (sym e)))) ∙ there)
        managed

  -- What an entry for reading has seen is still there, when the row has its bytes and its time still, or when the
  -- row was written after the start.
  pub Seen-store :
      (start_ts : ℕ) (a : Access)
      → ((m' : RowOcc)
          → a.orig_row ≡ some p
          → a.type ≡ rd
          → r'.manager ≡ some m'
          → (start_ts < m'.wts)
            ⊎ ((r'.data_bytes ≡ r.data_bytes)
                × (m : RowOcc) × (r.manager ≡ some m)
                × (m.wts ≡ m'.wts)))
      → Seen start_ts db a
      → Seen start_ts (store db p r') a
  Seen-store start_ts a kept h q s l m at there managed copied reads current =
      elim (load-store_cases q s there) [
        | inr (other, before) ↦ h q s l m at before managed copied reads current
        | inl (same, new) ↦
            elim (kept m (at ∙ ap some (sym same)) reads
              (ap (λ (x : Row). x.manager) (sym new) ∙ managed)) [
                | inl late ↦ absurd (omega (arith, late, current))
                | inr (bytes, old, old_managed, times) ↦
                    h q r l old at (ap (load db) (sym same) ∙ c.there) old_managed copied reads
                      (omega (arith, times, current))
                    ∙ (sym bytes ∙ ap (λ (x : Row). x.data_bytes) (sym new))
              ]
      ]

  pub RowFits-store :
      (occ : RowOcc)
      → r'.manager ≡ some occ
      → occ.wts < db.timestamp
      → ((q : ℕ) (s : Row) → load db q ≡ ok s → RowFits db s)
      → (q : ℕ) (s : Row) → load (store db p r') q ≡ ok s
      → RowFits (store db p r') s
  unfolding store
  RowFits-store occ managed past fits q s there = elim (load-store_cases q s there) [
    | inr (other, before) ↦
        let f = fits q s before in
        record { occ = f.occ; managed = f.managed; past = f.past; sized = f.sized }
    | inl (same, new) ↦
        let f = fits p r c.there in
        record {
          occ = occ;
          managed = ap (λ (x : Row). x.manager) new ∙ managed;
          past = past;
          sized =
              ap (λ (x : Row). length x.data_bytes) new
              ∙ (c.same_size
                  ∙ (f.sized
                      ∙ sym (
                          ap (λ (x : Row). get_tuple_size x) new
                          ∙ ap (λ (t : Table). t.schema.tuple_size) c.same_table)));
        }
  ]
