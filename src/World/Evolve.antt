-- ===== src/World/Evolve.antt =====
-- What the steps of one transaction leave to the others.
use data_agent_demo.Prelude.{
  ℕ, ◌<◌, ◌≤◌, ◌≡◌, ◌⊎◌, inl, inr, sym, ap, ◌∙◌, subst, false, some, arith, length,
}
use data_agent_demo.Run.{ok}
use data_agent_demo.Row.{Row, RowOcc}
use data_agent_demo.Database.{Database, load}
use data_agent_demo.Txn.{Access, Txn}
use data_agent_demo.Txn.Accesses.{All-map, Held}
use data_agent_demo.World.Alls.{All-both}
use data_agent_demo.World.{Indexed, Seen, Active}

-- The row was written at time `ts`: it has as many bytes as before, and a new time.
pub record Rewritten (ts : ℕ) (r r' : Row) : Type 0 where
  pub old_occ : RowOcc
  pub new_occ : RowOcc
  pub managed : r.manager ≡ some old_occ
  pub managed' : r'.manager ≡ some new_occ
  pub latch_kept : new_occ.latched ≡ old_occ.latched
  pub dated : new_occ.wts ≡ ts
  pub size_kept : length r'.data_bytes ≡ length r.data_bytes
  pub key_kept : r'.primary_key ≡ r.primary_key

-- The clock did not go back, and each live row is still live, and is as it was or was rewritten in the meantime.
pub record Evolves (db db' : Database) : Type 0 where
  pub later : db.timestamp ≤ db'.timestamp
  pub rows :
      (p : ℕ) (r : Row)
      → load db p ≡ ok r
      → (r' : Row) × (load db' p ≡ ok r') × ((r' ≡ r) ⊎ Rewritten db.timestamp r r')

pub ok_same {ℓ} : {A : Type ℓ} {a b : A} → ok a ≡ ok b → a ≡ b
ok_same e = cc e

pub some_same {ℓ} : {A : Type ℓ} {a b : A} → some a ≡ some b → a ≡ b
some_same e = cc e

same_occ :
    {db : Database} {a : Access} {ts : ℕ} {r' : Row} (h : Held false db a)
    (new : Rewritten ts h.row r')
    → new.old_occ ≡ h.occ
same_occ h new = cc (new.managed, h.managed)

module _ (db db' : Database) (ev : Evolves db db') where
  Held-Evolves : (a : Access) → Held false db a → Held false db' a
  Held-Evolves a h =
      let (r', there', change) = ev.rows h.addr h.row h.there in
      elim change [
        | inl same ↦ record {
          addr = h.addr;
          row = h.row;
          occ = h.occ;
          copy = h.copy;
          at = h.at;
          there = there' ∙ ap ok same;
          managed = h.managed;
          state = h.state;
          copied = h.copied;
          copy_sized = h.copy_sized;
          row_sized = h.row_sized;
        }
        | inr new ↦ record {
          addr = h.addr;
          row = r';
          occ = new.new_occ;
          copy = h.copy;
          at = h.at;
          there = there';
          managed = new.managed';
          state = new.latch_kept ∙ (ap (λ (m : RowOcc). m.latched) (same_occ h new) ∙ h.state);
          copied = h.copied;
          copy_sized = h.copy_sized;
          row_sized = new.size_kept ∙ h.row_sized;
        }
      ]

  Indexed-Evolves : (t : Txn) (a : Access) → Held false db a × Indexed t db a → Indexed t db' a
  Indexed-Evolves t a (h, index) p r at there =
      let (r', there', change) = ev.rows h.addr h.row h.there in
      let row : r' ≡ r = ok_same (sym there' ∙ (ap (load db') (cc (h.at, at)) ∙ there)) in
      let (pos, found) = index h.addr h.row h.at h.there in
      elim change [
        | inl same ↦ (pos, cc (same, row, found))
        | inr new ↦ (pos, cc (new.key_kept, row, found))
      ]

  Seen-Evolves :
      (start_ts : ℕ) (a : Access)
      → start_ts < db.timestamp
      → Held false db a × Seen start_ts db a
      → Seen start_ts db' a
  Seen-Evolves start_ts a started (h, seen) p r l m at there managed copied reads current =
      let (r', there', change) = ev.rows h.addr h.row h.there in
      let row : r' ≡ r = ok_same (sym there' ∙ (ap (load db') (cc (h.at, at)) ∙ there)) in
      elim change [
        | inl same ↦
            let old : h.row ≡ r = sym same ∙ row in
            subst (λ x. l.data_bytes ≡ x.data_bytes) old
              (seen h.addr h.row l m h.at h.there (ap (λ (x : Row). x.manager) old ∙ managed) copied
                reads current)
        | inr new ↦
            let date : new.new_occ ≡ m = cc (new.managed', row, managed) in
            absurd (omega (arith, new.dated, started, current, ap (λ (x : RowOcc). x.wts) date))
      ]

-- A transaction in order stays so when others end.
pub Active-Evolves : (db db' : Database) (t : Txn) → Evolves db db' → Active t db → Active t db'
Active-Evolves db db' t ev a =
    let o = a.open_set in
    record {
      open_set = record {
        used = o.used;
        spare = o.spare;
        split = o.split;
        counted = o.counted;
        held = All-map (Held-Evolves db db' ev) o.used o.held;
        distinct = o.distinct;
      };
      none_inserted = a.none_inserted;
      started = omega (arith, a.started, ev.later);
      indexed = All-map (Indexed-Evolves db db' ev t) o.used (All-both _ _ o.used o.held a.indexed);
      placed = a.placed;
      seen =
          All-map (λ e. Seen-Evolves db db' ev t.start_ts e a.started) o.used
            (All-both _ _ o.used o.held a.seen);
    }
