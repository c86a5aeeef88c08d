-- ===== src/Txn/Commit.antt =====
-- OptCC::validate as a whole, for a transaction whose access set is in order.
use mathlib.Core.List.Permᴰ as PermD
use data_agent_demo.Prelude.{
  ℕ, ◌-◌, ◌≡◌, refl, sym, ap, ◌∙◌, subst, Bool, true, false, none, some, List, [], ◌∷◌, ◌++◌, map,
  arith, length, if◌then◌else◌, length-map,
}
use data_agent_demo.Txn.Opened.{IsOpen, IsEmptied, sorted}
use data_agent_demo.Run.{Run, ok}
use data_agent_demo.System.{rcok}
use data_agent_demo.Bytes.Laws.{take-append_all, take_all}
use data_agent_demo.Row.{Row, RowOcc}
use data_agent_demo.Database.{Database, load}
use data_agent_demo.Txn.{Access, Txn, wr?, cleanup, return_rows}
use data_agent_demo.Txn.Validate.{sort, lock_rows, release_rows, conclude, validate}
use data_agent_demo.Txn.Accesses.{
  All, All-map, All-perm, Held, Distinct, Changed, Changed-perm, Changed-compose,
}
use data_agent_demo.Txn.Passes.{relatch, IsCurrent, lock_rows-Locked}
use data_agent_demo.Txn.Release.{release_rows-Changed}
use data_agent_demo.Txn.Returns.{install, spent, IsBefore, return_rows_commit}
use data_agent_demo.Txn.Stages.{
  tick, Held-relatch, Held-tick, Changed-tick, IsBefore-relatch, Pinned-spent, Distinct-spent,
  Changed-spent,
}

-- the row functions of the three passes, one after the other
relatch-install-relatch :
    (ts : ℕ) (a : Access) (r : Row) (m : RowOcc)
    → r.manager ≡ some m
    → m.latched ≡ false
    → relatch false (install ts a (relatch true r)) ≡ install ts a r
relatch-install-relatch ts a r m e f = ground arith

install-latched :
    (ts : ℕ) (a : Access) (r : Row) (m : RowOcc)
    → r.manager ≡ some m
    → m.latched ≡ true
    → (m' : RowOcc) × ((install ts a r).manager ≡ some m') × (m'.latched ≡ true)
install-latched ts a r m e f = (
  if wr? a.type then (elim a.local [ none ↦ m | some l ↦ record m { wts = ts } ]) else m,
  ground arith,
  ground arith,
)

-- The three passes of a commit over the sorted entries, as one pass from the ticked database.
record Committed (t : Txn) (db : Database) (s spare : List Access) : Type 0 where
  locked : Database
  installed : Database
  released : Database
  clock : locked.timestamp ≡ db.timestamp
  locks : lock_rows t.start_ts s db ≡ ok (true, length s, locked)
  installs :
      return_rows rcok db.timestamp t.row_cnt (s ++ spare) (tick locked)
      ≡ ok (map spent s ++ spare, installed)
  releases : release_rows (length s) (map spent s ++ spare) installed ≡ ok released
  changed :
      Changed (λ a r. relatch false (install db.timestamp a (relatch true r))) s (tick db) released

committed :
    (t : Txn) (db : Database) (s spare : List Access)
    → length s ≡ t.row_cnt
    → All (Held false db) s
    → Distinct s
    → All (IsCurrent t.start_ts db) s
    → All (IsBefore db.timestamp db) s
    → Committed t db s spare
committed t db s spare l h d c b =
    let ts = db.timestamp in
    let k = lock_rows-Locked t.start_ts s db h d in
    let passed : k.passed ≡ true = k.current.1 c in
    let count : k.count ≡ length s = k.all passed in
    let cl : Changed (λ _. relatch true) s db k.after =
      subst (λ as'. Changed (λ _. relatch true) as' db k.after) (take_all k.count s (sym count))
        k.changed in
    let ht = All-map (Held-tick k.after) s (Held-relatch false true s db k.after cl h) in
    let bt = IsBefore-relatch false ts true s db k.after cl h b in
    let (installed, e₂, ci) = return_rows_commit ts t.row_cnt s spare (tick k.after) l ht bt d in
    let pinned = Pinned-spent (tick k.after) (install ts) s installed (install-latched ts) ci ht in
    let (released, e₃, cr) =
      release_rows-Changed (map spent s) spare installed pinned (Distinct-spent s d) in
    record {
      locked = k.after;
      installed = installed;
      released = released;
      clock = ap (λ (x : Database). x.timestamp) cl.rest;
      locks = k.returns ∙ ap₂' k.passed k.count k.after passed count;
      installs = e₂;
      releases =
          ap (λ n. release_rows n (map spent s ++ spare) installed) (sym (length-map s spent)) ∙ e₃;
      changed =
          Changed-compose (λ a r. install ts a (relatch true r)) (λ _. relatch false) s (tick db)
            installed released
            (Changed-compose (λ _. relatch true) (install ts) s (tick db) (tick k.after) installed
              (Changed-tick (λ _. relatch true) s db k.after cl) ci)
            (Changed-spent (relatch false) s installed released cr);
    }
  where
    ap₂' :
        (p : Bool) (n : ℕ) (after : Database)
        → p ≡ true
        → n ≡ length s
        → ◌≡◌ {A = Run (Bool × ℕ × Database)} (ok (p, n, after)) (ok (true, length s, after))
    ap₂' p n after e f = cc

-- The transaction that `cleanup` leaves.
abbrev emptied : Txn → ℕ → List Access → Txn
emptied t end_ts accesses = record t {
  accesses = accesses;
  end_ts = end_ts;
  row_cnt = 0;
  wr_cnt = 0;
  insert_rows = [];
  record_pos = [];
}

conclude_commit :
    (t : Txn) (db db' : Database) (accesses : List Access)
    → return_rows rcok db.timestamp t.row_cnt t.accesses (tick db) ≡ ok (accesses, db')
    → conclude true t db ≡ ok (rcok, emptied t db.timestamp accesses, db')
unfolding conclude cleanup tick
conclude_commit t db db' accesses e = rw e refl

-- After the three passes `validate` is done.
validate_run :
    (t : Txn) (db : Database) (s spare : List Access) (c : Committed t db s spare)
    → length s ≡ t.row_cnt
    → sort db (t.row_cnt - 1) t.accesses ≡ ok (s ++ spare)
    → validate t db
      ≡ ok (
        rcok,
        emptied (record t { lock_cnt = length s }) db.timestamp (map spent s ++ spare),
        c.released,
      )
unfolding validate
validate_run t db s spare c l sorts =
    let t₁ : Txn = record t { accesses = s ++ spare; lock_cnt = length s } in
    let concluded : conclude true t₁ c.locked
        ≡ ok (rcok, emptied t₁ db.timestamp (map spent s ++ spare), c.installed) =
      subst
        (λ ts.
          return_rows rcok ts t.row_cnt (s ++ spare) (tick c.locked)
            ≡ ok (map spent s ++ spare, c.installed)
          → conclude true t₁ c.locked
            ≡ ok (rcok, emptied t₁ ts (map spent s ++ spare), c.installed))
        c.clock (conclude_commit t₁ c.locked c.installed (map spent s ++ spare)) c.installs in
    rw (sorts, take-append_all t.row_cnt s spare l, c.locks, concluded, c.releases) refl

-- A pass whose row function agrees on held rows with another's is that other's pass too.
Changed-ext :
    (f g : Access → Row → Row) (accesses : List Access) (db db' : Database)
    → ((a : Access) (r : Row) (m : RowOcc) → r.manager ≡ some m → m.latched ≡ false → f a r ≡ g a r)
    → All (Held false db) accesses
    → Changed f accesses db db'
    → Changed g accesses db db'
Changed-ext f g accesses db db' same h c = record {
  rows = go accesses h c.rows;
  others = c.others;
  rest = c.rest;
}
  where
    go :
        (as' : List Access)
        → All (Held false db) as'
        → All
            (λ a.
              (p : ℕ) (r : Row) → a.orig_row ≡ some p → load db p ≡ ok r → load db' p ≡ ok (f a r))
            as'
        → All
            (λ a.
              (p : ℕ) (r : Row) → a.orig_row ≡ some p → load db p ≡ ok r → load db' p ≡ ok (g a r))
            as'
    go [] hs k = tt
    go (a ∷ as') hs k = (
      λ p r e l.
          let addr : hs.0.addr ≡ p = cc (hs.0.at) in
          let row : ok hs.0.row ≡ ok r = sym hs.0.there ∙ (ap (load db) addr ∙ l) in
          k.0 p r e l ∙ ap ok (same a r hs.0.occ (cc (row, hs.0.managed)) hs.0.state),
      go as' hs.1 k.1,
    )

-- `validate` returns RCOK. Each row that the entries of type WR name then holds the copy's bytes and, as its
-- time, the clock before; every other row is as before, latches included; the clock has moved on by one; the
-- rest of the database is as before; and the transaction's sets are empty.
abbrev pub Commits : Txn → Database → List Access → Type 0
Commits t db used =
    (t' : Txn) × (db' : Database) × (validate t db ≡ ok (rcok, t', db'))
    × Changed (install db.timestamp) used (tick db) db'
    × IsEmptied t'

-- An open transaction commits when no row of its access set was written after it started and the clock is ahead
-- of the times of those rows: `validate` returns RCOK, installs exactly the written copies under the clock's
-- time, frees every latch, moves the clock on by one, and changes nothing else in the database.
pub validate_commit :
    (t : Txn) (db : Database) (o : IsOpen t db)
    → All (IsCurrent t.start_ts db) o.used
    → All (IsBefore db.timestamp db) o.used
    → Commits t db o.used
validate_commit t db o current before =
    let s = sorted t db o in
    let c =
      committed t db s.entries o.spare s.counted s.held s.distinct
        (All-perm (IsCurrent t.start_ts db) o.used s.entries s.perm current)
        (All-perm (IsBefore db.timestamp db) o.used s.entries s.perm before) in
    (
      _,
      c.released,
      validate_run t db s.entries o.spare c s.counted s.returns,
      Changed-ext (λ a r. relatch false (install db.timestamp a (relatch true r)))
          (install db.timestamp) o.used (tick db) c.released (relatch-install-relatch db.timestamp)
          (All-map (Held-tick db) o.used o.held)
          (Changed-perm _ s.entries o.used (tick db) c.released (PermD.symm s.perm) s.perm
            c.changed),
      record { rows = refl; writes = refl; inserts = refl; positions = refl },
    )
