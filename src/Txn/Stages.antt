-- ===== src/Txn/Stages.antt =====
-- From one stage of a commit to the next: what the passes keep of the entries.
use data_agent_demo.Prelude.{
  ℕ, ◌≡◌, ◌≢◌, refl, sym, ap, ◌∙◌, Bool, true, some, List, [], ◌∷◌, map, arith, length,
}
use data_agent_demo.Run.{ok}
use data_agent_demo.Row.{Row, RowOcc}
use data_agent_demo.Database.{Database, load, get_ts}
use data_agent_demo.Txn.{Access}
use data_agent_demo.Txn.Accesses.{All, Held, Apart, Distinct, Changed}
use data_agent_demo.Txn.Passes.{relatch}
use data_agent_demo.Txn.Release.{Pinned}
use data_agent_demo.Txn.Returns.{spent, IsBefore}

-- A pass that keeps the sizes and sets the latch to `b'` leaves the entries held.
pub Held-Changed :
    (b b' : Bool) (f : Access → Row → Row) (accesses : List Access) (db db' : Database)
    → ((a : Access) (r : Row) → length (f a r).data_bytes ≡ length r.data_bytes)
    → ((a : Access) (r : Row) (m : RowOcc)
        → r.manager ≡ some m
        → (f a r).manager ≡ some (record m { latched = b' }))
    → Changed f accesses db db'
    → All (Held b db) accesses
    → All (Held b' db') accesses
Held-Changed b b' f accesses db db' size latch c h = go accesses c.rows h
  where
    go :
        (as' : List Access)
        → All
            (λ a.
              (p : ℕ) (r : Row) → a.orig_row ≡ some p → load db p ≡ ok r → load db' p ≡ ok (f a r))
            as'
        → All (Held b db) as'
        → All (Held b' db') as'
    go [] rows hs = tt
    go (a ∷ as') rows hs = (
      record {
        addr = hs.0.addr;
        row = f a hs.0.row;
        occ = record hs.0.occ { latched = b' };
        copy = hs.0.copy;
        at = hs.0.at;
        there = rows.0 hs.0.addr hs.0.row hs.0.at hs.0.there;
        managed = latch a hs.0.row hs.0.occ hs.0.managed;
        state = refl;
        copied = hs.0.copied;
        copy_sized = hs.0.copy_sized;
        row_sized = size a hs.0.row ∙ hs.0.row_sized;
      },
      go as' rows.1 hs.1,
    )

pub Held-relatch :
    (b b' : Bool) (accesses : List Access) (db db' : Database)
    → Changed (λ _. relatch b') accesses db db'
    → All (Held b db) accesses
    → All (Held b' db') accesses
Held-relatch b b' accesses db db' =
    Held-Changed b b' (λ _. relatch b') accesses db db' (λ a r. refl) (λ a r m e. rw e refl)

-- The clock does not bear on the rows.
unfoldable pub tick : Database → Database
unfolding get_ts
tick db = (get_ts db).1

pub load-tick : (db : Database) (p : ℕ) → load (tick db) p ≡ load db p
unfolding load tick
load-tick db p = refl

pub Held-tick : {b : Bool} (db : Database) (a : Access) → Held b db a → Held b (tick db) a
Held-tick db a h = record {
  addr = h.addr;
  row = h.row;
  occ = h.occ;
  copy = h.copy;
  at = h.at;
  there = load-tick db h.addr ∙ h.there;
  managed = h.managed;
  state = h.state;
  copied = h.copied;
  copy_sized = h.copy_sized;
  row_sized = h.row_sized;
}

pub Changed-tick :
    (f : Access → Row → Row) (accesses : List Access) (db db' : Database)
    → Changed f accesses db db'
    → Changed f accesses (tick db) (tick db')
unfolding load tick
Changed-tick f accesses db db' c = record {
  rows = c.rows;
  others = c.others;
  rest = ap tick c.rest;
}

-- A latching pass leaves the times of the rows.
pub IsBefore-relatch :
    (b : Bool) (ts : ℕ) (b' : Bool) (accesses : List Access) (db db' : Database)
    → Changed (λ _. relatch b') accesses db db'
    → All (Held b db) accesses
    → All (IsBefore ts db) accesses
    → All (IsBefore ts (tick db')) accesses
IsBefore-relatch b ts b' accesses db db' c = go accesses c.rows
  where
    go :
        (as' : List Access)
        → All
            (λ a.
              (p : ℕ) (r : Row)
              → a.orig_row ≡ some p
              → load db p ≡ ok r
              → load db' p ≡ ok (relatch b' r))
            as'
        → All (Held b db) as'
        → All (IsBefore ts db) as'
        → All (IsBefore ts (tick db')) as'
    go [] rows hs bs = tt
    go (a ∷ as') rows hs bs = (
      λ q s m e l k.
          let same : hs.0.addr ≡ q = cc (hs.0.at) in
          let there : load db q ≡ ok hs.0.row = sym (ap (load db) same) ∙ hs.0.there in
          let after : ok (relatch b' hs.0.row) ≡ ok s =
            sym (rows.0 q hs.0.row e there) ∙ (sym (load-tick db' q) ∙ l) in
          ground (arith, bs.0 q hs.0.row hs.0.occ e there hs.0.managed, hs.0.managed),
      go as' rows.1 hs.1 bs.1,
    )

-- The entries whose copies were given back name the same rows.
pub Pinned-spent :
    (db : Database) (f : Access → Row → Row) (accesses : List Access) (db' : Database)
    → ((a : Access) (r : Row) (m : RowOcc)
        → r.manager ≡ some m
        → m.latched ≡ true
        → (m' : RowOcc) × ((f a r).manager ≡ some m') × (m'.latched ≡ true))
    → Changed f accesses db db'
    → All (Held true db) accesses
    → All (Pinned db') (map spent accesses)
Pinned-spent db f accesses db' keep c h = go accesses c.rows h
  where
    go :
        (as' : List Access)
        → All
            (λ a.
              (p : ℕ) (r : Row) → a.orig_row ≡ some p → load db p ≡ ok r → load db' p ≡ ok (f a r))
            as'
        → All (Held true db) as'
        → All (Pinned db') (map spent as')
    go [] rows hs = tt
    go (a ∷ as') rows hs =
        let (m', e, s) = keep a hs.0.row hs.0.occ hs.0.managed hs.0.state in
        (
          record {
            addr = hs.0.addr;
            row = f a hs.0.row;
            occ = m';
            at = hs.0.at;
            there = rows.0 hs.0.addr hs.0.row hs.0.at hs.0.there;
            managed = e;
            state = s;
          },
          go as' rows.1 hs.1,
        )

Apart-spent :
    (x : Access) (accesses : List Access) → Apart x accesses → Apart (spent x) (map spent accesses)
Apart-spent x [] h = tt
Apart-spent x (a ∷ accesses) h = (h.0, Apart-spent x accesses h.1)

pub Distinct-spent : (accesses : List Access) → Distinct accesses → Distinct (map spent accesses)
Distinct-spent [] h = tt
Distinct-spent (a ∷ accesses) h = (Apart-spent a accesses h.0, Distinct-spent accesses h.1)

-- A pass over them that does not look at the entries is a pass over the entries as they were.
pub Changed-spent :
    (g : Row → Row) (accesses : List Access) (db db' : Database)
    → Changed (λ _. g) (map spent accesses) db db'
    → Changed (λ _. g) accesses db db'
Changed-spent g accesses db db' c = record {
  rows = rows accesses c.rows;
  others = λ q h. c.others q (names accesses q h);
  rest = c.rest;
}
  where
    rows :
        (as' : List Access)
        → All
            (λ a.
              (p : ℕ) (r : Row) → a.orig_row ≡ some p → load db p ≡ ok r → load db' p ≡ ok (g r))
            (map spent as')
        → All
            (λ a.
              (p : ℕ) (r : Row) → a.orig_row ≡ some p → load db p ≡ ok r → load db' p ≡ ok (g r))
            as'
    rows [] h = tt
    rows (a ∷ as') h = (h.0, rows as' h.1)

    names :
        (as' : List Access) (q : ℕ)
        → All (λ a. a.orig_row ≢ some q) as'
        → All (λ a. a.orig_row ≢ some q) (map spent as')
    names [] q h = tt
    names (a ∷ as') q h = (h.0, names as' q h.1)
