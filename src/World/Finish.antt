-- ===== src/World/Finish.antt =====
-- How a transaction ends, and what the database is then: `finish` of Storage/System/txn.cpp and `OptCC::validate`
-- of Storage/concurrency_control/occ.cpp, on a database whose live rows rest.
use native.Mathlib.Decide.{ℕ_discrete}
use data_agent_demo.Prelude.{
  ℕ, ◌+◌, ◌<◌, ◌≤◌, ◌≡◌, ◌≢◌, ◌⊎◌, inl, inr, refl, sym, ap, ◌∙◌, subst, false, some, List, [], ◌∷◌,
  arith, length, Bool-cases,
}
use data_agent_demo.Run.{ok}
use data_agent_demo.System.{word64}
use data_agent_demo.Row.{Row, RowOcc, Table, get_tuple_size}
use data_agent_demo.Database.{Database, load, get_ts}
use data_agent_demo.Txn.{Access, wr?}
use data_agent_demo.Txn.Accesses.{All, All-map, Held, Changed}
use data_agent_demo.Txn.Returns.{install}
use data_agent_demo.Txn.Stages.{tick, load-tick, Held-tick}
use data_agent_demo.World.{Rested, RowRests}
use data_agent_demo.World.Evolve.{ok_same, Rewritten, Evolves}

-- A database with the same rows under a clock that is not behind.
pub later-Evolves :
    (db db' : Database)
    → db.timestamp ≤ db'.timestamp
    → ((q : ℕ) → load db' q ≡ load db q)
    → Evolves db db'
later-Evolves db db' later same = record {
  later = later;
  rows = λ p r there. (r, same p ∙ there, inl refl);
}

pub later-Rested :
    (db db' : Database)
    → db.timestamp ≤ db'.timestamp
    → ((q : ℕ) → load db' q ≡ load db q)
    → Rested db
    → Rested db'
later-Rested db db' later same rested = record {
  rows = λ p r there.
      let rests = rested.rows p r (sym (same p) ∙ there) in
      (
        record {
          occ = rests.0.occ;
          there = there;
          managed = rests.0.managed;
          state = rests.0.state;
          sized = rests.0.sized;
        },
        omega (arith, rests.1, later),
      );
}

-- What a pass made of the row at an address: an entry names it, or it is as before.
pub data Fate (f : Access → Row → Row) (db db' : Database) (q : ℕ) : Type 0 where
  named :
      (a : Access) (h : Held false db a)
      → h.addr ≡ q
      → load db' q ≡ ok (f a h.row)
      → Fate f db db' q
  kept : load db' q ≡ load db q → Fate f db db' q

fate :
    (f : Access → Row → Row) (used : List Access) (db db' : Database)
    → All (Held false db) used
    → Changed f used db db'
    → (q : ℕ) → Fate f db db' q
fate f used db db' held c q = go used held c.rows (c.others q)
  where
    go :
        (as' : List Access)
        → All (Held false db) as'
        → All
            (λ a.
              (p : ℕ) (r : Row) → a.orig_row ≡ some p → load db p ≡ ok r → load db' p ≡ ok (f a r))
            as'
        → (All (λ a. a.orig_row ≢ some q) as' → load db' q ≡ load db q)
        → Fate f db db' q
    go [] hs rows others = kept (others tt)
    go (a ∷ as') hs rows others = elim (ℕ_discrete hs.0.addr q) [
      | yes here ↦
          named a hs.0 here
            (ap (load db') (sym here) ∙ rows.0 hs.0.addr hs.0.row hs.0.at hs.0.there)
      | no there ↦
          go as' hs.1 rows.1
            (λ k. others ((λ e. there (some_same hs.0.addr q (sym hs.0.at ∙ e))), k))
    ]
      where
        some_same : (m n : ℕ) → some m ≡ some n → m ≡ n
        some_same m n e = cc

-- The entry's row after the commit: as it was, or rewritten.
install-change :
    (db : Database) (ts : ℕ) (a : Access) (h : Held false db a)
    → (install ts a h.row ≡ h.row) ⊎ Rewritten ts h.row (install ts a h.row)
install-change db ts a h = elim (Bool-cases (wr? a.type)) [
  | inl writes ↦ inr (record {
    old_occ = h.occ;
    new_occ = record h.occ { wts = ts };
    managed = h.managed;
    managed' = rw (writes, h.copied, h.managed) refl;
    latch_kept = refl;
    dated = refl;
    size_kept = rw (writes, h.copied) (h.copy_sized ∙ sym h.row_sized);
    key_kept = rw (writes, h.copied) refl;
  })
  | inr reads ↦ inl (rw reads refl)
]

install-table : (ts : ℕ) (a : Access) (r : Row) → (install ts a r).table ≡ r.table
install-table ts a r = ground arith

-- The commit of an open transaction in a database whose rows rest.
module _ (db db' : Database) (used : List Access) (rested : Rested db)
    (room : db.timestamp + 1 < word64) (held : All (Held false db) used)
    (c : Changed (install db.timestamp) used (tick db) db') where
  ticks : (tick db).timestamp ≡ db.timestamp + 1
  unfolding tick get_ts
  ticks = omega (arith, room)

  clock : db'.timestamp ≡ db.timestamp + 1
  clock = ap (λ (x : Database). x.timestamp) c.rest ∙ ticks

  Held-ticked : All (Held false (tick db)) used
  Held-ticked = All-map (Held-tick db) used held

  row-Fate : (q : ℕ) → Fate (install db.timestamp) (tick db) db' q
  row-Fate = fate (install db.timestamp) used (tick db) db' Held-ticked c

  -- each live row is as it was or was rewritten by the commit
  changes :
      (p : ℕ) (r : Row)
      → load db p ≡ ok r
      → (r' : Row) × (load db' p ≡ ok r') × ((r' ≡ r) ⊎ Rewritten db.timestamp r r')
  changes p r there = elim (row-Fate p) [
    | named a h here e ↦
        let same : h.row ≡ r =
          ok_same (sym h.there ∙ (load-tick db h.addr ∙ (ap (load db) here ∙ there))) in
        (
          install db.timestamp a h.row,
          e,
          subst
              (λ x.
                (install db.timestamp a h.row ≡ x)
                ⊎ Rewritten db.timestamp x (install db.timestamp a h.row))
              same (install-change (tick db) db.timestamp a h),
        )
    | kept same ↦ (r, same ∙ (load-tick db p ∙ there), inl refl)
  ]

  pub commit-Evolves : Evolves db db'
  commit-Evolves = record { later = omega (arith, clock); rows = changes }

  -- a row that rests does so when it was rewritten, too
  install-RowRests :
      (p : ℕ) (a : Access) (h : Held false (tick db) a)
      → RowRests db h.addr h.row
      → load db' p ≡ ok (install db.timestamp a h.row)
      → RowRests db' p (install db.timestamp a h.row)
  install-RowRests p a h rests there = elim (install-change (tick db) db.timestamp a h) [
    | inl same ↦ (
      record {
        occ = rests.0.occ;
        there = there;
        managed = ap (λ (x : Row). x.manager) same ∙ rests.0.managed;
        state = rests.0.state;
        sized =
            ap (λ (x : Row). length x.data_bytes) same
            ∙ (rests.0.sized ∙ sym (ap get_tuple_size same));
      },
      omega (arith, rests.1, clock),
    )
    | inr new ↦ (
      record {
        occ = new.new_occ;
        there = there;
        managed = new.managed';
        state =
            new.latch_kept
            ∙ ap (λ (o : RowOcc). o.latched) (some_occ (sym new.managed ∙ rests.0.managed))
            ∙ rests.0.state;
        sized =
            new.size_kept
            ∙ (rests.0.sized
                ∙ ap (λ (t : Table). t.schema.tuple_size)
                    (sym (install-table db.timestamp a h.row)));
      },
      written_now new,
    )
  ]
    where
      some_occ : {m n : RowOcc} → some m ≡ some n → m ≡ n
      some_occ e = cc e

      written_now :
          (new : Rewritten db.timestamp h.row (install db.timestamp a h.row))
          → new.new_occ.wts < db'.timestamp
      written_now new = omega (arith, new.dated, clock)

  pub commit-Rested : Rested db'
  commit-Rested = record {
    rows = λ p r there. elim (row-Fate p) [
      | named a h here e ↦ subst (RowRests db' p) (ok_same (sym e ∙ there)) (
          install-RowRests p a h (rested.rows h.addr h.row (sym (load-tick db h.addr) ∙ h.there)) e)
      | kept same ↦
          let rests = rested.rows p r (sym (load-tick db p) ∙ (sym same ∙ there)) in
          (
            record {
              occ = rests.0.occ;
              there = there;
              managed = rests.0.managed;
              state = rests.0.state;
              sized = rests.0.sized;
            },
            omega (arith, rests.1, clock),
          )
    ];
  }
