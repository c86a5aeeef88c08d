-- ===== src/World/Visit.antt =====
-- A transaction gets rows and sets columns of its copies: Storage/System/txn.cpp, `get_row`.
use data_agent_demo.Prelude.{
  ℕ, ◌<◌, ◌≡◌, ◌≢◌, inl, inr, refl, sym, ap, ◌∙◌, subst, Option, none, some, List, ◌∷◌, arith, ltb,
  ◌==◌, if◌then◌else◌, Bool-cases,
}
use data_agent_demo.Run.{ok}
use data_agent_demo.System.{AccessType, max_row_per_txn}
use data_agent_demo.Env.{Env}
use data_agent_demo.Row.{Row}
use data_agent_demo.Database.{Database, load}
use data_agent_demo.Txn.{Txn, find_pos, get_row}
use data_agent_demo.Txn.Accesses.{All, All-map}
use data_agent_demo.Txn.Open.{
  All-snoc, entered, refused, entered_open, refused_open, get_row-entered, get_row-refused,
}
use data_agent_demo.Txn.Copies.{copy_of, data_bytes-copy_of, IsIdle}
use data_agent_demo.World.{Active}
use data_agent_demo.World.Evolve.{ok_same}

find_pos-cons :
    (key k n : ℕ) (rest : List (ℕ × ℕ))
    → find_pos key ((k, n) ∷ rest) ≡ (if k == key then some n else find_pos key rest)
unfolding find_pos
find_pos-cons key k n rest = refl

-- A key that is found is still found behind another.
found_behind :
    (key k n pos : ℕ) (rest : List (ℕ × ℕ))
    → find_pos key rest ≡ some pos
    → (pos' : ℕ) × (find_pos key ((k, n) ∷ rest) ≡ some pos')
found_behind key k n pos rest e = elim (Bool-cases (k == key)) [
  | inl same ↦ (n, find_pos-cons key k n rest ∙ rw same refl)
  | inr other ↦ (pos, find_pos-cons key k n rest ∙ rw other e)
]

found_first : (key n : ℕ) (rest : List (ℕ × ℕ)) → find_pos key ((key, n) ∷ rest) ≡ some n
found_first key n rest = find_pos-cons key key n rest ∙ ground arith

-- The row of no entry in use is one that the transaction does not find by its key.
find_pos-Apart :
    (t : Txn) (db : Database) (a : Active t db) (p : ℕ) (r : Row)
    → load db p ≡ ok r
    → find_pos r.primary_key t.record_pos ≡ none
    → All (λ e. e.orig_row ≢ some p) a.open_set.used
find_pos-Apart t db a p r there fresh =
    All-map (λ e index same. let (pos, found) = index p r same there in cc (fresh, found))
      a.open_set.used a.indexed

module _ (env : Env) (t : Txn) (db : Database) (type : AccessType) (p : ℕ) (r : Row)
    (a : Active t db) (idle : IsIdle db p r) (room : t.row_cnt < 64)
    (fresh : find_pos r.primary_key t.record_pos ≡ none)
    (apart : All (λ e. e.orig_row ≢ some p) a.open_set.used) where
  entered-Active : Active (entered env t db type p r a.open_set idle room fresh apart) db
  entered-Active = record {
    open_set = entered_open env t db type p r a.open_set idle room fresh apart;
    none_inserted = a.none_inserted;
    started = a.started;
    indexed =
        All-snoc _ a.open_set.used _
          (All-map
            (λ e index q s at there.
              let (pos, found) = index q s at there in
              found_behind s.primary_key r.primary_key t.row_cnt pos t.record_pos found)
            a.open_set.used a.indexed)
          (λ q s at there. (
            t.row_cnt,
            subst
                (λ (x : Row).
                  find_pos x.primary_key ((r.primary_key, t.row_cnt) ∷ t.record_pos)
                  ≡ some t.row_cnt)
                (row q s at there) (found_first r.primary_key t.row_cnt t.record_pos),
          ));
    placed = λ key pos found. elim (Bool-cases (r.primary_key == key)) [
      | inl same ↦
          let here : t.row_cnt ≡ pos =
            ground (arith, found, find_pos-cons key r.primary_key t.row_cnt t.record_pos) in
          omega (arith, here)
      | inr other ↦
          let there : find_pos key t.record_pos ≡ some pos =
            ground (arith, found, find_pos-cons key r.primary_key t.row_cnt t.record_pos) in
          omega (arith, a.placed key pos there)
    ];
    seen = All-snoc _ a.open_set.used _ a.seen (λ q s l m at there managed copied reads current.
        let copy : l ≡ copy_of env r = cc copied in
        ap (λ (x : Row). x.data_bytes) copy
        ∙ data_bytes-copy_of env r
        ∙ ap (λ (x : Row). x.data_bytes) (row q s at there));
  }
    where
      row : (q : ℕ) (s : Row) → some p ≡ some q → load db q ≡ ok s → r ≡ s
      row q s at there =
          let here : p ≡ q = cc at in ok_same (sym idle.there ∙ (ap (load db) here ∙ there))

  refused-Active : Active (refused env t db type p r a.open_set idle room fresh apart) db
  refused-Active = record {
    open_set = refused_open env t db type p r a.open_set idle room fresh apart;
    none_inserted = a.none_inserted;
    started = a.started;
    indexed = a.indexed;
    placed = a.placed;
    seen = a.seen;
  }

-- A first visit: what `get_row` gives back is a transaction in order, and the database as it is.
pub visit-Active :
    (env : Env) (t t' : Txn) (db db' : Database) (type : AccessType) (p : ℕ) (r : Row)
    (got : Option ℕ)
    → Active t db
    → IsIdle db p r
    → t.row_cnt < max_row_per_txn
    → find_pos r.primary_key t.record_pos ≡ none
    → get_row env t db p type ≡ ok (got, t', db')
    → Active t' db × (db' ≡ db)
visit-Active env t t' db db' type p r got a idle room fresh run =
    let apart = find_pos-Apart t db a p r idle.there fresh in
    elim (Bool-cases (ltb t.start_ts idle.occ.wts)) [
      | inl stale ↦
          let e = get_row-refused env t db type p r a.open_set idle room fresh apart stale in
          let same = ok_same (sym e ∙ run) in
          (
            subst (λ x. Active x db) (ap (λ (x : Option ℕ × Txn × Database). x.1) same)
                (refused-Active env t db type p r a idle room fresh apart),
            sym (ap (λ (x : Option ℕ × Txn × Database). x.2) same),
          )
      | inr current ↦
          let e = get_row-entered env t db type p r a.open_set idle room fresh apart current in
          let same = ok_same (sym e ∙ run) in
          (
            subst (λ x. Active x db) (ap (λ (x : Option ℕ × Txn × Database). x.1) same)
                (entered-Active env t db type p r a idle room fresh apart),
            sym (ap (λ (x : Option ℕ × Txn × Database). x.2) same),
          )
    ]
