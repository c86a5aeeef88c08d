-- ===== src/Txn/Abort.antt =====
-- OptCC::validate of a transaction that has lost a race, and the abort of one that has inserted a row.
use data_agent_demo.Prelude.{
  ℕ, zero, suc, ◌≤◌, ◌≡◌, ◌≢◌, refl, sym, ap, ◌∙◌, subst, Bool, true, false, some, List, [], ◌∷◌,
  ◌++◌, map, arith, length, take, drop, length-map, Bool-cases, inl, inr, take-append-drop,
  length-take,
}
use mathlib.Core.List.{append_assoc}
use mathlib.Core.List.Permᴰ as PermD
use native.Mathlib.Decide.{ℕ_discrete}
use data_agent_demo.Run.{ok}
use data_agent_demo.System.{abort}
use data_agent_demo.Bytes.Laws.{take-append_all}
use data_agent_demo.Row.{Row, RowOcc}
use data_agent_demo.Database.{Database, load}
use data_agent_demo.Txn.{Access, Txn, cleanup, return_rows, free_rows}
use data_agent_demo.Txn.Validate.{release_rows, conclude, validate}
use data_agent_demo.Txn.Accesses.{All, All-map, All-perm, Held, Distinct, Changed, Changed-compose}
use data_agent_demo.Txn.Passes.{relatch, IsCurrent, Locked, lock_rows-Locked, All-take}
use data_agent_demo.Txn.Release.{Pinned, release_rows-Changed}
use data_agent_demo.Txn.Returns.{Copied, spent, return_rows_abort}
use data_agent_demo.Txn.Stages.{Held-relatch, Distinct-spent, Changed-spent}
use data_agent_demo.Txn.Opened.{IsOpen, IsEmptied, Sorted, sorted}

-- Every row is as it was, and so is everything else.
pub record Same (db db' : Database) : Type 0 where
  pub rows : (q : ℕ) → load db' q ≡ load db q
  pub rest : record db' { rows = db.rows } ≡ db

-- Distinct entries stay so in front.
Distinct-take : (n : ℕ) (xs : List Access) → Distinct xs → Distinct (take n xs)
Distinct-take zero xs h = tt
Distinct-take (suc n) [] h = tt
Distinct-take (suc n) (x ∷ xs) h = (All-take _ n xs h.0, Distinct-take n xs h.1)

map-take {ℓ κ} :
    {A : Type ℓ} {B : Type κ} (f : A → B) (n : ℕ) (xs : List A)
    → take n (map f xs) ≡ map f (take n xs)
map-take f zero xs = refl
map-take f (suc n) [] = refl
map-take f (suc n) (x ∷ xs) = ap (◌∷◌ (f x)) (map-take f n xs)

pub Held-Copied : {b : Bool} {db : Database} (a : Access) → Held b db a → Copied a
Held-Copied a h = (h.copy, h.copied)

-- Latching a free row and releasing it again gives it back as it was.
Changed-Same :
    (xs : List Access) (db db' : Database)
    → All (Held false db) xs
    → Changed (λ a r. relatch false (relatch true r)) xs db db'
    → Same db db'
Changed-Same xs db db' h c = record { rows = λ q. row q xs h c.rows (c.others q); rest = c.rest }
  where
    back :
        (r : Row) (m : RowOcc)
        → r.manager ≡ some m
        → m.latched ≡ false
        → relatch false (relatch true r) ≡ r
    back r m e f = ground arith

    row :
        (q : ℕ) (as' : List Access)
        → All (Held false db) as'
        → All
            (λ a.
              (p : ℕ) (r : Row)
              → a.orig_row ≡ some p
              → load db p ≡ ok r
              → load db' p ≡ ok (relatch false (relatch true r)))
            as'
        → (All (λ a. a.orig_row ≢ some q) as' → load db' q ≡ load db q)
        → load db' q ≡ load db q
    row q [] hs rows others = others tt
    row q (a ∷ as') hs rows others = elim (ℕ_discrete hs.0.addr q) [
      | yes here ↦
          ap (load db') (sym here)
          ∙ (rows.0 hs.0.addr hs.0.row hs.0.at hs.0.there
              ∙ (ap ok (back hs.0.row hs.0.occ hs.0.managed hs.0.state)
                  ∙ (sym hs.0.there ∙ ap (load db) here)))
      | no there ↦
          row q as' hs.1 rows.1
            (λ k. others ((λ e. there (some_same hs.0.addr q (sym hs.0.at ∙ e))), k))
    ]
      where
        some_same : (m n : ℕ) → some m ≡ some n → m ≡ n
        some_same m n e = cc

Pinned-map :
    (db : Database) (xs : List Access) → All (Held true db) xs → All (Pinned db) (map spent xs)
Pinned-map db [] h = tt
Pinned-map db (a ∷ xs) h = (
  record {
    addr = h.0.addr;
    row = h.0.row;
    occ = h.0.occ;
    at = h.0.at;
    there = h.0.there;
    managed = h.0.managed;
    state = h.0.state;
  },
  Pinned-map db xs h.1,
)

-- The release of the first `n` of the entries whose copies were given back.
release_first :
    (n : ℕ) (s spare : List Access) (db after : Database)
    → n ≤ length s
    → All (Held false db) s
    → Distinct s
    → Changed (λ _. relatch true) (take n s) db after
    → (db' : Database) × (release_rows n (map spent s ++ spare) after ≡ ok db') × Same db db'
release_first n s spare db after le h d c =
    let front = take n s in
    let hf = All-take (Held false db) n s h in
    let pinned = Pinned-map after front (Held-relatch false true front db after c hf) in
    let (db', e, cr) =
      release_rows-Changed (map spent front) (drop n (map spent s) ++ spare) after pinned
        (Distinct-spent front (Distinct-take n s d)) in
    (
      db',
      subst (λ (as' : List Access). release_rows n as' after ≡ ok db')
          (parts front (map-take spent n s))
          (ap (λ k. release_rows k (map spent front ++ (drop n (map spent s) ++ spare)) after)
              (sym (count front))
            ∙ e),
      Changed-Same front db db' hf (
          Changed-compose (λ _. relatch true) (λ _. relatch false) front db after db' c
            (Changed-spent (relatch false) front after db' cr)),
    )
  where
    parts :
        (front : List Access)
        → take n (map spent s) ≡ map spent front
        → map spent front ++ (drop n (map spent s) ++ spare) ≡ map spent s ++ spare
    parts front e =
        sym (append_assoc (map spent front) (drop n (map spent s)) spare)
        ∙ ap (λ (as' : List Access). as' ++ spare)
            (ap (λ (as' : List Access). as' ++ drop n (map spent s)) (sym e)
              ∙ take-append-drop n (map spent s))

    count : (front : List Access) → length (map spent (take n s)) ≡ n
    count front = omega (arith, length-map (take n s) spent, length-take n s)

conclude_abort :
    (t : Txn) (db : Database) (accesses : List Access)
    → t.insert_rows ≡ []
    → return_rows abort t.end_ts t.row_cnt t.accesses db ≡ ok (accesses, db)
    → conclude false t db
      ≡ ok (
        abort,
        record t {
          accesses = accesses;
          row_cnt = 0;
          wr_cnt = 0;
          insert_rows = [];
          record_pos = [];
        },
        db,
      )
unfolding conclude cleanup free_rows
conclude_abort t db accesses e f = rw (f, e) refl

-- `validate` returns Abort, the database is as it was, every latch and the clock included, and the
-- transaction's sets are empty.
abbrev pub Aborts : Txn → Database → Type 0
Aborts t db =
    (t' : Txn) × (db' : Database) × (validate t db ≡ ok (abort, t', db'))
    × Same db db'
    × IsEmptied t'

-- An open transaction that has inserted nothing aborts when some row of its access set was written after it
-- started: `validate` returns Abort, every row, latch and the clock are as before, and so is the rest of the
-- database.
pub validate_abort :
    (t : Txn) (db : Database) (o : IsOpen t db)
    → t.insert_rows ≡ []
    → ¬ All (IsCurrent t.start_ts db) o.used
    → Aborts t db
validate_abort t db o none_inserted stale =
    let s = sorted t db o in
    let k = lock_rows-Locked t.start_ts s.entries db s.held s.distinct in
    let (db', e, same) =
      release_first k.count s.entries o.spare db k.after k.within s.held s.distinct k.changed in
    (
      _,
      db',
      run s k db' e,
      same,
      record { rows = refl; writes = refl; inserts = refl; positions = refl },
    )
  where
    fails : (s : Sorted t db o.used o.spare) (k : Locked t.start_ts s.entries db) → k.passed ≡ false
    fails s k = elim (Bool-cases k.passed) [
      | inl all ↦ absurd (
          stale (
            All-perm (IsCurrent t.start_ts db) s.entries o.used (PermD.symm s.perm)
              (k.current.0 all)))
      | inr no_more ↦ no_more
    ]

    run :
        (s : Sorted t db o.used o.spare) (k : Locked t.start_ts s.entries db) (db' : Database)
        → release_rows k.count (map spent s.entries ++ o.spare) k.after ≡ ok db'
        → validate t db
          ≡ ok (
            abort,
            record t {
              accesses = map spent s.entries ++ o.spare;
              lock_cnt = k.count;
              row_cnt = 0;
              wr_cnt = 0;
              insert_rows = [];
              record_pos = [];
            },
            db',
          )
    run s k db' e =
        let t₁ : Txn = record t { accesses = s.entries ++ o.spare; lock_cnt = k.count } in
        let concluded = conclude_abort t₁ k.after (map spent s.entries ++ o.spare) none_inserted (
          return_rows_abort t.end_ts t.row_cnt s.entries o.spare k.after s.counted
            (All-map Held-Copied s.entries s.held)) in
        unfold validate in
        rw
          (
            s.returns,
            take-append_all t.row_cnt s.entries o.spare s.counted,
            k.returns,
            fails s k,
            concluded,
            e,
          )
          refl
