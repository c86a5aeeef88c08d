-- ===== src/Txn/Open.antt =====
-- txn_man::get_row on a row that the transaction has not read yet.
use mathlib.Core.List.{append_assoc}
use data_agent_demo.Prelude.{
  ℕ, zero, suc, ◌+◌, ◌<◌, ◌≡◌, ◌≢◌, inl, inr, refl, sym, ap, ◌∙◌, true, false, Option, none, some,
  List, [], ◌∷◌, ◌++◌, arith, length, drop, ltb, if◌then◌else◌, Bool-cases, length-append,
}
use data_agent_demo.Txn.Copies.{copy_of, IsIdle, get_row_copy-current, get_row_copy-stale}
use data_agent_demo.Run.{Run, ok}
use data_agent_demo.System.{AccessType}
use data_agent_demo.Env.{Env}
use data_agent_demo.Row
use data_agent_demo.Row.{Row, RowOcc, get_tuple_size, copy}
use data_agent_demo.Database.{Database, load, store}
use data_agent_demo.Database.Memory.{store_same}
use data_agent_demo.Txn.{Access, Txn, find_pos, put_access, entry_at, wr?, visit, revisit, get_row}
use data_agent_demo.Txn.Accesses.{All, Held, Distinct}
use data_agent_demo.Txn.Opened.{IsOpen}

put_access-append :
    (used spare : List Access) (a : Access) (k : ℕ)
    → length used ≡ k
    → put_access (used ++ spare) k a ≡ used ++ a ∷ drop 1 spare
unfolding put_access
put_access-append [] [] a k h = refl
put_access-append [] (x ∷ spare) a zero h = refl
put_access-append [] (x ∷ spare) a (suc k) h = absurd (omega arith)
put_access-append (x ∷ used) spare a zero h = absurd (omega arith)
put_access-append (x ∷ used) spare a (suc k) h =
    ap (◌∷◌ x) (put_access-append used spare a k (omega arith))

pub All-snoc {ℓ κ} :
    {A : Type ℓ} (P : A → Type κ) (xs : List A) (x : A) → All P xs → P x → All P (xs ++ x ∷ [])
All-snoc P [] x h k = (k, tt)
All-snoc P (y ∷ ys) x h k = (h.0, All-snoc P ys x h.1 k)

pub Distinct-snoc :
    (xs : List Access) (x : Access)
    → Distinct xs
    → All (λ a. a.orig_row ≢ x.orig_row) xs
    → Distinct (xs ++ x ∷ [])
Distinct-snoc [] x d h = (tt, tt)
Distinct-snoc (y ∷ ys) x d h = (All-snoc _ ys x d.0 h.0, Distinct-snoc ys x d.1 h.1)

-- The entry of a first visit.
abbrev pub visited : Env → AccessType → ℕ → Row → Access
visited env type p r = record { type = type; orig_row = some p; local = some (copy_of env r) }

-- A first visit of the row gives a copy of it, in a new entry at the end of those in use, and leaves the
-- transaction open and the database as it is. A row written after the start gives no entry.
abbrev pub Visits : Env → Txn → Database → AccessType → ℕ → Row → ℕ → List Access → Type 0
Visits env t db type p r wts used =
    (t' : Txn) × (got : Option ℕ) × (get_row env t db p type ≡ ok (got, t', db))
    × (o : IsOpen t' db) × (if ltb t.start_ts wts
        then (got ≡ none) × (o.used ≡ used)
        else (got ≡ some t.row_cnt) × (o.used ≡ used ++ visited env type p r ∷ []))

pub second_visit :
    (env : Env) (t : Txn) (db : Database) (type : AccessType) (p pos : ℕ) (r : Row)
    → load db p ≡ ok r
    → find_pos r.primary_key t.record_pos ≡ some pos
    → get_row env t db p type ≡ revisit t db type pos
unfolding get_row
second_visit env t db type p pos r there found = rw there (
    ap
      (λ (found : Option ℕ). elim found as (λ _. Run (Option ℕ × Txn × Database)) [
        | none ↦ visit env t db type p r
        | some pos' ↦ revisit t db type pos'
      ])
      found)

module _ (env : Env) (t : Txn) (db : Database) (type : AccessType) (p : ℕ) (r : Row)
    (o : IsOpen t db) (idle : IsIdle db p r) (room : t.row_cnt < 64)
    (fresh : find_pos r.primary_key t.record_pos ≡ none)
    (apart : All (λ a. a.orig_row ≢ some p) o.used) where
  fits : ltb t.row_cnt 64 ≡ true
  fits = lt (t.row_cnt) room
    where
      lt : (n : ℕ) → n < 64 → ltb n 64 ≡ true
      lt n h = ground arith

  first_visit : get_row env t db p type ≡ visit env t db type p r
  unfolding get_row
  first_visit = rw idle.there (
      ap
        (λ (pos : Option ℕ). elim pos as (λ _. Run (Option ℕ × Txn × Database)) [
          | none ↦ visit env t db type p r
          | some pos ↦ revisit t db type pos
        ])
        fresh)

  stored : store db p r ≡ db
  stored = store_same db p r idle.there

  pub new_entry : Held false db (visited env type p r)
  unfolding copy_of
  new_entry = record {
    addr = p;
    row = r;
    occ = idle.occ;
    copy = copy_of env r;
    at = refl;
    there = idle.there;
    managed = idle.managed;
    state = idle.state;
    copied = refl;
    copy_sized = idle.sized;
    row_sized = idle.sized;
  }

  -- the transaction after the visit, and after a refused one
  abbrev pub entered : Txn
  entered = record t {
    accesses = put_access t.accesses t.row_cnt (visited env type p r);
    record_pos = (r.primary_key, t.row_cnt) ∷ t.record_pos;
    row_cnt = t.row_cnt + 1;
    wr_cnt = if wr? type then t.wr_cnt + 1 else t.wr_cnt;
  }

  abbrev pub spoilt : Access
  spoilt = record (entry_at t.accesses t.row_cnt) {
    local = some (Row.init env r.table r.part_id 0);
  }

  abbrev pub refused : Txn
  refused = record t { accesses = put_access t.accesses t.row_cnt spoilt }

  pub put-split : (a : Access) → put_access t.accesses t.row_cnt a ≡ o.used ++ a ∷ drop 1 o.spare
  put-split a =
      ap (λ (as' : List Access). put_access as' t.row_cnt a) o.split
      ∙ put_access-append o.used o.spare a t.row_cnt o.counted

  -- the new entry stands behind those in use
  pub accesses-entered : entered.accesses ≡ o.used ++ visited env type p r ∷ drop 1 o.spare
  accesses-entered = put-split (visited env type p r)

  abbrev pub entered_open : IsOpen entered db
  entered_open = record {
    used = o.used ++ visited env type p r ∷ [];
    spare = drop 1 o.spare;
    split =
        put-split (visited env type p r)
        ∙ sym (append_assoc o.used (visited env type p r ∷ []) (drop 1 o.spare));
    counted = omega (arith, o.counted, length-append o.used (visited env type p r ∷ []));
    held = All-snoc _ o.used _ o.held new_entry;
    distinct = Distinct-snoc o.used _ o.distinct apart;
  }

  abbrev pub refused_open : IsOpen refused db
  refused_open = record {
    used = o.used;
    spare = spoilt ∷ drop 1 o.spare;
    split = put-split spoilt;
    counted = o.counted;
    held = o.held;
    distinct = o.distinct;
  }

  pub get_row-entered :
      ltb t.start_ts idle.occ.wts ≡ false
      → get_row env t db p type ≡ ok (some t.row_cnt, entered, db)
  unfolding visit
  get_row-entered e =
      first_visit ∙ rw (fits, get_row_copy-current env db p r idle t.start_ts e, stored) refl

  pub get_row-refused :
      ltb t.start_ts idle.occ.wts ≡ true → get_row env t db p type ≡ ok (none, refused, db)
  unfolding visit
  get_row-refused e =
      first_visit ∙ rw (fits, get_row_copy-stale env db p r idle t.start_ts e, stored) refl

  -- In an open transaction with room for another entry, `get_row` of an idle row that has no entry yet succeeds:
  -- it copies a row that was not written after the start into a new entry, refuses any other row, leaves the
  -- database as it is, the latch included, and leaves the transaction open.
  pub get_row-IsOpen : Visits env t db type p r idle.occ.wts o.used
  get_row-IsOpen = elim (Bool-cases (ltb t.start_ts idle.occ.wts)) [
    | inl stale ↦ (refused, none, get_row-refused stale, refused_open, rw stale (refl, refl))
    | inr current ↦
        (entered, some t.row_cnt, get_row-entered current, entered_open, rw current (refl, refl))
  ]
