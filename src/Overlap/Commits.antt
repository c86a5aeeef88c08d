-- ===== src/Overlap/Commits.antt =====
-- What the latches are for: the commits of threads that validate at the same time.
use data_agent_demo.Overlap.Steps.{get_row_copy-taken}
use data_agent_demo.Prelude.{
  ℕ, ◌<◌, ◌≤◌, ◌≡◌, ◌≢◌, refl, sym, ap, ◌∙◌, subst, inl, inr, true, some, length, get_elem?,
}
use data_agent_demo.Run.{ok, fault, deadlock}
use data_agent_demo.System.{rd}
use data_agent_demo.Env.{Env}
use data_agent_demo.Row.{Row, RowOcc}
use data_agent_demo.Database.{Database, load}
use data_agent_demo.Txn.{Access, get_row_copy}
use data_agent_demo.Txn.Stages.{tick}
use data_agent_demo.World.Evolve.{ok_same}
use data_agent_demo.Overlap.{latching, installing, Worker, Machine, Step, Reach, Holds, advance}
use data_agent_demo.Overlap.Store.{IsLatched}
use data_agent_demo.Overlap.Own.{Own, Tested, Holds-latching}
use data_agent_demo.Overlap.Turn.{IsFree-Holds, update-cases}
use data_agent_demo.Overlap.Entries.{get-lt}
use data_agent_demo.Overlap.Advance.{latching-all}
use data_agent_demo.Overlap.Reached.{IsStart, IsStart-Inv, Reach-Inv, Step-Turn, stepper, stepped}

-- In a machine that threads reach from a start, by any steps in any order, no two threads hold the latch of one row,
-- a row whose latch a thread holds is latched, and `get_row` of any thread waits for it. The
-- threads' transactions insert no rows.
pub Holds-alone :
    (env : Env) (s t : Machine)
    → IsStart s
    → Reach env s t
    → ((i j p : ℕ) → i ≢ j → Holds (t.workers i) p → ¬ Holds (t.workers j) p)
      × ((i p : ℕ) → Holds (t.workers i) p → IsLatched t.db p)
      × ((i p : ℕ) (r : Row) (start_ts : ℕ)
          → Holds (t.workers i) p
          → load t.db p ≡ ok r
          → get_row_copy env r start_ts ≡ fault deadlock)
Holds-alone env s t start reached =
    let inv = Reach-Inv env s t reached (IsStart-Inv s start) in
    (
      λ i j p ne. inv.alone i j ne p,
      λ i p. (inv.own i).latched p,
      λ i p r start_ts h there.
          let taken = (inv.own i).latched p h in
          let same : taken.row ≡ r = ok_same (sym taken.there ∙ there) in
          get_row_copy-taken env r taken.occ start_ts
            (ap (λ (x : Row). x.manager) (sym same) ∙ taken.managed) taken.state,
    )

-- A row whose latch a thread holds in a reachable machine is not changed by a step of another thread: not its bytes,
-- nor its times, nor its latch. The threads' transactions insert no rows.
pub Holds-kept :
    (env : Env) (s t u : Machine)
    → IsStart s
    → Reach env s t
    → (step : Step env t u) (i p : ℕ) → stepper step ≢ i
    → Holds (t.workers i) p
    → (load u.db p ≡ load t.db p) × Holds (u.workers i) p
Holds-kept env s t u start reached step i p ne h =
    let inv = Reach-Inv env s t reached (IsStart-Inv s start) in
    let (db', same, turn) = Step-Turn env t u step inv in
    (
      ap (λ (m : Machine). load m.db p) same
          ∙ turn.keeps p (inv.alone i (stepper step) (λ e. ne (sym e)) p h)
              (λ free. IsFree-Holds t.db (t.workers i) p (inv.own i) free h),
      subst (λ (m : Machine). Holds (m.workers i) p) (sym same)
          (elim (update-cases t.workers (stepper step) (stepped step) i) [
            | inl (here, e) ↦ absurd (ne here)
            | inr (other, e) ↦ subst (λ v. Holds v p) (sym e) h
          ]),
    )

-- The row of an entry is latched and has not been written since the start; if the entry is for reading, its copy is
-- what the row holds.
pub record IsFresh (db : Database) (start_ts : ℕ) (a : Access) : Type 0 where
  pub addr : ℕ
  pub row : Row
  pub occ : RowOcc
  pub copy : Row
  pub at : a.orig_row ≡ some addr
  pub there : load db addr ≡ ok row
  pub managed : row.manager ≡ some occ
  pub copied : a.local ≡ some copy
  pub state : occ.latched ≡ true
  pub past : occ.wts ≤ start_ts
  pub read : a.type ≡ rd → copy.data_bytes ≡ row.data_bytes

Own-IsFresh :
    (db : Database) (w : Worker) (n k : ℕ) (a : Access)
    → Own db w
    → w.phase ≡ latching n
    → k < n
    → get_elem? w.entries k ≡ some a
    → IsFresh db w.start_ts a
Own-IsFresh db w n k a o e lt at =
    let h = o.names k a at in
    let taken = o.latched h.addr (Holds-latching w n k h.addr a e lt at h.at) in
    let managed =
      ap (λ (r : Row). r.manager) (ok_same (sym h.there ∙ taken.there)) ∙ taken.managed in
    let tested : Tested db w (latching n) = subst (Tested db w) e o.tested in
    let past = tested k a lt at h.addr h.row taken.occ h.at h.there managed in
    record {
      addr = h.addr;
      row = h.row;
      occ = taken.occ;
      copy = h.copy;
      at = h.at;
      there = h.there;
      managed = managed;
      copied = h.copied;
      state = taken.state;
      past = past;
      read = λ reads.
          o.seen k a at h.addr h.row h.copy taken.occ h.at h.there managed h.copied reads past;
    }

-- When a thread in a reachable machine has latched and passed all its rows, its next step takes the clock's time for
-- the commit. At that time all its rows are latched, none has been written since the transaction's start, and every
-- row that it read holds what it read: the commit acts on one state of the memory. The threads'
-- transactions insert no rows.
pub commits_at_once :
    (env : Env) (s t : Machine) (i : ℕ)
    → IsStart s
    → Reach env s t
    → (t.workers i).phase ≡ latching (length (t.workers i).entries)
    → (advance t.db (t.workers i) (t.workers i).phase
        ≡ ok (tick t.db, installing t.db.timestamp (length (t.workers i).entries)))
      × ((k : ℕ) (a : Access)
          → get_elem? (t.workers i).entries k ≡ some a
          → IsFresh t.db (t.workers i).start_ts a)
commits_at_once env s t i start reached e =
    let inv = Reach-Inv env s t reached (IsStart-Inv s start) in
    let w = t.workers i in
    (
      ap (advance t.db w) e ∙ latching-all t.db w (length w.entries) refl,
      λ k a at.
          Own-IsFresh t.db w (length w.entries) k a (inv.own i) e (get-lt w.entries k a at) at,
    )
