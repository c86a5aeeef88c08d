-- ===== src/Overlap/Installed.antt =====
-- The writes of a commit in all histories of threads that validate at the same time.
use data_agent_demo.Prelude.{ℕ, ◌≡◌, ◌≢◌, inl, inr, refl, sym, subst, true, some, arith, get_elem?}
use data_agent_demo.Env.{Env}
use data_agent_demo.Database.{Database}
use data_agent_demo.Txn.{Access, wr?}
use data_agent_demo.Overlap.{
  Phase, ended, running, latching, installing, releasing, Worker, Machine, Step, begins, reads,
  edits, quits, validates, advances, Reach, here, next, moved,
}
use data_agent_demo.Overlap.Own.{Holds-installing}
use data_agent_demo.Overlap.Turn.{Inv, Turn, IsFree-Holds, update-cases}
use data_agent_demo.Overlap.Entries.{get-lt}
use data_agent_demo.Overlap.Reached.{IsStart, IsStart-Inv, stepper, stepped, Step-Turn, Reach-Inv}
use data_agent_demo.Overlap.Written.{
  IsWritten, WrittenFrom, PhaseWritten, IsWritten-load, advance-PhaseWritten,
}

-- what every thread has written is there
abbrev AllWritten : Machine → Type 0
AllWritten s = (i : ℕ) → PhaseWritten s.db (s.workers i).entries (s.workers i).phase

Step-PhaseWritten :
    (env : Env) (s t : Machine) (step : Step env s t) (db' : Database)
    → Inv s
    → AllWritten s
    → t ≡ moved s (stepper step) db' (stepped step)
    → PhaseWritten db' (stepped step).entries (stepped step).phase
Step-PhaseWritten env s t (begins i e room) db' inv h same = tt
Step-PhaseWritten env s t (reads i p r r' copied type e there fresh run) db' inv h same = tt
Step-PhaseWritten env s t (edits i k a l l' e at copied table size) db' inv h same = tt
Step-PhaseWritten env s t (quits i e) db' inv h same = tt
Step-PhaseWritten env s t (validates i sorted e run) db' inv h same = tt
Step-PhaseWritten env s t (advances i d phase' room run) db' inv h same =
    subst (λ (m : Machine). PhaseWritten m.db (s.workers i).entries phase') same
      (advance-PhaseWritten s.db (s.workers i) inv.fits (inv.own i) (s.workers i).phase d phase'
        refl (h i) run)

-- The rows of a commit keep what it wrote when another thread takes a step.
others-PhaseWritten :
    (s : Machine) (i j : ℕ) (db' : Database) (w' : Worker) (phase : Phase)
    → Inv s
    → i ≢ j
    → Turn s.db (s.workers i) db' w'
    → (s.workers j).phase ≡ phase
    → PhaseWritten s.db (s.workers j).entries phase
    → PhaseWritten db' (s.workers j).entries phase
others-PhaseWritten s i j db' w' ended inv ne turn e h = tt
others-PhaseWritten s i j db' w' running inv ne turn e h = tt
others-PhaseWritten s i j db' w' (latching n) inv ne turn e h = tt
others-PhaseWritten s i j db' w' (releasing k m) inv ne turn e h = tt
others-PhaseWritten s i j db' w' (installing ts rid) inv ne turn e h = λ k a le at writes.
    let before = h k a le at writes in
    let held =
      Holds-installing (s.workers j) ts rid k before.addr a e (get-lt (s.workers j).entries k a at)
        at before.at in
    IsWritten-load s.db db' ts a before (
      turn.keeps before.addr (λ mine. inv.alone i j ne before.addr mine held)
        (λ free. IsFree-Holds s.db (s.workers j) before.addr (inv.own j) free held))

Step-AllWritten : (env : Env) (s t : Machine) → Step env s t → Inv s → AllWritten s → AllWritten t
Step-AllWritten env s t step inv h =
    let (db', same, turn) = Step-Turn env s t step inv in
    let mine = Step-PhaseWritten env s t step db' inv h same in
    subst (λ m. (j : ℕ) → PhaseWritten m.db (m.workers j).entries (m.workers j).phase) (sym same)
      (λ j. elim (update-cases s.workers (stepper step) (stepped step) j) [
        | inl (one, e) ↦ subst (λ (v : Worker). PhaseWritten db' v.entries v.phase) (sym e) mine
        | inr (other, e) ↦
            subst (λ (v : Worker). PhaseWritten db' v.entries v.phase) (sym e)
              (others-PhaseWritten s (stepper step) j db' (stepped step) (s.workers j).phase inv
                other turn refl (h j))
      ])

Reach-AllWritten : (env : Env) (s t : Machine) → Reach env s t → Inv s → AllWritten s → AllWritten t
Reach-AllWritten env s _ here inv h = h
Reach-AllWritten env s u (next {t} r step) inv h =
    Step-AllWritten env t u step (Reach-Inv env s t r inv) (Reach-AllWritten env s t r inv h)

-- When a thread in a reachable machine has gone through its access set after its commit took the time `ts`, every row
-- that it wrote has the bytes of its copy and the time `ts`, whatever steps other threads have taken in between. The
-- threads' transactions insert no rows.
pub commits_whole :
    (env : Env) (s t : Machine) (i ts : ℕ)
    → IsStart s
    → Reach env s t
    → (t.workers i).phase ≡ installing ts 0
    → (k : ℕ) (a : Access) → get_elem? (t.workers i).entries k ≡ some a
    → wr? a.type ≡ true
    → IsWritten t.db ts a
commits_whole env s t i ts start reached e k a at writes =
    let h =
      Reach-AllWritten env s t reached (IsStart-Inv s start)
        (λ j. subst (PhaseWritten s.db (s.workers j).entries) (sym (start.idle j)) tt) in
    let mine : WrittenFrom t.db (t.workers i).entries ts 0 =
      subst (PhaseWritten t.db (t.workers i).entries) e (h i) in
    mine k a (omega arith) at writes
