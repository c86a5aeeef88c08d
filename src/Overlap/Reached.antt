-- ===== src/Overlap/Reached.antt =====
-- Machines that threads reach from a start: the invariant of all of them.
use data_agent_demo.System.{wr}
use data_agent_demo.Prelude.{ℕ, ◌<◌, ◌≡◌, refl, sym, subst, [], length, ◌++◌, set, some, ◌∷◌}
use data_agent_demo.Env.{Env}
use data_agent_demo.Database.{Database, get_ts}
use data_agent_demo.Txn.Stages.{tick}
use data_agent_demo.Overlap.{
  ended, Worker, Machine, Step, begins, reads, edits, quits, validates, advances, Reach, here, next,
  moved, Holds, running, latching,
}
use data_agent_demo.Overlap.Own.{Within, Tested, Older}
use data_agent_demo.Overlap.Moves.{Holds-none}
use data_agent_demo.Overlap.Turn.{Turn, AllFit, Inv, Turn-Inv}
use data_agent_demo.Overlap.Latch.{Quiet-Overtakes}
use data_agent_demo.Overlap.Plain.{begin-Turn}
use data_agent_demo.Overlap.Steps.{reads-Turn}
use data_agent_demo.Overlap.Changes.{edits-Turn, validates-Turn}
use data_agent_demo.Overlap.Advance.{ended_turn, advance-Turn}

-- No thread has started a transaction yet; the rows have managers and all their bytes, and were written in the past.
pub record IsStart (s : Machine) : Type 0 where
  pub fits : AllFit s.db
  pub idle : (i : ℕ) → (s.workers i).phase ≡ ended
  pub empty : (i : ℕ) → (s.workers i).entries ≡ []
  pub before : (i : ℕ) → (s.workers i).start_ts < s.db.timestamp

pub IsStart-Inv : (s : Machine) → IsStart s → Inv s
IsStart-Inv s h = record {
  fits = h.fits;
  own = λ i. record {
    names = λ k a at. cc (at, h.empty i);
    distinct = λ k l a b at at' same. cc (at, h.empty i);
    started = h.before i;
    seen = λ k a at. cc (at, h.empty i);
    latched = λ p k. absurd (nothing i p k);
    within = subst (λ ph. Within ph (length (s.workers i).entries)) (sym (h.idle i)) tt;
    tested = subst (Tested s.db (s.workers i)) (sym (h.idle i)) tt;
    older = subst (Older s.db (s.workers i)) (sym (h.idle i)) tt;
  };
  alone = λ i j ne p k. absurd (nothing i p k);
  overtakes = λ i j ne. Quiet-Overtakes (s.workers i) (s.workers j) ended tt (h.idle j);
}
  where
    nothing : (i p : ℕ) → ¬ Holds (s.workers i) p
    nothing i p k = cc (k.at, h.empty i)

-- the thread that takes the step
abbrev pub stepper : {env : Env} {s t : Machine} → Step env s t → ℕ
stepper (begins i _ _) = i
stepper (reads i _ _ _ _ _ _ _ _ _) = i
stepper (edits i _ _ _ _ _ _ _ _ _) = i
stepper (quits i _) = i
stepper (validates i _ _ _) = i
stepper (advances i _ _ _ _) = i

-- what the thread is then
abbrev pub stepped : {env : Env} {s t : Machine} → Step env s t → Worker
stepped {s = s} (begins i _ _) = record {
  start_ts = (get_ts s.db).0;
  entries = [];
  phase = running;
}
stepped {s = s} (reads i p r r' copied type _ _ _ _) = record (s.workers i) {
  entries =
      (s.workers i).entries ++ record { type = type; orig_row = some p; local = some copied } ∷ [];
  phase = running;
}
stepped {s = s} (edits i k a l l' _ _ _ _ _) = record (s.workers i) {
  entries = set (s.workers i).entries k (record a { type = wr; local = some l' });
  phase = running;
}
stepped {s = s} (quits i _) = record (s.workers i) { phase = ended }
stepped {s = s} (validates i sorted _ _) = record (s.workers i) {
  entries = sorted;
  phase = latching 0;
}
stepped {s = s} (advances i db' phase' _ _) = record (s.workers i) { phase = phase' }

-- Each step is a turn of its thread.
pub Step-Turn :
    (env : Env) (s t : Machine) (step : Step env s t)
    → Inv s
    → (db' : Database) × (t ≡ moved s (stepper step) db' (stepped step))
      × Turn s.db (s.workers (stepper step)) db' (stepped step)
unfolding tick get_ts
Step-Turn env s t (begins i e room) inv = (
  _,
  refl,
  begin-Turn s.db (s.workers i) inv.fits (λ p. Holds-none (s.workers i) ended p e refl) room,
)
Step-Turn env s t (reads i p r r' copied type e there fresh run) inv = (
  _,
  refl,
  reads-Turn env s.db (s.workers i) p r type inv.fits (inv.own i) there fresh
      (λ q. Holds-none (s.workers i) running q e refl) r' copied run,
)
Step-Turn env s t (edits i k a l l' e at copied table size) inv = (
  _,
  refl,
  edits-Turn s.db (s.workers i) inv.fits (inv.own i) k a l l' at copied table size
      (λ p. Holds-none (s.workers i) running p e refl),
)
Step-Turn env s t (quits i e) inv = (
  _,
  refl,
  ended_turn s.db (s.workers i) inv.fits (inv.own i)
      (λ p. Holds-none (s.workers i) running p e refl),
)
Step-Turn env s t (validates i sorted e run) inv = (
  _,
  refl,
  validates-Turn s.db (s.workers i) inv.fits (inv.own i)
      (λ p. Holds-none (s.workers i) running p e refl) sorted run,
)
Step-Turn env s t (advances i db' phase' room run) inv = (
  _,
  refl,
  advance-Turn s.db (s.workers i) inv.fits (inv.own i) (s.workers i).phase db' phase' refl room run,
)

pub Step-Inv : (env : Env) (s t : Machine) → Step env s t → Inv s → Inv t
Step-Inv env s t step inv =
    let (db', same, turn) = Step-Turn env s t step inv in
    subst Inv (sym same) (Turn-Inv s (stepper step) db' (stepped step) inv turn)

pub Reach-Inv : (env : Env) (s t : Machine) → Reach env s t → Inv s → Inv t
Reach-Inv env s _ here inv = inv
Reach-Inv env s u (next {t} r step) inv = Step-Inv env t u step (Reach-Inv env s t r inv)
