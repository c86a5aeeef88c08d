-- ===== src/Overlap/Progress.antt =====
-- Progress: a thread in `validate` takes its next step, which brings it nearer to its end, or waits for a latch.
use data_agent_demo.Prelude.{
  ℕ, zero, suc, ◌+◌, ◌-◌, ◌<◌, ◌≤◌, ◌≡◌, ◌⊎◌, inl, inr, refl, ◌∙◌, true, some, arith, length,
  get_elem?, ltb, Bool-cases, get-inside,
}
use data_agent_demo.Run.{ok, fault, deadlock}
use data_agent_demo.Env.{Env}
use data_agent_demo.Database.{Database, store}
use data_agent_demo.Txn.{Access}
use data_agent_demo.Txn.Passes.{relatch}
use data_agent_demo.Overlap.{
  Phase, ended, running, latching, installing, releasing, Worker, Machine, Reach, advance,
}
use data_agent_demo.Overlap.Store.{IsLatched}
use data_agent_demo.Overlap.Own.{Own}
use data_agent_demo.Overlap.Rounds.{latch_next-taken, latch_next-free}
use data_agent_demo.Overlap.Turn.{AllFit}
use data_agent_demo.Overlap.Unlatch.{release_next-ok}
use data_agent_demo.Overlap.Install.{install_next-run}
use data_agent_demo.Overlap.Advance.{
  latching-inside, latching-all, releasing-inside, releasing-all, Within-phase,
}
use data_agent_demo.Overlap.Reached.{IsStart, IsStart-Inv, Reach-Inv}

-- how many steps of `validate` are left at most, for an access set of `n` entries
abbrev pub left : Phase → ℕ → ℕ
left ended n = 0
left running n = 0
left (latching count) n = (n - count) + (n + (n + 3))
left (installing end_ts rid) n = rid + (n + 2)
left (releasing from lock_cnt) n = (lock_cnt - from) + 1

abbrev pub InValidate : Phase → Type 0
InValidate ended = ⊥
InValidate running = ⊥
InValidate _ = Unit

-- The step is taken and fewer are left.
abbrev pub Goes : Database → Worker → Phase → Type 0
Goes db w phase =
    (db' : Database) × (phase' : Phase) × (advance db w phase ≡ ok (db', phase'))
    × (left phase' (length w.entries) < left phase (length w.entries))

-- The thread is in its latching loop, and the row of its next entry is latched.
pub record Waits (db : Database) (w : Worker) (phase : Phase) : Type 0 where
  pub count : ℕ
  pub entry : Access
  pub addr : ℕ
  pub in_loop : phase ≡ latching count
  pub at : get_elem? w.entries count ≡ some entry
  pub row : entry.orig_row ≡ some addr
  pub taken : IsLatched db addr
  pub stops : advance db w phase ≡ fault deadlock

module _ (db : Database) (w : Worker) (fits : AllFit db) (o : Own db w) where
  latching-Goes : (n : ℕ) → w.phase ≡ latching n → Goes db w (latching n) ⊎ Waits db w (latching n)
  latching-Goes n e =
      let within : n ≤ length w.entries = Within-phase db w (latching n) e o in
      elim (Bool-cases (ltb n (length w.entries))) [
        | inl lt ↦
            let inside : n < length w.entries = ground (arith, lt) in
            let (a, at) = get-inside w.entries n inside in
            let h = o.names n a at in
            let f = fits h.addr h.row h.there in
            let here = latching-inside db w n inside in
            elim (Bool-cases f.occ.latched) [
              | inl taken ↦ inr (record {
                count = n;
                entry = a;
                addr = h.addr;
                in_loop = refl;
                at = at;
                row = h.at;
                taken = record {
                  row = h.row;
                  occ = f.occ;
                  there = h.there;
                  managed = f.managed;
                  state = taken;
                };
                stops = here ∙ latch_next-taken db w n a at h f.occ f.managed taken;
              })
              | inr free ↦
                  let db' = store db h.addr (relatch true h.row) in
                  let round = here ∙ latch_next-free db w n a at h f.occ f.managed free in
                  elim (Bool-cases (ltb w.start_ts f.occ.wts)) [
                    | inl stale ↦
                        inl (db', releasing 0 (n + 1), round ∙ rw stale refl, omega (arith, inside))
                    | inr current ↦
                        inl (db', latching (n + 1), round ∙ rw current refl, omega (arith, inside))
                  ]
            ]
        | inr ge ↦
            let all : n ≡ length w.entries = ground (arith, ge, within) in
            inl (_, _, latching-all db w n all, omega (arith, all))
      ]

  installing-Goes : (ts rid : ℕ) → w.phase ≡ installing ts rid → Goes db w (installing ts rid)
  unfolding advance
  installing-Goes ts zero e = (_, _, refl, omega arith)
  installing-Goes ts (suc k) e =
      let within : suc k ≤ length w.entries = Within-phase db w (installing ts (suc k)) e o in
      let inside : k < length w.entries = omega (arith, within) in
      let (a, at) = get-inside w.entries k inside in
      (_, _, install_next-run db w ts k fits o e a at inside, omega arith)

  releasing-Goes : (k m : ℕ) → w.phase ≡ releasing k m → Goes db w (releasing k m)
  releasing-Goes k m e =
      let within : m ≤ length w.entries = Within-phase db w (releasing k m) e o in
      elim (Bool-cases (ltb k m)) [
        | inl lt ↦
            let inside : k < m = ground (arith, lt) in
            let (a, at) = get-inside w.entries k (omega (arith, inside, within)) in
            let (db', round) = release_next-ok db w k m fits o e a at inside within in
            (
              db',
              releasing (k + 1) m,
              releasing-inside db w k m inside ∙ round,
              omega (arith, inside),
            )
        | inr ge ↦ (_, _, releasing-all db w k m (ground (arith, ge)), omega arith)
      ]

  pub Goes-cases :
      (phase : Phase) → w.phase ≡ phase → InValidate phase → Goes db w phase ⊎ Waits db w phase
  Goes-cases ended e v = elim v [ ]
  Goes-cases running e v = elim v [ ]
  Goes-cases (latching n) e v = latching-Goes n e
  Goes-cases (installing ts rid) e v = inl (installing-Goes ts rid e)
  Goes-cases (releasing k m) e v = inl (releasing-Goes k m e)

-- In a reachable machine, a thread that is in `validate` takes its next step and has fewer steps left after it, or is
-- in its latching loop and the row of its next entry is latched. So the steps of one validation are bounded by the
-- size of its access set, a thread that commits or releases waits for nobody, and no step fails in another way. The threads'
-- transactions insert no rows.
pub validate_progress :
    (env : Env) (s t : Machine) (i : ℕ)
    → IsStart s
    → Reach env s t
    → InValidate (t.workers i).phase
    → Goes t.db (t.workers i) (t.workers i).phase ⊎ Waits t.db (t.workers i) (t.workers i).phase
validate_progress env s t i start reached inside =
    let inv = Reach-Inv env s t reached (IsStart-Inv s start) in
    Goes-cases t.db (t.workers i) inv.fits (inv.own i) (t.workers i).phase refl inside
