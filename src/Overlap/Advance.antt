-- ===== src/Overlap/Advance.antt =====
-- The steps of OptCC::validate, put together: each of them is a turn of its thread.
use data_agent_demo.Prelude.{
  ℕ, zero, suc, ◌+◌, ◌<◌, ◌≤◌, ◌≡◌, refl, sym, ◌∙◌, subst, inl, inr, arith, length, ltb, Bool-cases,
  get-inside,
}
use data_agent_demo.Run.{Run, ok}
use data_agent_demo.System.{word64}
use data_agent_demo.Database.{Database, get_ts}
use data_agent_demo.Txn.Stages.{tick}
use data_agent_demo.World.Evolve.{ok_same}
use data_agent_demo.Overlap.{
  Phase, ended, running, latching, installing, releasing, Worker, advance, latch_next, release_next,
  Holds, span,
}
use data_agent_demo.Overlap.Own.{Own, Within, Holds-installing}
use data_agent_demo.Overlap.Moves.{Holds-none}
use data_agent_demo.Overlap.Turn.{Turn, AllFit}
use data_agent_demo.Overlap.Latch.{latch_next-Turn}
use data_agent_demo.Overlap.Unlatch.{release_next-Turn}
use data_agent_demo.Overlap.Install.{install_next-Turn}
use data_agent_demo.Overlap.Plain.{phase-Turn, stamp-Turn}

module _ (db : Database) (w : Worker) where
  pub latching-inside :
      (n : ℕ) → n < length w.entries → advance db w (latching n) ≡ latch_next db w n
  unfolding advance
  latching-inside n lt = ground (arith, lt)

  pub latching-all :
      (n : ℕ)
      → n ≡ length w.entries
      → advance db w (latching n) ≡ ok (tick db, installing db.timestamp (length w.entries))
  unfolding advance tick get_ts
  latching-all n all = ground (arith, all)

  pub releasing-inside : (k m : ℕ) → k < m → advance db w (releasing k m) ≡ release_next db w k m
  unfolding advance
  releasing-inside k m lt = ground (arith, lt)

  pub releasing-all : (k m : ℕ) → m ≤ k → advance db w (releasing k m) ≡ ok (db, ended)
  unfolding advance
  releasing-all k m le = ground (arith, le)

  pub Within-phase : (phase : Phase) → w.phase ≡ phase → Own db w → Within phase (length w.entries)
  Within-phase phase e o = subst (λ ph. Within ph (length w.entries)) e o.within

module _ (db : Database) (w : Worker) (fits : AllFit db) (o : Own db w) where
  abbrev Goal : Database → Phase → Type 0
  Goal db' phase' = Turn db w db' (record w { phase = phase' })

  by_result :
      (d d' : Database) (ph ph' : Phase) (run : Run (Database × Phase))
      → run ≡ ok (d, ph)
      → run ≡ ok (d', ph')
      → Goal d ph
      → Goal d' ph'
  by_result d d' ph ph' run e f =
      subst (λ (x : Database × Phase). Goal x.0 x.1) (ok_same (sym e ∙ f))

  pub ended_turn : ((p : ℕ) → ¬ Holds w p) → Goal db ended
  ended_turn idle =
      phase-Turn db w ended fits o tt tt (λ p h. absurd (omega (arith, h.to)))
        (λ p h. absurd (idle p h)) tt tt

  released_turn : (ts : ℕ) → w.phase ≡ installing ts zero → Goal db (releasing 0 (length w.entries))
  released_turn ts e =
      phase-Turn db w (releasing 0 (length w.entries)) fits o tt (omega arith)
        (λ p h. Holds-installing w ts zero h.place p h.entry e h.to h.at h.row)
        (λ p h. record {
          place = h.place;
          entry = h.entry;
          from = omega arith;
          to = subst (λ ph. h.place < (span ph (length w.entries)).1) e h.to;
          at = h.at;
          row = h.row;
        })
        tt tt

  none_left : (k m p : ℕ) → w.phase ≡ releasing k m → m ≤ k → ¬ Holds w p
  none_left k m p e le h =
      let from' : k ≤ h.place = subst (λ ph. (span ph (length w.entries)).0 ≤ h.place) e h.from in
      let to' : h.place < m = subst (λ ph. h.place < (span ph (length w.entries)).1) e h.to in
      omega (arith, from', to', le)

  pub advance-Turn :
      (phase : Phase) (db' : Database) (phase' : Phase)
      → w.phase ≡ phase
      → db.timestamp + 1 < word64
      → advance db w phase ≡ ok (db', phase')
      → Goal db' phase'
  unfolding advance
  advance-Turn ended db' phase' e room run =
      by_result db db' ended phase' _ refl run (ended_turn (λ p. Holds-none w ended p e refl))
  advance-Turn running db' phase' e room run = by_result db db' running phase' _ refl run (
      phase-Turn db w running fits o tt tt (λ p h. absurd (omega (arith, h.to)))
        (λ p h. absurd (Holds-none w running p e refl h)) tt tt)
  advance-Turn (latching n) db' phase' e room run =
      let within : n ≤ length w.entries = Within-phase db w (latching n) e o in
      elim (Bool-cases (ltb n (length w.entries))) [
        | inl lt ↦
            let inside : n < length w.entries = ground (arith, lt) in
            let (a, at) = get-inside w.entries n inside in
            latch_next-Turn db w n fits o e a at inside db' phase'
              (sym (latching-inside db w n inside) ∙ run)
        | inr ge ↦
            let all : n ≡ length w.entries = ground (arith, ge, within) in
            by_result (tick db) db' (installing db.timestamp (length w.entries)) phase' _
              (latching-all db w n all) run (stamp-Turn db w n fits o e all room)
      ]
  advance-Turn (installing ts zero) db' phase' e room run =
      by_result db db' (releasing 0 (length w.entries)) phase' _ refl run (released_turn ts e)
  advance-Turn (installing ts (suc k)) db' phase' e room run =
      let within : suc k ≤ length w.entries = Within-phase db w (installing ts (suc k)) e o in
      let inside : k < length w.entries = omega (arith, within) in
      let (a, at) = get-inside w.entries k inside in
      install_next-Turn db w ts k fits o e a at inside db' phase' run
  advance-Turn (releasing k m) db' phase' e room run =
      let within : m ≤ length w.entries = Within-phase db w (releasing k m) e o in
      elim (Bool-cases (ltb k m)) [
        | inl lt ↦
            let inside : k < m = ground (arith, lt) in
            let (a, at) = get-inside w.entries k (omega (arith, inside, within)) in
            release_next-Turn db w k m fits o e a at inside within db' phase'
              (sym (releasing-inside db w k m inside) ∙ run)
        | inr ge ↦
            by_result db db' ended phase' _ (releasing-all db w k m (ground (arith, ge))) run
              (ended_turn (λ p h. none_left k m p e (ground (arith, ge)) h))
      ]
