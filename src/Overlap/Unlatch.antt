-- ===== src/Overlap/Unlatch.antt =====
-- A round of the loop of OptCC::validate that releases the latches, as a turn of its thread.
use native.Mathlib.Decide.{ℕ_discrete}
use data_agent_demo.Prelude.{
  ℕ, ◌+◌, ◌<◌, ◌≤◌, ◌≡◌, inl, refl, sym, ap, ◌∙◌, subst, false, some, arith, length, get_elem?,
}
use data_agent_demo.Run.{ok}
use data_agent_demo.Row.{Row, RowOcc}
use data_agent_demo.Database.{Database}
use data_agent_demo.Database.Memory.{load-store_self, load-store_ne}
use data_agent_demo.Txn.{Access}
use data_agent_demo.Txn.Passes.{relatch}
use data_agent_demo.World.Evolve.{ok_same, some_same}
use data_agent_demo.Overlap.{Phase, releasing, Worker, span, Holds, release_next}
use data_agent_demo.Overlap.Store.{Names, IsLatched}
use data_agent_demo.Overlap.Own.{Own, Own-phase}
use data_agent_demo.Overlap.Rounds.{release_next-held}
use data_agent_demo.Overlap.Moves.{Moves-store}
use data_agent_demo.Overlap.Turn.{Turn, AllFit}
use data_agent_demo.Overlap.Latch.{
  relatch-manager, replaced, after, after_fits, bystander, Quiet-Overtakes,
}

module _ (db : Database) (w : Worker) (k m : ℕ) (fits : AllFit db) (o : Own db w)
    (e : w.phase ≡ releasing k m) (a : Access) (at : get_elem? w.entries k ≡ some a) (lt : k < m)
    (within : m ≤ length w.entries) where
  abbrev named : Names db a
  named = o.names k a at

  abbrev next_phase : Phase
  next_phase = releasing (k + 1) m

  held_now : Holds w named.addr
  held_now = record {
    place = k;
    entry = a;
    from = subst (λ ph. (span ph (length w.entries)).0 ≤ k) (sym e) (omega arith);
    to = subst (λ ph. k < (span ph (length w.entries)).1) (sym e) lt;
    at = at;
    row = named.at;
  }

  held_before : (q : ℕ) → Holds (record w { phase = next_phase }) q → Holds w q
  held_before q h =
      let from' : k + 1 ≤ h.place = h.from in
      record {
        place = h.place;
        entry = h.entry;
        from =
            subst (λ ph. (span ph (length w.entries)).0 ≤ h.place) (sym e) (omega (arith, from'));
        to = subst (λ ph. h.place < (span ph (length w.entries)).1) (sym e) h.to;
        at = h.at;
        row = h.row;
      }

  given_up : ¬ Holds (record w { phase = next_phase }) named.addr
  given_up h =
      let from' : k + 1 ≤ h.place = h.from in
      omega (arith, from', o.distinct k h.place a h.entry at h.at (named.at ∙ sym h.row))

  Own-next : Own db (record w { phase = next_phase })
  Own-next = Own-phase db w next_phase o within (λ q h. o.latched q (held_before q h)) tt tt

  -- the row is not latched any more
  now_free : ¬ IsLatched (after db fits a named false) named.addr
  now_free h =
      let f = fits named.addr named.row named.there in
      let same : relatch false named.row ≡ h.row =
        ok_same
          (sym (load-store_self db named.addr named.there (relatch false named.row)) ∙ h.there) in
      let occ : record f.occ { latched = false } ≡ h.occ = some_same (
        sym (relatch-manager false named.row f.occ f.managed)
        ∙ (ap (λ (x : Row). x.manager) same ∙ h.managed)) in
      cc (h.state, ap (λ (x : RowOcc). x.latched) occ)

  kept :
      (q : ℕ)
      → IsLatched (after db fits a named false) q
      → Holds w q
      → Holds (record w { phase = next_phase }) q
  kept q taken h = elim (ℕ_discrete h.place k) [
    | yes first ↦
        let same : a ≡ h.entry =
          some_same (sym at ∙ (ap (get_elem? w.entries) (sym first) ∙ h.at)) in
        let addr : named.addr ≡ q =
          some_same (sym named.at ∙ (ap (λ (x : Access). x.orig_row) same ∙ h.row)) in
        absurd (now_free (subst (IsLatched (after db fits a named false)) (sym addr) taken))
    | no other ↦
        let from' : k ≤ h.place = subst (λ ph. (span ph (length w.entries)).0 ≤ h.place) e h.from in
        let to' : h.place < m = subst (λ ph. h.place < (span ph (length w.entries)).1) e h.to in
        record {
          place = h.place;
          entry = h.entry;
          from = grind (arith, from', other);
          to = to';
          at = h.at;
          row = h.row;
        }
  ]

  release-Turn : Turn db w (after db fits a named false) (record w { phase = next_phase })
  release-Turn = record {
    fits = after_fits db fits a named false;
    own = bystander db fits a named false (record w { phase = next_phase }) given_up Own-next;
    grows = λ q h. inl (held_before q h);
    overtaken =
        λ v own before. Quiet-Overtakes v (record w { phase = next_phase }) next_phase tt refl;
    overtakes = λ v own before. before;
    moves =
        Moves-store db named.addr named.row (relatch false named.row) w
          (record w { phase = next_phase }) (replaced db fits a named false)
          (λ taken. inl (o.latched named.addr held_now)) kept;
    keeps = λ q unheld taken.
        load-store_ne db named.addr named.there q (relatch false named.row)
          (λ same. unheld (subst (Holds w) same held_now));
    others = λ v own before apart.
        bystander db fits a named false v (λ h. apart named.addr h held_now) own;
  }

  pub release_next-Turn :
      (db' : Database) (phase' : Phase)
      → release_next db w k m ≡ ok (db', phase')
      → Turn db w db' (record w { phase = phase' })
  release_next-Turn db' phase' run =
      let taken = o.latched named.addr held_now in
      let same : taken.row ≡ named.row = ok_same (sym taken.there ∙ named.there) in
      let round =
        release_next-held db w k a at named taken.occ m
          (ap (λ (x : Row). x.manager) (sym same) ∙ taken.managed) taken.state in
      subst (λ (x : Database × Phase). Turn db w x.0 (record w { phase = x.1 }))
        (ok_same (sym round ∙ run)) release-Turn

  -- and the round never fails
  pub release_next-ok : (db' : Database) × (release_next db w k m ≡ ok (db', next_phase))
  release_next-ok =
      let taken = o.latched named.addr held_now in
      let same : taken.row ≡ named.row = ok_same (sym taken.there ∙ named.there) in
      (
        _,
        release_next-held db w k a at named taken.occ m
            (ap (λ (x : Row). x.manager) (sym same) ∙ taken.managed) taken.state,
      )
