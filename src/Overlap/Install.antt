-- ===== src/Overlap/Install.antt =====
-- A round of the first loop of txn_man::cleanup in a commit, as a turn of its thread.
use native.Mathlib.Decide.{ℕ_discrete}
use data_agent_demo.Prelude.{
  ℕ, suc, ◌<◌, ◌≡◌, inl, inr, refl, sym, ap, ◌∙◌, subst, true, false, some, arith, length,
  get_elem?, Bool-cases,
}
use data_agent_demo.Run.{ok}
use data_agent_demo.System.{rd}
use data_agent_demo.Row.{Row, RowOcc}
use data_agent_demo.Database.{Database, store}
use data_agent_demo.Database.Memory.{load-store_self, load-store_ne, store_same}
use data_agent_demo.Txn.{Access, wr?}
use data_agent_demo.Txn.Returns.{install}
use data_agent_demo.World.Evolve.{ok_same, some_same}
use data_agent_demo.Overlap.{Phase, running, installing, Worker, Holds, install_next, span}
use data_agent_demo.Overlap.Store.{
  Names, IsLatched, Replaces, IsLatched-store, IsBefore-store, RowFits-store,
}
use data_agent_demo.Overlap.Own.{Own, Older, Holds-installing, Own-store, Own-phase}
use data_agent_demo.Overlap.Rounds.{install_next-held}
use data_agent_demo.Overlap.Moves.{Moves-same, Moves-store}
use data_agent_demo.Overlap.Turn.{Overtakes, Turn, AllFit}

module _ (db : Database) (w : Worker) (ts k : ℕ) (fits : AllFit db) (o : Own db w)
    (e : w.phase ≡ installing ts (suc k)) (a : Access) (at : get_elem? w.entries k ≡ some a)
    (inside : k < length w.entries) where
  abbrev named : Names db a
  named = o.names k a at

  abbrev next_worker : Worker
  next_worker = record w { phase = installing ts k }

  held_before : (q : ℕ) → Holds next_worker q → Holds w q
  held_before q h = Holds-installing w ts (suc k) h.place q h.entry e h.to h.at h.row

  still_held : (q : ℕ) → Holds w q → Holds next_worker q
  still_held q h = record {
    place = h.place;
    entry = h.entry;
    from = omega arith;
    to = subst (λ ph. h.place < (span ph (length w.entries)).1) e h.to;
    at = h.at;
    row = h.row;
  }

  held_now : Holds w named.addr
  held_now = Holds-installing w ts (suc k) k named.addr a e inside at named.at

  older : Older db w (installing ts (suc k))
  older = subst (Older db w) e o.older

  -- the row's manager
  abbrev taken : IsLatched db named.addr
  taken = o.latched named.addr held_now

  same_row : taken.row ≡ named.row
  same_row = ok_same (sym taken.there ∙ named.there)

  managed : named.row.manager ≡ some taken.occ
  managed = ap (λ (x : Row). x.manager) (sym same_row) ∙ taken.managed

  past : taken.occ.wts < ts
  past = older.1 k a (omega arith) at named.addr named.row taken.occ named.at named.there managed

  pub install_next-run :
      install_next db w ts k ≡ ok (store db named.addr (install ts a named.row), installing ts k)
  install_next-run = install_next-held db w k a at named taken.occ ts managed taken.state past

  -- fewer entries are left
  fewer : (v : Worker) → Overtakes v w → Overtakes v next_worker
  fewer v before end_ts rid j l p x y phase lt y_at y_row x_at x_row =
      let times : ts ≡ end_ts = ap time_of phase in
      let places : k ≡ rid = ap place_of phase in
      subst (λ t. v.start_ts < t) times
        (before ts (suc k) j l p x y e (omega (arith, lt, places)) y_at y_row x_at x_row)
    where
      time_of : Phase → ℕ
      time_of (installing t n) = t
      time_of _ = 0

      place_of : Phase → ℕ
      place_of (installing t n) = n
      place_of _ = 0

  -- An entry for reading leaves the memory alone.
  read-Turn : Turn db w db next_worker
  read-Turn = record {
    fits = fits;
    own =
        Own-phase db w (installing ts k) o (omega (arith, inside))
          (λ q h. o.latched q (held_before q h)) tt
          (older.0, λ l x lt x_at. older.1 l x (omega (arith, lt)) x_at);
    grows = λ q h. inl (held_before q h);
    overtaken = λ v own before. fewer v before;
    overtakes = λ v own before. before;
    moves = Moves-same db db w next_worker (λ q. refl) still_held;
    keeps = λ q unheld taken. refl;
    others = λ v own before apart. own;
  }

  module _ (writes : wr? a.type ≡ true) where
    abbrev new_row : Row
    new_row = install ts a named.row

    new_managed : new_row.manager ≡ some (record taken.occ { wts = ts })
    new_managed = rw (writes, named.copied, managed) refl

    replaces : Replaces db named.addr named.row new_row
    replaces = record {
      there = named.there;
      same_table = rw (writes, named.copied) refl;
      same_key = rw (writes, named.copied) refl;
      same_size = rw (writes, named.copied) (named.copy_sized ∙ sym named.row_sized);
    }

    abbrev new_db : Database
    new_db = store db named.addr new_row

    new_time : (m' : RowOcc) → new_row.manager ≡ some m' → m'.wts ≡ ts
    new_time m' f =
        let occ : record taken.occ { wts = ts } ≡ m' = some_same (sym new_managed ∙ f) in
        ap (λ (x : RowOcc). x.wts) (sym occ)

    new_fits : AllFit new_db
    new_fits =
        RowFits-store db named.addr named.row new_row replaces (record taken.occ { wts = ts })
          new_managed older.0 fits

    -- the thread itself, without its latches
    Own-loose : Own new_db (record w { phase = running })
    Own-loose =
        Own-store db named.addr named.row new_row replaces (record w { phase = running })
          (λ h. omega (arith, h.to))
          (λ j x m' x_at row reads f.
            let places : k ≡ j = o.distinct k j a x at x_at (named.at ∙ sym row) in
            let same : a ≡ x = some_same (sym at ∙ (ap (get_elem? w.entries) places ∙ x_at)) in
            absurd (not_both x (subst (λ (y : Access). wr? y.type ≡ true) same writes) reads))
          (Own-phase db w running o tt (λ q h. absurd (omega (arith, h.to))) tt tt)
      where
        not_both : (x : Access) → wr? x.type ≡ true → x.type ≡ rd → ⊥
        not_both x f g = cc (sym f ∙ ap wr? g)

    still_latched : (q : ℕ) → Holds next_worker q → IsLatched new_db q
    still_latched q h = elim (ℕ_discrete named.addr q) [
      | yes same ↦ subst (IsLatched new_db) same (record {
        row = new_row;
        occ = record taken.occ { wts = ts };
        there = load-store_self db named.addr named.there new_row;
        managed = new_managed;
        state = taken.state;
      })
      | no other ↦
          IsLatched-store db named.addr named.row new_row replaces q other
            (o.latched q (held_before q h))
    ]

    still_older : Older new_db (record w { phase = running }) (installing ts k)
    unfolding store
    still_older = (
      older.0,
      λ l x lt x_at.
          IsBefore-store db named.addr named.row new_row replaces ts x
            (λ row. omega (arith, lt, o.distinct k l a x at x_at (named.at ∙ sym row)))
            (older.1 l x (omega (arith, lt)) x_at),
    )

    write-Turn : Turn db w new_db next_worker
    write-Turn = record {
      fits = new_fits;
      own =
          Own-phase new_db (record w { phase = running }) (installing ts k) Own-loose
            (omega (arith, inside)) still_latched tt still_older;
      grows = λ q h. inl (held_before q h);
      overtaken = λ v own before. fewer v before;
      overtakes = λ v own before. before;
      moves =
          Moves-store db named.addr named.row new_row w next_worker replaces
            (λ h. inl (o.latched named.addr held_now)) (λ q h. still_held q);
      keeps = λ q unheld taken.
          load-store_ne db named.addr named.there q new_row
            (λ same. unheld (subst (Holds w) same held_now));
      others = λ v own before apart.
          Own-store db named.addr named.row new_row replaces v (λ h. apart named.addr h held_now)
            (λ l x m' x_at row reads f. inl (
              subst (λ t. v.start_ts < t) (sym (new_time m' f))
                (before ts (suc k) k l named.addr x a e (omega arith) at named.at x_at row)))
            own;
    }

  pub install_next-Turn :
      (db' : Database) (phase' : Phase)
      → install_next db w ts k ≡ ok (db', phase')
      → Turn db w db' (record w { phase = phase' })
  install_next-Turn db' phase' run =
      subst (λ (x : Database × Phase). Turn db w x.0 (record w { phase = x.1 }))
        (ok_same (sym install_next-run ∙ run))
        (elim (Bool-cases (wr? a.type)) [
          | inl writes ↦ write-Turn writes
          | inr reads ↦
              subst (λ d. Turn db w d next_worker)
                (sym (store_same db named.addr named.row named.there)
                  ∙ ap (store db named.addr) (sym (unwritten reads)))
                read-Turn
        ])
    where
      unwritten : wr? a.type ≡ false → install ts a named.row ≡ named.row
      unwritten f = rw f refl
