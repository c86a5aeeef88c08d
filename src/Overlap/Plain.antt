-- ===== src/Overlap/Plain.antt =====
-- The steps that store no row, as turns of their thread: the start and the end of a transaction, changes of its
-- access set, and the calls of `get_ts`.
use data_agent_demo.Prelude.{ℕ, ◌+◌, ◌<◌, ◌≡◌, inl, refl, sym, ap, ◌∙◌, [], arith, length, subst}
use data_agent_demo.System.{word64}
use data_agent_demo.Row.{RowOcc}
use data_agent_demo.Database.{Database, get_ts}
use data_agent_demo.Txn.{Access}
use data_agent_demo.Txn.Returns.{IsBefore}
use data_agent_demo.Txn.Stages.{tick, load-tick}
use data_agent_demo.World.Evolve.{some_same}
use data_agent_demo.Overlap.{Phase, running, latching, installing, Worker, Holds, span}
use data_agent_demo.Overlap.Own.{Own, Within, Tested, Older, Holds-latching, Own-phase, Own-tick}
use data_agent_demo.Overlap.Moves.{Moves-same}
use data_agent_demo.Overlap.Turn.{Turn, AllFit}
use data_agent_demo.Overlap.Latch.{Quiet, Quiet-Overtakes}

pub timestamp-tick :
    (db : Database) → db.timestamp + 1 < word64 → (tick db).timestamp ≡ db.timestamp + 1
unfolding tick get_ts
timestamp-tick db room = omega (arith, room)

pub AllFit-tick : (db : Database) → db.timestamp + 1 < word64 → AllFit db → AllFit (tick db)
AllFit-tick db room fits p r there =
    let f = fits p r (sym (load-tick db p) ∙ there) in
    record {
      occ = f.occ;
      managed = f.managed;
      past = omega (arith, f.past, timestamp-tick db room);
      sized = f.sized;
    }

-- No step of the memory: the thread takes another phase, and no latch.
pub phase-Turn :
    (db : Database) (w : Worker) (phase' : Phase)
    → AllFit db
    → Own db w
    → Quiet phase'
    → Within phase' (length w.entries)
    → ((p : ℕ) → Holds (record w { phase = phase' }) p → Holds w p)
    → ((p : ℕ) → Holds w p → Holds (record w { phase = phase' }) p)
    → Tested db w phase'
    → Older db w phase'
    → Turn db w db (record w { phase = phase' })
phase-Turn db w phase' fits o quiet within less more tested older = record {
  fits = fits;
  own = Own-phase db w phase' o within (λ p h. o.latched p (less p h)) tested older;
  grows = λ p h. inl (less p h);
  overtaken = λ v own before. Quiet-Overtakes v (record w { phase = phase' }) phase' quiet refl;
  overtakes = λ v own before. before;
  moves = Moves-same db db w (record w { phase = phase' }) (λ q. refl) more;
  keeps = λ q unheld taken. refl;
  others = λ v own before apart. own;
}

-- a new transaction, at the clock's time
pub begin-Turn :
    (db : Database) (w : Worker)
    → AllFit db
    → ((p : ℕ) → ¬ Holds w p)
    → db.timestamp + 1 < word64
    → Turn db w (tick db) (record { start_ts = db.timestamp; entries = []; phase = running })
begin-Turn db w fits idle room =
    let later : db.timestamp < (tick db).timestamp = omega (arith, timestamp-tick db room) in
    record {
      fits = AllFit-tick db room fits;
      own = record {
        names = λ k a at. cc at;
        distinct = λ k l a b at at' same. cc at;
        started = later;
        seen = λ k a at. cc at;
        latched = λ p h. cc (h.at);
        within = tt;
        tested = tt;
        older = tt;
      };
      grows = λ p h. cc (h.at);
      overtaken = λ v own before.
          Quiet-Overtakes v (record { start_ts = db.timestamp; entries = []; phase = running })
            running tt refl;
      overtakes = λ v own before end_ts rid k l p a b e lt at row at' row'. cc at';
      moves = Moves-same db (tick db) w _ (load-tick db) (λ q h. absurd (idle q h));
      keeps = λ q unheld taken. load-tick db q;
      others = λ v own before apart. Own-tick db v (omega (arith, later)) own;
    }

-- All rows are latched and passed: the commit takes its time.
module _ (db : Database) (w : Worker) (n : ℕ) (fits : AllFit db) (o : Own db w)
    (e : w.phase ≡ latching n) (all : n ≡ length w.entries) (room : db.timestamp + 1 < word64) where
  abbrev stamped : Worker
  stamped = record w { phase = installing db.timestamp (length w.entries) }

  later : db.timestamp < (tick db).timestamp
  later = omega (arith, timestamp-tick db room)

  held_before : (p : ℕ) → Holds stamped p → Holds w p
  held_before p h =
      let to' : h.place < length w.entries = h.to in
      Holds-latching w n h.place p h.entry e (omega (arith, to', all)) h.at h.row

  still_held : (p : ℕ) → Holds w p → Holds stamped p
  still_held p h =
      let below : h.place < n = subst (λ ph. h.place < (span ph (length w.entries)).1) e h.to in
      record {
        place = h.place;
        entry = h.entry;
        from = omega arith;
        to = omega (arith, below, all);
        at = h.at;
        row = h.row;
      }

  Own-later : Own (tick db) w
  Own-later = Own-tick db w (omega (arith, later)) o

  all_older : (k : ℕ) (a : Access) → IsBefore db.timestamp (tick db) a
  all_older k a p r m row there managed =
      let f = fits p r (sym (load-tick db p) ∙ there) in
      let occ : f.occ ≡ m = some_same (sym f.managed ∙ managed) in
      omega (arith, f.past, ap (λ (x : RowOcc). x.wts) occ)

  pub stamp-Turn : Turn db w (tick db) stamped
  stamp-Turn = record {
    fits = AllFit-tick db room fits;
    own =
        Own-phase (tick db) w (installing db.timestamp (length w.entries)) Own-later (omega arith)
          (λ p h. Own-later.latched p (held_before p h)) tt (later, λ k a lt at. all_older k a);
    grows = λ p h. inl (held_before p h);
    overtaken = λ v own before end_ts rid k l p a b phase lt at row at' row'.
        let times : db.timestamp ≡ end_ts = ap time_of phase in omega (arith, own.started, times);
    overtakes = λ v own before. before;
    moves = Moves-same db (tick db) w stamped (load-tick db) still_held;
    keeps = λ q unheld taken. load-tick db q;
    others = λ v own before apart. Own-tick db v (omega (arith, later)) own;
  }
    where
      time_of : Phase → ℕ
      time_of (installing t n) = t
      time_of _ = 0
