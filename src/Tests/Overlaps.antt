-- ===== src/Tests/Overlaps.antt =====
-- Two threads: the first latches the only row to commit a write to it, and then the second starts.
use data_agent_demo.Overlap.Installed.{commits_whole}
use data_agent_demo.Overlap.Written.{IsWritten}
use data_agent_demo.Bytes.{memcpy_at}
use data_agent_demo.Prelude.{
  ℕ, zero, suc, ◌≡◌, ◌≢◌, ◌⊎◌, refl, some, [], ◌∷◌, arith, get_elem?, true, false,
}
use data_agent_demo.Run.{ok, fault, deadlock}
use data_agent_demo.System.{rd, wr}
use data_agent_demo.Row.Occ.{latch, validate, write}
use data_agent_demo.Database.{Database, load, store, get_ts}
use data_agent_demo.Txn.{Access, get_row_copy, return_row}
use data_agent_demo.Txn.Copies.{copy_of, get_row_copy-current}
use data_agent_demo.Txn.Validate.{orig, sort}
use data_agent_demo.Txn.Passes.{relatch}
use data_agent_demo.Txn.Stages.{tick}
use data_agent_demo.Overlap.Store.{IsLatched}
use data_agent_demo.Overlap.{
  ended, running, latching, installing, Worker, Machine, Step, begins, reads, edits, validates,
  advances, Reach, here, next, advance, latch_next, moved, Holds, install_next,
}
use data_agent_demo.Overlap.Turn.{AllFit}
use data_agent_demo.Overlap.Reached.{IsStart}
use data_agent_demo.Overlap.Commits.{IsFresh, Holds-alone, Holds-kept, commits_at_once}
use data_agent_demo.Overlap.Order.{Keyed}
use data_agent_demo.Overlap.Deadlock.{someone-Goes}
use data_agent_demo.Row.{Row, RowOcc, copy}
use data_agent_demo.Overlap.Progress.{InValidate, Goes, Waits, validate_progress}
use data_agent_demo.Tests.{zeros, tiny_db, shared_row, copied_row}

abbrev idle_worker : Worker
idle_worker = record { start_ts = 0; entries = []; phase = ended }

abbrev all_idle : Machine
all_idle = record { db = tiny_db; workers = λ i. idle_worker }

tiny_fits : AllFit tiny_db
unfolding load
tiny_fits zero r there = record {
  occ = record { latched = false; wts = 3 };
  managed = ground arith;
  past = omega arith;
  sized = ground arith;
}
tiny_fits (suc p) r there = cc there

starts_idle : IsStart all_idle
starts_idle = record {
  fits = tiny_fits;
  idle = λ i. refl;
  empty = λ i. refl;
  before = λ i. omega arith;
}

abbrev read_entry : Access
read_entry = record { type = rd; orig_row = some 0; local = some (copy_of zeros shared_row) }

abbrev write_entry : Access
write_entry = record { type = wr; orig_row = some 0; local = some copied_row }

abbrev later_db : Database
later_db = record tiny_db { timestamp = 10 }

abbrev latched_db : Database
latched_db = store later_db 0 (relatch true shared_row)

abbrev begun_machine : Machine
begun_machine = moved all_idle 0 later_db (record { start_ts = 9; entries = []; phase = running })

abbrev reading_machine : Machine
reading_machine =
    moved begun_machine 0 (store later_db 0 shared_row)
      (record { start_ts = 9; entries = read_entry ∷ []; phase = running })

abbrev writing_machine : Machine
writing_machine =
    moved reading_machine 0 (store later_db 0 shared_row)
      (record { start_ts = 9; entries = write_entry ∷ []; phase = running })

abbrev validating_machine : Machine
validating_machine =
    moved writing_machine 0 (store later_db 0 shared_row)
      (record { start_ts = 9; entries = write_entry ∷ []; phase = latching 0 })

abbrev latched_machine : Machine
latched_machine =
    moved validating_machine 0 (store (store later_db 0 shared_row) 0 (relatch true shared_row))
      (record { start_ts = 9; entries = write_entry ∷ []; phase = latching 1 })

begins_first : Step zeros all_idle begun_machine
unfolding get_ts
begins_first = begins 0 refl (omega arith)

reads_row : Step zeros begun_machine reading_machine
unfolding load
reads_row =
    reads 0 0 shared_row shared_row (copy_of zeros shared_row) rd refl refl (λ k a at. cc at)
      (get_row_copy-current zeros later_db 0 shared_row
        (record {
          occ = record { latched = false; wts = 3 };
          there = refl;
          managed = refl;
          state = refl;
          sized = refl;
        })
        9 refl)

edits_copy : Step zeros reading_machine writing_machine
unfolding copy_of
edits_copy = edits 0 0 read_entry (copy_of zeros shared_row) copied_row refl refl refl refl refl

sorts_entry : Step zeros writing_machine validating_machine
unfolding sort
sorts_entry = validates 0 (write_entry ∷ []) refl refl

latches_row : Step zeros validating_machine latched_machine
unfolding advance latch_next orig load latch validate store
latches_row =
    advances 0 (store (store later_db 0 shared_row) 0 (relatch true shared_row)) (latching 1)
      (omega arith) refl

all_steps : Reach zeros all_idle latched_machine
all_steps =
    next (next (next (next (next here begins_first) reads_row) edits_copy) sorts_entry) latches_row

abbrev then_second : Machine
then_second =
    moved latched_machine 1 (get_ts latched_machine.db).1
      (record { start_ts = (get_ts latched_machine.db).0; entries = []; phase = running })

abbrev begins_second : Step zeros latched_machine then_second
unfolding store
begins_second = begins 1 refl (omega arith)

first-Holds : Holds (latched_machine.workers 0) 0
first-Holds = record {
  place = 0;
  entry = write_entry;
  from = omega arith;
  to = omega arith;
  at = refl;
  row = refl;
}

Holds-alone_example :
    ((i j p : ℕ)
      → i ≢ j
      → Holds (latched_machine.workers i) p
      → ¬ Holds (latched_machine.workers j) p)
    × ((i p : ℕ) → Holds (latched_machine.workers i) p → IsLatched latched_machine.db p)
    × ((i p : ℕ) (r : Row) (start_ts : ℕ)
        → Holds (latched_machine.workers i) p
        → load latched_machine.db p ≡ ok r
        → get_row_copy zeros r start_ts ≡ fault deadlock)
Holds-alone_example = Holds-alone zeros all_idle latched_machine starts_idle all_steps

Holds-kept_example :
    (load then_second.db 0 ≡ load latched_machine.db 0) × Holds (then_second.workers 0) 0
unfolding begins_second store
Holds-kept_example =
    Holds-kept zeros all_idle latched_machine then_second starts_idle all_steps begins_second 0 0
      (λ e. omega (arith, e)) first-Holds

commits_at_once_example :
    (advance latched_machine.db (latched_machine.workers 0) (latching 1)
      ≡ ok (tick latched_machine.db, installing 10 1))
    × ((k : ℕ) (a : Access)
        → get_elem? (write_entry ∷ []) k ≡ some a
        → IsFresh latched_machine.db 9 a)
unfolding store
commits_at_once_example =
    commits_at_once zeros all_idle latched_machine 0 starts_idle all_steps refl

validate_progress_example :
    Goes latched_machine.db (latched_machine.workers 0) (latching 1)
    ⊎ Waits latched_machine.db (latched_machine.workers 0) (latching 1)
validate_progress_example =
    validate_progress zeros all_idle latched_machine 0 starts_idle all_steps tt

free_at_first : (p : ℕ) → ¬ IsLatched tiny_db p
unfolding load
free_at_first zero h = no_latch h.row h.occ h.there h.managed h.state
  where
    no_latch :
        (r : Row) (m : RowOcc) → load tiny_db 0 ≡ ok r → r.manager ≡ some m → ¬ (m.latched ≡ true)
    no_latch r m e f g = ground (arith, e, f, g)
free_at_first (suc p) h = cc (h.there)

one_row : Keyed tiny_db
unfolding load
one_row zero zero r s e f le back = refl
one_row zero (suc q) r s e f le back = cc f
one_row (suc p) q r s e f le back = cc e

someone-Goes_example :
    (j : ℕ) × InValidate (latched_machine.workers j).phase
    × Goes latched_machine.db (latched_machine.workers j) (latched_machine.workers j).phase
someone-Goes_example =
    someone-Goes zeros all_idle latched_machine 0 starts_idle free_at_first one_row all_steps tt

-- The first thread takes its time, and installs its write.
abbrev stamped_machine : Machine
stamped_machine =
    moved latched_machine 0 (record latched_machine.db { timestamp = 11 })
      (record { start_ts = 9; entries = write_entry ∷ []; phase = installing 10 1 })

takes_time : Step zeros latched_machine stamped_machine
unfolding advance store get_ts
takes_time =
    advances 0 (record latched_machine.db { timestamp = 11 }) (installing 10 1) (omega arith) refl

abbrev written_row : Row
written_row = record shared_row {
  data_bytes = copied_row.data_bytes;
  manager = some (record { latched = true; wts = 10 });
}

abbrev written_machine : Machine
written_machine =
    moved stamped_machine 0 (store stamped_machine.db 0 written_row)
      (record { start_ts = 9; entries = write_entry ∷ []; phase = installing 10 0 })

installs_row : Step zeros stamped_machine written_machine
unfolding advance install_next return_row load store write copy memcpy_at
installs_row =
    advances 0 (store stamped_machine.db 0 written_row) (installing 10 0) (omega arith) refl

commits_whole_example : IsWritten written_machine.db 10 write_entry
commits_whole_example =
    commits_whole zeros all_idle written_machine 0 10 starts_idle
      (next (next all_steps takes_time) installs_row) refl 0 write_entry refl refl
