-- ===== src/Overlap/Rounds.antt =====
-- One round of each loop of OptCC::validate, on an entry that names a live row.
use data_agent_demo.Prelude.{
  ℕ, ◌+◌, ◌<◌, ◌≡◌, refl, true, false, some, arith, get_elem?, ltb, if◌then◌else◌,
}
use data_agent_demo.Run.{ok, fault, deadlock}
use data_agent_demo.Row.{Row, RowOcc}
use data_agent_demo.Row.Occ.{latch}
use data_agent_demo.Database.{Database, store}
use data_agent_demo.Txn.{Access}
use data_agent_demo.Txn.Validate.{orig}
use data_agent_demo.Txn.Accesses.{Held}
use data_agent_demo.Txn.Passes.{relatch, latch_lem, validate_lem}
use data_agent_demo.Txn.Release.{release_lem}
use data_agent_demo.Txn.Returns.{install, return_row_commit}
use data_agent_demo.Overlap.{
  latching, installing, releasing, Worker, latch_next, install_next, release_next,
}
use data_agent_demo.Overlap.Store.{Names}

pub orig-Names : (db : Database) (a : Access) (h : Names db a) → orig db a ≡ ok (h.addr, h.row)
unfolding orig
orig-Names db a h = ground (arith, h.at, h.there)

pub latch_taken :
    (r : Row) (m : RowOcc) → r.manager ≡ some m → m.latched ≡ true → latch r ≡ fault deadlock
unfolding latch
latch_taken r m e f = ground arith

module _ (db : Database) (w : Worker) (k : ℕ) (a : Access) (at : get_elem? w.entries k ≡ some a)
    (h : Names db a) where
  -- the latching loop waits, or latches the row and tests its time
  pub latch_next-taken :
      (m : RowOcc) → h.row.manager ≡ some m → m.latched ≡ true → latch_next db w k ≡ fault deadlock
  unfolding latch_next
  latch_next-taken m e f = rw (at, orig-Names db a h, latch_taken h.row m e f) refl

  pub latch_next-free :
      (m : RowOcc)
      → h.row.manager ≡ some m
      → m.latched ≡ false
      → latch_next db w k
        ≡ ok (
          store db h.addr (relatch true h.row),
          if (if ltb w.start_ts m.wts then false else true)
              then latching (k + 1)
              else releasing 0 (k + 1),
        )
  unfolding latch_next
  latch_next-free m e f =
      rw (at, orig-Names db a h, latch_lem h.row m e f, validate_lem h.row m w.start_ts e) refl

  pub release_next-held :
      (m : RowOcc) (lock_cnt : ℕ)
      → h.row.manager ≡ some m
      → m.latched ≡ true
      → release_next db w k lock_cnt
        ≡ ok (store db h.addr (relatch false h.row), releasing (k + 1) lock_cnt)
  unfolding release_next
  release_next-held m lock_cnt e f = rw (at, orig-Names db a h, release_lem h.row m e f) refl

  abbrev held_true : (m : RowOcc) → h.row.manager ≡ some m → m.latched ≡ true → Held true db a
  held_true m e f = record {
    addr = h.addr;
    row = h.row;
    occ = m;
    copy = h.copy;
    at = h.at;
    there = h.there;
    managed = e;
    state = f;
    copied = h.copied;
    copy_sized = h.copy_sized;
    row_sized = h.row_sized;
  }

  pub install_next-held :
      (m : RowOcc) (end_ts : ℕ)
      → h.row.manager ≡ some m
      → m.latched ≡ true
      → m.wts < end_ts
      → install_next db w end_ts k
        ≡ ok (store db h.addr (install end_ts a h.row), installing end_ts k)
  unfolding install_next
  install_next-held m end_ts e f lt =
      rw (at, return_row_commit db a (held_true m e f) end_ts lt) refl
