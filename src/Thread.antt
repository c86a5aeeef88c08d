-- ===== src/Thread.antt =====
-- Storage/System/thread.h and thread.cpp: the state of a worker thread, and its times. The body of `run` is
-- commented out in the source, and the server never calls it.
pub mod Times
use data_agent_demo.Prelude.{
  ℕ, ◌+◌, ◌-◌, ◌%◌, ◌≡◌, Bool, true, false, not, Option, none, List, replicate, ◌==◌, if◌then◌else◌,
}
use data_agent_demo.Run.{Run, ok, division_by_zero, check, ◌>>=◌, ◌>>◌}
use data_agent_demo.System.{word64}
use data_agent_demo.Bytes.{Bytes, codes}
use data_agent_demo.Database.{Database, get_ts}
use data_agent_demo.Schema.{same_bytes}

-- An entry of the buffer of aborted queries; a query by number.
pub record AbortBufferEntry : Type 0 where
  pub ready_time : ℕ
  pub query : Option ℕ

pub record Thread : Type 0 where
  pub thd_id : ℕ
  pub host_cid : ℕ
  pub cur_cid : ℕ
  pub curr_ts : ℕ
  pub abort_buffer : List AbortBufferEntry
  pub abort_buffer_empty_slots : ℕ
  pub abort_buffer_enable : Bool

abbrev pub abort_buffer_size : ℕ
abort_buffer_size = 10

-- `init`, on an object `th` whose words nobody has set; `param` is `g_params["abort_buffer_enable"]`. The seed
-- of the random numbers is left out.
unfoldable pub init : Thread → ℕ → Bytes → Thread
unfolding same_bytes
init th thd_id param = record th {
  thd_id = thd_id;
  abort_buffer = replicate abort_buffer_size (record { ready_time = th.curr_ts; query = none });
  abort_buffer_empty_slots = abort_buffer_size;
  abort_buffer_enable = same_bytes param (codes "true");
}

unfoldable pub set_host_cid : Thread → ℕ → Thread
set_host_cid th cid = record th { host_cid = cid }

unfoldable pub set_cur_cid : Thread → ℕ → Thread
set_cur_cid th cid = record th { cur_cid = cid }

-- `get_next_ts`, under the settings `g_ts_batch_alloc` and `g_ts_batch_num`: the time, the thread and the
-- database.
module _ (ts_batch_alloc : Bool) (ts_batch_num : ℕ) where
  batch_ts : Thread → Database → Run (ℕ × Thread × Database)
  unfolding get_ts
  batch_ts th db = do
    check (not (ts_batch_num == 0)) division_by_zero
    let (time, ticked) = get_ts db
    let fresh = th.curr_ts % ts_batch_num == 0
    let curr_ts = ((if fresh then time else th.curr_ts) + 1) % word64
    ok (
      (curr_ts + (word64 - 1)) % word64,
      record th { curr_ts = curr_ts },
      if fresh then ticked else db,
    )

  unfoldable pub get_next_ts : Thread → Database → Run (ℕ × Thread × Database)
  unfolding batch_ts get_ts
  get_next_ts th db =
      if ts_batch_alloc
      then batch_ts th db
      else let (time, ticked) = get_ts db in ok (time, record th { curr_ts = time }, ticked)
