-- ===== src/Thread/Times.antt =====
-- The times that the threads get.
use data_agent_demo.Prelude.{ℕ, ◌+◌, ◌-◌, ◌%◌, ◌<◌, ◌≡◌, ◌≢◌, ap, true, false, arith, ◌==◌}
use data_agent_demo.Run.{ok}
use data_agent_demo.System.{word64}
use data_agent_demo.Database.{Database, get_ts}
use data_agent_demo.Thread.{Thread, batch_ts, get_next_ts}

-- Without batches, two threads that ask one after the other get different times, the later the greater, and both
-- of them behind the clock that is left, as long as the clock does not wrap around.
pub get_next_ts-lt :
    (batch : ℕ) (a b : Thread) (db : Database)
    → db.timestamp + 2 < word64
    → (a' b' : Thread) (db' db'' : Database) (s t : ℕ)
    → get_next_ts false batch a db ≡ ok (s, a', db')
    → get_next_ts false batch b db' ≡ ok (t, b', db'')
    → (s ≡ db.timestamp) × (s < t) × (t < db''.timestamp)
unfolding get_next_ts get_ts
get_next_ts-lt batch a b db h a' b' db' db'' s t e f = ground arith

-- the thread after a time of its batch, and the database after the clock moved on
abbrev pub at_ts : Thread → ℕ → Thread
at_ts th ts = record th { curr_ts = ts }

abbrev pub ticked : Database → Database
ticked db = record db { timestamp = db.timestamp + 1 }

back_one : (n : ℕ) → n + 1 < word64 → ((n + 1) % word64 + (word64 - 1)) % word64 ≡ n
back_one n h = omega arith

module _ (batch : ℕ) (some_batch : 1 < batch) (th : Thread) (db : Database) where
  positive : (batch == 0) ≡ false
  positive = ground arith

  batch_ts-fresh :
      th.curr_ts % batch ≡ 0
      → db.timestamp + 1 < word64
      → get_next_ts true batch th db ≡ ok (db.timestamp, at_ts th (db.timestamp + 1), ticked db)
  unfolding get_next_ts batch_ts get_ts
  batch_ts-fresh e h =
      rw (positive, e, back_one db.timestamp h)
        (ap (λ (n : ℕ). ok (db.timestamp, at_ts th n, record db { timestamp = n })) (omega arith))

  batch_ts-on :
      th.curr_ts % batch ≢ 0
      → th.curr_ts + 1 < word64
      → get_next_ts true batch th db ≡ ok (th.curr_ts, at_ts th (th.curr_ts + 1), db)
  unfolding get_next_ts batch_ts get_ts
  batch_ts-on ne h =
      rw (positive, on (th.curr_ts % batch) ne, back_one th.curr_ts h)
        (ap (λ (n : ℕ). ok (th.curr_ts, at_ts th n, db)) (omega arith))
    where
      on : (n : ℕ) → n ≢ 0 → (n == 0) ≡ false
      on n ne = ground arith

-- With batches, a thread that goes on in its batch does not move the clock, so a thread that begins one gets a
-- time that the first has had already.
pub get_next_ts-batch_repeats :
    (batch : ℕ) (a b : Thread) (db : Database)
    → 1 < batch
    → db.timestamp + 2 < word64
    → a.curr_ts % batch ≡ 0
    → b.curr_ts % batch ≡ 0
    → (db.timestamp + 1) % batch ≢ 0
    → (a₁ a₂ b₁ : Thread) × (db₁ db₂ db₃ : Database) × (get_next_ts true batch a db
        ≡ ok (db.timestamp, a₁, db₁))
      × (get_next_ts true batch a₁ db₁ ≡ ok (db.timestamp + 1, a₂, db₂))
      × (get_next_ts true batch b db₂ ≡ ok (db.timestamp + 1, b₁, db₃))
get_next_ts-batch_repeats batch a b db lt h x y z =
    let a₁ = at_ts a (db.timestamp + 1) in
    (
      a₁,
      at_ts a (db.timestamp + 1 + 1),
      at_ts b (db.timestamp + 1 + 1),
      ticked db,
      ticked db,
      ticked (ticked db),
      batch_ts-fresh batch lt a db x (omega arith),
      batch_ts-on batch lt a₁ (ticked db) z (omega arith),
      batch_ts-fresh batch lt b (ticked db) y (omega arith),
    )
