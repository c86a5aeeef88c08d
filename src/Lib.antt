-- ===== src/Lib.antt =====
-- DataAgentDB: a transactional key-value server with optimistic concurrency control.
--
-- A client sends lines over TCP (Server/server.cpp). Server/session.cpp turns each line into a command on the
-- session's transaction handle, Server/kv_api.cpp maps the handle's operations to a transaction object, and
-- Storage/ does the work: a transaction (System/txn.cpp) finds rows through a hash index
-- (DataFormat/index_hash.cpp), works on private copies of them (DataFormat/row.cpp), and at the commit the
-- validator (concurrency_control/occ.cpp) sorts its access set, latches each row and compares its time of the
-- last write (occ_row.cpp), and installs the copies under a new time of the global clock (System/manager.cpp).
--
-- The files, and the code that each is about:
--   Prelude        numbers, lists and tests that all files share
--   Run            the outcome of code with undefined behaviour: a value, or the fault at which it ends
--   Bytes          the C string and memory routines that the storage code calls
--   System         enumerations of Storage/System/global.h and limits of config.h
--   Env            std::hash and the memory of _mm_malloc, parameters of the model
--   Catalog        Storage/DataFormat/catalog.h and catalog.cpp; Layout: where columns lie
--   Row            Storage/DataFormat/row.h, row.cpp, table.h; Fields: writes to columns
--   Row/Occ        Storage/concurrency_control/occ_row.cpp: the time and the latch of a row
--   IndexHash      Storage/DataFormat/index_hash.h and index_hash.cpp; View: the index as a map;
--                  History: reads after a series of insertions
--   Database       the memory of rows, the clock of Storage/System/manager.cpp, DataFormat/table.cpp
--   Txn            Storage/System/txn.h and txn.cpp: access sets, copies, cleanup; Ops: Read and Write
--   Txn/Validate   Storage/concurrency_control/occ.cpp: OptCC::validate, and txn_man::finish
--   Txn/Sets       read and write sets of occ.cpp, and OptCC::init
--   Txn/Ids        the other fields of txn_man, and txn_man::release
--   Txn/Open       txn_man::get_row, on a row with no entry yet; Copies: row_t::get_row
--   Txn/KeyRows, Txn/OwnWrites
--                  Write and then Read of one key
--   Txn/Commit, Txn/Abort, Txn/Insert
--                  the validator as a whole, on Opened, Accesses, Sort, Order, Ascends, Passes, Release, Returns,
--                  Stages, Ends
--   World          several transactions on one database; Alls, Evolve, Visit, Change, Revisit, Finish, Outcome,
--                  Settle: what one step keeps; Histories: what all steps keep; Race: two transactions, one row;
--                  Latches: the latching loops of several validations; Begun, Dirty: a new key, before the commit
--   Overlap        threads that run OptCC::validate at the same time, a step of one thread at a time; Store, Own,
--                  Moves, Rounds, Entries: one thread; Turn: the invariant of all; Latch, Unlatch, Install, Plain,
--                  Steps, Changes, Advance: its steps; Reached: all histories; Commits, Progress: what the latches
--                  give; Ranks, Order, Waiting, Deadlock: who waits for whom; Alone, Whole: one thread alone, and
--                  the whole call of Txn/Validate; Written, Installed: what a commit has written
--   Schema         workload::init_schema of Storage/test/wl.cpp; Columns: column lines; File: a whole file
--   Alloc          Storage/System/mem_alloc.h and mem_alloc.cpp; Arenas: blocks, classes and threads
--   Helper         Storage/System/helper.h and helper.cpp; Keys: merged keys; Links: the macros for stacks and
--                  linked lists; Queue: the linked list as a queue
--   Manager        Storage/System/manager.h and manager.cpp, less the clock
--   Thread         Storage/System/thread.h and thread.cpp; Times: the times of the threads
--   Bench          Storage/test/test_wl.cpp and test_txn.cpp; Buffers: values shorter than their columns
--   Engine         Server/kv_api.h and kv_api.cpp; Codes: the result codes; Conflicts: what they say of
--                  rows; Start: init_engine, and main.cpp
--   Server         Server/server.cpp; Lines: whole lines and texts; Listen: the socket and the accept loop
--   Session        Server/session.cpp; Words: lines and their words; Replies: the session's state
--   Tests          concrete inputs, and the theorems at them
--
-- State is passed explicitly. A pointer to a row is an address in `Database.rows`; a freed address stays freed,
-- so a use after free is a fault of the model. A failed `assert` and an access out of bounds are faults too. The
-- 64-bit and 32-bit counters wrap around where the source lets them. A latch that is taken twice by one thread
-- is the fault `deadlock`. In the files up to World a call of an operation is atomic, and World interleaves whole
-- calls of several transactions that insert no rows. Overlap takes `validate` apart: a step is one round of one of
-- its loops or its call of `get_ts`, and a step of any thread may come next. A thread that finds a latch taken has
-- no step until it is free. No transaction of Overlap inserts rows. A `get_row` holds its latch from its start to its end, and is one step there too.
--
-- Only the probe of Alloc for a thread's entry needs fuel, as many steps as the table has entries: after those it
-- is back where it began. Of the other loops those of the access set recur on its counters, those of the index on
-- its lists, those of the schema on its lines, and those of the sockets on the list of what the system calls
-- return, so a loop that outlives its list has no result.
--
-- Not modelled: the print functions, the macros of helper.h for statistics and allocation, which nothing
-- uses, the clocks of the machine, and the Python agent. The body of thread_t::run is commented out in the source.
-- The system calls are values or functions that the model takes. The arenas of Alloc are modelled apart: the build
-- has THREAD_ALLOC off, so that for the other files mem_allocator.alloc and free are malloc and free.
pub mod Prelude
pub mod Run
pub mod Bytes
pub mod System
pub mod Catalog
pub mod Env
pub mod Alloc
pub mod Row
pub mod IndexHash
pub mod Database
pub mod Helper
pub mod Manager
pub mod Schema
pub mod Thread
pub mod Txn
pub mod Bench
pub mod World
pub mod Overlap
pub mod Engine
pub mod Server
pub mod Session
pub mod Tests
