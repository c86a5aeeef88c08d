-- ===== src/Tests/Conflicts.antt =====
-- Clients whose row was, or was not, written after they began.
use data_agent_demo.Prelude.{◌≡◌, ℕ, refl, ap, ◌∙◌, false, some, inr, [], arith, drop}
use data_agent_demo.Run.{ok}
use data_agent_demo.Bytes.{codes, c_string, text_buffer}
use data_agent_demo.Bytes.Laws.{drop-append_all, length-text_buffer}
use data_agent_demo.Txn.{Txn}
use data_agent_demo.Txn.Opened.{IsOpen}
use data_agent_demo.Txn.Ops.{key_buffer, value_buffer}
use data_agent_demo.Engine.{TxnHandle, Engine, ok_rc, not_found}
use data_agent_demo.Engine.Conflicts.{Stored, Gets, PutsAndGets, get-answer, put-get}
use data_agent_demo.Tests.{zeros, tiny_item}
use data_agent_demo.Tests.OwnWrites.{
  server_db, server_row, beginner, row_idle, row_keyed, found, none_found,
}

abbrev engine : Engine
engine = record { db = server_db; g_txn_id = 2 }

-- It began at this time; the row was written at the time 3.
abbrev starter : ℕ → Txn
starter ts = record beginner { start_ts = ts }

abbrev starter_open : (ts : ℕ) → IsOpen (starter ts) server_db
starter_open ts = record {
  used = [];
  spare = [];
  split = refl;
  counted = refl;
  held = tt;
  distinct = tt;
}

abbrev handle : Txn → TxnHandle
handle t = record { impl = some t; id = 1 }

its_text : c_string (drop 128 server_row.data_bytes) ≡ ok (codes "v")
unfolding c_string text_buffer
its_text =
    ap c_string (
      drop-append_all 128 (key_buffer (codes "k")) (value_buffer (codes "v"))
        (length-text_buffer 127 (codes "k")))
    ∙ refl

abbrev stored : (ts : ℕ) → Stored zeros (starter ts) server_db [] (codes "k")
stored ts = record {
  item = tiny_item;
  row = server_row;
  idle = row_idle;
  unvisited = none_found;
  apart = tt;
  found = found;
  keyed = row_keyed;
  text = codes "v";
  reads = its_text;
}

get-answer_example : Gets zeros engine (handle (starter 2)) (codes "k") [] (not_found, [])
get-answer_example =
    get-answer zeros engine (handle (starter 2)) (starter 2) refl (starter_open 2) (omega arith)
      (codes "k") [] (inr (stored 2))

-- the same of a client that began after the write
current_reply : Gets zeros engine (handle (starter 4)) (codes "k") [] (ok_rc, codes "v")
current_reply =
    get-answer zeros engine (handle (starter 4)) (starter 4) refl (starter_open 4) (omega arith)
      (codes "k") [] (inr (stored 4))

put-get_example : PutsAndGets zeros engine (handle (starter 4)) (codes "k") (codes "w") [] false
put-get_example =
    put-get zeros engine (handle (starter 4)) (starter 4) refl (starter_open 4) (omega arith)
      (codes "k") (codes "w") [] (stored 4)
