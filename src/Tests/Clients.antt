-- ===== src/Tests/Clients.antt =====
-- Clients, from the lines that they send.
use data_agent_demo.Prelude.{ℕ, ◌+◌, ◌≡◌, refl, true, false, none, List, [], ◌∷◌}
use data_agent_demo.Run.{Run, ok, fault}
use data_agent_demo.Bytes.{Bytes, codes, memcpy_at}
use data_agent_demo.Database.{load, store}
use data_agent_demo.Row.{copy}
use data_agent_demo.Catalog.{get_field_index, get_field_size}
use data_agent_demo.Engine.{TxnHandle, Engine, Rc, error, commit, abort_txn, begin_txn}
use data_agent_demo.Engine.Codes.{is_some}
use data_agent_demo.Session.{Session, Outcome, execute, handle_client}
use data_agent_demo.Session.Replies.{Keeps, execute-Keeps, handle_client-closed}
use data_agent_demo.Tests.{zeros, tiny_db}

abbrev digit : ℕ → Bytes
digit n = (n + 48) ∷ []

abbrev tiny_engine : Engine
tiny_engine = record { db = tiny_db; g_txn_id = 1 }

abbrev no_handle : TxnHandle
no_handle = record { impl = none; id = 0 }

abbrev fresh_handle : TxnHandle
fresh_handle = (begin_txn tiny_engine no_handle).1

abbrev began : Engine
began = (begin_txn tiny_engine no_handle).2

-- the value of a run that has one
abbrev value_or {ℓ} : {A : Type ℓ} → A → Run A → A
value_or a (ok b) = b
value_or a (fault f) = a

abbrev committed : Rc × TxnHandle × Engine
committed = value_or (error, no_handle, tiny_engine) (commit began fresh_handle)

committed_run : commit began fresh_handle ≡ ok committed
unfolding commit begin_txn load store
committed_run = refl

abbrev aborted : Rc × TxnHandle × Engine
aborted = value_or (error, no_handle, tiny_engine) (abort_txn began fresh_handle)

aborted_run : abort_txn began fresh_handle ≡ ok aborted
unfolding abort_txn begin_txn load store
aborted_run = refl

abbrev session : Session
session = record { tx = fresh_handle; in_txn = true; engine = began }

abbrev outcome : Outcome
outcome =
    value_or (record { reply = []; session = session; goes_on = true })
      (execute zeros digit session (codes "get k"))

outcome_run : execute zeros digit session (codes "get k") ≡ ok outcome
unfolding execute begin_txn load store copy memcpy_at get_field_index
outcome_run = refl

in_step : is_some session.tx.impl ≡ true
unfolding begin_txn
in_step = refl

execute-Keeps_example : Keeps outcome
execute-Keeps_example =
    execute-Keeps zeros digit session in_step (codes "get k") outcome outcome_run

-- A client that reads in a transaction and hangs up.
abbrev script : List Bytes
script = codes "START" ∷ codes "get k" ∷ codes "PUT k w" ∷ []

abbrev talk : List Bytes × Session
talk = value_or ([], session) (handle_client zeros digit tiny_engine script)

talk_run : handle_client zeros digit tiny_engine script ≡ ok talk
unfolding handle_client begin_txn load store copy memcpy_at get_field_index get_field_size
talk_run = refl

handle_client-closed_example : is_some talk.1.tx.impl ≡ false
handle_client-closed_example =
    handle_client-closed zeros digit tiny_engine script talk.0 talk.1 talk_run

talk_replies :
    talk.0
    ≡ codes "WELCOME DataAgentDB\n" ∷ codes "OK TXN 1\n" ∷ codes "OK VALUE v\n" ∷ codes "OK\n" ∷ []
unfolding handle_client begin_txn load store copy memcpy_at get_field_index get_field_size
talk_replies = refl
