-- ===== src/Session.antt =====
-- Server/session.cpp: the commands of one client.
pub mod Words
pub mod Replies
use data_agent_demo.Prelude.{
  ℕ, zero, suc, ◌+◌, ◌-◌, ◌≡◌, Bool, true, false, not, ◌&&◌, ◌||◌, Option, none, some, List, [],
  ◌∷◌, ◌++◌, map, ltb, leb, ◌==◌, if◌then◌else◌, length, drop,
}
use Prim.Native.String.{String}
use data_agent_demo.Run.{Run, ok, ◌>>=◌}
use data_agent_demo.Env.{Env}
use data_agent_demo.Bytes.{Bytes, codes}
use data_agent_demo.Engine
use data_agent_demo.Engine.{
  Rc, ok_rc, not_found, abort, error, TxnHandle, Engine, begin_txn, get, put, commit, abort_txn,
}

-- `std::isspace` in the C locale
unfoldable pub is_space : ℕ → Bool
is_space c = c == b' ' || (leb 9 c && leb c 13)

abbrev flush : Bytes → List Bytes → List Bytes
flush [] words = words
flush (c ∷ cs) words = (c ∷ cs) ∷ words

-- `while (iss >> t) v.push_back (t)`, with the word read so far
unfoldable pub words_on : Bytes → Bytes → List Bytes
unfolding is_space
words_on word [] = flush word []
words_on word (c ∷ cs) =
    let more = words_on (word ++ c ∷ []) cs in
    let next = words_on [] cs in if is_space c then flush word next else more

unfoldable pub split_ws : Bytes → List Bytes
unfolding words_on
split_ws s = words_on [] s

-- `std::toupper` in the C locale
unfoldable pub to_upper : ℕ → ℕ
to_upper c = if leb b'a' c && leb c b'z' then c - 32 else c

unfoldable pub upper : Bytes → Bytes
unfolding to_upper
upper = map to_upper

unfoldable pub same : Bytes → Bytes → Bool
same [] [] = true
same (a ∷ as') (b ∷ bs) = a == b && same as' bs
same _ _ = false

-- What follows the first blank of a text: `find (' ')` and the text behind it.
unfoldable pub behind_blank : Bytes → Option Bytes
behind_blank [] = none
behind_blank (c ∷ cs) = let rest = behind_blank cs in if c == b' ' then some cs else rest

-- The value of a PUT: the line behind its second blank, or nothing.
unfoldable pub put_value : Bytes → Bytes
unfolding behind_blank
put_value line = elim (behind_blank line) [
  | none ↦ []
  | some rest ↦ elim (behind_blank rest) [ none ↦ [] | some value ↦ value ]
]

-- The two variables of `handle_client`, with the engine.
pub record Session : Type 0 where
  pub tx : TxnHandle
  pub in_txn : Bool
  pub engine : Engine

-- What a command sends, and whether the loop goes on.
pub record Outcome : Type 0 where
  pub reply : Bytes
  pub session : Session
  pub goes_on : Bool

abbrev say : String → Session → Run Outcome
say text s = ok (record { reply = codes text; session = s; goes_on = true })

-- `std::to_string`, a parameter of the session
module _ (env : Env) (to_string : ℕ → Bytes) where
  unfoldable pub start : Session → Run Outcome
  unfolding begin_txn
  start s =
      if s.in_txn
      then say "ERR TXN_ALREADY_STARTED\n" s
      else let (rc, tx, engine) = begin_txn s.engine s.tx in
        elim rc [
          | ok_rc ↦ ok (record {
            reply = codes "OK TXN " ++ to_string tx.id ++ codes "\n";
            session = record { tx = tx; in_txn = true; engine = engine };
            goes_on = true;
          })
          | _ ↦ say "ERR START_FAIL\n" (record s { tx = tx; engine = engine })
        ]

  get_reply : Rc → Bytes → Session → Run Outcome
  get_reply ok_rc val s =
      ok (record { reply = codes "OK VALUE " ++ val ++ codes "\n"; session = s; goes_on = true })
  get_reply not_found val s = say "ERR NOT_FOUND\n" s
  get_reply abort val s = say "ERR ABORT\n" (record s { in_txn = false })
  get_reply error val s = say "ERR GET_FAIL\n" s

  get_args : Session → List Bytes → Run Outcome
  unfolding get get_reply
  get_args s (key ∷ []) = do
    (rc, val, tx, engine) ← get env s.engine s.tx key []
    get_reply rc val (record s { tx = tx; engine = engine })
  get_args s _ = say "ERR USAGE GET <key>\n" s

  -- `args` are the words behind the command.
  unfoldable pub get_command : Session → List Bytes → Run Outcome
  unfolding get_args
  get_command s args = if s.in_txn then get_args s args else say "ERR NO_ACTIVE_TXN\n" s

  put_reply : Rc → Session → Run Outcome
  put_reply ok_rc s = say "OK\n" s
  put_reply abort s = say "ERR ABORT\n" (record s { in_txn = false })
  put_reply _ s = say "ERR PUT_FAIL\n" s

  put_args : Session → Bytes → List Bytes → Run Outcome
  unfolding put put_reply put_value
  put_args s line (key ∷ word ∷ rest) = do
    (rc, tx, engine) ← put env s.engine s.tx key (put_value line)
    put_reply rc (record s { tx = tx; engine = engine })
  put_args s line _ = say "ERR USAGE PUT <key> <value>\n" s

  unfoldable pub put_command : Session → Bytes → List Bytes → Run Outcome
  unfolding put_args
  put_command s line args = if s.in_txn then put_args s line args else say "ERR NO_ACTIVE_TXN\n" s

  commit_reply : Rc → Session → Run Outcome
  commit_reply ok_rc s = say "OK COMMIT\n" s
  commit_reply abort s = say "ERR ABORT\n" s
  commit_reply _ s = say "ERR COMMIT_FAIL\n" s

  commit_open : Session → Run Outcome
  unfolding commit commit_reply
  commit_open s = do
    (rc, tx, engine) ← commit s.engine s.tx
    commit_reply rc (record { tx = tx; in_txn = false; engine = engine })

  unfoldable pub commit_command : Session → Run Outcome
  unfolding commit_open
  commit_command s = if s.in_txn then commit_open s else say "ERR NO_ACTIVE_TXN\n" s

  -- `abort_txn (tx); in_txn = false`
  unfoldable pub drop_txn : Session → Run Session
  unfolding abort_txn
  drop_txn s = do
    (rc, tx, engine) ← abort_txn s.engine s.tx
    ok (record { tx = tx; in_txn = false; engine = engine })

  abort_open : Session → Run Outcome
  unfolding drop_txn
  abort_open s = do s' ← drop_txn s; say "OK ABORT\n" s'

  unfoldable pub abort_command : Session → Run Outcome
  unfolding abort_open
  abort_command s = if s.in_txn then abort_open s else say "ERR NO_ACTIVE_TXN\n" s

  unfoldable pub end_command : Session → Run Outcome
  unfolding drop_txn
  end_command s = do
    s' ← (if s.in_txn then drop_txn s else ok s)
    ok (record { reply = codes "BYE\n"; session = s'; goes_on = false })

  dispatch : Session → Bytes → Bytes → List Bytes → Run Outcome
  unfolding same start get_command put_command commit_command abort_command end_command
  dispatch s line cmd args =
      if same cmd (codes "START")
      then start s
      else if same cmd (codes "GET")
      then get_command s args
      else if same cmd (codes "PUT")
      then put_command s line args
      else if same cmd (codes "COMMIT")
      then commit_command s
      else if same cmd (codes "ABORT")
      then abort_command s
      else if same cmd (codes "END") || (same cmd (codes "QUIT") || same cmd (codes "EXIT"))
      then end_command s
      else say "ERR BAD_CMD\n" s

  run_words : Session → Bytes → List Bytes → Run Outcome
  unfolding dispatch upper
  run_words s line [] = say "ERR EMPTY_CMD\n" s
  run_words s line (cmd ∷ args) = dispatch s line (upper cmd) args

  -- one round of the loop of `handle_client`, on a line that was read
  unfoldable pub execute : Session → Bytes → Run Outcome
  unfolding run_words split_ws
  execute s line = run_words s line (split_ws line)

  -- The loop on the lines of a client: the replies and the last state. When the lines end the client is
  -- gone, and an open transaction is aborted.
  unfoldable pub serve : Session → List Bytes → Run (List Bytes × Session)
  unfolding execute drop_txn
  serve s [] = do s' ← (if s.in_txn then drop_txn s else ok s); ok ([], s')
  serve s (line ∷ lines) = do
    o ← execute s line
    let later = (do (replies, s') ← serve o.session lines; ok (o.reply ∷ replies, s'))
    if o.goes_on then later else ok (o.reply ∷ [], o.session)

  -- `handle_client`
  unfoldable pub handle_client : Engine → List Bytes → Run (List Bytes × Session)
  unfolding serve
  handle_client engine lines = do
    (replies, s) ←
        serve (record { tx = record { impl = none; id = 0 }; in_txn = false; engine = engine })
          lines
    ok (codes "WELCOME DataAgentDB\n" ∷ replies, s)
