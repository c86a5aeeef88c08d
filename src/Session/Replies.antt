-- ===== src/Session/Replies.antt =====
-- The state of a session of Server/session.cpp from command to command.
use data_agent_demo.Prelude.{
  ℕ, ◌≡◌, ◌⊎◌, inl, inr, refl, Bool, true, false, List, [], ◌∷◌, arith, if◌then◌else◌, Bool-cases,
  ◌||◌,
}
use data_agent_demo.Run.{Run, ok, >>=-eq-ok}
use data_agent_demo.Env.{Env}
use data_agent_demo.Bytes.{Bytes, codes}
use data_agent_demo.Engine.{Engine, begin_txn, get, put, commit, abort_txn}
use data_agent_demo.Engine.Codes.{
  is_some, get-Answers, put-Answers, commit-Answers, abort_txn-Answers,
}
use data_agent_demo.Session.{
  Session, Outcome, start, get_reply, get_args, get_command, put_reply, put_args, put_command,
  commit_reply, commit_open, commit_command, drop_txn, abort_open, abort_command, end_command,
  dispatch, run_words, same, put_value, upper, split_ws, execute, serve, handle_client,
}

-- The flag says whether the handle has a transaction.
abbrev pub InSync : Session → Type 0
InSync s = is_some s.tx.impl ≡ s.in_txn

-- A command keeps the flag in step, and the loop ends only with no transaction.
abbrev pub Keeps : Outcome → Type 0
Keeps o = InSync o.session × ((o.goes_on ≡ true) ⊎ (o.session.in_txn ≡ false))

choose :
    (P : Type 0) (b : Bool) (m n : Run Outcome) (o : Outcome)
    → (m ≡ ok o → P)
    → (n ≡ ok o → P)
    → (if b then m else n) ≡ ok o
    → P
choose P true m n o f g e = f e
choose P false m n o f g e = g e

module _ (env : Env) (to_string : ℕ → Bytes) (s : Session) (sync : InSync s) where
  start-Keeps : (o : Outcome) → start env to_string s ≡ ok o → Keeps o
  unfolding start begin_txn
  start-Keeps o e = ground arith

  get_args-Keeps :
      (args : List Bytes) (o : Outcome)
      → s.in_txn ≡ true
      → get_args env to_string s args ≡ ok o
      → Keeps o
  unfolding get_args get_reply
  get_args-Keeps [] o t e = ground arith
  get_args-Keeps (key ∷ []) o t e =
      let ((rc, val, tx, engine), f, g) = >>=-eq-ok (get env s.engine s.tx key []) _ e in
      let (a, b) = get-Answers env s.engine s.tx key [] rc val tx engine f in ground arith
  get_args-Keeps (key ∷ word ∷ rest) o t e = ground arith

  put_args-Keeps :
      (line : Bytes) (args : List Bytes) (o : Outcome)
      → s.in_txn ≡ true
      → put_args env to_string s line args ≡ ok o
      → Keeps o
  unfolding put_args put_reply
  put_args-Keeps line [] o t e = ground arith
  put_args-Keeps line (key ∷ []) o t e = ground arith
  put_args-Keeps line (key ∷ word ∷ rest) o t e =
      let ((rc, tx, engine), f, g) = >>=-eq-ok (put env s.engine s.tx key (put_value line)) _ e in
      let (a, b) = put-Answers env s.engine s.tx key (put_value line) rc tx engine f in ground arith

  commit_open-Keeps : (o : Outcome) → commit_open env to_string s ≡ ok o → Keeps o
  unfolding commit_open commit_reply
  commit_open-Keeps o e =
      let ((rc, tx, engine), f, g) = >>=-eq-ok (commit s.engine s.tx) _ e in
      let (a, b) = commit-Answers s.engine s.tx rc tx engine f in ground arith

  drop_txn-InSync :
      (s' : Session) → drop_txn env to_string s ≡ ok s' → InSync s' × (s'.in_txn ≡ false)
  unfolding drop_txn
  drop_txn-InSync s' e =
      let ((rc, tx, engine), f, g) = >>=-eq-ok (abort_txn s.engine s.tx) _ e in
      let (a, b) = abort_txn-Answers s.engine s.tx rc tx engine f in ground arith

  end_command-Keeps : (o : Outcome) → end_command env to_string s ≡ ok o → Keeps o
  unfolding end_command
  end_command-Keeps o e = elim (Bool-cases s.in_txn) [
    | inl open_txn ↦
        let (s', f, g) = >>=-eq-ok (drop_txn env to_string s) _ (rw open_txn at e) in
        let (a, b) = drop_txn-InSync s' f in ground arith
    | inr no_txn ↦ ground arith
  ]

  abort_open-Keeps : (o : Outcome) → abort_open env to_string s ≡ ok o → Keeps o
  unfolding abort_open
  abort_open-Keeps o e =
      let (s', f, g) = >>=-eq-ok (drop_txn env to_string s) _ e in
      let (a, b) = drop_txn-InSync s' f in ground arith

  dispatch-Keeps :
      (line cmd : Bytes) (args : List Bytes) (o : Outcome)
      → dispatch env to_string s line cmd args ≡ ok o
      → Keeps o
  unfolding dispatch get_command put_command commit_command abort_command
  dispatch-Keeps line cmd args o =
      choose (Keeps o) (same cmd (codes "START")) _ _ o (start-Keeps o) (
        choose (Keeps o) (same cmd (codes "GET")) _ _ o get_case (
          choose (Keeps o) (same cmd (codes "PUT")) _ _ o put_case (
            choose (Keeps o) (same cmd (codes "COMMIT")) _ _ o commit_case (
              choose (Keeps o) (same cmd (codes "ABORT")) _ _ o abort_case (
                choose (Keeps o)
                  (same cmd (codes "END") || (same cmd (codes "QUIT") || same cmd (codes "EXIT"))) _
                  _ o (end_command-Keeps o) (λ e. ground arith))))))
    where
      get_case : get_command env to_string s args ≡ ok o → Keeps o
      get_case e = ground (arith, get_args-Keeps args o)

      put_case : put_command env to_string s line args ≡ ok o → Keeps o
      put_case e = ground (arith, put_args-Keeps line args o)

      commit_case : commit_command env to_string s ≡ ok o → Keeps o
      commit_case e = ground (arith, commit_open-Keeps o)

      abort_case : abort_command env to_string s ≡ ok o → Keeps o
      abort_case e = ground (arith, abort_open-Keeps o)

  run_words-Keeps :
      (line : Bytes) (ws : List Bytes) (o : Outcome)
      → run_words env to_string s line ws ≡ ok o
      → Keeps o
  unfolding run_words
  run_words-Keeps line [] o e = ground arith
  run_words-Keeps line (cmd ∷ args) o e = dispatch-Keeps line (upper cmd) args o e

  -- A command that runs without a fault, on a session whose flag `in_txn` is set exactly if its handle has a
  -- transaction, keeps the two in step. A command that ends the loop leaves no transaction.
  pub execute-Keeps : (line : Bytes) (o : Outcome) → execute env to_string s line ≡ ok o → Keeps o
  unfolding execute
  execute-Keeps line o e = run_words-Keeps line (split_ws line) o e

serve-closed :
    (env : Env) (to_string : ℕ → Bytes) (lines : List Bytes) (s : Session) (replies : List Bytes)
    (s' : Session)
    → InSync s
    → serve env to_string s lines ≡ ok (replies, s')
    → is_some s'.tx.impl ≡ false
unfolding serve
serve-closed env to_string [] s replies s' sync e = elim (Bool-cases s.in_txn) [
  | inl open_txn ↦
      let (s₁, f, g) = >>=-eq-ok (drop_txn env to_string s) _ (rw open_txn at e) in
      let (a, b) = drop_txn-InSync env to_string s sync s₁ f in ground arith
  | inr no_txn ↦ ground arith
]
serve-closed env to_string (line ∷ lines) s replies s' sync e =
    let (o, f, g) = >>=-eq-ok (execute env to_string s line) _ e in
    let (kept, ends) = execute-Keeps env to_string s sync line o f in
    elim (Bool-cases o.goes_on) [
      | inl more ↦
          let ((rs, s₁), h, i) = >>=-eq-ok (serve env to_string o.session lines) _ (rw more at g) in
          ground (arith, serve-closed env to_string lines o.session rs s₁ kept h)
      | inr last ↦ ground arith
    ]

-- However a client's session ends, by END or by hanging up, when it has run without a fault no transaction of it
-- stays open.
pub handle_client-closed :
    (env : Env) (to_string : ℕ → Bytes) (engine : Engine) (lines replies : List Bytes)
    (s' : Session)
    → handle_client env to_string engine lines ≡ ok (replies, s')
    → is_some s'.tx.impl ≡ false
unfolding handle_client
handle_client-closed env to_string engine lines replies s' e =
    let ((rs, s₁), f, g) = >>=-eq-ok (serve env to_string _ lines) _ e in
    ground (arith, serve-closed env to_string lines _ rs s₁ refl f)
