-- ===== src/Server/Lines.antt =====
-- What read_line and send_all of Server/server.cpp do with whole lines and texts.
use mathlib.Core.List.{append_assoc, append-nil}
use data_agent_demo.Bytes.Laws.{take_all}
use data_agent_demo.Prelude.{
  zero, suc, sym, take, drop, take-append-drop, length-take, ℕ, ◌+◌, ◌-◌, ◌≤◌, ◌<◌, ◌≡◌, ◌≢◌, ◌↔◌,
  ◌⊎◌, inl, inr, refl, ap, ◌∙◌, Bool, true, false, Option, some, List, [], ◌∷◌, ◌++◌, ltb, ◌==◌,
  arith, if◌then◌else◌, length, min, map, length-append, Bool-cases,
}
use data_agent_demo.Bytes.{Bytes}
use data_agent_demo.Server.{
  Received, byte, closed, interrupted, failed, Line, newline, carriage_return, max_line, push,
  read_on, read_line, Sent, took, send_interrupted, send_failed, send_on, send_all,
}

-- The bytes of a line without '\r'.
abbrev pub visible : Bytes → Bytes
visible [] = []
visible (c ∷ cs) = if c == carriage_return then visible cs else c ∷ visible cs

-- No byte ends the line.
abbrev pub OneLine : Bytes → Type 0
OneLine [] = Unit {0}
OneLine (c ∷ cs) = (c ≢ newline) × OneLine cs

push-visible :
    (out : Bytes) (c : ℕ) (cs : Bytes) → push out c ++ visible cs ≡ out ++ visible (c ∷ cs)
push-visible out c cs = elim (Bool-cases (c == carriage_return)) [
  | inl e ↦ rw e refl
  | inr e ↦ rw e (append_assoc out (c ∷ []) (visible cs))
]

read_on-line :
    (out cs : Bytes) (later : List Received)
    → OneLine cs
    → length out + length (visible cs) ≤ max_line
    → read_on out (map byte cs ++ byte newline ∷ later)
      ≡ some (record { okay = true; text = out ++ visible cs; later = later })
unfolding read_on
read_on-line out [] later h le = rw append-nil refl
read_on-line out (c ∷ cs) later h le =
    let same : push out c ++ visible cs ≡ out ++ visible (c ∷ cs) = push-visible out c cs in
    let size : length (push out c) + length (visible cs) ≤ max_line = omega (
      arith,
      ap length same,
      length-append (push out c) (visible cs),
      length-append out (visible (c ∷ cs)),
    ) in
    rw (ne_newline c h.0, fits (length (push out c)) (omega arith))
      (read_on-line (push out c) cs later h.1 size
        ∙ ap (λ text. some (record { okay = true; text = text; later = later })) same)
  where
    ne_newline : (c : ℕ) → c ≢ newline → (c == newline) ≡ false
    ne_newline c ne = ground arith

    fits : (n : ℕ) → n ≤ max_line → ltb max_line n ≡ false
    fits n le = ground arith

-- A line of at most 64 KiB arrives whole: `read_line` reports success with its bytes, less every '\r' and the
-- newline, and leaves what follows unread.
pub read_line-line :
    (cs : Bytes) (later : List Received)
    → OneLine cs
    → length (visible cs) ≤ max_line
    → read_line (map byte cs ++ byte newline ∷ later)
      ≡ some (record { okay = true; text = visible cs; later = later })
unfolding read_line
read_line-line cs later h le = read_on-line [] cs later h (omega arith)

read_on_bounds :
    (out : Bytes) (events : List Received) (l : Line)
    → length out ≤ max_line
    → read_on out events ≡ some l
    → (length l.text ≤ max_line) × ((l.okay ≡ true) ⊎ (l.text ≡ []))
unfolding read_on
read_on_bounds out [] l le e = cc
read_on_bounds out (closed ∷ later) l le e = ground arith
read_on_bounds out (interrupted ∷ later) l le e = read_on_bounds out later l le e
read_on_bounds out (failed ∷ later) l le e = ground arith
read_on_bounds out (byte c ∷ later) l le e = elim (Bool-cases (c == newline)) [
  | inl end ↦ ground arith
  | inr more ↦ elim (Bool-cases (ltb max_line (length (push out c)))) [
    | inl long ↦ ground arith
    | inr short ↦
        read_on_bounds (push out c) later l (within (length (push out c)) short)
          (rw (more, short) at e)
  ]
]
  where
    within : (n : ℕ) → ltb max_line n ≡ false → n ≤ max_line
    within n h = ground arith

-- Whatever `recv` returns, a line that `read_line` reports as read has at most 64 KiB, and one that it reports
-- as not read is empty.
pub read_line_bounds :
    (events : List Received) (l : Line)
    → read_line events ≡ some l
    → (length l.text ≤ max_line) × ((l.okay ≡ true) ⊎ (l.text ≡ []))
unfolding read_line
read_line_bounds events l e = read_on_bounds [] events l (omega arith) e

take-nil : (n : ℕ) → ◌≡◌ {A = Bytes} (take n []) []
take-nil zero = refl
take-nil (suc n) = refl

-- What goes out stays a front of the text.
front-more :
    (text : Bytes) (sent n : ℕ) → take sent text ++ take n (drop sent text) ≡ take (sent + n) text
front-more text zero n = ap (λ k. take k text) (omega arith)
front-more [] (suc sent) n = take-nil n ∙ sym (take-nil (suc sent + n))
front-more (c ∷ text) (suc sent) n =
    ap (◌∷◌ c) (front-more text sent n) ∙ ap (λ k. take k (c ∷ text)) suc_add
  where
    suc_add : suc (sent + n) ≡ suc sent + n
    suc_add = omega arith

-- The first `sent` bytes of the text are out when the loop comes to its end or to a failure.
Out : Bytes → ℕ → Bool → Bytes → Type 0
Out text sent b out =
    (sent ≤ length text) × (out ≡ take sent text) × ((b ≡ true) ↔ (sent ≡ length text))

send_on-Out :
    (text : Bytes) (sent : ℕ) (events : List Sent) (b : Bool) (out : Bytes)
    → sent ≤ length text
    → send_on text sent (take sent text) events ≡ some (b, out)
    → (n : ℕ) × Out text n b out
unfolding send_on Out
send_on-Out text sent [] b out le e = (sent, ground arith)
send_on-Out text sent (took k ∷ later) b out le e = elim (Bool-cases (ltb sent (length text))) [
  | inl more ↦ send_on-Out text (sent + min k (length text - sent)) later b out (omega arith) (
      ap (λ (front : Bytes). send_on text (sent + min k (length text - sent)) front later)
        (sym (front-more text sent (min k (length text - sent))))
      ∙ (rw more at e))
  | inr done ↦ (sent, ground arith)
]
send_on-Out text sent (send_interrupted ∷ later) b out le e =
    elim (Bool-cases (ltb sent (length text))) [
      | inl more ↦ send_on-Out text sent later b out le (rw more at e)
      | inr done ↦ (sent, ground arith)
    ]
send_on-Out text sent (send_failed ∷ later) b out le e = (sent, ground arith)

whole_iff : (text : Bytes) (n : ℕ) → n ≤ length text → (n ≡ length text) ↔ (take n text ≡ text)
whole_iff text n le =
    ((λ e. take_all n text (sym e)), (λ e. omega (arith, ap length e, length-take n text)))

-- Whatever `send` returns, the bytes that `send_all` has handed over when it returns are a front of the text, in
-- order, none twice and none left out, and it returns true exactly when they are the whole text.
pub send_all_sound :
    (text : Bytes) (events : List Sent) (b : Bool) (out : Bytes)
    → send_all text events ≡ some (b, out)
    → ((rest : Bytes) × (out ++ rest ≡ text)) × ((b ≡ true) ↔ (out ≡ text))
unfolding send_all Out
send_all_sound text events b out e =
    let (n, (le, front, whole)) = send_on-Out text 0 events b out (omega arith) e in
    let (to, from) = whole_iff text n le in
    (
      (drop n text, ap (λ (sent : Bytes). sent ++ drop n text) front ∙ take-append-drop n text),
      ((λ t. front ∙ to (whole.0 t)), (λ t. whole.1 (from (sym front ∙ t)))),
    )

-- Every `send` takes at least a byte or is interrupted by a signal.
abbrev pub Progress : List Sent → Type 0
Progress [] = Unit {0}
Progress (took n ∷ later) = (0 < n) × Progress later
Progress (send_interrupted ∷ later) = Progress later
Progress (send_failed ∷ later) = ⊥

-- The number of calls that take bytes.
abbrev pub taken : List Sent → ℕ
taken [] = 0
taken (took n ∷ later) = suc (taken later)
taken (send_interrupted ∷ later) = taken later
taken (send_failed ∷ later) = taken later

-- With all bytes out the loop returns true.
complete :
    (text : Bytes) (sent : ℕ) (events : List Sent)
    → sent ≤ length text
    → ltb sent (length text) ≡ false
    → send_on text sent (take sent text) events ≡ some (true, text)
unfolding send_on
complete text sent events le done = by_event events
  where
    same_length : (i n : ℕ) → i ≤ n → ltb i n ≡ false → n ≡ i
    same_length i n le done = ground arith

    all_out : ◌≡◌ {A = Option (Bool × Bytes)} (some (true, take sent text)) (some (true, text))
    all_out =
        ap (λ (t : Bytes). some (true, t))
          (take_all sent text (same_length sent (length text) le done))

    by_event : (events : List Sent) → send_on text sent (take sent text) events ≡ some (true, text)
    by_event [] = rw done all_out
    by_event (took k ∷ later) = rw done all_out
    by_event (send_interrupted ∷ later) = rw done all_out
    by_event (send_failed ∷ later) = rw done all_out

further :
    (i n k rest : ℕ) → 0 < k → ltb i n ≡ true → n ≤ i + suc rest → n ≤ (i + min k (n - i)) + rest
further i n k rest some_byte more enough = ground arith

send_on_total :
    (text : Bytes) (sent : ℕ) (events : List Sent)
    → sent ≤ length text
    → length text ≤ sent + taken events
    → Progress events
    → send_on text sent (take sent text) events ≡ some (true, text)
unfolding send_on
send_on_total text sent [] le enough h =
    complete text sent [] le (not_less sent (length text) enough)
  where
    not_less : (i n : ℕ) → n ≤ i + 0 → ltb i n ≡ false
    not_less i n le = ground arith
send_on_total text sent (took k ∷ later) le enough h = elim (Bool-cases (ltb sent (length text))) [
  | inl more ↦
      rw (more, front-more text sent (min k (length text - sent)))
        (send_on_total text (sent + min k (length text - sent)) later (omega arith)
          (further sent (length text) k (taken later) h.0 more enough) h.1)
  | inr done ↦ complete text sent (took k ∷ later) le done
]
send_on_total text sent (send_interrupted ∷ later) le enough h =
    elim (Bool-cases (ltb sent (length text))) [
      | inl more ↦ rw more (send_on_total text sent later le enough h)
      | inr done ↦ complete text sent (send_interrupted ∷ later) le done
    ]
send_on_total text sent (send_failed ∷ later) le enough h = absurd h

-- A text goes out whole, each byte once and in order, when every `send` takes at least a byte or is interrupted,
-- and as many calls take bytes as the text has: `send_all` returns true.
pub send_all_total :
    (text : Bytes) (events : List Sent)
    → Progress events
    → length text ≤ taken events
    → send_all text events ≡ some (true, text)
unfolding send_all
send_all_total text events h enough = send_on_total text 0 events (omega arith) (omega arith) h
